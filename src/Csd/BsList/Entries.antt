-- ===== src/Csd/BsList/Entries.antt =====
-- libmsc/csd_bs.c: the loops over a list of bearer services as operations on the list of its
-- entries.
use osmo_msc.Base.{
  ℕ, zero, suc, ◌+◌, ◌≡◌, ◌≤◌, ◌<◌, inl, inr, refl, sym, ap, ◌∙◌, Bool, true, false, ◌&&◌, length,
  subst, List, [], ◌∷◌, ltb, if◌then◌else◌, arith, Bool-cases,
}
use osmo_msc.Csd.BearerService.{CsdBs, csd_bs_max}
use osmo_msc.Csd.BsList.{
  CsdBsList, bs_eq, set_bs, csd_bs_list_n, finds, removes, pred, csd_bs_list_has_bs,
  csd_bs_list_remove,
}

-- The `k` entries from `i` on.
abbrev pub slice : (ℕ → CsdBs) → (i k : ℕ) → List CsdBs
slice a i zero = []
slice a i (suc k) = a i ∷ slice a (suc i) k

abbrev pub entries : CsdBsList → List CsdBs
entries l = slice l.bs 0 (csd_bs_list_n l)

abbrev pub member : CsdBs → List CsdBs → Bool
member b [] = false
member b (x ∷ xs) = if bs_eq x b then true else member b xs

-- Without the first occurrence.
abbrev pub erase : CsdBs → List CsdBs → List CsdBs
erase b [] = []
erase b (x ∷ xs) = if bs_eq x b then xs else x ∷ erase b xs

pub finds-member : (a : ℕ → CsdBs) (i k : ℕ) (b : CsdBs) → finds a i k b ≡ member b (slice a i k)
finds-member a i zero b = refl
finds-member a i (suc k) b =
    ap (λ r. if bs_eq (a i) b then true else r) (finds-member a (suc i) k b)

slice_cong : (a c : ℕ → CsdBs) (i k : ℕ) → ((j : ℕ) → i ≤ j → a j ≡ c j) → slice a i k ≡ slice c i k
slice_cong a c i zero h = refl
slice_cong a c i (suc k) h =
    let e = slice_cong a c (suc i) k (λ j l. h j (omega arith)) in let f = h i (omega arith) in cc

-- A write below `i` does not show from `i` on.
pub slice_set :
    (a : ℕ → CsdBs) (p : ℕ) (b : CsdBs) (i k : ℕ) → p < i → slice (set_bs a p b) i k ≡ slice a i k
slice_set a p b i k h = slice_cong (set_bs a p b) a i k (λ j l. ground arith)

-- The loop leaves what is below its index.
removes-below :
    (n : ℕ) (b : CsdBs) (k i : ℕ) (found : Bool) (a : ℕ → CsdBs) (j : ℕ)
    → j < i
    → (removes n b k i found a).0 j ≡ a j
unfolding removes
removes-below n b zero i found a j h = refl
removes-below n b (suc k) i found a j h =
    removes-below n b k (suc i) _ _ j (omega arith) ∙ ground arith

removes-true : (n : ℕ) (b : CsdBs) (k i : ℕ) (a : ℕ → CsdBs) → (removes n b k i true a).1 ≡ true
unfolding removes
removes-true n b zero i a = refl
removes-true n b (suc k) i a = removes-true n b k (suc i) _

moves_up :
    (n : ℕ) (b : CsdBs) (k i : ℕ) (a : ℕ → CsdBs)
    → i + 1 < n
    → removes n b (suc k) i true a ≡ removes n b k (suc i) true (set_bs a i (a (i + 1)))
unfolding removes
moves_up n b k i a h =
    let e : ltb (i + 1) n ≡ true = ground arith in
    ap (λ t. removes n b k (suc i) true (if t then set_bs a i (a (i + 1)) else a)) e

finds_now :
    (n : ℕ) (b : CsdBs) (k i : ℕ) (a : ℕ → CsdBs)
    → bs_eq (a i) b ≡ true
    → removes n b (suc k) i false a ≡ removes n b (suc k) i true a
unfolding removes
finds_now n b k i a h =
    ap (λ t. removes n b k (suc i) t (if t && ltb (i + 1) n then set_bs a i (a (i + 1)) else a)) h

finds_later :
    (n : ℕ) (b : CsdBs) (k i : ℕ) (a : ℕ → CsdBs)
    → bs_eq (a i) b ≡ false
    → removes n b (suc k) i false a ≡ removes n b k (suc i) false a
unfolding removes
finds_later n b k i a h =
    ap (λ t. removes n b k (suc i) t (if t && ltb (i + 1) n then set_bs a i (a (i + 1)) else a)) h

untouched :
    (n : ℕ) (b : CsdBs) (i : ℕ) (a : ℕ → CsdBs) (j : ℕ) → (removes n b zero i false a).0 j ≡ a j
unfolding removes
untouched n b i a j = refl

-- What comes before the first occurrence stays in its place.
removes-prefix :
    (n : ℕ) (b : CsdBs) (k i p : ℕ) (a : ℕ → CsdBs)
    → ((j : ℕ) → j < p → bs_eq (a j) b ≡ false)
    → (j : ℕ) → j < p
    → (removes n b k i false a).0 j ≡ a j
removes-prefix n b zero i p a h j l = untouched n b i a j
removes-prefix n b (suc k) i p a h j l = elim (Bool-cases (bs_eq (a i) b)) [
  | inl e ↦
      let q : j < i = ground (arith, h i, e) in
      ap (λ r. r.0 j) (finds_now n b k i a e) ∙ removes-below n b (suc k) i true a j q
  | inr e ↦ ap (λ r. r.0 j) (finds_later n b k i a e) ∙ removes-prefix n b k (suc i) p a h j l
]

-- Once found, the entries behind move up by one.
removes-shift :
    (n : ℕ) (b : CsdBs) (k i : ℕ) (a : ℕ → CsdBs)
    → n ≡ i + suc k
    → slice (removes n b (suc k) i true a).0 i k ≡ slice a (suc i) k
removes-shift n b zero i a h = refl
removes-shift n b (suc k) i a h =
    let a' = set_bs a i (a (i + 1)) in
    let r = removes n b (suc k) (suc i) true a' in
    let up = ap (λ r. slice r.0 i (suc k)) (moves_up n b (suc k) i a (omega arith)) in
    let head : r.0 i ≡ a (suc i) =
      removes-below n b (suc k) (suc i) true a' i (omega arith) ∙ ground arith in
    let tail : slice r.0 (suc i) k ≡ slice a (suc (suc i)) k =
      removes-shift n b k (suc i) a' (omega arith)
      ∙ slice_set a i (a (i + 1)) (suc (suc i)) k (omega arith) in
    up ∙ ap (λ x. x ∷ slice r.0 (suc i) k) head ∙ ap (λ xs. a (suc i) ∷ xs) tail

pub slice-length : (a : ℕ → CsdBs) (i k : ℕ) → length (slice a i k) ≡ k
slice-length a i zero = refl
slice-length a i (suc k) = ap suc (slice-length a (suc i) k)

nothing_left : (n : ℕ) (b : CsdBs) (i : ℕ) (a : ℕ → CsdBs) → (removes n b zero i false a).1 ≡ false
unfolding removes
nothing_left n b i a = refl

-- What the loop leaves of the entries from `i` on.
abbrev Erases : CsdBs → (ℕ → CsdBs) → (i k : ℕ) → (ℕ → CsdBs) × Bool → Type 0
Erases b a i k r =
    (r.1 ≡ member b (slice a i k))
    × (slice r.0 i (length (erase b (slice a i k))) ≡ erase b (slice a i k))

removes-Erases :
    (n : ℕ) (b : CsdBs) (k i : ℕ) (a : ℕ → CsdBs)
    → n ≡ i + k
    → Erases b a i k (removes n b k i false a)
removes-Erases n b zero i a h = (nothing_left n b i a, refl)
removes-Erases n b (suc k) i a h = elim (Bool-cases (bs_eq (a i) b)) [
  | inl e ↦
      let p = removes-true n b (suc k) i a in
      let q = removes-shift n b k i a h in
      let l = slice-length a (suc i) k in
      subst (Erases b a i (suc k)) (sym (finds_now n b k i a e))
        (rw e (p, ap (λ m. slice (removes n b (suc k) i true a).0 i m) l ∙ q))
  | inr e ↦
      let (p, q) = removes-Erases n b k (suc i) a (omega arith) in
      let below = removes-below n b k (suc i) false a i (omega arith) in
      subst (Erases b a i (suc k)) (sym (finds_later n b k i a e)) (
        rw e (
          p,
          ap
                (λ x.
                  x
                  ∷ slice (removes n b k (suc i) false a).0 (suc i)
                      (length (erase b (slice a (suc i) k))))
                below
              ∙ ap (λ xs. a i ∷ xs) q,
        ))
]

some_left :
    (b : CsdBs) (xs : List CsdBs)
    → suc (if member b xs then pred (length xs) else length xs)
      ≡ (if member b xs then length xs else suc (length xs))
some_left b [] = refl
some_left b (x ∷ xs) = ground arith

erase-length :
    (b : CsdBs) (xs : List CsdBs)
    → length (erase b xs) ≡ (if member b xs then pred (length xs) else length xs)
erase-length b [] = refl
erase-length b (x ∷ xs) = elim (Bool-cases (bs_eq x b)) [
  | inl e ↦ rw e refl
  | inr e ↦ rw e (ap suc (erase-length b xs) ∙ some_left b xs)
]

pred_if_le : (t : Bool) (m : ℕ) → m ≤ csd_bs_max → (if t then pred m else m) ≤ csd_bs_max
pred_if_le true zero h = h
pred_if_le true (suc m) h = omega arith
pred_if_le false m h = h

-- csd_bs_list_has_bs() decides whether a service is among the entries.
pub has_bs-member : (l : CsdBsList) (b : CsdBs) → csd_bs_list_has_bs l b ≡ member b (entries l)
unfolding csd_bs_list_has_bs
has_bs-member l b = finds-member l.bs 0 (csd_bs_list_n l) b

suc-pred : (n : ℕ) {i : ℕ} → i < n → suc (pred n) ≡ n
suc-pred zero h = absurd (omega arith)
suc-pred (suc n) h = refl

pub remove-count :
    (l : CsdBsList) (b : CsdBs) → (csd_bs_list_remove l b).count ≡ length (erase b (entries l))
unfolding csd_bs_list_remove
remove-count l b =
    let n = csd_bs_list_n l in
    let (p, q) = removes-Erases n b n 0 l.bs (omega arith) in
    ap (λ t. if t then pred n else n) p
    ∙ ap (λ m. if member b (entries l) then pred m else m) (sym (slice-length l.bs 0 n))
    ∙ sym (erase-length b (entries l))

pub clamped : (l : CsdBsList) → l.count ≤ csd_bs_max → csd_bs_list_n l ≡ l.count
clamped l h = ground arith

pub n-le : (l : CsdBsList) → csd_bs_list_n l ≤ csd_bs_max
n-le l = ground arith

pub remove-count-le : (l : CsdBsList) (b : CsdBs) → (csd_bs_list_remove l b).count ≤ csd_bs_max
unfolding csd_bs_list_remove
remove-count-le l b = pred_if_le _ (csd_bs_list_n l) (n-le l)

-- csd_bs_list_remove() takes out the first entry of the service.
pub remove-erase :
    (l : CsdBsList) (b : CsdBs) → entries (csd_bs_list_remove l b) ≡ erase b (entries l)
unfolding csd_bs_list_remove
remove-erase l b =
    let n = csd_bs_list_n l in
    let (p, q) = removes-Erases n b n 0 l.bs (omega arith) in
    ap (λ m. slice (removes n b n 0 false l.bs).0 0 m)
      (clamped (csd_bs_list_remove l b) (remove-count-le l b) ∙ remove-count l b)
    ∙ q

pub remove-prefix :
    (l : CsdBsList) (b : CsdBs) (p : ℕ)
    → ((j : ℕ) → j < p → bs_eq (l.bs j) b ≡ false)
    → (j : ℕ) → j < p
    → (csd_bs_list_remove l b).bs j ≡ l.bs j
unfolding csd_bs_list_remove
remove-prefix l b p h j q = removes-prefix (csd_bs_list_n l) b (csd_bs_list_n l) 0 p l.bs h j q

member-at : (a : ℕ → CsdBs) (i k j : ℕ) → i ≤ j → j < i + k → member (a j) (slice a i k) ≡ true
member-at a i zero j h l = absurd (omega arith)
member-at a i (suc k) j h l = elim (Bool-cases (bs_eq (a i) (a j))) [
  | inl e ↦ rw e refl
  | inr e ↦ rw e (member-at a (suc i) k j (ground (arith, e)) (omega arith))
]

-- A service that is there is taken out.
pub remove-less :
    (l : CsdBsList) (i : ℕ)
    → l.count ≤ csd_bs_max
    → i < l.count
    → suc (csd_bs_list_remove l (l.bs i)).count ≡ l.count
remove-less l i h q =
    let n = clamped l h in
    let m = member-at l.bs 0 (csd_bs_list_n l) i (omega arith) (ground (arith, n)) in
    let c = remove-count l (l.bs i) ∙ erase-length (l.bs i) (entries l) in
    let t = slice-length l.bs 0 (csd_bs_list_n l) in
    let e : (csd_bs_list_remove l (l.bs i)).count ≡ pred l.count =
      c
      ∙ ap (λ x. if x then pred (length (entries l)) else length (entries l)) m
      ∙ ap pred (t ∙ n) in
    ap suc e ∙ suc-pred l.count q

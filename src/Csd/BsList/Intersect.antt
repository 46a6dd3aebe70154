-- ===== src/Csd/BsList/Intersect.antt =====
-- libmsc/csd_bs.c: the intersection of two lists of bearer services.
use osmo_msc.Base.{
  ℕ, zero, suc, ◌+◌, ◌≡◌, ◌≤◌, ◌<◌, inl, inr, refl, sym, ap, ◌∙◌, subst, true, false, List, [], ◌∷◌,
  ltb, ◌==◌, if◌then◌else◌, arith, Bool-cases,
}
use osmo_msc.Csd.BearerService.{CsdBs, code, csd_bs_max}
use osmo_msc.Csd.BsList.{
  CsdBsList, bs_eq, csd_bs_list_n, csd_bs_list_clamp, finds, csd_bs_list_has_bs, csd_bs_list_remove,
  intersects, csd_bs_list_intersection,
}
use osmo_msc.Csd.BsList.Entries.{
  slice, entries, member, erase, clamped, n-le, remove-count-le, remove-erase, remove-prefix,
  remove-less, has_bs-member,
}

-- Those that `other` has, in the order they are in.
abbrev pub keep : CsdBsList → List CsdBs → List CsdBs
keep other [] = []
keep other (x ∷ xs) = if csd_bs_list_has_bs other x then x ∷ keep other xs else keep other xs

finds-cong :
    (a : ℕ → CsdBs) (i k : ℕ) (x y : CsdBs) → code x ≡ code y → finds a i k x ≡ finds a i k y
finds-cong a i zero x y h = refl
finds-cong a i (suc k) x y h = rw (h, finds-cong a (suc i) k x y h) refl

has_bs-cong :
    (o : CsdBsList) (x y : CsdBs)
    → bs_eq x y ≡ true
    → csd_bs_list_has_bs o x ≡ csd_bs_list_has_bs o y
unfolding csd_bs_list_has_bs
has_bs-cong o x y h = finds-cong o.bs 0 (csd_bs_list_n o) x y (ground arith)

keep-erase :
    (o : CsdBsList) (x : CsdBs) (ys : List CsdBs)
    → csd_bs_list_has_bs o x ≡ false
    → keep o (erase x ys) ≡ keep o ys
keep-erase o x [] h = refl
keep-erase o x (y ∷ ys) h = elim (Bool-cases (bs_eq y x)) [
  | inl e ↦ rw (e, has_bs-cong o y x e ∙ h) refl
  | inr e ↦ rw (e, keep-erase o x ys h) refl
]

keep-all :
    (o : CsdBsList) (a : ℕ → CsdBs) (i k : ℕ)
    → ((j : ℕ) → j < i + k → csd_bs_list_has_bs o (a j) ≡ true)
    → keep o (slice a i k) ≡ slice a i k
keep-all o a i zero h = refl
keep-all o a i (suc k) h =
    rw (h i (omega arith), keep-all o a (suc i) k (λ j l. h j (omega arith))) refl

-- Between two rounds: what is before `i` is shared, and the fuel is enough for the rest.
record Round (o : CsdBsList) (fuel i : ℕ) (dest : CsdBsList) : Type 0 where
  shared : (j : ℕ) → j < i → csd_bs_list_has_bs o (dest.bs j) ≡ true
  bounded : dest.count ≤ csd_bs_max
  in_range : i ≤ dest.count
  enough : dest.count ≤ i + fuel

all_kept :
    (o : CsdBsList) (fuel i : ℕ) (dest : CsdBsList)
    → Round o fuel i dest
    → dest.count ≤ i
    → entries dest ≡ keep o (entries dest)
all_kept o fuel i dest r h =
    let n = clamped dest r.bounded in
    sym (keep-all o dest.bs 0 (csd_bs_list_n dest) (λ j l. r.shared j (ground (arith, n))))

kept-Round :
    (o : CsdBsList) (fuel i : ℕ) (dest : CsdBsList)
    → Round o (suc fuel) i dest
    → i < dest.count
    → csd_bs_list_has_bs o (dest.bs i) ≡ true
    → Round o fuel (suc i) dest
kept-Round o fuel i dest r l h = record {
  shared = λ j q. elim (Bool-cases (j == i)) [
    | inl e ↦
        let e' : j ≡ i = ground (arith, e) in ap (λ m. csd_bs_list_has_bs o (dest.bs m)) e' ∙ h
    | inr e ↦ r.shared j (ground (arith, e))
  ];
  bounded = r.bounded;
  in_range = omega arith;
  enough = omega (arith, r.enough);
}

removed-Round :
    (o : CsdBsList) (fuel i : ℕ) (dest : CsdBsList)
    → Round o (suc fuel) i dest
    → i < dest.count
    → csd_bs_list_has_bs o (dest.bs i) ≡ false
    → Round o fuel i (csd_bs_list_remove dest (dest.bs i))
removed-Round o fuel i dest r l h =
    let less = remove-less dest i r.bounded l in
    let differs : (j : ℕ) → j < i → bs_eq (dest.bs j) (dest.bs i) ≡ false = λ j q.
      elim (Bool-cases (bs_eq (dest.bs j) (dest.bs i))) [
        | inl e ↦ absurd (cc (has_bs-cong o (dest.bs j) (dest.bs i) e, h, r.shared j q))
        | inr e ↦ e
      ] in
    record {
      shared = λ j q.
          ap (csd_bs_list_has_bs o) (remove-prefix dest (dest.bs i) i differs j q) ∙ r.shared j q;
      bounded = remove-count-le dest (dest.bs i);
      in_range = omega (arith, less);
      enough = omega (arith, less, r.enough);
    }

goes_on :
    (o : CsdBsList) (fuel i : ℕ) (dest : CsdBsList)
    → i < dest.count
    → csd_bs_list_has_bs o (dest.bs i) ≡ true
    → intersects (suc fuel) i dest o ≡ intersects fuel (suc i) dest o
unfolding intersects
goes_on o fuel i dest l h =
    let e : ltb i dest.count ≡ true = ground arith in rw (e, h, intersects) refl

takes_out :
    (o : CsdBsList) (fuel i : ℕ) (dest : CsdBsList)
    → i < dest.count
    → csd_bs_list_has_bs o (dest.bs i) ≡ false
    → intersects (suc fuel) i dest o ≡ intersects fuel i (csd_bs_list_remove dest (dest.bs i)) o
unfolding intersects
takes_out o fuel i dest l h =
    let e : ltb i dest.count ≡ true = ground arith in rw (e, h, intersects) refl

stops :
    (o : CsdBsList) (fuel i : ℕ) (dest : CsdBsList)
    → dest.count ≤ i
    → intersects (suc fuel) i dest o ≡ dest
unfolding intersects
stops o fuel i dest l = let e : ltb i dest.count ≡ false = ground arith in rw (e, intersects) refl

-- What the loop returns.
abbrev Keeps : CsdBsList → CsdBsList → CsdBsList → Type 0
Keeps o dest r = (r.count ≤ csd_bs_max) × (entries r ≡ keep o (entries dest))

intersects-Keeps :
    (o : CsdBsList) (fuel i : ℕ) (dest : CsdBsList)
    → Round o fuel i dest
    → Keeps o dest (intersects fuel i dest o)
unfolding intersects
intersects-Keeps o zero i dest r = (r.bounded, all_kept o zero i dest r (omega (arith, r.enough)))
intersects-Keeps o (suc fuel) i dest r = elim (Bool-cases (ltb i dest.count)) [
  | inr e ↦
      let h : dest.count ≤ i = ground (arith, e) in
      subst (Keeps o dest) (sym (stops o fuel i dest h))
        (r.bounded, all_kept o (suc fuel) i dest r h)
  | inl e ↦
      let l : i < dest.count = ground (arith, e) in
      elim (Bool-cases (csd_bs_list_has_bs o (dest.bs i))) [
        | inl h ↦
            subst (Keeps o dest) (sym (goes_on o fuel i dest l h))
              (intersects-Keeps o fuel (suc i) dest (kept-Round o fuel i dest r l h))
        | inr h ↦
            let x = dest.bs i in
            let (p, q) =
              intersects-Keeps o fuel i (csd_bs_list_remove dest x)
                (removed-Round o fuel i dest r l h) in
            let less = ap (keep o) (remove-erase dest x) ∙ keep-erase o x (entries dest) h in
            subst (Keeps o dest) (sym (takes_out o fuel i dest l h)) (p, q ∙ less)
      ]
]

-- The elements of `xs` that are in `ys`, in the order of `xs`.
abbrev pub common : List CsdBs → List CsdBs → List CsdBs
common [] ys = []
common (x ∷ xs) ys = if member x ys then x ∷ common xs ys else common xs ys

keep-common : (o : CsdBsList) (xs : List CsdBs) → keep o xs ≡ common xs (entries o)
keep-common o [] = refl
keep-common o (x ∷ xs) = rw (has_bs-member o x, keep-common o xs) refl

-- The intersection of two lists, whatever their counts, is a list of at most CSD_BS_MAX entries:
-- those entries of the first list that the second list has, in the order of the first.
pub entries-csd_bs_list_intersection :
    (dest other : CsdBsList)
    → ((csd_bs_list_intersection dest other).count ≤ csd_bs_max)
      × (entries (csd_bs_list_intersection dest other) ≡ common (entries dest) (entries other))
unfolding csd_bs_list_intersection
entries-csd_bs_list_intersection dest other =
    let dest' = csd_bs_list_clamp dest in
    let start : Round other dest'.count 0 dest' = record {
      shared = λ j l. absurd (omega arith);
      bounded = n-le dest;
      in_range = omega arith;
      enough = omega arith;
    } in
    let (p, q) = intersects-Keeps other dest'.count 0 dest' start in
    let same : entries dest' ≡ entries dest = ap (slice dest.bs 0) (clamped dest' (n-le dest)) in
    (p, q ∙ ap (keep other) same ∙ keep-common other (entries dest))

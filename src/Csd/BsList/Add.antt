-- ===== src/Csd/BsList/Add.antt =====
-- libmsc/csd_bs.c: appending to a list of bearer services.
use osmo_msc.Base.{
  ℕ, zero, suc, ◌+◌, ◌≡◌, ◌≤◌, inl, inr, refl, ap, ◌∙◌, Bool, true, false, ◌&&◌, not, [], ◌∷◌, ◌++◌,
  ltb, leb, ◌==◌, if◌then◌else◌, arith, Bool-cases, length,
}
use osmo_msc.Csd.BearerService.{CsdBs, csd_bs_max, csd_bs_valid}
use osmo_msc.Csd.BsList.{CsdBsList, set_bs, csd_bs_list_n, csd_bs_list_clamp, csd_bs_list_add_bs}
use osmo_msc.Csd.BsList.Entries.{slice, entries, member, clamped, n-le, slice-length, finds-member}

slice-snoc : (a : ℕ → CsdBs) (i k : ℕ) → slice a i (suc k) ≡ slice a i k ++ (a (i + k) ∷ [])
slice-snoc a i zero = ap (λ j. a j ∷ []) (omega arith)
slice-snoc a i (suc k) =
    ap (λ xs. a i ∷ xs)
      (slice-snoc a (suc i) k ∙ ap (λ j. slice a (suc i) k ++ (a j ∷ [])) (omega arith))

slice_beyond :
    (a : ℕ → CsdBs) (n : ℕ) (b : CsdBs) (i k : ℕ)
    → i + k ≤ n
    → slice (set_bs a n b) i k ≡ slice a i k
slice_beyond a n b i zero h = refl
slice_beyond a n b i (suc k) h =
    let e : (i == n) ≡ false = ground arith in
    rw (e, slice_beyond a n b (suc i) k (omega arith)) refl

appended :
    (a : ℕ → CsdBs) (n : ℕ) (b : CsdBs) → slice (set_bs a n b) 0 (suc n) ≡ slice a 0 n ++ (b ∷ [])
appended a n b =
    let e : (0 + n == n) ≡ true = ground arith in
    slice-snoc (set_bs a n b) 0 n
    ∙ ap (λ x. slice (set_bs a n b) 0 n ++ (x ∷ [])) (ap (λ t. if t then b else a (0 + n)) e)
    ∙ ap (λ xs. xs ++ (b ∷ [])) (slice_beyond a n b 0 n (omega arith))

-- There is reason and room to append.
abbrev pub is_new : CsdBsList → CsdBs → Bool
is_new l b = csd_bs_valid b && (not (member b (entries l)) && ltb (length (entries l)) csd_bs_max)

clamp-entries : (l : CsdBsList) → entries (csd_bs_list_clamp l) ≡ entries l
clamp-entries l = ap (slice l.bs 0) (clamped (csd_bs_list_clamp l) (n-le l))

-- csd_bs_list_add_bs() appends a valid service that is not yet among the entries, while there is
-- room, and changes no entry in any other case; a count that is too large is as CSD_BS_MAX.
pub entries-csd_bs_list_add_bs :
    (l : CsdBsList) (b : CsdBs)
    → entries (csd_bs_list_add_bs l b) ≡ (if is_new l b then entries l ++ (b ∷ []) else entries l)
unfolding csd_bs_list_add_bs
entries-csd_bs_list_add_bs l b =
    let n = csd_bs_list_n l in
    let f = finds-member l.bs 0 n b in
    let t = slice-length l.bs 0 n in
    elim (Bool-cases (csd_bs_valid b)) [
      | inr v ↦ rw v refl
      | inl v ↦ elim (Bool-cases (member b (entries l))) [
        | inl m ↦ rw (v, f, m) (clamp-entries l)
        | inr m ↦ elim (Bool-cases (leb csd_bs_max n)) [
          | inl r ↦
              let r' : ltb n csd_bs_max ≡ false = ground (arith, r) in
              rw (v, f, m, t, r, r') (clamp-entries l)
          | inr r ↦
              let r' : ltb n csd_bs_max ≡ true = ground (arith, r) in
              rw (v, f, m, t, r, r')
                (ap (slice (set_bs l.bs n b) 0) (
                    clamped (record { count = n + 1; bs = set_bs l.bs n b }) (ground (arith, r))
                    ∙ (let e : n + 1 ≡ suc n = omega arith in e))
                  ∙ appended l.bs n b)
        ]
      ]
    ]

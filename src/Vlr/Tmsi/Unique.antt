-- ===== src/Vlr/Tmsi/Unique.antt =====
-- libvlr/vlr.c: what a new TMSI is like.
use osmo_msc.Base.{
  ℕ, zero, suc, ◌<◌, ◌≤◌, ◌≡◌, ◌≢◌, refl, ap, ◌∙◌, Bool, true, false, ◌||◌, Option, none, some,
  List, [], ◌∷◌, if_elim, ◌==◌, leb, arith,
}
use osmo_msc.Vlr.Tmsi.{
  gsm_reserved_tmsi, tmsi_sgsn_mask, below_mask, Tmsis, has_tmsi, has_tmsi_new,
  vlr_subscr_find_by_tmsi, fit_domain, attempt, tries, vlr_subscr_alloc_tmsi,
}

-- No subscriber has it as its TMSI or as its new one.
unfoldable pub NotTaken : List Tmsis → ℕ → Type 0
NotTaken [] tmsi = Unit
NotTaken (v ∷ vs) tmsi = (v.tmsi ≢ tmsi) × (v.tmsi_new ≢ tmsi) × NotTaken vs tmsi

-- A value of the domain: both highest bits set for an SGSN, and not both for an MSC.
abbrev pub InDomain : (is_ps : Bool) → ℕ → Type 0
InDomain true tmsi = tmsi_sgsn_mask ≤ tmsi
InDomain false tmsi = tmsi < tmsi_sgsn_mask

-- A value is free, unless it is the reserved one.
abbrev pub IsUnique : (is_ps : Bool) → List Tmsis → Option ℕ → Type 0
IsUnique is_ps vs none = Unit
IsUnique is_ps vs (some tmsi) = InDomain is_ps tmsi × (tmsi ≢ gsm_reserved_tmsi → NotTaken vs tmsi)

not_taken :
    (vs : List Tmsis) (tmsi : ℕ)
    → (has_tmsi vs tmsi || has_tmsi_new vs tmsi) ≡ false
    → NotTaken vs tmsi
unfolding has_tmsi has_tmsi_new NotTaken
not_taken [] tmsi h = tt
not_taken (v ∷ vs) tmsi h =
    (ground (arith, h), ground (arith, h), not_taken vs tmsi (ground (arith, h)))

not_found :
    (vs : List Tmsis) (tmsi : ℕ)
    → vlr_subscr_find_by_tmsi vs tmsi ≡ false
    → tmsi ≢ gsm_reserved_tmsi
    → NotTaken vs tmsi
unfolding vlr_subscr_find_by_tmsi
not_found vs tmsi h n = not_taken vs tmsi (ground (arith, h, n))

fit_domain-InDomain : (is_ps : Bool) (tmsi : ℕ) → InDomain is_ps (fit_domain is_ps tmsi)
unfolding fit_domain
fit_domain-InDomain true tmsi = omega arith
fit_domain-InDomain false tmsi =
    if_elim (λ t. t < tmsi_sgsn_mask) (leb tmsi_sgsn_mask tmsi) (λ _. omega arith)
      (λ h. ground (arith, h))

module _ (rand : ℕ → Option ℕ) (limit : ℕ → ℕ) (is_ps : Bool) (vs : List Tmsis) where
  attempt-IsUnique :
      (rest o : Option ℕ)
      → IsUnique is_ps vs rest
      → IsUnique is_ps vs (attempt rand limit is_ps vs rest o)
  unfolding attempt
  attempt-IsUnique rest none u = tt
  attempt-IsUnique rest (some r) u =
      if_elim (IsUnique is_ps vs) (limit r == gsm_reserved_tmsi) (λ _. u)
        (λ _.
          if_elim (IsUnique is_ps vs) (vlr_subscr_find_by_tmsi vs (fit_domain is_ps (limit r)))
            (λ _. u) (λ h. (fit_domain-InDomain is_ps (limit r), not_found vs _ h)))

  tries-IsUnique : (n i : ℕ) → IsUnique is_ps vs (tries rand limit is_ps vs n i)
  unfolding tries
  tries-IsUnique zero i = tt
  tries-IsUnique (suc n) i = attempt-IsUnique _ (rand i) (tries-IsUnique n (suc i))

  -- A new TMSI lies in its domain, both highest bits set for an SGSN and not both for an MSC, and
  -- unless it is the reserved value no subscriber has it as its TMSI or as its new one.
  pub vlr_subscr_alloc_tmsi-IsUnique : IsUnique is_ps vs (vlr_subscr_alloc_tmsi rand limit is_ps vs)
  unfolding vlr_subscr_alloc_tmsi
  vlr_subscr_alloc_tmsi-IsUnique = tries-IsUnique 100 0

first_try :
    (rand : ℕ → Option ℕ) (limit : ℕ → ℕ) (vs : List Tmsis)
    → vlr_subscr_alloc_tmsi rand limit true vs
      ≡ attempt rand limit true vs (tries rand limit true vs 99 1) (rand 0)
unfolding vlr_subscr_alloc_tmsi tries
first_try rand limit vs = refl

module _ (rand : ℕ → Option ℕ) (limit : ℕ → ℕ) (vs : List Tmsis) (r : ℕ) where
  attempt_reserved :
      (rest : Option ℕ)
      → limit r < gsm_reserved_tmsi
      → below_mask (limit r) ≡ 1073741823
      → attempt rand limit true vs rest (some r) ≡ some gsm_reserved_tmsi
  unfolding attempt fit_domain vlr_subscr_find_by_tmsi
  attempt_reserved rest l h = rw (differs (limit r) l, h) refl
    where
      differs : (t : ℕ) → t < gsm_reserved_tmsi → (t == gsm_reserved_tmsi) ≡ false
      differs t l = ground arith

  -- For an SGSN the reserved value is given as a new TMSI when the first random number, within the
  -- ranges, is below it with all bits below the mask set: it is compared with the reserved value
  -- only before the bits of the mask are set.
  pub vlr_subscr_alloc_tmsi_reserved :
      rand 0 ≡ some r
      → limit r < gsm_reserved_tmsi
      → below_mask (limit r) ≡ 1073741823
      → vlr_subscr_alloc_tmsi rand limit true vs ≡ some gsm_reserved_tmsi
  vlr_subscr_alloc_tmsi_reserved e l h =
      first_try rand limit vs
      ∙ ap (attempt rand limit true vs (tries rand limit true vs 99 1)) e
      ∙ attempt_reserved (tries rand limit true vs 99 1) l h

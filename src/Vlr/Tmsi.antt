-- ===== src/Vlr/Tmsi.antt =====
-- libvlr/vlr.c: the choice of a new TMSI. The two hash tables of TMSIs are one list of subscribers, each
-- with `tmsi` and `tmsi_new`. What osmo_get_rand_id() gives in each try is `rand`, an error `none`, and
-- what osmo_tmsi_nri_v_limit_by_ranges() makes of it is `limit`, which changes nothing without ranges.
pub mod Unique
pub mod Tests
use osmo_msc.Base.{
  ℕ, zero, suc, ◌+◌, ◌%◌, Bool, true, false, ◌||◌, Option, none, some, List, [], ◌∷◌, if◌then◌else◌,
  ◌==◌, leb,
}

abbrev pub gsm_reserved_tmsi : ℕ
gsm_reserved_tmsi = 4294967295

-- GSM23003_TMSI_SGSN_MASK is the two highest of 32 bits; the bits below it.
abbrev pub tmsi_sgsn_mask : ℕ
tmsi_sgsn_mask = 3221225472

abbrev pub below_mask : ℕ → ℕ
below_mask tmsi = tmsi % 1073741824

pub record Tmsis : Type 0 where
  pub tmsi : ℕ
  pub tmsi_new : ℕ

unfoldable pub has_tmsi : List Tmsis → ℕ → Bool
has_tmsi [] tmsi = false
has_tmsi (v ∷ vs) tmsi = (v.tmsi == tmsi) || has_tmsi vs tmsi

unfoldable pub has_tmsi_new : List Tmsis → ℕ → Bool
has_tmsi_new [] tmsi = false
has_tmsi_new (v ∷ vs) tmsi = (v.tmsi_new == tmsi) || has_tmsi_new vs tmsi

-- Whether there is a subscriber with the TMSI.
unfoldable pub vlr_subscr_find_by_tmsi : List Tmsis → ℕ → Bool
vlr_subscr_find_by_tmsi subscribers tmsi =
    if tmsi == gsm_reserved_tmsi
    then false
    else has_tmsi subscribers tmsi || has_tmsi_new subscribers tmsi

-- `tmsi |= mask` for an SGSN; for an MSC `tmsi &= ~mask` if both bits of the mask are set.
unfoldable pub fit_domain : (is_ps : Bool) → ℕ → ℕ
fit_domain is_ps tmsi =
    if is_ps
    then tmsi_sgsn_mask + below_mask tmsi
    else if leb tmsi_sgsn_mask tmsi
    then below_mask tmsi
    else tmsi

module _ (rand : ℕ → Option ℕ) (limit : ℕ → ℕ) (is_ps : Bool) (subscribers : List Tmsis) where
  -- One try; `rest` is what the tries after it give.
  unfoldable pub attempt : (rest : Option ℕ) → Option ℕ → Option ℕ
  attempt rest none = none
  attempt rest (some random) =
      let tmsi = limit random in
      if tmsi == gsm_reserved_tmsi
      then rest
      else if vlr_subscr_find_by_tmsi subscribers (fit_domain is_ps tmsi)
      then rest
      else some (fit_domain is_ps tmsi)

  unfoldable pub tries : (n tried : ℕ) → Option ℕ
  tries zero tried = none
  tries (suc n) tried = attempt (tries n (suc tried)) (rand tried)

  -- The value for `tmsi_new`; an error is `none`.
  unfoldable pub vlr_subscr_alloc_tmsi : Option ℕ
  vlr_subscr_alloc_tmsi = tries 100 0

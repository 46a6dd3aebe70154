-- ===== src/Vlr/Tmsi/Tests.antt =====
-- New TMSIs at concrete inputs.
use osmo_msc.Base.{ℕ, ◌≡◌, refl, arith, Option, some, List, [], ◌∷◌, true, false}
use osmo_msc.Vlr.Tmsi.{gsm_reserved_tmsi, Tmsis, vlr_subscr_alloc_tmsi}
use osmo_msc.Vlr.Tmsi.Unique.{
  IsUnique, vlr_subscr_alloc_tmsi-IsUnique, vlr_subscr_alloc_tmsi_reserved,
}

-- The random numbers of the tries.
abbrev rand : ℕ → Option ℕ
rand tried = some 1073741823

abbrev limit : ℕ → ℕ
limit tmsi = tmsi

abbrev subscribers : List Tmsis
subscribers = record { tmsi = 7; tmsi_new = gsm_reserved_tmsi } ∷ []

vlr_subscr_alloc_tmsi-IsUnique_example :
    IsUnique false subscribers (vlr_subscr_alloc_tmsi rand limit false subscribers)
vlr_subscr_alloc_tmsi-IsUnique_example = vlr_subscr_alloc_tmsi-IsUnique rand limit false subscribers

vlr_subscr_alloc_tmsi_reserved_example :
    vlr_subscr_alloc_tmsi rand limit true subscribers ≡ some gsm_reserved_tmsi
vlr_subscr_alloc_tmsi_reserved_example =
    vlr_subscr_alloc_tmsi_reserved rand limit subscribers 1073741823 refl (omega arith) refl

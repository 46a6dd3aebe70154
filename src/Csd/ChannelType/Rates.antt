-- ===== src/Csd/ChannelType/Rates.antt =====
-- libmsc/csd_bs.c: when there is a channel type, and which other rates it allows.
use osmo_msc.Base.{
  ℕ, zero, suc, ◌+◌, ◌-◌, ◌≡◌, ◌<◌, refl, true, false, ◌&&◌, not, some, ltb, if◌then◌else◌, is_some,
  arith, Bool-cases, inl, inr,
}
use osmo_msc.Csd.BearerService.{CsdBs, csd_bs_valid, csd_bs_is_transp}
use osmo_msc.Csd.BsList.{CsdBsList, csd_bs_list_n, csd_bs_list_is_sane}
use osmo_msc.Csd.ChannelType.{
  ChannelType, Allowed, no_rates, allow_bs, other_rates, first_rate,
  csd_bs_list_to_gsm0808_channel_type,
}

-- Every valid service has a rate.
first_rate-valid : (b : CsdBs) → csd_bs_valid b ≡ true → is_some (first_rate b) ≡ true
unfolding first_rate
first_rate-valid b v = ground arith

-- There is a channel type exactly for a sane list whose first entry is valid.
pub csd_bs_list_to_gsm0808_channel_type-is_some :
    (l : CsdBsList)
    → is_some (csd_bs_list_to_gsm0808_channel_type l)
      ≡ (csd_bs_list_is_sane l && csd_bs_valid (l.bs 0))
unfolding csd_bs_list_to_gsm0808_channel_type
csd_bs_list_to_gsm0808_channel_type-is_some l =
    elim (Bool-cases (csd_bs_list_is_sane l && csd_bs_valid (l.bs 0))) [
      | inl e ↦ ground (arith, first_rate-valid (l.bs 0), e)
      | inr e ↦ ground (arith, e)
    ]

allow_bs-non_transp :
    (b : CsdBs) (acc : Allowed) → csd_bs_is_transp b ≡ false → allow_bs b acc ≡ acc
unfolding allow_bs
allow_bs-non_transp b acc h = rw h refl

other_rates-non_transp :
    (k i : ℕ) (a : ℕ → CsdBs) (acc : Allowed)
    → ((j : ℕ) → j < i + k → csd_bs_is_transp (a j) ≡ false)
    → other_rates k i a acc ≡ acc
unfolding other_rates
other_rates-non_transp zero i a acc h = refl
other_rates-non_transp (suc k) i a acc h =
    rw (allow_bs-non_transp (a i) acc (h i (omega arith)))
      (other_rates-non_transp k (suc i) a acc (λ j l. h j (omega arith)))

no_other_rates :
    (l : CsdBsList)
    → ((j : ℕ) → j < csd_bs_list_n l → csd_bs_is_transp (l.bs j) ≡ false)
    → (if not (csd_bs_is_transp (l.bs 0)) && ltb 1 (csd_bs_list_n l)
        then other_rates (csd_bs_list_n l - 1) 1 l.bs no_rates
        else no_rates)
      ≡ no_rates
no_other_rates l h = elim (Bool-cases (ltb 1 (csd_bs_list_n l))) [
  | inr e ↦ ground (arith, e)
  | inl e ↦
      let q : 1 < csd_bs_list_n l = ground (arith, e) in
      let r =
        other_rates-non_transp (csd_bs_list_n l - 1) 1 l.bs no_rates
          (λ j k. h j (omega (arith, q, k))) in
      ground (arith, e, r)
]

-- A list of non-transparent services alone gets a channel type that allows no other data rate: the
-- loop over the other entries, which is run for a non-transparent first entry, skips all
-- non-transparent ones.
pub channel_type_non_transp :
    (l : CsdBsList) (ct : ChannelType)
    → ((j : ℕ) → j < csd_bs_list_n l → csd_bs_is_transp (l.bs j) ≡ false)
    → csd_bs_list_to_gsm0808_channel_type l ≡ some ct
    → ct.data_rate_allowed_is_set ≡ false
unfolding csd_bs_list_to_gsm0808_channel_type
channel_type_non_transp l ct h e = ground (arith, no_other_rates l h, e)

-- ===== src/Csd/Tests.antt =====
-- libmsc/csd_bs.c and libmsc/csd_filter.c: the theorems at concrete lists.
use osmo_msc.Base.{ℕ, ◌≡◌, ◌<◌, ◌≤◌, zero, suc, refl, true, false, some, [], ◌∷◌, arith, is_some}
use osmo_msc.Csd.BearerService.{
  CsdBs, bs_none, bs_24_t_v110_2k4, bs_26_t_v110_9k6, bs_26_nt_v110_9k6, bs_24_nt_v110_2k4, ra_none,
  bs_max, csd_bs_is_transp, csd_bs_max,
}
use osmo_msc.Csd.BsList.{CsdBsList, csd_bs_list_add_bs, csd_bs_list_intersection, empty_list}
use osmo_msc.Csd.BsList.Entries.{entries, member}
use osmo_msc.Csd.BsList.Add.{entries-csd_bs_list_add_bs}
use osmo_msc.Csd.BsList.Intersect.{entries-csd_bs_list_intersection}
use osmo_msc.Csd.BearerCap.{
  BearerCap, itcap_other, tr_rlp, sa_other, par_other, mt_other, ur_300, csd_bs_list_to_bearer_cap,
  csd_bs_list_from_bearer_cap,
}
use osmo_msc.Csd.BearerCap.RoundTrip.{csd_bs_list_from_bearer_cap-to_bearer_cap, single}
use osmo_msc.Csd.ChannelType.{
  ChannelType, data_full_pref, non_transp_6k0, no_rates, csd_bs_list_to_gsm0808_channel_type,
  first_rate, other_rates, allow_bs,
}
use osmo_msc.Csd.ChannelType.Rates.{
  csd_bs_list_to_gsm0808_channel_type-is_some, channel_type_non_transp,
}
use osmo_msc.Csd.Filter.{CsdFilter, utran_iu, csd_filter_set_ran, csd_filter_run}
use osmo_msc.Csd.Filter.Members.{member-csd_filter_run, member-csd_filter_set_ran}

abbrev two_of : CsdBs → CsdBs → ℕ → CsdBs
two_of a b zero = a
two_of a b (suc zero) = b
two_of a b (suc (suc i)) = bs_none

abbrev mixed : CsdBsList
mixed = record { count = 2; bs = two_of bs_24_t_v110_2k4 bs_26_nt_v110_9k6 }

abbrev non_transp : CsdBsList
non_transp = record { count = 2; bs = two_of bs_24_nt_v110_2k4 bs_26_nt_v110_9k6 }

-- The count of a list that was overwritten.
abbrev smashed : CsdBsList
smashed = record { count = 100000; bs = two_of bs_24_t_v110_2k4 bs_max }

abbrev audio : BearerCap
audio = record {
  transfer = itcap_other 0;
  rate_adaption = ra_none;
  async = false;
  transp = tr_rlp;
  sig_access = sa_other 0;
  nr_data_bits = 7;
  parity = par_other 0;
  nr_stop_bits = 2;
  modem_type = mt_other 0;
  user_rate = ur_300;
  interm_rate = 0;
}

csd_bs_list_from_bearer_cap-to_bearer_cap_example :
    ((csd_bs_list_to_bearer_cap 2 3 audio mixed).1 ≡ true)
    × (csd_bs_list_from_bearer_cap (csd_bs_list_to_bearer_cap 2 3 audio mixed).0
        ≡ single bs_24_t_v110_2k4)
csd_bs_list_from_bearer_cap-to_bearer_cap_example =
    csd_bs_list_from_bearer_cap-to_bearer_cap 2 3 audio mixed bs_24_t_v110_2k4 (omega arith)
      (omega arith) refl

entries-csd_bs_list_intersection_example :
    ((csd_bs_list_intersection mixed non_transp).count ≤ csd_bs_max)
    × (entries (csd_bs_list_intersection mixed non_transp) ≡ bs_26_nt_v110_9k6 ∷ [])
entries-csd_bs_list_intersection_example = entries-csd_bs_list_intersection mixed non_transp

entries-csd_bs_list_add_bs_example :
    entries (csd_bs_list_add_bs mixed bs_26_t_v110_9k6)
    ≡ bs_24_t_v110_2k4 ∷ bs_26_nt_v110_9k6 ∷ bs_26_t_v110_9k6 ∷ []
entries-csd_bs_list_add_bs_example = entries-csd_bs_list_add_bs mixed bs_26_t_v110_9k6

csd_bs_list_to_gsm0808_channel_type-is_some_example :
    is_some (csd_bs_list_to_gsm0808_channel_type smashed) ≡ false
csd_bs_list_to_gsm0808_channel_type-is_some_example =
    csd_bs_list_to_gsm0808_channel_type-is_some smashed

both_non_transp : (j : ℕ) → j < 2 → csd_bs_is_transp (non_transp.bs j) ≡ false
unfolding csd_bs_is_transp
both_non_transp zero h = refl
both_non_transp (suc zero) h = refl
both_non_transp (suc (suc j)) h = refl

abbrev for_non_transp : ChannelType
for_non_transp = record {
  data_transparent = false;
  ch_rate_type = data_full_pref;
  data_rate = non_transp_6k0;
  data_rate_allowed = no_rates;
  data_rate_allowed_is_set = false;
}

converted : csd_bs_list_to_gsm0808_channel_type non_transp ≡ some for_non_transp
unfolding csd_bs_list_to_gsm0808_channel_type csd_bs_is_transp first_rate other_rates allow_bs
converted = refl

channel_type_non_transp_example : for_non_transp.data_rate_allowed_is_set ≡ false
channel_type_non_transp_example =
    channel_type_non_transp non_transp for_non_transp both_non_transp converted

abbrev filter : CsdFilter
filter = record { ran = mixed; ms = non_transp; bss = empty_list; assignment = bs_none }

member-csd_filter_run_example :
    member bs_24_t_v110_2k4 (entries (csd_filter_run filter smashed)) ≡ false
member-csd_filter_run_example = member-csd_filter_run filter smashed bs_24_t_v110_2k4

member-csd_filter_set_ran_example :
    member bs_26_nt_v110_9k6 (entries (csd_filter_set_ran filter utran_iu).ran) ≡ true
unfolding csd_bs_is_transp
member-csd_filter_set_ran_example = member-csd_filter_set_ran filter utran_iu bs_26_nt_v110_9k6

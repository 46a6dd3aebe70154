-- ===== src/Csd/ChannelType.antt =====
-- libmsc/csd_bs.c: the channel type of an assignment for a list of bearer services.
pub mod Rates
use osmo_msc.Base.{
  ℕ, zero, suc, ◌-◌, ◌==◌, Bool, true, false, ◌&&◌, ◌||◌, not, Option, none, some, ltb,
  if◌then◌else◌,
}
use osmo_msc.Csd.BearerService.{CsdBs, csd_bs_valid, bs_map, csd_bs_is_transp}
use osmo_msc.Csd.BsList.{CsdBsList, csd_bs_list_n, csd_bs_list_is_sane}

-- The names GSM0808_DATA_FULL_PREF and GSM0808_DATA_FULL_BM.
pub data ChRateType : Type 0 where
  data_full_pref data_full_bm : ChRateType

-- The names GSM0808_DATA_RATE_TRANSP_* and GSM0808_DATA_RATE_NON_TRANSP_*.
pub data DataRate : Type 0 where
  transp_600 transp_1k2 transp_2k4 transp_4k8 transp_9k6 : DataRate
  non_transp_6k0 non_transp_12k0 : DataRate

-- A set of the flags GSM0808_DATA_RATE_NON_TRANSP_ALLOWED_6k0 and _12k0.
pub record Allowed : Type 0 where
  pub allowed_6k0 : Bool
  pub allowed_12k0 : Bool

-- struct gsm0808_channel_type with the channel indicator for data.
pub record ChannelType : Type 0 where
  pub data_transparent : Bool
  pub ch_rate_type : ChRateType
  pub data_rate : DataRate
  pub data_rate_allowed : Allowed
  pub data_rate_allowed_is_set : Bool

unfoldable pub csd_bs_to_gsm0808_data_rate_transp : CsdBs → Option (DataRate × ChRateType)
unfolding bs_map
csd_bs_to_gsm0808_data_rate_transp b =
    let rate = (bs_map b).rate in
    if not (csd_bs_valid b)
    then none
    else if rate == 300
    then some (transp_600, data_full_pref)
    else if rate == 1200
    then some (transp_1k2, data_full_pref)
    else if rate == 2400
    then some (transp_2k4, data_full_pref)
    else if rate == 4800
    then some (transp_4k8, data_full_pref)
    else if rate == 9600
    then some (transp_9k6, data_full_bm)
    else none

unfoldable pub csd_bs_to_gsm0808_data_rate_non_transp : CsdBs → Option (DataRate × ChRateType)
unfolding bs_map
csd_bs_to_gsm0808_data_rate_non_transp b =
    let rate = (bs_map b).rate in
    if not (csd_bs_valid b)
    then none
    else if ltb rate 6000
    then some (non_transp_6k0, data_full_pref)
    else if ltb rate 12000
    then some (non_transp_12k0, data_full_bm)
    else none

unfoldable pub csd_bs_to_gsm0808_data_rate_non_transp_allowed : CsdBs → Option Allowed
unfolding bs_map
csd_bs_to_gsm0808_data_rate_non_transp_allowed b =
    let rate = (bs_map b).rate in
    if not (csd_bs_valid b)
    then none
    else if ltb rate 6000
    then some (record { allowed_6k0 = true; allowed_12k0 = false })
    else if ltb rate 12000
    then some (record { allowed_6k0 = false; allowed_12k0 = true })
    else none

abbrev pub no_rates : Allowed
no_rates = record { allowed_6k0 = false; allowed_12k0 = false }

abbrev pub allow : Allowed → Allowed → Allowed
allow a b = record {
  allowed_6k0 = a.allowed_6k0 || b.allowed_6k0;
  allowed_12k0 = a.allowed_12k0 || b.allowed_12k0;
}

-- One round of the loop over the other data rates.
unfoldable pub allow_bs : CsdBs → Allowed → Allowed
unfolding csd_bs_is_transp csd_bs_to_gsm0808_data_rate_non_transp_allowed
allow_bs b acc =
    if not (csd_bs_is_transp b)
    then acc
    else elim (csd_bs_to_gsm0808_data_rate_non_transp_allowed b) [
      | none ↦ acc
      | some r ↦ allow acc r
    ]

unfoldable pub other_rates : (k i : ℕ) → (ℕ → CsdBs) → Allowed → Allowed
unfolding allow_bs
other_rates zero i a acc = acc
other_rates (suc k) i a acc = other_rates k (suc i) a (allow_bs (a i) acc)

-- The first entry's rate.
unfoldable pub first_rate : CsdBs → Option (DataRate × ChRateType)
unfolding csd_bs_is_transp csd_bs_to_gsm0808_data_rate_transp csd_bs_to_gsm0808_data_rate_non_transp
first_rate b =
    if csd_bs_is_transp b
    then csd_bs_to_gsm0808_data_rate_transp b
    else csd_bs_to_gsm0808_data_rate_non_transp b

-- None is -EINVAL. The test that `ct` is no implausibly low address is left out.
unfoldable pub csd_bs_list_to_gsm0808_channel_type : CsdBsList → Option ChannelType
csd_bs_list_to_gsm0808_channel_type list =
    let n = csd_bs_list_n list in
    let transp = csd_bs_is_transp (list.bs 0) in
    let rates =
      if not transp && ltb 1 n then other_rates (n - 1) 1 list.bs no_rates else no_rates in
    if not (csd_bs_list_is_sane list)
    then none
    else if (n == 0) || not (csd_bs_valid (list.bs 0))
    then none
    else elim (first_rate (list.bs 0)) [
      | none ↦ none
      | some (r, ch) ↦ some (record {
        data_transparent = transp;
        ch_rate_type = ch;
        data_rate = r;
        data_rate_allowed = rates;
        data_rate_allowed_is_set = rates.allowed_6k0 || rates.allowed_12k0;
      })
    ]

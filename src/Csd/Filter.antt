-- ===== src/Csd/Filter.antt =====
-- libmsc/csd_filter.c: the bearer services that phone, RAN, cell and remote side have in common.
pub mod Members
use osmo_msc.Base.{Bool, true, false, if◌then◌else◌}
use osmo_msc.Csd.BearerService.{
  CsdBs, bs_none, bs_21_t_v110_0k3, bs_22_t_v110_1k2, bs_24_t_v110_2k4, bs_25_t_v110_4k8,
  bs_26_t_v110_9k6, bs_21_nt_v110_0k3, bs_22_nt_v110_1k2, bs_24_nt_v110_2k4, bs_25_nt_v110_4k8,
  bs_26_nt_v110_9k6, bs_31_t_v110_1k2, bs_32_t_v110_2k4, bs_33_t_v110_4k8, bs_34_t_v110_9k6,
}
use osmo_msc.Csd.BsList.{
  CsdBsList, empty_list, csd_bs_list_is_sane, csd_bs_list_add_bs, csd_bs_list_intersection,
}

pub record CsdFilter : Type 0 where
  pub ran : CsdBsList
  pub ms : CsdBsList
  pub bss : CsdBsList
  pub assignment : CsdBs

-- enum osmo_rat_type: UTRAN Iu, or GERAN A with all that the default case takes for it.
pub data RatType : Type 0 where
  geran_a utran_iu rat_other : RatType

unfoldable pub add_all_geran_bs : CsdBsList → CsdBsList
unfolding csd_bs_list_add_bs
add_all_geran_bs list =
    let l = csd_bs_list_add_bs list bs_24_t_v110_2k4 in
    let l = csd_bs_list_add_bs l bs_25_t_v110_4k8 in
    let l = csd_bs_list_add_bs l bs_26_t_v110_9k6 in
    let l = csd_bs_list_add_bs l bs_21_t_v110_0k3 in
    let l = csd_bs_list_add_bs l bs_22_t_v110_1k2 in
    let l = csd_bs_list_add_bs l bs_21_nt_v110_0k3 in
    let l = csd_bs_list_add_bs l bs_22_nt_v110_1k2 in
    let l = csd_bs_list_add_bs l bs_24_nt_v110_2k4 in
    let l = csd_bs_list_add_bs l bs_25_nt_v110_4k8 in
    let l = csd_bs_list_add_bs l bs_26_nt_v110_9k6 in
    let l = csd_bs_list_add_bs l bs_31_t_v110_1k2 in
    let l = csd_bs_list_add_bs l bs_32_t_v110_2k4 in
    let l = csd_bs_list_add_bs l bs_33_t_v110_4k8 in csd_bs_list_add_bs l bs_34_t_v110_9k6

unfoldable pub add_all_utran_bs : CsdBsList → CsdBsList
unfolding csd_bs_list_add_bs
add_all_utran_bs list =
    let l = csd_bs_list_add_bs list bs_21_nt_v110_0k3 in
    let l = csd_bs_list_add_bs l bs_22_nt_v110_1k2 in
    let l = csd_bs_list_add_bs l bs_24_nt_v110_2k4 in
    let l = csd_bs_list_add_bs l bs_25_nt_v110_4k8 in csd_bs_list_add_bs l bs_26_nt_v110_9k6

unfoldable pub csd_filter_set_ran : CsdFilter → RatType → CsdFilter
unfolding add_all_geran_bs add_all_utran_bs
csd_filter_set_ran filter utran_iu = record filter { ran = add_all_utran_bs empty_list }
csd_filter_set_ran filter _ = record filter { ran = add_all_geran_bs empty_list }

-- Intersect with a list that says something.
unfoldable pub restrict : CsdBsList → CsdBsList → CsdBsList
unfolding csd_bs_list_intersection
restrict r other = if csd_bs_list_is_sane other then csd_bs_list_intersection r other else r

abbrev pub is_assigned : CsdBs → Bool
is_assigned bs_none = false
is_assigned _ = true

-- `bearer_services` of the result; the codec is always CLEARMODE.
unfoldable pub csd_filter_run : CsdFilter → (remote : CsdBsList) → CsdBsList
unfolding restrict csd_bs_list_add_bs
csd_filter_run filter remote =
    if is_assigned filter.assignment
    then csd_bs_list_add_bs empty_list filter.assignment
    else restrict (restrict (restrict filter.ran filter.ms) filter.bss) remote

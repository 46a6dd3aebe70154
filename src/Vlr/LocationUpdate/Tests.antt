-- ===== src/Vlr/LocationUpdate/Tests.antt =====
-- Location updates at concrete inputs.
use osmo_msc.Fsm.{masked}
use osmo_msc.Base.{◌≡◌, refl, true, false, some, none, List, [], ◌∷◌, pos}
use osmo_msc.Vlr.Subscr.{Subscr, no_tuple, sec_none, sec_gsm}
use osmo_msc.Vlr.Reject.{RejectValue}
use osmo_msc.Vlr.AccessRequest.{ciph_compl, unlinked}
use osmo_msc.Vlr.LocationUpdate.Types.{
  done, update_la, auth_success, ciph_res, hlr_lu_res, new_tmsi_ack, regular, success, LuSubscr,
  Config, Env, LuFsm,
}
use osmo_msc.Vlr.LocationUpdate.Invariant.{core}
use osmo_msc.Vlr.LocationUpdate.Runs.{Input, event, run}
use osmo_msc.Vlr.LocationUpdate.Security.{Secured, run-Secured, IsEnded, run-vlr_loc_update_cancel}
use osmo_msc.Vlr.LocationUpdate.Nodes.{
  is_cmc_smc_to_be_attempted, hlr_updated, on_upd_hlr_compl, upd_state_chg, upd_hlr_term,
  upd_hlr_vlr_fsm_wait_data, to_upd_hlr, upd_hlr_vlr_proc_start, node_4, post_ciph, post_auth,
  try_auth, node1_by, node1, node1_pre, want_imsi, start_lu_by, start_lu_main, associated,
  cancel_stale, assoc_lfp_with_sub,
}
use osmo_msc.Vlr.LocationUpdate.{
  by_identity, associate, lu_fsm_idle, lu_fsm_wait_auth, lu_fsm_wait_ciph,
  lu_fsm_wait_hlr_check_imei_early, lu_fsm_wait_imsi, lu_fsm_wait_pvlr, lu_fsm_wait_hlr_ul_res,
  lu_fsm_wait_lu_compl, lu_fsm_wait_lu_compl_standalone, action_with, action, refresh, dispatch,
  cancel_in, vlr_loc_update_cancel, new_instance,
}
use osmo_msc.Vlr.LocationUpdate.Completion.{
  compl_state_chg, compl_dispatch_result, compl_fsm_done, set_lu_complete, compl_fsm_success,
  with_tmsi, lu_compl_vlr_new_tmsi, accept_without_tmsi, accept, lu_compl_vlr_wait_subscr_pres,
  lu_compl_vlr_wait_imei, confirmed, lu_compl_vlr_wait_tmsi, compl_action, compl_event,
  sub_pres_term, sub_pres_vlr_fsm_init, sub_pres_vlr_fsm_start, reached, sub_pres_vlr_fsm_wait_hlr,
  sub_pres_action, sub_pres_event, to_sub_pres, lu_compl_vlr_init, lu_compl_vlr_proc_alloc,
  start_lu_compl_for, start_lu_compl_fsm, to_lu_compl,
}
use osmo_msc.Vlr.LocationUpdate.Result.{
  cleanup, inst_term, dispatch_result, onenter, state_chg, lu_fsm_done, lu_fsm_failure,
  not_confirmed, lu_compl_succeeded, lu_compl_failed, on_lu_compl_success, on_lu_compl_failure,
}
use osmo_msc.Vlr.LocationUpdate.Masks.{
  in_event_mask, out_state_mask, compl_in_event_mask, compl_out_state_mask, upd_in_event_mask,
  upd_out_state_mask, pres_in_event_mask, pres_out_state_mask,
}

abbrev auth : Subscr
auth = record {
  imsi = 1 ∷ [];
  auth_tuples = λ _. no_tuple;
  last_tuple = some 0;
  sec_ctx = sec_none;
}

abbrev subscr : LuSubscr
subscr = record {
  auth = auth;
  lu_fsm = unlinked;
  lai = record { plmn = 90170; lac = 23 };
  imei_known = false;
  imeisv_known = false;
  tmsi = none;
  tmsi_new = none;
  sub_dataconf_by_hlr_ind = false;
  loc_conf_in_hlr_ind = false;
  conf_by_radio_contact_ind = false;
  dormant_ind = false;
  cancel_loc_rx = false;
  la_allowed = false;
  imsi_detached_flag = true;
  ms_not_reachable_flag = false;
  lu_complete = false;
}

-- The authentication leaves a GSM security context, and TMSI 7 is free.
abbrev env : Env
env = record {
  others = λ v. record v { auth = record (v.auth) { sec_ctx = sec_gsm } };
  found = some subscr;
  assoc_ok = true;
  ciph_ok = true;
  new_tmsi = some 7;
}

abbrev cfg : Config
cfg = record {
  auth_tuple_max_reuse_count = pos 0;
  check_imei_rqd = false;
  retrieve_imeisv_early = false;
  retrieve_imeisv_ciphered = true;
}

abbrev update : LuFsm
unfolding new_instance
update =
    new_instance cfg 1 2 regular (some (1 ∷ [])) (record { plmn = 90170; lac = 42 }) true true true
      false true 7

abbrev history : List (Env × Input)
history =
    (env, event update_la)
    ∷ (env, event auth_success)
    ∷ (env, event (ciph_res (some ciph_compl)))
    ∷ (env, event (hlr_lu_res none))
    ∷ []

run-Secured_example : Secured update history core
unfolding new_instance
run-Secured_example =
    run-Secured core update history (refl, refl, refl, refl, refl, refl, λ _. refl)
      (refl, (refl, (refl, (refl, tt))))

run-vlr_loc_update_cancel_example :
    IsEnded (vlr_loc_update_cancel core env (run core update history) (some RejectValue.congestion))
unfolding new_instance
run-vlr_loc_update_cancel_example =
    run-vlr_loc_update_cancel env (some RejectValue.congestion) core update history
      (refl, refl, refl, refl, refl, refl, λ _. refl) (refl, (refl, (refl, (refl, tt))))

-- The phone confirms its TMSI, and the update is a success.
abbrev confirmed_history : List (Env × Input)
confirmed_history =
    (env, event update_la)
    ∷ (env, event auth_success)
    ∷ (env, event (ciph_res (some ciph_compl)))
    ∷ (env, event (hlr_lu_res none))
    ∷ (env, event new_tmsi_ack)
    ∷ []

is_success : let fi = run core update confirmed_history in (fi.state ≡ done) × (fi.result ≡ success)
unfolding new_instance run masked is_cmc_smc_to_be_attempted hlr_updated on_upd_hlr_compl
    upd_state_chg upd_hlr_term upd_hlr_vlr_fsm_wait_data to_upd_hlr upd_hlr_vlr_proc_start node_4
    post_ciph post_auth try_auth node1_by node1 node1_pre want_imsi start_lu_by start_lu_main
    associated cancel_stale assoc_lfp_with_sub by_identity associate lu_fsm_idle lu_fsm_wait_auth
    lu_fsm_wait_ciph lu_fsm_wait_hlr_check_imei_early lu_fsm_wait_imsi lu_fsm_wait_pvlr
    lu_fsm_wait_hlr_ul_res lu_fsm_wait_lu_compl lu_fsm_wait_lu_compl_standalone action_with action
    refresh dispatch cancel_in vlr_loc_update_cancel compl_state_chg compl_dispatch_result
    compl_fsm_done set_lu_complete compl_fsm_success with_tmsi lu_compl_vlr_new_tmsi
    accept_without_tmsi accept lu_compl_vlr_wait_subscr_pres lu_compl_vlr_wait_imei confirmed
    lu_compl_vlr_wait_tmsi compl_action compl_event sub_pres_term sub_pres_vlr_fsm_init
    sub_pres_vlr_fsm_start reached sub_pres_vlr_fsm_wait_hlr sub_pres_action sub_pres_event
    to_sub_pres lu_compl_vlr_init lu_compl_vlr_proc_alloc start_lu_compl_for start_lu_compl_fsm
    to_lu_compl cleanup inst_term dispatch_result onenter state_chg lu_fsm_done lu_fsm_failure
    not_confirmed lu_compl_succeeded lu_compl_failed on_lu_compl_success on_lu_compl_failure
    in_event_mask out_state_mask compl_in_event_mask compl_out_state_mask upd_in_event_mask
    upd_out_state_mask pres_in_event_mask pres_out_state_mask
is_success = (refl, refl)

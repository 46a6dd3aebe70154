-- ===== src/Vlr/Sgs/Association.antt =====
-- libvlr/vlr_sgs_fsm.c: the handlers of the SGs association, with the callbacks that
-- libmsc/sgs_iface.c gives to it.
use osmo_msc.Base.{ℕ, ◌+◌, ◌-◌, true, false, ◌&&◌, Option, none, some, ltb, is_some, if◌then◌else◌}
use osmo_msc.Fsm.{OsmoFsm}
use osmo_msc.Vlr.Reject.{RejectValue}
use osmo_msc.Vlr.Sgs.Types.{
  State, sgs_null, la_upd_pres, associated, SgsCause, mt_csfb_rej_user, other_cause, Event,
  vlr_failure, rx_reset_from_mme, rx_detach_ind_from_mme, rx_detach_ind_from_ue, rx_lu_from_a_iu_gs,
  rx_alert_failure, rx_lu_from_mme, tx_lu_reject, tx_lu_accept, tx_paging, rx_sgsap_ue_unreachable,
  rx_tmsi_realloc, rx_service_req, rx_paging_failure, tx_lu_rej, tx_mm_info, Env, Vsub,
  in_event_mask, out_state_mask, allstate_event_mask,
}
use osmo_msc.Vlr.Sgs.Ts5.{call, vlr_sgs_pag_stop, tell_paging_timeout, on_tx_paging, respawn_paging}

unfoldable pub vlr_sgs_lu_release : Vsub → Vsub
vlr_sgs_lu_release v = if ltb 0 v.use_sgs_lu then record v { use_sgs_lu = v.use_sgs_lu - 1 } else v

module _ (core : OsmoFsm State Event) (env : Env) where
  -- osmo_fsm_inst_state_chg(): the timer of the old state stops; a time of 0 starts none.
  unfoldable pub state_chg : Vsub → State → ℕ → Vsub
  state_chg v t secs =
      if core.state_chg out_state_mask v.state t
      then record v { state = t; ts6_2_running = ltb 0 secs }
      else v

  unfoldable pub to_null : Vsub → Vsub
  to_null v = vlr_sgs_pag_stop (
      tell_paging_timeout (record (state_chg v sgs_null 0) {
        conf_by_radio_contact_ind = false;
        tmsi_new = none;
        last_eutran_plmn = none;
      }))

  -- The actions on SGS_UE_E_TX_LU_REJECT.
  unfoldable pub on_tx_lu_reject : State → Vsub → Vsub
  on_tx_lu_reject la_upd_pres v = to_null v
  on_tx_lu_reject _ v = record v { assert_failed = true }

  unfoldable pub dispatch_tx_lu_reject : Vsub → Vsub
  dispatch_tx_lu_reject v =
      if core.dispatch in_event_mask v.state tx_lu_reject then on_tx_lu_reject v.state v else v

  unfoldable pub sgs_tx_mm_info_cb : Vsub → Vsub
  sgs_tx_mm_info_cb v = if env.send_mm_info && env.mme_found then call tx_mm_info v else v

  unfoldable pub vlr_sgs_loc_update_rej_sent : Vsub → Vsub
  vlr_sgs_loc_update_rej_sent v = vlr_sgs_lu_release (dispatch_tx_lu_reject v)

  -- sgs_tx_loc_upd_resp_cb() with `accepted` false.
  unfoldable pub respond_rejected : Vsub → RejectValue → Vsub
  respond_rejected v cause =
      vlr_sgs_loc_update_rej_sent (if env.mme_found then call (tx_lu_rej cause) v else v)

  unfoldable pub lu_error : Vsub → Vsub
  lu_error v = respond_rejected (to_null v) RejectValue.network_failure

  unfoldable pub req_lu : Vsub → Vsub
  req_lu v =
      if env.req_lu_ok
      then record (state_chg v la_upd_pres 0) { ms_not_reachable_flag = false }
      else lu_error v

  unfoldable pub req_lu_with_new : Vsub → Option ℕ → Vsub
  req_lu_with_new v none = lu_error v
  req_lu_with_new v (some t) = req_lu (record v { tmsi_new = some t })

  unfoldable pub perform_lu : Vsub → Vsub
  perform_lu v = if is_some v.tmsi then req_lu v else req_lu_with_new v env.alloc_tmsi

  unfoldable pub sgs_ue_fsm_null : Vsub → Event → Vsub
  sgs_ue_fsm_null v rx_lu_from_mme = perform_lu v
  sgs_ue_fsm_null v tx_paging = on_tx_paging sgs_null v
  sgs_ue_fsm_null v (rx_paging_failure cause) = v
  sgs_ue_fsm_null v rx_tmsi_realloc = v
  sgs_ue_fsm_null v rx_service_req =
      state_chg (record v { conf_by_radio_contact_ind = true }) associated 0
  sgs_ue_fsm_null v _ = record v { assert_failed = true }

  -- The new TMSI is pending: Ts6-2 guards it. Otherwise the update is complete.
  unfoldable pub accepted_with : Vsub → Option ℕ → Vsub
  accepted_with v (some t) = state_chg v associated env.ts6_2_secs
  accepted_with v none = state_chg (respawn_paging core env (sgs_tx_mm_info_cb v)) associated 0

  unfoldable pub attach : Vsub → Vsub
  attach v =
      if v.lu_complete
      then v
      else record v { lu_complete = true; use_attached = v.use_attached + 1 }

  unfoldable pub lu_accepted : Vsub → Vsub
  lu_accepted v =
      let v' =
        record (attach (record v {
          conf_by_radio_contact_ind = true;
          sub_dataconf_by_hlr_ind = true;
          loc_conf_in_hlr_ind = true;
          la_allowed = true;
          imsi_detached_flag = false;
        })) { attached_via_sgs = true } in
      accepted_with v' v'.tmsi_new

  unfoldable pub on_paging_failure : Vsub → SgsCause → Vsub
  on_paging_failure v mt_csfb_rej_user = v
  on_paging_failure v (other_cause c) = to_null v

  unfoldable pub sgs_ue_fsm_lau_present : Vsub → Event → Vsub
  sgs_ue_fsm_lau_present v tx_lu_accept = lu_accepted v
  sgs_ue_fsm_lau_present v (rx_paging_failure cause) = on_paging_failure v cause
  sgs_ue_fsm_lau_present v tx_lu_reject = on_tx_lu_reject la_upd_pres v
  sgs_ue_fsm_lau_present v rx_alert_failure = to_null v
  sgs_ue_fsm_lau_present v tx_paging = on_tx_paging la_upd_pres v
  sgs_ue_fsm_lau_present v rx_tmsi_realloc = v
  sgs_ue_fsm_lau_present v rx_service_req = v
  sgs_ue_fsm_lau_present v _ = record v { assert_failed = true }

  unfoldable pub tmsi_realloc : Vsub → Option ℕ → Vsub
  tmsi_realloc v none = state_chg v associated 0
  tmsi_realloc v (some t) =
      state_chg
        (respawn_paging core env (sgs_tx_mm_info_cb (record v { tmsi = some t; tmsi_new = none })))
        associated 0

  unfoldable pub sgs_ue_fsm_associated : Vsub → Event → Vsub
  sgs_ue_fsm_associated v tx_paging = on_tx_paging associated v
  sgs_ue_fsm_associated v rx_tmsi_realloc = tmsi_realloc v v.tmsi_new
  sgs_ue_fsm_associated v rx_sgsap_ue_unreachable = v
  sgs_ue_fsm_associated v (rx_paging_failure cause) = on_paging_failure v cause
  sgs_ue_fsm_associated v rx_alert_failure = to_null v
  sgs_ue_fsm_associated v rx_lu_from_mme = perform_lu v
  sgs_ue_fsm_associated v rx_service_req = v
  sgs_ue_fsm_associated v _ = record v { assert_failed = true }

  -- vlr_subscr_keep_incomplete_expiry(), with VLR_INCOMPLETE_LU_SECS.
  unfoldable pub incomplete_expiry : Option ℕ → Vsub → Vsub
  incomplete_expiry none v = v
  incomplete_expiry (some now) v = record v { expire_lu = now + 600 }

  unfoldable pub vlr_subscr_keep_incomplete_expiry : Vsub → Vsub
  vlr_subscr_keep_incomplete_expiry v = if v.lu_complete then v else incomplete_expiry env.now v

  unfoldable pub on_detach : Vsub → Vsub
  on_detach v =
      let v' = record v { imsi_detached_flag = true } in
      to_null (
        if v'.lu_complete
        then record v' { expire_lu = 0 }
        else vlr_subscr_keep_incomplete_expiry v')

  unfoldable pub sgs_ue_fsm_allstate : Vsub → Event → Vsub
  sgs_ue_fsm_allstate v rx_detach_ind_from_mme = on_detach v
  sgs_ue_fsm_allstate v rx_detach_ind_from_ue = on_detach v
  sgs_ue_fsm_allstate v rx_reset_from_mme = to_null (record v { conf_by_radio_contact_ind = false })
  sgs_ue_fsm_allstate v vlr_failure = to_null v
  sgs_ue_fsm_allstate v rx_lu_from_a_iu_gs = to_null v
  sgs_ue_fsm_allstate v _ = record v { assert_failed = true }

  unfoldable pub action : State → Vsub → Event → Vsub
  action sgs_null v e = sgs_ue_fsm_null v e
  action la_upd_pres v e = sgs_ue_fsm_lau_present v e
  action associated v e = sgs_ue_fsm_associated v e

  -- osmo_fsm_inst_dispatch(): the events of all states come first.
  unfoldable pub dispatch : Vsub → Event → Vsub
  dispatch v e =
      if core.dispatch allstate_event_mask v.state e
      then sgs_ue_fsm_allstate v e
      else if core.dispatch in_event_mask v.state e
      then action v.state v e
      else v

  -- sgs_ue_fsm_timer_cb(): Ts6-2 runs out.
  unfoldable pub sgs_ue_fsm_timer_cb : Vsub → Vsub
  sgs_ue_fsm_timer_cb v = record v { ts6_2_running = false; tmsi_new = none; tmsi = none }

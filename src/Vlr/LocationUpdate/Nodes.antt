-- ===== src/Vlr/LocationUpdate/Nodes.antt =====
-- libvlr/vlr_lu_fsm.c: Update_HLR_VLR, and the way of a location update from one node to the next.
use osmo_msc.Base.{
  ℕ, Bool, true, false, ◌&&◌, ◌||◌, not, Option, none, some, List, [], if◌then◌else◌,
}
use osmo_msc.Vlr.Subscr.{try_reuse_tuple}
use osmo_msc.Vlr.Reject.{RejectValue}
use osmo_msc.Vlr.AccessRequest.{CausePtr, Link, this_fsm, other_fsm, is_none, umts_aka}
use osmo_msc.Vlr.LocationUpdate.Types.{
  State, UpdState, UpdKind, LuType, LuSubscr, Env, LuFsm, Cores, wait_imeisv, wait_auth, wait_ciph,
  wait_imsi, wait_hlr_check_imei_early, wait_hlr_upd, wait_lu_compl, e_upd_hlr_compl, upd_init,
  upd_wait_for_data, upd_done, upd_start, upd_loc_ack, upd_loc_nack, periodic, tx_id_req_imsi,
  tx_id_req_imeisv, tx_common_id, tx_req_check_imei, req_lu, subscr_assoc, start_auth,
  set_ciph_mode, cancel_other, sgs_rx_lu,
}
use osmo_msc.Vlr.LocationUpdate.Masks.{in_event_mask, upd_in_event_mask, upd_out_state_mask}
use osmo_msc.Vlr.LocationUpdate.Result.{call, state_chg, lu_fsm_failure}
use osmo_msc.Vlr.LocationUpdate.Completion.{confirmed, start_lu_compl_fsm}

abbrev pub is_periodic : LuType → Bool
is_periodic periodic = true
is_periodic _ = false

abbrev pub is_no_tuple : Option ℕ → Bool
is_no_tuple none = true
is_no_tuple (some _) = false

unfoldable pub is_cmc_smc_to_be_attempted : LuFsm → Bool
is_cmc_smc_to_be_attempted fi = fi.is_utran || fi.is_ciphering_to_be_attempted

module _ (cores : Cores) (env : Env) where
  -- VLR_ULA_E_UPD_HLR_COMPL, in the state that its mask names.
  unfoldable pub hlr_updated : State → LuFsm → CausePtr → LuFsm
  hlr_updated wait_hlr_upd fi none = start_lu_compl_fsm cores env (state_chg cores fi wait_lu_compl)
  hlr_updated wait_hlr_upd fi (some cause) = lu_fsm_failure cores fi cause
  hlr_updated _ fi cause = record fi { assert_failed = true }

  unfoldable pub on_upd_hlr_compl : LuFsm → CausePtr → LuFsm
  on_upd_hlr_compl fi cause =
      if cores.lu.dispatch in_event_mask fi.state e_upd_hlr_compl
      then hlr_updated fi.state fi cause
      else fi

  unfoldable pub upd_state_chg : UpdState → UpdState → UpdState
  upd_state_chg s t = if cores.upd.state_chg upd_out_state_mask s t then t else s

  -- The child ends in state `s`: the parent gets the event with the cause.
  unfoldable pub upd_hlr_term : LuFsm → UpdState → (confirmed : Bool) → LuSubscr → CausePtr → LuFsm
  upd_hlr_term fi s confirmed vsub cause =
      let vsub' = record vsub {
        sub_dataconf_by_hlr_ind = confirmed;
        loc_conf_in_hlr_ind = confirmed;
      } in
      on_upd_hlr_compl (record fi { vsub = some vsub'; upd_hlr = some (upd_state_chg s upd_done) })
        cause

  unfoldable pub upd_hlr_vlr_fsm_wait_data :
      LuFsm → UpdState → LuSubscr → UpdKind → CausePtr → LuFsm
  upd_hlr_vlr_fsm_wait_data fi s vsub upd_loc_ack cause = upd_hlr_term fi s true vsub none
  upd_hlr_vlr_fsm_wait_data fi s vsub upd_loc_nack cause = upd_hlr_term fi s false vsub cause
  upd_hlr_vlr_fsm_wait_data fi s vsub _ cause = fi

  unfoldable pub to_upd_hlr : LuFsm → Option UpdState → Option LuSubscr → UpdKind → CausePtr → LuFsm
  to_upd_hlr fi (some s) (some vsub) e cause =
      if cores.upd.dispatch upd_in_event_mask s e
      then upd_hlr_vlr_fsm_wait_data fi s vsub e cause
      else fi
  to_upd_hlr fi _ _ e cause = record fi { assert_failed = true }

  -- upd_hlr_vlr_proc_start() with upd_hlr_vlr_fsm_init(); a request that fails is only logged.
  unfoldable pub upd_hlr_vlr_proc_start : LuFsm → LuFsm
  upd_hlr_vlr_proc_start fi =
      if cores.upd.dispatch upd_in_event_mask upd_init upd_start
      then call req_lu (record fi { upd_hlr = some (upd_state_chg upd_init upd_wait_for_data) })
      else record fi { upd_hlr = some upd_init }

  -- `hlr_unknown` is always false.
  unfoldable pub node_4 : LuFsm → LuFsm
  node_4 fi = upd_hlr_vlr_proc_start (state_chg cores fi wait_hlr_upd)

  -- hlr_update_needed() is always true.
  unfoldable pub post_ciph : LuFsm → LuSubscr → LuFsm
  post_ciph fi vsub = node_4 (record (call tx_common_id fi) {
    vsub = some (record vsub {
      conf_by_radio_contact_ind = true;
      lai = fi.new_lai;
      dormant_ind = false;
      cancel_loc_rx = false;
    });
  })

  unfoldable pub post_auth : LuFsm → LuSubscr → LuFsm
  post_auth fi vsub =
      let fi' =
        call (set_ciph_mode (umts_aka vsub.auth.sec_ctx) fi.cfg.retrieve_imeisv_ciphered) fi in
      if not (is_cmc_smc_to_be_attempted fi)
        || (is_none vsub.auth.sec_ctx && not fi.is_ciphering_required)
      then post_ciph fi vsub
      else if is_no_tuple vsub.auth.last_tuple || is_none vsub.auth.sec_ctx
      then lu_fsm_failure cores fi (some RejectValue.network_failure)
      else if not env.ciph_ok
      then lu_fsm_failure cores fi' (some RejectValue.network_failure)
      else state_chg cores fi' wait_ciph

  -- try_auth(): a tuple is reused, and counted, only where that matters.
  unfoldable pub try_auth : LuFsm → LuSubscr → Bool × LuSubscr
  try_auth fi vsub =
      if fi.authentication_required
      then (true, vsub)
      else if not fi.is_ciphering_to_be_attempted
      then (false, vsub)
      else let (reused, auth) =
          try_reuse_tuple vsub.auth fi.cfg.auth_tuple_max_reuse_count fi.key_seq in
        (not reused, record vsub { auth = auth })

  unfoldable pub node1_by : LuFsm → Bool × LuSubscr → LuFsm
  node1_by fi (true, vsub) =
      call start_auth (state_chg cores (record fi { vsub = some vsub }) wait_auth)
  node1_by fi (false, vsub) = post_auth (record fi { vsub = some vsub }) vsub

  unfoldable pub node1 : LuFsm → LuSubscr → LuFsm
  node1 fi vsub = node1_by fi (try_auth fi vsub)

  unfoldable pub node1_pre : LuFsm → LuSubscr → LuFsm
  node1_pre fi vsub =
      if fi.cfg.check_imei_rqd && fi.cfg.retrieve_imeisv_early
      then call tx_req_check_imei (state_chg cores fi wait_hlr_check_imei_early)
      else node1 fi vsub

  unfoldable pub want_imsi : LuFsm → LuFsm
  want_imsi fi = call tx_id_req_imsi (state_chg cores fi wait_imsi)

  unfoldable pub start_lu_by : LuFsm → LuSubscr → (imsi : List ℕ) → LuFsm
  start_lu_by fi vsub [] = want_imsi fi
  start_lu_by fi vsub _ = node1_pre fi vsub

  -- _start_lu_main(): every location area is in this VLR.
  unfoldable pub start_lu_main : LuFsm → LuSubscr → LuFsm
  start_lu_main fi vsub = start_lu_by fi vsub vsub.auth.imsi

  -- What follows a successful association in lu_fsm_idle().
  unfoldable pub associated : LuFsm → LuSubscr → LuFsm
  associated fi vsub =
      let fi' = call sgs_rx_lu fi in
      if not fi.cfg.retrieve_imeisv_early || (is_periodic fi.lu_type && vsub.imeisv_known)
      then start_lu_main fi' vsub
      else state_chg cores (call tx_id_req_imeisv fi') wait_imeisv

  unfoldable pub cancel_stale : Link → LuFsm → LuFsm
  cancel_stale other_fsm fi = call (cancel_other RejectValue.congestion) fi
  cancel_stale _ fi = fi

  unfoldable pub assoc_lfp_with_sub : LuFsm → LuSubscr → LuFsm
  assoc_lfp_with_sub fi vsub =
      let vsub' = record vsub {
        lu_fsm = this_fsm;
        lai = record (vsub.lai) { lac = fi.new_lai.lac };
      } in
      let fi' = call subscr_assoc (cancel_stale vsub.lu_fsm fi) in
      if not env.assoc_ok
      then lu_fsm_failure cores (record fi' { vsub = none }) (some RejectValue.network_failure)
      else associated (record fi' { vsub = some vsub' }) vsub'

-- ===== src/Vlr/LocationUpdate/Completion.antt =====
-- libvlr/vlr_lu_fsm.c: Location_Update_Completion_VLR, a child of the location update, with its own
-- child Subscriber_Present_VLR. The functions take the child apart from its parent, `c` from `fi`,
-- and put it back; the event that a child dispatches to its parent is handled before the dispatch
-- returns. Both children have a parent from the start.
use osmo_msc.Base.{ℕ, Bool, true, false, ◌&&◌, not, Option, none, some, if◌then◌else◌}
use osmo_msc.Vlr.Reject.{RejectValue}
use osmo_msc.Vlr.LocationUpdate.Types.{
  ComplState, compl_init, compl_wait_sub_pres, compl_wait_imei, compl_wait_imei_tmsi,
  compl_wait_tmsi_cnf, compl_done, ComplKind, compl_start, sub_pres_compl, imei_check_ack,
  imei_check_nack, PresState, pres_init, pres_wait_for_hlr, pres_done, PresKind, pres_start,
  ready_sm_cnf, FsmResult, result_none, success, failure, LuSubscr, tx_lu_acc, tx_id_req_imei,
  subscr_update, subscr_get_attached, sgs_update_id, Compl, Env, LuFsm, Cores,
}
use osmo_msc.Vlr.LocationUpdate.Masks.{
  compl_in_event_mask, compl_out_state_mask, pres_in_event_mask, pres_out_state_mask,
}
use osmo_msc.Vlr.LocationUpdate.Result.{call, is_success, on_lu_compl_success, on_lu_compl_failure}

module _ (cores : Cores) (env : Env) where
  -- A change to a state other than DONE.
  unfoldable pub compl_state_chg : Compl → ComplState → Compl
  compl_state_chg c t =
      if cores.compl.state_chg compl_out_state_mask c.state t then record c { state = t } else c

  -- vlr_lu_compl_fsm_dispatch_result()
  unfoldable pub compl_dispatch_result : LuFsm → FsmResult → Option RejectValue → LuFsm
  compl_dispatch_result fi result cause =
      if is_success result
      then on_lu_compl_success cores fi
      else on_lu_compl_failure cores fi (some cause)

  unfoldable pub compl_fsm_done : LuFsm → Compl → FsmResult → Option RejectValue → LuFsm
  compl_fsm_done fi c result cause =
      let c' = record c { result = result; cause = cause } in
      if cores.compl.state_chg compl_out_state_mask c.state compl_done
      then compl_dispatch_result (record fi { lu_compl = some (record c' { state = compl_done }) })
          result cause
      else record fi { lu_compl = some c' }

  unfoldable pub set_lu_complete : LuFsm → LuSubscr → LuFsm
  set_lu_complete fi vsub =
      if vsub.lu_complete
      then fi
      else call subscr_get_attached (record fi { vsub = some (record vsub { lu_complete = true }) })

  unfoldable pub compl_fsm_success : LuFsm → Compl → LuSubscr → LuFsm
  compl_fsm_success fi c vsub =
      call sgs_update_id (compl_fsm_done (set_lu_complete fi vsub) c success none)

  unfoldable pub with_tmsi : LuFsm → Compl → LuSubscr → Option ℕ → LuFsm
  with_tmsi fi c vsub none = compl_fsm_done fi c failure (some RejectValue.srv_opt_tmp_out_of_order)
  with_tmsi fi c vsub (some tmsi) = call (tx_lu_acc (some tmsi) fi.lu_type) (record fi {
    vsub = some (record vsub { tmsi_new = some tmsi });
    lu_compl = some (compl_state_chg c compl_wait_tmsi_cnf);
  })

  -- vlr_subscr_alloc_tmsi() finds a TMSI or does not.
  unfoldable pub lu_compl_vlr_new_tmsi : LuFsm → Compl → LuSubscr → LuFsm
  lu_compl_vlr_new_tmsi fi c vsub = with_tmsi fi c vsub env.new_tmsi

  -- Any TMSI that was used is no longer valid.
  unfoldable pub accept_without_tmsi : LuFsm → Compl → LuSubscr → LuFsm
  accept_without_tmsi fi c vsub =
      let vsub' = record vsub { tmsi = none } in
      compl_fsm_success (call (tx_lu_acc none fi.lu_type) (record fi { vsub = some vsub' })) c vsub'

  unfoldable pub accept : LuFsm → Compl → LuSubscr → LuFsm
  accept fi c vsub =
      if c.assign_tmsi then lu_compl_vlr_new_tmsi fi c vsub else accept_without_tmsi fi c vsub

  -- `c` has no more child here.
  unfoldable pub lu_compl_vlr_wait_subscr_pres : LuFsm → Compl → LuSubscr → LuFsm
  lu_compl_vlr_wait_subscr_pres fi c vsub =
      let c' = record c { sub_pres = none } in
      if fi.cfg.check_imei_rqd && not fi.cfg.retrieve_imeisv_early
      then call tx_id_req_imei (record fi {
        lu_compl =
            some (
              compl_state_chg c'
                (if c'.assign_tmsi then compl_wait_imei_tmsi else compl_wait_imei));
      })
      else accept fi c' vsub

  unfoldable pub lu_compl_vlr_wait_imei : LuFsm → Compl → LuSubscr → ComplKind → LuFsm
  lu_compl_vlr_wait_imei fi c vsub imei_check_ack =
      if not vsub.imei_known
      then compl_fsm_done fi c failure (some RejectValue.protocol_error)
      else accept fi c vsub
  lu_compl_vlr_wait_imei fi c vsub imei_check_nack =
      compl_fsm_done fi c failure (some RejectValue.illegal_me)
  lu_compl_vlr_wait_imei fi c vsub _ = accept fi c vsub

  unfoldable pub confirmed : LuFsm → Compl → LuSubscr → (tmsi_new : Option ℕ) → LuFsm
  confirmed fi c vsub none = compl_fsm_done fi c failure (some RejectValue.network_failure)
  confirmed fi c vsub (some tmsi) =
      let vsub' = record vsub { tmsi = some tmsi; tmsi_new = none } in
      compl_fsm_success (call subscr_update (record fi { vsub = some vsub' })) c vsub'

  unfoldable pub lu_compl_vlr_wait_tmsi : LuFsm → Compl → LuSubscr → LuFsm
  lu_compl_vlr_wait_tmsi fi c vsub = confirmed fi c vsub vsub.tmsi_new

  -- The action of the state for the events after the start.
  unfoldable pub compl_action : ComplState → LuFsm → Compl → LuSubscr → ComplKind → LuFsm
  compl_action compl_wait_sub_pres fi c vsub e = lu_compl_vlr_wait_subscr_pres fi c vsub
  compl_action compl_wait_imei fi c vsub e = lu_compl_vlr_wait_imei fi c vsub e
  compl_action compl_wait_imei_tmsi fi c vsub e = lu_compl_vlr_wait_imei fi c vsub e
  compl_action compl_wait_tmsi_cnf fi c vsub e = lu_compl_vlr_wait_tmsi fi c vsub
  compl_action _ fi c vsub e = fi

  unfoldable pub compl_event : LuFsm → Compl → LuSubscr → ComplKind → LuFsm
  compl_event fi c vsub e =
      if cores.compl.dispatch compl_in_event_mask c.state e
      then compl_action c.state fi c vsub e
      else record fi { lu_compl = some c }

  -- Subscriber_Present_VLR ends: its parent hears of it.
  unfoldable pub sub_pres_term : LuFsm → Compl → LuSubscr → LuFsm
  sub_pres_term fi c vsub = compl_event fi (record c { sub_pres = none }) vsub sub_pres_compl

  -- sub_pres_vlr_fsm_init(), on the start of that child.
  unfoldable pub sub_pres_vlr_fsm_init : LuFsm → Compl → LuSubscr → LuFsm
  sub_pres_vlr_fsm_init fi c vsub =
      let t = if not vsub.ms_not_reachable_flag then pres_done else pres_wait_for_hlr in
      let s = if cores.pres.state_chg pres_out_state_mask pres_init t then t else pres_init in
      if not vsub.ms_not_reachable_flag
      then sub_pres_term fi (record c { sub_pres = some s }) vsub
      else record fi { lu_compl = some (record c { sub_pres = some s }) }

  unfoldable pub sub_pres_vlr_fsm_start : LuFsm → Compl → LuSubscr → LuFsm
  sub_pres_vlr_fsm_start fi c vsub =
      if cores.pres.dispatch pres_in_event_mask pres_init pres_start
      then sub_pres_vlr_fsm_init fi c vsub
      else record fi { lu_compl = some (record c { sub_pres = some pres_init }) }

  unfoldable pub reached : LuSubscr → PresKind → LuSubscr
  reached vsub ready_sm_cnf = record vsub { ms_not_reachable_flag = false }
  reached vsub _ = vsub

  unfoldable pub sub_pres_vlr_fsm_wait_hlr : LuFsm → Compl → LuSubscr → PresKind → LuFsm
  sub_pres_vlr_fsm_wait_hlr fi c vsub e =
      let vsub' = reached vsub e in sub_pres_term (record fi { vsub = some vsub' }) c vsub'

  unfoldable pub sub_pres_action : PresState → LuFsm → Compl → LuSubscr → PresKind → LuFsm
  sub_pres_action pres_init fi c vsub e = sub_pres_vlr_fsm_init fi c vsub
  sub_pres_action pres_wait_for_hlr fi c vsub e = sub_pres_vlr_fsm_wait_hlr fi c vsub e
  sub_pres_action pres_done fi c vsub e = fi

  unfoldable pub sub_pres_event : LuFsm → Compl → LuSubscr → Option PresState → PresKind → LuFsm
  sub_pres_event fi c vsub none e = fi
  sub_pres_event fi c vsub (some s) e =
      if cores.pres.dispatch pres_in_event_mask s e then sub_pres_action s fi c vsub e else fi

  -- An event for Subscriber_Present_VLR, where there is one.
  unfoldable pub to_sub_pres : LuFsm → Option Compl → Option LuSubscr → PresKind → LuFsm
  to_sub_pres fi none vsub e = fi
  to_sub_pres fi (some c) (some vsub) e = sub_pres_event fi c vsub c.sub_pres e
  to_sub_pres fi (some c) none e = record fi { assert_failed = true }

  unfoldable pub lu_compl_vlr_init : LuFsm → Compl → LuSubscr → LuFsm
  lu_compl_vlr_init fi c vsub =
      let vsub' = record vsub { la_allowed = true; imsi_detached_flag = false } in
      let fi' = record fi { vsub = some vsub' } in
      let c' = compl_state_chg c compl_wait_sub_pres in
      if vsub'.ms_not_reachable_flag
      then sub_pres_vlr_fsm_start fi' c' vsub'
      else compl_event fi' c' vsub' sub_pres_compl

  -- lu_compl_vlr_proc_alloc()
  unfoldable pub lu_compl_vlr_proc_alloc : (assign_tmsi : Bool) → Compl
  lu_compl_vlr_proc_alloc assign_tmsi = record {
    state = compl_init;
    result = result_none;
    cause = none;
    assign_tmsi = assign_tmsi;
    sub_pres = none;
  }

  unfoldable pub start_lu_compl_for : LuFsm → Option LuSubscr → LuFsm
  start_lu_compl_for fi none = record fi { assert_failed = true }
  start_lu_compl_for fi (some vsub) =
      if cores.compl.dispatch compl_in_event_mask compl_init compl_start
      then lu_compl_vlr_init fi (lu_compl_vlr_proc_alloc fi.assign_tmsi) vsub
      else record fi { lu_compl = some (lu_compl_vlr_proc_alloc fi.assign_tmsi) }

  -- The start of the child, from the parent; a null subscriber fails an assertion.
  unfoldable pub start_lu_compl_fsm : LuFsm → LuFsm
  start_lu_compl_fsm fi = start_lu_compl_for fi fi.vsub

  -- An event that the parent passes on to the child.
  unfoldable pub to_lu_compl : LuFsm → Option Compl → Option LuSubscr → ComplKind → LuFsm
  to_lu_compl fi (some c) (some vsub) e = compl_event fi c vsub e
  to_lu_compl fi _ _ e = record fi { assert_failed = true }

-- ===== src/Vlr/Auth.antt =====
-- libvlr/vlr_auth_fsm.c: states, events, masks, actions and the start of the state machine.
-- Calls into the rest of the system are recorded, newest first, in `log`; timers are left out.
pub mod Types
pub mod Response
pub mod Invariant
pub mod Safety
pub mod Progress
pub mod Corners
mod Tests
use osmo_msc.Base.{
  ℕ, ◌≡◌, Bool, true, false, ◌&&◌, ◌||◌, not, Option, none, some, List, [], ◌∷◌, ℤ, pos, negsuc,
  ◌==◌, ◌%◌, if◌then◌else◌, length, take,
}
use osmo_msc.Fsm.{OsmoFsm, InMask, OutMask}
use osmo_msc.Vlr.Subscr.{
  Subscr, AuthVector, has_auth_tuple, get_auth_tuple, update_tuples, use_umts_aka, matches_imsi,
}
use osmo_msc.Vlr.Reject.{GmmCause, RejectValue, gmm_cause_to_reject_cause_domain}
use Response.{check_auth_resp}
unfoldable pub use Types.*

abbrev pub call : Call → AuthFsm → AuthFsm
call c fi = record fi { log = c ∷ fi.log }

pub onenter_failed : AuthFsm → AuthFsm
onenter_failed fi = if fi.auth_requested then call tx_auth_fail_rep fi else fi

-- The `onenter` column of the table.
pub onenter : State → AuthFsm → AuthFsm
unfolding onenter_failed
onenter auth_failed fi = onenter_failed fi
onenter _ fi = fi

-- The instance as auth_fsm_start() sets it up.
pub new_instance : Subscr → Config → (success no_info fail : ℕ) → (is_r99 is_utran : Bool) → AuthFsm
new_instance vsub cfg success no_info fail is_r99 is_utran = record {
  state = needs_auth;
  vsub = vsub;
  cfg = cfg;
  by_imsi = not (length vsub.imsi == 0);
  is_r99 = is_r99;
  is_utran = is_utran;
  auth_requested = false;
  max_reuse_count = pos 0;
  parent_event_success = success;
  parent_event_no_auth_info = no_info;
  parent_event_failure = fail;
  vsub_auth_fsm = true;
  live = true;
  assert_failed = false;
  log = [];
}

-- What auth_fsm_start() leads to: an event to the parent, or a running instance.
pub data Started : Type 0 where
  not_started : ℕ → Started
  started : AuthFsm → Started

-- OSMO_STRLCPY_ARRAY(vsub->imsi, …): at most 15 digits are kept.
abbrev pub imsi_max_digits : ℕ
imsi_max_digits = 15

-- `res_len` is passed on as a uint8_t.
pub check_par : AuthFsm → AuthRespPar → Option (Bool × Subscr)
check_par fi par = check_auth_resp fi.vsub par.is_r99 par.is_utran par.res (par.res_len % 256)

-- The machine over an FSM core.
module _ (core : OsmoFsm State Kind) where
  pub state_chg : AuthFsm → State → AuthFsm
  unfolding onenter
  state_chg fi t =
      if core.state_chg out_state_mask fi.state t then onenter t (record fi { state = t }) else fi

  -- osmo_fsm_inst_term() notifies the parent and calls auth_fsm_cleanup().
  pub inst_term : AuthFsm → ℕ → Option RejectValue → AuthFsm
  inst_term fi parent_term_event cause =
      call (terminated parent_term_event cause) (record fi { live = false; vsub_auth_fsm = false })

  pub auth_fsm_term : AuthFsm → AuthResult → Option RejectValue → AuthFsm
  unfolding state_chg inst_term
  auth_fsm_term fi passed cause =
      inst_term (state_chg fi authenticated) fi.parent_event_success cause
  auth_fsm_term fi no_auth_info cause =
      inst_term (state_chg fi auth_failed) fi.parent_event_no_auth_info cause
  auth_fsm_term fi failure cause =
      inst_term (state_chg fi auth_failed) fi.parent_event_failure cause

  pub authenticate : AuthFsm → AuthFsm
  unfolding auth_fsm_term
  authenticate fi = elim (get_auth_tuple fi.vsub fi.max_reuse_count) [
    | none ↦ auth_fsm_term fi failure (some RejectValue.network_failure)
    | some (i, vsub) ↦
        call (tx_auth_req i (use_umts_aka (vsub.auth_tuples i).vec fi.is_r99))
          (record fi { auth_requested = true; vsub = record vsub { last_tuple = some i } })
  ]

  pub on_needs_auth : AuthFsm → AuthFsm
  unfolding state_chg authenticate
  on_needs_auth fi =
      let max = fi.cfg.auth_tuple_max_reuse_count in
      let fi' = record fi { max_reuse_count = max } in
      if not (has_auth_tuple fi.vsub max)
      then state_chg (call (req_sai none []) fi') needs_auth_wait_ai
      else authenticate (state_chg fi' wait_resp)

  -- The label `pass`.
  pub wait_ai_pass : AuthFsm → AuthFsm
  unfolding state_chg authenticate
  wait_ai_pass fi = authenticate (state_chg fi wait_resp)

  -- No new tuples from the HLR: take up the old ones if the configuration says so and there are
  -- any, or end with the result for the case.
  pub wait_ai_error : AuthFsm → AuthResult → RejectValue → AuthFsm
  unfolding wait_ai_pass auth_fsm_term
  wait_ai_error fi result cause =
      if fi.cfg.auth_reuse_old_sets_on_error && has_auth_tuple fi.vsub (negsuc 0)
      then wait_ai_pass (record fi { max_reuse_count = negsuc 0 })
      else auth_fsm_term fi result (some cause)

  pub on_wait_ai : AuthFsm → Event → AuthFsm
  unfolding wait_ai_error wait_ai_pass auth_fsm_term
  on_wait_ai fi (hlr_sai_ack []) = wait_ai_error fi failure RejectValue.network_failure
  on_wait_ai fi (hlr_sai_ack (vec ∷ vecs)) =
      wait_ai_pass (record fi { vsub = update_tuples fi.vsub (vec ∷ vecs) })
  on_wait_ai fi (hlr_sai_nack GmmCause.imsi_unknown) =
      auth_fsm_term fi no_auth_info
        (some (gmm_cause_to_reject_cause_domain GmmCause.imsi_unknown true))
  on_wait_ai fi (hlr_sai_nack cause) =
      wait_ai_error fi no_auth_info (gmm_cause_to_reject_cause_domain cause true)
  on_wait_ai fi (hlr_sai_abort cause) =
      wait_ai_error fi failure (gmm_cause_to_reject_cause_domain cause true)
  on_wait_ai fi _ = fi

  -- What follows a verdict on a response: `cause` is that of a failed authentication by IMSI.
  pub resp_verdict : AuthFsm → RejectValue → Option (Bool × Subscr) → AuthFsm
  unfolding state_chg auth_fsm_term
  resp_verdict fi cause none = record fi { assert_failed = true }
  resp_verdict fi cause (some (true, vsub)) = auth_fsm_term (record fi { vsub = vsub }) passed none
  resp_verdict fi cause (some (false, vsub)) =
      let fi' = record fi { vsub = vsub } in
      if not fi.by_imsi
      then state_chg (call tx_id_req_imsi fi') wait_id_imsi
      else auth_fsm_term fi' failure (some cause)

  pub on_wait_auth_resp : AuthFsm → Event → AuthFsm
  unfolding state_chg auth_fsm_term resp_verdict check_par
  on_wait_auth_resp fi (ms_auth_resp par) =
      resp_verdict fi RejectValue.illegal_ms (check_par fi par)
  on_wait_auth_resp fi (ms_auth_fail par) = elim par.auts [
    | none ↦ auth_fsm_term fi failure (some RejectValue.illegal_ms)
    | some auts ↦ elim fi.vsub.last_tuple [
      | none ↦ record fi { assert_failed = true }
      | some i ↦
          state_chg (call (req_sai (some auts) (fi.vsub.auth_tuples i).vec.rand) fi)
            needs_auth_wait_sai_resync
    ]
  ]
  on_wait_auth_resp fi _ = fi

  pub resync_ack : AuthFsm → List AuthVector → AuthFsm
  unfolding state_chg authenticate
  resync_ack fi vecs =
      authenticate (state_chg (record fi { vsub = update_tuples fi.vsub vecs }) wait_resp_resync)

  -- Unlike wait_ai(), the first test does not return: the switch is run behind it.
  pub on_wait_ai_resync : AuthFsm → Event → AuthFsm
  unfolding auth_fsm_term resync_ack
  on_wait_ai_resync fi (hlr_sai_ack []) =
      resync_ack (auth_fsm_term fi failure (some RejectValue.network_failure)) []
  on_wait_ai_resync fi (hlr_sai_ack (vec ∷ vecs)) = resync_ack fi (vec ∷ vecs)
  on_wait_ai_resync fi (hlr_sai_nack GmmCause.imsi_unknown) =
      auth_fsm_term fi failure (some RejectValue.imsi_unknown_in_hlr)
  on_wait_ai_resync fi (hlr_sai_nack cause) =
      auth_fsm_term (auth_fsm_term fi failure (some RejectValue.network_failure)) failure
        (some RejectValue.network_failure)
  on_wait_ai_resync fi (hlr_sai_abort cause) =
      auth_fsm_term fi failure (some RejectValue.network_failure)
  on_wait_ai_resync fi _ = fi

  pub on_wait_auth_resp_resync : AuthFsm → Event → AuthFsm
  unfolding auth_fsm_term resp_verdict check_par
  on_wait_auth_resp_resync fi (ms_auth_resp par) =
      resp_verdict fi RejectValue.synch_failure (check_par fi par)
  on_wait_auth_resp_resync fi (ms_auth_fail par) =
      auth_fsm_term fi failure (some RejectValue.synch_failure)
  on_wait_auth_resp_resync fi _ = fi

  -- osmo_fsm_inst_dispatch(fi, VLR_AUTH_E_START, NULL): START is an event of NEEDS_AUTH alone.
  pub dispatch_start : AuthFsm → AuthFsm
  unfolding on_needs_auth
  dispatch_start fi = if core.dispatch in_event_mask fi.state e_start then on_needs_auth fi else fi

  pub on_wait_imsi : AuthFsm → Event → AuthFsm
  unfolding state_chg dispatch_start
  on_wait_imsi fi (ms_id_imsi mi_string) =
      let vsub =
        if not (length fi.vsub.imsi == 0) && not (matches_imsi fi.vsub mi_string)
        then fi.vsub
        else record (fi.vsub) { imsi = take imsi_max_digits mi_string } in
      dispatch_start (state_chg (record fi { vsub = vsub; by_imsi = true }) needs_auth)
  on_wait_imsi fi _ = fi

  -- The `action` column of the table.
  pub action : State → AuthFsm → Event → AuthFsm
  unfolding on_needs_auth on_wait_ai on_wait_auth_resp on_wait_ai_resync on_wait_auth_resp_resync
      on_wait_imsi
  action needs_auth fi e = on_needs_auth fi
  action needs_auth_wait_ai fi e = on_wait_ai fi e
  action wait_resp fi e = on_wait_auth_resp fi e
  action needs_auth_wait_sai_resync fi e = on_wait_ai_resync fi e
  action wait_resp_resync fi e = on_wait_auth_resp_resync fi e
  action wait_id_imsi fi e = on_wait_imsi fi e
  action _ fi e = fi

  pub dispatch : AuthFsm → Event → AuthFsm
  unfolding action
  dispatch fi e = if core.dispatch in_event_mask fi.state (kind e) then action fi.state fi e else fi

  -- auth_fsm_start(): without memory for the instance or for its private state the parent is told of
  -- a failure at once.
  pub auth_fsm_start : (fi_allocated afp_allocated : Bool) → AuthFsm → Started
  unfolding dispatch_start
  auth_fsm_start fi_allocated afp_allocated fi =
      if not fi_allocated
      then not_started fi.parent_event_failure
      else if not afp_allocated
      then not_started fi.parent_event_failure
      else started (dispatch_start fi)

  pub run : AuthFsm → List Event → AuthFsm
  run fi [] = fi
  run fi (e ∷ es) = run (dispatch fi e) es

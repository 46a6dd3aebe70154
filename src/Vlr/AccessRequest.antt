-- ===== src/Vlr/AccessRequest.antt =====
-- libvlr/vlr_access_req_fsm.c: the state machine of Process_Access_Request_VLR, for CM service
-- requests and paging responses. Calls into the rest of the system are recorded, newest first, in
-- `log`; what they return, what a lookup finds and what others wrote to the subscriber since the last
-- event come in with each event. Timers are left out.
pub mod Types
pub mod Invariant
pub mod Node2
pub mod Actions
pub mod Security
pub mod Unanswered
mod Tests
use osmo_msc.Base.{
  ℕ, ◌≡◌, Bool, true, false, ◌&&◌, ◌||◌, not, Option, none, some, List, [], ◌∷◌, ℤ, ◌==◌,
  if◌then◌else◌, is_some,
}
use osmo_msc.Fsm.{OsmoFsm, InMask, OutMask}
use osmo_msc.Vlr.Subscr.{Subscr, SecCtx, sec_none, sec_gsm, sec_umts, try_reuse_tuple}
use osmo_msc.Vlr.Reject.{RejectValue}
unfoldable pub use Types.*

abbrev pub call : Call → ArqFsm → ArqFsm
call c fi = record fi { log = c ∷ fi.log }

abbrev pub is_cm_serv_req : ParqType → Bool
is_cm_serv_req cm_serv_req = true
is_cm_serv_req _ = false

-- The conditions written as `0 /* TODO … */`.
abbrev tmsi_realloc_at_access : Bool
tmsi_realloc_at_access = false

abbrev imei_check_required : Bool
imei_check_required = false

abbrev tracing_required : Bool
tracing_required = false

abbrev roaming_not_allowed_in_la : Bool
roaming_not_allowed_in_la = false

-- Accept unless the ciphering command has done so already.
send_accept : Bool → ArqFsm → ArqFsm × Bool
send_accept serv_acc_ok fi =
    let success = not (is_some fi.result) in
    if success && not fi.implicitly_accepted
    then (call (tx_cm_serv_acc fi.cm_service_type) fi, serv_acc_ok)
    else (fi, success)

send_reject : ArqFsm × Bool → ArqFsm × Bool
send_reject (fi, true) = (fi, true)
send_reject (fi, false) = (call (tx_cm_serv_rej fi.cm_service_type fi.result) fi, false)

tell_parent : ArqFsm × Bool → ArqFsm
tell_parent (fi, success) =
    if not fi.has_parent
    then fi
    else call (to_parent (if success then fi.parent_event_success else fi.parent_event_failure)) fi

-- proc_arq_vlr_dispatch_result(), on entry to DONE.
pub dispatch_result : Bool → ArqFsm → ArqFsm
unfolding send_accept send_reject tell_parent
dispatch_result serv_acc_ok fi =
    if is_cm_serv_req fi.type
    then tell_parent (send_reject (send_accept serv_acc_ok fi))
    else tell_parent (fi, not (is_some fi.result))

pub onenter : Bool → State → ArqFsm → ArqFsm
unfolding dispatch_result
onenter serv_acc_ok done fi = dispatch_result serv_acc_ok fi
onenter serv_acc_ok _ fi = fi

pub is_cmc_smc_to_be_attempted : ArqFsm → Bool
is_cmc_smc_to_be_attempted fi = fi.is_utran || fi.is_ciphering_to_be_attempted

abbrev pub is_asci : CmService → Bool
is_asci cmserv_vgcs = true
is_asci cmserv_vbs = true
is_asci _ = false

abbrev pub is_none : SecCtx → Bool
is_none sec_none = true
is_none _ = false

-- vlr_set_ciph_mode() for an established security context, and what it returns.
pub umts_aka : SecCtx → Bool
umts_aka sec_umts = true
umts_aka _ = false

-- proc_arq_vlr_cleanup(): the subscriber no longer points to this instance.
abbrev unlink : Link → Link
unlink this_fsm = unlinked
unlink l = l

pub cleanup : ArqFsm → ArqFsm
cleanup fi = elim fi.vsub [
  | none ↦ fi
  | some vsub ↦ record fi { vsub = some (record vsub { proc_arq_fsm = unlink vsub.proc_arq_fsm }) }
]

-- The type of a mobile identity.
pub data MobileId : Type 0 where
  mi_imsi mi_tmsi mi_other : MobileId

-- The machine over an FSM core, in an environment.
module _ (core : OsmoFsm State Kind) (env : Env) where
  pub state_chg : ArqFsm → State → ArqFsm
  unfolding onenter
  state_chg fi t =
      if core.state_chg out_state_mask fi.state t
      then onenter env.serv_acc_ok t (record fi { state = t })
      else fi

  pub fsm_done : ArqFsm → Option RejectValue → ArqFsm
  unfolding state_chg
  fsm_done fi rej = state_chg (record fi { result = rej }) done

  pub post_imei : ArqFsm → ArqFsm
  unfolding fsm_done
  post_imei fi =
      if tmsi_realloc_at_access
      then state_chg (call alloc_tmsi fi) wait_tmsi_ack
      else fsm_done fi none

  pub post_trace : ArqFsm → ArqFsm
  unfolding post_imei
  post_trace fi =
      if imei_check_required
      then state_chg (call tx_id_req_imei fi) wait_check_imei
      else post_imei fi

  pub post_pres : ArqFsm → ArqFsm
  unfolding post_trace
  post_pres fi = post_trace (if tracing_required then state_chg fi wait_trace_sub else fi)

  -- A subscriber is there in every state that gets here.
  pub node2_post_vlr : ArqFsm → ArqSubscr → ArqFsm
  node2_post_vlr fi vsub =
      if not vsub.sub_dataconf_by_hlr_ind
      then fsm_done fi (some RejectValue.imsi_unknown_in_hlr)
      else if roaming_not_allowed_in_la
      then fsm_done fi (some RejectValue.roaming_not_allowed)
      else let fi' = record fi { vsub = some (record vsub { imsi_detached_flag = false }) } in
        if vsub.ms_not_reachable_flag
        then call start_sub_pres (state_chg fi' wait_sub_pres)
        else post_pres fi'

  pub node2_post_ciph : ArqFsm → ArqSubscr → ArqFsm
  node2_post_ciph fi vsub =
      let vsub' = record vsub { conf_by_radio_contact_ind = true } in
      let fi' = call tx_common_id (record fi { vsub = some vsub' }) in
      if not vsub.loc_conf_in_hlr_ind
      then state_chg (call start_upd_hlr fi') wait_upd_loc_child
      else node2_post_vlr fi' vsub'

  pub node2 : ArqFsm → ArqSubscr → ArqFsm
  node2 fi vsub =
      if not (is_cmc_smc_to_be_attempted fi)
        || (is_none vsub.auth.sec_ctx && not fi.is_ciphering_required)
        || is_asci fi.cm_service_type
      then node2_post_ciph fi vsub
      else if is_none vsub.auth.sec_ctx
      then fsm_done fi (some RejectValue.network_failure)
      else let fi' =
          call (set_ciph_mode (umts_aka vsub.auth.sec_ctx) fi.cfg.retrieve_imeisv_ciphered) fi in
        if not env.ciph_ok
        then fsm_done fi' (some RejectValue.network_failure)
        else state_chg (record fi' { implicitly_accepted = true }) wait_ciph

  -- is_auth_to_be_attempted(): the reuse of a tuple is tried, and counted, only where it matters.
  pub auth_to_be_attempted : ArqFsm → ArqSubscr → Bool × ArqSubscr
  auth_to_be_attempted fi vsub =
      if fi.authentication_required
      then (true, vsub)
      else if not fi.is_ciphering_to_be_attempted
      then (false, vsub)
      else let (reused, auth) =
          try_reuse_tuple vsub.auth fi.cfg.auth_tuple_max_reuse_count fi.key_seq in
        (not reused, record vsub { auth = auth })

  pub post_imsi_by : ArqFsm → Bool × ArqSubscr → ArqFsm
  post_imsi_by fi (true, vsub) =
      call start_auth (state_chg (record fi { vsub = some vsub }) wait_auth)
  post_imsi_by fi (false, vsub) = node2 (record fi { vsub = some vsub }) vsub

  pub post_imsi : ArqFsm → ArqSubscr → ArqFsm
  post_imsi fi vsub = post_imsi_by fi (auth_to_be_attempted fi vsub)

  -- assoc_par_with_subscr() and what follows it.
  pub with_subscr : ArqFsm → ArqSubscr → ArqFsm
  with_subscr fi vsub =
      let fi' = call subscr_assoc (record fi { vsub = some vsub }) in
      if not env.assoc_ok
      then fsm_done fi' (some RejectValue.network_failure)
      else post_imsi fi' vsub

  abbrev pub stop_other : Link → ArqFsm → ArqFsm
  stop_other other_fsm fi = call (other_fsm_done RejectValue.network_failure) fi
  stop_other _ fi = fi

  pub fn_init : ArqFsm → Option ArqSubscr → ArqFsm
  fn_init fi (some vsub) =
      with_subscr (stop_other vsub.proc_arq_fsm fi) (record vsub { proc_arq_fsm = this_fsm })
  fn_init fi none =
      if not fi.by_tmsi
      then fsm_done fi (some RejectValue.imsi_unknown_in_vlr)
      else if fi.cfg.parq_retrieve_imsi
      then state_chg fi wait_obtain_imsi
      else fsm_done fi (some RejectValue.imsi_unknown_in_vlr)

  pub fn_w_obt_imsi : ArqFsm → Option ArqSubscr → ArqFsm
  fn_w_obt_imsi fi none = fsm_done fi (some RejectValue.imsi_unknown_in_vlr)
  fn_w_obt_imsi fi (some vsub) = with_subscr fi vsub

  -- `cause ? *cause : GSM48_REJECT_NETWORK_FAILURE`
  abbrev pub cause_or : CausePtr → Option RejectValue
  cause_or none = some RejectValue.network_failure
  cause_or (some cause) = cause

  pub fn_w_auth : ArqFsm → ArqSubscr → Event → ArqFsm
  fn_w_auth fi vsub auth_res = node2 fi vsub
  fn_w_auth fi vsub (auth_failure cause) = fsm_done fi (cause_or cause)
  fn_w_auth fi vsub (auth_no_info cause) =
      if fi.authentication_required then fsm_done fi (cause_or cause) else node2 fi vsub
  fn_w_auth fi vsub _ = fi

  pub fn_w_ciph : ArqFsm → ArqSubscr → Option CiphResult → ArqFsm
  fn_w_ciph fi vsub (some ciph_compl) = node2_post_ciph fi vsub
  fn_w_ciph fi vsub _ = fsm_done fi (some RejectValue.illegal_ms)

  -- The `action` column for the events that a subscriber is needed for; without one the C code would
  -- read through a null pointer, and this is `none`.
  pub action_with : State → ArqFsm → ArqSubscr → Event → ArqFsm
  action_with wait_auth fi vsub e = fn_w_auth fi vsub e
  action_with wait_ciph fi vsub (ciph_res r) = fn_w_ciph fi vsub r
  action_with wait_upd_loc_child fi vsub e = node2_post_vlr fi vsub
  action_with wait_sub_pres fi vsub e = post_pres fi
  action_with wait_trace_sub fi vsub e = post_trace fi
  action_with wait_check_imei fi vsub e = post_imei fi
  action_with wait_tmsi_ack fi vsub e = fsm_done fi none
  action_with _ fi vsub e = fi

  pub action_by : State → ArqFsm → Option ArqSubscr → Event → Option ArqFsm
  action_by init fi vsub e = some (fn_init fi env.found)
  action_by wait_obtain_imsi fi vsub e = some (fn_w_obt_imsi fi env.found)
  action_by s fi none e = none
  action_by s fi (some vsub) e = some (action_with s fi vsub e)

  -- What others wrote to the subscriber.
  pub refresh : ArqFsm → ArqFsm
  refresh fi = elim fi.vsub [ none ↦ fi | some vsub ↦ record fi { vsub = some (env.others vsub) } ]

  pub dispatch : ArqFsm → Event → Option ArqFsm
  dispatch fi e =
      let fi' = refresh fi in
      if core.dispatch in_event_mask fi'.state (kind e)
      then action_by fi'.state fi' fi'.vsub e
      else some fi'

  -- vlr_parq_cancel() for an instance that is there.
  pub parq_cancel : ArqFsm → Option RejectValue → ArqFsm
  unfolding fsm_done
  parq_cancel fi cause = elim fi.state [ done ↦ fi | _ ↦ fsm_done fi cause ]

  -- The end of vlr_proc_acc_req(), with the instance set up but for the identity; `none` is a failed
  -- assertion or a null pointer.
  pub proc_acc_req : MobileId → ArqFsm → Option ArqFsm
  proc_acc_req mi fi =
      if fi.is_ciphering_required && not fi.is_ciphering_to_be_attempted then none else elim mi [
        | mi_imsi ↦ dispatch (record fi { by_tmsi = false }) start
        | mi_tmsi ↦ dispatch (record fi { by_tmsi = true }) start
        | mi_other ↦ some (fsm_done fi (some RejectValue.invalid_mandatory_inf))
      ]

-- The instance as it is allocated and filled in before that.
pub new_instance :
    (cfg : Config) (success fail : ℕ) (type : ParqType) (service : CmService)
    → (auth_required ciph_attempted ciph_required is_utran : Bool) (key_seq : ℕ) → ArqFsm
new_instance cfg success fail type service auth_required ciph_attempted ciph_required is_utran
      key_seq =
    record {
      state = init;
      cfg = cfg;
      vsub = none;
      has_parent = true;
      parent_event_success = success;
      parent_event_failure = fail;
      type = type;
      cm_service_type = service;
      result = none;
      by_tmsi = false;
      authentication_required = auth_required;
      is_ciphering_to_be_attempted = ciph_attempted;
      is_ciphering_required = ciph_required;
      key_seq = key_seq;
      is_utran = is_utran;
      implicitly_accepted = false;
      log = [];
    }

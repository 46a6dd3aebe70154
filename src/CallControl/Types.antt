-- ===== src/CallControl/Types.antt =====
-- libmsc/gsm_04_08_cc.c and msc/transaction.h: the call of a transaction, with the messages that it
-- exchanges with the phone and with MNCC. Of their information elements only the cause is here: the
-- others are passed on and change no state of the call.
use osmo_msc.Base.{ℕ, Bool, Option, List}

-- The GSM_CSTATE_* states.
pub data State : Type 0 where
  cc_null initiated mo_call_proc call_delivered call_present call_received connect_request : State
  mo_term_call_conf active disconnect_req disconnect_ind release_req mo_orig_modify : State
  mo_term_modify connect_ind : State

-- The timers that trans->cc.Tcurrent names.
pub data CcTimer : Type 0 where
  t301 t303 t306 t308 t310 t313 t323 : CcTimer

-- GSM48_CAUSE_LOC_* and GSM48_CC_CAUSE_*: the values that the code names, and any other.
pub data Location : Type 0 where
  loc_user loc_prn_s_lu : Location
  other_loc : ℕ → Location

pub data CauseValue : Type 0 where
  recovery_timer normal_unspec user_notrespond resource_unavail dest_ooo norm_call_clear :
      CauseValue
  inval_trans_id inv_nr_format user_busy incompat_dest : CauseValue
  other_value : ℕ → CauseValue

-- struct gsm_mncc_cause, with the timer that its diagnostics spell.
pub record Cause : Type 0 where
  pub location : Location
  pub value : CauseValue
  pub diag : Option CcTimer

-- The MNCC messages to and from the call control.
pub data Ind : Type 0 where
  setup_ind call_conf_ind alert_ind setup_cnf setup_compl_ind disc_ind rel_ind rel_cnf rej_ind : Ind
  facility_ind hold_ind retrieve_ind start_dtmf_ind stop_dtmf_ind modify_ind modify_cnf : Ind
  modify_rej_ind notify_ind userinfo_ind rtp_create : Ind

pub data Req : Type 0 where
  call_proc_req alert_req setup_rsp progress_req setup_req setup_compl_req notify_req : Req
  facility_req start_dtmf_rsp start_dtmf_rej stop_dtmf_rsp hold_cnf hold_rej retrieve_cnf : Req
  retrieve_rej modify_req modify_rsp modify_rej userinfo_req rej_req disc_req rel_req : Req

-- The GSM48_MT_CC_* messages, to and from the phone.
pub data CcMsg : Type 0 where
  cc_setup emerg_setup call_proc cc_alerting progress cc_connect connect_ack call_conf : CcMsg
  cc_facility cc_notify start_dtmf start_dtmf_ack start_dtmf_reject stop_dtmf stop_dtmf_ack : CcMsg
  status status_enq hold hold_ack hold_reject retr retr_ack retr_reject modify modify_compl : CcMsg
  modify_reject user_info disconnect release release_compl : CcMsg

-- What is sent, with the callref that it names. gsm48_tx_simple() sends without the transaction.
pub data Out : Type 0 where
  to_mncc : Ind → ℕ → Option Cause → Out
  to_ms : CcMsg → Option Cause → Out
  tx_simple : CcMsg → Out

-- The statistics of the calls, as rate_ctr and stat_item count them.
pub record Stats : Type 0 where
  pub active_calls : ℕ
  pub call_active : ℕ
  pub call_complete : ℕ
  pub call_incomplete : ℕ

-- What composing a SETUP for the phone comes to: it is composed; there is no transaction identifier
-- for it; no codec or bearer service is left; or its transfer capability or radio requirement is not
-- supported.
pub data SetupResult : Type 0 where
  setup_ok no_trans_id incompatible unsupported : SetupResult

-- What the calls into other parts give back.
pub record Env : Type 0 where
  pub assign_ok : Bool
  pub transfer_ok : Bool
  pub rtp_ok : Bool
  pub sdp_fits : Bool
  pub codec_assigned : Bool
  pub setup : SetupResult

-- struct gsm_trans of a call. `timer` is cc.Tcurrent while cc.timer is pending; `setup_stored` and
-- `stored_cause` are what cc.msg is used for; a callref of 0 is none.
pub record Trans : Type 0 where
  pub state : State
  pub callref : ℕ
  pub has_msc_a : Bool
  pub timer : Option CcTimer
  pub t308_second : Bool
  pub guard_running : Bool
  pub mncc_initiated : Bool
  pub setup_stored : Bool
  pub stored_cause : Option Cause
  pub freed : Bool
  pub stats : Stats
  pub log : List Out

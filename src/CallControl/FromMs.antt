-- ===== src/CallControl/FromMs.antt =====
-- libmsc/gsm_04_08_cc.c: the messages of the phone, by the table datastatelist.
use osmo_msc.Base.{Bool, true, false, ◌&&◌, not, Option, none, some, ◌∷◌, ◌==◌, if◌then◌else◌}
use osmo_msc.CallControl.Types.{
  State, cc_null, initiated, call_present, call_received, connect_request, mo_term_call_conf,
  active, disconnect_req, release_req, mo_orig_modify, mo_term_modify, connect_ind, t301, t310,
  loc_user, other_value, Cause, Ind, call_conf_ind, alert_ind, setup_cnf, setup_compl_ind, disc_ind,
  rel_ind, rel_cnf, rej_ind, facility_ind, hold_ind, retrieve_ind, start_dtmf_ind, stop_dtmf_ind,
  modify_ind, modify_cnf, modify_rej_ind, notify_ind, userinfo_ind, CcMsg, cc_setup, emerg_setup,
  cc_alerting, cc_connect, connect_ack, call_conf, cc_facility, cc_notify, start_dtmf, stop_dtmf,
  status, status_enq, hold, retr, modify, modify_compl, modify_reject, user_info, disconnect,
  release, release_compl, tx_simple, Env, Trans,
}
use osmo_msc.CallControl.Release.{
  is_active, is_null, is_release_req, new_cc_state, gsm48_stop_cc_timer, gsm48_start_cc_timer,
  gsm48_start_guard_timer, trans_tx_gsm48, mncc_recvmsg, trans_free, drop,
}

-- The steps of gsm48_cc_rx_setup() on the call: the guard timer, which it starts first, and the
-- MNCC_SETUP_IND that it keeps for later. The decoding of the information elements is left out.
unfoldable pub gsm48_cc_rx_setup : Trans → Trans
gsm48_cc_rx_setup t = record (new_cc_state (gsm48_start_guard_timer t) initiated) {
  setup_stored = true;
  stored_cause = none;
}

unfoldable pub gsm48_cc_rx_alerting : Env → Trans → Trans
gsm48_cc_rx_alerting env t =
    let t' = new_cc_state (gsm48_start_cc_timer (gsm48_stop_cc_timer t) t301) call_received in
    if env.sdp_fits then mncc_recvmsg t' alert_ind none else trans_free t'

unfoldable pub gsm48_cc_rx_call_conf : Env → Trans → Option Cause → Trans
gsm48_cc_rx_call_conf env t cause =
    let t' = gsm48_start_cc_timer (gsm48_stop_cc_timer t) t310 in
    if env.assign_ok
    then mncc_recvmsg (new_cc_state t' mo_term_call_conf) call_conf_ind cause
    else t'

unfoldable pub gsm48_cc_rx_connect : Trans → Trans
gsm48_cc_rx_connect t =
    mncc_recvmsg (new_cc_state (gsm48_stop_cc_timer t) connect_request) setup_cnf none

unfoldable pub gsm48_cc_rx_connect_ack : Trans → Trans
gsm48_cc_rx_connect_ack t =
    mncc_recvmsg (new_cc_state (gsm48_stop_cc_timer t) active) setup_compl_ind none

unfoldable pub gsm48_cc_rx_disconnect : Trans → Option Cause → Trans
gsm48_cc_rx_disconnect t cause =
    mncc_recvmsg (new_cc_state (gsm48_stop_cc_timer t) disconnect_req) disc_ind cause

unfoldable pub gsm48_cc_rx_release : Trans → Option Cause → Trans
gsm48_cc_rx_release t cause =
    let t' = gsm48_stop_cc_timer t in
    drop (
      new_cc_state
        (if is_release_req t'.state
          then mncc_recvmsg t' rel_cnf cause
          else mncc_recvmsg (record t' { log = tx_simple release_compl ∷ t'.log }) rel_ind cause)
        cc_null)

unfoldable pub release_compl_ind : State → Ind
release_compl_ind call_present = rej_ind
release_compl_ind release_req = rel_cnf
release_compl_ind _ = rel_ind

unfoldable pub gsm48_cc_rx_release_compl : Trans → Option Cause → Trans
gsm48_cc_rx_release_compl t cause =
    let t' = gsm48_stop_cc_timer t in
    drop (if t'.callref == 0 then t' else mncc_recvmsg t' (release_compl_ind t'.state) cause)

unfoldable pub gsm48_cc_rx_modify : Trans → Trans
gsm48_cc_rx_modify t = mncc_recvmsg (new_cc_state t mo_orig_modify) modify_ind none

unfoldable pub gsm48_cc_rx_modify_complete : Trans → Trans
gsm48_cc_rx_modify_complete t =
    mncc_recvmsg (new_cc_state (gsm48_stop_cc_timer t) active) modify_cnf none

unfoldable pub gsm48_cc_rx_modify_reject : Trans → Option Cause → Trans
gsm48_cc_rx_modify_reject t cause =
    mncc_recvmsg (new_cc_state (gsm48_stop_cc_timer t) active) modify_rej_ind cause

-- gsm48_cc_tx_status(): the answer to a status enquiry, with a cause and a state of its own.
unfoldable pub gsm48_cc_rx_status_enq : Trans → Trans
gsm48_cc_rx_status_enq t =
    trans_tx_gsm48 t status
      (some (record { location = loc_user; value = other_value 30; diag = none }))

-- The states of a message in the table; a message that is not in it has none.
unfoldable pub data_states : CcMsg → State → Bool
data_states cc_setup s = is_null s
data_states emerg_setup s = is_null s
data_states connect_ack connect_ind = true
data_states call_conf call_present = true
data_states cc_alerting call_present = true
data_states cc_alerting mo_term_call_conf = true
data_states cc_connect call_present = true
data_states cc_connect mo_term_call_conf = true
data_states cc_connect call_received = true
data_states cc_facility s = not (is_null s)
data_states cc_notify s = is_active s
data_states start_dtmf s = true
data_states stop_dtmf s = true
data_states status_enq s = true
data_states hold s = is_active s
data_states retr s = is_active s
data_states modify s = is_active s
data_states modify_compl mo_term_modify = true
data_states modify_reject mo_term_modify = true
data_states user_info s = is_active s
data_states disconnect s = not (is_null s) && not (is_release_req s)
data_states release s = not (is_null s)
data_states release_compl s = true
data_states _ s = false

unfoldable pub data_rout : Env → CcMsg → Trans → Option Cause → Trans
data_rout env cc_setup t cause = gsm48_cc_rx_setup t
data_rout env emerg_setup t cause = gsm48_cc_rx_setup t
data_rout env connect_ack t cause = gsm48_cc_rx_connect_ack t
data_rout env call_conf t cause = gsm48_cc_rx_call_conf env t cause
data_rout env cc_alerting t cause = gsm48_cc_rx_alerting env t
data_rout env cc_connect t cause = gsm48_cc_rx_connect t
data_rout env cc_facility t cause = mncc_recvmsg t facility_ind none
data_rout env cc_notify t cause = mncc_recvmsg t notify_ind none
data_rout env start_dtmf t cause = mncc_recvmsg t start_dtmf_ind none
data_rout env stop_dtmf t cause = mncc_recvmsg t stop_dtmf_ind none
data_rout env status_enq t cause = gsm48_cc_rx_status_enq t
data_rout env hold t cause = mncc_recvmsg t hold_ind none
data_rout env retr t cause = mncc_recvmsg t retrieve_ind none
data_rout env modify t cause = gsm48_cc_rx_modify t
data_rout env modify_compl t cause = gsm48_cc_rx_modify_complete t
data_rout env modify_reject t cause = gsm48_cc_rx_modify_reject t cause
data_rout env user_info t cause = mncc_recvmsg t userinfo_ind none
data_rout env disconnect t cause = gsm48_cc_rx_disconnect t cause
data_rout env release t cause = gsm48_cc_rx_release t cause
data_rout env release_compl t cause = gsm48_cc_rx_release_compl t cause
data_rout env _ t cause = t

-- gsm0408_rcv_cc() for the transaction that it found or created.
unfoldable pub gsm0408_rcv_cc : Env → CcMsg → Trans → Option Cause → Trans
gsm0408_rcv_cc env m t cause =
    if data_states m t.state
    then data_rout env m t cause
    else if is_null t.state
    then trans_free t
    else t

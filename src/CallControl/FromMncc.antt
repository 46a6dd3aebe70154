-- ===== src/CallControl/FromMncc.antt =====
-- libmsc/gsm_04_08_cc.c: the messages of MNCC, by the table downstatelist, and the RTP port.
use osmo_msc.Base.{Bool, true, false, ◌&&◌, not, Option, none, some, if◌then◌else◌}
use osmo_msc.CallControl.Types.{
  State, initiated, mo_call_proc, call_delivered, call_present, connect_request, mo_term_call_conf,
  active, mo_orig_modify, mo_term_modify, connect_ind, t303, t313, t323, loc_prn_s_lu, CauseValue,
  resource_unavail, dest_ooo, norm_call_clear, incompat_dest, Cause, setup_ind, rel_ind, rel_cnf,
  rtp_create, Req, call_proc_req, alert_req, setup_rsp, progress_req, setup_req, setup_compl_req,
  notify_req, facility_req, start_dtmf_rsp, start_dtmf_rej, stop_dtmf_rsp, hold_cnf, hold_rej,
  retrieve_cnf, retrieve_rej, modify_req, modify_rsp, modify_rej, userinfo_req, rej_req, disc_req,
  rel_req, cc_setup, call_proc, cc_alerting, progress, cc_connect, connect_ack, cc_facility,
  cc_notify, start_dtmf_ack, start_dtmf_reject, stop_dtmf_ack, hold_ack, hold_reject, retr_ack,
  retr_reject, modify, modify_compl, modify_reject, user_info, release_compl, SetupResult, setup_ok,
  no_trans_id, incompatible, unsupported, Env, Trans,
}
use osmo_msc.CallControl.Release.{
  is_active, is_null, is_release_req, is_disconnect, new_cc_state, gsm48_stop_cc_timer,
  gsm48_start_cc_timer, gsm48_start_guard_timer, trans_tx_gsm48, mncc_recvmsg, cause_of, or_default,
  mncc_release_ind, gsm48_cc_tx_release, gsm48_cc_tx_disconnect, trans_free, drop,
}

-- The errors of gsm48_cc_tx_setup(): most tell MNCC and give the callref up, then all free.
unfoldable pub give_up : Trans → CauseValue → Trans
give_up t v = record (mncc_release_ind t loc_prn_s_lu v) { callref = 0 }

unfoldable pub setup_composed : SetupResult → Trans → Trans
setup_composed setup_ok t =
    trans_tx_gsm48 (new_cc_state (gsm48_start_cc_timer t t303) call_present) cc_setup none
setup_composed no_trans_id t = trans_free (give_up t resource_unavail)
setup_composed incompatible t = trans_free (give_up (gsm48_start_cc_timer t t303) incompat_dest)
setup_composed unsupported t = trans_free (gsm48_start_cc_timer t t303)

unfoldable pub gsm48_cc_tx_setup : Env → Trans → Trans
gsm48_cc_tx_setup env t = setup_composed env.setup t

unfoldable pub gsm48_cc_tx_call_proc_and_assign : Env → Trans → Trans
gsm48_cc_tx_call_proc_and_assign env t =
    let t' = new_cc_state t mo_call_proc in
    if env.transfer_ok then trans_tx_gsm48 t' call_proc none else t'

unfoldable pub gsm48_cc_tx_alerting : Trans → Trans
gsm48_cc_tx_alerting t = trans_tx_gsm48 (new_cc_state t call_delivered) cc_alerting none

unfoldable pub gsm48_cc_tx_connect : Trans → Trans
gsm48_cc_tx_connect t =
    trans_tx_gsm48 (new_cc_state (gsm48_start_cc_timer (gsm48_stop_cc_timer t) t313) connect_ind)
      cc_connect none

unfoldable pub gsm48_cc_tx_connect_ack : Trans → Trans
gsm48_cc_tx_connect_ack t = trans_tx_gsm48 (new_cc_state t active) connect_ack none

unfoldable pub gsm48_cc_tx_release_compl : Trans → Option Cause → Trans
gsm48_cc_tx_release_compl t cause =
    trans_free (trans_tx_gsm48 (gsm48_stop_cc_timer (record t { callref = 0 })) release_compl cause)

unfoldable pub gsm48_cc_tx_modify : Trans → Trans
gsm48_cc_tx_modify t =
    trans_tx_gsm48 (new_cc_state (gsm48_start_cc_timer t t323) mo_term_modify) modify none

unfoldable pub gsm48_cc_tx_modify_complete : Trans → Trans
gsm48_cc_tx_modify_complete t = trans_tx_gsm48 (new_cc_state t active) modify_compl none

unfoldable pub gsm48_cc_tx_modify_reject : Trans → Option Cause → Trans
gsm48_cc_tx_modify_reject t cause = trans_tx_gsm48 (new_cc_state t active) modify_reject cause

unfoldable pub down_states : Req → State → Bool
down_states call_proc_req initiated = true
down_states alert_req initiated = true
down_states alert_req mo_call_proc = true
down_states setup_rsp initiated = true
down_states setup_rsp mo_call_proc = true
down_states setup_rsp call_delivered = true
down_states progress_req mo_call_proc = true
down_states setup_req s = is_null s
down_states setup_compl_req connect_request = true
down_states notify_req s = is_active s
down_states facility_req s = not (is_null s) && not (is_release_req s)
down_states start_dtmf_rsp s = true
down_states start_dtmf_rej s = true
down_states stop_dtmf_rsp s = true
down_states hold_cnf s = is_active s
down_states hold_rej s = is_active s
down_states retrieve_cnf s = is_active s
down_states retrieve_rej s = is_active s
down_states modify_req s = is_active s
down_states modify_rsp mo_orig_modify = true
down_states modify_rej mo_orig_modify = true
down_states userinfo_req s = is_active s
down_states rej_req initiated = true
down_states disc_req s = not (is_null s) && not (is_disconnect s) && not (is_release_req s)
down_states rel_req s = not (is_null s) && not (is_release_req s)
down_states _ s = false

unfoldable pub down_rout : Env → Req → Trans → Option Cause → Trans
down_rout env call_proc_req t cause = gsm48_cc_tx_call_proc_and_assign env t
down_rout env alert_req t cause = gsm48_cc_tx_alerting t
down_rout env setup_rsp t cause = gsm48_cc_tx_connect t
down_rout env progress_req t cause = trans_tx_gsm48 t progress none
down_rout env setup_req t cause = gsm48_cc_tx_setup env t
down_rout env setup_compl_req t cause = gsm48_cc_tx_connect_ack t
down_rout env notify_req t cause = trans_tx_gsm48 t cc_notify none
down_rout env facility_req t cause = trans_tx_gsm48 t cc_facility none
down_rout env start_dtmf_rsp t cause = trans_tx_gsm48 t start_dtmf_ack none
down_rout env start_dtmf_rej t cause = trans_tx_gsm48 t start_dtmf_reject (some (or_default cause))
down_rout env stop_dtmf_rsp t cause = trans_tx_gsm48 t stop_dtmf_ack none
down_rout env hold_cnf t cause = trans_tx_gsm48 t hold_ack none
down_rout env hold_rej t cause = trans_tx_gsm48 t hold_reject (some (or_default cause))
down_rout env retrieve_cnf t cause = trans_tx_gsm48 t retr_ack none
down_rout env retrieve_rej t cause = trans_tx_gsm48 t retr_reject (some (or_default cause))
down_rout env modify_req t cause = gsm48_cc_tx_modify t
down_rout env modify_rsp t cause = gsm48_cc_tx_modify_complete t
down_rout env modify_rej t cause = gsm48_cc_tx_modify_reject t cause
down_rout env userinfo_req t cause = trans_tx_gsm48 t user_info none
down_rout env rej_req t cause = gsm48_cc_tx_release_compl t cause
down_rout env disc_req t cause = gsm48_cc_tx_disconnect t cause
down_rout env rel_req t cause = gsm48_cc_tx_release t cause

-- Messages that are merely passed on do not start the guard timer.
unfoldable pub passes_through : Req → Bool
passes_through progress_req = true
passes_through notify_req = true
passes_through facility_req = true
passes_through start_dtmf_rsp = true
passes_through start_dtmf_rej = true
passes_through stop_dtmf_rsp = true
passes_through hold_cnf = true
passes_through hold_rej = true
passes_through retrieve_cnf = true
passes_through retrieve_rej = true
passes_through userinfo_req = true
passes_through _ = false

unfoldable pub is_rel_req : Req → Bool
is_rel_req rel_req = true
is_rel_req _ = false

-- mncc_tx_to_gsm_cc() for a transaction; without a connection it is still paging.
unfoldable pub handle_req : Env → Req → Trans → Option Cause → Trans
handle_req env m t cause =
    if not t.has_msc_a
    then drop (
        mncc_recvmsg t (if is_rel_req m then rel_cnf else rel_ind)
          (some (cause_of loc_prn_s_lu norm_call_clear)))
    else if down_states m t.state
    then down_rout env m t cause
    else t

unfoldable pub mncc_tx_to_gsm_cc : Env → Req → Trans → Option Cause → Trans
mncc_tx_to_gsm_cc env m t cause =
    handle_req env m
      (record (if passes_through m then t else gsm48_start_guard_timer t) { mncc_initiated = true })
      cause

unfoldable pub cc_paging_cb : Env → (success : Bool) → Trans → Trans
cc_paging_cb env success t =
    if t.has_msc_a
    then t
    else if success
    then gsm48_cc_tx_setup env (record t { has_msc_a = true })
    else drop (mncc_release_ind t loc_prn_s_lu dest_ooo)

-- gsm48_cc_rx_setup_cn_local_rtp_port_known(), in the state and with the message that it expects.
unfoldable pub setup_port_known : Env → Trans → Trans
setup_port_known env t =
    if not t.has_msc_a
    then drop t
    else let t' = record t { setup_stored = false; stored_cause = none } in
      if env.rtp_ok && env.sdp_fits then mncc_recvmsg t' setup_ind none else trans_free t'

-- gsm48_cc_mt_rtp_port_and_codec_known(); mncc_recv_rtp() sends MNCC_RTP_CREATE by mncc_recvmsg().
unfoldable pub mt_port_known : Env → Trans → Trans
mt_port_known env t =
    if not t.has_msc_a
    then drop t
    else if not env.rtp_ok
    then trans_free t
    else if env.codec_assigned
    then mncc_recvmsg t rtp_create none
    else t

unfoldable pub port_known_in : Env → State → Trans → Trans
port_known_in env initiated t = if t.setup_stored then setup_port_known env t else t
port_known_in env mo_term_call_conf t = mt_port_known env t
port_known_in env _ t = t

unfoldable pub cc_on_cn_local_rtp_port_known : Env → Trans → Trans
cc_on_cn_local_rtp_port_known env t = port_known_in env t.state t

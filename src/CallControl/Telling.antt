-- ===== src/CallControl/Telling.antt =====
-- libmsc/gsm_04_08_cc.c: every message and timer of a call tells MNCC of its end once.
use osmo_msc.Base.{◌≡◌, Bool, true, false, Option, none, ◌∷◌, ◌==◌, if_elim, arith}
use osmo_msc.CallControl.Types.{
  State, cc_null, call_present, call_received, release_req, t301, t303, loc_prn_s_lu,
  resource_unavail, incompat_dest, Cause, alert_ind, rel_ind, rel_cnf, CcMsg, cc_setup, emerg_setup,
  cc_alerting, cc_connect, connect_ack, call_conf, cc_facility, cc_notify, start_dtmf, stop_dtmf,
  status_enq, hold, retr, modify, modify_compl, modify_reject, user_info, disconnect, release,
  release_compl, tx_simple, SetupResult, setup_ok, no_trans_id, incompatible, unsupported, Env,
  Trans,
}
use osmo_msc.CallControl.Release.{
  is_active, is_null, is_release_req, new_cc_state, gsm48_stop_cc_timer, gsm48_start_cc_timer,
  gsm48_start_guard_timer, trans_tx_gsm48, mncc_recvmsg, mncc_release_ind, trans_free, drop,
}
use osmo_msc.CallControl.FromMs.{
  gsm48_cc_rx_setup, gsm48_cc_rx_alerting, gsm48_cc_rx_call_conf, gsm48_cc_rx_connect,
  gsm48_cc_rx_connect_ack, gsm48_cc_rx_disconnect, gsm48_cc_rx_release, release_compl_ind,
  gsm48_cc_rx_release_compl, gsm48_cc_rx_modify, gsm48_cc_rx_modify_complete,
  gsm48_cc_rx_modify_reject, gsm48_cc_rx_status_enq, data_states, data_rout, gsm0408_rcv_cc,
}
use osmo_msc.CallControl.FromMncc.{
  give_up, setup_composed, gsm48_cc_tx_call_proc_and_assign, gsm48_cc_tx_release_compl,
}
use osmo_msc.CallControl.Told.{
  closings, closed, TellsOnce, Told, continues, ending, mncc_release_ind-closings, trans_free-Told,
  drop-Told,
}

-- The live transaction, and what it has told so far.
module _ (t : Trans) (f : t.freed ≡ false) (h : closings t.log ≡ closed t.callref) where
  pub going : (i : Bool) → TellsOnce t.freed i t.callref (closings t.log)
  going i = continues t.freed i t.callref (closings t.log) f h

  rx_alerting-Told : (env : Env) → Told (gsm48_cc_rx_alerting env t)
  unfolding gsm48_cc_rx_alerting mncc_recvmsg new_cc_state gsm48_start_cc_timer gsm48_stop_cc_timer
      is_active
  rx_alerting-Told env =
      let w : Trans =
        new_cc_state (gsm48_start_cc_timer (gsm48_stop_cc_timer t) t301) call_received in
      if_elim Told env.sdp_fits {x = mncc_recvmsg w alert_ind none} {y = trans_free w}
        (λ e. going true) (λ e. trans_free-Told w f h)

  rx_call_conf-Told : (env : Env) (cause : Option Cause) → Told (gsm48_cc_rx_call_conf env t cause)
  unfolding gsm48_cc_rx_call_conf mncc_recvmsg new_cc_state gsm48_start_cc_timer gsm48_stop_cc_timer
      is_active
  rx_call_conf-Told env cause =
      if_elim Told env.assign_ok (λ e. going true) (λ e. going t.mncc_initiated)

  rx_release-Told : (cause : Option Cause) → Told (gsm48_cc_rx_release t cause)
  unfolding gsm48_cc_rx_release mncc_recvmsg new_cc_state gsm48_stop_cc_timer is_active
  rx_release-Told cause =
      let t' : Trans = gsm48_stop_cc_timer t in
      if_elim (λ (w : Trans). Told (drop (new_cc_state w cc_null))) (is_release_req t.state)
        {x = mncc_recvmsg t' rel_cnf cause}
        {y = mncc_recvmsg (record t' { log = tx_simple release_compl ∷ t'.log }) rel_ind cause}
        (λ e.
          drop-Told (new_cc_state (mncc_recvmsg t' rel_cnf cause) cc_null) f
            (ending t.callref (closings t.log) h))
        (λ e.
          drop-Told
            (new_cc_state
              (mncc_recvmsg (record t' { log = tx_simple release_compl ∷ t'.log }) rel_ind cause)
              cc_null)
            f (ending t.callref (closings t.log) h))

  compl_closings :
      (s : State) (cause : Option Cause)
      → closings (mncc_recvmsg (gsm48_stop_cc_timer t) (release_compl_ind s) cause).log ≡ 1
  unfolding release_compl_ind mncc_recvmsg gsm48_stop_cc_timer
  compl_closings call_present cause = ending t.callref (closings t.log) h
  compl_closings release_req cause = ending t.callref (closings t.log) h
  compl_closings s cause = ending t.callref (closings t.log) h

  rx_release_compl-Told : (cause : Option Cause) → Told (gsm48_cc_rx_release_compl t cause)
  unfolding gsm48_cc_rx_release_compl gsm48_stop_cc_timer mncc_recvmsg
  rx_release_compl-Told cause =
      let t' : Trans = gsm48_stop_cc_timer t in
      let w : Trans = mncc_recvmsg t' (release_compl_ind t'.state) cause in
      if_elim (λ (x : Trans). Told (drop x)) (t.callref == 0) {x = t'} {y = w}
        (λ e. drop-Told t' f (ground (arith, h, e)))
        (λ e. drop-Told w f (compl_closings t.state cause))

  data_rout-Told : (env : Env) (m : CcMsg) (cause : Option Cause) → Told (data_rout env m t cause)
  unfolding data_rout mncc_recvmsg new_cc_state gsm48_stop_cc_timer is_active gsm48_cc_rx_setup
      gsm48_start_guard_timer gsm48_cc_rx_connect gsm48_cc_rx_connect_ack gsm48_cc_rx_disconnect
      gsm48_cc_rx_modify gsm48_cc_rx_modify_complete gsm48_cc_rx_modify_reject
      gsm48_cc_rx_status_enq trans_tx_gsm48
  data_rout-Told env cc_setup cause = going t.mncc_initiated
  data_rout-Told env emerg_setup cause = going t.mncc_initiated
  data_rout-Told env connect_ack cause = going true
  data_rout-Told env call_conf cause = rx_call_conf-Told env cause
  data_rout-Told env cc_alerting cause = rx_alerting-Told env
  data_rout-Told env cc_connect cause = going true
  data_rout-Told env cc_facility cause = going true
  data_rout-Told env cc_notify cause = going true
  data_rout-Told env start_dtmf cause = going true
  data_rout-Told env stop_dtmf cause = going true
  data_rout-Told env status_enq cause = going t.mncc_initiated
  data_rout-Told env hold cause = going true
  data_rout-Told env retr cause = going true
  data_rout-Told env modify cause = going true
  data_rout-Told env modify_compl cause = going true
  data_rout-Told env modify_reject cause = going true
  data_rout-Told env user_info cause = going true
  data_rout-Told env disconnect cause = going true
  data_rout-Told env release cause = rx_release-Told cause
  data_rout-Told env release_compl cause = rx_release_compl-Told cause
  data_rout-Told env _ cause = going t.mncc_initiated

  pub gsm0408_rcv_cc-Told :
      (env : Env) (m : CcMsg) (cause : Option Cause) → Told (gsm0408_rcv_cc env m t cause)
  unfolding gsm0408_rcv_cc
  gsm0408_rcv_cc-Told env m cause =
      if_elim Told (data_states m t.state) (λ e. data_rout-Told env m cause)
        (λ e.
          if_elim Told (is_null t.state) (λ n. trans_free-Told t f h) (λ n. going t.mncc_initiated))

  pub setup_composed-Told : (r : SetupResult) → Told (setup_composed r t)
  unfolding setup_composed give_up trans_tx_gsm48 new_cc_state gsm48_start_cc_timer is_active
      mncc_release_ind mncc_recvmsg
  setup_composed-Told setup_ok = going t.mncc_initiated
  setup_composed-Told no_trans_id =
      trans_free-Told (give_up t resource_unavail) f
        (mncc_release_ind-closings t loc_prn_s_lu resource_unavail h)
  setup_composed-Told incompatible =
      trans_free-Told (give_up (gsm48_start_cc_timer t t303) incompat_dest) f
        (mncc_release_ind-closings t loc_prn_s_lu incompat_dest h)
  setup_composed-Told unsupported = trans_free-Told (gsm48_start_cc_timer t t303) f h

  pub tx_release_compl-Told :
      (t.callref == 0) ≡ false → (cause : Option Cause) → Told (gsm48_cc_tx_release_compl t cause)
  unfolding gsm48_cc_tx_release_compl trans_tx_gsm48 gsm48_stop_cc_timer
  tx_release_compl-Told c cause =
      trans_free-Told
        (trans_tx_gsm48 (gsm48_stop_cc_timer (record t { callref = 0 })) release_compl cause) f
        (ground (arith, h, c))

  pub call_proc-Told : (env : Env) → Told (gsm48_cc_tx_call_proc_and_assign env t)
  unfolding gsm48_cc_tx_call_proc_and_assign trans_tx_gsm48 new_cc_state is_active
  call_proc-Told env =
      if_elim Told env.transfer_ok (λ e. going t.mncc_initiated) (λ e. going t.mncc_initiated)

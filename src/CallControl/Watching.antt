-- ===== src/CallControl/Watching.antt =====
-- libmsc/gsm_04_08_cc.c: the messages of the phone keep the timers of a call in order.
use osmo_msc.Base.{
  ℕ, ◌≡◌, refl, Bool, true, false, ◌||◌, Option, none, some, ◌==◌, is_some, if_elim, arith,
}
use osmo_msc.CallControl.Types.{
  State, cc_null, initiated, call_received, connect_request, mo_term_call_conf, active,
  disconnect_req, mo_orig_modify, CcTimer, t301, t310, Cause, alert_ind, CcMsg, cc_setup,
  emerg_setup, cc_alerting, cc_connect, connect_ack, call_conf, cc_facility, cc_notify, start_dtmf,
  stop_dtmf, status_enq, hold, retr, modify, modify_compl, modify_reject, user_info, disconnect,
  release, release_compl, Env, Trans,
}
use osmo_msc.CallControl.Release.{
  is_active, is_null, is_release_req, count_statistics, new_cc_state, gsm48_stop_cc_timer,
  gsm48_start_cc_timer, gsm48_start_guard_timer, trans_tx_gsm48, mncc_recvmsg, trans_free, drop,
}
use osmo_msc.CallControl.FromMs.{
  gsm48_cc_rx_setup, gsm48_cc_rx_alerting, gsm48_cc_rx_call_conf, gsm48_cc_rx_connect,
  gsm48_cc_rx_connect_ack, gsm48_cc_rx_disconnect, gsm48_cc_rx_release, gsm48_cc_rx_release_compl,
  gsm48_cc_rx_modify, gsm48_cc_rx_modify_complete, gsm48_cc_rx_modify_reject,
  gsm48_cc_rx_status_enq, data_states, data_rout, gsm0408_rcv_cc,
}
use osmo_msc.CallControl.Supervised.{
  fits, is_unwatched, Watches, Watched, count_statistics-calls, moved-Watches, trans_free-Watched,
}

-- A live transaction with a connection.
module _ (base : ℕ) (t : Trans) (f : t.freed ≡ false) (a : t.has_msc_a ≡ true)
    (w : Watched base t) where
  -- It changes to `s`, with a timer or the guard timer as the arguments say.
  pub goes :
      (s : State) (x : Option CcTimer) (g : Bool)
      → fits x s ≡ true
      → (is_some x || g || is_unwatched s) ≡ true
      → Watches base s x g t.freed t.has_msc_a (count_statistics t.state s t.stats).active_calls
  goes s x g h k = moved-Watches base t s x g f a h k w.counted

  rx_alerting-Watched : (env : Env) → Watched base (gsm48_cc_rx_alerting env t)
  unfolding gsm48_cc_rx_alerting mncc_recvmsg new_cc_state gsm48_start_cc_timer gsm48_stop_cc_timer
      is_active
  rx_alerting-Watched env =
      let u : Trans =
        new_cc_state (gsm48_start_cc_timer (gsm48_stop_cc_timer t) t301) call_received in
      if_elim (Watched base) env.sdp_fits {x = mncc_recvmsg u alert_ind none} {y = trans_free u}
        (λ e. goes call_received (some t301) t.guard_running refl refl)
        (λ e.
          trans_free-Watched base u f
            (count_statistics-calls base t.state call_received t.stats w.counted))

  rx_call_conf-Watched :
      (env : Env) (cause : Option Cause)
      → data_states call_conf t.state ≡ true
      → Watched base (gsm48_cc_rx_call_conf env t cause)
  unfolding gsm48_cc_rx_call_conf mncc_recvmsg new_cc_state gsm48_start_cc_timer gsm48_stop_cc_timer
      is_active data_states
  rx_call_conf-Watched env cause m =
      if_elim (Watched base) env.assign_ok
        (λ e. goes mo_term_call_conf (some t310) t.guard_running refl refl)
        (λ e. record {
          timed = ground (arith, m);
          connected = ground (arith, a);
          watched = ground (arith, f);
          over = λ d. absurd (ground (arith, d, f));
          counted = w.counted;
        })

  rx_release-Watched : (cause : Option Cause) → Watched base (gsm48_cc_rx_release t cause)
  unfolding gsm48_cc_rx_release mncc_recvmsg new_cc_state gsm48_stop_cc_timer is_active drop
  rx_release-Watched cause =
      let c : _ = count_statistics-calls base t.state cc_null t.stats w.counted in
      if_elim (λ (u : Trans). Watched base (drop (new_cc_state u cc_null))) (is_release_req t.state)
        (λ e. trans_free-Watched base _ f c) (λ e. trans_free-Watched base _ f c)

  rx_release_compl-Watched :
      (cause : Option Cause) → Watched base (gsm48_cc_rx_release_compl t cause)
  unfolding gsm48_cc_rx_release_compl gsm48_stop_cc_timer mncc_recvmsg drop
  rx_release_compl-Watched cause =
      if_elim (λ (u : Trans). Watched base (drop u)) (t.callref == 0)
        (λ e. trans_free-Watched base _ f w.counted) (λ e. trans_free-Watched base _ f w.counted)

  data_rout-Watched :
      (env : Env) (m : CcMsg) (cause : Option Cause)
      → data_states m t.state ≡ true
      → Watched base (data_rout env m t cause)
  unfolding data_rout data_states mncc_recvmsg new_cc_state gsm48_stop_cc_timer is_active is_null
      gsm48_cc_rx_setup gsm48_start_guard_timer gsm48_cc_rx_connect gsm48_cc_rx_connect_ack
      gsm48_cc_rx_disconnect gsm48_cc_rx_modify gsm48_cc_rx_modify_complete
      gsm48_cc_rx_modify_reject gsm48_cc_rx_status_enq trans_tx_gsm48
  data_rout-Watched env cc_setup cause m =
      goes initiated t.timer true (ground (arith, w.timed, m)) (ground arith)
  data_rout-Watched env emerg_setup cause m =
      goes initiated t.timer true (ground (arith, w.timed, m)) (ground arith)
  data_rout-Watched env connect_ack cause m = goes active none false refl refl
  data_rout-Watched env call_conf cause m = rx_call_conf-Watched env cause m
  data_rout-Watched env cc_alerting cause m = rx_alerting-Watched env
  data_rout-Watched env cc_connect cause m =
      goes connect_request none t.guard_running refl (ground arith)
  data_rout-Watched env cc_facility cause m = w
  data_rout-Watched env cc_notify cause m = w
  data_rout-Watched env start_dtmf cause m = w
  data_rout-Watched env stop_dtmf cause m = w
  data_rout-Watched env status_enq cause m = w
  data_rout-Watched env hold cause m = w
  data_rout-Watched env retr cause m = w
  data_rout-Watched env modify cause m =
      goes mo_orig_modify t.timer t.guard_running (ground (arith, w.timed, m)) (ground arith)
  data_rout-Watched env modify_compl cause m = goes active none false refl refl
  data_rout-Watched env modify_reject cause m = goes active none false refl refl
  data_rout-Watched env user_info cause m = w
  data_rout-Watched env disconnect cause m =
      goes disconnect_req none t.guard_running refl (ground arith)
  data_rout-Watched env release cause m = rx_release-Watched cause
  data_rout-Watched env release_compl cause m = rx_release_compl-Watched cause
  data_rout-Watched env _ cause m = w

  pub gsm0408_rcv_cc-Watched :
      (env : Env) (m : CcMsg) (cause : Option Cause) → Watched base (gsm0408_rcv_cc env m t cause)
  unfolding gsm0408_rcv_cc
  gsm0408_rcv_cc-Watched env m cause =
      if_elim (Watched base) (data_states m t.state) (λ e. data_rout-Watched env m cause e)
        (λ e.
          if_elim (Watched base) (is_null t.state) (λ n. trans_free-Watched base t f w.counted)
            (λ n. w))

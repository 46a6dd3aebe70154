-- ===== src/CallControl/Timing.antt =====
-- libmsc/gsm_04_08_cc.c: the requests of MNCC, the paging, the RTP port and the timers themselves keep
-- the timers of a call in order.
use osmo_msc.Base.{
  ℕ, ◌≡◌, refl, Bool, true, false, ◌&&◌, ◌||◌, not, Option, some, ◌==◌, is_some, if_elim, arith,
}
use osmo_msc.CallControl.Types.{
  State, initiated, mo_call_proc, call_delivered, call_present, mo_term_call_conf, active,
  disconnect_ind, mo_term_modify, connect_ind, CcTimer, t301, t303, t306, t308, t310, t313, t323,
  loc_user, CauseValue, recovery_timer, Cause, Req, call_proc_req, alert_req, setup_rsp,
  progress_req, setup_req, setup_compl_req, notify_req, facility_req, start_dtmf_rsp,
  start_dtmf_rej, stop_dtmf_rsp, hold_cnf, hold_rej, retrieve_cnf, retrieve_rej, modify_req,
  modify_rsp, modify_rej, userinfo_req, rej_req, disc_req, rel_req, SetupResult, setup_ok,
  no_trans_id, incompatible, unsupported, Env, Trans,
}
use osmo_msc.CallControl.Release.{
  is_active, is_null, count_statistics, new_cc_state, gsm48_stop_cc_timer, gsm48_start_cc_timer,
  gsm48_start_guard_timer, trans_tx_gsm48, mncc_recvmsg, cause_of, mncc_release_ind,
  gsm48_cc_tx_release, gsm48_cc_tx_disconnect, drop, timeout_release, timeout_disconnect,
  gsm48_cc_timeout,
}
use osmo_msc.CallControl.FromMncc.{
  give_up, setup_composed, gsm48_cc_tx_setup, gsm48_cc_tx_call_proc_and_assign,
  gsm48_cc_tx_alerting, gsm48_cc_tx_connect, gsm48_cc_tx_connect_ack, gsm48_cc_tx_release_compl,
  gsm48_cc_tx_modify, gsm48_cc_tx_modify_complete, gsm48_cc_tx_modify_reject, down_states,
  down_rout, cc_paging_cb, setup_port_known, mt_port_known, port_known_in,
}
use osmo_msc.CallControl.Supervised.{
  fits, is_unwatched, Watches, Watched, Counted, moved-Watches, gsm48_cc_tx_release-Watched,
  trans_free-Watched,
}
use osmo_msc.CallControl.Watching.{goes}

module _ (base : ℕ) (t : Trans) (f : t.freed ≡ false) (a : t.has_msc_a ≡ true)
    (w : Watched base t) where
  to :
      (s : State) (x : Option CcTimer) (g : Bool)
      → fits x s ≡ true
      → (is_some x || g || is_unwatched s) ≡ true
      → Watches base s x g t.freed t.has_msc_a (count_statistics t.state s t.stats).active_calls
  to s x g h k = goes base t f a w s x g h k

  pub setup_composed-Watched : (r : SetupResult) → Watched base (setup_composed r t)
  unfolding setup_composed give_up trans_tx_gsm48 new_cc_state gsm48_start_cc_timer is_active
      mncc_release_ind mncc_recvmsg
  setup_composed-Watched setup_ok = to call_present (some t303) t.guard_running refl refl
  setup_composed-Watched no_trans_id = trans_free-Watched base _ f w.counted
  setup_composed-Watched incompatible = trans_free-Watched base _ f w.counted
  setup_composed-Watched unsupported = trans_free-Watched base _ f w.counted

  call_proc-Watched :
      (env : Env)
      → down_states call_proc_req t.state ≡ true
      → Watched base (gsm48_cc_tx_call_proc_and_assign env t)
  unfolding gsm48_cc_tx_call_proc_and_assign trans_tx_gsm48 new_cc_state is_active down_states
  call_proc-Watched env m =
      let k : Watches base mo_call_proc t.timer t.guard_running t.freed t.has_msc_a
          (count_statistics t.state mo_call_proc t.stats).active_calls =
        to mo_call_proc t.timer t.guard_running (ground (arith, w.timed, m))
          (ground (arith, w.timed, w.watched, m, f)) in
      if_elim (Watched base) env.transfer_ok (λ e. k) (λ e. k)

  pub down_rout-Watched :
      (env : Env) (m : Req) (cause : Option Cause)
      → down_states m t.state ≡ true
      → Watched base (down_rout env m t cause)
  unfolding down_rout down_states trans_tx_gsm48 new_cc_state gsm48_stop_cc_timer
      gsm48_start_cc_timer is_active is_null gsm48_cc_tx_setup gsm48_cc_tx_alerting
      gsm48_cc_tx_connect gsm48_cc_tx_connect_ack gsm48_cc_tx_modify gsm48_cc_tx_modify_complete
      gsm48_cc_tx_modify_reject gsm48_cc_tx_disconnect gsm48_cc_tx_release_compl
  down_rout-Watched env call_proc_req cause m = call_proc-Watched env m
  down_rout-Watched env setup_req cause m = setup_composed-Watched env.setup
  down_rout-Watched env rej_req cause m = trans_free-Watched base _ f w.counted
  down_rout-Watched env rel_req cause m = gsm48_cc_tx_release-Watched base t cause f a w.counted
  down_rout-Watched env alert_req cause m =
      to call_delivered t.timer t.guard_running (ground (arith, w.timed, m))
        (ground (arith, w.timed, w.watched, m, f))
  down_rout-Watched env setup_rsp cause m = to connect_ind (some t313) t.guard_running refl refl
  down_rout-Watched env progress_req cause m = w
  down_rout-Watched env setup_compl_req cause m =
      to active t.timer false (ground (arith, w.timed, m)) (ground arith)
  down_rout-Watched env notify_req cause m = w
  down_rout-Watched env facility_req cause m = w
  down_rout-Watched env start_dtmf_rsp cause m = w
  down_rout-Watched env start_dtmf_rej cause m = w
  down_rout-Watched env stop_dtmf_rsp cause m = w
  down_rout-Watched env hold_cnf cause m = w
  down_rout-Watched env hold_rej cause m = w
  down_rout-Watched env retrieve_cnf cause m = w
  down_rout-Watched env retrieve_rej cause m = w
  down_rout-Watched env modify_req cause m = to mo_term_modify (some t323) t.guard_running refl refl
  down_rout-Watched env modify_rsp cause m =
      to active t.timer false (ground (arith, w.timed, m)) (ground arith)
  down_rout-Watched env modify_rej cause m =
      to active t.timer false (ground (arith, w.timed, m)) (ground arith)
  down_rout-Watched env userinfo_req cause m = w
  down_rout-Watched env disc_req cause m = to disconnect_ind (some t306) t.guard_running refl refl

-- The timer that has run out is no longer there, so only the count is known to be right.
module _ (base : ℕ) (t : Trans) (f : t.freed ≡ false) (a : t.has_msc_a ≡ true)
    (c : Counted base t) where
  timeout_release-Watched :
      (x : CcTimer) (mo : Cause) (l4 : CauseValue) → Watched base (timeout_release t x mo l4)
  unfolding timeout_release mncc_release_ind mncc_recvmsg
  timeout_release-Watched x mo l4 =
      if_elim
        (λ (u : Trans). Watched base (gsm48_cc_tx_release u (some (record mo { diag = some x }))))
        (t.callref == 0) (λ e. gsm48_cc_tx_release-Watched base _ _ f a c)
        (λ e. gsm48_cc_tx_release-Watched base _ _ f a c)

  timeout_disconnect-Watched :
      (x : CcTimer) (l4 : CauseValue) → Watched base (timeout_disconnect t x l4)
  unfolding timeout_disconnect mncc_recvmsg gsm48_cc_tx_disconnect gsm48_start_cc_timer new_cc_state
      is_active trans_tx_gsm48
  timeout_disconnect-Watched x l4 =
      let k : Watches base disconnect_ind (some t306) t.guard_running t.freed t.has_msc_a
          (count_statistics t.state disconnect_ind t.stats).active_calls =
        moved-Watches base t disconnect_ind (some t306) t.guard_running f a refl refl c in
      if_elim
        (λ (u : Trans). Watched base (
          gsm48_cc_tx_disconnect u
            (some (record (cause_of loc_user recovery_timer) { diag = some x }))))
        (t.callref == 0) (λ e. k) (λ e. k)

  pub gsm48_cc_timeout-Watched : (x : CcTimer) → Watched base (gsm48_cc_timeout t x)
  unfolding gsm48_cc_timeout
  gsm48_cc_timeout-Watched t303 = timeout_release-Watched t303 _ _
  gsm48_cc_timeout-Watched t310 = timeout_disconnect-Watched t310 _
  gsm48_cc_timeout-Watched t313 = timeout_disconnect-Watched t313 _
  gsm48_cc_timeout-Watched t301 = timeout_disconnect-Watched t301 _
  gsm48_cc_timeout-Watched t308 =
      if_elim (Watched base) t.t308_second (λ e. trans_free-Watched base t f c)
        (λ e. gsm48_cc_tx_release-Watched base t t.stored_cause f a c)
  gsm48_cc_timeout-Watched t306 = timeout_release-Watched t306 _ _
  gsm48_cc_timeout-Watched t323 = timeout_disconnect-Watched t323 _

module _ (base : ℕ) (t : Trans) (f : t.freed ≡ false) (w : Watched base t) where
  pub gsm48_start_guard_timer-Watched : Watched base (gsm48_start_guard_timer t)
  unfolding gsm48_start_guard_timer
  gsm48_start_guard_timer-Watched = record {
    timed = w.timed;
    connected = w.connected;
    watched = ground arith;
    over = λ d. absurd (ground (arith, d, f));
    counted = w.counted;
  }

  pub cc_paging_cb-Watched :
      (env : Env) (success : Bool) → Watched base (cc_paging_cb env success t)
  unfolding cc_paging_cb gsm48_cc_tx_setup mncc_release_ind mncc_recvmsg drop
  cc_paging_cb-Watched env success =
      if_elim (Watched base) t.has_msc_a (λ e. w)
        (λ e.
          if_elim (Watched base) success
            (λ s.
              setup_composed-Watched base (record t { has_msc_a = true }) f refl
                (record {
                  timed = w.timed;
                  connected = ground arith;
                  watched = w.watched;
                  over = w.over;
                  counted = w.counted;
                })
                env.setup)
            (λ s. trans_free-Watched base _ f w.counted))

  setup_port_known-Watched : (env : Env) → Watched base (setup_port_known env t)
  unfolding setup_port_known mncc_recvmsg drop
  setup_port_known-Watched env =
      if_elim (Watched base) (not t.has_msc_a) (λ e. trans_free-Watched base _ f w.counted)
        (λ e.
          if_elim (Watched base) (env.rtp_ok && env.sdp_fits) (λ s. w)
            (λ s. trans_free-Watched base _ f w.counted))

  mt_port_known-Watched : (env : Env) → Watched base (mt_port_known env t)
  unfolding mt_port_known drop mncc_recvmsg
  mt_port_known-Watched env =
      if_elim (Watched base) (not t.has_msc_a) (λ e. trans_free-Watched base _ f w.counted)
        (λ e.
          if_elim (Watched base) (not env.rtp_ok) (λ r. trans_free-Watched base t f w.counted)
            (λ r. if_elim (Watched base) env.codec_assigned (λ s. w) (λ s. w)))

  pub port_known_in-Watched : (env : Env) (s : State) → Watched base (port_known_in env s t)
  unfolding port_known_in
  port_known_in-Watched env initiated =
      if_elim (Watched base) t.setup_stored (λ e. setup_port_known-Watched env) (λ e. w)
  port_known_in-Watched env mo_term_call_conf = mt_port_known-Watched env
  port_known_in-Watched env s = w

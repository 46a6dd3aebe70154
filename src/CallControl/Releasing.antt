-- ===== src/CallControl/Releasing.antt =====
-- libmsc/gsm_04_08_cc.c: the requests of MNCC, the timers and the paging tell MNCC of the end once.
use osmo_msc.Base.{
  ◌≡◌, Bool, true, false, ◌&&◌, not, Option, none, some, ◌==◌, if◌then◌else◌, if_elim, arith,
}
use osmo_msc.CallControl.Types.{
  State, initiated, mo_term_call_conf, CcTimer, t301, t303, t306, t308, t310, t313, t323, loc_user,
  loc_prn_s_lu, CauseValue, recovery_timer, dest_ooo, norm_call_clear, Cause, Ind, setup_ind,
  disc_ind, rel_ind, rel_cnf, Req, call_proc_req, alert_req, setup_rsp, progress_req, setup_req,
  setup_compl_req, notify_req, facility_req, start_dtmf_rsp, start_dtmf_rej, stop_dtmf_rsp,
  hold_cnf, hold_rej, retrieve_cnf, retrieve_rej, modify_req, modify_rsp, modify_rej, userinfo_req,
  rej_req, disc_req, rel_req, Env, Trans,
}
use osmo_msc.CallControl.Release.{
  is_active, new_cc_state, gsm48_stop_cc_timer, gsm48_start_cc_timer, trans_tx_gsm48, mncc_recvmsg,
  cause_of, mncc_release_ind, gsm48_cc_tx_disconnect, trans_free, timeout_release,
  timeout_disconnect, gsm48_cc_timeout,
}
use osmo_msc.CallControl.FromMncc.{
  gsm48_cc_tx_setup, gsm48_cc_tx_alerting, gsm48_cc_tx_connect, gsm48_cc_tx_connect_ack,
  gsm48_cc_tx_modify, gsm48_cc_tx_modify_complete, gsm48_cc_tx_modify_reject, down_rout, is_rel_req,
  cc_paging_cb, setup_port_known, mt_port_known, port_known_in,
}
use osmo_msc.CallControl.Told.{
  closings, closed, Told, continues, ending, gsm48_cc_tx_release-Told, mncc_release_ind-closings,
  trans_free-Told, drop-Told,
}
use osmo_msc.CallControl.Telling.{going, setup_composed-Told, tx_release_compl-Told, call_proc-Told}

module _ (t : Trans) (f : t.freed ≡ false) (h : closings t.log ≡ closed t.callref) where
  pub told : Told t
  told = going t f h t.mncc_initiated

  pub down_rout-Told :
      (env : Env) (m : Req) (cause : Option Cause)
      → (t.callref == 0) ≡ false
      → Told (down_rout env m t cause)
  unfolding down_rout trans_tx_gsm48 new_cc_state gsm48_stop_cc_timer gsm48_start_cc_timer is_active
      gsm48_cc_tx_setup gsm48_cc_tx_alerting gsm48_cc_tx_connect gsm48_cc_tx_connect_ack
      gsm48_cc_tx_modify gsm48_cc_tx_modify_complete gsm48_cc_tx_modify_reject
      gsm48_cc_tx_disconnect
  down_rout-Told env call_proc_req cause c = call_proc-Told t f h env
  down_rout-Told env setup_req cause c = setup_composed-Told t f h env.setup
  down_rout-Told env rej_req cause c = tx_release_compl-Told t f h c cause
  down_rout-Told env rel_req cause c = gsm48_cc_tx_release-Told t cause told
  down_rout-Told env alert_req cause c = told
  down_rout-Told env setup_rsp cause c = told
  down_rout-Told env progress_req cause c = told
  down_rout-Told env setup_compl_req cause c = told
  down_rout-Told env notify_req cause c = told
  down_rout-Told env facility_req cause c = told
  down_rout-Told env start_dtmf_rsp cause c = told
  down_rout-Told env start_dtmf_rej cause c = told
  down_rout-Told env stop_dtmf_rsp cause c = told
  down_rout-Told env hold_cnf cause c = told
  down_rout-Told env hold_rej cause c = told
  down_rout-Told env retrieve_cnf cause c = told
  down_rout-Told env retrieve_rej cause c = told
  down_rout-Told env modify_req cause c = told
  down_rout-Told env modify_rsp cause c = told
  down_rout-Told env modify_rej cause c = told
  down_rout-Told env userinfo_req cause c = told
  down_rout-Told env disc_req cause c = told

  pub paging_closings :
      (m : Req)
      → closings
          (mncc_recvmsg t
            (if is_rel_req m then rel_cnf else rel_ind)
            (some (cause_of loc_prn_s_lu norm_call_clear))).log
        ≡ 1
  unfolding mncc_recvmsg
  paging_closings m =
      if_elim
        (λ (i : Ind).
          closings (mncc_recvmsg t i (some (cause_of loc_prn_s_lu norm_call_clear))).log ≡ 1)
        (is_rel_req m) (λ e. ending t.callref (closings t.log) h)
        (λ e. ending t.callref (closings t.log) h)

  pub cc_paging_cb-Told : (env : Env) (success : Bool) → Told (cc_paging_cb env success t)
  unfolding cc_paging_cb gsm48_cc_tx_setup mncc_release_ind mncc_recvmsg
  cc_paging_cb-Told env success =
      if_elim Told t.has_msc_a (λ e. told)
        (λ e.
          if_elim Told success
            (λ s. setup_composed-Told (record t { has_msc_a = true }) f h env.setup)
            (λ s.
              drop-Told (mncc_release_ind t loc_prn_s_lu dest_ooo) f
                (mncc_release_ind-closings t loc_prn_s_lu dest_ooo h)))

  setup_port_known-Told : (env : Env) → t.has_msc_a ≡ true → Told (setup_port_known env t)
  unfolding setup_port_known mncc_recvmsg
  setup_port_known-Told env a =
      if_elim Told (not t.has_msc_a) (λ e. absurd (ground (arith, a, e)))
        (λ e.
          let t' : Trans = record t { setup_stored = false; stored_cause = none } in
          if_elim Told (env.rtp_ok && env.sdp_fits) {x = mncc_recvmsg t' setup_ind none}
            {y = trans_free t'} (λ s. going t f h true) (λ s. trans_free-Told t' f h))

  mt_port_known-Told : (env : Env) → t.has_msc_a ≡ true → Told (mt_port_known env t)
  unfolding mt_port_known mncc_recvmsg
  mt_port_known-Told env a =
      if_elim Told (not t.has_msc_a) (λ e. absurd (ground (arith, a, e)))
        (λ e.
          if_elim Told (not env.rtp_ok) (λ r. trans_free-Told t f h)
            (λ r. if_elim Told env.codec_assigned (λ s. going t f h true) (λ s. told)))

  pub port_known_in-Told :
      (env : Env) (s : State) → t.has_msc_a ≡ true → Told (port_known_in env s t)
  unfolding port_known_in
  port_known_in-Told env initiated a =
      if_elim Told t.setup_stored (λ e. setup_port_known-Told env a) (λ e. told)
  port_known_in-Told env mo_term_call_conf a = mt_port_known-Told env a
  port_known_in-Told env s a = told

  timeout_release-Told :
      (x : CcTimer) (mo : Cause) (l4 : CauseValue) → Told (timeout_release t x mo l4)
  unfolding timeout_release mncc_release_ind mncc_recvmsg
  timeout_release-Told x mo l4 =
      let w : Trans = record (mncc_release_ind t loc_prn_s_lu l4) { callref = 0 } in
      gsm48_cc_tx_release-Told _ _ (
        if_elim Told (t.callref == 0) {x = t} {y = w} (λ e. told)
          (λ e.
            continues t.freed true 0 (closings w.log) f
              (mncc_release_ind-closings t loc_prn_s_lu l4 h)))

  timeout_disconnect-Told : (x : CcTimer) (l4 : CauseValue) → Told (timeout_disconnect t x l4)
  unfolding timeout_disconnect mncc_recvmsg gsm48_cc_tx_disconnect gsm48_start_cc_timer new_cc_state
      is_active trans_tx_gsm48
  timeout_disconnect-Told x l4 =
      if_elim
        (λ (w : Trans). Told (
          gsm48_cc_tx_disconnect w
            (some (record (cause_of loc_user recovery_timer) { diag = some x }))))
        (t.callref == 0) {x = t} {y = mncc_recvmsg t disc_ind (some (cause_of loc_prn_s_lu l4))}
        (λ e. told) (λ e. going t f h true)

  pub gsm48_cc_timeout-Told : (x : CcTimer) → Told (gsm48_cc_timeout t x)
  unfolding gsm48_cc_timeout
  gsm48_cc_timeout-Told t303 = timeout_release-Told t303 _ _
  gsm48_cc_timeout-Told t310 = timeout_disconnect-Told t310 _
  gsm48_cc_timeout-Told t313 = timeout_disconnect-Told t313 _
  gsm48_cc_timeout-Told t301 = timeout_disconnect-Told t301 _
  gsm48_cc_timeout-Told t308 =
      if_elim Told t.t308_second (λ e. trans_free-Told t f h)
        (λ e. gsm48_cc_tx_release-Told t t.stored_cause told)
  gsm48_cc_timeout-Told t306 = timeout_release-Told t306 _ _
  gsm48_cc_timeout-Told t323 = timeout_disconnect-Told t323 _

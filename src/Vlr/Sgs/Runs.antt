-- ===== src/Vlr/Sgs/Runs.antt =====
-- libvlr/vlr_sgs.c: any operations on the subscribers of a VLR, from an empty one on.
use osmo_msc.Base.{
  ℕ, Bool, true, ◌&&◌, ◌||◌, ◌≡◌, arith, Option, none, some, ◌==◌, if_elim, if◌then◌else◌,
}
use osmo_msc.Fsm.{OsmoFsm}
use osmo_msc.Vlr.Reject.{GmmCause, gmm_cause_to_reject_cause_domain}
use osmo_msc.Vlr.Sgs.Types.{
  State, SgsCause, ServInd, Event, vlr_failure, rx_detach_ind_from_ue, rx_lu_from_a_iu_gs,
  rx_alert_failure, rx_sgsap_ue_unreachable, rx_tmsi_realloc, rx_service_req, rx_paging_failure,
  Lai, to_lu_fsm, Written, tx_purge_ms, cancel_attach_fsm, sgs_assoc_forget, Env, Vsub,
}
use osmo_msc.Vlr.Sgs.Ts5.{
  call, is_null, is_lu_pending, vlr_sgs_pag_stop, ts5_timeout_cb, sgs_iface_paging_cb,
}
use osmo_msc.Vlr.Sgs.Association.{
  vlr_sgs_lu_release, vlr_subscr_keep_incomplete_expiry, dispatch, sgs_ue_fsm_timer_cb,
}
use osmo_msc.Vlr.Sgs.Same.{core, sgs_iface_paging_cb-Same}
use osmo_msc.Vlr.Sgs.Invariant.{is_settled, Inv, Same-Inv, sgs_iface_paging_cb-Balanced}
use osmo_msc.Vlr.Sgs.Handlers.{vlr_sgs_lu_release-Inv, call-Inv, respond_rejected-Inv}
use osmo_msc.Vlr.Sgs.Events.{incomplete_expiry-Inv, dispatch-Inv}
use osmo_msc.Vlr.Sgs.Operations.{
  stopped-Inv, ts5_timeout_cb-Inv, sgs_ue_fsm_timer_cb-Inv, vlr_subscr_expire-Inv,
  vlr_sgs_loc_update-Inv, enable_expire_lu-Inv, respond_accepted-Inv,
}
use osmo_msc.Vlr.Sgs.{
  ImsiDetachType, EpsDetachType, is_implicit, imsi_detach_event, eps_detach_event, enable_expire_lu,
  vlr_sgs_loc_update, handle_lu_res, handle_lu_err, vlr_sgs_imsi_detach, vlr_sgs_eps_detach,
  vlr_sgs_tmsi_reall_compl, vlr_sgs_pag_rej, vlr_sgs_ue_unr, vlr_sgs_rx_service_req,
  vlr_sgs_paging_resp_from_a_iu, vlr_subscr_detach, vlr_subscr_discard_incomplete, write,
  lu_compl_success,
}

-- What can happen to a subscriber: the calls of the MSC, the HLR and the MME, the two timers, a page
-- that starts in the MSC, and what the other machines write to it.
pub data Input : Type 0 where
  loc_update : ℕ → Lai → Option ℕ → Input
  lu_res service_req tmsi_reall_compl pag_ack ue_unr detach : Input
  lu_err : GmmCause → Input
  imsi_detach : ImsiDetachType → Input
  eps_detach : EpsDetachType → Input
  pag_rej : SgsCause → Input
  paging_resp_from_a_iu : Option Lai → Input
  lu_from_a_iu failure_of_vlr alert_failure : Input
  discard_incomplete : Bool → Input
  page : ServInd → Input
  ts5_expires ts6_2_expires : Input
  written : Written → Input
  lu_complete : Input

abbrev pub step : OsmoFsm State Event → Env → Input → Vsub → Vsub
step fsm env (loc_update n lai plmn) v = vlr_sgs_loc_update fsm env v n lai plmn
step fsm env lu_res v = handle_lu_res fsm env v
step fsm env service_req v = vlr_sgs_rx_service_req fsm env v
step fsm env tmsi_reall_compl v = vlr_sgs_tmsi_reall_compl fsm env v
step fsm env pag_ack v = vlr_sgs_pag_stop v
step fsm env ue_unr v = vlr_sgs_ue_unr fsm env v
step fsm env detach v = vlr_subscr_detach fsm env v
step fsm env (lu_err cause) v = handle_lu_err fsm env v cause
step fsm env (imsi_detach t) v = vlr_sgs_imsi_detach fsm env v t
step fsm env (eps_detach t) v = vlr_sgs_eps_detach fsm env v t
step fsm env (pag_rej cause) v = vlr_sgs_pag_rej fsm env v cause
step fsm env (paging_resp_from_a_iu lai) v = vlr_sgs_paging_resp_from_a_iu fsm env v lai
step fsm env lu_from_a_iu v = dispatch fsm env v rx_lu_from_a_iu_gs
step fsm env failure_of_vlr v = dispatch fsm env v vlr_failure
step fsm env alert_failure v = dispatch fsm env v rx_alert_failure
step fsm env (discard_incomplete held) v = vlr_subscr_discard_incomplete fsm env v held
step fsm env (page serv_ind) v =
    sgs_iface_paging_cb fsm env (record v { is_paging = true }) serv_ind
step fsm env ts5_expires v = if v.ts5_pending then ts5_timeout_cb v else v
step fsm env ts6_2_expires v = if v.ts6_2_running then sgs_ue_fsm_timer_cb fsm env v else v
step fsm env (written o) v = write o v
step fsm env lu_complete v = lu_compl_success v

module _ (rest : ℕ) (env : Env) where
  contacted : (s : State) (t c d : Bool) → is_settled s t c ≡ true → is_settled s t (c || d) ≡ true
  contacted s t c d h = ground (arith, h)

  write-Inv : (o : Written) (v : Vsub) → Inv rest v → Inv rest (write o v)
  unfolding write
  write-Inv o v i = record {
    balanced = i.balanced;
    settled = contacted v.state v.ts6_2_running v.conf_by_radio_contact_ind o.contact i.settled;
  }

  lu_compl_success-Inv : (v : Vsub) → Inv rest v → Inv rest (lu_compl_success v)
  unfolding lu_compl_success
  lu_compl_success-Inv v i =
      if_elim (Inv rest) v.lu_complete (λ e. i)
        (λ e. record {
          balanced = record {
            sound = i.balanced.sound;
            paging = i.balanced.paging;
            attached = ground (arith, i.balanced.attached, e);
            counted = i.balanced.counted;
          };
          settled = i.settled;
        })

  answered-Inv :
      (c : Option GmmCause) (v : Vsub)
      → Inv rest v
      → Inv rest (if env.has_lu_fsm then call (to_lu_fsm c) v else v)
  answered-Inv c v i =
      if_elim (Inv rest) env.has_lu_fsm (λ e. call-Inv rest env (to_lu_fsm c) v i) (λ e. i)

  keep_incomplete-Inv :
      (v : Vsub) → Inv rest v → Inv rest (vlr_subscr_keep_incomplete_expiry core env v)
  unfolding vlr_subscr_keep_incomplete_expiry
  keep_incomplete-Inv v i =
      if_elim (Inv rest) v.lu_complete (λ e. i) (λ e. incomplete_expiry-Inv rest env env.now v i)

  detach-Inv : (v : Vsub) → Inv rest v → Inv rest (vlr_subscr_detach core env v)
  unfolding vlr_subscr_detach
  detach-Inv v i =
      let w : Vsub = vlr_sgs_lu_release (call cancel_attach_fsm v) in
      let j : Inv rest w =
        vlr_sgs_lu_release-Inv rest env _ (call-Inv rest env cancel_attach_fsm v i) in
      keep_incomplete-Inv _ (
        vlr_subscr_expire-Inv rest env _ (
          dispatch-Inv rest env _ rx_detach_ind_from_ue (
            if_elim (Inv rest) w.imsi_detached_flag (λ e. j)
              (λ e. call-Inv rest env tx_purge_ms w j))))

  discard-Inv :
      (v : Vsub) (held : Bool)
      → Inv rest v
      → Inv rest (vlr_subscr_discard_incomplete core env v held)
  unfolding vlr_subscr_discard_incomplete
  discard-Inv v held i =
      let j : Inv rest (vlr_sgs_pag_stop (vlr_sgs_lu_release (call cancel_attach_fsm v))) =
        stopped-Inv rest _
          (vlr_sgs_lu_release-Inv rest env _ (call-Inv rest env cancel_attach_fsm v i)) in
      if_elim (Inv rest) held (λ e. keep_incomplete-Inv _ j) (λ e. j)

  eps_detach-Inv :
      (v : Vsub) (t : EpsDetachType) → Inv rest v → Inv rest (vlr_sgs_eps_detach core env v t)
  unfolding vlr_sgs_eps_detach
  eps_detach-Inv v t i =
      let w : Vsub = dispatch core env v (eps_detach_event t) in
      let j : Inv rest w = dispatch-Inv rest env v (eps_detach_event t) i in
      let u : Vsub = if w.expire_lu == 0 then enable_expire_lu env.now env.t3212_secs w else w in
      let k : Inv rest u =
        if_elim (Inv rest) (w.expire_lu == 0)
          (λ e. enable_expire_lu-Inv rest env env.now env.t3212_secs w j) (λ e. j) in
      if_elim (Inv rest) env.has_assoc_ops (λ e. call-Inv rest env sgs_assoc_forget u k) (λ e. k)

  a_iu-Inv :
      (v : Vsub) (lai : Option Lai)
      → Inv rest v
      → Inv rest (vlr_sgs_paging_resp_from_a_iu core env v lai)
  unfolding vlr_sgs_paging_resp_from_a_iu
  a_iu-Inv v none i = i
  a_iu-Inv v (some lai) i =
      if_elim (Inv rest) _ (λ e. i) (λ e. dispatch-Inv rest env v rx_lu_from_a_iu_gs i)

  page-Inv : (v : Vsub) (s : ServInd) → Inv rest v → Inv rest (step core env (page s) v)
  page-Inv v s i =
      Same-Inv rest (sgs_iface_paging_cb-Same env (record v { is_paging = true }) s)
        (sgs_iface_paging_cb-Balanced rest env (record v { is_paging = true }) s i.balanced)
        i.settled

  pub step-Inv : (x : Input) (v : Vsub) → Inv rest v → Inv rest (step core env x v)
  unfolding handle_lu_res handle_lu_err vlr_sgs_rx_service_req vlr_sgs_tmsi_reall_compl
      vlr_sgs_ue_unr vlr_sgs_imsi_detach vlr_sgs_pag_rej
  step-Inv (loc_update n lai plmn) v i = vlr_sgs_loc_update-Inv rest env v n lai plmn i
  step-Inv lu_res v i =
      if_elim (Inv rest) (is_lu_pending v.state) (λ e. respond_accepted-Inv rest env v i)
        (λ e. answered-Inv none v i)
  step-Inv service_req v i = dispatch-Inv rest env v rx_service_req i
  step-Inv tmsi_reall_compl v i = dispatch-Inv rest env v rx_tmsi_realloc i
  step-Inv pag_ack v i = stopped-Inv rest v i
  step-Inv ue_unr v i = stopped-Inv rest _ (dispatch-Inv rest env v rx_sgsap_ue_unreachable i)
  step-Inv detach v i = detach-Inv v i
  step-Inv (lu_err cause) v i =
      if_elim (Inv rest) (is_lu_pending v.state)
        (λ e. respond_rejected-Inv rest env v (gmm_cause_to_reject_cause_domain cause true) i)
        (λ e. answered-Inv (some cause) v i)
  step-Inv (imsi_detach t) v i =
      if_elim (Inv rest) (is_null v.state && is_implicit t) (λ e. i)
        (λ e. vlr_subscr_expire-Inv rest env _ (dispatch-Inv rest env v (imsi_detach_event t) i))
  step-Inv (eps_detach t) v i = eps_detach-Inv v t i
  step-Inv (pag_rej c) v i = stopped-Inv rest _ (dispatch-Inv rest env v (rx_paging_failure c) i)
  step-Inv (paging_resp_from_a_iu lai) v i = a_iu-Inv v lai i
  step-Inv lu_from_a_iu v i = dispatch-Inv rest env v rx_lu_from_a_iu_gs i
  step-Inv failure_of_vlr v i = dispatch-Inv rest env v vlr_failure i
  step-Inv alert_failure v i = dispatch-Inv rest env v rx_alert_failure i
  step-Inv (discard_incomplete held) v i = discard-Inv v held i
  step-Inv (page s) v i = page-Inv v s i
  step-Inv ts5_expires v i =
      if_elim (Inv rest) v.ts5_pending (λ e. ts5_timeout_cb-Inv rest v e i) (λ e. i)
  step-Inv ts6_2_expires v i =
      if_elim (Inv rest) v.ts6_2_running (λ e. sgs_ue_fsm_timer_cb-Inv rest env v i) (λ e. i)
  step-Inv (written o) v i = write-Inv o v i
  step-Inv lu_complete v i = lu_compl_success-Inv v i

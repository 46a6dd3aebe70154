-- ===== src/Vlr/Sgs/Interrupted.antt =====
-- libvlr/vlr_sgs.c and vlr_sgs_fsm.c: what becomes of a location update over SGs that something
-- interrupts.
use osmo_msc.Base.{
  ℕ, ◌+◌, ◌≡◌, refl, ◌∙◌, Bool, true, false, ◌==◌, Option, none, some, if_elim, if◌then◌else◌,
  arith,
}
use osmo_msc.Fsm.{OsmoFsm, masked, for_every_core}
use osmo_msc.Vlr.Reject.{GmmCause, gmm_cause_to_reject_cause_domain}
use osmo_msc.Vlr.Sgs.Types.{
  State, to_lu_fsm, sgs_null, la_upd_pres, associated, other_cause, Event, rx_alert_failure,
  rx_paging_failure, Env, Vsub, in_event_mask, out_state_mask, allstate_event_mask,
}
use osmo_msc.Vlr.Sgs.Ts5.{call, is_lu_pending, vlr_sgs_pag_stop, tell_paging_timeout}
use osmo_msc.Vlr.Sgs.Association.{
  state_chg, to_null, respond_rejected, on_paging_failure, sgs_ue_fsm_lau_present,
  incomplete_expiry, vlr_subscr_keep_incomplete_expiry, on_detach, sgs_ue_fsm_allstate, action,
  dispatch,
}
use osmo_msc.Vlr.Sgs.Same.{core, Same, Same-trans, vlr_sgs_pag_stop-Same, tell_paging_timeout-Same}
use osmo_msc.Vlr.Sgs.Runs.{
  Input, lu_res, lu_err, eps_detach, pag_rej, lu_from_a_iu, failure_of_vlr, alert_failure, step,
}
use osmo_msc.Vlr.Sgs.{
  EpsDetachType, network_initiated, ue_initiated, eps_not_allowed, invalid_eps, eps_detach_event,
  enable_expire_lu, respond_accepted, handle_lu_res, handle_lu_err, vlr_sgs_eps_detach,
  vlr_sgs_pag_rej,
}

module _ (env : Env) where
  to_null-keeps :
      (v : Vsub)
      → ((to_null core env v).state ≡ sgs_null) × ((to_null core env v).use_sgs_lu ≡ v.use_sgs_lu)
  unfolding to_null state_chg masked out_state_mask
  to_null-keeps v =
      let v' : Vsub = record v {
        state = sgs_null;
        ts6_2_running = false;
        conf_by_radio_contact_ind = false;
        tmsi_new = none;
        last_eutran_plmn = none;
      } in
      let r : Same v' (vlr_sgs_pag_stop (tell_paging_timeout v')) =
        Same-trans (tell_paging_timeout-Same v') (vlr_sgs_pag_stop-Same (tell_paging_timeout v')) in
      (r.state, r.lu_uses)

  -- An update is abandoned: SGs-NULL, with the use of the update still held.
  abbrev Abandoned : ℕ → Vsub → Type 0
  Abandoned u v = (v.state ≡ sgs_null) × (v.use_sgs_lu ≡ u)

  incomplete-Abandoned :
      (o : Option ℕ) (v : Vsub)
      → Abandoned v.use_sgs_lu (to_null core env (incomplete_expiry core env o v))
  unfolding incomplete_expiry
  incomplete-Abandoned none v = to_null-keeps v
  incomplete-Abandoned (some now) v = to_null-keeps (record v { expire_lu = now + 600 })

  on_detach-Abandoned : (v : Vsub) → Abandoned v.use_sgs_lu (on_detach core env v)
  unfolding on_detach vlr_subscr_keep_incomplete_expiry
  on_detach-Abandoned v =
      if_elim (λ (w : Vsub). Abandoned v.use_sgs_lu (to_null core env w)) v.lu_complete
        (λ e. to_null-keeps (record v { imsi_detached_flag = true; expire_lu = 0 }))
        (λ e.
          if_elim (λ (w : Vsub). Abandoned v.use_sgs_lu (to_null core env w)) v.lu_complete
            (λ f. to_null-keeps (record v { imsi_detached_flag = true }))
            (λ f. incomplete-Abandoned env.now (record v { imsi_detached_flag = true })))

  failed-Abandoned :
      (s : State) (v : Vsub) (c : ℕ)
      → s ≡ la_upd_pres
      → Abandoned v.use_sgs_lu (
          if allstate_event_mask s (rx_paging_failure (other_cause c))
          then sgs_ue_fsm_allstate core env v (rx_paging_failure (other_cause c))
          else if in_event_mask s (rx_paging_failure (other_cause c))
          then action core env s v (rx_paging_failure (other_cause c))
          else v)
  unfolding allstate_event_mask in_event_mask action sgs_ue_fsm_lau_present on_paging_failure
  failed-Abandoned sgs_null v c h = absurd (ground (arith, h))
  failed-Abandoned la_upd_pres v c h = to_null-keeps v
  failed-Abandoned associated v c h = absurd (ground (arith, h))

  alert-Abandoned :
      (s : State) (v : Vsub)
      → s ≡ la_upd_pres
      → Abandoned v.use_sgs_lu (
          if allstate_event_mask s rx_alert_failure
          then sgs_ue_fsm_allstate core env v rx_alert_failure
          else if in_event_mask s rx_alert_failure
          then action core env s v rx_alert_failure
          else v)
  unfolding allstate_event_mask in_event_mask action sgs_ue_fsm_lau_present
  alert-Abandoned sgs_null v h = absurd (ground (arith, h))
  alert-Abandoned la_upd_pres v h = to_null-keeps v
  alert-Abandoned associated v h = absurd (ground (arith, h))

  eps_event-Abandoned :
      (t : EpsDetachType) (v : Vsub)
      → Abandoned v.use_sgs_lu (dispatch core env v (eps_detach_event t))
  unfolding dispatch masked eps_detach_event sgs_ue_fsm_allstate allstate_event_mask
  eps_event-Abandoned ue_initiated v = on_detach-Abandoned v
  eps_event-Abandoned network_initiated v = on_detach-Abandoned v
  eps_event-Abandoned eps_not_allowed v = on_detach-Abandoned v
  eps_event-Abandoned invalid_eps v = on_detach-Abandoned v

  expire-Abandoned :
      (o : Option ℕ) (secs u : ℕ) (v : Vsub)
      → Abandoned u v
      → Abandoned u (enable_expire_lu o secs v)
  unfolding enable_expire_lu
  expire-Abandoned none secs u v a = a
  expire-Abandoned (some now) secs u v a = a

  eps_detach-Abandoned :
      (v : Vsub) (t : EpsDetachType) → Abandoned v.use_sgs_lu (vlr_sgs_eps_detach core env v t)
  unfolding vlr_sgs_eps_detach call
  eps_detach-Abandoned v t =
      let w : Vsub = dispatch core env v (eps_detach_event t) in
      let a : Abandoned v.use_sgs_lu w = eps_event-Abandoned t v in
      let b : Abandoned v.use_sgs_lu
          (if w.expire_lu == 0 then enable_expire_lu env.now env.t3212_secs w else w) =
        if_elim (Abandoned v.use_sgs_lu) (w.expire_lu == 0)
          (λ e. expire-Abandoned env.now env.t3212_secs v.use_sgs_lu w a) (λ e. a) in
      if_elim (Abandoned v.use_sgs_lu) env.has_assoc_ops (λ e. b) (λ e. b)

-- What ends an update that waits for the HLR, but for an IMSI detach or a subscriber's removal.
abbrev pub interrupts : Input → Bool
interrupts (pag_rej (other_cause c)) = true
interrupts alert_failure = true
interrupts lu_from_a_iu = true
interrupts failure_of_vlr = true
interrupts (eps_detach t) = true
interrupts _ = false

step-Abandoned :
    (env : Env) (x : Input) (v : Vsub)
    → v.state ≡ la_upd_pres
    → interrupts x ≡ true
    → Abandoned env v.use_sgs_lu (step core env x v)
unfolding vlr_sgs_pag_rej dispatch masked sgs_ue_fsm_allstate allstate_event_mask
step-Abandoned env (pag_rej (other_cause c)) v q h =
    let w : Vsub = dispatch core env v (rx_paging_failure (other_cause c)) in
    let a : Abandoned env v.use_sgs_lu w = failed-Abandoned env v.state v c q in
    let r : Same w (vlr_sgs_pag_stop w) = vlr_sgs_pag_stop-Same w in
    (r.state ∙ a.0, r.lu_uses ∙ a.1)
step-Abandoned env alert_failure v q h = alert-Abandoned env v.state v q
step-Abandoned env lu_from_a_iu v q h = to_null-keeps env v
step-Abandoned env failure_of_vlr v q h = to_null-keeps env v
step-Abandoned env (eps_detach t) v q h = eps_detach-Abandoned env v t
step-Abandoned env x v q h = absurd (ground (arith, h))

-- What is left for an update over A or Iu.
abbrev pub passed_on : Env → Option GmmCause → Vsub → Vsub
passed_on env c v = if env.has_lu_fsm then call (to_lu_fsm c) v else v

unanswered :
    (env : Env) (cause : GmmCause) (s : State) (v : Vsub)
    → s ≡ sgs_null
    → ((if is_lu_pending s then respond_accepted core env v else passed_on env none v)
        ≡ passed_on env none v)
      × ((if is_lu_pending s
            then respond_rejected core env v (gmm_cause_to_reject_cause_domain cause true)
            else passed_on env (some cause) v)
          ≡ passed_on env (some cause) v)
unfolding is_lu_pending
unanswered env cause sgs_null v h = (refl, refl)
unanswered env cause la_upd_pres v h = absurd (ground (arith, h))
unanswered env cause associated v h = absurd (ground (arith, h))

-- The subscriber is in SGs-NULL with the uses that it had, and what the HLR answers only ever goes to
-- an update over A or Iu.
abbrev pub KeepsUse : OsmoFsm State Event → (e e' : Env) → Input → GmmCause → Vsub → Type 0
KeepsUse fsm e e' x cause v =
    let w = step fsm e x v in
    (w.state ≡ sgs_null)
    × (w.use_sgs_lu ≡ v.use_sgs_lu)
    × (step fsm e' lu_res w ≡ passed_on e' none w)
    × (step fsm e' (lu_err cause) w ≡ passed_on e' (some cause) w)

KeepsUse-masked :
    (e e' : Env) (x : Input) (cause : GmmCause) (v : Vsub)
    → v.state ≡ la_upd_pres
    → interrupts x ≡ true
    → KeepsUse core e e' x cause v
unfolding handle_lu_res handle_lu_err
KeepsUse-masked e e' x cause v q h =
    let w : Vsub = step core e x v in
    let a : Abandoned e v.use_sgs_lu w = step-Abandoned e x v q h in
    let n : _ = unanswered e' cause w.state w a.0 in (a.0, a.1, n.0, n.1)

-- A location update that waits for the HLR is interrupted: by a rejected page other than for a
-- rejection by the user, an alert failure, a location update over A, Iu or Gs, a failure of the VLR
-- or an EPS detach. Then the association is in SGs-NULL, the use VSUB_USE_SGS_LU that the update took
-- is still held, and neither a result nor an error from the HLR puts it: each is only passed on to an
-- update over A or Iu if one runs, and dropped otherwise.
pub step-KeepsUse :
    (fsm : OsmoFsm State Event) (e e' : Env) (x : Input) (cause : GmmCause) (v : Vsub)
    → v.state ≡ la_upd_pres
    → interrupts x ≡ true
    → KeepsUse fsm e e' x cause v
step-KeepsUse fsm e e' x cause v q h =
    for_every_core (λ c. KeepsUse c e e' x cause v) (KeepsUse-masked e e' x cause v q h) fsm

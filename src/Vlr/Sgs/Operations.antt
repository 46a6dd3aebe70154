-- ===== src/Vlr/Sgs/Operations.antt =====
-- libvlr/vlr_sgs.c: every operation of the VLR on a subscriber keeps the invariant.
use osmo_msc.Base.{
  ℕ, ◌+◌, ◌≡◌, refl, ap, subst, sym, ◌∙◌, Bool, true, false, Option, none, some, ◌==◌, if_elim,
  if◌then◌else◌, ltb, arith,
}
use osmo_msc.Fsm.{masked}
use osmo_msc.Vlr.Sgs.Types.{
  State, sgs_null, la_upd_pres, associated, rx_lu_from_mme, tx_lu_accept, Lai, tx_lu_ack,
  sgs_assoc_persist, Env, Vsub, in_event_mask, allstate_event_mask,
}
use osmo_msc.Vlr.Sgs.Ts5.{
  call, is_lu_pending, vlr_sgs_pag_stop, tell_paging_timeout, ts5_timeout_cb,
}
use osmo_msc.Vlr.Sgs.Association.{
  sgs_ue_fsm_null, sgs_ue_fsm_associated, sgs_ue_fsm_allstate, action, dispatch,
  sgs_ue_fsm_timer_cb,
}
use osmo_msc.Vlr.Sgs.Same.{core, vlr_sgs_pag_stop-Same, tell_paging_timeout-Same, ts5_timeout_cb_eq}
use osmo_msc.Vlr.Sgs.Invariant.{
  count_of, Balanced, is_settled, Inv, vlr_sgs_pag_stop-Balanced, tell_paging_timeout-Balanced,
  Same-Inv,
}
use osmo_msc.Vlr.Sgs.Handlers.{vlr_sgs_lu_release-Inv, call-Inv, perform_lu-Inv}
use osmo_msc.Vlr.Sgs.Events.{dispatch-Inv}
use osmo_msc.Vlr.Sgs.{
  drop_attached, vlr_subscr_expire, enable_expire_lu, loc_update_expiry, x3212_expiry,
  vlr_sgs_loc_update, accepted_expiry, vlr_sgs_loc_update_acc_sent, respond_accepted,
}

unguarded : (s : State) (t c : Bool) → is_settled s t c ≡ true → is_settled s false c ≡ true
unguarded s t c h = ground (arith, h)

module _ (rest : ℕ) where
  pub stopped-Inv : (v : Vsub) → Inv rest v → Inv rest (vlr_sgs_pag_stop v)
  stopped-Inv v i =
      Same-Inv rest (vlr_sgs_pag_stop-Same v) (vlr_sgs_pag_stop-Balanced rest v i.balanced)
        i.settled

  pub ts5_timeout_cb-Inv :
      (v : Vsub) → v.ts5_pending ≡ true → Inv rest v → Inv rest (ts5_timeout_cb v)
  ts5_timeout_cb-Inv v h i = subst (Inv rest) (sym (ts5_timeout_cb_eq v h)) (
      stopped-Inv (tell_paging_timeout v) (
        Same-Inv rest (tell_paging_timeout-Same v) (tell_paging_timeout-Balanced rest v i.balanced)
          i.settled))

  module _ (env : Env) where
    pub sgs_ue_fsm_timer_cb-Inv :
        (v : Vsub) → Inv rest v → Inv rest (sgs_ue_fsm_timer_cb core env v)
    unfolding sgs_ue_fsm_timer_cb
    sgs_ue_fsm_timer_cb-Inv v i = record {
      balanced = i.balanced;
      settled = unguarded v.state v.ts6_2_running v.conf_by_radio_contact_ind i.settled;
    }

    pub vlr_subscr_expire-Inv : (v : Vsub) → Inv rest v → Inv rest (vlr_subscr_expire env v)
    unfolding vlr_subscr_expire drop_attached call
    vlr_subscr_expire-Inv v i =
        if_elim (Inv rest) v.lu_complete
          (λ e.
            let a : v.use_attached ≡ 1 = i.balanced.attached ∙ ap count_of e in
            let j : Inv rest (drop_attached v) = record {
              balanced = record {
                sound = ground (arith, a, i.balanced.sound);
                paging = i.balanced.paging;
                attached = ground (arith, a);
                counted = i.balanced.counted;
              };
              settled = i.settled;
            } in
            if_elim (λ (w : Vsub). Inv rest (drop_attached w)) env.has_assoc_ops (λ o. j) (λ o. j))
          (λ e. i)

    loc_update_expiry-Inv :
        (o : Option ℕ) (secs : ℕ) (v : Vsub) → Inv rest v → Inv rest (loc_update_expiry o secs v)
    unfolding loc_update_expiry
    loc_update_expiry-Inv none secs v i = i
    loc_update_expiry-Inv (some now) secs v i =
        if_elim (Inv rest) (ltb 0 secs) (λ e. i)
          (λ e. if_elim (Inv rest) v.lu_complete (λ e. i) (λ e. i))

    lu_from_mme-Inv :
        (s : State) (v : Vsub)
        → v.state ≡ s
        → is_lu_pending s ≡ false
        → Balanced rest v
        → Inv rest (
            if allstate_event_mask s rx_lu_from_mme
            then sgs_ue_fsm_allstate core env v rx_lu_from_mme
            else if in_event_mask s rx_lu_from_mme
            then action core env s v rx_lu_from_mme
            else v)
    unfolding is_lu_pending allstate_event_mask in_event_mask action sgs_ue_fsm_null
        sgs_ue_fsm_associated
    lu_from_mme-Inv sgs_null v q h b = perform_lu-Inv rest env v b
    lu_from_mme-Inv la_upd_pres v q h b = absurd (ground (arith, h))
    lu_from_mme-Inv associated v q h b = perform_lu-Inv rest env v b

    pub vlr_sgs_loc_update-Inv :
        (v : Vsub) (n : ℕ) (lai : Lai) (p : Option ℕ)
        → Inv rest v
        → Inv rest (vlr_sgs_loc_update core env v n lai p)
    unfolding vlr_sgs_loc_update dispatch masked
    vlr_sgs_loc_update-Inv v n lai p i =
        if_elim (Inv rest) (is_lu_pending v.state) (λ e. i)
          (λ e. loc_update_expiry-Inv env.now env.x3212_secs _ (
            lu_from_mme-Inv v.state
              (record v {
                use_sgs_lu = v.use_sgs_lu + 1;
                has_callbacks = true;
                last_eutran_plmn = p;
                mme_name = n;
              })
              refl e i.balanced))

    x3212_expiry-Inv :
        (o : Option ℕ) (secs : ℕ) (v : Vsub) → Inv rest v → Inv rest (x3212_expiry o secs v)
    unfolding x3212_expiry
    x3212_expiry-Inv none secs v i = i
    x3212_expiry-Inv (some now) secs v i = i

    pub enable_expire_lu-Inv :
        (o : Option ℕ) (secs : ℕ) (v : Vsub) → Inv rest v → Inv rest (enable_expire_lu o secs v)
    unfolding enable_expire_lu
    enable_expire_lu-Inv none secs v i = i
    enable_expire_lu-Inv (some now) secs v i = i

    accepted_expiry-Inv : (v : Vsub) → Inv rest v → Inv rest (accepted_expiry core env v)
    unfolding accepted_expiry
    accepted_expiry-Inv v i =
        if_elim (Inv rest) (ltb 0 env.x3212_secs) (λ e. x3212_expiry-Inv env.now env.x3212_secs v i)
          (λ e.
            if_elim (Inv rest) (env.t3212_secs == 0) (λ e. i)
              (λ e. enable_expire_lu-Inv env.now env.t3212_secs v i))

    pub respond_accepted-Inv : (v : Vsub) → Inv rest v → Inv rest (respond_accepted core env v)
    unfolding respond_accepted vlr_sgs_loc_update_acc_sent
    respond_accepted-Inv v i =
        let w : Vsub = if env.mme_found then call (tx_lu_ack v.tmsi_new) v else v in
        let j : Inv rest w =
          if_elim (Inv rest) env.mme_found (λ e. call-Inv rest env (tx_lu_ack v.tmsi_new) v i)
            (λ e. i) in
        let u : Vsub = accepted_expiry core env (dispatch core env w tx_lu_accept) in
        let k : Inv rest u = accepted_expiry-Inv _ (dispatch-Inv rest env w tx_lu_accept j) in
        vlr_sgs_lu_release-Inv rest env _ (
          if_elim (Inv rest) env.has_assoc_ops (λ e. call-Inv rest env sgs_assoc_persist u k)
            (λ e. k))

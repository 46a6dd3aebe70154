-- ===== src/Vlr/Sgs/Events.antt =====
-- libvlr/vlr_sgs_fsm.c: every event of the association keeps the invariant.
use osmo_msc.Base.{
  ℕ, ◌+◌, ◌≡◌, refl, ap, subst, ◌∙◌, true, false, Option, none, some, if_elim, arith,
}
use osmo_msc.Fsm.{masked}
use osmo_msc.Vlr.Sgs.Types.{
  State, sgs_null, la_upd_pres, associated, SgsCause, mt_csfb_rej_user, other_cause, Event,
  vlr_failure, rx_reset_from_mme, rx_detach_ind_from_mme, rx_detach_ind_from_ue, rx_lu_from_a_iu_gs,
  rx_alert_failure, rx_lu_from_mme, tx_lu_reject, tx_lu_accept, tx_paging, rx_sgsap_ue_unreachable,
  rx_tmsi_realloc, rx_service_req, rx_paging_failure, Env, Vsub, in_event_mask, allstate_event_mask,
}
use osmo_msc.Vlr.Sgs.Ts5.{on_tx_paging}
use osmo_msc.Vlr.Sgs.Association.{
  on_tx_lu_reject, sgs_ue_fsm_null, accepted_with, attach, lu_accepted, on_paging_failure,
  sgs_ue_fsm_lau_present, tmsi_realloc, sgs_ue_fsm_associated, incomplete_expiry,
  vlr_subscr_keep_incomplete_expiry, on_detach, sgs_ue_fsm_allstate, action, dispatch,
}
use osmo_msc.Vlr.Sgs.Same.{core}
use osmo_msc.Vlr.Sgs.Invariant.{count_of, Balanced, is_settled, Inv, to_null-Inv}
use osmo_msc.Vlr.Sgs.Handlers.{completed-Inv, confirmed-Inv, perform_lu-Inv}

module _ (rest : ℕ) (env : Env) where
  accepted_with-Inv :
      (v : Vsub) (new : Option ℕ)
      → v.tmsi_new ≡ new
      → v.conf_by_radio_contact_ind ≡ true
      → Balanced rest v
      → Inv rest (accepted_with core env v new)
  unfolding accepted_with
  accepted_with-Inv v none e h b = completed-Inv rest env v h b
  accepted_with-Inv v (some t) e h b = confirmed-Inv rest env v env.ts6_2_secs h b

  attach-Balanced : (v : Vsub) → Balanced rest v → Balanced rest (attach core env v)
  unfolding attach
  attach-Balanced v b =
      if_elim (Balanced rest) v.lu_complete (λ e. b)
        λ e. record {
          sound = b.sound;
          paging = b.paging;
          attached = ap (λ n. n + 1) (b.attached ∙ ap count_of e);
          counted = b.counted;
        }

  attach-confirmed :
      (v : Vsub) → (attach core env v).conf_by_radio_contact_ind ≡ v.conf_by_radio_contact_ind
  unfolding attach
  attach-confirmed v =
      if_elim (λ (w : Vsub). w.conf_by_radio_contact_ind ≡ v.conf_by_radio_contact_ind)
        v.lu_complete (λ e. refl) (λ e. refl)

  lu_accepted-Inv : (v : Vsub) → Balanced rest v → Inv rest (lu_accepted core env v)
  unfolding lu_accepted
  lu_accepted-Inv v b =
      let w : Vsub = record v {
        conf_by_radio_contact_ind = true;
        sub_dataconf_by_hlr_ind = true;
        loc_conf_in_hlr_ind = true;
        la_allowed = true;
        imsi_detached_flag = false;
      } in
      let c : Balanced rest (attach core env w) = attach-Balanced w (b) in
      let u : Vsub = record (attach core env w) { attached_via_sgs = true } in
      accepted_with-Inv u u.tmsi_new refl (attach-confirmed w) (c)

  on_paging_failure-Inv :
      (v : Vsub) (c : SgsCause) → Inv rest v → Inv rest (on_paging_failure core env v c)
  unfolding on_paging_failure
  on_paging_failure-Inv v mt_csfb_rej_user i = i
  on_paging_failure-Inv v (other_cause c) i = to_null-Inv rest env v i.balanced

  tmsi_realloc-Inv :
      (v : Vsub) (new : Option ℕ)
      → v.conf_by_radio_contact_ind ≡ true
      → Balanced rest v
      → Inv rest (tmsi_realloc core env v new)
  unfolding tmsi_realloc
  tmsi_realloc-Inv v none h b = confirmed-Inv rest env v 0 h b
  tmsi_realloc-Inv v (some t) h b =
      completed-Inv rest env (record v { tmsi = some t; tmsi_new = none }) h (b)

  incomplete_expiry-Balanced :
      (o : Option ℕ) (v : Vsub) → Balanced rest v → Balanced rest (incomplete_expiry core env o v)
  unfolding incomplete_expiry
  incomplete_expiry-Balanced none v b = b
  incomplete_expiry-Balanced (some now) v b = b

  pub incomplete_expiry-Inv :
      (o : Option ℕ) (v : Vsub) → Inv rest v → Inv rest (incomplete_expiry core env o v)
  unfolding incomplete_expiry
  incomplete_expiry-Inv none v i = i
  incomplete_expiry-Inv (some now) v i = i

  on_detach-Inv : (v : Vsub) → Balanced rest v → Inv rest (on_detach core env v)
  unfolding on_detach vlr_subscr_keep_incomplete_expiry
  on_detach-Inv v b =
      let w : Vsub = record v { imsi_detached_flag = true } in
      to_null-Inv rest env _ (
        if_elim (Balanced rest) v.lu_complete (λ e. b)
          (λ e.
            if_elim (Balanced rest) v.lu_complete (λ f. b)
              (λ f. incomplete_expiry-Balanced env.now w b)))

  null-Inv :
      (v : Vsub) (e : Event)
      → v.state ≡ sgs_null
      → in_event_mask sgs_null e ≡ true
      → Inv rest v
      → Inv rest (sgs_ue_fsm_null core env v e)
  unfolding sgs_ue_fsm_null in_event_mask on_tx_paging
  null-Inv v rx_lu_from_mme q m i = perform_lu-Inv rest env v i.balanced
  null-Inv v tx_paging q m i = i
  null-Inv v (rx_paging_failure c) q m i = i
  null-Inv v rx_tmsi_realloc q m i = i
  null-Inv v rx_service_req q m i =
      confirmed-Inv rest env (record v { conf_by_radio_contact_ind = true }) 0 refl (i.balanced)
  null-Inv v e q m i = absurd (ground (arith, m))

  lau_present-Inv :
      (v : Vsub) (e : Event)
      → in_event_mask la_upd_pres e ≡ true
      → Inv rest v
      → Inv rest (sgs_ue_fsm_lau_present core env v e)
  unfolding sgs_ue_fsm_lau_present in_event_mask on_tx_paging on_tx_lu_reject
  lau_present-Inv v tx_lu_accept m i = lu_accepted-Inv v i.balanced
  lau_present-Inv v (rx_paging_failure c) m i = on_paging_failure-Inv v c i
  lau_present-Inv v tx_lu_reject m i = to_null-Inv rest env v i.balanced
  lau_present-Inv v rx_alert_failure m i = to_null-Inv rest env v i.balanced
  lau_present-Inv v tx_paging m i = i
  lau_present-Inv v rx_tmsi_realloc m i = i
  lau_present-Inv v rx_service_req m i = i
  lau_present-Inv v e m i = absurd (ground (arith, m))

  associated-Inv :
      (v : Vsub) (e : Event)
      → v.state ≡ associated
      → in_event_mask associated e ≡ true
      → Inv rest v
      → Inv rest (sgs_ue_fsm_associated core env v e)
  unfolding sgs_ue_fsm_associated in_event_mask on_tx_paging
  associated-Inv v tx_paging q m i = i
  associated-Inv v rx_tmsi_realloc q m i =
      tmsi_realloc-Inv v v.tmsi_new
        (ground (
          arith,
          subst (λ s. is_settled s v.ts6_2_running v.conf_by_radio_contact_ind ≡ true) q i.settled,
        ))
        i.balanced
  associated-Inv v rx_sgsap_ue_unreachable q m i = i
  associated-Inv v (rx_paging_failure c) q m i = on_paging_failure-Inv v c i
  associated-Inv v rx_alert_failure q m i = to_null-Inv rest env v i.balanced
  associated-Inv v rx_lu_from_mme q m i = perform_lu-Inv rest env v i.balanced
  associated-Inv v rx_service_req q m i = i
  associated-Inv v e q m i = absurd (ground (arith, m))

  allstate-Inv :
      (s : State) (v : Vsub) (e : Event)
      → allstate_event_mask s e ≡ true
      → Inv rest v
      → Inv rest (sgs_ue_fsm_allstate core env v e)
  unfolding sgs_ue_fsm_allstate allstate_event_mask
  allstate-Inv s v rx_detach_ind_from_mme m i = on_detach-Inv v i.balanced
  allstate-Inv s v rx_detach_ind_from_ue m i = on_detach-Inv v i.balanced
  allstate-Inv s v rx_reset_from_mme m i =
      to_null-Inv rest env (record v { conf_by_radio_contact_ind = false }) (i.balanced)
  allstate-Inv s v vlr_failure m i = to_null-Inv rest env v i.balanced
  allstate-Inv s v rx_lu_from_a_iu_gs m i = to_null-Inv rest env v i.balanced
  allstate-Inv s v e m i = absurd (ground (arith, m))

  action-Inv :
      (s : State) (v : Vsub) (e : Event)
      → v.state ≡ s
      → in_event_mask s e ≡ true
      → Inv rest v
      → Inv rest (action core env s v e)
  unfolding action
  action-Inv sgs_null v e q m i = null-Inv v e q m i
  action-Inv la_upd_pres v e q m i = lau_present-Inv v e m i
  action-Inv associated v e q m i = associated-Inv v e q m i

  pub dispatch-Inv : (v : Vsub) (e : Event) → Inv rest v → Inv rest (dispatch core env v e)
  unfolding dispatch masked
  dispatch-Inv v e i =
      if_elim (Inv rest) (allstate_event_mask v.state e) (λ h. allstate-Inv v.state v e h i)
        (λ h.
          if_elim (Inv rest) (in_event_mask v.state e) (λ m. action-Inv v.state v e refl m i)
            (λ m. i))

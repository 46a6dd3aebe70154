-- ===== src/Vlr/Sgs/Handlers.antt =====
-- libvlr/vlr_sgs_fsm.c: every handler of the association keeps the invariant.
use osmo_msc.Base.{
  ℕ, ◌≡◌, refl, ◌∙◌, true, ◌&&◌, Option, none, some, is_some, if_elim, if◌then◌else◌, ltb,
}
use osmo_msc.Fsm.{masked}
use osmo_msc.Vlr.Reject.{RejectValue}
use osmo_msc.Vlr.Sgs.Types.{
  State, sgs_null, la_upd_pres, associated, tx_lu_reject, Call, tx_lu_rej, tx_mm_info, Env, Vsub,
  in_event_mask, out_state_mask,
}
use osmo_msc.Vlr.Sgs.Ts5.{call, vlr_sgs_pag_stop, respawn_paging}
use osmo_msc.Vlr.Sgs.Association.{
  vlr_sgs_lu_release, state_chg, to_null, on_tx_lu_reject, dispatch_tx_lu_reject, sgs_tx_mm_info_cb,
  vlr_sgs_loc_update_rej_sent, respond_rejected, lu_error, req_lu, req_lu_with_new, perform_lu,
}
use osmo_msc.Vlr.Sgs.Same.{
  core, Same, Same-refl, Same-trans, vlr_sgs_pag_stop-Same, sgs_iface_paging_cb-Same,
}
use osmo_msc.Vlr.Sgs.Invariant.{
  Balanced, Inv, vlr_sgs_pag_stop-Balanced, state_chg-Balanced, to_null-Inv,
  sgs_iface_paging_cb-Balanced,
}

module _ (rest : ℕ) (env : Env) where
  pub respawn_paging-Same : (v : Vsub) → Same v (respawn_paging core env v)
  unfolding respawn_paging
  respawn_paging-Same v =
      if_elim (Same v) v.ts5_pending
        (λ e.
          Same-trans (vlr_sgs_pag_stop-Same v)
            (sgs_iface_paging_cb-Same env (vlr_sgs_pag_stop v) v.paging_serv_ind))
        (λ e. Same-refl v)

  respawn_paging-Balanced : (v : Vsub) → Balanced rest v → Balanced rest (respawn_paging core env v)
  unfolding respawn_paging
  respawn_paging-Balanced v b =
      if_elim (Balanced rest) v.ts5_pending
        (λ e.
          sgs_iface_paging_cb-Balanced rest env (vlr_sgs_pag_stop v) v.paging_serv_ind
            (vlr_sgs_pag_stop-Balanced rest v b))
        (λ e. b)

  pub call-Balanced : (c : Call) (v : Vsub) → Balanced rest v → Balanced rest (call c v)
  unfolding call
  call-Balanced c v b = b

  sgs_tx_mm_info_cb-Balanced :
      (v : Vsub) → Balanced rest v → Balanced rest (sgs_tx_mm_info_cb core env v)
  unfolding sgs_tx_mm_info_cb
  sgs_tx_mm_info_cb-Balanced v b =
      if_elim (Balanced rest) (env.send_mm_info && env.mme_found)
        (λ e. call-Balanced tx_mm_info v b) (λ e. b)

  pub sgs_tx_mm_info_cb-Same : (v : Vsub) → Same v (sgs_tx_mm_info_cb core env v)
  unfolding sgs_tx_mm_info_cb call
  sgs_tx_mm_info_cb-Same v =
      if_elim (Same v) (env.send_mm_info && env.mme_found)
        (λ e. record {
          state = refl;
          timer = refl;
          confirmed = refl;
          pending = refl;
          plmn = refl;
          assigned = refl;
          complete = refl;
          lu_uses = refl;
        })
        (λ e. Same-refl v)

  -- The association is complete: MM information, a pending page again, no timer.
  pub completed-Inv :
      (v : Vsub)
      → v.conf_by_radio_contact_ind ≡ true
      → Balanced rest v
      → Inv rest
          (state_chg core env (respawn_paging core env (sgs_tx_mm_info_cb core env v)) associated 0)
  unfolding state_chg masked out_state_mask
  completed-Inv v h b =
      let w : Vsub = sgs_tx_mm_info_cb core env v in
      record {
        balanced =
            state_chg-Balanced rest env (respawn_paging core env w) associated 0
              (respawn_paging-Balanced w (sgs_tx_mm_info_cb-Balanced v b));
        settled = (respawn_paging-Same w).confirmed ∙ (sgs_tx_mm_info_cb-Same v).confirmed ∙ h;
      }

  pub confirmed-Inv :
      (v : Vsub) (secs : ℕ)
      → v.conf_by_radio_contact_ind ≡ true
      → Balanced rest v
      → Inv rest (state_chg core env v associated secs)
  unfolding state_chg masked out_state_mask
  confirmed-Inv v secs h b = record {
    balanced = state_chg-Balanced rest env v associated secs b;
    settled = h;
  }

  pub vlr_sgs_lu_release-Inv : (v : Vsub) → Inv rest v → Inv rest (vlr_sgs_lu_release v)
  unfolding vlr_sgs_lu_release
  vlr_sgs_lu_release-Inv v i = if_elim (Inv rest) (ltb 0 v.use_sgs_lu) (λ e. i) (λ e. i)

  pub call-Inv : (c : Call) (v : Vsub) → Inv rest v → Inv rest (call c v)
  unfolding call
  call-Inv c v i = record { balanced = call-Balanced c v i.balanced; settled = i.settled }

  rejected_in :
      (s : State) (v : Vsub)
      → Inv rest v
      → Inv rest (if in_event_mask s tx_lu_reject then on_tx_lu_reject core env s v else v)
  unfolding in_event_mask on_tx_lu_reject
  rejected_in sgs_null v i = i
  rejected_in la_upd_pres v i = to_null-Inv rest env v i.balanced
  rejected_in associated v i = i

  pub respond_rejected-Inv :
      (v : Vsub) (cause : RejectValue) → Inv rest v → Inv rest (respond_rejected core env v cause)
  unfolding respond_rejected vlr_sgs_loc_update_rej_sent dispatch_tx_lu_reject masked
  respond_rejected-Inv v cause i =
      let w : Vsub = if env.mme_found then call (tx_lu_rej cause) v else v in
      vlr_sgs_lu_release-Inv _ (
        rejected_in w.state w
          (if_elim (Inv rest) env.mme_found (λ e. call-Inv (tx_lu_rej cause) v i) (λ e. i)))

  lu_error-Inv : (v : Vsub) → Balanced rest v → Inv rest (lu_error core env v)
  unfolding lu_error
  lu_error-Inv v b = respond_rejected-Inv (to_null core env v) _ (to_null-Inv rest env v b)

  req_lu-Inv : (v : Vsub) → Balanced rest v → Inv rest (req_lu core env v)
  unfolding req_lu state_chg masked out_state_mask
  req_lu-Inv v b =
      if_elim (Inv rest) env.req_lu_ok (λ e. record { balanced = b; settled = refl })
        (λ e. lu_error-Inv v b)

  req_lu_with_new-Inv :
      (v : Vsub) (t : Option ℕ) → Balanced rest v → Inv rest (req_lu_with_new core env v t)
  unfolding req_lu_with_new
  req_lu_with_new-Inv v none b = lu_error-Inv v b
  req_lu_with_new-Inv v (some t) b = req_lu-Inv (record v { tmsi_new = some t }) (b)

  pub perform_lu-Inv : (v : Vsub) → Balanced rest v → Inv rest (perform_lu core env v)
  unfolding perform_lu
  perform_lu-Inv v b =
      if_elim (Inv rest) (is_some v.tmsi) (λ e. req_lu-Inv v b)
        (λ e. req_lu_with_new-Inv v env.alloc_tmsi b)

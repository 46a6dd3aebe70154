-- ===== src/Vlr/Sgs/Registration.antt =====
-- libvlr/vlr_sgs.c and vlr_sgs_fsm.c: a location update over SGs from the request of the MME to the
-- new TMSI.
use osmo_msc.Base.{
  ℕ, ◌+◌, ◌≡◌, refl, subst, sym, ◌∙◌, Bool, true, false, ◌==◌, Option, none, some, if_elim,
  if◌then◌else◌, ltb, arith,
}
use osmo_msc.Fsm.{OsmoFsm, masked, for_every_core}
use osmo_msc.Vlr.Sgs.Types.{
  State, sgs_null, la_upd_pres, associated, Event, rx_lu_from_mme, tx_lu_accept, rx_tmsi_realloc,
  Lai, Call, tx_lu_ack, sgs_assoc_persist, Env, Vsub, in_event_mask, out_state_mask,
  allstate_event_mask,
}
use osmo_msc.Vlr.Sgs.Ts5.{call, is_lu_pending, respawn_paging}
use osmo_msc.Vlr.Sgs.Association.{
  vlr_sgs_lu_release, state_chg, sgs_tx_mm_info_cb, req_lu, req_lu_with_new, perform_lu,
  sgs_ue_fsm_null, accepted_with, attach, lu_accepted, sgs_ue_fsm_lau_present, tmsi_realloc,
  sgs_ue_fsm_associated, sgs_ue_fsm_allstate, action, dispatch,
}
use osmo_msc.Vlr.Sgs.Same.{core, Same, Same-trans}
use osmo_msc.Vlr.Sgs.Handlers.{respawn_paging-Same, sgs_tx_mm_info_cb-Same}
use osmo_msc.Vlr.Sgs.Runs.{loc_update, lu_res, tmsi_reall_compl, step}
use osmo_msc.Vlr.Sgs.{
  enable_expire_lu, loc_update_expiry, x3212_expiry, vlr_sgs_loc_update, accepted_expiry,
  vlr_sgs_loc_update_acc_sent, respond_accepted, handle_lu_res, vlr_sgs_tmsi_reall_compl,
}

-- A location update that waits for the HLR, and a complete one.
abbrev pub Waiting : (tmsi new : Option ℕ) → ℕ → Vsub → Type 0
Waiting t n u v = (v.state ≡ la_upd_pres) × (v.tmsi ≡ t) × (v.tmsi_new ≡ n) × (v.use_sgs_lu ≡ u)

abbrev pub Attached : (tmsi new : Option ℕ) (ts6_2 : Bool) → ℕ → Vsub → Type 0
Attached t n b u v =
    (v.state ≡ associated)
    × (v.tmsi ≡ t)
    × (v.tmsi_new ≡ n)
    × (v.ts6_2_running ≡ b)
    × (v.lu_complete ≡ true)
    × (v.use_sgs_lu ≡ u)

module _ (env : Env) where
  perform_lu-Waiting :
      (v : Vsub) (t : ℕ)
      → v.tmsi ≡ none
      → env.alloc_tmsi ≡ some t
      → env.req_lu_ok ≡ true
      → Waiting none (some t) v.use_sgs_lu (perform_lu core env v)
  unfolding perform_lu req_lu_with_new req_lu state_chg masked out_state_mask
  perform_lu-Waiting v t q a r = rw q (rw a (rw r (refl, refl, refl, refl)))

  request-Waiting :
      (s : State) (v : Vsub) (t : ℕ)
      → is_lu_pending s ≡ false
      → v.tmsi ≡ none
      → env.alloc_tmsi ≡ some t
      → env.req_lu_ok ≡ true
      → Waiting none (some t) v.use_sgs_lu (
          if allstate_event_mask s rx_lu_from_mme
          then sgs_ue_fsm_allstate core env v rx_lu_from_mme
          else if in_event_mask s rx_lu_from_mme
          then action core env s v rx_lu_from_mme
          else v)
  unfolding is_lu_pending allstate_event_mask in_event_mask action sgs_ue_fsm_null
      sgs_ue_fsm_associated
  request-Waiting sgs_null v t h q a r = perform_lu-Waiting v t q a r
  request-Waiting la_upd_pres v t h q a r = absurd (ground (arith, h))
  request-Waiting associated v t h q a r = perform_lu-Waiting v t q a r

  loc_update_expiry-Waiting :
      (o : Option ℕ) (secs : ℕ) {t n : Option ℕ} {u : ℕ} (v : Vsub)
      → Waiting t n u v
      → Waiting t n u (loc_update_expiry o secs v)
  unfolding loc_update_expiry
  loc_update_expiry-Waiting none secs v w = w
  loc_update_expiry-Waiting (some now) secs {t} {n} {u} v w =
      if_elim (Waiting t n u) (ltb 0 secs) (λ e. w)
        (λ e. if_elim (Waiting t n u) v.lu_complete (λ e. w) (λ e. w))

  vlr_sgs_loc_update-Waiting :
      (v : Vsub) (m : ℕ) (lai : Lai) (p : Option ℕ) (t : ℕ)
      → is_lu_pending v.state ≡ false
      → v.tmsi ≡ none
      → env.alloc_tmsi ≡ some t
      → env.req_lu_ok ≡ true
      → Waiting none (some t) (v.use_sgs_lu + 1) (vlr_sgs_loc_update core env v m lai p)
  unfolding vlr_sgs_loc_update dispatch masked
  vlr_sgs_loc_update-Waiting v m lai p t h q a r =
      if_elim (Waiting none (some t) (v.use_sgs_lu + 1)) (is_lu_pending v.state)
        (λ e. absurd (ground (arith, e, h)))
        (λ e. loc_update_expiry-Waiting env.now env.x3212_secs _ (
          request-Waiting v.state
            (record v {
              use_sgs_lu = v.use_sgs_lu + 1;
              has_callbacks = true;
              last_eutran_plmn = p;
              mme_name = m;
            })
            t h q a r))

  lu_accepted-Attached :
      (v : Vsub) {tmsi : Option ℕ} (t u : ℕ)
      → Waiting tmsi (some t) u v
      → Attached tmsi (some t) (ltb 0 env.ts6_2_secs) u (lu_accepted core env v)
  unfolding lu_accepted attach accepted_with state_chg masked out_state_mask
  lu_accepted-Attached v {tmsi} t u (s, q, n, k) =
      if_elim
        (λ (a : Vsub).
          Attached tmsi (some t) (ltb 0 env.ts6_2_secs) u
            (accepted_with core env (record a { attached_via_sgs = true }) a.tmsi_new))
        v.lu_complete (λ e. rw n (refl, q, refl, refl, e, k))
        (λ e. rw n (refl, q, refl, refl, refl, k))

  accept-Attached :
      (s : State) (v : Vsub) {tmsi : Option ℕ} (t u : ℕ)
      → s ≡ la_upd_pres
      → Waiting tmsi (some t) u v
      → Attached tmsi (some t) (ltb 0 env.ts6_2_secs) u (
          if allstate_event_mask s tx_lu_accept
          then sgs_ue_fsm_allstate core env v tx_lu_accept
          else if in_event_mask s tx_lu_accept
          then action core env s v tx_lu_accept
          else v)
  unfolding allstate_event_mask in_event_mask action sgs_ue_fsm_lau_present
  accept-Attached sgs_null v t u h w = absurd (ground (arith, h))
  accept-Attached la_upd_pres v t u h w = lu_accepted-Attached v t u w
  accept-Attached associated v t u h w = absurd (ground (arith, h))

  clock_expiry-Attached :
      (o : Option ℕ) {t n : Option ℕ} {b : Bool} {u : ℕ} (secs : ℕ) (v : Vsub)
      → Attached t n b u v
      → Attached t n b u (x3212_expiry o secs v) × Attached t n b u (enable_expire_lu o secs v)
  unfolding x3212_expiry enable_expire_lu
  clock_expiry-Attached none secs v w = (w, w)
  clock_expiry-Attached (some now) secs v w = (w, w)

  accepted_expiry-Attached :
      {t n : Option ℕ} {b : Bool} {u : ℕ} (v : Vsub)
      → Attached t n b u v
      → Attached t n b u (accepted_expiry core env v)
  unfolding accepted_expiry
  accepted_expiry-Attached {t} {n} {b} {u} v w =
      if_elim (Attached t n b u) (ltb 0 env.x3212_secs)
        (λ e. (clock_expiry-Attached env.now env.x3212_secs v w).0)
        (λ e.
          if_elim (Attached t n b u) (env.t3212_secs == 0) (λ f. w)
            (λ f. (clock_expiry-Attached env.now env.t3212_secs v w).1))

  call-Waiting :
      {t n : Option ℕ} {u : ℕ} (b : Bool) (c : Call) (v : Vsub)
      → Waiting t n u v
      → Waiting t n u (if b then call c v else v)
  unfolding call
  call-Waiting {t} {n} {u} b c v w = if_elim (Waiting t n u) b (λ e. w) (λ e. w)

  call-Attached :
      {t n : Option ℕ} {x : Bool} {u : ℕ} (b : Bool) (c : Call) (v : Vsub)
      → Attached t n x u v
      → Attached t n x u (if b then call c v else v)
  unfolding call
  call-Attached {t} {n} {x} {u} b c v w = if_elim (Attached t n x u) b (λ e. w) (λ e. w)

  release-Attached :
      {t n : Option ℕ} {b : Bool} (u : ℕ) (v : Vsub)
      → Attached t n b (u + 1) v
      → Attached t n b u (vlr_sgs_lu_release v)
  unfolding vlr_sgs_lu_release
  release-Attached {t} {n} {b} u v (s, q, n', x, c, k) =
      if_elim (Attached t n b u) (ltb 0 v.use_sgs_lu) (λ e. (s, q, n', x, c, ground (arith, k)))
        (λ e. absurd (ground (arith, e, k)))

  respond-Attached :
      {tmsi : Option ℕ} (t u : ℕ) (v : Vsub)
      → Waiting tmsi (some t) (u + 1) v
      → Attached tmsi (some t) (ltb 0 env.ts6_2_secs) u (respond_accepted core env v)
  unfolding respond_accepted vlr_sgs_loc_update_acc_sent dispatch masked
  respond-Attached {tmsi} t u v w =
      let v' : Vsub = if env.mme_found then call (tx_lu_ack v.tmsi_new) v else v in
      let w' : Waiting tmsi (some t) (u + 1) v' = call-Waiting env.mme_found _ v w in
      release-Attached u _ (
        call-Attached env.has_assoc_ops sgs_assoc_persist _
          (accepted_expiry-Attached _ (accept-Attached v'.state v' t (u + 1) w'.0 w')))

  handle_lu_res-Attached :
      {tmsi : Option ℕ} (t u : ℕ) (v : Vsub)
      → Waiting tmsi (some t) (u + 1) v
      → Attached tmsi (some t) (ltb 0 env.ts6_2_secs) u (handle_lu_res core env v)
  unfolding handle_lu_res is_lu_pending
  handle_lu_res-Attached {tmsi} t u v w =
      if_elim (Attached tmsi (some t) (ltb 0 env.ts6_2_secs) u) (is_lu_pending v.state)
        (λ e. respond-Attached t u v w) (λ e. absurd (ground (arith, e, w.0)))

  realloc-Attached :
      (s : State) {tmsi : Option ℕ} {b : Bool} (t u : ℕ) (v : Vsub)
      → s ≡ associated
      → Attached tmsi (some t) b u v
      → Attached (some t) none false u (
          if allstate_event_mask s rx_tmsi_realloc
          then sgs_ue_fsm_allstate core env v rx_tmsi_realloc
          else if in_event_mask s rx_tmsi_realloc
          then action core env s v rx_tmsi_realloc
          else v)
  unfolding allstate_event_mask in_event_mask action sgs_ue_fsm_associated tmsi_realloc state_chg
      masked out_state_mask
  realloc-Attached sgs_null t u v h w = absurd (ground (arith, h))
  realloc-Attached la_upd_pres t u v h w = absurd (ground (arith, h))
  realloc-Attached associated {tmsi} {b} t u v h w =
      let v' : Vsub = record v { tmsi = some t; tmsi_new = none } in
      let r : Same v' (respawn_paging core env (sgs_tx_mm_info_cb core env v')) =
        Same-trans (sgs_tx_mm_info_cb-Same 0 env v')
          (respawn_paging-Same 0 env (sgs_tx_mm_info_cb core env v')) in
      subst (λ o. Attached (some t) none false u (tmsi_realloc core env v o)) (sym w.2)
        (refl, r.assigned, r.pending, refl, r.complete ∙ w.4, r.lu_uses ∙ w.5)

-- Registered with a new TMSI: what a location update, the answer of the HLR and the confirmation of
-- the TMSI lead to, and what the location update leads to if the confirmation does not come.
abbrev pub Registers :
    OsmoFsm State Event → (e₁ e₂ e₃ : Env) → Vsub → ℕ → Lai → Option ℕ → ℕ → Type 0
Registers fsm e₁ e₂ e₃ v m lai p t =
    let w = step fsm e₂ lu_res (step fsm e₁ (loc_update m lai p) v) in
    Attached none (some t) (ltb 0 e₂.ts6_2_secs) v.use_sgs_lu w
    × Attached (some t) none false v.use_sgs_lu (step fsm e₃ tmsi_reall_compl w)

Registers-masked :
    (e₁ e₂ e₃ : Env) (v : Vsub) (m : ℕ) (lai : Lai) (p : Option ℕ) (t : ℕ)
    → is_lu_pending v.state ≡ false
    → v.tmsi ≡ none
    → e₁.alloc_tmsi ≡ some t
    → e₁.req_lu_ok ≡ true
    → Registers core e₁ e₂ e₃ v m lai p t
unfolding vlr_sgs_tmsi_reall_compl dispatch masked
Registers-masked e₁ e₂ e₃ v m lai p t h q a r =
    let w : Vsub = handle_lu_res core e₂ (vlr_sgs_loc_update core e₁ v m lai p) in
    let b : Attached none (some t) (ltb 0 e₂.ts6_2_secs) v.use_sgs_lu w =
      handle_lu_res-Attached e₂ t v.use_sgs_lu _
        (vlr_sgs_loc_update-Waiting e₁ v m lai p t h q a r) in
    (b, realloc-Attached e₃ w.state t v.use_sgs_lu w b.0 b)

-- The MME asks for the location update of a subscriber without a TMSI and with no update in progress,
-- a TMSI is assigned and the request to the HLR goes out; then the HLR confirms, and then the MME
-- confirms the new TMSI. After the HLR's answer the subscriber is SGs-ASSOCIATED with a complete
-- location update, the new TMSI is pending and Ts6-2 guards it if it has a time; after the
-- confirmation the new TMSI is the subscriber's, none is pending and Ts6-2 is stopped. The use
-- VSUB_USE_SGS_LU of the update is put again, whether or not an MME is connected or a page is
-- pending.
pub step-Registers :
    (fsm : OsmoFsm State Event) (e₁ e₂ e₃ : Env) (v : Vsub) (m : ℕ) (lai : Lai) (p : Option ℕ)
    (t : ℕ)
    → is_lu_pending v.state ≡ false
    → v.tmsi ≡ none
    → e₁.alloc_tmsi ≡ some t
    → e₁.req_lu_ok ≡ true
    → Registers fsm e₁ e₂ e₃ v m lai p t
step-Registers fsm e₁ e₂ e₃ v m lai p t h q a r =
    for_every_core (λ c. Registers c e₁ e₂ e₃ v m lai p t)
      (Registers-masked e₁ e₂ e₃ v m lai p t h q a r) fsm

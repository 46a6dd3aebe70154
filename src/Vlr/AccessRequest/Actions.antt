-- ===== src/Vlr/AccessRequest/Actions.antt =====
-- libvlr/vlr_access_req_fsm.c: each action keeps the invariant.
use osmo_msc.Base.{
  ◌≡◌, ◌≢◌, refl, sym, subst, ◌⊎◌, inl, inr, Bool, true, false, Option, none, some, arith,
  Bool-cases,
}
use osmo_msc.Fsm.{masked}
use osmo_msc.Vlr.Reject.{RejectValue}
use osmo_msc.Vlr.AccessRequest.{
  State, init, wait_obtain_imsi, wait_auth, wait_ciph, wait_upd_loc_child, wait_sub_pres,
  wait_trace_sub, wait_check_imei, wait_tmsi_ack, wait_ceck_conf, Event, kind, auth_res,
  auth_no_info, auth_failure, ciph_res, CausePtr, CiphResult, ciph_compl, Link, other_fsm,
  other_fsm_done, stop_other, start_auth, subscr_assoc, auth_to_be_attempted, call, ArqSubscr,
  ArqFsm, Env, in_event_mask, out_state_mask, state_chg, fsm_done, node2, post_imsi, post_imsi_by,
  post_trace, with_subscr, fn_init, fn_w_obt_imsi, fn_w_auth, fn_w_ciph, action_with, action_by,
}
use osmo_msc.Vlr.AccessRequest.Invariant.{
  core, is_done, secured, before_auth, Inv, wait_auth_allowed, IsProper, Goes, event_needs,
  fsm_done-Inv, post_pres-Inv, call-Inv, state_chg-Inv,
}
use osmo_msc.Vlr.AccessRequest.Node2.{node2_post_vlr-Inv, node2_post_ciph-Inv, node2-Inv}

module _ (z : Bool) (env : Env) where
  post_imsi_by-Inv :
      (fi : ArqFsm) (a : Bool × ArqSubscr)
      → before_auth fi.state ≡ true
      → Inv z fi
      → Inv z (post_imsi_by core env fi a)
  unfolding post_imsi_by
  post_imsi_by-Inv fi (true, vsub) s v = call-Inv z env start_auth _ refl (
      state_chg-Inv z env (record fi { vsub = some vsub }) wait_auth (wait_auth_allowed fi.state s)
        refl (ground arith) (λ e. cc) (λ h. cc) (λ _. refl) (ground arith))
  post_imsi_by-Inv fi (false, vsub) s v =
      node2-Inv z env (record fi { vsub = some vsub }) vsub (ground arith) refl (ground arith)

  with_subscr_cases :
      (fi : ArqFsm) (vsub : ArqSubscr)
      → let fi' = call subscr_assoc (record fi { vsub = some vsub }) in
        let r = with_subscr core env fi vsub in
        (r ≡ fsm_done core env fi' (some RejectValue.network_failure))
        ⊎ (r ≡ post_imsi_by core env fi' (auth_to_be_attempted core env fi' vsub))
  unfolding with_subscr post_imsi
  with_subscr_cases fi vsub = ground arith

  with_subscr-Inv :
      (fi : ArqFsm) (vsub : ArqSubscr)
      → before_auth fi.state ≡ true
      → Inv z fi
      → Inv z (with_subscr core env fi vsub)
  with_subscr-Inv fi vsub s v = elim (with_subscr_cases fi vsub) [
    | inl e ↦
        subst (Inv z) (sym e)
          (fsm_done-Inv z env fi' RejectValue.network_failure (ground arith) (ground arith) v')
    | inr e ↦ subst (Inv z) (sym e) (post_imsi_by-Inv fi' _ s v')
  ]
    where
      fi' : ArqFsm
      fi' = call subscr_assoc (record fi { vsub = some vsub })

      v' : Inv z fi'
      v' = call-Inv z env subscr_assoc (record fi { vsub = some vsub }) refl (ground arith)

  fn_init-none_cases :
      (fi : ArqFsm)
      → let r = fn_init core env fi none in
        (r ≡ fsm_done core env fi (some RejectValue.imsi_unknown_in_vlr))
        ⊎ (r ≡ state_chg core env fi wait_obtain_imsi)
  unfolding fn_init
  fn_init-none_cases fi = ground arith

  stop_other-Inv : (l : Link) (fi : ArqFsm) → Inv z fi → Inv z (stop_other core env l fi)
  stop_other-Inv other_fsm fi v =
      call-Inv z env (other_fsm_done RejectValue.network_failure) fi refl v
  stop_other-Inv _ fi v = v

  state-stop_other : (l : Link) (fi : ArqFsm) → (stop_other core env l fi).state ≡ fi.state
  state-stop_other other_fsm fi = refl
  state-stop_other _ fi = refl

  fn_init-Inv :
      (fi : ArqFsm) (found : Option ArqSubscr)
      → fi.state ≡ init
      → Inv z fi
      → Inv z (fn_init core env fi found)
  unfolding fn_init
  fn_init-Inv fi (some vsub) s v =
      with_subscr-Inv _ _ (rw (state-stop_other vsub.proc_arq_fsm fi, s))
        (stop_other-Inv vsub.proc_arq_fsm fi v)
  fn_init-Inv fi none s v = elim (fn_init-none_cases fi) [
    | inl e ↦
        subst (Inv z) (sym e)
          (fsm_done-Inv z env fi RejectValue.imsi_unknown_in_vlr (ground arith) (ground arith) v)
    | inr e ↦ subst (Inv z) (sym e) (
        state_chg-Inv z env fi wait_obtain_imsi (rw s (unfold out_state_mask in refl)) refl
          (ground arith) (λ e. cc) (λ h. cc) (λ h. cc) v)
  ]

  fn_w_obt_imsi-Inv :
      (fi : ArqFsm) (found : Option ArqSubscr)
      → fi.state ≡ wait_obtain_imsi
      → Inv z fi
      → Inv z (fn_w_obt_imsi core env fi found)
  unfolding fn_w_obt_imsi
  fn_w_obt_imsi-Inv fi none s v =
      fsm_done-Inv z env fi RejectValue.imsi_unknown_in_vlr (ground arith) (ground arith) v
  fn_w_obt_imsi-Inv fi (some vsub) s v = with_subscr-Inv fi vsub (ground arith) v

  no_info_cases :
      (fi : ArqFsm) (vsub : ArqSubscr) (p : CausePtr)
      → IsProper z (auth_no_info p)
      → ((c : RejectValue) × (fn_w_auth core env fi vsub (auth_no_info p)
            ≡ fsm_done core env fi (some c)))
        ⊎ ((fn_w_auth core env fi vsub (auth_no_info p) ≡ node2 core env fi vsub)
            ⊎ ((z ≡ true)
                × (fn_w_auth core env fi vsub (auth_no_info p) ≡ fsm_done core env fi none)))
  unfolding fn_w_auth
  no_info_cases fi vsub none h = elim (Bool-cases fi.authentication_required) [
    | inl a ↦ inl (RejectValue.network_failure, ground arith)
    | inr a ↦ inr (inl (ground arith))
  ]
  no_info_cases fi vsub (some none) h = elim (Bool-cases fi.authentication_required) [
    | inl a ↦ inr (inr (h refl, ground arith))
    | inr a ↦ inr (inl (ground arith))
  ]
  no_info_cases fi vsub (some (some c)) h = elim (Bool-cases fi.authentication_required) [
    | inl a ↦ inl (c, ground arith)
    | inr a ↦ inr (inl (ground arith))
  ]

  fsm_done_ok-Inv :
      (fi : ArqFsm)
      → is_done fi.state ≡ false
      → fi.state ≢ wait_ceck_conf
      → secured z fi ≡ true
      → Inv z fi
      → Inv z (fsm_done core env fi none)
  unfolding fsm_done masked out_state_mask
  fsm_done_ok-Inv fi s n c v = ground arith

  -- The cause 0 is a success, whatever is required.
  zero-Inv :
      (fi : ArqFsm) → fi.state ≡ wait_auth → z ≡ true → Inv z fi → Inv z (fsm_done core env fi none)
  zero-Inv fi s x v = fsm_done_ok-Inv fi (ground arith) (ground arith) (ground (arith, x)) v

  fn_w_auth-Inv :
      (fi : ArqFsm) (vsub : ArqSubscr) (e : Event)
      → fi.state ≡ wait_auth
      → IsProper z e
      → Inv z fi
      → Inv z (fn_w_auth core env fi vsub e)
  unfolding fn_w_auth
  fn_w_auth-Inv fi vsub auth_res s p v = node2-Inv z env fi vsub (ground arith) (ground arith) v
  fn_w_auth-Inv fi vsub (auth_failure none) s p v =
      fsm_done-Inv z env fi RejectValue.network_failure (ground arith) (ground arith) v
  fn_w_auth-Inv fi vsub (auth_failure (some none)) s p v = zero-Inv fi s (p refl) v
  fn_w_auth-Inv fi vsub (auth_failure (some (some c))) s p v =
      fsm_done-Inv z env fi c (ground arith) (ground arith) v
  fn_w_auth-Inv fi vsub (auth_no_info c) s p v = elim (no_info_cases fi vsub c p) [
    | inl (r, e) ↦ subst (Inv z) (sym e) (fsm_done-Inv z env fi r (ground arith) (ground arith) v)
    | inr (inl e) ↦ subst (Inv z) (sym e) (node2-Inv z env fi vsub (ground arith) (ground arith) v)
    | inr (inr (x, e)) ↦ subst (Inv z) (sym e) (zero-Inv fi s x v)
  ]
  fn_w_auth-Inv fi vsub _ s p v = v

  fn_w_ciph-Inv :
      (fi : ArqFsm) (vsub : ArqSubscr) (r : Option CiphResult)
      → fi.state ≡ wait_ciph
      → Inv z fi
      → Inv z (fn_w_ciph core env fi vsub r)
  unfolding fn_w_ciph
  fn_w_ciph-Inv fi vsub (some ciph_compl) s v =
      node2_post_ciph-Inv z env fi vsub (ground arith) (ground arith) v
  fn_w_ciph-Inv fi vsub _ s v =
      fsm_done-Inv z env fi RejectValue.illegal_ms (ground arith) (ground arith) v

  action_with-Inv :
      (fi : ArqFsm) (st : State) (vsub : ArqSubscr) (e : Event)
      → fi.state ≡ st
      → in_event_mask st (kind e) ≡ true
      → IsProper z e
      → Inv z fi
      → Inv z (action_with core env st fi vsub e)
  unfolding action_with post_trace
  action_with-Inv fi wait_auth vsub e s m p v = fn_w_auth-Inv fi vsub e s p v
  action_with-Inv fi wait_ciph vsub (ciph_res r) s m p v = fn_w_ciph-Inv fi vsub r s v
  action_with-Inv fi wait_upd_loc_child vsub e s m p v =
      node2_post_vlr-Inv z env fi vsub (ground arith) (ground arith) v
  action_with-Inv fi wait_sub_pres vsub e s m p v =
      post_pres-Inv z env fi (ground arith) (ground arith) (ground arith) v
  action_with-Inv fi wait_trace_sub vsub e s m p v =
      fsm_done_ok-Inv fi (ground arith) (ground arith) (ground arith) v
  action_with-Inv fi wait_check_imei vsub e s m p v =
      fsm_done_ok-Inv fi (ground arith) (ground arith) (ground arith) v
  action_with-Inv fi wait_tmsi_ack vsub e s m p v =
      fsm_done_ok-Inv fi (ground arith) (ground arith) (ground arith) v
  action_with-Inv fi _ vsub e s m p v = v

  -- The action is there, and keeps the invariant.
  pub action_by-Inv :
      (fi : ArqFsm) (st : State) (w : Option ArqSubscr) (e : Event)
      → fi.state ≡ st
      → fi.vsub ≡ w
      → in_event_mask st (kind e) ≡ true
      → IsProper z e
      → Inv z fi
      → Goes (Inv z) (action_by core env st fi w e)
  unfolding action_by
  action_by-Inv fi init w e s u m p v = fn_init-Inv fi env.found s v
  action_by-Inv fi wait_obtain_imsi w e s u m p v = fn_w_obt_imsi-Inv fi env.found s v
  action_by-Inv fi st none e s u m p v = ground (arith, event_needs st (kind e) m)
  action_by-Inv fi st (some vsub) e s u m p v = action_with-Inv fi st vsub e s m p v

-- ===== src/Vlr/LocationUpdate/Completing.antt =====
-- libvlr/vlr_lu_fsm.c: the completion of a location update keeps the invariant.
use osmo_msc.Base.{
  ℕ, ◌≡◌, refl, sym, ap, ◌∙◌, subst, Bool, true, false, ◌&&◌, ◌||◌, not, Option, none, some, [],
  ◌∷◌, ◌+◌, is_some, if◌then◌else◌, if_elim, arith, Bool-cases, inl, inr,
}
use osmo_msc.Fsm.{masked}
use osmo_msc.Vlr.Reject.{RejectValue}
use osmo_msc.Vlr.LocationUpdate.Types.{
  wait_lu_compl, ComplState, compl_wait_tmsi_cnf, compl_done, success, failure, LuSubscr, Call,
  tx_lu_acc, tx_lu_rej, to_parent, req_lu, tx_mm_info, sgs_update_id, Compl, Env, LuFsm,
}
use osmo_msc.Vlr.LocationUpdate.Masks.{in_event_mask, compl_out_state_mask}
use osmo_msc.Vlr.LocationUpdate.Result.{
  call, lu_fsm_done, lu_fsm_failure, is_attach, on_lu_compl_success, on_lu_compl_failure,
  lu_compl_succeeded, lu_compl_failed,
}
use osmo_msc.Vlr.LocationUpdate.Completion.{
  compl_state_chg, compl_dispatch_result, compl_fsm_done, set_lu_complete, compl_fsm_success,
  with_tmsi, lu_compl_vlr_new_tmsi, accept_without_tmsi, accept,
}
use osmo_msc.Vlr.LocationUpdate.Invariant.{
  core, asks, accepts, results, rejects, awaits, is_settled, auth_ok, ciph_ok, Open, Inv,
  lu_fsm_failure-Inv, success-Inv,
}

abbrev pub is_plain : Call → Bool
is_plain (tx_lu_acc m t) = false
is_plain (tx_lu_rej r t) = false
is_plain (to_parent e) = false
is_plain req_lu = false
is_plain _ = true

abbrev pub is_compl_done : ComplState → Bool
is_compl_done compl_done = true
is_compl_done _ = false

-- The completion may go on to an accept: with a TMSI, to the wait for its confirmation.
abbrev pub may_accept : Compl → Bool
may_accept c =
    not (is_compl_done c.state)
    && (not c.assign_tmsi || compl_out_state_mask c.state compl_wait_tmsi_cnf)

compl_done_allowed :
    (s : ComplState) → is_compl_done s ≡ false → compl_out_state_mask s compl_done ≡ true
unfolding compl_out_state_mask
compl_done_allowed s h = ground arith

reopen : {a c : Bool} (fi : LuFsm) → Open a c fi → Open a c (record fi { lu_compl = none })
reopen fi o = ground arith

module _ (a c : Bool) (env : Env) where
  pub call-Inv : (k : Call) (fi : LuFsm) → is_plain k ≡ true → Inv a c fi → Inv a c (call k fi)
  call-Inv k fi p v = ground arith

  -- The location update while its completion runs.
  pub record Completes (fi : LuFsm) : Type 0 where
    pub open_ : Open a c fi
    pub here : fi.state ≡ wait_lu_compl
    pub authenticated : auth_ok a c fi ≡ true
    pub ciphered : ciph_ok a c fi ≡ true
    pub subscribed : is_some fi.vsub ≡ true

  failed :
      (fi : LuFsm) (k : Compl) (cause : Option RejectValue)
      → fi.state ≡ wait_lu_compl
      → is_compl_done k.state ≡ false
      → compl_fsm_done core env fi k failure cause
        ≡ lu_fsm_failure core (record fi { lu_compl = none }) cause
  unfolding compl_fsm_done masked compl_dispatch_result on_lu_compl_failure in_event_mask
      lu_compl_failed
  failed fi k cause s d = rw (compl_done_allowed k.state d, s) refl

  pub failed-Inv :
      (fi : LuFsm) (k : Compl) (cause : Option RejectValue)
      → is_compl_done k.state ≡ false
      → Completes fi
      → Inv a c (compl_fsm_done core env fi k failure cause)
  failed-Inv fi k cause d p =
      subst (Inv a c) (sym (failed fi k cause p.here d))
        (lu_fsm_failure-Inv a c (record fi { lu_compl = none }) cause (reopen fi p.open_))

  with_mm_info : LuFsm → LuFsm
  with_mm_info fi = if is_attach fi.lu_type then call tx_mm_info fi else fi

  succeeded :
      (fi : LuFsm) (k : Compl)
      → fi.state ≡ wait_lu_compl
      → is_compl_done k.state ≡ false
      → compl_fsm_done core env fi k success none
        ≡ lu_fsm_done core (with_mm_info (record fi { lu_compl = none })) success
  unfolding compl_fsm_done masked compl_dispatch_result on_lu_compl_success in_event_mask
      lu_compl_succeeded with_mm_info
  succeeded fi k s d = rw (compl_done_allowed k.state d, s) refl

  succeeded-Inv :
      (fi : LuFsm) (k : Compl)
      → is_compl_done k.state ≡ false
      → accepts fi.log ≡ 1
      → Completes fi
      → Inv a c (compl_fsm_done core env fi k success none)
  unfolding with_mm_info
  succeeded-Inv fi k d n p =
      let fi' = record fi { lu_compl = none } in
      subst (Inv a c) (sym (succeeded fi k p.here d)) (elim (Bool-cases (is_attach fi.lu_type)) [
        | inl e ↦ rw e (
            success-Inv a c (call tx_mm_info fi') (ground (arith, p.open_)) n p.authenticated
              p.ciphered)
        | inr e ↦ rw e (success-Inv a c fi' (reopen fi p.open_) n p.authenticated p.ciphered)
      ])

  set_lu_complete-Completes :
      (fi : LuFsm) (vsub : LuSubscr) → Completes fi → Completes (set_lu_complete core env fi vsub)
  unfolding set_lu_complete
  set_lu_complete-Completes fi vsub p = ground arith

  accepts-set_lu_complete :
      (fi : LuFsm) (vsub : LuSubscr)
      → accepts (set_lu_complete core env fi vsub).log ≡ accepts fi.log
  unfolding set_lu_complete
  accepts-set_lu_complete fi vsub = ground arith

  pub success_is-Inv :
      (fi : LuFsm) (k : Compl) (vsub : LuSubscr)
      → is_compl_done k.state ≡ false
      → accepts fi.log ≡ 1
      → Completes fi
      → Inv a c (compl_fsm_success core env fi k vsub)
  unfolding compl_fsm_success
  success_is-Inv fi k vsub d n p = call-Inv sgs_update_id _ refl (
      succeeded-Inv (set_lu_complete core env fi vsub) k d (accepts-set_lu_complete fi vsub ∙ n)
        (set_lu_complete-Completes fi vsub p))

  -- The completion waits on.
  pub waiting-Inv :
      (fi : LuFsm) (k : Compl)
      → is_settled k.state k.assign_tmsi ≡ true
      → accepts fi.log ≡ awaits (some k)
      → Completes fi
      → Inv a c (record fi { lu_compl = some k })
  waiting-Inv fi k s n p =
      let o = p.open_ in
      let h = p.here in
      let x = p.authenticated in
      let y = p.ciphered in let z = p.subscribed in ground (arith, o, h, x, y, z)

  -- A new subscriber record and a call other than a rejection change nothing of it.
  pub moved :
      (fi : LuFsm) (vsub : LuSubscr) → Completes fi → Completes (record fi { vsub = some vsub })
  moved fi vsub p = ground arith

  pub called :
      (k : Call) (fi : LuFsm)
      → results (k ∷ []) ≡ 0
      → rejects (k ∷ []) ≡ 0
      → asks (k ∷ []) ≡ false
      → Completes fi
      → Completes (call k fi)
  called k fi h r q p = ground arith

  with_tmsi-Inv :
      (fi : LuFsm) (k : Compl) (vsub : LuSubscr) (o : Option ℕ)
      → is_compl_done k.state ≡ false
      → compl_out_state_mask k.state compl_wait_tmsi_cnf ≡ true
      → accepts fi.log ≡ 0
      → Completes fi
      → Inv a c (with_tmsi core env fi k vsub o)
  unfolding with_tmsi compl_state_chg masked
  with_tmsi-Inv fi k vsub none d m n p = failed-Inv fi k _ d p
  with_tmsi-Inv fi k vsub (some t) d m n p =
      let vsub' = record vsub { tmsi_new = some t } in
      let fi' = call (tx_lu_acc (some t) fi.lu_type) (record fi { vsub = some vsub' }) in
      rw m (
        waiting-Inv fi' (record k { state = compl_wait_tmsi_cnf }) refl (ap (λ m. 1 + m) n)
          (called (tx_lu_acc (some t) fi.lu_type) (record fi { vsub = some vsub' }) refl refl refl
            (moved fi vsub' p)))

  without_tmsi-Inv :
      (fi : LuFsm) (k : Compl) (vsub : LuSubscr)
      → is_compl_done k.state ≡ false
      → accepts fi.log ≡ 0
      → Completes fi
      → Inv a c (accept_without_tmsi core env fi k vsub)
  unfolding accept_without_tmsi
  without_tmsi-Inv fi k vsub d n p =
      let vsub' = record vsub { tmsi = none } in
      success_is-Inv (call (tx_lu_acc none fi.lu_type) (record fi { vsub = some vsub' })) k vsub' d
        (ap (λ m. 1 + m) n)
        (called (tx_lu_acc none fi.lu_type) (record fi { vsub = some vsub' }) refl refl refl
          (moved fi vsub' p))

  pub accept-Inv :
      (fi : LuFsm) (k : Compl) (vsub : LuSubscr)
      → may_accept k ≡ true
      → accepts fi.log ≡ 0
      → Completes fi
      → Inv a c (accept core env fi k vsub)
  unfolding accept lu_compl_vlr_new_tmsi
  accept-Inv fi k vsub m n p =
      if_elim (Inv a c) k.assign_tmsi
        (λ e. with_tmsi-Inv fi k vsub env.new_tmsi (ground (arith, m)) (ground (arith, m, e)) n p)
        (λ _. without_tmsi-Inv fi k vsub (ground (arith, m)) n p)

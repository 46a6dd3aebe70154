-- ===== src/Vlr/AccessRequest/Invariant.antt =====
-- libvlr/vlr_access_req_fsm.c: what holds of an access request between two events, and how the end
-- and a change of state keep it.
use osmo_msc.Base.{
  ℕ, ◌+◌, ◌≡◌, ◌≢◌, ◌⊎◌, Bool, true, false, ◌||◌, not, Option, none, some, List, [], ◌∷◌, is_some,
  if◌then◌else◌, arith, ◌∙◌, ap, sym, subst, refl,
}
use osmo_msc.Fsm.{OsmoFsm, masked}
use osmo_msc.Vlr.Reject.{RejectValue}
use osmo_msc.Vlr.AccessRequest.{
  State, init, wait_obtain_imsi, wait_auth, wait_ciph, wait_upd_loc_child, wait_sub_pres,
  wait_trace_sub, wait_check_imei, wait_tmsi_ack, wait_ceck_conf, done, Kind, Event, auth_no_info,
  auth_failure, call, ArqFsm, Env, Call, to_parent, is_asci, in_event_mask, out_state_mask,
  state_chg, fsm_done, post_pres, dispatch_result, onenter,
}

abbrev pub core : OsmoFsm State Kind
core = masked State Kind

abbrev pub results : List Call → ℕ
results [] = 0
results (to_parent e ∷ cs) = 1 + results cs
results (_ ∷ cs) = results cs

-- The states behind ciphering; in DONE, those of a successful result.
abbrev pub past_ciph : State → Option RejectValue → Bool
past_ciph wait_upd_loc_child r = true
past_ciph wait_sub_pres r = true
past_ciph wait_trace_sub r = true
past_ciph wait_check_imei r = true
past_ciph wait_tmsi_ack r = true
past_ciph done none = true
past_ciph _ _ = false

-- The states whose actions use the subscriber.
abbrev pub needs_subscr : State → Bool
needs_subscr init = false
needs_subscr wait_obtain_imsi = false
needs_subscr wait_ceck_conf = false
needs_subscr done = false
needs_subscr _ = true

abbrev pub is_done : State → Bool
is_done done = true
is_done _ = false

-- The states that WAIT_SUB_PRES, WAIT_UPD_LOC_CHILD and WAIT_CIPH may follow.
abbrev pub before_auth : State → Bool
before_auth init = true
before_auth wait_obtain_imsi = true
before_auth _ = false

abbrev pub before_ciph : State → Bool
before_ciph init = true
before_ciph wait_obtain_imsi = true
before_ciph wait_auth = true
before_ciph _ = false

abbrev pub before_upd_loc : State → Bool
before_upd_loc wait_ciph = true
before_upd_loc s = before_ciph s

abbrev pub before_pres : State → Bool
before_pres wait_upd_loc_child = true
before_pres s = before_upd_loc s

-- Ciphering has been commanded, if it is required at all and this is no group call; or a cause 0 has
-- been handed over, as `z` tells.
abbrev pub secured : Bool → ArqFsm → Bool
secured z fi =
    z || (not fi.is_ciphering_required || (is_asci fi.cm_service_type || fi.implicitly_accepted))

-- An end of the authentication that hands over the cause 0.
abbrev pub hands_zero : Event → Bool
hands_zero (auth_failure (some none)) = true
hands_zero (auth_no_info (some none)) = true
hands_zero _ = false

abbrev pub IsProper : Bool → Event → Type 0
IsProper z e = hands_zero e ≡ true → z ≡ true

pub record Inv (z : Bool) (fi : ArqFsm) : Type 0 where
  pub policy : fi.is_ciphering_required ≡ true → fi.is_ciphering_to_be_attempted ≡ true
  pub commanded : fi.state ≡ wait_ciph → fi.implicitly_accepted ≡ true
  pub secured_past : past_ciph fi.state fi.result ≡ true → secured z fi ≡ true
  pub subscribed : needs_subscr fi.state ≡ true → is_some fi.vsub ≡ true
  pub parent : fi.has_parent ≡ true
  pub one_result : results fi.log ≡ (if is_done fi.state then 1 else 0)

pub wait_sub_pres_allowed :
    (s : State) → before_pres s ≡ true → out_state_mask s wait_sub_pres ≡ true
unfolding out_state_mask
wait_sub_pres_allowed s h = ground arith

pub wait_upd_loc_allowed :
    (s : State) → before_upd_loc s ≡ true → out_state_mask s wait_upd_loc_child ≡ true
unfolding out_state_mask
wait_upd_loc_allowed s h = ground arith

pub wait_auth_allowed : (s : State) → before_auth s ≡ true → out_state_mask s wait_auth ≡ true
unfolding out_state_mask
wait_auth_allowed s h = ground arith

pub wait_ciph_allowed : (s : State) → before_ciph s ≡ true → out_state_mask s wait_ciph ≡ true
unfolding out_state_mask
wait_ciph_allowed s h = ground arith

-- There is a next instance, and it has the property.
abbrev pub Goes : (ArqFsm → Type 0) → Option ArqFsm → Type 0
Goes P none = ⊥
Goes P (some fi) = P fi

pub event_needs :
    (s : State) (k : Kind)
    → in_event_mask s k ≡ true
    → (s ≡ init) ⊎ ((s ≡ wait_obtain_imsi) ⊎ (needs_subscr s ≡ true))
unfolding in_event_mask
event_needs s k h = ground arith

module _ (z : Bool) (env : Env) where
  -- The entry to DONE only writes to the log, the parent's event exactly once.
  logged :
      (b : Bool) (fi : ArqFsm)
      → dispatch_result b fi ≡ record fi { log = (dispatch_result b fi).log }
  unfolding dispatch_result
  logged b fi = ground arith

  told_once :
      (b : Bool) (fi : ArqFsm)
      → fi.has_parent ≡ true
      → results (dispatch_result b fi).log ≡ 1 + results fi.log
  unfolding dispatch_result
  told_once b fi p = ground arith

  finished-Inv :
      (fi : ArqFsm) (r : Option RejectValue) (ls : List Call)
      → results ls ≡ 1
      → (is_some r ≡ false → secured z fi ≡ true)
      → Inv z fi
      → Inv z (record fi { state = done; result = r; log = ls })
  finished-Inv fi (some c) ls n w v = ground arith
  finished-Inv fi none ls n w v = let c : secured z fi ≡ true = w refl in ground arith

  entered-Inv :
      (fi : ArqFsm) (r : Option RejectValue)
      → is_done fi.state ≡ false
      → (is_some r ≡ false → secured z fi ≡ true)
      → Inv z fi
      → Inv z (dispatch_result env.serv_acc_ok (record fi { result = r; state = done }))
  entered-Inv fi r s w v =
      let fi' = record fi { result = r; state = done } in
      let n : results (dispatch_result env.serv_acc_ok fi').log ≡ 1 =
        told_once env.serv_acc_ok fi' v.parent
        ∙ ap (λ k. 1 + k) (v.one_result ∙ ap (λ b. if b then 1 else 0) s) in
      subst (Inv z) (sym (logged env.serv_acc_ok fi'))
        (finished-Inv fi r (dispatch_result env.serv_acc_ok fi').log n w v)

  done_allowed : (s : State) → is_done s ≡ false → s ≢ wait_ceck_conf → out_state_mask s done ≡ true
  unfolding out_state_mask
  done_allowed s h n = ground arith

  result-Inv :
      (fi : ArqFsm) (r : Option RejectValue)
      → is_done fi.state ≡ false
      → fi.state ≢ wait_ceck_conf
      → (is_some r ≡ false → secured z fi ≡ true)
      → Inv z fi
      → Inv z (fsm_done core env fi r)
  unfolding fsm_done masked onenter
  result-Inv fi r s n w v = rw (done_allowed fi.state s n) (entered-Inv fi r s w v)

  -- A negative result may be given in any state before the end.
  pub fsm_done-Inv :
      (fi : ArqFsm) (c : RejectValue)
      → is_done fi.state ≡ false
      → fi.state ≢ wait_ceck_conf
      → Inv z fi
      → Inv z (fsm_done core env fi (some c))
  fsm_done-Inv fi c s n v = result-Inv fi (some c) s n (λ e. ground arith) v

  pub post_pres-Inv :
      (fi : ArqFsm)
      → is_done fi.state ≡ false
      → fi.state ≢ wait_ceck_conf
      → secured z fi ≡ true
      → Inv z fi
      → Inv z (post_pres core env fi)
  unfolding post_pres
  post_pres-Inv fi s n c v = result-Inv fi none s n (λ e. c) v

  pub call-Inv : (c : Call) (fi : ArqFsm) → results (c ∷ []) ≡ 0 → Inv z fi → Inv z (call c fi)
  call-Inv c fi h v = ground arith

  -- A state other than the last is entered with what it promises.
  pub state_chg-Inv :
      (fi : ArqFsm) (t : State)
      → out_state_mask fi.state t ≡ true
      → is_done t ≡ false
      → is_done fi.state ≡ false
      → (t ≡ wait_ciph → fi.implicitly_accepted ≡ true)
      → (past_ciph t fi.result ≡ true → secured z fi ≡ true)
      → (needs_subscr t ≡ true → is_some fi.vsub ≡ true)
      → Inv z fi
      → Inv z (state_chg core env fi t)
  unfolding state_chg masked
  state_chg-Inv fi t m s n c p w v = rw m (ground arith)

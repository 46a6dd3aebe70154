-- ===== src/Vlr/LocationUpdate/Runs.antt =====
-- libvlr/vlr_lu_fsm.c: a location update, from its start through any events.
use osmo_msc.Base.{
  ◌<◌, ◌≡◌, refl, sym, subst, Bool, true, false, ◌&&◌, ◌||◌, Option, none, some, List, [], ◌∷◌,
  is_some, if◌then◌else◌, arith,
}
use osmo_msc.Fsm.{masked}
use osmo_msc.Vlr.Reject.{RejectValue}
use osmo_msc.Vlr.LocationUpdate.Types.{
  State, idle, wait_imeisv, wait_pvlr, wait_auth, wait_ciph, wait_imsi, wait_hlr_check_imei_early,
  wait_hlr_upd, wait_lu_compl, wait_lu_compl_standalone, done, Event, kind, LuSubscr, Env, LuFsm,
  Cores, PresKind,
}
use osmo_msc.Vlr.LocationUpdate.Masks.{in_event_mask}
use osmo_msc.Vlr.LocationUpdate.Completion.{to_sub_pres}
use osmo_msc.Vlr.LocationUpdate.Invariant.{core, needs_subscr, Inv, Inv-Open, lu_fsm_failure-Inv}
use osmo_msc.Vlr.LocationUpdate.Starting.{to_sub_pres-Inv}
use osmo_msc.Vlr.LocationUpdate.Steps.{rank, Ready, start_lu_main-Inv}
use osmo_msc.Vlr.LocationUpdate.Handlers.{
  is_outside, is_auth_success, is_ciph_compl, Inv-Ready, Ready-mono, Inv-mono, lu_fsm_idle-Inv,
  lu_fsm_wait_auth-Inv, lu_fsm_wait_ciph-Inv, lu_fsm_wait_hlr_check_imei_early-Inv,
  lu_fsm_wait_imsi-Inv,
}
use osmo_msc.Vlr.LocationUpdate.Dispatch.{lu_fsm_wait_hlr_ul_res-Inv, lu_fsm_wait_lu_compl-Inv}
use osmo_msc.Vlr.LocationUpdate.{
  action_with, action, refresh, dispatch, cancel_in, vlr_loc_update_cancel,
}

-- An input from outside: an event, the cancellation by another location update, or an event for
-- Subscriber_Present_VLR.
pub data Input : Type 0 where
  event : Event → Input
  cancelled : Option RejectValue → Input
  present : PresKind → Input

abbrev pub step : Cores → Env → LuFsm → Input → LuFsm
step cores env fi (event e) = dispatch cores env fi e
step cores env fi (cancelled cause) = vlr_loc_update_cancel cores env fi cause
step cores env fi (present k) = to_sub_pres cores env fi fi.lu_compl fi.vsub k

abbrev pub is_external : Input → Bool
is_external (event e) = is_outside e
is_external _ = true

-- The input is handled, and says that authentication succeeded, or that ciphering is complete.
abbrev pub authenticates : Cores → LuFsm → Input → Bool
authenticates cores fi (event e) =
    cores.lu.dispatch in_event_mask fi.state (kind e) && is_auth_success e
authenticates cores fi _ = false

abbrev pub ciphers : Cores → LuFsm → Input → Bool
ciphers cores fi (event e) = cores.lu.dispatch in_event_mask fi.state (kind e) && is_ciph_compl e
ciphers cores fi _ = false

abbrev is_idle : State → Bool
is_idle idle = true
is_idle _ = false

module _ (env : Env) where
  grown :
      (a c : Bool) (e : Event) {fi : LuFsm}
      → Inv a c fi
      → Inv (a || is_auth_success e) (c || is_ciph_compl e) fi
  grown a c e {fi} v = Inv-mono a c env (is_auth_success e) (is_ciph_compl e) fi v

  early :
      (a c : Bool) (fi : LuFsm) (vsub : LuSubscr)
      → rank fi.state < 6
      → fi.vsub ≡ some vsub
      → Inv a c fi
      → Ready a c fi
  early a c fi vsub h q v = Inv-Ready a c env fi h (rw q refl) v

  action_with-Inv :
      (a c : Bool) (s : State) (fi : LuFsm) (vsub : LuSubscr) (e : Event)
      → fi.state ≡ s
      → fi.vsub ≡ some vsub
      → in_event_mask s (kind e) ≡ true
      → is_outside e ≡ true
      → Inv a c fi
      → Inv (a || is_auth_success e) (c || is_ciph_compl e) (action_with core env s fi vsub e)
  unfolding action_with in_event_mask
  action_with-Inv a c wait_imeisv fi vsub e s q m h v = grown a c e (
      start_lu_main-Inv a c env fi vsub (ground (arith, s))
        (early a c fi vsub (ground (arith, s)) q v))
  action_with-Inv a c wait_auth fi vsub e s q m h v =
      lu_fsm_wait_auth-Inv a (c || is_ciph_compl e) env fi vsub e m (ground (arith, s)) (
        Ready-mono a c env (is_auth_success e) (is_ciph_compl e) fi
          (early a c fi vsub (ground (arith, s)) q v))
  action_with-Inv a c wait_ciph fi vsub e s q m h v =
      lu_fsm_wait_ciph-Inv (a || is_auth_success e) c env fi vsub e m
        (Ready-mono a c env (is_auth_success e) (is_ciph_compl e) fi
          (early a c fi vsub (ground (arith, s)) q v))
        ((Inv-mono a c env (is_auth_success e) false fi v).authenticated (rw s refl))
  action_with-Inv a c wait_imsi fi vsub e s q m h v = grown a c e (
      lu_fsm_wait_imsi-Inv a c env fi vsub e m (ground (arith, s))
        (early a c fi vsub (ground (arith, s)) q v))
  action_with-Inv a c wait_hlr_check_imei_early fi vsub e s q m h v = grown a c e (
      lu_fsm_wait_hlr_check_imei_early-Inv a c env fi vsub e m (ground (arith, s))
        (early a c fi vsub (ground (arith, s)) q v))
  action_with-Inv a c wait_hlr_upd fi vsub e s q m h v =
      grown a c e (lu_fsm_wait_hlr_ul_res-Inv a c env fi e s m h v)
  action_with-Inv a c wait_lu_compl fi vsub e s q m h v =
      grown a c e (lu_fsm_wait_lu_compl-Inv a c env fi e s m h v)
  action_with-Inv a c idle fi vsub e s q m h v = grown a c e v
  action_with-Inv a c done fi vsub e s q m h v = grown a c e v
  action_with-Inv a c wait_pvlr fi vsub e s q m h v = absurd (ground (arith, s, v.used))
  action_with-Inv a c wait_lu_compl_standalone fi vsub e s q m h v =
      absurd (ground (arith, s, v.used))

  no_subscr :
      {s : State} (e : Event) (fi : LuFsm)
      → is_idle s ≡ false
      → fi.state ≡ s
      → fi.vsub ≡ none
      → in_event_mask s (kind e) ≡ true
      → (needs_subscr fi.state ≡ true → is_some fi.vsub ≡ true)
      → ⊥
  unfolding in_event_mask
  no_subscr e fi i q r m u = ground arith

  action-Inv :
      (a c : Bool) (s : State) (fi : LuFsm) (o : Option LuSubscr) (e : Event)
      → fi.state ≡ s
      → fi.vsub ≡ o
      → in_event_mask s (kind e) ≡ true
      → is_outside e ≡ true
      → Inv a c fi
      → Inv (a || is_auth_success e) (c || is_ciph_compl e) (action core env s fi o e)
  unfolding action
  action-Inv a c idle fi o e q r m h v = grown a c e (lu_fsm_idle-Inv a c env fi env.found q v)
  action-Inv a c s fi (some vsub) e q r m h v = action_with-Inv a c s fi vsub e q r m h v
  action-Inv a c s fi none e q r m h v =
      let u = v.subscribed in absurd (no_subscr e fi refl q r m u)

  refresh-Inv : (a c : Bool) (fi : LuFsm) → Inv a c fi → Inv a c (refresh core env fi)
  unfolding refresh
  refresh-Inv a c fi v = ground arith

  state-refresh : (fi : LuFsm) → (refresh core env fi).state ≡ fi.state
  unfolding refresh
  state-refresh fi = ground arith

  chosen :
      (a c b : Bool) (fi : LuFsm) (e : Event)
      → in_event_mask fi.state (kind e) ≡ b
      → is_outside e ≡ true
      → Inv a c fi
      → Inv
          (a || (b && is_auth_success e))
          (c || (b && is_ciph_compl e))
          (if b then action core env fi.state fi fi.vsub e else fi)
  chosen a c true fi e m h v = action-Inv a c fi.state fi fi.vsub e refl refl m h v
  chosen a c false fi e m h v = Inv-mono a c env false false fi v

  dispatch-Inv :
      (a c : Bool) (fi : LuFsm) (e : Event)
      → is_outside e ≡ true
      → Inv a c fi
      → Inv
          (a || authenticates core fi (event e))
          (c || ciphers core fi (event e))
          (dispatch core env fi e)
  unfolding dispatch masked
  dispatch-Inv a c fi e h v =
      let fi' = refresh core env fi in
      subst
        (λ s.
          Inv (a || (in_event_mask s (kind e) && is_auth_success e))
            (c || (in_event_mask s (kind e) && is_ciph_compl e)) (dispatch core env fi e))
        (state-refresh fi)
        (chosen a c (in_event_mask fi'.state (kind e)) fi' e refl h (refresh-Inv a c fi v))

  cancel_in-Inv :
      (a c : Bool) (s : State) (fi : LuFsm) (cause : Option RejectValue)
      → fi.state ≡ s
      → Inv a c fi
      → Inv a c (cancel_in core env s fi cause)
  unfolding cancel_in
  cancel_in-Inv a c done fi cause q v = v
  cancel_in-Inv a c s fi cause q v = lu_fsm_failure-Inv a c fi cause (Inv-Open a c fi (rw q refl) v)

  pub vlr_loc_update_cancel-Inv :
      (a c : Bool) (fi : LuFsm) (cause : Option RejectValue)
      → Inv a c fi
      → Inv a c (vlr_loc_update_cancel core env fi cause)
  unfolding vlr_loc_update_cancel
  vlr_loc_update_cancel-Inv a c fi cause v = cancel_in-Inv a c fi.state fi cause refl v

  step-Inv :
      (a c : Bool) (fi : LuFsm) (i : Input)
      → is_external i ≡ true
      → Inv a c fi
      → Inv (a || authenticates core fi i) (c || ciphers core fi i) (step core env fi i)
  step-Inv a c fi (event e) h v = dispatch-Inv a c fi e h v
  step-Inv a c fi (cancelled cause) h v =
      Inv-mono a c env false false _ (vlr_loc_update_cancel-Inv a c fi cause v)
  step-Inv a c fi (present k) h v = Inv-mono a c env false false _ (to_sub_pres-Inv a c env fi k v)

-- A run over inputs, each in its environment, and what is handled in it.
unfoldable pub run : Cores → LuFsm → List (Env × Input) → LuFsm
run cores fi [] = fi
run cores fi ((env, i) ∷ is) = run cores (step cores env fi i) is

pub run_authenticates : Cores → LuFsm → List (Env × Input) → Bool
run_authenticates cores fi [] = false
run_authenticates cores fi ((env, i) ∷ is) =
    authenticates cores fi i || run_authenticates cores (step cores env fi i) is

pub run_ciphers : Cores → LuFsm → List (Env × Input) → Bool
run_ciphers cores fi [] = false
run_ciphers cores fi ((env, i) ∷ is) =
    ciphers cores fi i || run_ciphers cores (step cores env fi i) is

abbrev pub AllExternal : List (Env × Input) → Type 0
AllExternal [] = Unit
AllExternal ((env, i) ∷ is) = (is_external i ≡ true) × AllExternal is

or_false : (a : Bool) → (a || false) ≡ a
or_false a = ground arith

or_assoc : (a b d : Bool) → ((a || b) || d) ≡ (a || (b || d))
or_assoc a b d = ground arith

pub run_from-Inv :
    (a c : Bool) (fi : LuFsm) (is : List (Env × Input))
    → AllExternal is
    → Inv a c fi
    → Inv (a || run_authenticates core fi is) (c || run_ciphers core fi is) (run core fi is)
unfolding run run_authenticates run_ciphers
run_from-Inv a c fi [] h v = rw (or_false a, or_false c) v
run_from-Inv a c fi ((env, i) ∷ is) h v =
    rw
      (
        sym (or_assoc a (authenticates core fi i) (run_authenticates core (step core env fi i) is)),
        sym (or_assoc c (ciphers core fi i) (run_ciphers core (step core env fi i) is)),
      )
      (run_from-Inv (a || authenticates core fi i) (c || ciphers core fi i) (step core env fi i) is
        h.1 (step-Inv env a c fi i h.0 v))

-- A new instance, as vlr_loc_update() is called on it.
abbrev pub IsFresh : LuFsm → Type 0
IsFresh fi =
    (fi.state ≡ idle)
    × (fi.has_parent ≡ true)
    × (fi.live ≡ true)
    × (fi.assert_failed ≡ false)
    × (fi.lu_compl ≡ none)
    × (fi.log ≡ [])
    × (fi.is_ciphering_required ≡ true → fi.is_ciphering_to_be_attempted ≡ true)

pub IsFresh-Inv : (fi : LuFsm) → IsFresh fi → Inv false false fi
IsFresh-Inv fi h = ground arith

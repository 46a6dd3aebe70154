-- ===== src/Vlr/LocationUpdate/Security.antt =====
-- libvlr/vlr_lu_fsm.c: a location update is as secured as the network asks, and can always be ended.
use osmo_msc.Base.{◌≡◌, refl, ap, ◌∙◌, Bool, true, false, Option, List}
use osmo_msc.Fsm.{for_every_core}
use osmo_msc.Vlr.Reject.{RejectValue}
use osmo_msc.Vlr.LocationUpdate.Types.{State, done, Env, LuFsm, Cores}
use osmo_msc.Vlr.LocationUpdate.Result.{lu_fsm_failure}
use osmo_msc.Vlr.LocationUpdate.Invariant.{core, Inv}
use osmo_msc.Vlr.LocationUpdate.{cancel_in, vlr_loc_update_cancel}
use osmo_msc.Vlr.LocationUpdate.Types.{failure, tx_lu_rej}
use osmo_msc.Vlr.LocationUpdate.Invariant.{results, ended}
use osmo_msc.Vlr.LocationUpdate.Result.{call, cause_or_failure, inst_term}
use osmo_msc.Vlr.LocationUpdate.Runs.{
  Input, run, run_authenticates, run_ciphers, AllExternal, IsFresh, IsFresh-Inv, run_from-Inv,
  vlr_loc_update_cancel-Inv,
}

-- What holds over `core` holds over any cores.
for_all_cores : (P : Cores → Type 0) → P core → (cores : Cores) → P cores
for_all_cores P p cores =
    for_every_core (λ l. P (record cores { lu = l }))
      (for_every_core (λ k. P (record cores { lu = core.lu; compl = k }))
        (for_every_core (λ u. P (record cores { lu = core.lu; compl = core.compl; upd = u }))
          (for_every_core
            (λ h. P (record { lu = core.lu; compl = core.compl; upd = core.upd; pres = h })) p
            cores.pres)
          cores.upd)
        cores.compl)
      cores.lu

-- What holds of a run of a location update, over the cores it runs on.
abbrev pub Secured : LuFsm → List (Env × Input) → Cores → Type 0
Secured fi is cores =
    Inv (run_authenticates cores fi is) (run_ciphers cores fi is) (run cores fi is)

-- A location update under a consistent policy, through any inputs from outside, on any cores: no
-- assertion fails and no null subscriber is met. It comes to a success only after the success of
-- the authentication was handled where authentication is required, and after the completion of
-- ciphering was handled where ciphering is required, and an update request goes to the HLR only then,
-- too (the early check of an IMEI may go to it before). The phone has
-- been accepted once in a success, and rejected once in a failure and never otherwise; the parent
-- has been told one result in DONE and none before, and the instance is terminated exactly then. The
-- request to the HLR is under way in WAIT_HLR_UPD, and the completion waits for something in
-- WAIT_LU_COMPL and is not there in any other state.
pub run-Secured :
    (cores : Cores) (fi : LuFsm) (is : List (Env × Input))
    → IsFresh fi
    → AllExternal is
    → Secured fi is cores
run-Secured cores fi is f h =
    for_all_cores (Secured fi is) (run_from-Inv false false fi is h (IsFresh-Inv fi f)) cores

-- A cancelled location update.
abbrev pub IsEnded : LuFsm → Type 0
IsEnded fi = (fi.state ≡ done) × (fi.live ≡ false) × (results fi.log ≡ 1)

module _ (env : Env) (cause : Option RejectValue) where
  cancel_in-done :
      (s : State) (fi : LuFsm)
      → fi.state ≡ s
      → fi.has_parent ≡ true
      → (cancel_in core env s fi cause).state ≡ done
  unfolding cancel_in lu_fsm_failure inst_term
  cancel_in-done done fi q p = q
  cancel_in-done s fi q p =
      ap (λ fi. fi.state)
        (ended false false (call (tx_lu_rej (cause_or_failure cause) fi.lu_type) fi) failure
          (rw q refl) p)

  cancelled-IsEnded :
      {a c : Bool} (fi : LuFsm) → Inv a c fi → IsEnded (vlr_loc_update_cancel core env fi cause)
  unfolding vlr_loc_update_cancel
  cancelled-IsEnded {a} {c} fi v =
      let d = cancel_in-done fi.state fi refl v.parent in
      let w = vlr_loc_update_cancel-Inv env a c fi cause v in
      (d, w.alive ∙ rw d refl, w.told ∙ rw d refl)

  -- At any point of a location update under a consistent policy, its cancellation ends it: it is in
  -- DONE, terminated, and the parent has been told exactly one result, also where it had come to its
  -- end before.
  pub run-vlr_loc_update_cancel :
      (cores : Cores) (fi : LuFsm) (is : List (Env × Input))
      → IsFresh fi
      → AllExternal is
      → IsEnded (vlr_loc_update_cancel cores env (run cores fi is) cause)
  run-vlr_loc_update_cancel cores fi is f h =
      for_all_cores (λ cores. IsEnded (vlr_loc_update_cancel cores env (run cores fi is) cause))
        (cancelled-IsEnded _ (run_from-Inv false false fi is h (IsFresh-Inv fi f))) cores

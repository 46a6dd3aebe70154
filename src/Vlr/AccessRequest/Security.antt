-- ===== src/Vlr/AccessRequest/Security.antt =====
-- libvlr/vlr_access_req_fsm.c: an access is granted only as secured as the network asks, and the
-- parent hears of exactly one result.
use osmo_msc.Base.{
  ◌≡◌, true, false, ◌&&◌, ◌||◌, Bool, not, Option, none, some, List, [], ◌∷◌, arith,
}
use osmo_msc.Fsm.{OsmoFsm}
use osmo_msc.Vlr.AccessRequest.{State, init, Kind, Event, ArqFsm, Env, dispatch}
use osmo_msc.Vlr.AccessRequest.Invariant.{hands_zero}

-- A run over events, each in its environment.
unfoldable pub run : OsmoFsm State Kind → Option ArqFsm → List (Env × Event) → Option ArqFsm
run c r [] = r
run c none ((env, e) ∷ es) = none
run c (some fi) ((env, e) ∷ es) = run c (dispatch c env fi e) es

-- Some end of the authentication among them hands over the cause 0.
abbrev pub any_zero : List (Env × Event) → Bool
any_zero [] = false
any_zero ((env, e) ∷ es) = hands_zero e || any_zero es

-- A fresh request, under a policy where what is required is also attempted.
abbrev pub IsFresh : ArqFsm → Type 0
IsFresh fi =
    (fi.state ≡ init)
    × (fi.has_parent ≡ true)
    × (fi.log ≡ [])
    × (fi.is_ciphering_required ≡ true → fi.is_ciphering_to_be_attempted ≡ true)

pub policy_asserted :
    (fi : ArqFsm)
    → IsFresh fi
    → (fi.is_ciphering_required && not fi.is_ciphering_to_be_attempted) ≡ false
policy_asserted fi h = ground arith

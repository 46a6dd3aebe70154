-- ===== src/Vlr/LocationUpdate/Invariant.antt =====
-- libvlr/vlr_lu_fsm.c: what holds of a location update between two events, and how its end and the
-- changes of state establish it.
use osmo_msc.Base.{
  ℕ, ◌+◌, ◌≡◌, refl, sym, ap, subst, Bool, true, false, ◌&&◌, ◌||◌, not, Option, none, some, List,
  [], ◌∷◌, is_some, if◌then◌else◌, arith,
}
use osmo_msc.Fsm.{masked}
use osmo_msc.Vlr.Reject.{RejectValue}
use osmo_msc.Vlr.LocationUpdate.Types.{
  State, idle, wait_pvlr, wait_ciph, wait_hlr_upd, wait_lu_compl, wait_lu_compl_standalone, done,
  ComplState, compl_wait_sub_pres, compl_wait_imei, compl_wait_imei_tmsi, compl_wait_tmsi_cnf,
  UpdState, upd_wait_for_data, FsmResult, success, failure, Call, req_lu, tx_lu_acc, tx_lu_rej,
  to_parent, Compl, LuFsm, Cores,
}
use osmo_msc.Vlr.LocationUpdate.Masks.{out_state_mask}
use osmo_msc.Vlr.LocationUpdate.Result.{
  call, is_success, inst_term, dispatch_result, onenter, state_chg, lu_fsm_done, lu_fsm_failure,
  cause_or_failure,
}

abbrev pub core : Cores
core = record {
  lu = masked State _;
  compl = masked ComplState _;
  upd = masked UpdState _;
  pres = masked _ _;
}

-- How often the parent was told, and the phone rejected or accepted.
abbrev pub results : List Call → ℕ
results [] = 0
results (to_parent e ∷ cs) = 1 + results cs
results (_ ∷ cs) = results cs

abbrev pub rejects : List Call → ℕ
rejects [] = 0
rejects (tx_lu_rej r t ∷ cs) = 1 + rejects cs
rejects (_ ∷ cs) = rejects cs

abbrev pub accepts : List Call → ℕ
accepts [] = 0
accepts (tx_lu_acc m t ∷ cs) = 1 + accepts cs
accepts (_ ∷ cs) = accepts cs

-- The HLR is asked for an update.
abbrev pub asks : List Call → Bool
asks [] = false
asks (req_lu ∷ cs) = true
asks (_ ∷ cs) = asks cs

abbrev pub is_done : State → Bool
is_done done = true
is_done _ = false

abbrev pub needs_subscr : State → Bool
needs_subscr idle = false
needs_subscr done = false
needs_subscr _ = true

-- The states behind authentication and behind ciphering; in DONE, those of a success.
abbrev pub past_ciph : State → FsmResult → Bool
past_ciph wait_hlr_upd r = true
past_ciph wait_lu_compl r = true
past_ciph wait_lu_compl_standalone r = true
past_ciph done r = is_success r
past_ciph _ r = false

abbrev pub past_auth : State → FsmResult → Bool
past_auth wait_ciph r = true
past_auth s r = past_ciph s r

-- The previous VLR is never asked, and there is no standalone mode.
abbrev pub is_used : State → Bool
is_used wait_pvlr = false
is_used wait_lu_compl_standalone = false
is_used _ = true

abbrev is_update : UpdState → Bool
is_update upd_wait_for_data = true
is_update _ = false

abbrev pub updates : State → Option UpdState → Bool
updates wait_hlr_upd none = false
updates wait_hlr_upd (some s) = is_update s
updates _ _ = true

abbrev pub is_settled : ComplState → (assign_tmsi : Bool) → Bool
is_settled compl_wait_sub_pres b = true
is_settled compl_wait_imei b = not b
is_settled compl_wait_imei_tmsi b = true
is_settled compl_wait_tmsi_cnf b = true
is_settled _ b = false

-- The completion is there, and waits for something, exactly in WAIT_LU_COMPL.
abbrev pub completes : State → Option Compl → Bool
completes wait_lu_compl none = false
completes wait_lu_compl (some c) = is_settled c.state c.assign_tmsi
completes _ none = true
completes _ (some c) = false

-- The completion waits for the phone to confirm its TMSI: the accept has been sent.
abbrev pub awaits : Option Compl → ℕ
awaits none = 0
awaits (some c) = elim c.state [ compl_wait_tmsi_cnf ↦ 1 | _ ↦ 0 ]

done_allowed : (s : State) → is_done s ≡ false → out_state_mask s done ≡ true
unfolding out_state_mask
done_allowed s h = ground arith

-- With `a` for a successful authentication and `c` for completed ciphering so far.
module _ (a c : Bool) where
  abbrev pub auth_ok : LuFsm → Bool
  auth_ok fi = not fi.authentication_required || a

  abbrev pub ciph_ok : LuFsm → Bool
  ciph_ok fi = not fi.is_ciphering_required || c

  -- An instance that has not come to its end.
  pub record Open (fi : LuFsm) : Type 0 where
    pub policy : fi.is_ciphering_required ≡ true → fi.is_ciphering_to_be_attempted ≡ true
    pub parent : fi.has_parent ≡ true
    pub no_assert : fi.assert_failed ≡ false
    pub alive : fi.live ≡ true
    pub untold : results fi.log ≡ 0
    pub unrejected : rejects fi.log ≡ 0
    pub going : is_done fi.state ≡ false
    pub asked : asks fi.log ≡ true → (auth_ok fi && ciph_ok fi) ≡ true

  pub record Inv (fi : LuFsm) : Type 0 where
    pub policy : fi.is_ciphering_required ≡ true → fi.is_ciphering_to_be_attempted ≡ true
    pub parent : fi.has_parent ≡ true
    pub no_assert : fi.assert_failed ≡ false
    pub alive : fi.live ≡ not (is_done fi.state)
    pub told : results fi.log ≡ (if is_done fi.state then 1 else 0)
    pub rejected :
        rejects fi.log ≡ (if is_done fi.state && not (is_success fi.result) then 1 else 0)
    pub accepted_before : is_done fi.state ≡ false → accepts fi.log ≡ awaits fi.lu_compl
    pub accepted : is_done fi.state ≡ true → is_success fi.result ≡ true → accepts fi.log ≡ 1
    pub authenticated : past_auth fi.state fi.result ≡ true → auth_ok fi ≡ true
    pub ciphered : past_ciph fi.state fi.result ≡ true → ciph_ok fi ≡ true
    pub asked : asks fi.log ≡ true → (auth_ok fi && ciph_ok fi) ≡ true
    pub subscribed : needs_subscr fi.state ≡ true → is_some fi.vsub ≡ true
    pub used : is_used fi.state ≡ true
    pub updating : updates fi.state fi.upd_hlr ≡ true
    pub completing : completes fi.state fi.lu_compl ≡ true

  pub Inv-Open : (fi : LuFsm) → is_done fi.state ≡ false → Inv fi → Open fi
  Inv-Open fi s v = ground arith

  -- The end, as dispatch_result() makes it.
  pub ended :
      (fi : LuFsm) (r : FsmResult)
      → is_done fi.state ≡ false
      → fi.has_parent ≡ true
      → lu_fsm_done core fi r
        ≡ inst_term
            (record fi { state = done; result = r })
            (if is_success r then fi.parent_event_success else fi.parent_event_failure)
  unfolding lu_fsm_done state_chg masked onenter dispatch_result
  ended fi r g p = rw (done_allowed fi.state g, p) refl

  inst_term-Inv :
      (fi : LuFsm) (e : ℕ)
      → fi.state ≡ done
      → (fi.is_ciphering_required ≡ true → fi.is_ciphering_to_be_attempted ≡ true)
      → fi.has_parent ≡ true
      → fi.assert_failed ≡ false
      → results fi.log ≡ 0
      → rejects fi.log ≡ (if is_success fi.result then 0 else 1)
      → (is_success fi.result ≡ true → accepts fi.log ≡ 1)
      → (is_success fi.result ≡ true → auth_ok fi ≡ true)
      → (is_success fi.result ≡ true → ciph_ok fi ≡ true)
      → (asks fi.log ≡ true → (auth_ok fi && ciph_ok fi) ≡ true)
      → Inv (inst_term fi e)
  unfolding inst_term
  inst_term-Inv fi e s p h n t r k x y z = ground arith

  -- A rejection may be given at any time before the end.
  pub lu_fsm_failure-Inv :
      (fi : LuFsm) (cause : Option RejectValue) → Open fi → Inv (lu_fsm_failure core fi cause)
  unfolding lu_fsm_failure
  lu_fsm_failure-Inv fi cause o =
      let fi' = call (tx_lu_rej (cause_or_failure cause) fi.lu_type) fi in
      subst Inv (sym (ended fi' failure o.going o.parent)) (
        inst_term-Inv (record fi' { state = done; result = failure }) _ refl o.policy o.parent
          o.no_assert o.untold (ap (λ n. 1 + n) o.unrejected) (λ h. cc) (λ h. cc) (λ h. cc) o.asked)

  pub success-Inv :
      (fi : LuFsm)
      → Open fi
      → accepts fi.log ≡ 1
      → auth_ok fi ≡ true
      → ciph_ok fi ≡ true
      → Inv (lu_fsm_done core fi success)
  success-Inv fi o k x y = subst Inv (sym (ended fi success o.going o.parent)) (
      inst_term-Inv (record fi { state = done; result = success }) _ refl o.policy o.parent
        o.no_assert o.untold o.unrejected (λ _. k) (λ _. x) (λ _. y) o.asked)

  -- A state other than the last two and WAIT_HLR_UPD is entered with what it promises.
  pub state_chg-Inv :
      (fi : LuFsm) (t : State)
      → out_state_mask fi.state t ≡ true
      → (is_used t && (not (past_ciph t fi.result) && not (is_done t))) ≡ true
      → (past_auth t fi.result ≡ true → auth_ok fi ≡ true)
      → is_some fi.vsub ≡ true
      → accepts fi.log ≡ 0
      → fi.lu_compl ≡ none
      → Open fi
      → Inv (state_chg core fi t)
  unfolding state_chg masked onenter
  state_chg-Inv fi t m u h w k n o = rw m (ground arith)

-- ===== src/Vlr/AccessRequest/Unanswered.antt =====
-- libvlr/vlr_access_req_fsm.c: what becomes of an access request whose authentication runs into the
-- timer of its machine (libvlr/vlr_auth_fsm.c), which hands over the cause 0.
use osmo_msc.Base.{
  ℕ, ◌≡◌, Bool, true, false, Option, none, some, List, [], ◌∷◌, ◌&&◌, is_some, not, arith,
}
use osmo_msc.Fsm.{OsmoFsm, masked, for_every_core}
use osmo_msc.Vlr.AccessRequest.{
  State, wait_auth, done, Kind, auth_failure, start, ArqSubscr, ArqFsm, Env, Call, to_parent,
  in_event_mask, out_state_mask, is_cm_serv_req, MobileId, mi_imsi, mi_tmsi, mi_other, proc_acc_req,
  dispatch, refresh, dispatch_result, onenter, cleanup, fsm_done, state_chg, fn_init, with_subscr,
  post_imsi, post_imsi_by, auth_to_be_attempted, fn_w_auth, action_with, action_by,
}
use osmo_msc.Vlr.AccessRequest.Invariant.{core, Goes}
use osmo_msc.Vlr.AccessRequest.Security.{IsFresh, policy_asserted, run}

abbrev pub is_identity : MobileId → Bool
is_identity mi_other = false
is_identity _ = true

-- What the parent was told last.
abbrev pub told : List Call → Option ℕ
told [] = none
told (to_parent e ∷ cs) = some e
told (c ∷ cs) = told cs

record Waits (fi w : ArqFsm) : Type 0 where
  here : w.state ≡ wait_auth
  known : is_some w.vsub ≡ true
  parent : w.has_parent ≡ true
  success : w.parent_event_success ≡ fi.parent_event_success
  type : w.type ≡ fi.type

-- Access is granted: DONE without a cause, and the parent has been told so.
abbrev pub Granted : ArqFsm → ArqFsm → Type 0
Granted fi w = (w.state ≡ done) × (w.result ≡ none) × (told w.log ≡ some fi.parent_event_success)

module _ (env : Env) (fi : ArqFsm) where
  started :
      (b : Bool) (vsub : ArqSubscr)
      → IsFresh fi
      → fi.authentication_required ≡ true
      → env.found ≡ some vsub
      → env.assoc_ok ≡ true
      → Goes (Waits fi) (dispatch core env (record fi { by_tmsi = b }) start)
  unfolding dispatch refresh masked in_event_mask action_by fn_init with_subscr post_imsi
      post_imsi_by auth_to_be_attempted state_chg out_state_mask onenter
  started b vsub f a v s = ground arith

  proc_started :
      (mi : MobileId) (vsub : ArqSubscr)
      → is_identity mi ≡ true
      → IsFresh fi
      → fi.authentication_required ≡ true
      → env.found ≡ some vsub
      → env.assoc_ok ≡ true
      → Goes (Waits fi) (proc_acc_req core env mi fi)
  unfolding proc_acc_req
  proc_started mi_imsi vsub m f a v s = rw (policy_asserted fi f) (started false vsub f a v s)
  proc_started mi_tmsi vsub m f a v s = rw (policy_asserted fi f) (started true vsub f a v s)
  proc_started mi_other vsub m f a v s = absurd (ground (arith, m))

  ended :
      (w : ArqFsm)
      → (is_cm_serv_req fi.type && not env.serv_acc_ok) ≡ false
      → Waits fi w
      → Goes (Granted fi) (dispatch core env w (auth_failure (some none)))
  unfolding dispatch refresh masked in_event_mask action_by action_with fn_w_auth fsm_done
      out_state_mask onenter dispatch_result cleanup
  ended w c p = ground arith

  run_ended :
      (r : Option ArqFsm)
      → (is_cm_serv_req fi.type && not env.serv_acc_ok) ≡ false
      → Goes (Waits fi) r
      → Goes (Granted fi) (run core r ((env, auth_failure (some none)) ∷ []))
  unfolding run
  run_ended none c p = p
  run_ended (some w) c p = ran (dispatch core env w (auth_failure (some none))) (ended w c p)
    where
      ran : (r : Option ArqFsm) → Goes (Granted fi) r → Goes (Granted fi) (run core r [])
      ran none g = g
      ran (some w) g = g

-- A request that requires authentication, of a subscriber that is known by its IMSI or TMSI and can be
-- associated with its connection: if AUTH_FAILURE hands over the cause 0, access is granted. The
-- request ends without a cause and the parent is told of a success, though the authentication has not
-- succeeded and whether or not ciphering is required. The acceptance of a CM service request is taken
-- to be sent.
pub run-auth_failure :
    (c : OsmoFsm State Kind) (env env' : Env) (mi : MobileId) (fi : ArqFsm) (vsub : ArqSubscr)
    → is_identity mi ≡ true
    → IsFresh fi
    → fi.authentication_required ≡ true
    → env.found ≡ some vsub
    → env.assoc_ok ≡ true
    → (is_cm_serv_req fi.type && not env'.serv_acc_ok) ≡ false
    → Goes (Granted fi) (run c (proc_acc_req c env mi fi) ((env', auth_failure (some none)) ∷ []))
run-auth_failure c env env' mi fi vsub m f a v s k =
    for_every_core
      (λ c.
        Goes (Granted fi)
          (run c (proc_acc_req c env mi fi) ((env', auth_failure (some none)) ∷ [])))
      (run_ended env' fi _ k (proc_started env fi mi vsub m f a v s)) c

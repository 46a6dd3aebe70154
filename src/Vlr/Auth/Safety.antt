-- ===== src/Vlr/Auth/Safety.antt =====
-- libvlr/vlr_auth_fsm.c: how an authentication comes to its end.
use osmo_msc.Base.{
  sym, subst, ◌%◌, ◌≡◌, ◌≢◌, refl, ◌⊎◌, inl, inr, Bool, true, false, Option, none, some, [], ◌∷◌,
  arith,
}
use osmo_msc.Fsm.{OsmoFsm, masked, for_every_core}
use osmo_msc.Vlr.Subscr.{Subscr}
use osmo_msc.Vlr.Reject.{GmmCause, RejectValue, gmm_cause_to_reject_cause_domain}
use osmo_msc.Vlr.Auth.Response.{IsPass, Accepts, check_auth_resp-Accepts}
use osmo_msc.Vlr.Auth.{
  State, needs_auth, needs_auth_wait_ai, wait_resp, authenticated, needs_auth_wait_sai_resync,
  wait_resp_resync, wait_id_imsi, Kind, Event, AuthRespPar, AuthFsm, AuthResult, failure,
  no_auth_info, passed, hlr_sai_ack, hlr_sai_nack, hlr_sai_abort, ms_auth_resp, ms_auth_fail,
  terminated, on_needs_auth, on_wait_ai, on_wait_auth_resp, on_wait_ai_resync,
  on_wait_auth_resp_resync, on_wait_imsi, wait_ai_pass, wait_ai_error, resp_verdict, check_par,
  action, dispatch, out_state_mask, auth_fsm_term, authenticate,
}

abbrev core : OsmoFsm State Kind
core = masked State Kind

abbrev is_authenticated : State → Bool
is_authenticated authenticated = true
is_authenticated _ = false

-- Success is told to the parent, for a response that was verified.
abbrev Verified : AuthFsm → Event → AuthFsm → Type 0
Verified fi (ms_auth_resp par) fi' =
    IsPass (check_par fi par) × (fi'.log ≡ terminated fi.parent_event_success none ∷ fi.log)
Verified fi _ fi' = ⊥

resp_verdict_verified :
    (fi : AuthFsm) (c : RejectValue) (r : Option (Bool × Subscr))
    → (fi.state ≡ wait_resp) ⊎ (fi.state ≡ wait_resp_resync)
    → is_authenticated (resp_verdict core fi c r).state ≡ true
    → IsPass r × ((resp_verdict core fi c r).log ≡ terminated fi.parent_event_success none ∷ fi.log)
unfolding resp_verdict masked out_state_mask
resp_verdict_verified fi c none s h = ground arith
resp_verdict_verified fi c (some (true, w)) s h = ground arith
resp_verdict_verified fi c (some (false, w)) s h = ground arith

authenticate_not_yet :
    (fi : AuthFsm)
    → is_authenticated fi.state ≡ false
    → is_authenticated (authenticate core fi).state ≡ false
unfolding authenticate masked out_state_mask
authenticate_not_yet fi h = ground arith

on_needs_auth_not_yet :
    (fi : AuthFsm) → fi.state ≡ needs_auth → is_authenticated (on_needs_auth core fi).state ≡ false
unfolding on_needs_auth masked out_state_mask
on_needs_auth_not_yet fi h = ground arith

wait_ai_error_not_yet :
    (fi : AuthFsm) (r : AuthResult) (c : RejectValue)
    → r ≢ passed
    → fi.state ≡ needs_auth_wait_ai
    → is_authenticated (wait_ai_error core fi r c).state ≡ false
unfolding wait_ai_error masked out_state_mask
wait_ai_error_not_yet fi r c n h = ground arith

auth_fsm_term_not_yet :
    (fi : AuthFsm) (r : AuthResult) (c : Option RejectValue)
    → r ≢ passed
    → is_authenticated fi.state ≡ false
    → is_authenticated (auth_fsm_term core fi r c).state ≡ false
unfolding auth_fsm_term masked out_state_mask
auth_fsm_term_not_yet fi r c n h = ground arith

on_wait_ai_not_yet :
    (fi : AuthFsm) (e : Event)
    → fi.state ≡ needs_auth_wait_ai
    → is_authenticated (on_wait_ai core fi e).state ≡ false
unfolding on_wait_ai wait_ai_pass masked out_state_mask
on_wait_ai_not_yet fi (hlr_sai_ack []) h = wait_ai_error_not_yet fi failure _ (λ h. cc) h
on_wait_ai_not_yet fi (hlr_sai_ack (vec ∷ vecs)) h = ground arith
on_wait_ai_not_yet fi (hlr_sai_nack GmmCause.imsi_unknown) h =
    auth_fsm_term_not_yet fi no_auth_info
      (some (gmm_cause_to_reject_cause_domain GmmCause.imsi_unknown true)) (λ h. cc) (ground arith)
on_wait_ai_not_yet fi (hlr_sai_nack _) h = wait_ai_error_not_yet fi no_auth_info _ (λ h. cc) h
on_wait_ai_not_yet fi (hlr_sai_abort _) h = wait_ai_error_not_yet fi failure _ (λ h. cc) h
on_wait_ai_not_yet fi _ h = ground arith

on_wait_ai_resync_not_yet :
    (fi : AuthFsm) (e : Event)
    → fi.state ≡ needs_auth_wait_sai_resync
    → is_authenticated (on_wait_ai_resync core fi e).state ≡ false
unfolding on_wait_ai_resync masked out_state_mask
on_wait_ai_resync_not_yet fi (hlr_sai_ack []) h = ground arith
on_wait_ai_resync_not_yet fi (hlr_sai_ack (vec ∷ vecs)) h = ground arith
on_wait_ai_resync_not_yet fi (hlr_sai_nack GmmCause.imsi_unknown) h = ground arith
on_wait_ai_resync_not_yet fi (hlr_sai_nack _) h = ground arith
on_wait_ai_resync_not_yet fi (hlr_sai_abort _) h = ground arith
on_wait_ai_resync_not_yet fi _ h = ground arith

on_wait_imsi_not_yet :
    (fi : AuthFsm) (e : Event)
    → fi.state ≡ wait_id_imsi
    → is_authenticated (on_wait_imsi core fi e).state ≡ false
unfolding on_wait_imsi masked out_state_mask
on_wait_imsi_not_yet fi e h = ground arith

on_wait_auth_resp-Verified :
    (fi : AuthFsm) (e : Event)
    → fi.state ≡ wait_resp
    → is_authenticated (on_wait_auth_resp core fi e).state ≡ true
    → Verified fi e (on_wait_auth_resp core fi e)
unfolding on_wait_auth_resp masked out_state_mask
on_wait_auth_resp-Verified fi (ms_auth_resp par) s h =
    resp_verdict_verified fi _ (check_par fi par) (inl s) h
on_wait_auth_resp-Verified fi (ms_auth_fail par) s h = ground arith
on_wait_auth_resp-Verified fi _ s h = ground arith

on_wait_auth_resp_resync-Verified :
    (fi : AuthFsm) (e : Event)
    → fi.state ≡ wait_resp_resync
    → is_authenticated (on_wait_auth_resp_resync core fi e).state ≡ true
    → Verified fi e (on_wait_auth_resp_resync core fi e)
unfolding on_wait_auth_resp_resync masked out_state_mask
on_wait_auth_resp_resync-Verified fi (ms_auth_resp par) s h =
    resp_verdict_verified fi _ (check_par fi par) (inr s) h
on_wait_auth_resp_resync-Verified fi (ms_auth_fail par) s h = ground arith
on_wait_auth_resp_resync-Verified fi _ s h = ground arith

action-Verified :
    (fi : AuthFsm) (s : State) (e : Event)
    → fi.state ≡ s
    → is_authenticated s ≡ false
    → is_authenticated (action core s fi e).state ≡ true
    → Verified fi e (action core s fi e)
unfolding action
action-Verified fi needs_auth e s n h =
    let no_yet = on_needs_auth_not_yet fi s in absurd (ground arith)
action-Verified fi needs_auth_wait_ai e s n h =
    let not_yet = on_wait_ai_not_yet fi e s in absurd (ground arith)
action-Verified fi wait_resp e s n h = on_wait_auth_resp-Verified fi e s h
action-Verified fi needs_auth_wait_sai_resync e s n h =
    let not_yet = on_wait_ai_resync_not_yet fi e s in absurd (ground arith)
action-Verified fi wait_resp_resync e s n h = on_wait_auth_resp_resync-Verified fi e s h
action-Verified fi wait_id_imsi e s n h =
    let not_yet = on_wait_imsi_not_yet fi e s in absurd (ground arith)
action-Verified fi _ e s n h = absurd (ground arith)

dispatch_cases :
    (fi : AuthFsm) (e : Event)
    → (dispatch core fi e ≡ action core fi.state fi e) ⊎ (dispatch core fi e ≡ fi)
unfolding dispatch
dispatch_cases fi e = ground arith

dispatch-Verified :
    (fi : AuthFsm) (e : Event)
    → is_authenticated fi.state ≡ false
    → is_authenticated (dispatch core fi e).state ≡ true
    → Verified fi e (dispatch core fi e)
dispatch-Verified fi e n = elim (dispatch_cases fi e) [
  | inl p ↦ subst Goal (sym p) (action-Verified fi fi.state e refl n)
  | inr p ↦ subst Goal (sym p) (λ h. absurd (ground arith))
]
  where
    Goal : AuthFsm → Type 0
    Goal x = is_authenticated x.state ≡ true → Verified fi e x

-- What a verified event was.
abbrev pub SuccessBy : AuthFsm → Event → AuthFsm → Type 0
SuccessBy fi e fi' =
    (par : AuthRespPar) × (e ≡ ms_auth_resp par)
    × Accepts fi.vsub par.is_r99 par.is_utran par.res (par.res_len % 256)
    × (fi'.log ≡ terminated fi.parent_event_success none ∷ fi.log)

Verified-SuccessBy :
    (fi : AuthFsm) (e : Event) (fi' : AuthFsm) → Verified fi e fi' → SuccessBy fi e fi'
unfolding check_par
Verified-SuccessBy fi (ms_auth_resp par) fi' h = (
  par,
  refl,
  check_auth_resp-Accepts fi.vsub par.is_r99 par.is_utran par.res (par.res_len % 256) h.0,
  h.1,
)
Verified-SuccessBy fi _ fi' h = absurd h

-- A step into AUTHENTICATED is taken only for a response of the phone that the tuple in use
-- accepts, by UMTS AKA or, on GERAN, by GSM AKA; it tells the parent of the success, and does
-- nothing else.
pub authenticated_by_response :
    (c : OsmoFsm State Kind) (fi : AuthFsm) (e : Event)
    → fi.state ≢ authenticated
    → (dispatch c fi e).state ≡ authenticated
    → SuccessBy fi e (dispatch c fi e)
authenticated_by_response c fi e n =
    for_every_core (λ c. (dispatch c fi e).state ≡ authenticated → SuccessBy fi e (dispatch c fi e))
      (λ h.
        Verified-SuccessBy fi e (dispatch core fi e)
          (dispatch-Verified fi e (ground arith) (ground arith)))
      c

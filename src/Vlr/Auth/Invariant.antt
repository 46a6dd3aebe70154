-- ===== src/Vlr/Auth/Invariant.antt =====
-- libvlr/vlr_auth_fsm.c: what holds of an authentication between two events.
use osmo_msc.Base.{
  ℕ, ◌≡◌, ◌≢◌, refl, ◌⊎◌, inl, inr, Bool, true, false, Option, List, [], ◌∷◌, is_some, arith, ◌%◌,
  Option-cases,
}
use osmo_msc.Fsm.{OsmoFsm, masked, for_every_core}
use osmo_msc.Vlr.Subscr.{Subscr, update_tuples}
use osmo_msc.Vlr.Reject.{GmmCause, RejectValue}
use osmo_msc.Vlr.Auth.Response.{check_auth_resp, last_tuple-check_vec}
use osmo_msc.Vlr.Auth.{
  State, needs_auth, needs_auth_wait_ai, wait_resp, authenticated, needs_auth_wait_sai_resync,
  wait_resp_resync, wait_id_imsi, auth_failed, Kind, Event, AuthFsm, AuthResult, Config, passed,
  failure, no_auth_info, wait_ai_pass, wait_ai_error, hlr_sai_ack, hlr_sai_nack, hlr_sai_abort,
  ms_auth_resp, ms_auth_fail, on_needs_auth, on_wait_ai, on_wait_auth_resp, on_wait_ai_resync,
  on_wait_auth_resp_resync, on_wait_imsi, action, dispatch_start, new_instance, dispatch, run,
  in_event_mask, out_state_mask, auth_fsm_term, authenticate, onenter, ms_id_imsi,
}

abbrev pub waits_for_resp : State → Bool
waits_for_resp wait_resp = true
waits_for_resp wait_resp_resync = true
waits_for_resp _ = false

abbrev pub is_final : State → Bool
is_final authenticated = true
is_final auth_failed = true
is_final _ = false

-- While a response is awaited there is a tuple in use and a request was sent; the instance has been
-- terminated exactly in the two final states, and then the subscriber no longer points to it; no
-- assertion has failed.
pub record Inv (fi : AuthFsm) : Type 0 where
  pub in_use : waits_for_resp fi.state ≡ true → is_some fi.vsub.last_tuple ≡ true
  pub requested : waits_for_resp fi.state ≡ true → fi.auth_requested ≡ true
  pub final_ended : is_final fi.state ≡ true → fi.live ≡ false
  pub ended_final : fi.live ≡ false → is_final fi.state ≡ true
  pub unlinked : fi.vsub_auth_fsm ≡ fi.live
  pub no_assert : fi.assert_failed ≡ false

abbrev pub core : OsmoFsm State Kind
core = masked State Kind

-- What `authenticate` asks of the instance: it waits for a response, or it has ended.
record Ready (fi : AuthFsm) : Type 0 where
  ready : (fi.state ≡ wait_resp) ⊎ ((fi.state ≡ wait_resp_resync) ⊎ (is_final fi.state ≡ true))
  final_ended : is_final fi.state ≡ true → fi.live ≡ false
  ended_final : fi.live ≡ false → is_final fi.state ≡ true
  unlinked : fi.vsub_auth_fsm ≡ fi.live
  no_assert : fi.assert_failed ≡ false

authenticate-Inv : (fi : AuthFsm) → Ready fi → Inv (authenticate core fi)
unfolding authenticate masked out_state_mask
authenticate-Inv fi v = ground arith

on_needs_auth-Inv : (fi : AuthFsm) → fi.state ≡ needs_auth → Inv fi → Inv (on_needs_auth core fi)
unfolding on_needs_auth masked out_state_mask
on_needs_auth-Inv fi s v = ground arith

wait_ai_pass-Inv :
    (fi : AuthFsm) → fi.state ≡ needs_auth_wait_ai → Inv fi → Inv (wait_ai_pass core fi)
unfolding wait_ai_pass masked out_state_mask
wait_ai_pass-Inv fi s v = ground arith

auth_fsm_term-Inv :
    (fi : AuthFsm) (r : AuthResult) (c : Option RejectValue)
    → fi.state ≡ needs_auth_wait_ai
    → r ≢ passed
    → Inv fi
    → Inv (auth_fsm_term core fi r c)
unfolding auth_fsm_term masked out_state_mask
auth_fsm_term-Inv fi r c s n v = ground arith

wait_ai_error-Inv :
    (fi : AuthFsm) (r : AuthResult) (c : RejectValue)
    → fi.state ≡ needs_auth_wait_ai
    → r ≢ passed
    → Inv fi
    → Inv (wait_ai_error core fi r c)
unfolding wait_ai_error masked out_state_mask
wait_ai_error-Inv fi r c s n v = ground arith

on_wait_ai-Inv :
    (fi : AuthFsm) (e : Event) → fi.state ≡ needs_auth_wait_ai → Inv fi → Inv (on_wait_ai core fi e)
unfolding on_wait_ai
on_wait_ai-Inv fi (hlr_sai_ack []) s v = wait_ai_error-Inv fi failure _ s (λ h. cc) v
on_wait_ai-Inv fi (hlr_sai_ack (vec ∷ vecs)) s v =
    wait_ai_pass-Inv (record fi { vsub = update_tuples fi.vsub (vec ∷ vecs) }) s
      (record {
        in_use = λ h. absurd (ground arith);
        requested = v.requested;
        final_ended = v.final_ended;
        ended_final = v.ended_final;
        unlinked = v.unlinked;
        no_assert = v.no_assert;
      })
on_wait_ai-Inv fi (hlr_sai_nack GmmCause.imsi_unknown) s v =
    auth_fsm_term-Inv fi no_auth_info _ s (λ h. cc) v
on_wait_ai-Inv fi (hlr_sai_nack _) s v = wait_ai_error-Inv fi no_auth_info _ s (λ h. cc) v
on_wait_ai-Inv fi (hlr_sai_abort _) s v = wait_ai_error-Inv fi failure _ s (λ h. cc) v
on_wait_ai-Inv fi _ s v = v

on_wait_auth_resp-Inv :
    (fi : AuthFsm) (e : Event) → fi.state ≡ wait_resp → Inv fi → Inv (on_wait_auth_resp core fi e)
unfolding on_wait_auth_resp check_auth_resp masked out_state_mask
on_wait_auth_resp-Inv fi e s v = ground arith

on_wait_ai_resync-Inv :
    (fi : AuthFsm) (e : Event)
    → fi.state ≡ needs_auth_wait_sai_resync
    → Inv fi
    → Inv (on_wait_ai_resync core fi e)
unfolding on_wait_ai_resync masked out_state_mask
on_wait_ai_resync-Inv fi e s v = ground arith

on_wait_auth_resp_resync-Inv :
    (fi : AuthFsm) (e : Event)
    → fi.state ≡ wait_resp_resync
    → Inv fi
    → Inv (on_wait_auth_resp_resync core fi e)
unfolding on_wait_auth_resp_resync check_auth_resp masked out_state_mask
on_wait_auth_resp_resync-Inv fi (ms_auth_resp par) s v = elim (Option-cases fi.vsub.last_tuple) [
  | inl e ↦ ground arith
  | inr (i, e) ↦ ground (
    arith,
    last_tuple-check_vec fi.vsub (fi.vsub.auth_tuples i).vec par.is_r99 par.is_utran par.res
        (par.res_len % 256),
  )
]
on_wait_auth_resp_resync-Inv fi (ms_auth_fail par) s v = ground arith
on_wait_auth_resp_resync-Inv fi _ s v = v

restarted-Inv :
    (fi : AuthFsm) (vsub : Subscr)
    → fi.state ≡ wait_id_imsi
    → Inv fi
    → Inv (record fi { state = needs_auth; vsub = vsub; by_imsi = true })
restarted-Inv fi vsub s v = ground arith

on_wait_imsi-Inv :
    (fi : AuthFsm) (e : Event) → fi.state ≡ wait_id_imsi → Inv fi → Inv (on_wait_imsi core fi e)
unfolding on_wait_imsi masked in_event_mask out_state_mask onenter
on_wait_imsi-Inv fi (ms_id_imsi mi_string) s v =
    rw s (on_needs_auth-Inv _ refl (restarted-Inv fi _ s v))
on_wait_imsi-Inv fi _ s v = v

-- Each action keeps the invariant.
action-Inv :
    (fi : AuthFsm) (s : State) (e : Event) → fi.state ≡ s → Inv fi → Inv (action core s fi e)
unfolding action
action-Inv fi needs_auth e s v = on_needs_auth-Inv fi s v
action-Inv fi needs_auth_wait_ai e s v = on_wait_ai-Inv fi e s v
action-Inv fi wait_resp e s v = on_wait_auth_resp-Inv fi e s v
action-Inv fi needs_auth_wait_sai_resync e s v = on_wait_ai_resync-Inv fi e s v
action-Inv fi wait_resp_resync e s v = on_wait_auth_resp_resync-Inv fi e s v
action-Inv fi wait_id_imsi e s v = on_wait_imsi-Inv fi e s v
action-Inv fi _ e s v = v

pub dispatch_masked-Inv : (fi : AuthFsm) (e : Event) → Inv fi → Inv (dispatch core fi e)
unfolding dispatch
dispatch_masked-Inv fi e v = ground (arith, action-Inv fi fi.state e refl v)

run_masked-Inv : (fi : AuthFsm) (es : List Event) → Inv fi → Inv (run core fi es)
unfolding run
run_masked-Inv fi [] v = v
run_masked-Inv fi (e ∷ es) v = run_masked-Inv (dispatch core fi e) es (dispatch_masked-Inv fi e v)

pub new_instance-Inv :
    (v : Subscr) (cfg : Config) (a b c : ℕ) (is_r99 is_utran : Bool)
    → Inv (new_instance v cfg a b c is_r99 is_utran)
unfolding new_instance
new_instance-Inv v cfg a b c is_r99 is_utran = ground arith

dispatch_start_masked-Inv : (fi : AuthFsm) → Inv fi → Inv (dispatch_start core fi)
unfolding dispatch_start masked in_event_mask
dispatch_start_masked-Inv fi v = ground (arith, on_needs_auth-Inv fi)

start_masked-Inv :
    (v : Subscr) (cfg : Config) (a b c : ℕ) (is_r99 is_utran : Bool)
    → Inv (dispatch_start core (new_instance v cfg a b c is_r99 is_utran))
start_masked-Inv v cfg a b c is_r99 is_utran =
    dispatch_start_masked-Inv (new_instance v cfg a b c is_r99 is_utran)
      (new_instance-Inv v cfg a b c is_r99 is_utran)

-- An authentication that has been started keeps the invariant over any sequence of events: while it
-- waits for a response it has a tuple in use and has sent a request for it, it is terminated in
-- exactly the two final states and then unlinked from the subscriber, and no assertion fails.
pub run_start-Inv :
    (c : OsmoFsm State Kind) (v : Subscr) (cfg : Config) (ok no_info err : ℕ)
    (is_r99 is_utran : Bool)
    → (es : List Event)
    → Inv (run c (dispatch_start c (new_instance v cfg ok no_info err is_r99 is_utran)) es)
run_start-Inv c v cfg ok no_info err is_r99 is_utran es =
    for_every_core
      (λ c. Inv (run c (dispatch_start c (new_instance v cfg ok no_info err is_r99 is_utran)) es))
      (run_masked-Inv _ es (start_masked-Inv v cfg ok no_info err is_r99 is_utran)) c

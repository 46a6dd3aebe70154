-- ===== src/Vlr/Auth/Progress.antt =====
-- libvlr/vlr_auth_fsm.c: an authentication comes to an end.
use osmo_msc.Base.{
  ℕ, ◌+◌, ◌≡◌, ◌≢◌, ◌<◌, ◌≤◌, refl, sym, subst, ◌⊎◌, inl, inr, Bool, true, false, Option, none,
  some, List, [], ◌∷◌, is_some, arith, Bool-cases, if◌then◌else◌,
}
use osmo_msc.Fsm.{OsmoFsm, masked, for_every_core}
use osmo_msc.Vlr.Subscr.{Subscr}
use osmo_msc.Vlr.Reject.{GmmCause, RejectValue, gmm_cause_to_reject_cause_domain}
use osmo_msc.Vlr.Auth.Response.{check_auth_resp}
use osmo_msc.Vlr.Auth.Invariant.{Inv, dispatch_masked-Inv}
use osmo_msc.Vlr.Auth.{
  State, needs_auth, needs_auth_wait_ai, wait_resp, authenticated, needs_auth_wait_sai_resync,
  wait_resp_resync, wait_id_imsi, auth_failed, Kind, Event, kind, AuthRespPar, AuthFsm, AuthResult,
  failure, no_auth_info, passed, hlr_sai_ack, hlr_sai_nack, ms_auth_resp, ms_auth_fail, ms_id_imsi,
  on_needs_auth, on_wait_ai, on_wait_auth_resp, on_wait_ai_resync, on_wait_auth_resp_resync,
  on_wait_imsi, wait_ai_pass, wait_ai_error, resp_verdict, check_par, action, dispatch,
  in_event_mask, out_state_mask,
}

abbrev core : OsmoFsm State Kind
core = masked State Kind

abbrev steps_left : State → ℕ
steps_left needs_auth = 5
steps_left needs_auth_wait_ai = 4
steps_left wait_resp = 3
steps_left needs_auth_wait_sai_resync = 2
steps_left wait_resp_resync = 1
steps_left _ = 0

-- How many events an authentication may still handle: as many again if the IMSI may be asked for.
abbrev pub rank : State → Bool → ℕ
rank wait_id_imsi by_imsi = 5
rank authenticated by_imsi = 0
rank auth_failed by_imsi = 0
rank s by_imsi = steps_left s + (if by_imsi then 0 else 5)

-- Nearer to the end, with a known IMSI still known.
abbrev Nearer : AuthFsm → AuthFsm → Type 0
Nearer fi fi' =
    (rank fi'.state fi'.by_imsi < rank fi.state fi.by_imsi)
    × (fi.by_imsi ≡ true → fi'.by_imsi ≡ true)

on_needs_auth-Nearer : (fi : AuthFsm) → fi.state ≡ needs_auth → Nearer fi (on_needs_auth core fi)
unfolding on_needs_auth masked out_state_mask
on_needs_auth-Nearer fi s = ground arith

wait_ai_error-Nearer :
    (fi : AuthFsm) (r : AuthResult) (c : RejectValue)
    → fi.state ≡ needs_auth_wait_ai
    → r ≢ passed
    → Nearer fi (wait_ai_error core fi r c)
unfolding wait_ai_error masked out_state_mask
wait_ai_error-Nearer fi r c s n = ground arith

on_wait_ai-Nearer :
    (fi : AuthFsm) (e : Event)
    → fi.state ≡ needs_auth_wait_ai
    → in_event_mask needs_auth_wait_ai (kind e) ≡ true
    → Nearer fi (on_wait_ai core fi e)
unfolding on_wait_ai wait_ai_pass masked in_event_mask out_state_mask
on_wait_ai-Nearer fi (hlr_sai_ack []) s h =
    wait_ai_error-Nearer fi failure RejectValue.network_failure s (λ h. cc)
on_wait_ai-Nearer fi (hlr_sai_ack (vec ∷ vecs)) s h = ground arith
on_wait_ai-Nearer fi (hlr_sai_nack GmmCause.imsi_unknown) s h = ground arith
on_wait_ai-Nearer fi (hlr_sai_nack c) s h =
    wait_ai_error-Nearer fi no_auth_info (gmm_cause_to_reject_cause_domain c true) s (λ h. cc)
on_wait_ai-Nearer fi _ s h = absurd (ground arith)

is_some-check_par :
    (fi : AuthFsm) (par : AuthRespPar)
    → is_some fi.vsub.last_tuple ≡ true
    → is_some (check_par fi par) ≡ true
unfolding check_par check_auth_resp
is_some-check_par fi par h = ground arith

resp_verdict-Nearer :
    (fi : AuthFsm) (c : RejectValue) (r : Option (Bool × Subscr))
    → (fi.state ≡ wait_resp) ⊎ ((fi.state ≡ wait_resp_resync) × (fi.by_imsi ≡ true))
    → is_some r ≡ true
    → Nearer fi (resp_verdict core fi c r)
unfolding resp_verdict masked out_state_mask
resp_verdict-Nearer fi c none s h = absurd (ground arith)
resp_verdict-Nearer fi c (some (true, w)) s h = ground arith
resp_verdict-Nearer fi c (some (false, w)) s h = ground arith

on_wait_auth_resp-Nearer :
    (fi : AuthFsm) (e : Event)
    → fi.state ≡ wait_resp
    → is_some fi.vsub.last_tuple ≡ true
    → in_event_mask wait_resp (kind e) ≡ true
    → Nearer fi (on_wait_auth_resp core fi e)
unfolding on_wait_auth_resp masked in_event_mask out_state_mask
on_wait_auth_resp-Nearer fi (ms_auth_resp par) s n h =
    resp_verdict-Nearer fi RejectValue.illegal_ms (check_par fi par) (inl s)
      (is_some-check_par fi par n)
on_wait_auth_resp-Nearer fi (ms_auth_fail par) s n h = ground arith
on_wait_auth_resp-Nearer fi _ s n h = absurd (ground arith)

on_wait_ai_resync-Nearer :
    (fi : AuthFsm) (e : Event)
    → fi.state ≡ needs_auth_wait_sai_resync
    → in_event_mask needs_auth_wait_sai_resync (kind e) ≡ true
    → Nearer fi (on_wait_ai_resync core fi e)
unfolding on_wait_ai_resync masked in_event_mask out_state_mask
on_wait_ai_resync-Nearer fi (hlr_sai_ack []) s h = ground arith
on_wait_ai_resync-Nearer fi (hlr_sai_ack (vec ∷ vecs)) s h = ground arith
on_wait_ai_resync-Nearer fi (hlr_sai_nack GmmCause.imsi_unknown) s h = ground arith
on_wait_ai_resync-Nearer fi (hlr_sai_nack _) s h = ground arith
on_wait_ai_resync-Nearer fi _ s h = absurd (ground arith)

on_wait_auth_resp_resync-Nearer :
    (fi : AuthFsm) (e : Event)
    → fi.state ≡ wait_resp_resync
    → fi.by_imsi ≡ true
    → is_some fi.vsub.last_tuple ≡ true
    → in_event_mask wait_resp_resync (kind e) ≡ true
    → Nearer fi (on_wait_auth_resp_resync core fi e)
unfolding on_wait_auth_resp_resync masked in_event_mask out_state_mask
on_wait_auth_resp_resync-Nearer fi (ms_auth_resp par) s b n h =
    resp_verdict-Nearer fi RejectValue.synch_failure (check_par fi par) (inr (s, b))
      (is_some-check_par fi par n)
on_wait_auth_resp_resync-Nearer fi (ms_auth_fail par) s b n h = ground arith
on_wait_auth_resp_resync-Nearer fi _ s b n h = absurd (ground arith)

on_wait_imsi-Nearer :
    (fi : AuthFsm) (e : Event)
    → fi.state ≡ wait_id_imsi
    → in_event_mask wait_id_imsi (kind e) ≡ true
    → Nearer fi (on_wait_imsi core fi e)
unfolding on_wait_imsi masked in_event_mask out_state_mask
on_wait_imsi-Nearer fi (ms_id_imsi digits) s h = ground arith
on_wait_imsi-Nearer fi _ s h = absurd (ground arith)

action-Nearer :
    (fi : AuthFsm) (s : State) (e : Event)
    → fi.state ≡ s
    → Inv fi
    → (fi.by_imsi ≡ true) ⊎ (s ≢ wait_resp_resync)
    → in_event_mask s (kind e) ≡ true
    → Nearer fi (action core s fi e)
unfolding action in_event_mask
action-Nearer fi needs_auth e s v b h = on_needs_auth-Nearer fi s
action-Nearer fi needs_auth_wait_ai e s v b h = on_wait_ai-Nearer fi e s h
action-Nearer fi wait_resp e s v b h = on_wait_auth_resp-Nearer fi e s (ground arith) h
action-Nearer fi needs_auth_wait_sai_resync e s v b h = on_wait_ai_resync-Nearer fi e s h
action-Nearer fi wait_resp_resync e s v (inl b) h =
    on_wait_auth_resp_resync-Nearer fi e s b (ground arith) h
action-Nearer fi wait_resp_resync e s v (inr n) h = absurd (n refl)
action-Nearer fi wait_id_imsi e s v b h = on_wait_imsi-Nearer fi e s h
action-Nearer fi _ e s v b h = absurd (ground arith)

-- How many of the events the machine handles; the others are refused by the masks.
pub handled : OsmoFsm State Kind → AuthFsm → List Event → ℕ
handled c fi [] = 0
handled c fi (e ∷ es) =
    (if c.dispatch in_event_mask fi.state (kind e) then 1 else 0) + handled c (dispatch c fi e) es

dispatch-handled :
    (fi : AuthFsm) (e : Event)
    → in_event_mask fi.state (kind e) ≡ true
    → dispatch core fi e ≡ action core fi.state fi e
unfolding dispatch masked
dispatch-handled fi e h = rw h

dispatch-refused :
    (fi : AuthFsm) (e : Event) → in_event_mask fi.state (kind e) ≡ false → dispatch core fi e ≡ fi
unfolding dispatch masked
dispatch-refused fi e h = rw h

handled_masked-le-rank :
    (fi : AuthFsm) (es : List Event)
    → Inv fi
    → fi.by_imsi ≡ true
    → handled core fi es ≤ rank fi.state fi.by_imsi
unfolding handled masked
handled_masked-le-rank fi [] v b = omega arith
handled_masked-le-rank fi (e ∷ es) v b = elim (Bool-cases (in_event_mask fi.state (kind e))) [
  | inl h ↦
      let near : Nearer fi (dispatch core fi e) =
        subst (Nearer fi) (sym (dispatch-handled fi e h))
          (action-Nearer fi fi.state e refl v (inl b) h) in
      let rest =
        handled_masked-le-rank (dispatch core fi e) es (dispatch_masked-Inv fi e v) (near.1 b) in
      rw h (omega arith)
  | inr h ↦ rw (h, dispatch-refused fi e h) (omega (arith, handled_masked-le-rank fi es v b))
]

-- An authentication by IMSI ends: whatever events come in, it handles at most five, its start
-- included, and at most `rank` of them from any of its states on.
pub handled-le-rank :
    (c : OsmoFsm State Kind) (fi : AuthFsm) (es : List Event)
    → Inv fi
    → fi.by_imsi ≡ true
    → handled c fi es ≤ rank fi.state fi.by_imsi
handled-le-rank c fi es v b =
    for_every_core (λ c. handled c fi es ≤ rank fi.state fi.by_imsi)
      (handled_masked-le-rank fi es v b) c

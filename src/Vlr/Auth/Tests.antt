-- ===== src/Vlr/Auth/Tests.antt =====
-- Authentications at concrete inputs.
use osmo_msc.Base.{
  ℕ, ◌≡◌, ◌≤◌, refl, Bool, true, false, some, none, List, [], ◌∷◌, pos, ◌==◌, if◌then◌else◌,
}
use osmo_msc.Fsm.{OsmoFsm, masked}
use osmo_msc.Vlr.Subscr.{
  has_auth_tuple, Subscr, AuthVector, AuthTuple, sec_none, get_auth_tuple, update_tuples,
  next_auth_tuple, scan, start_idx, use_tuple, no_tuple, use_umts_aka,
}
use osmo_msc.Vlr.Reject.{GmmCause, RejectValue}
use osmo_msc.Vlr.Auth.{
  State, needs_auth, wait_resp, authenticated, needs_auth_wait_sai_resync, wait_resp_resync, Kind,
  Event, AuthRespPar, AuthFsm, Config, hlr_sai_ack, hlr_sai_abort, ms_auth_resp, terminated,
  tx_auth_req, tx_auth_fail_rep, new_instance, dispatch_start, dispatch, run, in_event_mask,
  out_state_mask, check_par,
}
use osmo_msc.Vlr.Auth.Response.{
  check_auth_resp, check_vec, mem_eq, ChecksResponse, check_auth_resp-ChecksResponse,
}
use osmo_msc.Vlr.Auth.Invariant.{Inv, run_start-Inv, new_instance-Inv}
use osmo_msc.Vlr.Auth.Safety.{SuccessBy, authenticated_by_response}
use osmo_msc.Vlr.Auth.Progress.{handled, rank, handled-le-rank}
use osmo_msc.Vlr.Auth.Corners.{IdLost, dispatch-hlr_sai_abort, resync-IdLost, resync_empty_ack}

abbrev core : OsmoFsm State Kind
core = masked State Kind

abbrev vector : AuthVector
vector = record {
  rand = 9 ∷ [];
  umts = true;
  res = 1 ∷ 2 ∷ [];
  res_len = 2;
  sres = 5 ∷ 6 ∷ 7 ∷ 8 ∷ [];
}

abbrev tuples : ℕ → AuthTuple
tuples i = if i == 0 then record { use_count = 1; key_seq = 0; vec = vector } else no_tuple

abbrev subscr : Subscr
subscr = record { imsi = 1 ∷ 2 ∷ []; auth_tuples = tuples; last_tuple = some 0; sec_ctx = sec_none }

abbrev unused : Subscr
unused = record {
  imsi = 1 ∷ 2 ∷ [];
  auth_tuples = λ _. no_tuple;
  last_tuple = none;
  sec_ctx = sec_none;
}

abbrev cfg : Config
cfg = record { auth_tuple_max_reuse_count = pos 3; auth_reuse_old_sets_on_error = true }

abbrev fresh : AuthFsm
fresh = record {
  state = needs_auth;
  vsub = subscr;
  cfg = cfg;
  by_imsi = true;
  is_r99 = true;
  is_utran = false;
  auth_requested = true;
  max_reuse_count = pos 3;
  parent_event_success = 1;
  parent_event_no_auth_info = 2;
  parent_event_failure = 3;
  vsub_auth_fsm = true;
  live = true;
  assert_failed = false;
  log = [];
}

abbrev waiting : AuthFsm
waiting = record fresh { state = wait_resp }

abbrev nameless : AuthFsm
nameless = record fresh { state = wait_resp_resync; by_imsi = false }

abbrev resyncing : AuthFsm
resyncing = record fresh { state = needs_auth_wait_sai_resync }

abbrev response : List ℕ → AuthRespPar
response res = record { is_r99 = true; is_utran = false; res = some res; res_len = 2; auts = none }

abbrev answer : Event
answer = ms_auth_resp (response (1 ∷ 2 ∷ []))

abbrev history : List Event
history = hlr_sai_ack (vector ∷ []) ∷ answer ∷ []

authenticated_after_history :
    (run core (dispatch_start core (new_instance unused cfg 1 2 3 true false)) history).state
    ≡ authenticated
unfolding run dispatch dispatch_start new_instance has_auth_tuple masked in_event_mask
    out_state_mask get_auth_tuple next_auth_tuple scan start_idx update_tuples check_auth_resp
    check_vec mem_eq
authenticated_after_history = refl

run_start-Inv_example :
    Inv (run core (dispatch_start core (new_instance unused cfg 1 2 3 true false)) history)
run_start-Inv_example = run_start-Inv core unused cfg 1 2 3 true false history

authenticated_by_response_example : SuccessBy waiting answer (dispatch core waiting answer)
unfolding dispatch masked in_event_mask out_state_mask check_auth_resp check_vec mem_eq
authenticated_by_response_example = authenticated_by_response core waiting answer (λ e. cc) refl

handled-le-rank_example :
    handled core (new_instance unused cfg 1 2 3 true false) history ≤ rank needs_auth true
unfolding new_instance
handled-le-rank_example =
    handled-le-rank core (new_instance unused cfg 1 2 3 true false) history
      (new_instance-Inv unused cfg 1 2 3 true false) refl

check_auth_resp-ChecksResponse_example :
    (r : Bool × Subscr) × (check_auth_resp subscr true false (some (1 ∷ 2 ∷ [])) 2 ≡ some r)
    × ChecksResponse subscr vector true false (1 ∷ 2 ∷ []) 2 r
check_auth_resp-ChecksResponse_example =
    check_auth_resp-ChecksResponse subscr 0 true false (1 ∷ 2 ∷ []) 2 refl

dispatch-hlr_sai_abort_example :
    dispatch core resyncing (hlr_sai_abort GmmCause.net_fail) ≡ resyncing
dispatch-hlr_sai_abort_example = dispatch-hlr_sai_abort core resyncing GmmCause.net_fail

resync-IdLost_example : IdLost core nameless (response (3 ∷ 4 ∷ [])) (1 ∷ 2 ∷ [])
unfolding check_par check_auth_resp check_vec mem_eq
resync-IdLost_example =
    resync-IdLost core nameless (response (3 ∷ 4 ∷ [])) subscr (1 ∷ 2 ∷ []) refl refl refl

resync_empty_ack_example :
    (dispatch core resyncing (hlr_sai_ack [])).log
    ≡ tx_auth_req 0 (use_umts_aka vector true)
      ∷ terminated 3 (some RejectValue.network_failure)
      ∷ tx_auth_fail_rep
      ∷ []
unfolding get_auth_tuple next_auth_tuple scan start_idx update_tuples
resync_empty_ack_example =
    resync_empty_ack core resyncing 0 (use_tuple (record subscr { last_tuple = none }) 0) refl refl
      refl

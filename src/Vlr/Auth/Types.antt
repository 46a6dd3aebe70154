-- ===== src/Vlr/Auth/Types.antt =====
-- libvlr/vlr_auth_fsm.c and vlr_auth_fsm.h: states, events, calls, the instance, and the masks of the
-- table auth_fsm_states.
use osmo_msc.Base.{ℕ, Bool, true, false, Option, List, ℤ}
use osmo_msc.Fsm.{InMask, OutMask}
use osmo_msc.Vlr.Subscr.{Subscr, AuthVector}
use osmo_msc.Vlr.Reject.{GmmCause, RejectValue}

-- enum vlr_subscr_auth_state
pub data State : Type 0 where
  needs_auth needs_auth_wait_ai wait_resp authenticated needs_resync : State
  needs_auth_wait_sai_resync wait_resp_resync wait_id_imsi auth_failed : State

-- enum vlr_fsm_auth_event
pub data Kind : Type 0 where
  e_start e_hlr_sai_ack e_hlr_sai_nack e_hlr_sai_abort : Kind
  e_ms_auth_resp e_ms_auth_fail e_ms_id_imsi : Kind

-- struct vlr_auth_resp_par
pub record AuthRespPar : Type 0 where
  pub is_r99 : Bool
  pub is_utran : Bool
  pub res : Option (List ℕ)
  pub res_len : ℕ
  pub auts : Option (List ℕ)

-- An event with its data: the auth vectors or the cause of a GSUP message, the parameters of an
-- authentication response, or the digits of an identity response.
pub data Event : Type 0 where
  start : Event
  hlr_sai_ack : List AuthVector → Event
  hlr_sai_nack : GmmCause → Event
  hlr_sai_abort : GmmCause → Event
  ms_auth_resp : AuthRespPar → Event
  ms_auth_fail : AuthRespPar → Event
  ms_id_imsi : List ℕ → Event

abbrev pub kind : Event → Kind
kind start = e_start
kind (hlr_sai_ack _) = e_hlr_sai_ack
kind (hlr_sai_nack _) = e_hlr_sai_nack
kind (hlr_sai_abort _) = e_hlr_sai_abort
kind (ms_auth_resp _) = e_ms_auth_resp
kind (ms_auth_fail _) = e_ms_auth_fail
kind (ms_id_imsi _) = e_ms_id_imsi

-- enum auth_fsm_result
pub data AuthResult : Type 0 where
  passed no_auth_info failure : AuthResult

-- The calls that the machine makes. `terminated` is osmo_fsm_inst_term() with the event for the
-- parent and the cause, where no cause is 0.
pub data Call : Type 0 where
  req_sai : Option (List ℕ) → List ℕ → Call
  tx_auth_req : ℕ → Bool → Call
  tx_id_req_imsi : Call
  tx_auth_fail_rep : Call
  terminated : ℕ → Option RejectValue → Call

-- The fields of vlr->cfg that count here.
pub record Config : Type 0 where
  pub auth_tuple_max_reuse_count : ℤ
  pub auth_reuse_old_sets_on_error : Bool

-- The instance with its private state, its subscriber, and what it has called so far. `live` is
-- false from the call of osmo_fsm_inst_term() on; `assert_failed` records a failed OSMO_ASSERT or a
-- read through a null `last_tuple`.
pub record AuthFsm : Type 0 where
  pub state : State
  pub vsub : Subscr
  pub cfg : Config
  pub by_imsi : Bool
  pub is_r99 : Bool
  pub is_utran : Bool
  pub auth_requested : Bool
  pub max_reuse_count : ℤ
  pub parent_event_success : ℕ
  pub parent_event_no_auth_info : ℕ
  pub parent_event_failure : ℕ
  pub vsub_auth_fsm : Bool
  pub live : Bool
  pub assert_failed : Bool
  pub log : List Call

-- The table auth_fsm_states. NEEDS_RESYNC has no entry.
unfoldable pub in_event_mask : InMask State Kind
in_event_mask needs_auth e_start = true
in_event_mask needs_auth_wait_ai e_hlr_sai_ack = true
in_event_mask needs_auth_wait_ai e_hlr_sai_nack = true
in_event_mask wait_resp e_ms_auth_resp = true
in_event_mask wait_resp e_ms_auth_fail = true
in_event_mask needs_auth_wait_sai_resync e_hlr_sai_ack = true
in_event_mask needs_auth_wait_sai_resync e_hlr_sai_nack = true
in_event_mask wait_resp_resync e_ms_auth_resp = true
in_event_mask wait_resp_resync e_ms_auth_fail = true
in_event_mask wait_id_imsi e_ms_id_imsi = true
in_event_mask _ _ = false

unfoldable pub out_state_mask : OutMask State
out_state_mask needs_auth needs_auth_wait_ai = true
out_state_mask needs_auth wait_resp = true
out_state_mask needs_auth_wait_ai auth_failed = true
out_state_mask needs_auth_wait_ai wait_resp = true
out_state_mask wait_resp wait_id_imsi = true
out_state_mask wait_resp auth_failed = true
out_state_mask wait_resp authenticated = true
out_state_mask wait_resp needs_auth_wait_sai_resync = true
out_state_mask needs_auth_wait_sai_resync auth_failed = true
out_state_mask needs_auth_wait_sai_resync wait_resp_resync = true
out_state_mask wait_resp_resync auth_failed = true
out_state_mask wait_resp_resync authenticated = true
out_state_mask wait_id_imsi needs_auth = true
out_state_mask _ _ = false

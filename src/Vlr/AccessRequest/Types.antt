-- ===== src/Vlr/AccessRequest/Types.antt =====
-- libvlr/vlr_access_req_fsm.c and vlr.h: states, events, calls, the instance, and the masks of the
-- table proc_arq_vlr_states.
use osmo_msc.Base.{ℕ, Bool, true, false, Option, List, ℤ}
use osmo_msc.Fsm.{InMask, OutMask}
use osmo_msc.Vlr.Subscr.{Subscr}
use osmo_msc.Vlr.Reject.{RejectValue}

-- enum proc_arq_vlr_state
pub data State : Type 0 where
  init wait_obtain_imsi wait_auth wait_ciph wait_upd_loc_child wait_sub_pres : State
  wait_trace_sub wait_check_imei wait_tmsi_ack wait_ceck_conf done : State

-- enum proc_arq_vlr_event
pub data Kind : Type 0 where
  e_start e_id_imsi e_auth_res e_auth_no_info e_auth_failure e_ciph_res : Kind
  e_upd_loc_res e_trace_res e_imei_res e_pres_res e_tmsi_ack : Kind

-- enum vlr_ciph_result_cause, with any other value.
pub data CiphResult : Type 0 where
  ciph_reject ciph_compl ciph_other : CiphResult

-- A cause behind a pointer: the pointer may be null, and 0, the value of no cause, is `none`.
abbrev pub CausePtr : Type 0
CausePtr = Option (Option RejectValue)

pub data Event : Type 0 where
  start id_imsi auth_res : Event
  auth_no_info auth_failure : CausePtr → Event
  ciph_res : Option CiphResult → Event
  upd_loc_res trace_res imei_res pres_res tmsi_ack : Event

abbrev pub kind : Event → Kind
kind start = e_start
kind id_imsi = e_id_imsi
kind auth_res = e_auth_res
kind (auth_no_info _) = e_auth_no_info
kind (auth_failure _) = e_auth_failure
kind (ciph_res _) = e_ciph_res
kind upd_loc_res = e_upd_loc_res
kind trace_res = e_trace_res
kind imei_res = e_imei_res
kind pres_res = e_pres_res
kind tmsi_ack = e_tmsi_ack

-- enum vlr_parq_type
pub data ParqType : Type 0 where
  invalid cm_serv_req paging_resp cm_re_establish_req : ParqType

-- enum osmo_cm_service_type: the two group call services, or another value.
pub data CmService : Type 0 where
  cmserv_vgcs cmserv_vbs : CmService
  cmserv_other : ℕ → CmService

-- `proc_arq_fsm` of a subscriber: null, this instance, or another one.
pub data Link : Type 0 where
  unlinked this_fsm other_fsm : Link

-- struct vlr_subscr, with the fields that count here beside those of authentication.
pub record ArqSubscr : Type 0 where
  pub auth : Subscr
  pub proc_arq_fsm : Link
  pub imsi_detached_flag : Bool
  pub conf_by_radio_contact_ind : Bool
  pub sub_dataconf_by_hlr_ind : Bool
  pub loc_conf_in_hlr_ind : Bool
  pub ms_not_reachable_flag : Bool

-- The calls that the machine makes.
pub data Call : Type 0 where
  other_fsm_done : RejectValue → Call
  subscr_assoc start_auth tx_common_id start_upd_hlr start_sub_pres : Call
  tx_id_req_imei alloc_tmsi : Call
  set_ciph_mode : Bool → Bool → Call
  tx_cm_serv_acc : CmService → Call
  tx_cm_serv_rej : CmService → Option RejectValue → Call
  to_parent : ℕ → Call

-- vlr->cfg
pub record Config : Type 0 where
  pub auth_tuple_max_reuse_count : ℤ
  pub parq_retrieve_imsi : Bool
  pub retrieve_imeisv_ciphered : Bool

-- What comes in with an event: what others have written to the subscriber since the last one, what a
-- lookup by IMSI or TMSI finds, and whether each callback of the MSC succeeds.
pub record Env : Type 0 where
  pub others : ArqSubscr → ArqSubscr
  pub found : Option ArqSubscr
  pub assoc_ok : Bool
  pub ciph_ok : Bool
  pub serv_acc_ok : Bool

-- The instance with struct proc_arq_priv; a `result` of 0 is `none`.
pub record ArqFsm : Type 0 where
  pub state : State
  pub cfg : Config
  pub vsub : Option ArqSubscr
  pub has_parent : Bool
  pub parent_event_success : ℕ
  pub parent_event_failure : ℕ
  pub type : ParqType
  pub cm_service_type : CmService
  pub result : Option RejectValue
  pub by_tmsi : Bool
  pub authentication_required : Bool
  pub is_ciphering_to_be_attempted : Bool
  pub is_ciphering_required : Bool
  pub key_seq : ℕ
  pub is_utran : Bool
  pub implicitly_accepted : Bool
  pub log : List Call

-- The table proc_arq_vlr_states. WAIT_CECK_CONF has no entry.
unfoldable pub in_event_mask : InMask State Kind
in_event_mask init e_start = true
in_event_mask wait_obtain_imsi e_id_imsi = true
in_event_mask wait_auth e_auth_res = true
in_event_mask wait_auth e_auth_no_info = true
in_event_mask wait_auth e_auth_failure = true
in_event_mask wait_ciph e_ciph_res = true
in_event_mask wait_upd_loc_child e_upd_loc_res = true
in_event_mask wait_sub_pres e_pres_res = true
in_event_mask wait_trace_sub e_trace_res = true
in_event_mask wait_check_imei e_imei_res = true
in_event_mask wait_tmsi_ack e_tmsi_ack = true
in_event_mask _ _ = false

-- The states from WAIT_SUB_PRES on that the masks of the earlier ones name.
late : State → Bool
late wait_sub_pres = true
late wait_trace_sub = true
late wait_check_imei = true
late wait_tmsi_ack = true
late done = true
late _ = false

unfoldable pub out_state_mask : OutMask State
unfolding late
out_state_mask init init = false
out_state_mask init wait_ceck_conf = false
out_state_mask init _ = true
out_state_mask wait_obtain_imsi wait_auth = true
out_state_mask wait_obtain_imsi wait_ciph = true
out_state_mask wait_obtain_imsi wait_upd_loc_child = true
out_state_mask wait_obtain_imsi t = late t
out_state_mask wait_auth wait_ciph = true
out_state_mask wait_auth wait_upd_loc_child = true
out_state_mask wait_auth t = late t
out_state_mask wait_ciph wait_upd_loc_child = true
out_state_mask wait_ciph t = late t
out_state_mask wait_upd_loc_child t = late t
out_state_mask wait_sub_pres wait_sub_pres = false
out_state_mask wait_sub_pres t = late t
out_state_mask wait_trace_sub done = true
out_state_mask wait_trace_sub wait_check_imei = true
out_state_mask wait_trace_sub wait_tmsi_ack = true
out_state_mask wait_check_imei done = true
out_state_mask wait_check_imei wait_tmsi_ack = true
out_state_mask wait_tmsi_ack done = true
out_state_mask _ _ = false

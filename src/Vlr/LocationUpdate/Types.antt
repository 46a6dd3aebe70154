-- ===== src/Vlr/LocationUpdate/Types.antt =====
-- libvlr/vlr_lu_fsm.c, vlr_lu_fsm.h and vlr.h: the states and events of the location update machine
-- and of its three children, the calls that they make, and the instance.
use osmo_msc.Base.{ℕ, Bool, Option, List, ℤ}
use osmo_msc.Fsm.{OsmoFsm}
use osmo_msc.Vlr.Subscr.{Subscr}
use osmo_msc.Vlr.Reject.{RejectValue}
use osmo_msc.Vlr.AccessRequest.Types.{CiphResult, CausePtr, Link}

-- enum vlr_lu_state
pub data State : Type 0 where
  idle wait_imeisv wait_pvlr wait_auth wait_ciph wait_imsi wait_hlr_check_imei_early : State
  wait_hlr_upd wait_lu_compl wait_lu_compl_standalone done : State

-- enum vlr_ula_event
pub data Kind : Type 0 where
  e_update_la e_send_id_ack e_send_id_nack e_auth_success e_auth_no_info e_auth_failure : Kind
  e_ciph_res e_id_imsi e_id_imei e_id_imeisv e_hlr_imei_ack e_hlr_imei_nack e_hlr_lu_res : Kind
  e_upd_hlr_compl e_lu_compl_success e_lu_compl_failure e_new_tmsi_ack : Kind

-- The events with their data.
pub data Event : Type 0 where
  update_la send_id_ack send_id_nack auth_success : Event
  auth_no_info auth_failure : CausePtr → Event
  ciph_res : Option CiphResult → Event
  id_imsi : List ℕ → Event
  id_imei id_imeisv hlr_imei_ack hlr_imei_nack : Event
  hlr_lu_res upd_hlr_compl lu_compl_success lu_compl_failure : CausePtr → Event
  new_tmsi_ack : Event

abbrev pub kind : Event → Kind
kind update_la = e_update_la
kind send_id_ack = e_send_id_ack
kind send_id_nack = e_send_id_nack
kind auth_success = e_auth_success
kind (auth_no_info _) = e_auth_no_info
kind (auth_failure _) = e_auth_failure
kind (ciph_res _) = e_ciph_res
kind (id_imsi _) = e_id_imsi
kind id_imei = e_id_imei
kind id_imeisv = e_id_imeisv
kind hlr_imei_ack = e_hlr_imei_ack
kind hlr_imei_nack = e_hlr_imei_nack
kind (hlr_lu_res _) = e_hlr_lu_res
kind (upd_hlr_compl _) = e_upd_hlr_compl
kind (lu_compl_success _) = e_lu_compl_success
kind (lu_compl_failure _) = e_lu_compl_failure
kind new_tmsi_ack = e_new_tmsi_ack

-- enum upd_hlr_vlr_state and enum upd_hlr_vlr_evt
pub data UpdState : Type 0 where
  upd_init upd_wait_for_data upd_done : UpdState

pub data UpdKind : Type 0 where
  upd_start ins_sub_data act_trace_mode fw_check_ss_ind upd_loc_ack upd_loc_nack : UpdKind

-- enum sub_pres_vlr_state and enum sub_pres_vlr_event
pub data PresState : Type 0 where
  pres_init pres_wait_for_hlr pres_done : PresState

pub data PresKind : Type 0 where
  pres_start ready_sm_cnf ready_sm_err : PresKind

-- enum lu_compl_vlr_state and enum lu_compl_vlr_event
pub data ComplState : Type 0 where
  compl_init compl_wait_sub_pres compl_wait_imei compl_wait_imei_tmsi : ComplState
  compl_wait_tmsi_cnf compl_done : ComplState

pub data ComplKind : Type 0 where
  compl_start sub_pres_compl imei_check_ack imei_check_nack tmsi_ack : ComplKind

-- enum vlr_fsm_result
pub data FsmResult : Type 0 where
  result_none success failure : FsmResult

-- enum vlr_lu_type
pub data LuType : Type 0 where
  periodic imsi_attach regular : LuType

-- struct osmo_location_area_id, the network and the area.
pub record Lai : Type 0 where
  pub plmn : ℕ
  pub lac : ℕ

-- struct vlr_subscr. Of IMEI and IMEISV counts whether they are known; GSM_RESERVED_TMSI is `none`.
pub record LuSubscr : Type 0 where
  pub auth : Subscr
  pub lu_fsm : Link
  pub lai : Lai
  pub imei_known : Bool
  pub imeisv_known : Bool
  pub tmsi : Option ℕ
  pub tmsi_new : Option ℕ
  pub sub_dataconf_by_hlr_ind : Bool
  pub loc_conf_in_hlr_ind : Bool
  pub conf_by_radio_contact_ind : Bool
  pub dormant_ind : Bool
  pub cancel_loc_rx : Bool
  pub la_allowed : Bool
  pub imsi_detached_flag : Bool
  pub ms_not_reachable_flag : Bool
  pub lu_complete : Bool

-- The calls that the machines make.
pub data Call : Type 0 where
  tx_lu_acc : Option ℕ → LuType → Call
  tx_lu_rej : RejectValue → LuType → Call
  tx_id_req_imsi tx_id_req_imei tx_id_req_imeisv tx_common_id tx_mm_info : Call
  tx_req_check_imei req_lu subscr_assoc start_auth subscr_update subscr_get_attached : Call
  set_ciph_mode : Bool → Bool → Call
  cancel_other : RejectValue → Call
  sgs_rx_lu sgs_update_id : Call
  to_parent : ℕ → Call

-- struct lu_compl_vlr_priv with the state of its instance and of its child; a `cause` of 0 is `none`.
pub record Compl : Type 0 where
  pub state : ComplState
  pub result : FsmResult
  pub cause : Option RejectValue
  pub assign_tmsi : Bool
  pub sub_pres : Option PresState

-- vlr->cfg
pub record Config : Type 0 where
  pub auth_tuple_max_reuse_count : ℤ
  pub check_imei_rqd : Bool
  pub retrieve_imeisv_early : Bool
  pub retrieve_imeisv_ciphered : Bool

-- What comes in with an event: what others have written to the subscriber since the last one, what a
-- lookup finds or creates, whether the MSC's callbacks succeed, and the new TMSI, if one is found.
pub record Env : Type 0 where
  pub others : LuSubscr → LuSubscr
  pub found : Option LuSubscr
  pub assoc_ok : Bool
  pub ciph_ok : Bool
  pub new_tmsi : Option ℕ

-- The instance with struct lu_fsm_priv and its children; `live` until the instance is terminated.
pub record LuFsm : Type 0 where
  pub state : State
  pub cfg : Config
  pub vsub : Option LuSubscr
  pub upd_hlr : Option UpdState
  pub lu_compl : Option Compl
  pub has_parent : Bool
  pub parent_event_success : ℕ
  pub parent_event_failure : ℕ
  pub result : FsmResult
  pub lu_type : LuType
  pub imsi : List ℕ
  pub lu_by_tmsi : Bool
  pub new_lai : Lai
  pub authentication_required : Bool
  pub is_ciphering_to_be_attempted : Bool
  pub is_ciphering_required : Bool
  pub key_seq : ℕ
  pub is_utran : Bool
  pub assign_tmsi : Bool
  pub live : Bool
  pub assert_failed : Bool
  pub log : List Call

-- The FSM core, for each of the machines.
pub record Cores : Type 0 where
  pub lu : OsmoFsm State Kind
  pub compl : OsmoFsm ComplState ComplKind
  pub upd : OsmoFsm UpdState UpdKind
  pub pres : OsmoFsm PresState PresKind

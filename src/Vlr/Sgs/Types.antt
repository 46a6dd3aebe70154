-- ===== src/Vlr/Sgs/Types.antt =====
-- libvlr/vlr_sgs_fsm.c, vlr_sgs_fsm.h and vlr.h: the SGs association of a subscriber, its states,
-- events and masks, and what of the subscriber it reads and writes. GSM_RESERVED_TMSI and an unset
-- PLMN are `none`.
use osmo_msc.Base.{ℕ, Bool, true, false, Option, List}
use osmo_msc.Fsm.{InMask, OutMask}
use osmo_msc.Vlr.Reject.{RejectValue, GmmCause}

-- enum sgs_ue_fsm_state
pub data State : Type 0 where
  sgs_null la_upd_pres associated : State

-- enum sgsap_sgs_cause, as far as the code tells its values apart.
pub data SgsCause : Type 0 where
  mt_csfb_rej_user : SgsCause
  other_cause : ℕ → SgsCause

-- enum sgsap_service_ind of a page; SGSAP_SERV_IND_PAGING_TIMEOUT is no value of a page.
pub data ServInd : Type 0 where
  cs_call sms : ServInd

-- enum sgs_ue_fsm_event
pub data Event : Type 0 where
  vlr_failure rx_reset_from_mme rx_detach_ind_from_mme rx_detach_ind_from_ue : Event
  rx_lu_from_a_iu_gs rx_alert_failure rx_lu_from_mme tx_lu_reject tx_lu_accept : Event
  tx_paging rx_sgsap_ue_unreachable rx_tmsi_realloc rx_service_req : Event
  rx_paging_failure : SgsCause → Event

-- struct osmo_location_area_id
pub record Lai : Type 0 where
  pub plmn : ℕ
  pub lac : ℕ

-- The messages and calls that leave the association.
pub data Call : Type 0 where
  tx_paging_req : ServInd → Call
  tx_lu_ack : Option ℕ → Call
  tx_lu_rej : RejectValue → Call
  tx_mm_info tx_purge_ms paging_expired cancel_attach_fsm : Call
  sgs_assoc_persist sgs_assoc_forget : Call
  to_lu_fsm : Option GmmCause → Call

-- What the calls into other parts give back: a new TMSI, whether the HLR request went out, whether
-- a connected MME is found for the association, whether a location update over A or Iu runs, the clock and the configured timers in seconds.
pub record Env : Type 0 where
  pub alloc_tmsi : Option ℕ
  pub req_lu_ok : Bool
  pub mme_found : Bool
  pub has_lu_fsm : Bool
  pub send_mm_info : Bool
  pub has_assoc_ops : Bool
  pub now : Option ℕ
  pub x3212_secs : ℕ
  pub t3212_secs : ℕ
  pub ts6_2_secs : ℕ

-- struct vlr_subscr: the association (`state`, and `ts6_2_running` for its timer), struct sgs, and
-- what it shares with the rest of the VLR. `expire_lu` 0 is VLR_SUBSCRIBER_NO_EXPIRATION. The use
-- counts are those of the three tokens of the association. `inflight` is s_sgs_pag_inflight, which
-- all subscribers share. `underflow`: a use was put that nobody held.
pub record Vsub : Type 0 where
  pub state : State
  pub ts6_2_running : Bool
  pub ts5_pending : Bool
  pub paging_serv_ind : ServInd
  pub has_callbacks : Bool
  pub mme_name : ℕ
  pub lai : Lai
  pub tmsi : Option ℕ
  pub tmsi_new : Option ℕ
  pub last_eutran_plmn : Option ℕ
  pub conf_by_radio_contact_ind : Bool
  pub sub_dataconf_by_hlr_ind : Bool
  pub loc_conf_in_hlr_ind : Bool
  pub la_allowed : Bool
  pub imsi_detached_flag : Bool
  pub ms_not_reachable_flag : Bool
  pub lu_complete : Bool
  pub attached_via_sgs : Bool
  pub is_paging : Bool
  pub expire_lu : ℕ
  pub use_sgs_lu : ℕ
  pub use_sgs_paging_req : ℕ
  pub use_attached : ℕ
  pub inflight : ℕ
  pub log : List Call
  pub assert_failed : Bool
  pub underflow : Bool

-- What the machines for A and Iu, sgs_iface.c and the HLR write to the subscriber besides. Of
-- conf_by_radio_contact_ind they only ever make a contact known.
pub record Written : Type 0 where
  pub contact : Bool
  pub lai : Lai
  pub tmsi : Option ℕ
  pub tmsi_new : Option ℕ
  pub last_eutran_plmn : Option ℕ
  pub sub_dataconf_by_hlr_ind : Bool
  pub loc_conf_in_hlr_ind : Bool
  pub la_allowed : Bool
  pub imsi_detached_flag : Bool
  pub ms_not_reachable_flag : Bool
  pub attached_via_sgs : Bool
  pub is_paging : Bool
  pub expire_lu : ℕ

-- The table sgs_ue_fsm_states, and the allstate_event_mask of sgs_ue_fsm.
unfoldable pub in_event_mask : InMask State Event
in_event_mask sgs_null rx_lu_from_mme = true
in_event_mask sgs_null tx_paging = true
in_event_mask sgs_null (rx_paging_failure c) = true
in_event_mask sgs_null rx_tmsi_realloc = true
in_event_mask sgs_null rx_service_req = true
in_event_mask la_upd_pres tx_lu_accept = true
in_event_mask la_upd_pres tx_lu_reject = true
in_event_mask la_upd_pres tx_paging = true
in_event_mask la_upd_pres (rx_paging_failure c) = true
in_event_mask la_upd_pres rx_alert_failure = true
in_event_mask la_upd_pres rx_tmsi_realloc = true
in_event_mask la_upd_pres rx_service_req = true
in_event_mask associated tx_paging = true
in_event_mask associated rx_tmsi_realloc = true
in_event_mask associated rx_sgsap_ue_unreachable = true
in_event_mask associated (rx_paging_failure c) = true
in_event_mask associated rx_alert_failure = true
in_event_mask associated rx_lu_from_mme = true
in_event_mask associated rx_service_req = true
in_event_mask _ _ = false

unfoldable pub out_state_mask : OutMask State
out_state_mask s t = true

unfoldable pub allstate_event_mask : InMask State Event
allstate_event_mask s rx_reset_from_mme = true
allstate_event_mask s vlr_failure = true
allstate_event_mask s rx_detach_ind_from_mme = true
allstate_event_mask s rx_detach_ind_from_ue = true
allstate_event_mask s rx_lu_from_a_iu_gs = true
allstate_event_mask s _ = false

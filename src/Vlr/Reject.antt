-- ===== src/Vlr/Reject.antt =====
-- libvlr/vlr.c: from the causes of the HLR's GSUP messages to the reject causes sent to the phone.
-- The two enumerations are libosmocore's; the constructors are those that this code names, and
-- `other` stands for any other value.
use osmo_msc.Base.{Bool, true, false}

pub data GmmCause : Type 0 where
  imsi_unknown illegal_ms imei_not_accepted illegal_me gprs_notallowed : GmmCause
  gprs_other_notallowed ms_id_not_derived impl_detached plmn_notallowed : GmmCause
  la_notallowed roaming_notallowed no_gprs_plmn msc_temp_notreach sync_fail : GmmCause
  congestion sem_incorr_msg inv_mand_info msgt_notexist_notimpl : GmmCause
  msgt_incomp_p_state ie_notexist_notimpl cond_ie_err msg_incomp_p_state : GmmCause
  proto_err_unspec no_suit_cell_in_la mac_fail gsm_auth_unaccept not_auth_for_csg : GmmCause
  sms_via_gprs_in_ra no_pdp_activated net_fail other : GmmCause

pub data RejectValue : Type 0 where
  imsi_unknown_in_hlr imsi_unknown_in_vlr illegal_ms imei_not_accepted illegal_me : RejectValue
  gprs_not_allowed services_not_allowed ms_identity_not_derivable : RejectValue
  implicitly_detached plmn_not_allowed loc_not_allowed roaming_not_allowed : RejectValue
  gprs_not_allowed_in_plmn msc_tmp_not_reachable synch_failure congestion : RejectValue
  incorrect_message invalid_mandatory_inf msg_type_not_implemented : RejectValue
  msg_type_not_compatible inf_eleme_not_implemented condtional_ie_error : RejectValue
  msg_not_compatible srv_opt_tmp_out_of_order protocol_error no_suit_cell_in_la mac_failure :
      RejectValue
  gsm_auth_unacceptable not_auth_for_csg sms_prov_via_gprs_in_ra : RejectValue
  no_pdp_context_activated network_failure call_can_not_be_identified other : RejectValue

pub gmm_cause_to_reject_cause : GmmCause → RejectValue
gmm_cause_to_reject_cause GmmCause.imsi_unknown = RejectValue.imsi_unknown_in_hlr
gmm_cause_to_reject_cause GmmCause.illegal_ms = RejectValue.illegal_ms
gmm_cause_to_reject_cause GmmCause.imei_not_accepted = RejectValue.imei_not_accepted
gmm_cause_to_reject_cause GmmCause.illegal_me = RejectValue.illegal_me
gmm_cause_to_reject_cause GmmCause.gprs_notallowed = RejectValue.gprs_not_allowed
gmm_cause_to_reject_cause GmmCause.gprs_other_notallowed = RejectValue.services_not_allowed
gmm_cause_to_reject_cause GmmCause.ms_id_not_derived = RejectValue.ms_identity_not_derivable
gmm_cause_to_reject_cause GmmCause.impl_detached = RejectValue.implicitly_detached
gmm_cause_to_reject_cause GmmCause.plmn_notallowed = RejectValue.plmn_not_allowed
gmm_cause_to_reject_cause GmmCause.la_notallowed = RejectValue.loc_not_allowed
gmm_cause_to_reject_cause GmmCause.roaming_notallowed = RejectValue.roaming_not_allowed
gmm_cause_to_reject_cause GmmCause.no_gprs_plmn = RejectValue.gprs_not_allowed_in_plmn
gmm_cause_to_reject_cause GmmCause.msc_temp_notreach = RejectValue.msc_tmp_not_reachable
gmm_cause_to_reject_cause GmmCause.sync_fail = RejectValue.synch_failure
gmm_cause_to_reject_cause GmmCause.congestion = RejectValue.congestion
gmm_cause_to_reject_cause GmmCause.sem_incorr_msg = RejectValue.incorrect_message
gmm_cause_to_reject_cause GmmCause.inv_mand_info = RejectValue.invalid_mandatory_inf
gmm_cause_to_reject_cause GmmCause.msgt_notexist_notimpl = RejectValue.msg_type_not_implemented
gmm_cause_to_reject_cause GmmCause.msgt_incomp_p_state = RejectValue.msg_type_not_compatible
gmm_cause_to_reject_cause GmmCause.ie_notexist_notimpl = RejectValue.inf_eleme_not_implemented
gmm_cause_to_reject_cause GmmCause.cond_ie_err = RejectValue.condtional_ie_error
gmm_cause_to_reject_cause GmmCause.msg_incomp_p_state = RejectValue.msg_not_compatible
gmm_cause_to_reject_cause GmmCause.proto_err_unspec = RejectValue.protocol_error
gmm_cause_to_reject_cause GmmCause.no_suit_cell_in_la = RejectValue.no_suit_cell_in_la
gmm_cause_to_reject_cause GmmCause.mac_fail = RejectValue.mac_failure
gmm_cause_to_reject_cause GmmCause.gsm_auth_unaccept = RejectValue.gsm_auth_unacceptable
gmm_cause_to_reject_cause GmmCause.not_auth_for_csg = RejectValue.not_auth_for_csg
gmm_cause_to_reject_cause GmmCause.sms_via_gprs_in_ra = RejectValue.sms_prov_via_gprs_in_ra
gmm_cause_to_reject_cause GmmCause.no_pdp_activated = RejectValue.no_pdp_context_activated
gmm_cause_to_reject_cause GmmCause.net_fail = RejectValue.network_failure
gmm_cause_to_reject_cause GmmCause.other = RejectValue.network_failure

pub reject_causes_ps : RejectValue → RejectValue
reject_causes_ps RejectValue.call_can_not_be_identified = RejectValue.network_failure
reject_causes_ps cause = cause

pub reject_causes_cs : RejectValue → RejectValue
reject_causes_cs RejectValue.no_suit_cell_in_la = RejectValue.network_failure
reject_causes_cs RejectValue.mac_failure = RejectValue.network_failure
reject_causes_cs RejectValue.gsm_auth_unacceptable = RejectValue.network_failure
reject_causes_cs RejectValue.not_auth_for_csg = RejectValue.network_failure
reject_causes_cs RejectValue.sms_prov_via_gprs_in_ra = RejectValue.network_failure
reject_causes_cs RejectValue.no_pdp_context_activated = RejectValue.network_failure
reject_causes_cs cause = cause

pub gmm_cause_to_reject_cause_domain : GmmCause → Bool → RejectValue
gmm_cause_to_reject_cause_domain cause true = reject_causes_cs (gmm_cause_to_reject_cause cause)
gmm_cause_to_reject_cause_domain cause false = reject_causes_ps (gmm_cause_to_reject_cause cause)

-- ===== src/Vlr/LocationUpdate/Masks.antt =====
-- libvlr/vlr_lu_fsm.c: the masks of the location update machine and of its children.
use osmo_msc.Base.{true, false}
use osmo_msc.Fsm.{InMask, OutMask}
use osmo_msc.Vlr.LocationUpdate.Types.{
  State, Kind, UpdState, UpdKind, PresState, PresKind, ComplState, ComplKind, compl_done,
  compl_init, compl_start, compl_wait_imei, compl_wait_imei_tmsi, compl_wait_sub_pres,
  compl_wait_tmsi_cnf, done, e_auth_failure, e_auth_no_info, e_auth_success, e_ciph_res,
  e_hlr_imei_ack, e_hlr_imei_nack, e_hlr_lu_res, e_id_imei, e_id_imeisv, e_id_imsi,
  e_lu_compl_failure, e_lu_compl_success, e_new_tmsi_ack, e_send_id_ack, e_send_id_nack,
  e_upd_hlr_compl, e_update_la, idle, imei_check_ack, imei_check_nack, pres_done, pres_init,
  pres_start, pres_wait_for_hlr, ready_sm_cnf, ready_sm_err, sub_pres_compl, tmsi_ack, upd_done,
  upd_init, upd_start, upd_wait_for_data, wait_auth, wait_ciph, wait_hlr_check_imei_early,
  wait_hlr_upd, wait_imeisv, wait_imsi, wait_lu_compl, wait_lu_compl_standalone, wait_pvlr,
}

-- The table vlr_lu_fsm_states.
unfoldable pub in_event_mask : InMask State Kind
in_event_mask idle e_update_la = true
in_event_mask wait_imeisv e_id_imeisv = true
in_event_mask wait_pvlr e_send_id_ack = true
in_event_mask wait_pvlr e_send_id_nack = true
in_event_mask wait_auth e_auth_success = true
in_event_mask wait_auth e_auth_no_info = true
in_event_mask wait_auth e_auth_failure = true
in_event_mask wait_ciph e_ciph_res = true
in_event_mask wait_imsi e_id_imsi = true
in_event_mask wait_hlr_check_imei_early e_hlr_imei_ack = true
in_event_mask wait_hlr_check_imei_early e_hlr_imei_nack = true
in_event_mask wait_hlr_upd e_hlr_lu_res = true
in_event_mask wait_hlr_upd e_upd_hlr_compl = true
in_event_mask wait_hlr_upd e_id_imei = true
in_event_mask wait_hlr_upd e_id_imeisv = true
in_event_mask wait_lu_compl e_lu_compl_success = true
in_event_mask wait_lu_compl e_lu_compl_failure = true
in_event_mask wait_lu_compl e_new_tmsi_ack = true
in_event_mask wait_lu_compl e_id_imei = true
in_event_mask wait_lu_compl e_id_imeisv = true
in_event_mask wait_lu_compl e_hlr_imei_ack = true
in_event_mask wait_lu_compl e_hlr_imei_nack = true
in_event_mask wait_lu_compl_standalone e_lu_compl_success = true
in_event_mask wait_lu_compl_standalone e_lu_compl_failure = true
in_event_mask wait_lu_compl_standalone e_new_tmsi_ack = true
in_event_mask _ _ = false

unfoldable pub out_state_mask : OutMask State
out_state_mask done t = false
out_state_mask s done = true
out_state_mask idle wait_imeisv = true
out_state_mask idle wait_pvlr = true
out_state_mask idle wait_imsi = true
out_state_mask idle wait_auth = true
out_state_mask idle wait_ciph = true
out_state_mask idle wait_hlr_check_imei_early = true
out_state_mask idle wait_hlr_upd = true
out_state_mask wait_imeisv wait_pvlr = true
out_state_mask wait_imeisv wait_imsi = true
out_state_mask wait_imeisv wait_auth = true
out_state_mask wait_imeisv wait_ciph = true
out_state_mask wait_imeisv wait_hlr_check_imei_early = true
out_state_mask wait_imeisv wait_hlr_upd = true
out_state_mask wait_pvlr wait_imsi = true
out_state_mask wait_pvlr wait_auth = true
out_state_mask wait_pvlr wait_ciph = true
out_state_mask wait_pvlr wait_hlr_check_imei_early = true
out_state_mask wait_auth wait_ciph = true
out_state_mask wait_auth wait_lu_compl = true
out_state_mask wait_auth wait_hlr_upd = true
out_state_mask wait_ciph wait_lu_compl = true
out_state_mask wait_ciph wait_hlr_upd = true
out_state_mask wait_imsi wait_auth = true
out_state_mask wait_imsi wait_ciph = true
out_state_mask wait_imsi wait_hlr_check_imei_early = true
out_state_mask wait_imsi wait_hlr_upd = true
out_state_mask wait_hlr_check_imei_early wait_auth = true
out_state_mask wait_hlr_check_imei_early wait_ciph = true
out_state_mask wait_hlr_check_imei_early wait_hlr_upd = true
out_state_mask wait_hlr_check_imei_early wait_lu_compl = true
out_state_mask wait_hlr_upd wait_lu_compl = true
out_state_mask wait_hlr_upd wait_lu_compl_standalone = true
out_state_mask _ _ = false

-- The tables lu_compl_vlr_states, upd_hlr_vlr_states and sub_pres_vlr_states.
unfoldable pub compl_in_event_mask : InMask ComplState ComplKind
compl_in_event_mask compl_init compl_start = true
compl_in_event_mask compl_wait_sub_pres sub_pres_compl = true
compl_in_event_mask compl_wait_imei imei_check_ack = true
compl_in_event_mask compl_wait_imei imei_check_nack = true
compl_in_event_mask compl_wait_imei_tmsi imei_check_ack = true
compl_in_event_mask compl_wait_imei_tmsi imei_check_nack = true
compl_in_event_mask compl_wait_tmsi_cnf tmsi_ack = true
compl_in_event_mask _ _ = false

unfoldable pub compl_out_state_mask : OutMask ComplState
compl_out_state_mask compl_done t = false
compl_out_state_mask s compl_done = true
compl_out_state_mask compl_init compl_wait_sub_pres = true
compl_out_state_mask compl_wait_sub_pres compl_wait_imei = true
compl_out_state_mask compl_wait_sub_pres compl_wait_imei_tmsi = true
compl_out_state_mask compl_wait_sub_pres compl_wait_tmsi_cnf = true
compl_out_state_mask compl_wait_imei_tmsi compl_wait_tmsi_cnf = true
compl_out_state_mask _ _ = false

unfoldable pub upd_in_event_mask : InMask UpdState UpdKind
upd_in_event_mask upd_init upd_start = true
upd_in_event_mask upd_wait_for_data upd_start = false
upd_in_event_mask upd_wait_for_data k = true
upd_in_event_mask _ _ = false

unfoldable pub upd_out_state_mask : OutMask UpdState
upd_out_state_mask upd_init upd_wait_for_data = true
upd_out_state_mask upd_wait_for_data upd_done = true
upd_out_state_mask _ _ = false

unfoldable pub pres_in_event_mask : InMask PresState PresKind
pres_in_event_mask pres_init pres_start = true
pres_in_event_mask pres_wait_for_hlr ready_sm_cnf = true
pres_in_event_mask pres_wait_for_hlr ready_sm_err = true
pres_in_event_mask _ _ = false

unfoldable pub pres_out_state_mask : OutMask PresState
pres_out_state_mask pres_init pres_wait_for_hlr = true
pres_out_state_mask pres_init pres_done = true
pres_out_state_mask pres_wait_for_hlr pres_done = true
pres_out_state_mask _ _ = false

-- ===== src/Vlr/LocationUpdate/Dispatch.antt =====
-- libvlr/vlr_lu_fsm.c: the answer of the HLR, the events of the completion, and so each event, keep
-- the invariant.
use osmo_msc.Base.{◌≡◌, refl, sym, subst, Bool, true, Option, none, some, is_some, arith}
use osmo_msc.Fsm.{masked}
use osmo_msc.Vlr.AccessRequest.{CausePtr}
use osmo_msc.Vlr.LocationUpdate.Types.{
  wait_hlr_upd, wait_lu_compl, Event, id_imei, id_imeisv, hlr_imei_ack, hlr_imei_nack, hlr_lu_res,
  upd_hlr_compl, lu_compl_success, lu_compl_failure, new_tmsi_ack, kind, UpdState,
  upd_wait_for_data, UpdKind, upd_loc_ack, upd_loc_nack, LuSubscr, tx_req_check_imei, Env, LuFsm,
  imei_check_ack, imei_check_nack, tmsi_ack, upd_init, upd_done, upd_start, ins_sub_data,
  act_trace_mode, fw_check_ss_ind,
}
use osmo_msc.Vlr.LocationUpdate.Masks.{in_event_mask, out_state_mask, upd_in_event_mask}
use osmo_msc.Vlr.LocationUpdate.Result.{state_chg, onenter}
use osmo_msc.Vlr.LocationUpdate.Invariant.{
  core, accepts, updates, auth_ok, ciph_ok, Open, Inv, lu_fsm_failure-Inv,
}
use osmo_msc.Vlr.LocationUpdate.Completing.{call-Inv, Completes}
use osmo_msc.Vlr.LocationUpdate.Starting.{start_lu_compl_fsm-Inv, to_lu_compl-Inv}
use osmo_msc.Vlr.LocationUpdate.Completion.{start_lu_compl_fsm}
use osmo_msc.Vlr.LocationUpdate.Handlers.{is_outside}
use osmo_msc.Vlr.LocationUpdate.Nodes.{
  hlr_updated, on_upd_hlr_compl, upd_hlr_term, upd_hlr_vlr_fsm_wait_data, to_upd_hlr,
}
use osmo_msc.Vlr.LocationUpdate.{lu_fsm_wait_hlr_ul_res, lu_fsm_wait_lu_compl}

handled_in :
    (env : Env) (fi : LuFsm) (cause : CausePtr)
    → fi.state ≡ wait_hlr_upd
    → on_upd_hlr_compl core env fi cause ≡ hlr_updated core env wait_hlr_upd fi cause
unfolding on_upd_hlr_compl masked in_event_mask
handled_in env fi cause s = rw s refl

module _ (a c : Bool) (env : Env) where
  -- WAIT_LU_COMPL is entered before its completion is started.
  entered :
      (fi : LuFsm)
      → fi.state ≡ wait_hlr_upd
      → state_chg core fi wait_lu_compl ≡ record fi { state = wait_lu_compl }
  unfolding state_chg masked out_state_mask onenter
  entered fi s = rw s refl

  -- What the end of Update_HLR_VLR finds.
  record Updating (fi : LuFsm) : Type 0 where
    open_ : Open a c fi
    here : fi.state ≡ wait_hlr_upd
    authenticated : auth_ok a c fi ≡ true
    ciphered : ciph_ok a c fi ≡ true
    subscribed : is_some fi.vsub ≡ true
    unaccepted : accepts fi.log ≡ 0

  Inv-Updating : (fi : LuFsm) → fi.state ≡ wait_hlr_upd → Inv a c fi → Updating fi
  Inv-Updating fi s v = ground arith

  closed :
      (fi : LuFsm) (u : UpdState) (vsub : LuSubscr)
      → Updating fi
      → Updating (record fi { vsub = some vsub; upd_hlr = some u })
  closed fi u vsub v = ground arith

  entered-Completes :
      (fi : LuFsm) → Updating fi → Completes a c env (record fi { state = wait_lu_compl })
  entered-Completes fi v = ground arith

  hlr_updated-Inv :
      (fi : LuFsm) (cause : CausePtr)
      → Updating fi
      → Inv a c (hlr_updated core env wait_hlr_upd fi cause)
  unfolding hlr_updated
  hlr_updated-Inv fi none v =
      subst (λ fi'. Inv a c (start_lu_compl_fsm core env fi')) (sym (entered fi v.here))
        (start_lu_compl_fsm-Inv a c env (record fi { state = wait_lu_compl }) v.unaccepted
          (entered-Completes fi v))
  hlr_updated-Inv fi (some cause) v = lu_fsm_failure-Inv a c fi cause v.open_

  on_upd_hlr_compl-Inv :
      (fi : LuFsm) (cause : CausePtr) → Updating fi → Inv a c (on_upd_hlr_compl core env fi cause)
  on_upd_hlr_compl-Inv fi cause v =
      subst (Inv a c) (sym (handled_in env fi cause v.here)) (hlr_updated-Inv fi cause v)

  answered-Inv :
      (fi : LuFsm) (u : Option UpdState) (o : Option LuSubscr) (e : UpdKind) (cause : CausePtr)
      → updates wait_hlr_upd u ≡ true
      → is_some o ≡ true
      → Updating fi
      → Inv a c fi
      → Inv a c (to_upd_hlr core env fi u o e cause)
  unfolding to_upd_hlr masked upd_in_event_mask upd_hlr_vlr_fsm_wait_data upd_hlr_term
  answered-Inv fi none o e cause u h v w = ground (arith, u)
  answered-Inv fi (some upd_init) o e cause u h v w = ground (arith, u)
  answered-Inv fi (some upd_done) o e cause u h v w = ground (arith, u)
  answered-Inv fi (some upd_wait_for_data) none e cause u h v w = ground (arith, h)
  answered-Inv fi (some upd_wait_for_data) (some vsub) upd_loc_ack cause u h v w =
      on_upd_hlr_compl-Inv _ _ (closed fi _ _ v)
  answered-Inv fi (some upd_wait_for_data) (some vsub) upd_loc_nack cause u h v w =
      on_upd_hlr_compl-Inv _ _ (closed fi _ _ v)
  answered-Inv fi (some upd_wait_for_data) (some vsub) upd_start cause u h v w = w
  answered-Inv fi (some upd_wait_for_data) (some vsub) ins_sub_data cause u h v w = w
  answered-Inv fi (some upd_wait_for_data) (some vsub) act_trace_mode cause u h v w = w
  answered-Inv fi (some upd_wait_for_data) (some vsub) fw_check_ss_ind cause u h v w = w

  pub lu_fsm_wait_hlr_ul_res-Inv :
      (fi : LuFsm) (e : Event)
      → fi.state ≡ wait_hlr_upd
      → in_event_mask wait_hlr_upd (kind e) ≡ true
      → is_outside e ≡ true
      → Inv a c fi
      → Inv a c (lu_fsm_wait_hlr_ul_res core env fi e)
  unfolding lu_fsm_wait_hlr_ul_res in_event_mask
  lu_fsm_wait_hlr_ul_res-Inv fi (hlr_lu_res none) s m h v =
      answered-Inv fi fi.upd_hlr fi.vsub _ _ (subst (λ t. updates t fi.upd_hlr ≡ true) s v.updating)
        (v.subscribed (rw s refl)) (Inv-Updating fi s v) v
  lu_fsm_wait_hlr_ul_res-Inv fi (hlr_lu_res (some cause)) s m h v =
      answered-Inv fi fi.upd_hlr fi.vsub _ _ (subst (λ t. updates t fi.upd_hlr ≡ true) s v.updating)
        (v.subscribed (rw s refl)) (Inv-Updating fi s v) v
  lu_fsm_wait_hlr_ul_res-Inv fi id_imei s m h v = v
  lu_fsm_wait_hlr_ul_res-Inv fi id_imeisv s m h v = v
  lu_fsm_wait_hlr_ul_res-Inv fi (upd_hlr_compl cause) s m h v = ground (arith, h)
  lu_fsm_wait_hlr_ul_res-Inv fi e s m h v = ground (arith, m)

  pub lu_fsm_wait_lu_compl-Inv :
      (fi : LuFsm) (e : Event)
      → fi.state ≡ wait_lu_compl
      → in_event_mask wait_lu_compl (kind e) ≡ true
      → is_outside e ≡ true
      → Inv a c fi
      → Inv a c (lu_fsm_wait_lu_compl core env fi e)
  unfolding lu_fsm_wait_lu_compl in_event_mask
  lu_fsm_wait_lu_compl-Inv fi new_tmsi_ack s m h v = to_lu_compl-Inv a c env fi tmsi_ack s v
  lu_fsm_wait_lu_compl-Inv fi hlr_imei_ack s m h v = to_lu_compl-Inv a c env fi imei_check_ack s v
  lu_fsm_wait_lu_compl-Inv fi hlr_imei_nack s m h v = to_lu_compl-Inv a c env fi imei_check_nack s v
  lu_fsm_wait_lu_compl-Inv fi id_imei s m h v = call-Inv a c env tx_req_check_imei fi refl v
  lu_fsm_wait_lu_compl-Inv fi id_imeisv s m h v = call-Inv a c env tx_req_check_imei fi refl v
  lu_fsm_wait_lu_compl-Inv fi (lu_compl_success cause) s m h v = ground (arith, h)
  lu_fsm_wait_lu_compl-Inv fi (lu_compl_failure cause) s m h v = ground (arith, h)
  lu_fsm_wait_lu_compl-Inv fi e s m h v = ground (arith, m)

-- ===== src/Vlr/LocationUpdate/CompletionEvents.antt =====
-- libvlr/vlr_lu_fsm.c: the start of the completion and each of its events keep the invariant.
use osmo_msc.Base.{
  ℕ, ◌≡◌, refl, ◌∙◌, Bool, true, false, ◌&&◌, not, Option, none, some, if◌then◌else◌, if_elim,
  arith,
}
use osmo_msc.Fsm.{masked}
use osmo_msc.Vlr.LocationUpdate.Types.{
  ComplState, ComplKind, compl_init, compl_wait_sub_pres, compl_wait_imei, compl_wait_imei_tmsi,
  compl_wait_tmsi_cnf, compl_done, imei_check_ack, imei_check_nack, LuSubscr, tx_id_req_imei,
  subscr_update, Compl, Env, LuFsm,
}
use osmo_msc.Vlr.LocationUpdate.Masks.{compl_in_event_mask, compl_out_state_mask}
use osmo_msc.Vlr.LocationUpdate.Result.{call}
use osmo_msc.Vlr.LocationUpdate.Completion.{
  compl_state_chg, compl_fsm_success, confirmed, lu_compl_vlr_wait_subscr_pres,
  lu_compl_vlr_wait_imei, lu_compl_vlr_wait_tmsi, compl_action, compl_event,
}
use osmo_msc.Vlr.LocationUpdate.Invariant.{core, accepts, awaits, is_settled, Inv}
use osmo_msc.Vlr.LocationUpdate.Completing.{
  is_compl_done, may_accept, Completes, failed-Inv, success_is-Inv, waiting-Inv, moved, called,
  accept-Inv, call-Inv,
}

module _ (a c : Bool) (env : Env) where
  to_imei_allowed :
      (b : Bool)
      → compl_out_state_mask compl_wait_sub_pres
          (if b then compl_wait_imei_tmsi else compl_wait_imei)
        ≡ true
  unfolding compl_out_state_mask
  to_imei_allowed b = ground arith

  settled_imei :
      (b : Bool) → is_settled (if b then compl_wait_imei_tmsi else compl_wait_imei) b ≡ true
  settled_imei b = ground arith

  awaits_imei :
      (k : Compl)
      → 0
        ≡ awaits (
            some (record k {
              state = if k.assign_tmsi then compl_wait_imei_tmsi else compl_wait_imei;
            }))
  awaits_imei k = ground arith

  from_sub_pres : (k : Compl) → k.state ≡ compl_wait_sub_pres → may_accept k ≡ true
  unfolding compl_out_state_mask
  from_sub_pres k s = ground arith

  from_imei :
      (k : Compl)
      → is_settled k.state k.assign_tmsi ≡ true
      → awaits (some k) ≡ 0
      → may_accept k ≡ true
  unfolding compl_out_state_mask
  from_imei k s w = ground arith

  settled_open :
      (k : Compl) → is_settled k.state k.assign_tmsi ≡ true → is_compl_done k.state ≡ false
  settled_open k s = ground arith

  wait_subscr_pres-Inv :
      (fi : LuFsm) (k : Compl) (vsub : LuSubscr)
      → k.state ≡ compl_wait_sub_pres
      → accepts fi.log ≡ 0
      → Completes a c env fi
      → Inv a c (lu_compl_vlr_wait_subscr_pres core env fi k vsub)
  unfolding lu_compl_vlr_wait_subscr_pres compl_state_chg masked
  wait_subscr_pres-Inv fi k vsub s n p =
      let k' = record k { sub_pres = none } in
      let t = if k.assign_tmsi then compl_wait_imei_tmsi else compl_wait_imei in
      let m : compl_out_state_mask k.state t ≡ true = rw s (to_imei_allowed k.assign_tmsi) in
      if_elim (Inv a c) (fi.cfg.check_imei_rqd && not fi.cfg.retrieve_imeisv_early)
        (λ _. call-Inv a c env tx_id_req_imei _ refl (
          rw m (
            waiting-Inv a c env fi (record k' { state = t }) (settled_imei k.assign_tmsi)
              (n ∙ awaits_imei k') p)))
        (λ _. accept-Inv a c env fi k' vsub (from_sub_pres k' s) n p)

  wait_imei-Inv :
      (fi : LuFsm) (k : Compl) (vsub : LuSubscr) (e : ComplKind)
      → is_settled k.state k.assign_tmsi ≡ true
      → awaits (some k) ≡ 0
      → accepts fi.log ≡ 0
      → Completes a c env fi
      → Inv a c (lu_compl_vlr_wait_imei core env fi k vsub e)
  unfolding lu_compl_vlr_wait_imei
  wait_imei-Inv fi k vsub imei_check_ack s w n p =
      if_elim (Inv a c) (not vsub.imei_known) (λ _. failed-Inv a c env fi k _ (settled_open k s) p)
        (λ _. accept-Inv a c env fi k vsub (from_imei k s w) n p)
  wait_imei-Inv fi k vsub imei_check_nack s w n p = failed-Inv a c env fi k _ (settled_open k s) p
  wait_imei-Inv fi k vsub _ s w n p = accept-Inv a c env fi k vsub (from_imei k s w) n p

  confirmed-Inv :
      (fi : LuFsm) (k : Compl) (vsub : LuSubscr)
      → k.state ≡ compl_wait_tmsi_cnf
      → accepts fi.log ≡ 1
      → Completes a c env fi
      → Inv a c
          (compl_fsm_success core env (call subscr_update (record fi { vsub = some vsub })) k vsub)
  confirmed-Inv fi k vsub s n p =
      success_is-Inv a c env (call subscr_update (record fi { vsub = some vsub })) k vsub
        (ground (arith, s)) n
        (called a c env subscr_update (record fi { vsub = some vsub }) refl refl refl
          (moved a c env fi vsub p))

  wait_tmsi-Inv :
      (fi : LuFsm) (k : Compl) (vsub : LuSubscr) (o : Option ℕ)
      → k.state ≡ compl_wait_tmsi_cnf
      → accepts fi.log ≡ 1
      → Completes a c env fi
      → Inv a c (confirmed core env fi k vsub o)
  unfolding confirmed
  wait_tmsi-Inv fi k vsub none s n p = failed-Inv a c env fi k _ (ground (arith, s)) p
  wait_tmsi-Inv fi k vsub (some t) s n p =
      confirmed-Inv fi k (record vsub { tmsi = some t; tmsi_new = none }) s n p

  -- The events of the completion, in the states that its mask names.
  compl_action-Inv :
      (s : ComplState) (fi : LuFsm) (k : Compl) (vsub : LuSubscr) (e : ComplKind)
      → k.state ≡ s
      → compl_in_event_mask s e ≡ true
      → is_settled s k.assign_tmsi ≡ true
      → accepts fi.log ≡ awaits (some k)
      → Completes a c env fi
      → Inv a c (compl_action core env s fi k vsub e)
  unfolding compl_action compl_in_event_mask lu_compl_vlr_wait_tmsi
  compl_action-Inv compl_wait_sub_pres fi k vsub e s m t n p =
      wait_subscr_pres-Inv fi k vsub s (n ∙ ground (arith, s)) p
  compl_action-Inv compl_wait_imei fi k vsub e s m t n p =
      wait_imei-Inv fi k vsub e (rw s t) (ground (arith, s)) (n ∙ ground (arith, s)) p
  compl_action-Inv compl_wait_imei_tmsi fi k vsub e s m t n p =
      wait_imei-Inv fi k vsub e (rw s t) (ground (arith, s)) (n ∙ ground (arith, s)) p
  compl_action-Inv compl_wait_tmsi_cnf fi k vsub e s m t n p =
      wait_tmsi-Inv fi k vsub vsub.tmsi_new s (n ∙ ground (arith, s)) p
  compl_action-Inv compl_init fi k vsub e s m t n p = ground (arith, t)
  compl_action-Inv compl_done fi k vsub e s m t n p = ground (arith, t)

  pub compl_event-Inv :
      (fi : LuFsm) (k : Compl) (vsub : LuSubscr) (e : ComplKind)
      → is_settled k.state k.assign_tmsi ≡ true
      → accepts fi.log ≡ awaits (some k)
      → Completes a c env fi
      → Inv a c (compl_event core env fi k vsub e)
  unfolding compl_event masked
  compl_event-Inv fi k vsub e t n p =
      if_elim (Inv a c) (compl_in_event_mask k.state e)
        (λ m. compl_action-Inv k.state fi k vsub e refl m t n p)
        (λ _. waiting-Inv a c env fi k t n p)

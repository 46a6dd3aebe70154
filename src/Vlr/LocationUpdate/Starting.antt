-- ===== src/Vlr/LocationUpdate/Starting.antt =====
-- libvlr/vlr_lu_fsm.c: the start of the completion, with Subscriber_Present_VLR, keeps the invariant.
use osmo_msc.Base.{
  ◌≡◌, refl, sym, ap, ◌∙◌, subst, Bool, true, false, not, Option, none, some, is_some,
  if◌then◌else◌, if_elim, arith, Option-cases, inl, inr,
}
use osmo_msc.Fsm.{masked}
use osmo_msc.Vlr.LocationUpdate.Types.{
  wait_lu_compl, ComplKind, compl_wait_sub_pres, sub_pres_compl, PresState, pres_init,
  pres_wait_for_hlr, pres_done, PresKind, LuSubscr, Compl, Env, LuFsm,
}
use osmo_msc.Vlr.LocationUpdate.Masks.{
  compl_in_event_mask, compl_out_state_mask, pres_in_event_mask,
}
use osmo_msc.Vlr.LocationUpdate.Completion.{
  compl_state_chg, compl_event, sub_pres_term, sub_pres_vlr_fsm_init, sub_pres_vlr_fsm_start,
  lu_compl_vlr_init, lu_compl_vlr_proc_alloc, start_lu_compl_for, start_lu_compl_fsm, to_lu_compl,
  sub_pres_vlr_fsm_wait_hlr, sub_pres_action, sub_pres_event, to_sub_pres,
}
use osmo_msc.Vlr.LocationUpdate.Invariant.{core, accepts, awaits, is_settled, Inv}
use osmo_msc.Vlr.LocationUpdate.Completing.{Completes, waiting-Inv, moved}
use osmo_msc.Vlr.LocationUpdate.CompletionEvents.{compl_event-Inv}

module _ (a c : Bool) (env : Env) where
  sub_pres_term-Inv :
      (fi : LuFsm) (k : Compl) (vsub : LuSubscr)
      → is_settled k.state k.assign_tmsi ≡ true
      → accepts fi.log ≡ awaits (some k)
      → Completes a c env fi
      → Inv a c (sub_pres_term core env fi k vsub)
  unfolding sub_pres_term
  sub_pres_term-Inv fi k vsub t n p =
      compl_event-Inv a c env fi (record k { sub_pres = none }) vsub sub_pres_compl t n p

  sub_pres_vlr_fsm_init-Inv :
      (fi : LuFsm) (k : Compl) (vsub : LuSubscr)
      → is_settled k.state k.assign_tmsi ≡ true
      → accepts fi.log ≡ awaits (some k)
      → Completes a c env fi
      → Inv a c (sub_pres_vlr_fsm_init core env fi k vsub)
  unfolding sub_pres_vlr_fsm_init
  sub_pres_vlr_fsm_init-Inv fi k vsub t n p =
      if_elim (Inv a c) (not vsub.ms_not_reachable_flag) (λ _. sub_pres_term-Inv fi _ vsub t n p)
        (λ _. waiting-Inv a c env fi _ t n p)

  sub_pres_vlr_fsm_start-Inv :
      (fi : LuFsm) (k : Compl) (vsub : LuSubscr)
      → is_settled k.state k.assign_tmsi ≡ true
      → accepts fi.log ≡ awaits (some k)
      → Completes a c env fi
      → Inv a c (sub_pres_vlr_fsm_start core env fi k vsub)
  unfolding sub_pres_vlr_fsm_start masked pres_in_event_mask
  sub_pres_vlr_fsm_start-Inv fi k vsub t n p = sub_pres_vlr_fsm_init-Inv fi k vsub t n p

  lu_compl_vlr_init-Inv :
      (fi : LuFsm) (k : Compl) (vsub : LuSubscr)
      → k.state ≡ compl_wait_sub_pres
      → accepts fi.log ≡ 0
      → Completes a c env fi
      → Inv a c (
          if vsub.ms_not_reachable_flag
          then sub_pres_vlr_fsm_start core env fi k vsub
          else compl_event core env fi k vsub sub_pres_compl)
  lu_compl_vlr_init-Inv fi k vsub s n p =
      if_elim (Inv a c) vsub.ms_not_reachable_flag
        (λ _. sub_pres_vlr_fsm_start-Inv fi k vsub (ground (arith, s)) (n ∙ ground (arith, s)) p)
        (λ _.
          compl_event-Inv a c env fi k vsub sub_pres_compl (ground (arith, s))
            (n ∙ ground (arith, s)) p)

  start_lu_compl_for-Inv :
      (fi : LuFsm) (o : Option LuSubscr)
      → is_some o ≡ true
      → accepts fi.log ≡ 0
      → Completes a c env fi
      → Inv a c (start_lu_compl_for core env fi o)
  unfolding start_lu_compl_for lu_compl_vlr_init masked compl_in_event_mask lu_compl_vlr_proc_alloc
      compl_state_chg compl_out_state_mask
  start_lu_compl_for-Inv fi none h n p = ground (arith, h)
  start_lu_compl_for-Inv fi (some vsub) h n p =
      let vsub' = record vsub { la_allowed = true; imsi_detached_flag = false } in
      lu_compl_vlr_init-Inv (record fi { vsub = some vsub' }) _ vsub' refl n
        (moved a c env fi vsub' p)

  pub start_lu_compl_fsm-Inv :
      (fi : LuFsm)
      → accepts fi.log ≡ 0
      → Completes a c env fi
      → Inv a c (start_lu_compl_fsm core env fi)
  unfolding start_lu_compl_fsm
  start_lu_compl_fsm-Inv fi n p = start_lu_compl_for-Inv fi fi.vsub p.subscribed n p

  -- A location update that completes, between two events.
  Inv-Completes : (fi : LuFsm) → fi.state ≡ wait_lu_compl → Inv a c fi → Completes a c env fi
  Inv-Completes fi s v = ground arith

  settled :
      (fi : LuFsm) (k : Compl)
      → fi.state ≡ wait_lu_compl
      → fi.lu_compl ≡ some k
      → Inv a c fi
      → is_settled k.state k.assign_tmsi ≡ true
  settled fi k s q v = let h = v.completing in ground (arith, h, s, q)

  accepted_so_far :
      (fi : LuFsm) (k : Compl)
      → fi.state ≡ wait_lu_compl
      → fi.lu_compl ≡ some k
      → Inv a c fi
      → accepts fi.log ≡ awaits (some k)
  accepted_so_far fi k s q v = v.accepted_before (rw s refl) ∙ ap awaits q

  to_lu_compl_with :
      (fi : LuFsm) (k : Compl) (o : Option LuSubscr) (e : ComplKind)
      → is_some o ≡ true
      → fi.state ≡ wait_lu_compl
      → fi.lu_compl ≡ some k
      → Inv a c fi
      → Inv a c (to_lu_compl core env fi (some k) o e)
  unfolding to_lu_compl
  to_lu_compl_with fi k none e h s q v = ground (arith, h)
  to_lu_compl_with fi k (some vsub) e h s q v =
      compl_event-Inv a c env fi k vsub e (settled fi k s q v) (accepted_so_far fi k s q v)
        (Inv-Completes fi s v)

  pub to_lu_compl-Inv :
      (fi : LuFsm) (e : ComplKind)
      → fi.state ≡ wait_lu_compl
      → Inv a c fi
      → Inv a c (to_lu_compl core env fi fi.lu_compl fi.vsub e)
  to_lu_compl-Inv fi e s v = elim (Option-cases fi.lu_compl) [
    | inl q ↦ ground (arith, v.completing, s, q)
    | inr (k, q) ↦
        subst (λ o. Inv a c (to_lu_compl core env fi o fi.vsub e)) (sym q)
          (to_lu_compl_with fi k fi.vsub e (v.subscribed (rw s refl)) s q v)
  ]

  sub_pres_action-Inv :
      (s : PresState) (fi : LuFsm) (k : Compl) (vsub : LuSubscr) (e : PresKind)
      → is_settled k.state k.assign_tmsi ≡ true
      → accepts fi.log ≡ awaits (some k)
      → Inv a c fi
      → Completes a c env fi
      → Inv a c (sub_pres_action core env s fi k vsub e)
  unfolding sub_pres_action sub_pres_vlr_fsm_wait_hlr
  sub_pres_action-Inv pres_init fi k vsub e t n v p = sub_pres_vlr_fsm_init-Inv fi k vsub t n p
  sub_pres_action-Inv pres_wait_for_hlr fi k vsub e t n v p =
      sub_pres_term-Inv _ k _ t n (moved a c env fi _ p)
  sub_pres_action-Inv pres_done fi k vsub e t n v p = v

  sub_pres_event-Inv :
      (fi : LuFsm) (k : Compl) (vsub : LuSubscr) (o : Option PresState) (e : PresKind)
      → is_settled k.state k.assign_tmsi ≡ true
      → accepts fi.log ≡ awaits (some k)
      → Inv a c fi
      → Completes a c env fi
      → Inv a c (sub_pres_event core env fi k vsub o e)
  unfolding sub_pres_event masked
  sub_pres_event-Inv fi k vsub none e t n v p = v
  sub_pres_event-Inv fi k vsub (some s) e t n v p =
      if_elim (Inv a c) (pres_in_event_mask s e) (λ _. sub_pres_action-Inv s fi k vsub e t n v p)
        (λ _. v)

  -- The completion is there only in WAIT_LU_COMPL.
  here : (fi : LuFsm) (k : Compl) → fi.lu_compl ≡ some k → Inv a c fi → fi.state ≡ wait_lu_compl
  here fi k q v = let h = v.completing in ground (arith, q, h)

  to_sub_pres_with :
      (fi : LuFsm) (k : Compl) (o : Option LuSubscr) (e : PresKind)
      → is_some o ≡ true
      → fi.lu_compl ≡ some k
      → Inv a c fi
      → Inv a c (to_sub_pres core env fi (some k) o e)
  unfolding to_sub_pres
  to_sub_pres_with fi k none e h q v = ground (arith, h)
  to_sub_pres_with fi k (some vsub) e h q v =
      let s = here fi k q v in
      sub_pres_event-Inv fi k vsub k.sub_pres e (settled fi k s q v) (accepted_so_far fi k s q v) v
        (Inv-Completes fi s v)

  pub to_sub_pres-Inv :
      (fi : LuFsm) (e : PresKind)
      → Inv a c fi
      → Inv a c (to_sub_pres core env fi fi.lu_compl fi.vsub e)
  unfolding to_sub_pres
  to_sub_pres-Inv fi e v = elim (Option-cases fi.lu_compl) [
    | inl q ↦ subst (λ o. Inv a c (to_sub_pres core env fi o fi.vsub e)) (sym q) v
    | inr (k, q) ↦
        subst (λ o. Inv a c (to_sub_pres core env fi o fi.vsub e)) (sym q)
          (to_sub_pres_with fi k fi.vsub e (v.subscribed (rw (here fi k q v) refl)) q v)
  ]

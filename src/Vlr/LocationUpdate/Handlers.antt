-- ===== src/Vlr/LocationUpdate/Handlers.antt =====
-- libvlr/vlr_lu_fsm.c: the action of each state keeps the invariant.
use osmo_msc.Base.{
  ℕ, ◌<◌, ◌≡◌, refl, Bool, true, false, ◌||◌, not, Option, none, some, List, is_some, if_elim,
  arith,
}
use osmo_msc.Vlr.AccessRequest.{ciph_compl, Link}
use osmo_msc.Vlr.LocationUpdate.Types.{
  idle, wait_auth, wait_ciph, wait_imsi, wait_hlr_check_imei_early, Event, auth_success,
  auth_no_info, auth_failure, ciph_res, id_imsi, hlr_imei_ack, hlr_imei_nack, upd_hlr_compl,
  lu_compl_success, lu_compl_failure, kind, LuSubscr, Call, subscr_assoc, Env, LuFsm,
}
use osmo_msc.Vlr.LocationUpdate.Masks.{in_event_mask}
use osmo_msc.Vlr.LocationUpdate.Result.{call}
use osmo_msc.Vlr.LocationUpdate.Invariant.{core, accepts, auth_ok, Open, Inv, lu_fsm_failure-Inv}
use osmo_msc.Vlr.LocationUpdate.Completing.{is_plain}
use osmo_msc.Vlr.LocationUpdate.Steps.{
  rank, Ready, moved-Ready, post_ciph-Inv, post_auth-Inv, node1-Inv, node1_pre-Inv, associated-Inv,
}
use osmo_msc.Vlr.LocationUpdate.Nodes.{cancel_stale, assoc_lfp_with_sub}
use osmo_msc.Vlr.LocationUpdate.{
  by_identity, associate, lu_fsm_idle, lu_fsm_wait_auth, lu_fsm_wait_ciph,
  lu_fsm_wait_hlr_check_imei_early, lu_fsm_wait_imsi,
}

-- An event from outside the machine and its children.
abbrev pub is_outside : Event → Bool
is_outside (upd_hlr_compl cause) = false
is_outside (lu_compl_success cause) = false
is_outside (lu_compl_failure cause) = false
is_outside _ = true

abbrev pub is_auth_success : Event → Bool
is_auth_success auth_success = true
is_auth_success _ = false

abbrev pub is_ciph_compl : Event → Bool
is_ciph_compl (ciph_res (some ciph_compl)) = true
is_ciph_compl _ = false

module _ (a c : Bool) (env : Env) where
  pub Inv-Ready :
      (fi : LuFsm) → rank fi.state < 6 → is_some fi.vsub ≡ true → Inv a c fi → Ready a c fi
  Inv-Ready fi h s v = ground arith

  pub Inv-mono : (x y : Bool) (fi : LuFsm) → Inv a c fi → Inv (a || x) (c || y) fi
  Inv-mono x y fi v = ground arith

  pub Ready-mono : (x y : Bool) (fi : LuFsm) → Ready a c fi → Ready (a || x) (c || y) fi
  Ready-mono x y fi p = ground arith

  -- The association of a subscriber, in IDLE.
  record Fresh (fi : LuFsm) : Type 0 where
    open_ : Open a c fi
    here : fi.state ≡ idle
    unaccepted : accepts fi.log ≡ 0
    childless : fi.lu_compl ≡ none

  cancel_stale-Fresh : (l : Link) (fi : LuFsm) → Fresh fi → Fresh (cancel_stale core env l fi)
  unfolding cancel_stale
  cancel_stale-Fresh l fi o = ground arith

  call-Fresh : (k : Call) (fi : LuFsm) → is_plain k ≡ true → Fresh fi → Fresh (call k fi)
  call-Fresh k fi h o = ground arith

  by_identity-Fresh : (l : List ℕ) (fi : LuFsm) → Fresh fi → Fresh (by_identity core env l fi)
  unfolding by_identity
  by_identity-Fresh l fi o = ground arith

  Fresh-Ready :
      (fi : LuFsm) (vsub : LuSubscr) → Fresh fi → Ready a c (record fi { vsub = some vsub })
  Fresh-Ready fi vsub o = ground arith

  Inv-Fresh : (fi : LuFsm) → fi.state ≡ idle → Inv a c fi → Fresh fi
  Inv-Fresh fi s v = ground arith

  assoc_lfp_with_sub-Inv :
      (fi : LuFsm) (vsub : LuSubscr) → Fresh fi → Inv a c (assoc_lfp_with_sub core env fi vsub)
  unfolding assoc_lfp_with_sub
  assoc_lfp_with_sub-Inv fi vsub o =
      let stale = cancel_stale core env vsub.lu_fsm fi in
      let o' = call-Fresh subscr_assoc stale refl (cancel_stale-Fresh vsub.lu_fsm fi o) in
      if_elim (Inv a c) (not env.assoc_ok)
        (λ _.
          lu_fsm_failure-Inv a c (record (call subscr_assoc stale) { vsub = none }) _
            (without (call subscr_assoc stale) o'.open_))
        (λ _.
          associated-Inv a c env _ _ (rw o'.here (omega arith))
            (Fresh-Ready (call subscr_assoc stale) _ o'))
    where
      without : (fi : LuFsm) → Open a c fi → Open a c (record fi { vsub = none })
      without fi o = ground arith

  associate-Inv : (fi : LuFsm) (o : Option LuSubscr) → Fresh fi → Inv a c (associate core env fi o)
  unfolding associate
  associate-Inv fi none f = lu_fsm_failure-Inv a c fi _ f.open_
  associate-Inv fi (some vsub) f = assoc_lfp_with_sub-Inv fi _ f

  pub lu_fsm_idle-Inv :
      (fi : LuFsm) (o : Option LuSubscr)
      → fi.state ≡ idle
      → Inv a c fi
      → Inv a c (lu_fsm_idle core env fi o)
  unfolding lu_fsm_idle
  lu_fsm_idle-Inv fi o s v = associate-Inv _ o (by_identity-Fresh fi.imsi fi (Inv-Fresh fi s v))

  -- After authentication and after ciphering, with what they add.
  pub lu_fsm_wait_auth-Inv :
      (fi : LuFsm) (vsub : LuSubscr) (e : Event)
      → in_event_mask wait_auth (kind e) ≡ true
      → rank fi.state < 5
      → Ready (a || is_auth_success e) c fi
      → Inv (a || is_auth_success e) c (lu_fsm_wait_auth core env fi vsub e)
  unfolding lu_fsm_wait_auth in_event_mask
  lu_fsm_wait_auth-Inv fi vsub auth_success m h p =
      post_auth-Inv (a || true) c env fi vsub h p (ground arith)
  lu_fsm_wait_auth-Inv fi vsub (auth_failure cause) m h p =
      lu_fsm_failure-Inv (a || false) c fi _ p.open_
  lu_fsm_wait_auth-Inv fi vsub (auth_no_info cause) m h p =
      if_elim (Inv (a || false) c) (fi.authentication_required || fi.is_ciphering_required)
        (λ _. lu_fsm_failure-Inv (a || false) c fi _ p.open_)
        (λ q. post_auth-Inv (a || false) c env fi vsub h p (ground (arith, q)))
  lu_fsm_wait_auth-Inv fi vsub e m h p = ground (arith, m)

  pub lu_fsm_wait_ciph-Inv :
      (fi : LuFsm) (vsub : LuSubscr) (e : Event)
      → in_event_mask wait_ciph (kind e) ≡ true
      → Ready a (c || is_ciph_compl e) fi
      → auth_ok a c fi ≡ true
      → Inv a (c || is_ciph_compl e) (lu_fsm_wait_ciph core env fi vsub e)
  unfolding lu_fsm_wait_ciph in_event_mask
  lu_fsm_wait_ciph-Inv fi vsub (ciph_res (some ciph_compl)) m p x =
      post_ciph-Inv a (c || true) env fi vsub p x (ground arith)
  lu_fsm_wait_ciph-Inv fi vsub (ciph_res r) m p x =
      lu_fsm_failure-Inv a (c || is_ciph_compl (ciph_res r)) fi _ p.open_
  lu_fsm_wait_ciph-Inv fi vsub e m p x = ground (arith, m)

  pub lu_fsm_wait_hlr_check_imei_early-Inv :
      (fi : LuFsm) (vsub : LuSubscr) (e : Event)
      → in_event_mask wait_hlr_check_imei_early (kind e) ≡ true
      → rank fi.state < 4
      → Ready a c fi
      → Inv a c (lu_fsm_wait_hlr_check_imei_early core env fi vsub e)
  unfolding lu_fsm_wait_hlr_check_imei_early in_event_mask
  lu_fsm_wait_hlr_check_imei_early-Inv fi vsub hlr_imei_ack m h p = node1-Inv a c env fi vsub h p
  lu_fsm_wait_hlr_check_imei_early-Inv fi vsub hlr_imei_nack m h p =
      lu_fsm_failure-Inv a c fi _ p.open_
  lu_fsm_wait_hlr_check_imei_early-Inv fi vsub e m h p = ground (arith, m)

  pub lu_fsm_wait_imsi-Inv :
      (fi : LuFsm) (vsub : LuSubscr) (e : Event)
      → in_event_mask wait_imsi (kind e) ≡ true
      → rank fi.state < 3
      → Ready a c fi
      → Inv a c (lu_fsm_wait_imsi core env fi vsub e)
  unfolding lu_fsm_wait_imsi in_event_mask
  lu_fsm_wait_imsi-Inv fi vsub (id_imsi digits) m h p =
      node1_pre-Inv a c env _ _ h (moved-Ready fi _ p)
  lu_fsm_wait_imsi-Inv fi vsub e m h p = ground (arith, m)

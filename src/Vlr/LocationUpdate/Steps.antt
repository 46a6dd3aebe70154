-- ===== src/Vlr/LocationUpdate/Steps.antt =====
-- libvlr/vlr_lu_fsm.c: each way from one state to the next, up to the answer of the HLR, keeps the
-- invariant.
use osmo_msc.Base.{
  ℕ, ◌<◌, ◌≡◌, refl, sym, subst, Bool, true, false, ◌&&◌, ◌||◌, not, none, some, List, [], ◌∷◌,
  is_some, if_elim, arith,
}
use osmo_msc.Fsm.{masked}
use osmo_msc.Vlr.AccessRequest.{is_none, umts_aka}
use osmo_msc.Vlr.LocationUpdate.Types.{
  State, FsmResult, LuSubscr, Call, Env, LuFsm, idle, wait_imeisv, wait_auth, wait_ciph, wait_imsi,
  wait_hlr_check_imei_early, wait_hlr_upd, upd_wait_for_data, tx_id_req_imsi, tx_id_req_imeisv,
  tx_common_id, tx_req_check_imei, req_lu, start_auth, set_ciph_mode, sgs_rx_lu,
}
use osmo_msc.Vlr.LocationUpdate.Masks.{out_state_mask, upd_in_event_mask, upd_out_state_mask}
use osmo_msc.Vlr.LocationUpdate.Result.{call, state_chg, onenter}
use osmo_msc.Vlr.LocationUpdate.Invariant.{
  core, accepts, is_done, is_used, past_auth, past_ciph, auth_ok, ciph_ok, Open, Inv,
  lu_fsm_failure-Inv, state_chg-Inv,
}
use osmo_msc.Vlr.LocationUpdate.Completing.{is_plain, call-Inv}
use osmo_msc.Vlr.LocationUpdate.Nodes.{
  is_cmc_smc_to_be_attempted, upd_state_chg, upd_hlr_vlr_proc_start, node_4, post_ciph, is_no_tuple,
  post_auth, try_auth, node1_by, node1, node1_pre, want_imsi, start_lu_by, start_lu_main,
  associated, is_periodic,
}

-- The order in which the states up to WAIT_HLR_UPD follow each other; 7 for the others.
abbrev pub rank : State → ℕ
rank idle = 0
rank wait_imeisv = 1
rank wait_imsi = 2
rank wait_hlr_check_imei_early = 3
rank wait_auth = 4
rank wait_ciph = 5
rank wait_hlr_upd = 6
rank _ = 7

allowed : (s t : State) → rank s < rank t → rank t < 7 → out_state_mask s t ≡ true
unfolding out_state_mask
allowed s t h u = ground arith

-- Before the HLR is asked: nothing has been told to the phone or to the parent.
pub record Ready (a c : Bool) (fi : LuFsm) : Type 0 where
  pub open_ : Open a c fi
  pub early : rank fi.state < 6
  pub subscribed : is_some fi.vsub ≡ true
  pub unaccepted : accepts fi.log ≡ 0
  pub childless : fi.lu_compl ≡ none

pub moved-Ready :
    {a c : Bool} (fi : LuFsm) (vsub : LuSubscr)
    → Ready a c fi
    → Ready a c (record fi { vsub = some vsub })
moved-Ready fi vsub p = ground arith

pub call-Ready :
    {a c : Bool} (k : Call) (fi : LuFsm) → is_plain k ≡ true → Ready a c fi → Ready a c (call k fi)
call-Ready k fi h p = ground arith

module _ (a c : Bool) (env : Env) where
  -- WAIT_HLR_UPD is entered with the request to the HLR under way.
  asked :
      (fi : LuFsm)
      → out_state_mask fi.state wait_hlr_upd ≡ true
      → node_4 core env fi
        ≡ call req_lu (record fi { state = wait_hlr_upd; upd_hlr = some upd_wait_for_data })
  unfolding node_4 upd_hlr_vlr_proc_start upd_state_chg upd_out_state_mask upd_in_event_mask
      state_chg masked onenter
  asked fi m = rw m refl

  asked-Inv :
      (fi : LuFsm)
      → Ready a c fi
      → auth_ok a c fi ≡ true
      → ciph_ok a c fi ≡ true
      → Inv a c (call req_lu (record fi { state = wait_hlr_upd; upd_hlr = some upd_wait_for_data }))
  asked-Inv fi p x y = ground arith

  node_4-Inv :
      (fi : LuFsm)
      → Ready a c fi
      → auth_ok a c fi ≡ true
      → ciph_ok a c fi ≡ true
      → Inv a c (node_4 core env fi)
  node_4-Inv fi p x y =
      subst (Inv a c) (sym (asked fi (allowed fi.state wait_hlr_upd p.early (omega arith))))
        (asked-Inv fi p x y)

  pub post_ciph-Inv :
      (fi : LuFsm) (vsub : LuSubscr)
      → Ready a c fi
      → auth_ok a c fi ≡ true
      → ciph_ok a c fi ≡ true
      → Inv a c (post_ciph core env fi vsub)
  unfolding post_ciph
  post_ciph-Inv fi vsub p x y =
      node_4-Inv _ (moved-Ready (call tx_common_id fi) _ (call-Ready tx_common_id fi refl p)) x y

  -- A wait is entered in order.
  onward-Inv :
      (fi : LuFsm) (t : State)
      → rank fi.state < rank t
      → rank t < 6
      → (past_auth t fi.result ≡ true → auth_ok a c fi ≡ true)
      → Ready a c fi
      → Inv a c (state_chg core fi t)
  onward-Inv fi t h u x p =
      state_chg-Inv a c fi t (allowed fi.state t h (omega arith)) (waits t fi.result u) x
        p.subscribed p.unaccepted p.childless p.open_
    where
      waits :
          (t : State) (r : FsmResult)
          → rank t < 6
          → (is_used t && (not (past_ciph t r) && not (is_done t))) ≡ true
      waits t r u = ground arith

  -- Ciphering may be left out only where it is not required.
  skipped_ciph :
      (fi : LuFsm) (b : Bool)
      → Open a c fi
      → (not (is_cmc_smc_to_be_attempted fi) || (b && not fi.is_ciphering_required)) ≡ true
      → ciph_ok a c fi ≡ true
  unfolding is_cmc_smc_to_be_attempted
  skipped_ciph fi b o h = ground arith

  pub post_auth-Inv :
      (fi : LuFsm) (vsub : LuSubscr)
      → rank fi.state < 5
      → Ready a c fi
      → auth_ok a c fi ≡ true
      → Inv a c (post_auth core env fi vsub)
  unfolding post_auth
  post_auth-Inv fi vsub h p x =
      let k = set_ciph_mode (umts_aka vsub.auth.sec_ctx) fi.cfg.retrieve_imeisv_ciphered in
      let p' = call-Ready k fi refl p in
      if_elim (Inv a c)
        (not (is_cmc_smc_to_be_attempted fi)
          || (is_none vsub.auth.sec_ctx && not fi.is_ciphering_required))
        (λ s. post_ciph-Inv fi vsub p x (skipped_ciph fi (is_none vsub.auth.sec_ctx) p.open_ s))
        (λ _.
          if_elim (Inv a c) (is_no_tuple vsub.auth.last_tuple || is_none vsub.auth.sec_ctx)
            (λ _. lu_fsm_failure-Inv a c fi _ p.open_)
            (λ _.
              if_elim (Inv a c) (not env.ciph_ok) (λ _. lu_fsm_failure-Inv a c _ _ p'.open_)
                (λ _. onward-Inv (call k fi) wait_ciph h (omega arith) (λ _. x) p')))

  unauthenticated :
      (fi : LuFsm) (vsub : LuSubscr) → (try_auth core env fi vsub).0 ≡ false → auth_ok a c fi ≡ true
  unfolding try_auth
  unauthenticated fi vsub h = ground arith

  node1_by-Inv :
      (fi : LuFsm) (d : Bool × LuSubscr)
      → rank fi.state < 4
      → Ready a c fi
      → (d.0 ≡ false → auth_ok a c fi ≡ true)
      → Inv a c (node1_by core env fi d)
  unfolding node1_by
  node1_by-Inv fi (true, vsub) h p x = call-Inv a c env start_auth _ refl (
      onward-Inv (record fi { vsub = some vsub }) wait_auth h (omega arith) (λ q. ground (arith, q))
        (moved-Ready fi vsub p))
  node1_by-Inv fi (false, vsub) h p x =
      post_auth-Inv (record fi { vsub = some vsub }) vsub (omega arith) (moved-Ready fi vsub p)
        (x refl)

  pub node1-Inv :
      (fi : LuFsm) (vsub : LuSubscr)
      → rank fi.state < 4
      → Ready a c fi
      → Inv a c (node1 core env fi vsub)
  unfolding node1
  node1-Inv fi vsub h p = node1_by-Inv fi _ h p (unauthenticated fi vsub)

  pub node1_pre-Inv :
      (fi : LuFsm) (vsub : LuSubscr)
      → rank fi.state < 3
      → Ready a c fi
      → Inv a c (node1_pre core env fi vsub)
  unfolding node1_pre
  node1_pre-Inv fi vsub h p =
      if_elim (Inv a c) (fi.cfg.check_imei_rqd && fi.cfg.retrieve_imeisv_early)
        (λ _.
          call-Inv a c env tx_req_check_imei _ refl
            (onward-Inv fi wait_hlr_check_imei_early h (omega arith) (λ q. ground (arith, q)) p))
        (λ _. node1-Inv fi vsub (omega arith) p)

  start_lu_by-Inv :
      (fi : LuFsm) (vsub : LuSubscr) (imsi : List ℕ)
      → rank fi.state < 2
      → Ready a c fi
      → Inv a c (start_lu_by core env fi vsub imsi)
  unfolding start_lu_by want_imsi
  start_lu_by-Inv fi vsub [] h p =
      call-Inv a c env tx_id_req_imsi _ refl
        (onward-Inv fi wait_imsi h (omega arith) (λ q. ground (arith, q)) p)
  start_lu_by-Inv fi vsub (d ∷ ds) h p = node1_pre-Inv fi vsub (omega arith) p

  pub start_lu_main-Inv :
      (fi : LuFsm) (vsub : LuSubscr)
      → rank fi.state < 2
      → Ready a c fi
      → Inv a c (start_lu_main core env fi vsub)
  unfolding start_lu_main
  start_lu_main-Inv fi vsub h p = start_lu_by-Inv fi vsub vsub.auth.imsi h p

  pub associated-Inv :
      (fi : LuFsm) (vsub : LuSubscr)
      → rank fi.state < 1
      → Ready a c fi
      → Inv a c (associated core env fi vsub)
  unfolding associated
  associated-Inv fi vsub h p =
      let p' = call-Ready sgs_rx_lu fi refl p in
      if_elim (Inv a c)
        (not fi.cfg.retrieve_imeisv_early || (is_periodic fi.lu_type && vsub.imeisv_known))
        (λ _. start_lu_main-Inv (call sgs_rx_lu fi) vsub (omega arith) p')
        (λ _.
          onward-Inv _ wait_imeisv h (omega arith) (λ q. ground (arith, q))
            (call-Ready tx_id_req_imeisv _ refl p'))

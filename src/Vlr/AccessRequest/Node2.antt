-- ===== src/Vlr/AccessRequest/Node2.antt =====
-- libvlr/vlr_access_req_fsm.c: ciphering, the update of the HLR and what follows keep the invariant.
use osmo_msc.Base.{
  Bool, ◌≡◌, ◌≢◌, refl, sym, subst, ◌⊎◌, inl, inr, true, false, some, is_some, arith,
}
use osmo_msc.Vlr.Reject.{RejectValue}
use osmo_msc.Vlr.AccessRequest.{
  wait_ciph, wait_upd_loc_child, wait_sub_pres, wait_ceck_conf, start_sub_pres, start_upd_hlr,
  tx_common_id, set_ciph_mode, umts_aka, is_cmc_smc_to_be_attempted, call, ArqSubscr, ArqFsm, Env,
  state_chg, fsm_done, node2_post_vlr, node2_post_ciph, node2, post_pres,
}
use osmo_msc.Vlr.AccessRequest.Invariant.{
  core, is_done, secured, before_ciph, before_upd_loc, before_pres, Inv, wait_sub_pres_allowed,
  wait_upd_loc_allowed, wait_ciph_allowed, fsm_done-Inv, post_pres-Inv, call-Inv, state_chg-Inv,
}

module _ (z : Bool) (env : Env) where
  node2_post_vlr_cases :
      (fi : ArqFsm) (vsub : ArqSubscr)
      → let fi' = record fi { vsub = some (record vsub { imsi_detached_flag = false }) } in
        let r = node2_post_vlr core env fi vsub in
        (r ≡ fsm_done core env fi (some RejectValue.imsi_unknown_in_hlr))
        ⊎ ((r ≡ call start_sub_pres (state_chg core env fi' wait_sub_pres))
            ⊎ (r ≡ post_pres core env fi'))
  unfolding node2_post_vlr
  node2_post_vlr_cases fi vsub = ground arith

  pub node2_post_vlr-Inv :
      (fi : ArqFsm) (vsub : ArqSubscr)
      → before_pres fi.state ≡ true
      → secured z fi ≡ true
      → Inv z fi
      → Inv z (node2_post_vlr core env fi vsub)
  node2_post_vlr-Inv fi vsub s c v = elim (node2_post_vlr_cases fi vsub) [
    | inl e ↦
        subst (Inv z) (sym e) (fsm_done-Inv z env fi RejectValue.imsi_unknown_in_hlr live named v)
    | inr (inl e) ↦ subst (Inv z) (sym e) (
        call-Inv z env start_sub_pres _ refl (
          state_chg-Inv z env fi' wait_sub_pres (wait_sub_pres_allowed fi.state s) refl live
            (λ e. cc) (λ _. c) (λ _. refl) v'))
    | inr (inr e) ↦ subst (Inv z) (sym e) (post_pres-Inv z env fi' live named c v')
  ]
    where
      live : is_done fi.state ≡ false
      live = ground arith

      named : fi.state ≢ wait_ceck_conf
      named = ground arith

      fi' : ArqFsm
      fi' = record fi { vsub = some (record vsub { imsi_detached_flag = false }) }

      v' : Inv z fi'
      v' = ground arith

  node2_post_ciph_cases :
      (fi : ArqFsm) (vsub : ArqSubscr)
      → let w = record vsub { conf_by_radio_contact_ind = true } in
        let fi' = call tx_common_id (record fi { vsub = some w }) in
        let r = node2_post_ciph core env fi vsub in
        (r ≡ state_chg core env (call start_upd_hlr fi') wait_upd_loc_child)
        ⊎ (r ≡ node2_post_vlr core env fi' w)
  unfolding node2_post_ciph
  node2_post_ciph_cases fi vsub = ground arith

  pub node2_post_ciph-Inv :
      (fi : ArqFsm) (vsub : ArqSubscr)
      → before_upd_loc fi.state ≡ true
      → secured z fi ≡ true
      → Inv z fi
      → Inv z (node2_post_ciph core env fi vsub)
  node2_post_ciph-Inv fi vsub s c v = elim (node2_post_ciph_cases fi vsub) [
    | inl e ↦ subst (Inv z) (sym e) (
        state_chg-Inv z env (call start_upd_hlr fi') wait_upd_loc_child
          (wait_upd_loc_allowed fi.state s) refl (ground arith) (λ e. cc) (λ _. c) (λ _. refl)
          (call-Inv z env start_upd_hlr fi' refl v'))
    | inr e ↦ subst (Inv z) (sym e) (node2_post_vlr-Inv fi' w (ground arith) c v')
  ]
    where
      w : ArqSubscr
      w = record vsub { conf_by_radio_contact_ind = true }

      fi' : ArqFsm
      fi' = call tx_common_id (record fi { vsub = some w })

      v' : Inv z fi'
      v' = call-Inv z env tx_common_id (record fi { vsub = some w }) refl (ground arith)

  -- Ciphering is left out only where it is not required, or for a group call.
  node2_cases :
      (fi : ArqFsm) (vsub : ArqSubscr)
      → Inv z fi
      → let fi' =
          call (set_ciph_mode (umts_aka vsub.auth.sec_ctx) fi.cfg.retrieve_imeisv_ciphered) fi in
        let r = node2 core env fi vsub in
        ((r ≡ node2_post_ciph core env fi vsub) × (secured z fi ≡ true))
        ⊎ ((r ≡ fsm_done core env fi (some RejectValue.network_failure))
            ⊎ ((r ≡ fsm_done core env fi' (some RejectValue.network_failure))
                ⊎ (r ≡ state_chg core env (record fi' { implicitly_accepted = true }) wait_ciph)))
  unfolding node2 is_cmc_smc_to_be_attempted
  node2_cases fi vsub v = ground arith

  pub node2-Inv :
      (fi : ArqFsm) (vsub : ArqSubscr)
      → before_ciph fi.state ≡ true
      → is_some fi.vsub ≡ true
      → Inv z fi
      → Inv z (node2 core env fi vsub)
  node2-Inv fi vsub s has v = elim (node2_cases fi vsub v) [
    | inl (e, c) ↦ subst (Inv z) (sym e) (node2_post_ciph-Inv fi vsub (ground arith) c v)
    | inr (inl e) ↦
        subst (Inv z) (sym e)
          (fsm_done-Inv z env fi RejectValue.network_failure live (ground arith) v)
    | inr (inr (inl e)) ↦
        subst (Inv z) (sym e)
          (fsm_done-Inv z env fi' RejectValue.network_failure live (ground arith) v')
    | inr (inr (inr e)) ↦ subst (Inv z) (sym e) (
        state_chg-Inv z env (record fi' { implicitly_accepted = true }) wait_ciph
          (wait_ciph_allowed fi.state s) refl live (λ _. refl) (λ h. cc) (λ _. has) (ground arith))
  ]
    where
      live : is_done fi.state ≡ false
      live = ground arith

      fi' : ArqFsm
      fi' = call (set_ciph_mode (umts_aka vsub.auth.sec_ctx) fi.cfg.retrieve_imeisv_ciphered) fi

      v' : Inv z fi'
      v' =
          call-Inv z env
            (set_ciph_mode (umts_aka vsub.auth.sec_ctx) fi.cfg.retrieve_imeisv_ciphered) fi refl v

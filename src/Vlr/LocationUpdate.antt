-- ===== src/Vlr/LocationUpdate.antt =====
-- libvlr/vlr_lu_fsm.c: the location update, Update_Location_Area_VLR, with the child machine
-- Update_HLR_VLR. The other children are in Completion, the end of the machine in Result. Calls into
-- the rest of the system are recorded, newest first, in `log`. A failed assertion and a null
-- subscriber set `assert_failed`. Timers are left out.
pub mod Types
pub mod Masks
pub mod Result
pub mod Completion
pub mod Nodes
pub mod Invariant
pub mod Completing
pub mod CompletionEvents
pub mod Starting
pub mod Steps
pub mod Handlers
pub mod Dispatch
pub mod Runs
pub mod Security
pub mod Tests
use osmo_msc.Base.{
  ℕ, zero, Bool, true, false, ◌&&◌, ◌||◌, not, Option, none, some, List, [], ◌∷◌, if◌then◌else◌,
  take, is_some,
}
use osmo_msc.Vlr.Subscr.{SecCtx, sec_none, try_reuse_tuple}
use osmo_msc.Vlr.Reject.{RejectValue}
use osmo_msc.Vlr.AccessRequest.{
  CausePtr, CiphResult, ciph_compl, Link, unlinked, this_fsm, other_fsm, is_none, umts_aka,
}
use osmo_msc.Vlr.Auth.{imsi_max_digits}
use Types.*
use Masks.*
use Result.*
use Completion.*
use Nodes.*

module _ (cores : Cores) (env : Env) where
  unfoldable pub by_identity : List ℕ → LuFsm → LuFsm
  by_identity [] fi = record fi { lu_by_tmsi = true }
  by_identity _ fi = fi

  unfoldable pub associate : LuFsm → Option LuSubscr → LuFsm
  associate fi none = lu_fsm_failure cores fi (some RejectValue.srv_opt_tmp_out_of_order)
  associate fi (some vsub) =
      assoc_lfp_with_sub cores env fi (record vsub { sub_dataconf_by_hlr_ind = false })

  -- _lu_fsm_associate_vsub() and the rest of lu_fsm_idle(): without an IMSI the TMSI was used.
  unfoldable pub lu_fsm_idle : LuFsm → Option LuSubscr → LuFsm
  lu_fsm_idle fi found = associate (by_identity fi.imsi fi) found

  unfoldable pub lu_fsm_wait_auth : LuFsm → LuSubscr → Event → LuFsm
  lu_fsm_wait_auth fi vsub auth_success = post_auth cores env fi vsub
  lu_fsm_wait_auth fi vsub (auth_failure cause) = lu_fsm_failure cores fi (cause_of cause)
  lu_fsm_wait_auth fi vsub (auth_no_info cause) =
      if fi.authentication_required || fi.is_ciphering_required
      then lu_fsm_failure cores fi (cause_of cause)
      else post_auth cores env fi vsub
  lu_fsm_wait_auth fi vsub _ = record fi { assert_failed = true }

  unfoldable pub lu_fsm_wait_ciph : LuFsm → LuSubscr → Event → LuFsm
  lu_fsm_wait_ciph fi vsub (ciph_res (some ciph_compl)) = post_ciph cores env fi vsub
  lu_fsm_wait_ciph fi vsub (ciph_res _) =
      lu_fsm_failure cores fi (some RejectValue.invalid_mandatory_inf)
  lu_fsm_wait_ciph fi vsub _ = record fi { assert_failed = true }

  unfoldable pub lu_fsm_wait_hlr_check_imei_early : LuFsm → LuSubscr → Event → LuFsm
  lu_fsm_wait_hlr_check_imei_early fi vsub hlr_imei_ack = node1 cores env fi vsub
  lu_fsm_wait_hlr_check_imei_early fi vsub hlr_imei_nack =
      lu_fsm_failure cores fi (some RejectValue.illegal_me)
  lu_fsm_wait_hlr_check_imei_early fi vsub _ = record fi { assert_failed = true }

  -- vlr_subscr_set_imsi() keeps at most 15 digits.
  unfoldable pub lu_fsm_wait_imsi : LuFsm → LuSubscr → Event → LuFsm
  lu_fsm_wait_imsi fi vsub (id_imsi mi_string) =
      let vsub' = record vsub {
        auth = record (vsub.auth) { imsi = take imsi_max_digits mi_string };
      } in
      node1_pre cores env (record fi { vsub = some vsub' }) vsub'
  lu_fsm_wait_imsi fi vsub _ = record fi { assert_failed = true }

  unfoldable pub lu_fsm_wait_pvlr : LuFsm → LuSubscr → Event → LuFsm
  lu_fsm_wait_pvlr fi vsub send_id_ack = node1_pre cores env fi vsub
  lu_fsm_wait_pvlr fi vsub send_id_nack = want_imsi cores env fi
  lu_fsm_wait_pvlr fi vsub _ = record fi { assert_failed = true }

  unfoldable pub lu_fsm_wait_hlr_ul_res : LuFsm → Event → LuFsm
  lu_fsm_wait_hlr_ul_res fi (hlr_lu_res none) =
      to_upd_hlr cores env fi fi.upd_hlr fi.vsub upd_loc_ack none
  lu_fsm_wait_hlr_ul_res fi (hlr_lu_res (some cause)) =
      to_upd_hlr cores env fi fi.upd_hlr fi.vsub upd_loc_nack (some cause)
  lu_fsm_wait_hlr_ul_res fi (upd_hlr_compl cause) = hlr_updated cores env fi.state fi cause
  lu_fsm_wait_hlr_ul_res fi id_imei = fi
  lu_fsm_wait_hlr_ul_res fi id_imeisv = fi
  lu_fsm_wait_hlr_ul_res fi _ = record fi { assert_failed = true }

  unfoldable pub lu_fsm_wait_lu_compl : LuFsm → Event → LuFsm
  lu_fsm_wait_lu_compl fi new_tmsi_ack = to_lu_compl cores env fi fi.lu_compl fi.vsub tmsi_ack
  lu_fsm_wait_lu_compl fi id_imei = call tx_req_check_imei fi
  lu_fsm_wait_lu_compl fi id_imeisv = call tx_req_check_imei fi
  lu_fsm_wait_lu_compl fi hlr_imei_ack = to_lu_compl cores env fi fi.lu_compl fi.vsub imei_check_ack
  lu_fsm_wait_lu_compl fi hlr_imei_nack =
      to_lu_compl cores env fi fi.lu_compl fi.vsub imei_check_nack
  lu_fsm_wait_lu_compl fi (lu_compl_success cause) = lu_compl_succeeded cores fi.state fi
  lu_fsm_wait_lu_compl fi (lu_compl_failure cause) = lu_compl_failed cores fi.state fi cause
  lu_fsm_wait_lu_compl fi _ = record fi { assert_failed = true }

  unfoldable pub lu_fsm_wait_lu_compl_standalone : LuFsm → Event → LuFsm
  lu_fsm_wait_lu_compl_standalone fi new_tmsi_ack =
      to_lu_compl cores env fi fi.lu_compl fi.vsub tmsi_ack
  lu_fsm_wait_lu_compl_standalone fi (lu_compl_success cause) = lu_compl_succeeded cores fi.state fi
  lu_fsm_wait_lu_compl_standalone fi (lu_compl_failure cause) =
      lu_compl_failed cores fi.state fi cause
  lu_fsm_wait_lu_compl_standalone fi _ = record fi { assert_failed = true }

  -- The actions of the states that need the subscriber.
  unfoldable pub action_with : State → LuFsm → LuSubscr → Event → LuFsm
  action_with wait_imeisv fi vsub e = start_lu_main cores env fi vsub
  action_with wait_pvlr fi vsub e = lu_fsm_wait_pvlr fi vsub e
  action_with wait_auth fi vsub e = lu_fsm_wait_auth fi vsub e
  action_with wait_ciph fi vsub e = lu_fsm_wait_ciph fi vsub e
  action_with wait_imsi fi vsub e = lu_fsm_wait_imsi fi vsub e
  action_with wait_hlr_check_imei_early fi vsub e = lu_fsm_wait_hlr_check_imei_early fi vsub e
  action_with wait_hlr_upd fi vsub e = lu_fsm_wait_hlr_ul_res fi e
  action_with wait_lu_compl fi vsub e = lu_fsm_wait_lu_compl fi e
  action_with wait_lu_compl_standalone fi vsub e = lu_fsm_wait_lu_compl_standalone fi e
  action_with _ fi vsub e = fi

  unfoldable pub action : State → LuFsm → Option LuSubscr → Event → LuFsm
  action idle fi vsub e = lu_fsm_idle fi env.found
  action s fi (some vsub) e = action_with s fi vsub e
  action s fi none e = record fi { assert_failed = true }

  -- What others wrote to the subscriber.
  unfoldable pub refresh : LuFsm → LuFsm
  refresh fi = elim fi.vsub [ none ↦ fi | some vsub ↦ record fi { vsub = some (env.others vsub) } ]

  unfoldable pub dispatch : LuFsm → Event → LuFsm
  dispatch fi e =
      let fi' = refresh fi in
      if cores.lu.dispatch in_event_mask fi'.state (kind e)
      then action fi'.state fi' fi'.vsub e
      else fi'

  unfoldable pub cancel_in : State → LuFsm → Option RejectValue → LuFsm
  cancel_in done fi cause = fi
  cancel_in _ fi cause = lu_fsm_failure cores fi cause

  -- vlr_loc_update_cancel() for an instance of this machine.
  unfoldable pub vlr_loc_update_cancel : LuFsm → Option RejectValue → LuFsm
  vlr_loc_update_cancel fi cause = cancel_in fi.state fi cause

-- _vlr_loc_update(): a null pointer to an IMSI is `none`. The instance as it is set up; it is given
-- VLR_ULA_E_UPDATE_LA next.
unfoldable pub new_instance :
    (cfg : Config) (on_success on_failure : ℕ) (type : LuType) (imsi : Option (List ℕ)) (lai : Lai)
    → (auth_required ciph_attempted ciph_required is_utran assign_tmsi : Bool) (key_seq : ℕ) → LuFsm
new_instance cfg on_success on_failure type imsi lai auth_required ciph_attempted ciph_required
      is_utran assign_tmsi key_seq =
    record {
      state = idle;
      cfg = cfg;
      vsub = none;
      upd_hlr = none;
      lu_compl = none;
      has_parent = true;
      parent_event_success = on_success;
      parent_event_failure = on_failure;
      result = result_none;
      lu_type = type;
      imsi = elim imsi [ none ↦ [] | some digits ↦ take imsi_max_digits digits ];
      lu_by_tmsi = not (is_some imsi);
      new_lai = lai;
      authentication_required = auth_required;
      is_ciphering_to_be_attempted = ciph_attempted;
      is_ciphering_required = ciph_required;
      key_seq = key_seq;
      is_utran = is_utran;
      assign_tmsi = assign_tmsi;
      live = true;
      assert_failed = ciph_required && not ciph_attempted;
      log = [];
    }

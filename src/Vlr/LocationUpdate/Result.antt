-- ===== src/Vlr/LocationUpdate/Result.antt =====
-- libvlr/vlr_lu_fsm.c: changes of state of the location update machine, and its end.
use osmo_msc.Base.{ℕ, Bool, true, false, not, Option, none, some, ◌∷◌, if◌then◌else◌}
use osmo_msc.Vlr.Reject.{RejectValue}
use osmo_msc.Vlr.AccessRequest.Types.{CausePtr, Link, unlinked, this_fsm}
use osmo_msc.Vlr.LocationUpdate.Types.{
  State, done, wait_lu_compl, wait_lu_compl_standalone, e_lu_compl_success, e_lu_compl_failure,
  FsmResult, success, failure, LuType, imsi_attach, LuSubscr, Call, tx_lu_rej, tx_mm_info,
  to_parent, LuFsm, Cores,
}
use osmo_msc.Vlr.LocationUpdate.Masks.{in_event_mask, out_state_mask}

abbrev pub call : Call → LuFsm → LuFsm
call c fi = record fi { log = c ∷ fi.log }

abbrev pub cause_or_failure : Option RejectValue → RejectValue
cause_or_failure none = RejectValue.network_failure
cause_or_failure (some cause) = cause

-- `data ? *data : GSM48_REJECT_NETWORK_FAILURE`
abbrev pub cause_of : CausePtr → Option RejectValue
cause_of none = some RejectValue.network_failure
cause_of (some cause) = cause

abbrev pub is_success : FsmResult → Bool
is_success success = true
is_success _ = false

abbrev pub is_attach : LuType → Bool
is_attach imsi_attach = true
is_attach _ = false

abbrev unlink : Link → Link
unlink this_fsm = unlinked
unlink l = l

-- fsm_lu_cleanup()
unfoldable pub cleanup : Option LuSubscr → Option LuSubscr
cleanup none = none
cleanup (some vsub) = some (record vsub { lu_fsm = unlink vsub.lu_fsm })

-- osmo_fsm_inst_term(): the children are terminated, the cleanup is run, and the parent gets the
-- event of the instance's termination.
unfoldable pub inst_term : LuFsm → ℕ → LuFsm
inst_term fi event =
    call (to_parent event)
      (record fi { live = false; upd_hlr = none; lu_compl = none; vsub = cleanup fi.vsub })

-- lu_fsm_dispatch_result(), on entry to DONE.
unfoldable pub dispatch_result : LuFsm → LuFsm
dispatch_result fi =
    if not fi.has_parent
    then fi
    else inst_term fi
        (if is_success fi.result then fi.parent_event_success else fi.parent_event_failure)

-- The only other entry, to WAIT_IMSI, resets a count of time-outs.
unfoldable pub onenter : State → LuFsm → LuFsm
onenter done fi = dispatch_result fi
onenter _ fi = fi

module _ (cores : Cores) where
  unfoldable pub state_chg : LuFsm → State → LuFsm
  state_chg fi t =
      if cores.lu.state_chg out_state_mask fi.state t
      then onenter t (record fi { state = t })
      else fi

  unfoldable pub lu_fsm_done : LuFsm → FsmResult → LuFsm
  lu_fsm_done fi result = state_chg (record fi { result = result }) done

  unfoldable pub lu_fsm_failure : LuFsm → Option RejectValue → LuFsm
  lu_fsm_failure fi rej_cause =
      lu_fsm_done (call (tx_lu_rej (cause_or_failure rej_cause) fi.lu_type) fi) failure

  -- The child is terminated without a word to its parent (OSMO_FSM_TERM_PARENT).
  abbrev pub discard_compl : LuFsm → LuFsm
  discard_compl fi = record fi { lu_compl = none }

  unfoldable pub not_confirmed : LuFsm → LuFsm
  not_confirmed fi = elim fi.vsub [
    | none ↦ record fi { assert_failed = true }
    | some vsub ↦ record fi { vsub = some (record vsub { sub_dataconf_by_hlr_ind = false }) }
  ]

  unfoldable pub lu_compl_succeeded : State → LuFsm → LuFsm
  lu_compl_succeeded wait_lu_compl fi =
      let fi' = discard_compl fi in
      lu_fsm_done (if is_attach fi'.lu_type then call tx_mm_info fi' else fi') success
  lu_compl_succeeded wait_lu_compl_standalone fi =
      lu_fsm_done (not_confirmed (discard_compl fi)) success
  lu_compl_succeeded _ fi = record fi { assert_failed = true }

  unfoldable pub lu_compl_failed : State → LuFsm → CausePtr → LuFsm
  lu_compl_failed wait_lu_compl fi cause = lu_fsm_failure (discard_compl fi) (cause_of cause)
  lu_compl_failed wait_lu_compl_standalone fi cause =
      lu_fsm_failure (discard_compl (not_confirmed fi)) (cause_of cause)
  lu_compl_failed _ fi cause = record fi { assert_failed = true }

  -- The dispatch of VLR_ULA_E_LU_COMPL_SUCCESS and VLR_ULA_E_LU_COMPL_FAILURE.
  unfoldable pub on_lu_compl_success : LuFsm → LuFsm
  on_lu_compl_success fi =
      if cores.lu.dispatch in_event_mask fi.state e_lu_compl_success
      then lu_compl_succeeded fi.state fi
      else fi

  unfoldable pub on_lu_compl_failure : LuFsm → CausePtr → LuFsm
  on_lu_compl_failure fi cause =
      if cores.lu.dispatch in_event_mask fi.state e_lu_compl_failure
      then lu_compl_failed fi.state fi cause
      else fi

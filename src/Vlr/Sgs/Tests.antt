-- ===== src/Vlr/Sgs/Tests.antt =====
-- libvlr/vlr_sgs.c: an association at work.
use osmo_msc.Base.{◌≡◌, refl, true, false, none, some, List, [], ◌∷◌}
use osmo_msc.Fsm.{masked}
use osmo_msc.Vlr.Reject.{GmmCause}
use osmo_msc.Vlr.Sgs.Types.{
  la_upd_pres, other_cause, cs_call, Lai, Env, Vsub, in_event_mask, out_state_mask,
  allstate_event_mask,
}
use osmo_msc.Vlr.Sgs.Ts5.{
  call, is_null, is_lu_pending, is_cs_call, max_unconfirmed_pages, on_tx_paging, dispatch_tx_paging,
  vlr_sgs_pag, sgs_iface_paging_cb,
}
use osmo_msc.Vlr.Sgs.Association.{
  vlr_sgs_lu_release, state_chg, req_lu, req_lu_with_new, perform_lu, sgs_ue_fsm_null,
  accepted_with, attach, lu_accepted, sgs_ue_fsm_lau_present, action, dispatch,
}
use osmo_msc.Vlr.Sgs.Same.{core}
use osmo_msc.Vlr.Sgs.Runs.{loc_update, lu_res, pag_rej, page}
use osmo_msc.Vlr.Sgs.Table.{Counts, Act, created, at, run, pages-Counts}
use osmo_msc.Vlr.Sgs.Registration.{Registers, step-Registers}
use osmo_msc.Vlr.Sgs.Interrupted.{KeepsUse, step-KeepsUse}
use osmo_msc.Vlr.Sgs.{
  enable_expire_lu, incomplete_deadline, loc_update_expiry, x3212_expiry, vlr_sgs_loc_update,
  accepted_expiry, vlr_sgs_loc_update_acc_sent, respond_accepted, handle_lu_res, on_subscr,
  alloc_expiry, vlr_subscr_alloc,
}

abbrev env_up : Env
env_up = record {
  alloc_tmsi = some 7;
  req_lu_ok = true;
  mme_found = true;
  has_lu_fsm = false;
  send_mm_info = true;
  has_assoc_ops = true;
  now = some 1000;
  x3212_secs = 0;
  t3212_secs = 60;
  ts6_2_secs = 40;
}

abbrev home : Lai
home = record { plmn = 1; lac = 5 }

abbrev fresh : Vsub
fresh = vlr_subscr_alloc env_up

-- A page goes out, the subscriber registers, and the counter returns to 0 when the page is answered.
abbrev paged : List (Env × Act)
paged =
    (env_up, at 0 lu_res)
    ∷ (env_up, at 0 (loc_update 3 home none))
    ∷ (env_up, at 0 (page cs_call))
    ∷ (env_up, created)
    ∷ []

paged_inflight : (run core paged).pag_inflight ≡ 1
unfolding vlr_subscr_alloc on_subscr masked sgs_iface_paging_cb vlr_sgs_pag dispatch_tx_paging
    in_event_mask out_state_mask allstate_event_mask call is_cs_call is_null on_tx_paging
    vlr_sgs_loc_update is_lu_pending dispatch action sgs_ue_fsm_null perform_lu req_lu_with_new
    req_lu state_chg loc_update_expiry incomplete_deadline handle_lu_res respond_accepted
    vlr_sgs_loc_update_acc_sent sgs_ue_fsm_lau_present lu_accepted attach accepted_with
    accepted_expiry enable_expire_lu x3212_expiry vlr_sgs_lu_release alloc_expiry
    max_unconfirmed_pages
paged_inflight = refl

pages-Counts_example : Counts 0 (run core paged)
pages-Counts_example = pages-Counts core paged

step-Registers_example : Registers core env_up env_up env_up fresh 3 home none 7
unfolding vlr_subscr_alloc is_lu_pending
step-Registers_example =
    step-Registers core env_up env_up env_up fresh 3 home none 7 refl refl refl refl

-- An update that waits for the HLR.
abbrev waiting : Vsub
waiting = record fresh { state = la_upd_pres; tmsi_new = some 7; use_sgs_lu = 1 }

step-KeepsUse_example :
    KeepsUse core env_up env_up (pag_rej (other_cause 1)) GmmCause.imsi_unknown waiting
unfolding vlr_subscr_alloc
step-KeepsUse_example =
    step-KeepsUse core env_up env_up (pag_rej (other_cause 1)) GmmCause.imsi_unknown waiting refl
      refl

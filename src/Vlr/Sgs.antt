-- ===== src/Vlr/Sgs.antt =====
-- libvlr/vlr_sgs.c: the operations of the VLR on SGs associations, for one subscriber and for all
-- of them, with vlr_subscr_expire(), vlr_subscr_detach(), vlr_subscr_discard_incomplete() and the
-- GSUP answers of libvlr/vlr.c.
pub mod Types
pub mod Ts5
pub mod Association
pub mod Same
pub mod Invariant
pub mod Handlers
pub mod Events
pub mod Operations
pub mod Runs
pub mod Table
pub mod Registration
pub mod Interrupted
pub mod Tests
use osmo_msc.Base.{
  ℕ, zero, suc, ◌+◌, ◌-◌, Bool, true, false, ◌&&◌, ◌||◌, not, Option, none, some, List, [], ◌∷◌,
  ltb, ◌==◌, if◌then◌else◌,
}
use osmo_msc.Fsm.{OsmoFsm}
use osmo_msc.Vlr.Reject.{GmmCause, gmm_cause_to_reject_cause_domain}
use Types.*
use Ts5.*
use Association.*

-- enum sgsap_imsi_det_noneps_type and enum sgsap_imsi_det_eps_type
pub data ImsiDetachType : Type 0 where
  explicit_ue_noneps combined_ue_eps_noneps implicit_ue_eps_noneps invalid_noneps : ImsiDetachType

pub data EpsDetachType : Type 0 where
  network_initiated ue_initiated eps_not_allowed invalid_eps : EpsDetachType

unfoldable pub is_implicit : ImsiDetachType → Bool
is_implicit implicit_ue_eps_noneps = true
is_implicit _ = false

unfoldable pub imsi_detach_event : ImsiDetachType → Event
imsi_detach_event explicit_ue_noneps = rx_detach_ind_from_ue
imsi_detach_event _ = rx_detach_ind_from_mme

unfoldable pub eps_detach_event : EpsDetachType → Event
eps_detach_event ue_initiated = rx_detach_ind_from_ue
eps_detach_event _ = rx_detach_ind_from_mme

-- vlr_subscr_expire(), with the end of the complete update and of its use.
unfoldable pub drop_attached : Vsub → Vsub
drop_attached v = record v {
  lu_complete = false;
  use_attached = v.use_attached - 1;
  underflow = v.underflow || v.use_attached == 0;
}

unfoldable pub vlr_subscr_expire : Env → Vsub → Vsub
vlr_subscr_expire env v =
    if v.lu_complete
    then drop_attached (if env.has_assoc_ops then call sgs_assoc_forget v else v)
    else v

-- vlr_subscr_enable_expire_lu()
unfoldable pub enable_expire_lu : Option ℕ → ℕ → Vsub → Vsub
enable_expire_lu none secs v = record v { expire_lu = 0 }
enable_expire_lu (some now) secs v = record v { expire_lu = now + secs }

-- The deadline of an update that is not complete is only ever moved forward.
unfoldable pub incomplete_deadline : ℕ → ℕ → ℕ
incomplete_deadline expire_lu deadline =
    if expire_lu == 0 || ltb deadline expire_lu then deadline else expire_lu

unfoldable pub loc_update_expiry : Option ℕ → ℕ → Vsub → Vsub
loc_update_expiry none x3212_secs v = v
loc_update_expiry (some now) x3212_secs v =
    if ltb 0 x3212_secs
    then record v { expire_lu = now + x3212_secs }
    else if v.lu_complete
    then v
    else record v { expire_lu = incomplete_deadline v.expire_lu (now + 600) }

unfoldable pub x3212_expiry : Option ℕ → ℕ → Vsub → Vsub
x3212_expiry none x3212_secs v = v
x3212_expiry (some now) x3212_secs v = record v { expire_lu = now + x3212_secs }

module _ (core : OsmoFsm State Event) (env : Env) where
  -- vlr_sgs_loc_update(), once the subscriber is found or created with a use of VSUB_USE_SGS_LU.
  unfoldable pub vlr_sgs_loc_update : Vsub → ℕ → Lai → Option ℕ → Vsub
  vlr_sgs_loc_update v mme_name new_lai last_eutran_plmn =
      if is_lu_pending v.state
      then v
      else loc_update_expiry env.now env.x3212_secs
          (record (dispatch core env
            (record v {
              use_sgs_lu = v.use_sgs_lu + 1;
              has_callbacks = true;
              last_eutran_plmn = last_eutran_plmn;
              mme_name = mme_name;
            })
            rx_lu_from_mme) { lai = new_lai })

  unfoldable pub accepted_expiry : Vsub → Vsub
  accepted_expiry v =
      if ltb 0 env.x3212_secs
      then x3212_expiry env.now env.x3212_secs v
      else if env.t3212_secs == 0
      then record v { expire_lu = 0 }
      else enable_expire_lu env.now env.t3212_secs v

  unfoldable pub vlr_sgs_loc_update_acc_sent : Vsub → Vsub
  vlr_sgs_loc_update_acc_sent v =
      let v' = accepted_expiry (dispatch core env v tx_lu_accept) in
      vlr_sgs_lu_release (if env.has_assoc_ops then call sgs_assoc_persist v' else v')

  -- sgs_tx_loc_upd_resp_cb() with `accepted` true.
  unfoldable pub respond_accepted : Vsub → Vsub
  respond_accepted v =
      vlr_sgs_loc_update_acc_sent (if env.mme_found then call (tx_lu_ack v.tmsi_new) v else v)

  -- vlr_subscr_handle_lu_res() and vlr_subscr_handle_lu_err(): the answer goes to the update over
  -- SGs, else to the one over A or Iu.
  unfoldable pub handle_lu_res : Vsub → Vsub
  handle_lu_res v =
      if is_lu_pending v.state
      then respond_accepted v
      else if env.has_lu_fsm
      then call (to_lu_fsm none) v
      else v

  unfoldable pub handle_lu_err : Vsub → GmmCause → Vsub
  handle_lu_err v cause =
      if is_lu_pending v.state
      then respond_rejected core env v (gmm_cause_to_reject_cause_domain cause true)
      else if env.has_lu_fsm
      then call (to_lu_fsm (some cause)) v
      else v

  unfoldable pub vlr_sgs_imsi_detach : Vsub → ImsiDetachType → Vsub
  vlr_sgs_imsi_detach v type =
      if is_null v.state && is_implicit type
      then v
      else vlr_subscr_expire env (dispatch core env v (imsi_detach_event type))

  unfoldable pub vlr_sgs_eps_detach : Vsub → EpsDetachType → Vsub
  vlr_sgs_eps_detach v type =
      let v' = dispatch core env v (eps_detach_event type) in
      let v'' = if v'.expire_lu == 0 then enable_expire_lu env.now env.t3212_secs v' else v' in
      if env.has_assoc_ops then call sgs_assoc_forget v'' else v''

  unfoldable pub vlr_sgs_tmsi_reall_compl : Vsub → Vsub
  vlr_sgs_tmsi_reall_compl v = dispatch core env v rx_tmsi_realloc

  unfoldable pub vlr_sgs_pag_rej : Vsub → SgsCause → Vsub
  vlr_sgs_pag_rej v cause = vlr_sgs_pag_stop (dispatch core env v (rx_paging_failure cause))

  unfoldable pub vlr_sgs_ue_unr : Vsub → Vsub
  vlr_sgs_ue_unr v = vlr_sgs_pag_stop (dispatch core env v rx_sgsap_ue_unreachable)

  unfoldable pub vlr_sgs_rx_service_req : Vsub → Vsub
  vlr_sgs_rx_service_req v = dispatch core env v rx_service_req

  -- The location area of a paging response over A or Iu; none if it is not known.
  unfoldable pub vlr_sgs_paging_resp_from_a_iu : Vsub → Option Lai → Vsub
  vlr_sgs_paging_resp_from_a_iu v none = v
  vlr_sgs_paging_resp_from_a_iu v (some lai) =
      if is_null v.state || lai.lac == 0 || (v.lai.plmn == lai.plmn && v.lai.lac == lai.lac)
      then v
      else dispatch core env v rx_lu_from_a_iu_gs

  unfoldable pub vlr_subscr_detach : Vsub → Vsub
  vlr_subscr_detach v =
      let v' = vlr_sgs_lu_release (call cancel_attach_fsm v) in
      let v'' = if v'.imsi_detached_flag then v' else call tx_purge_ms v' in
      vlr_subscr_keep_incomplete_expiry core env (
        vlr_subscr_expire env
          (dispatch core env (record v'' { imsi_detached_flag = true }) rx_detach_ind_from_ue))

  -- vlr_subscr_discard_incomplete(); `held` if other uses keep the subscriber.
  unfoldable pub vlr_subscr_discard_incomplete : Vsub → (held : Bool) → Vsub
  vlr_subscr_discard_incomplete v held =
      let v' = record (vlr_sgs_pag_stop (vlr_sgs_lu_release (call cancel_attach_fsm v))) {
        imsi_detached_flag = true;
      } in
      if held then vlr_subscr_keep_incomplete_expiry core env v' else v'

-- What others write to the subscriber.
unfoldable pub write : Written → Vsub → Vsub
write o v = record v {
  conf_by_radio_contact_ind = v.conf_by_radio_contact_ind || o.contact;
  lai = o.lai;
  tmsi = o.tmsi;
  tmsi_new = o.tmsi_new;
  last_eutran_plmn = o.last_eutran_plmn;
  sub_dataconf_by_hlr_ind = o.sub_dataconf_by_hlr_ind;
  loc_conf_in_hlr_ind = o.loc_conf_in_hlr_ind;
  la_allowed = o.la_allowed;
  imsi_detached_flag = o.imsi_detached_flag;
  ms_not_reachable_flag = o.ms_not_reachable_flag;
  attached_via_sgs = o.attached_via_sgs;
  is_paging = o.is_paging;
  expire_lu = o.expire_lu;
}

-- vlr_lu_compl_fsm_success(): an update over A or Iu becomes complete, and takes its use.
unfoldable pub lu_compl_success : Vsub → Vsub
lu_compl_success v =
    if v.lu_complete then v else record v { lu_complete = true; use_attached = v.use_attached + 1 }

-- struct vlr_instance, as far as the associations go.
pub record Vlr : Type 0 where
  pub subscribers : List Vsub
  pub pag_inflight : ℕ

-- An operation on one subscriber, with the counter that all share.
unfoldable pub on_subscr : (Vsub → Vsub) → List Vsub → ℕ → ℕ → Vlr
on_subscr f [] i n = record { subscribers = []; pag_inflight = n }
on_subscr f (v ∷ vs) zero n =
    let v' = f (record v { inflight = n }) in
    record { subscribers = v' ∷ vs; pag_inflight = v'.inflight }
on_subscr f (v ∷ vs) (suc i) n =
    let rest = on_subscr f vs i n in record rest { subscribers = v ∷ rest.subscribers }

unfoldable pub of_mme : Option ℕ → ℕ → Bool
of_mme none name = true
of_mme (some mme_name) name = mme_name == name

-- vlr_sgs_reset_mme(), and with `none` vlr_sgs_reset(). A name stands for all its spellings.
unfoldable pub vlr_sgs_reset_mme : OsmoFsm State Event → Env → List Vsub → ℕ → Option ℕ → Vlr
vlr_sgs_reset_mme core env [] n mme_name = record { subscribers = []; pag_inflight = n }
vlr_sgs_reset_mme core env (v ∷ vs) n mme_name =
    let w = record v { inflight = n } in
    let v' = if of_mme mme_name v.mme_name then dispatch core env w rx_reset_from_mme else w in
    let rest = vlr_sgs_reset_mme core env vs v'.inflight mme_name in
    record rest { subscribers = v' ∷ rest.subscribers }

-- _vlr_subscr_alloc() with vlr_sgs_fsm_create(), as far as the association goes.
unfoldable pub alloc_expiry : Option ℕ → ℕ
alloc_expiry none = 0
alloc_expiry (some now) = now + 600

unfoldable pub vlr_subscr_alloc : Env → Vsub
vlr_subscr_alloc env = record {
  state = sgs_null;
  ts6_2_running = false;
  ts5_pending = false;
  paging_serv_ind = cs_call;
  has_callbacks = false;
  mme_name = 0;
  lai = record { plmn = 0; lac = 0 };
  tmsi = none;
  tmsi_new = none;
  last_eutran_plmn = none;
  conf_by_radio_contact_ind = false;
  sub_dataconf_by_hlr_ind = false;
  loc_conf_in_hlr_ind = false;
  la_allowed = false;
  imsi_detached_flag = false;
  ms_not_reachable_flag = false;
  lu_complete = false;
  attached_via_sgs = false;
  is_paging = false;
  expire_lu = alloc_expiry env.now;
  use_sgs_lu = 0;
  use_sgs_paging_req = 0;
  use_attached = 0;
  inflight = 0;
  log = [];
  assert_failed = false;
  underflow = false;
}

-- sgs_restore_one() for a row of the database that has not expired, whose subscriber is not there yet.
unfoldable pub sgs_restore_one :
    Env → (mme_name : ℕ) → Lai → (tmsi last_eutran_plmn : Option ℕ) (expire_lu : ℕ) → Vsub
sgs_restore_one env mme_name lai tmsi last_eutran_plmn expire_lu = record (vlr_subscr_alloc env) {
  tmsi = tmsi;
  mme_name = mme_name;
  lai = lai;
  last_eutran_plmn = last_eutran_plmn;
  has_callbacks = true;
  attached_via_sgs = true;
  lu_complete = true;
  use_attached = 1;
  expire_lu = expire_lu;
}

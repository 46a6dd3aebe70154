-- ===== src/Vlr/Sgs/Same.antt =====
-- libvlr/vlr_sgs.c: what stops, starts or repeats a page leaves the association as it is.
use osmo_msc.Base.{◌≡◌, refl, ◌∙◌, true, ◌&&◌, inl, inr, Bool-cases, if_elim, if◌then◌else◌}
use osmo_msc.Fsm.{OsmoFsm, masked}
use osmo_msc.Vlr.Sgs.Types.{
  State, sgs_null, la_upd_pres, associated, ServInd, Event, tx_paging, tx_paging_req, Env, Vsub,
  in_event_mask,
}
use osmo_msc.Vlr.Sgs.Ts5.{
  call, vlr_sgs_pag_stop, put_sgs_paging_req, sgs_pag_inflight_dec, tell_paging_timeout,
  ts5_timeout_cb, on_tx_paging, vlr_sgs_pag, dispatch_tx_paging, sgs_iface_paging_cb,
}

abbrev pub core : OsmoFsm State Event
core = masked State Event

silent : (s : State) (v : Vsub) → (if in_event_mask s tx_paging then on_tx_paging s v else v) ≡ v
unfolding in_event_mask on_tx_paging
silent sgs_null v = refl
silent la_upd_pres v = refl
silent associated v = refl

-- An operation that changes no part of the association itself.
pub record Same (v w : Vsub) : Type 0 where
  pub state : w.state ≡ v.state
  pub timer : w.ts6_2_running ≡ v.ts6_2_running
  pub confirmed : w.conf_by_radio_contact_ind ≡ v.conf_by_radio_contact_ind
  pub pending : w.tmsi_new ≡ v.tmsi_new
  pub plmn : w.last_eutran_plmn ≡ v.last_eutran_plmn
  pub assigned : w.tmsi ≡ v.tmsi
  pub complete : w.lu_complete ≡ v.lu_complete
  pub lu_uses : w.use_sgs_lu ≡ v.use_sgs_lu

pub Same-refl : (v : Vsub) → Same v v
Same-refl v = record {
  state = refl;
  timer = refl;
  confirmed = refl;
  pending = refl;
  plmn = refl;
  assigned = refl;
  complete = refl;
  lu_uses = refl;
}

pub Same-trans : {u v w : Vsub} → Same u v → Same v w → Same u w
Same-trans {u} {v} {w} s t = record {
  state = t.state ∙ s.state;
  timer = t.timer ∙ s.timer;
  confirmed = t.confirmed ∙ s.confirmed;
  pending = t.pending ∙ s.pending;
  plmn = t.plmn ∙ s.plmn;
  assigned = t.assigned ∙ s.assigned;
  complete = t.complete ∙ s.complete;
  lu_uses = t.lu_uses ∙ s.lu_uses;
}

pub vlr_sgs_pag_stop-Same : (v : Vsub) → Same v (vlr_sgs_pag_stop v)
unfolding vlr_sgs_pag_stop put_sgs_paging_req sgs_pag_inflight_dec
vlr_sgs_pag_stop-Same v =
    if_elim (Same v) v.ts5_pending
      (λ e. record {
        state = refl;
        timer = refl;
        confirmed = refl;
        pending = refl;
        plmn = refl;
        assigned = refl;
        complete = refl;
        lu_uses = refl;
      })
      (λ e. Same-refl v)

pub tell_paging_timeout-Same : (v : Vsub) → Same v (tell_paging_timeout v)
unfolding tell_paging_timeout call
tell_paging_timeout-Same v =
    if_elim (Same v) (v.is_paging && v.has_callbacks)
      (λ e. record {
        state = refl;
        timer = refl;
        confirmed = refl;
        pending = refl;
        plmn = refl;
        assigned = refl;
        complete = refl;
        lu_uses = refl;
      })
      (λ e. Same-refl v)

pub ts5_timeout_cb_eq :
    (v : Vsub) → v.ts5_pending ≡ true → ts5_timeout_cb v ≡ vlr_sgs_pag_stop (tell_paging_timeout v)
unfolding ts5_timeout_cb tell_paging_timeout call vlr_sgs_pag_stop
ts5_timeout_cb_eq v h = elim (Bool-cases (v.is_paging && v.has_callbacks)) [
  | inl e ↦ rw e (rw h refl)
  | inr e ↦ rw e (rw h refl)
]

pub dispatch_tx_paging_eq : (env : Env) (v : Vsub) → dispatch_tx_paging core env v ≡ v
unfolding dispatch_tx_paging masked
dispatch_tx_paging_eq env v = silent v.state v

pub vlr_sgs_pag-Same : (env : Env) (v : Vsub) (i : ServInd) → Same v (vlr_sgs_pag core env v i)
unfolding vlr_sgs_pag
vlr_sgs_pag-Same env v i = rw (dispatch_tx_paging_eq env (record v { ts5_pending = true })) (
    if_elim (Same v) v.ts5_pending
      (λ e. record {
        state = refl;
        timer = refl;
        confirmed = refl;
        pending = refl;
        plmn = refl;
        assigned = refl;
        complete = refl;
        lu_uses = refl;
      })
      (λ e. record {
        state = refl;
        timer = refl;
        confirmed = refl;
        pending = refl;
        plmn = refl;
        assigned = refl;
        complete = refl;
        lu_uses = refl;
      }))

pub sgs_iface_paging_cb-Same :
    (env : Env) (v : Vsub) (i : ServInd) → Same v (sgs_iface_paging_cb core env v i)
unfolding sgs_iface_paging_cb call
sgs_iface_paging_cb-Same env v i =
    if_elim (Same v) _ (λ e. Same-refl v)
      (λ e.
        let s : Same (call (tx_paging_req i) v)
            (vlr_sgs_pag core env (call (tx_paging_req i) v) i) =
          vlr_sgs_pag-Same env (call (tx_paging_req i) v) i in
        record {
          state = s.state;
          timer = s.timer;
          confirmed = s.confirmed;
          pending = s.pending;
          plmn = s.plmn;
          assigned = s.assigned;
          complete = s.complete;
          lu_uses = s.lu_uses;
        })

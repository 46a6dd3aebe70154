-- ===== src/Vlr/Sgs/Invariant.antt =====
-- libvlr/vlr_sgs_fsm.c and vlr_sgs.c: what holds of a subscriber between two operations, with the
-- pages of the others in `rest`, and how the pieces of the handlers keep it.
use osmo_msc.Base.{
  ℕ, ◌+◌, ◌≡◌, refl, ap, ◌∙◌, Bool, true, false, ◌&&◌, ◌||◌, not, none, if_elim, arith,
}
use osmo_msc.Fsm.{masked}
use osmo_msc.Vlr.Sgs.Types.{
  State, sgs_null, la_upd_pres, associated, ServInd, tx_paging_req, Env, Vsub, out_state_mask,
}
use osmo_msc.Vlr.Sgs.Ts5.{
  call, vlr_sgs_pag_stop, put_sgs_paging_req, sgs_pag_inflight_dec, tell_paging_timeout,
  vlr_sgs_pag, sgs_iface_paging_cb,
}
use osmo_msc.Vlr.Sgs.Same.{
  core, Same, Same-trans, vlr_sgs_pag_stop-Same, tell_paging_timeout-Same, dispatch_tx_paging_eq,
}
use osmo_msc.Vlr.Sgs.Association.{state_chg, to_null}

abbrev pub count_of : Bool → ℕ
count_of true = 1
count_of false = 0

-- No assertion fails and no use is put that nobody holds; a page holds one use and is counted once;
-- an attached subscriber holds one use.
pub record Balances (rest : ℕ) (failed ts5 lu_complete : Bool) (uses attaches inflight : ℕ)
    : Type 0 where
  pub sound : failed ≡ false
  pub paging : uses ≡ count_of ts5
  pub attached : attaches ≡ count_of lu_complete
  pub counted : inflight ≡ rest + uses

abbrev pub Balanced : ℕ → Vsub → Type 0
Balanced rest v =
    Balances rest (v.assert_failed || v.underflow) v.ts5_pending v.lu_complete v.use_sgs_paging_req
      v.use_attached v.inflight

-- Ts6-2 only runs in an association, and an association is confirmed by radio contact.
abbrev pub is_settled : State → (ts6_2 by_contact : Bool) → Bool
is_settled sgs_null t c = not t
is_settled la_upd_pres t c = not t
is_settled associated t c = c

-- The same for the fields of a subscriber.
abbrev pub settles : Vsub → Bool
settles v = is_settled v.state v.ts6_2_running v.conf_by_radio_contact_ind

pub record Holds (rest : ℕ) (failed ts5 lu_complete settles : Bool) (uses attaches inflight : ℕ)
    : Type 0 where
  pub balanced : Balances rest failed ts5 lu_complete uses attaches inflight
  pub settled : settles ≡ true

abbrev pub Inv : ℕ → Vsub → Type 0
Inv rest v =
    Holds rest (v.assert_failed || v.underflow) v.ts5_pending v.lu_complete (settles v)
      v.use_sgs_paging_req v.use_attached v.inflight

module _ (rest : ℕ) where
  pub vlr_sgs_pag_stop-Balanced : (v : Vsub) → Balanced rest v → Balanced rest (vlr_sgs_pag_stop v)
  unfolding vlr_sgs_pag_stop put_sgs_paging_req sgs_pag_inflight_dec
  vlr_sgs_pag_stop-Balanced v b =
      if_elim (Balanced rest) v.ts5_pending
        (λ e.
          let p : v.use_sgs_paging_req ≡ 1 = ground (arith, b.paging, e) in
          record {
            sound = ground (arith, b.sound, p);
            paging = ground (arith, p);
            attached = b.attached;
            counted = ground (arith, p, b.counted);
          })
        (λ e. b)

  pub tell_paging_timeout-Balanced :
      (v : Vsub) → Balanced rest v → Balanced rest (tell_paging_timeout v)
  unfolding tell_paging_timeout call
  tell_paging_timeout-Balanced v b =
      if_elim (Balanced rest) (v.is_paging && v.has_callbacks) (λ e. b) (λ e. b)

  pub state_chg-Balanced :
      (env : Env) (v : Vsub) (t : State) (secs : ℕ)
      → Balanced rest v
      → Balanced rest (state_chg core env v t secs)
  unfolding state_chg masked out_state_mask
  state_chg-Balanced env v t secs b = b

  pub Same-Inv : {v w : Vsub} → Same v w → Balanced rest w → settles v ≡ true → Inv rest w
  Same-Inv {v} {w} s b h = record {
    balanced = b;
    settled = rw s.state (rw s.timer (rw s.confirmed h));
  }

  pub to_null-Inv : (env : Env) (v : Vsub) → Balanced rest v → Inv rest (to_null core env v)
  unfolding to_null state_chg masked out_state_mask
  to_null-Inv env v b =
      let w : Vsub = record v {
        state = sgs_null;
        ts6_2_running = false;
        conf_by_radio_contact_ind = false;
        tmsi_new = none;
        last_eutran_plmn = none;
      } in
      let c : Balanced rest w = b in
      Same-Inv
        (Same-trans (tell_paging_timeout-Same w) (vlr_sgs_pag_stop-Same (tell_paging_timeout w)))
        (vlr_sgs_pag_stop-Balanced (tell_paging_timeout w) (tell_paging_timeout-Balanced w c)) refl

  vlr_sgs_pag-Balanced :
      (env : Env) (v : Vsub) (i : ServInd)
      → Balanced rest v
      → Balanced rest (vlr_sgs_pag core env v i)
  unfolding vlr_sgs_pag
  vlr_sgs_pag-Balanced env v i b =
      rw (dispatch_tx_paging_eq env (record v { ts5_pending = true })) (
        if_elim (Balanced rest) v.ts5_pending
          (λ e. record {
            sound = b.sound;
            paging = b.paging ∙ ap count_of e;
            attached = b.attached;
            counted = b.counted;
          })
          (λ e.
            let p : v.use_sgs_paging_req ≡ 0 = b.paging ∙ ap count_of e in
            record {
              sound = b.sound;
              paging = ground (arith, p);
              attached = b.attached;
              counted = ground (arith, b.counted, p);
            }))

  pub sgs_iface_paging_cb-Balanced :
      (env : Env) (v : Vsub) (i : ServInd)
      → Balanced rest v
      → Balanced rest (sgs_iface_paging_cb core env v i)
  unfolding sgs_iface_paging_cb call
  sgs_iface_paging_cb-Balanced env v i b =
      if_elim (Balanced rest) _ (λ e. b)
        (λ e. vlr_sgs_pag-Balanced env (call (tx_paging_req i) v) i (b))

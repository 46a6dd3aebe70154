-- ===== src/Vlr/Sgs/Ts5.antt =====
-- libvlr/vlr_sgs.c: paging over SGs with the timer Ts5, and the paging_cb of libmsc/sgs_iface.c. A
-- subscriber is not freed here, and the transient uses that a function takes and puts again are left
-- out.
use osmo_msc.Base.{ℕ, ◌+◌, ◌-◌, Bool, true, false, ◌&&◌, ◌||◌, not, ◌∷◌, leb, ◌==◌, if◌then◌else◌}
use osmo_msc.Fsm.{OsmoFsm}
use osmo_msc.Vlr.Sgs.Types.{
  State, sgs_null, la_upd_pres, associated, ServInd, cs_call, sms, Event, tx_paging, Call,
  tx_paging_req, paging_expired, Env, Vsub, in_event_mask,
}

-- What the code calls, put in front of the log.
unfoldable pub call : Call → Vsub → Vsub
call c v = record v { log = c ∷ v.log }

unfoldable pub is_null : State → Bool
is_null sgs_null = true
is_null _ = false

unfoldable pub is_lu_pending : State → Bool
is_lu_pending la_upd_pres = true
is_lu_pending _ = false

unfoldable pub is_cs_call : ServInd → Bool
is_cs_call cs_call = true
is_cs_call sms = false

-- osmo_use_count: what is held after a put, and whether the put found nothing held.
unfoldable pub put_sgs_paging_req : Vsub → Vsub
put_sgs_paging_req v = record v {
  use_sgs_paging_req = v.use_sgs_paging_req - 1;
  underflow = v.underflow || v.use_sgs_paging_req == 0;
}

unfoldable pub sgs_pag_inflight_dec : Vsub → Vsub
sgs_pag_inflight_dec v = record v { inflight = v.inflight - 1 }

unfoldable pub vlr_sgs_pag_stop : Vsub → Vsub
vlr_sgs_pag_stop v =
    if v.ts5_pending
    then sgs_pag_inflight_dec (put_sgs_paging_req (record v { ts5_pending = false }))
    else v

-- The paging_cb for SGSAP_SERV_IND_PAGING_TIMEOUT, under the guard of its callers.
unfoldable pub tell_paging_timeout : Vsub → Vsub
tell_paging_timeout v =
    if v.is_paging && v.has_callbacks
    then call paging_expired (record v { is_paging = false })
    else v

-- Ts5_timeout_cb(): the timer is no longer pending.
unfoldable pub ts5_timeout_cb : Vsub → Vsub
ts5_timeout_cb v =
    sgs_pag_inflight_dec
      (put_sgs_paging_req (tell_paging_timeout (record v { ts5_pending = false })))

unfoldable pub max_unconfirmed_pages : ℕ
max_unconfirmed_pages = 64

-- The three actions on SGS_UE_E_TX_PAGING do nothing.
unfoldable pub on_tx_paging : State → Vsub → Vsub
on_tx_paging sgs_null v = v
on_tx_paging la_upd_pres v = v
on_tx_paging associated v = v

module _ (core : OsmoFsm State Event) (env : Env) where
  unfoldable pub dispatch_tx_paging : Vsub → Vsub
  dispatch_tx_paging v =
      if core.dispatch in_event_mask v.state tx_paging then on_tx_paging v.state v else v

  unfoldable pub vlr_sgs_pag : Vsub → ServInd → Vsub
  vlr_sgs_pag v serv_ind =
      let v' = record (dispatch_tx_paging (record v { ts5_pending = true })) {
        paging_serv_ind = serv_ind;
      } in
      if v.ts5_pending
      then v'
      else record v' { use_sgs_paging_req = v'.use_sgs_paging_req + 1; inflight = v'.inflight + 1 }

  -- sgs_iface_paging_cb() for a page; its result is only read by the MSC's paging.
  unfoldable pub sgs_iface_paging_cb : Vsub → ServInd → Vsub
  sgs_iface_paging_cb v serv_ind =
      if v.imsi_detached_flag
        || (not (is_cs_call serv_ind)
            && not v.conf_by_radio_contact_ind
            && not v.ts5_pending
            && leb max_unconfirmed_pages v.inflight)
        || (is_null v.state && v.conf_by_radio_contact_ind)
        || not env.mme_found
        || v.ts5_pending
      then v
      else vlr_sgs_pag (call (tx_paging_req serv_ind) v) serv_ind

  unfoldable pub respawn_paging : Vsub → Vsub
  respawn_paging v =
      if v.ts5_pending then sgs_iface_paging_cb (vlr_sgs_pag_stop v) v.paging_serv_ind else v

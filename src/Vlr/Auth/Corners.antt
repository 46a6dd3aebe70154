-- ===== src/Vlr/Auth/Corners.antt =====
-- libvlr/vlr_auth_fsm.c: what the masks and the missing return of the resynchronisation lead to.
use osmo_msc.Base.{ℕ, ◌≡◌, refl, true, false, some, List, [], ◌∷◌, arith}
use osmo_msc.Fsm.{OsmoFsm, masked, for_every_core}
use osmo_msc.Vlr.Subscr.{Subscr, update_tuples, get_auth_tuple, use_umts_aka}
use osmo_msc.Vlr.Reject.{GmmCause, RejectValue}
use osmo_msc.Vlr.Auth.{
  State, needs_auth_wait_sai_resync, wait_resp_resync, Kind, AuthRespPar, AuthFsm, hlr_sai_ack,
  hlr_sai_abort, ms_auth_resp, ms_id_imsi, terminated, tx_auth_req, tx_id_req_imsi,
  tx_auth_fail_rep, resp_verdict, check_par, dispatch, in_event_mask, out_state_mask,
}

abbrev core : OsmoFsm State Kind
core = masked State Kind

abort_refused : (fi : AuthFsm) (cause : GmmCause) → dispatch core fi (hlr_sai_abort cause) ≡ fi
unfolding dispatch masked in_event_mask
abort_refused fi cause = ground arith

abbrev pub IdLost : OsmoFsm State Kind → AuthFsm → AuthRespPar → List ℕ → Type 0
IdLost c fi par digits =
    let fi' = dispatch c fi (ms_auth_resp par) in
    (fi'.state ≡ wait_resp_resync)
    × (fi'.log ≡ tx_id_req_imsi ∷ fi.log)
    × (fi'.live ≡ fi.live)
    × (dispatch c fi' (ms_id_imsi digits) ≡ fi')

id_refused :
    (fi : AuthFsm) (digits : List ℕ)
    → fi.state ≡ wait_resp_resync
    → dispatch core fi (ms_id_imsi digits) ≡ fi
unfolding dispatch masked in_event_mask
id_refused fi digits s = rw s

wrong_resp :
    (fi : AuthFsm) (par : AuthRespPar) (w : Subscr)
    → fi.state ≡ wait_resp_resync
    → fi.by_imsi ≡ false
    → check_par fi par ≡ some (false, w)
    → dispatch core fi (ms_auth_resp par) ≡ record fi { vsub = w; log = tx_id_req_imsi ∷ fi.log }
unfolding dispatch resp_verdict masked in_event_mask out_state_mask
wrong_resp fi par w s b p = ground arith

empty_ack :
    (fi : AuthFsm) (i : ℕ) (w : Subscr)
    → fi.state ≡ needs_auth_wait_sai_resync
    → fi.auth_requested ≡ true
    → get_auth_tuple (update_tuples fi.vsub []) fi.max_reuse_count ≡ some (i, w)
    → (dispatch core fi (hlr_sai_ack [])).log
      ≡ tx_auth_req i (use_umts_aka (w.auth_tuples i).vec fi.is_r99)
        ∷ terminated fi.parent_event_failure (some RejectValue.network_failure)
        ∷ tx_auth_fail_rep
        ∷ fi.log
unfolding dispatch masked in_event_mask out_state_mask
empty_ack fi i w s a g = ground arith

-- No state takes the event of an aborted request to the HLR: it changes nothing, wherever it comes.
pub dispatch-hlr_sai_abort :
    (c : OsmoFsm State Kind) (fi : AuthFsm) (cause : GmmCause)
    → dispatch c fi (hlr_sai_abort cause) ≡ fi
dispatch-hlr_sai_abort c fi cause =
    for_every_core (λ c. dispatch c fi (hlr_sai_abort cause) ≡ fi) (abort_refused fi cause) c

-- After a resynchronisation a wrong response of a phone whose IMSI is not known yet has its IMSI
-- asked for, but the state stays: WAIT_RESP_RESYNC does not lead to WAIT_ID_IMSI, and the identity
-- that the phone then sends is refused.
pub resync-IdLost :
    (c : OsmoFsm State Kind) (fi : AuthFsm) (par : AuthRespPar) (w : Subscr) (digits : List ℕ)
    → fi.state ≡ wait_resp_resync
    → fi.by_imsi ≡ false
    → check_par fi par ≡ some (false, w)
    → IdLost c fi par digits
resync-IdLost c fi par w digits s b p =
    for_every_core (λ c. IdLost c fi par digits)
      (rw (wrong_resp fi par w s b p) (s, refl, refl, id_refused _ digits s)) c

-- An answer of the HLR without vectors ends a resynchronisation, and yet the same call goes on: with
-- a tuple left that may be used it sends an authentication request after the end.
pub resync_empty_ack :
    (c : OsmoFsm State Kind) (fi : AuthFsm) (i : ℕ) (w : Subscr)
    → fi.state ≡ needs_auth_wait_sai_resync
    → fi.auth_requested ≡ true
    → get_auth_tuple (update_tuples fi.vsub []) fi.max_reuse_count ≡ some (i, w)
    → (dispatch c fi (hlr_sai_ack [])).log
      ≡ tx_auth_req i (use_umts_aka (w.auth_tuples i).vec fi.is_r99)
        ∷ terminated fi.parent_event_failure (some RejectValue.network_failure)
        ∷ tx_auth_fail_rep
        ∷ fi.log
resync_empty_ack c fi i w s a g =
    for_every_core
      (λ c.
        (dispatch c fi (hlr_sai_ack [])).log
        ≡ tx_auth_req i (use_umts_aka (w.auth_tuples i).vec fi.is_r99)
          ∷ terminated fi.parent_event_failure (some RejectValue.network_failure)
          ∷ tx_auth_fail_rep
          ∷ fi.log)
      (empty_ack fi i w s a g) c

-- ===== src/CallControl/Tests.antt =====
-- libmsc/gsm_04_08_cc.c: calls from their start to their end.
use osmo_msc.Base.{◌≡◌, refl, true, false, none, List, [], ◌∷◌}
use osmo_msc.CallControl.Types.{
  disconnect_req, t303, call_proc_req, setup_rsp, setup_req, cc_setup, connect_ack, disconnect,
  Stats, setup_ok, unsupported, Env, Trans,
}
use osmo_msc.CallControl.Release.{
  is_active, is_null, is_release_req, is_disconnect, count_statistics, new_cc_state,
  gsm48_stop_cc_timer, gsm48_start_cc_timer, gsm48_start_guard_timer, gsm48_stop_guard_timer,
  trans_tx_gsm48, mncc_recvmsg, gsm48_cc_tx_release, free_release_mncc, free_release_ms,
  gsm48_cc_trans_free, trans_free,
}
use osmo_msc.CallControl.FromMs.{
  gsm48_cc_rx_setup, gsm48_cc_rx_connect_ack, gsm48_cc_rx_disconnect, data_states, data_rout,
  gsm0408_rcv_cc,
}
use osmo_msc.CallControl.FromMncc.{
  setup_composed, gsm48_cc_tx_setup, gsm48_cc_tx_call_proc_and_assign, gsm48_cc_tx_connect,
  down_states, down_rout, passes_through, handle_req, mncc_tx_to_gsm_cc, cc_paging_cb,
  setup_port_known, port_known_in, cc_on_cn_local_rtp_port_known,
}
use osmo_msc.CallControl.Told.{closings, Told}
use osmo_msc.CallControl.Supervised.{Watched}
use osmo_msc.CallControl.Calls.{trans_alloc, Input, from_ms, from_mncc, paged, port_known, run}
use osmo_msc.CallControl.Ending.{run-Told, run-Watched, timeouts, run-timeouts}

abbrev env_ok : Env
env_ok = record {
  assign_ok = true;
  transfer_ok = true;
  rtp_ok = true;
  sdp_fits = true;
  codec_assigned = true;
  setup = setup_ok;
}

abbrev no_calls : Stats
no_calls = record { active_calls = 0; call_active = 0; call_complete = 0; call_incomplete = 0 }

-- A call of the phone that MNCC answers, that the phone modifies, and that it then leaves.
abbrev answered : List (Env × Input)
answered =
    (env_ok, from_ms connect_ack none)
    ∷ (env_ok, from_mncc 9 setup_rsp none)
    ∷ (env_ok, from_mncc 9 call_proc_req none)
    ∷ (env_ok, port_known)
    ∷ (env_ok, from_ms cc_setup none)
    ∷ []

abbrev left : List (Env × Input)
left = (env_ok, from_ms disconnect none) ∷ answered

abbrev outgoing : List (Env × Input) → Trans
outgoing xs = run (trans_alloc 9 true no_calls) xs

-- In DISCONNECT REQUEST after an answered call neither timer runs.
left_unwatched :
    ((outgoing left).state ≡ disconnect_req)
    × ((outgoing left).timer ≡ none)
    × ((outgoing left).guard_running ≡ false)
unfolding gsm0408_rcv_cc data_states data_rout is_null is_active is_release_req gsm48_cc_rx_setup
    new_cc_state count_statistics is_disconnect gsm48_start_guard_timer
    cc_on_cn_local_rtp_port_known port_known_in setup_port_known mncc_recvmsg mncc_tx_to_gsm_cc
    handle_req passes_through down_states down_rout gsm48_cc_tx_call_proc_and_assign trans_tx_gsm48
    gsm48_cc_tx_connect gsm48_start_cc_timer gsm48_stop_cc_timer gsm48_cc_rx_connect_ack
    gsm48_cc_rx_disconnect
left_unwatched = (refl, refl, refl)

run-Told_example : Told (outgoing left)
run-Told_example = run-Told 9 true no_calls left refl refl

run-Watched_example : Watched no_calls.active_calls (outgoing left)
run-Watched_example = run-Watched 9 true no_calls left refl

-- A call for a phone that does not answer the SETUP.
abbrev unanswered : List (Env × Input)
unanswered = (env_ok, from_mncc 9 setup_req none) ∷ []

run-timeouts_example : (timeouts 4 (outgoing unanswered)).freed ≡ true
unfolding mncc_tx_to_gsm_cc handle_req passes_through down_states is_null down_rout
    gsm48_cc_tx_setup setup_composed trans_tx_gsm48 new_cc_state gsm48_start_cc_timer
    gsm48_start_guard_timer is_active count_statistics
run-timeouts_example = run-timeouts 9 true no_calls unanswered t303 refl refl refl

-- A call for a phone that was paged, with a transfer capability that is not supported: MNCC is not
-- told that it ends.
abbrev unsupported_call : Trans
unsupported_call =
    run (trans_alloc 9 false no_calls) ((record env_ok { setup = unsupported }, paged true) ∷ [])

unsupported_untold : closings unsupported_call.log ≡ 0
unfolding cc_paging_cb gsm48_cc_tx_setup setup_composed trans_free gsm48_cc_trans_free
    gsm48_stop_cc_timer gsm48_start_cc_timer free_release_ms free_release_mncc gsm48_cc_tx_release
    new_cc_state trans_tx_gsm48 is_release_req is_active is_null count_statistics
    gsm48_stop_guard_timer
unsupported_untold = refl

-- ===== src/CallControl/Release.antt =====
-- libmsc/gsm_04_08_cc.c: states, timers and the messages that end a call.
use osmo_msc.Base.{◌+◌, ◌-◌, Bool, true, false, not, Option, none, some, ◌∷◌, ◌==◌, if◌then◌else◌}
use osmo_msc.CallControl.Types.{
  State, cc_null, call_received, active, disconnect_req, disconnect_ind, release_req, CcTimer, t301,
  t303, t306, t308, t310, t313, t323, Location, loc_user, loc_prn_s_lu, other_loc, CauseValue,
  recovery_timer, normal_unspec, user_notrespond, resource_unavail, other_value, Cause, Ind,
  disc_ind, rel_ind, rel_cnf, CcMsg, disconnect, release, to_mncc, to_ms, Stats, Trans,
}

unfoldable pub is_active : State → Bool
is_active active = true
is_active _ = false

unfoldable pub is_null : State → Bool
is_null cc_null = true
is_null _ = false

unfoldable pub is_release_req : State → Bool
is_release_req release_req = true
is_release_req _ = false

unfoldable pub is_call_received : State → Bool
is_call_received call_received = true
is_call_received _ = false

unfoldable pub is_disconnect : State → Bool
is_disconnect disconnect_req = true
is_disconnect disconnect_ind = true
is_disconnect _ = false

-- From the old state to the new one; nothing is counted where they are the same.
unfoldable pub count_statistics : State → State → Stats → Stats
count_statistics active active s = s
count_statistics active new s =
    let s' = record s { active_calls = s.active_calls - 1 } in
    if is_disconnect new
    then record s' { call_complete = s'.call_complete + 1 }
    else record s' { call_incomplete = s'.call_incomplete + 1 }
count_statistics _ active s = record s {
  active_calls = s.active_calls + 1;
  call_active = s.call_active + 1;
}
count_statistics _ _ s = s

unfoldable pub new_cc_state : Trans → State → Trans
new_cc_state t s =
    let t' = record t { stats = count_statistics t.state s t.stats; state = s } in
    if is_active s then record t' { guard_running = false } else t'

unfoldable pub gsm48_stop_cc_timer : Trans → Trans
gsm48_stop_cc_timer t = record t { timer = none }

unfoldable pub gsm48_start_cc_timer : Trans → CcTimer → Trans
gsm48_start_cc_timer t current = record t { timer = some current }

unfoldable pub gsm48_start_guard_timer : Trans → Trans
gsm48_start_guard_timer t = record t { guard_running = true }

unfoldable pub gsm48_stop_guard_timer : Trans → Trans
gsm48_stop_guard_timer t = record t { guard_running = false }

unfoldable pub trans_tx_gsm48 : Trans → CcMsg → Option Cause → Trans
trans_tx_gsm48 t m cause = record t { log = to_ms m cause ∷ t.log }

unfoldable pub mncc_recvmsg : Trans → Ind → Option Cause → Trans
mncc_recvmsg t m cause = record t { log = to_mncc m t.callref cause ∷ t.log; mncc_initiated = true }

unfoldable pub cause_of : Location → CauseValue → Cause
cause_of l v = record { location = l; value = v; diag = none }

unfoldable pub default_cause : Cause
default_cause = record { location = loc_prn_s_lu; value = normal_unspec; diag = none }

unfoldable pub or_default : Option Cause → Cause
or_default none = default_cause
or_default (some cause) = cause

unfoldable pub mncc_release_ind : Trans → Location → CauseValue → Trans
mncc_release_ind t l v =
    mncc_recvmsg t (if is_release_req t.state then rel_cnf else rel_ind) (some (cause_of l v))

unfoldable pub gsm48_cc_tx_release : Trans → Option Cause → Trans
gsm48_cc_tx_release t cause =
    if not t.has_msc_a
    then t
    else let t' = record (gsm48_start_cc_timer t t308) {
      t308_second = false;
      setup_stored = false;
      stored_cause = cause;
    } in
      trans_tx_gsm48 (if is_release_req t'.state then t' else new_cc_state t' release_req) release
        cause

unfoldable pub gsm48_cc_tx_disconnect : Trans → Option Cause → Trans
gsm48_cc_tx_disconnect t cause =
    let t' = record (gsm48_start_cc_timer t t306) { setup_stored = false; stored_cause = cause } in
    trans_tx_gsm48 (new_cc_state t' disconnect_ind) disconnect (some (or_default cause))

-- _gsm48_cc_trans_free(): the release to MNCC and to the phone while there is a callref.
unfoldable pub free_release_mncc : Trans → Trans
free_release_mncc t =
    if t.mncc_initiated
    then mncc_release_ind t loc_prn_s_lu
        (if is_call_received t.state then user_notrespond else resource_unavail)
    else t

unfoldable pub free_release_ms : Trans → Trans
free_release_ms t =
    if is_release_req t.state
    then t
    else gsm48_cc_tx_release t (some (cause_of loc_prn_s_lu resource_unavail))

unfoldable pub gsm48_cc_trans_free : Trans → Trans
gsm48_cc_trans_free t =
    let t' = gsm48_stop_cc_timer t in
    let u =
      if t'.callref == 0
      then t'
      else gsm48_stop_cc_timer (free_release_ms (free_release_mncc t')) in
    gsm48_stop_guard_timer (if is_null u.state then u else new_cc_state u cc_null)

unfoldable pub trans_free : Trans → Trans
trans_free t = if t.freed then t else gsm48_cc_trans_free (record t { freed = true })

-- The callref is given up before the transaction is freed.
unfoldable pub drop : Trans → Trans
drop t = trans_free (record t { callref = 0 })

unfoldable pub zero_cause : Cause
zero_cause = record { location = other_loc 0; value = other_value 0; diag = none }

unfoldable pub or_zero : Option Cause → Cause
or_zero none = zero_cause
or_zero (some cause) = cause

-- gsm48_cc_timeout() for timers that release, and for those that disconnect, with the cause for the
-- phone, which spells the timer, and the cause for MNCC.
unfoldable pub timeout_release : Trans → CcTimer → Cause → CauseValue → Trans
timeout_release t timer mo l4 =
    gsm48_cc_tx_release
      (if t.callref == 0 then t else record (mncc_release_ind t loc_prn_s_lu l4) { callref = 0 })
      (some (record mo { diag = some timer }))

unfoldable pub timeout_disconnect : Trans → CcTimer → CauseValue → Trans
timeout_disconnect t timer l4 =
    gsm48_cc_tx_disconnect
      (if t.callref == 0 then t else mncc_recvmsg t disc_ind (some (cause_of loc_prn_s_lu l4)))
      (some (record (cause_of loc_user recovery_timer) { diag = some timer }))

-- The timer is no longer pending.
unfoldable pub gsm48_cc_timeout : Trans → CcTimer → Trans
gsm48_cc_timeout t t303 = timeout_release t t303 (cause_of loc_user recovery_timer) user_notrespond
gsm48_cc_timeout t t310 = timeout_disconnect t t310 user_notrespond
gsm48_cc_timeout t t313 = timeout_disconnect t t313 normal_unspec
gsm48_cc_timeout t t301 = timeout_disconnect t t301 user_notrespond
gsm48_cc_timeout t t308 =
    if t.t308_second
    then trans_free t
    else record (gsm48_cc_tx_release t t.stored_cause) { t308_second = true }
gsm48_cc_timeout t t306 = timeout_release t t306 (or_zero t.stored_cause) normal_unspec
gsm48_cc_timeout t t323 = timeout_disconnect t t323 normal_unspec

unfoldable pub fire : Trans → Option CcTimer → Trans
fire t none = t
fire t (some timer) = gsm48_cc_timeout (record t { timer = none }) timer

-- The two timers run out.
unfoldable pub cc_timer_expires : Trans → Trans
cc_timer_expires t = fire t t.timer

unfoldable pub gsm48_cc_guard_timeout : Trans → Trans
gsm48_cc_guard_timeout t =
    if t.guard_running then trans_free (record t { guard_running = false }) else t

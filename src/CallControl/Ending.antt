-- ===== src/CallControl/Ending.antt =====
-- libmsc/gsm_04_08_cc.c: what holds of every call, and that a call whose timers run out ends.
use osmo_msc.Base.{
  ℕ, zero, suc, ◌≡◌, refl, sym, subst, Bool, true, false, ◌&&◌, not, Option, none, some, List, ◌==◌,
  is_some, Bool-cases, inl, inr, if_elim, arith,
}
use osmo_msc.CallControl.Types.{
  CcTimer, t301, t303, t306, t308, t310, t313, t323, loc_user, CauseValue, recovery_timer,
  normal_unspec, user_notrespond, Cause, release, Stats, Env, Trans,
}
use osmo_msc.CallControl.Release.{
  is_active, is_null, is_release_req, new_cc_state, gsm48_start_cc_timer, trans_tx_gsm48,
  mncc_recvmsg, cause_of, mncc_release_ind, gsm48_cc_tx_release, gsm48_cc_tx_disconnect,
  timeout_release, timeout_disconnect, gsm48_cc_timeout, fire, cc_timer_expires,
}
use osmo_msc.CallControl.Told.{Told}
use osmo_msc.CallControl.Timing.{gsm48_cc_timeout-Watched}
use osmo_msc.CallControl.Supervised.{Watched, Counted, trans_free-freed}
use osmo_msc.CallControl.Calls.{trans_alloc, Input, all_regular, run, Inv, armed, run-Inv}

-- From the allocation of a transaction with a callref through any messages of the phone and of MNCC,
-- timeouts, the end of the paging and releases by the rest of the MSC, as long as the socket of MNCC
-- is not closed and MNCC does not name the callref 0: while the transaction lives, MNCC has been told
-- of the end of the call by a message with its callref, or has refused the call, once if the callref
-- is given up and not at all otherwise; when it is freed, at most once, and exactly once if
-- mncc_initiated was set. The flag is not set by an MNCC_SETUP_REQ for a phone that has to be paged;
-- a message with the callref 0 is not counted.
pub run-Told :
    (callref : ℕ) (a : Bool) (s : Stats) (xs : List (Env × Input))
    → (callref == 0) ≡ false
    → all_regular xs ≡ true
    → Told (run (trans_alloc callref a s) xs)
run-Told callref a s xs c r = (run-Inv callref a s xs c).told r

-- Through any such inputs, the closing of the socket of MNCC and the callref 0 included: each timer of the call control only runs in the states that it is for; a
-- transaction in any state but NULL has a connection; in every state but NULL, ACTIVE, CONNECT
-- REQUEST, DISCONNECT REQUEST and MO ORIGINATED MODIFY a timer or the guard timer runs; a transaction
-- that is freed is in NULL with no timer; and the count of active calls is that of the others, and
-- one more exactly in ACTIVE.
pub run-Watched :
    (callref : ℕ) (a : Bool) (s : Stats) (xs : List (Env × Input))
    → (callref == 0) ≡ false
    → Watched s.active_calls (run (trans_alloc callref a s) xs)
run-Watched callref a s xs c = (run-Inv callref a s xs c).watched

-- The timer runs out again and again.
abbrev pub timeouts : ℕ → Trans → Trans
timeouts zero t = t
timeouts (suc n) t = timeouts n (cc_timer_expires t)

-- It lives, has a connection, and the timer runs.
abbrev Armed : CcTimer → Bool → Trans → Type 0
Armed x second t =
    (t.timer ≡ some x) × (t.t308_second ≡ second) × (t.freed ≡ false) × (t.has_msc_a ≡ true)

no_timer : (a b : Bool) (o : Option CcTimer) → (a && not (is_some o) && b) ≡ true → o ≡ none
no_timer a b none h = refl
no_timer a b (some x) h = absurd (ground (arith, h))

unfired : (t : Trans) → t.timer ≡ none → cc_timer_expires t ≡ t
unfolding cc_timer_expires fire
unfired t e = subst (λ o. fire t o ≡ t) (sym e) refl

stays_freed :
    (n base : ℕ) (t : Trans) → Watched base t → t.freed ≡ true → (timeouts n t).freed ≡ true
stays_freed zero base t w f = f
stays_freed (suc n) base t w f =
    subst (λ u. (timeouts n u).freed ≡ true)
      (sym (unfired t (no_timer (is_null t.state) (not t.guard_running) t.timer (w.over f))))
      (stays_freed n base t w f)

-- One timeout, by the timer.
fired :
    (t : Trans) (x : CcTimer)
    → t.timer ≡ some x
    → cc_timer_expires t ≡ gsm48_cc_timeout (record t { timer = none }) x
unfolding cc_timer_expires fire
fired t x e = subst (λ o. fire t o ≡ gsm48_cc_timeout (record t { timer = none }) x) (sym e) refl

gsm48_cc_tx_release-Armed :
    (t : Trans) (cause : Option Cause)
    → t.freed ≡ false
    → t.has_msc_a ≡ true
    → Armed t308 false (gsm48_cc_tx_release t cause)
unfolding gsm48_cc_tx_release gsm48_start_cc_timer trans_tx_gsm48 new_cc_state is_active
gsm48_cc_tx_release-Armed t cause f a =
    if_elim (Armed t308 false) (not t.has_msc_a) (λ e. absurd (ground (arith, a, e)))
      (λ e.
        if_elim (λ (u : Trans). Armed t308 false (trans_tx_gsm48 u release cause))
          (is_release_req t.state) (λ r. (refl, refl, f, a)) (λ r. (refl, refl, f, a)))

timeout_release-Armed :
    (t : Trans) (x : CcTimer) (mo : Cause) (l4 : CauseValue)
    → t.freed ≡ false
    → t.has_msc_a ≡ true
    → Armed t308 false (timeout_release t x mo l4)
unfolding timeout_release mncc_release_ind mncc_recvmsg
timeout_release-Armed t x mo l4 f a =
    if_elim
      (λ (u : Trans). Armed t308 false (gsm48_cc_tx_release u (some (record mo { diag = some x }))))
      (t.callref == 0) (λ e. gsm48_cc_tx_release-Armed _ _ f a)
      (λ e. gsm48_cc_tx_release-Armed _ _ f a)

timeout_disconnect-Armed :
    (t : Trans) (x : CcTimer) (l4 : CauseValue)
    → t.freed ≡ false
    → t.has_msc_a ≡ true
    → Armed t306 t.t308_second (timeout_disconnect t x l4)
unfolding timeout_disconnect mncc_recvmsg gsm48_cc_tx_disconnect gsm48_start_cc_timer new_cc_state
    is_active trans_tx_gsm48
timeout_disconnect-Armed t x l4 f a =
    if_elim
      (λ (u : Trans). Armed t306 t.t308_second (
        gsm48_cc_tx_disconnect u
          (some (record (cause_of loc_user recovery_timer) { diag = some x }))))
      (t.callref == 0) (λ e. (refl, refl, f, a)) (λ e. (refl, refl, f, a))

next :
    (n : ℕ) (t : Trans) (x : CcTimer)
    → t.timer ≡ some x
    → (timeouts n (gsm48_cc_timeout (record t { timer = none }) x)).freed ≡ true
    → (timeouts (suc n) t).freed ≡ true
next n t x e h = subst (λ u. (timeouts n u).freed ≡ true) (sym (fired t x e)) h

module _ (n base : ℕ) where
  second_ends : (t : Trans) → Counted base t → Armed t308 true t → (timeouts (suc n) t).freed ≡ true
  unfolding gsm48_cc_timeout
  second_ends t c (e, s, f, a) =
      let u : Trans = gsm48_cc_timeout (record t { timer = none }) t308 in
      let k : u.freed ≡ true =
        if_elim (λ (x : Trans). x.freed ≡ true) t.t308_second
          (λ d. trans_free-freed (record t { timer = none }))
          (λ d. absurd (ground (arith, d, s))) in
      next n t t308 e (
        stays_freed n base u (gsm48_cc_timeout-Watched base (record t { timer = none }) f a c t308)
          k)

  first_ends :
      (t : Trans) → Counted base t → Armed t308 false t → (timeouts (suc (suc n)) t).freed ≡ true
  unfolding gsm48_cc_timeout
  first_ends t c (e, s, f, a) =
      let v : Trans = record t { timer = none } in
      let u : Trans = gsm48_cc_timeout v t308 in
      let r : Armed t308 false (gsm48_cc_tx_release v v.stored_cause) =
        gsm48_cc_tx_release-Armed v v.stored_cause f a in
      let k : Armed t308 true u =
        if_elim (Armed t308 true) t.t308_second (λ d. absurd (ground (arith, d, s)))
          (λ d. (r.0, refl, r.2, r.3)) in
      next (suc n) t t308 e (second_ends u (gsm48_cc_timeout-Watched base v f a c t308).counted k)

  disconnect_ends :
      (t : Trans)
      → Counted base t
      → t.timer ≡ some t306
      → t.freed ≡ false
      → t.has_msc_a ≡ true
      → (timeouts (suc (suc (suc n))) t).freed ≡ true
  unfolding gsm48_cc_timeout
  disconnect_ends t c e f a =
      let v : Trans = record t { timer = none } in
      next (suc (suc n)) t t306 e (
        first_ends _ (gsm48_cc_timeout-Watched base v f a c t306).counted
          (timeout_release-Armed v t306 _ _ f a))

by_disconnect :
    (base : ℕ) (t : Trans) (x : CcTimer) (l4 : CauseValue)
    → Counted base t
    → t.timer ≡ some x
    → t.freed ≡ false
    → t.has_msc_a ≡ true
    → gsm48_cc_timeout (record t { timer = none }) x
      ≡ timeout_disconnect (record t { timer = none }) x l4
    → (timeouts 4 t).freed ≡ true
by_disconnect base t x l4 c e f a q =
    let v : Trans = record t { timer = none } in
    let u : Trans = timeout_disconnect v x l4 in
    let k : Armed t306 v.t308_second u = timeout_disconnect-Armed v x l4 f a in
    let w : Watched base u = subst (Watched base) q (gsm48_cc_timeout-Watched base v f a c x) in
    next 3 t x e (
      subst (λ y. (timeouts 3 y).freed ≡ true) (sym q)
        (disconnect_ends 0 base u w.counted k.0 k.2 k.3))

-- Whichever timer runs.
ends_by :
    (base : ℕ) (t : Trans) (x : CcTimer)
    → Counted base t
    → t.timer ≡ some x
    → t.freed ≡ false
    → t.has_msc_a ≡ true
    → (timeouts 4 t).freed ≡ true
unfolding gsm48_cc_timeout
ends_by base t t308 c e f a = elim (Bool-cases t.t308_second) [
  | inl s ↦ second_ends 3 base t c (e, s, f, a)
  | inr s ↦ first_ends 2 base t c (e, s, f, a)
]
ends_by base t t306 c e f a = disconnect_ends 1 base t c e f a
ends_by base t t303 c e f a =
    let v : Trans = record t { timer = none } in
    next 3 t t303 e (
      first_ends 1 base _ (gsm48_cc_timeout-Watched base v f a c t303).counted
        (timeout_release-Armed v t303 _ _ f a))
ends_by base t t301 c e f a = by_disconnect base t t301 user_notrespond c e f a refl
ends_by base t t310 c e f a = by_disconnect base t t310 user_notrespond c e f a refl
ends_by base t t313 c e f a = by_disconnect base t t313 normal_unspec c e f a refl
ends_by base t t323 c e f a = by_disconnect base t t323 normal_unspec c e f a refl

-- After any messages and timeouts, a call that lives with a running timer, of which nobody hears any
-- more, is freed within four timeouts: by disconnecting, releasing, releasing again and giving up.
pub run-timeouts :
    (callref : ℕ) (a : Bool) (s : Stats) (xs : List (Env × Input)) (x : CcTimer)
    → (callref == 0) ≡ false
    → (run (trans_alloc callref a s) xs).freed ≡ false
    → (run (trans_alloc callref a s) xs).timer ≡ some x
    → (timeouts 4 (run (trans_alloc callref a s) xs)).freed ≡ true
run-timeouts callref a s xs x c f e =
    let t : Trans = run (trans_alloc callref a s) xs in
    let i : Inv (all_regular xs) s.active_calls t = run-Inv callref a s xs c in
    ends_by s.active_calls t x i.watched.counted e f
      (armed (all_regular xs) s.active_calls t f i x e)

-- ===== src/CallControl/Calls.antt =====
-- libmsc/gsm_04_08_cc.c: a call from its start through any messages and timeouts.
use osmo_msc.Base.{
  ℕ, ◌≡◌, refl, subst, Bool, true, false, ◌&&◌, not, Option, none, some, List, [], ◌∷◌, ◌==◌,
  if◌then◌else◌, if_elim, arith,
}
use osmo_msc.CallControl.Types.{
  cc_null, CcTimer, loc_prn_s_lu, norm_call_clear, Cause, rel_ind, rel_cnf, Req, CcMsg, Stats, Env,
  Trans,
}
use osmo_msc.CallControl.Release.{
  is_null, gsm48_start_guard_timer, mncc_recvmsg, cause_of, trans_free, drop, fire,
  cc_timer_expires, gsm48_cc_guard_timeout,
}
use osmo_msc.CallControl.FromMs.{gsm0408_rcv_cc}
use osmo_msc.CallControl.FromMncc.{
  down_states, passes_through, is_rel_req, handle_req, mncc_tx_to_gsm_cc, cc_paging_cb,
  cc_on_cn_local_rtp_port_known,
}
use osmo_msc.CallControl.Told.{closings, closed, Told, continues, trans_free-Told}
use osmo_msc.CallControl.Telling.{going, gsm0408_rcv_cc-Told}
use osmo_msc.CallControl.Releasing.{
  down_rout-Told, paging_closings, cc_paging_cb-Told, port_known_in-Told, gsm48_cc_timeout-Told,
}
use osmo_msc.CallControl.Supervised.{fits, Watched, Counted, trans_free-Watched}
use osmo_msc.CallControl.Watching.{gsm0408_rcv_cc-Watched}
use osmo_msc.CallControl.Timing.{
  down_rout-Watched, gsm48_cc_timeout-Watched, gsm48_start_guard_timer-Watched,
  cc_paging_cb-Watched, port_known_in-Watched,
}

-- trans_alloc() for a call: a call of the phone, or one for a phone that is connected, has its
-- connection at once; one for a phone that is being paged has none.
abbrev pub trans_alloc : ℕ → (has_msc_a : Bool) → Stats → Trans
trans_alloc callref a s = record {
  state = cc_null;
  callref = callref;
  has_msc_a = a;
  timer = none;
  t308_second = false;
  guard_running = false;
  mncc_initiated = false;
  setup_stored = false;
  stored_cause = none;
  freed = false;
  stats = s;
  log = [];
}

-- What gsm0408_clear_all_trans() does to a call when the socket of MNCC is closed.
abbrev pub gsm0408_clear_all_trans : Trans → Trans
gsm0408_clear_all_trans t = trans_free (record t { callref = 0 })

-- A message of the phone; a message of MNCC for a callref; the end of the paging; the RTP port; the
-- two timers; a release by another part of the MSC; and the closing of the socket of MNCC.
pub data Input : Type 0 where
  from_ms : CcMsg → Option Cause → Input
  from_mncc : ℕ → Req → Option Cause → Input
  paged : Bool → Input
  port_known timer_expires guard_expires free mncc_closed : Input

-- A phone is heard over its connection, and a message of MNCC finds the call by its callref.
abbrev pub live_step : Env → Input → Trans → Trans
live_step env (from_ms m cause) t = if t.has_msc_a then gsm0408_rcv_cc env m t cause else t
live_step env (from_mncc c m cause) t =
    if c == t.callref then mncc_tx_to_gsm_cc env m t cause else t
live_step env (paged success) t = cc_paging_cb env success t
live_step env port_known t = if t.has_msc_a then cc_on_cn_local_rtp_port_known env t else t
live_step env timer_expires t = cc_timer_expires t
live_step env guard_expires t = gsm48_cc_guard_timeout t
live_step env free t = trans_free t
live_step env mncc_closed t = gsm0408_clear_all_trans t

-- A transaction that is freed is no longer there.
abbrev pub step : Env → Input → Trans → Trans
step env x t = if t.freed then t else live_step env x t

-- The last input first.
abbrev pub run : Trans → List (Env × Input) → Trans
run t [] = t
run t ((env, x) ∷ xs) = step env x (run t xs)

-- MNCC's socket stays open and MNCC does not name the callref 0, which is none.
abbrev pub is_regular : Input → Bool
is_regular mncc_closed = false
is_regular (from_mncc c m cause) = not (c == 0)
is_regular _ = true

abbrev pub all_regular : List (Env × Input) → Bool
all_regular [] = true
all_regular ((env, x) ∷ xs) = is_regular x && all_regular xs

-- Told, where all inputs are regular, as `ok` tells.
pub record Inv (ok : Bool) (base : ℕ) (t : Trans) : Type 0 where
  pub told : ok ≡ true → Told t
  pub watched : Watched base t

dropped :
    {ok : Bool} {base : ℕ} (u : Trans)
    → u.freed ≡ false
    → (ok ≡ true → closings u.log ≡ 1)
    → Counted base u
    → Inv ok base (drop u)
unfolding drop
dropped {ok} {base} u f n c = record {
  told = λ k. trans_free-Told (record u { callref = 0 }) f (n k);
  watched = trans_free-Watched base (record u { callref = 0 }) f c;
}

module _ (ok : Bool) (base : ℕ) (t : Trans) (f : t.freed ≡ false) (i : Inv ok base t) where
  h : ok ≡ true → closings t.log ≡ closed t.callref
  h k = (i.told k).live f

  handle_req-Inv :
      (env : Env) (m : Req) (cause : Option Cause)
      → (ok ≡ true → (t.callref == 0) ≡ false)
      → Inv ok base (handle_req env m t cause)
  unfolding handle_req mncc_recvmsg
  handle_req-Inv env m cause c =
      if_elim (Inv ok base) (not t.has_msc_a)
        (λ e.
          let u : Trans =
            mncc_recvmsg t (if is_rel_req m then rel_cnf else rel_ind)
              (some (cause_of loc_prn_s_lu norm_call_clear)) in
          dropped u f (λ k. paging_closings t f (h k) m) i.watched.counted)
        (λ e.
          if_elim (Inv ok base) (down_states m t.state)
            (λ d. record {
              told = λ k. down_rout-Told t f (h k) env m cause (c k);
              watched = down_rout-Watched base t f (ground (arith, e)) i.watched env m cause d;
            })
            (λ d. i))

  pub armed : (x : CcTimer) → t.timer ≡ some x → t.has_msc_a ≡ true
  unfolding is_null
  armed x e =
      ground (arith, f, i.watched.connected, subst (λ o. fits o t.state ≡ true) e i.watched.timed)

  fire-Inv : (o : Option CcTimer) → t.timer ≡ o → Inv ok base (fire t o)
  unfolding fire
  fire-Inv none e = i
  fire-Inv (some x) e = record {
    told = λ k. gsm48_cc_timeout-Told (record t { timer = none }) f (h k) x;
    watched =
        gsm48_cc_timeout-Watched base (record t { timer = none }) f (armed x e) i.watched.counted x;
  }

module _ (ok : Bool) (base : ℕ) (t : Trans) (f : t.freed ≡ false) (i : Inv ok base t) where
  mncc_tx_to_gsm_cc-Inv :
      (env : Env) (m : Req) (cause : Option Cause)
      → (ok ≡ true → (t.callref == 0) ≡ false)
      → Inv ok base (mncc_tx_to_gsm_cc env m t cause)
  unfolding mncc_tx_to_gsm_cc gsm48_start_guard_timer
  mncc_tx_to_gsm_cc-Inv env m cause c =
      if_elim
        (λ (u : Trans). Inv ok base (handle_req env m (record u { mncc_initiated = true }) cause))
        (passes_through m)
        (λ e.
          handle_req-Inv ok base (record t { mncc_initiated = true }) f
            (record { told = λ k. going t f (h ok base t f i k) true; watched = i.watched }) env m
            cause c)
        (λ e.
          handle_req-Inv ok base (record t { guard_running = true; mncc_initiated = true }) f
            (record {
              told = λ k. going t f (h ok base t f i k) true;
              watched = gsm48_start_guard_timer-Watched base t f i.watched;
            })
            env m cause c)

  named : (c : ℕ) → (c == t.callref) ≡ true → not (c == 0) ≡ true → (t.callref == 0) ≡ false
  named c e q = ground (arith, e, q)

  closed_ok : (b : Bool) → b ≡ false → (ok ≡ true → b ≡ true) → ok ≡ true → ⊥
  closed_ok b e r k = let q = r k in ground (arith, e, q)

-- An input that is not regular leaves nothing to tell.
live_step-Inv :
    (ok : Bool) (base : ℕ) (t : Trans) (f : t.freed ≡ false) (i : Inv ok base t) (env : Env)
    (x : Input)
    → (ok ≡ true → is_regular x ≡ true)
    → Inv ok base (live_step env x t)
unfolding gsm48_cc_guard_timeout cc_timer_expires cc_on_cn_local_rtp_port_known
live_step-Inv ok base t f i env (from_ms m cause) r =
    if_elim (Inv ok base) t.has_msc_a
      (λ a. record {
        told = λ k. gsm0408_rcv_cc-Told t f (h ok base t f i k) env m cause;
        watched = gsm0408_rcv_cc-Watched base t f a i.watched env m cause;
      })
      (λ a. i)
live_step-Inv ok base t f i env (from_mncc c m cause) r =
    if_elim (Inv ok base) (c == t.callref)
      (λ e. mncc_tx_to_gsm_cc-Inv ok base t f i env m cause (λ k. named ok base t f i c e (r k)))
      (λ e. i)
live_step-Inv ok base t f i env (paged success) r = record {
  told = λ k. cc_paging_cb-Told t f (h ok base t f i k) env success;
  watched = cc_paging_cb-Watched base t f i.watched env success;
}
live_step-Inv ok base t f i env port_known r =
    if_elim (Inv ok base) t.has_msc_a
      (λ a. record {
        told = λ k. port_known_in-Told t f (h ok base t f i k) env t.state a;
        watched = port_known_in-Watched base t f i.watched env t.state;
      })
      (λ a. i)
live_step-Inv ok base t f i env timer_expires r = fire-Inv ok base t f i t.timer refl
live_step-Inv ok base t f i env guard_expires r =
    if_elim (Inv ok base) t.guard_running
      (λ e. record {
        told = λ k. trans_free-Told (record t { guard_running = false }) f (h ok base t f i k);
        watched = trans_free-Watched base (record t { guard_running = false }) f i.watched.counted;
      })
      (λ e. i)
live_step-Inv ok base t f i env free r = record {
  told = λ k. trans_free-Told t f (h ok base t f i k);
  watched = trans_free-Watched base t f i.watched.counted;
}
live_step-Inv ok base t f i env mncc_closed r = record {
  told = λ k. absurd (closed_ok ok base t f i false refl r k);
  watched = trans_free-Watched base (record t { callref = 0 }) f i.watched.counted;
}

step-Inv :
    (ok : Bool) (base : ℕ) (env : Env) (x : Input) (t : Trans)
    → (ok ≡ true → is_regular x ≡ true)
    → Inv ok base t
    → Inv ok base (step env x t)
step-Inv ok base env x t r i =
    if_elim (Inv ok base) t.freed (λ e. i) (λ e. live_step-Inv ok base t e i env x r)

alloc-Inv :
    (ok : Bool) (callref : ℕ) (a : Bool) (s : Stats)
    → (callref == 0) ≡ false
    → Inv ok s.active_calls (trans_alloc callref a s)
unfolding is_null
alloc-Inv ok callref a s c = record {
  told = λ k. continues false false callref 0 refl (ground (arith, c));
  watched = record {
    timed = refl;
    connected = refl;
    watched = refl;
    over = λ d. absurd (ground (arith, d));
    counted = ground arith;
  };
}

both : (a b : Bool) → (a && b) ≡ true → (a ≡ true) × (b ≡ true)
both a b h = (ground (arith, h), ground (arith, h))

weaken :
    (ok ok' : Bool) (base : ℕ) (t : Trans)
    → (ok' ≡ true → ok ≡ true)
    → Inv ok base t
    → Inv ok' base t
weaken ok ok' base t f i = record { told = λ k. i.told (f k); watched = i.watched }

pub run-Inv :
    (callref : ℕ) (a : Bool) (s : Stats) (xs : List (Env × Input))
    → (callref == 0) ≡ false
    → Inv (all_regular xs) s.active_calls (run (trans_alloc callref a s) xs)
run-Inv callref a s [] c = alloc-Inv true callref a s c
run-Inv callref a s ((env, x) ∷ xs) c =
    let t = run (trans_alloc callref a s) xs in
    let ok = is_regular x && all_regular xs in
    step-Inv ok s.active_calls env x t (λ k. (both _ _ k).0)
      (weaken (all_regular xs) ok s.active_calls t (λ k. (both (is_regular x) _ k).1)
        (run-Inv callref a s xs c))

-- ===== src/CallControl/Supervised.antt =====
-- libmsc/gsm_04_08_cc.c: which timer runs in which state of a call, and the count of active calls.
use osmo_msc.Base.{
  ℕ, ◌+◌, ◌≡◌, refl, Bool, true, false, ◌&&◌, ◌||◌, not, Option, none, some, ◌==◌, is_some,
  if◌then◌else◌, if_elim, arith,
}
use osmo_msc.CallControl.Types.{
  State, cc_null, call_present, call_received, connect_request, mo_term_call_conf, active,
  disconnect_req, disconnect_ind, release_req, mo_orig_modify, mo_term_modify, connect_ind, CcTimer,
  t301, t303, t306, t308, t310, t313, t323, Cause, release, Stats, Trans,
}
use osmo_msc.CallControl.Release.{
  is_active, is_null, is_release_req, is_disconnect, count_statistics, new_cc_state,
  gsm48_stop_cc_timer, gsm48_start_cc_timer, gsm48_stop_guard_timer, trans_tx_gsm48, mncc_recvmsg,
  mncc_release_ind, gsm48_cc_tx_release, free_release_mncc, free_release_ms, gsm48_cc_trans_free,
  trans_free,
}

-- The states in which a timer runs.
abbrev pub is_for : CcTimer → State → Bool
is_for t303 call_present = true
is_for t310 call_present = true
is_for t310 mo_term_call_conf = true
is_for t301 call_received = true
is_for t313 connect_ind = true
is_for t306 disconnect_ind = true
is_for t308 release_req = true
is_for t323 mo_term_modify = true
is_for _ _ = false

abbrev pub fits : Option CcTimer → State → Bool
fits none s = true
fits (some x) s = is_for x s

-- The states that may be without any timer.
abbrev pub is_unwatched : State → Bool
is_unwatched cc_null = true
is_unwatched active = true
is_unwatched connect_request = true
is_unwatched disconnect_req = true
is_unwatched mo_orig_modify = true
is_unwatched _ = false

abbrev pub is_in_call : State → Bool
is_in_call active = true
is_in_call _ = false

abbrev pub count_of : Bool → ℕ
count_of true = 1
count_of false = 0

-- With `base` active calls besides this one.
pub record Watches (base : ℕ) (state : State) (timer : Option CcTimer)
    (guard freed has_msc_a : Bool) (calls : ℕ) : Type 0 where
  pub timed : fits timer state ≡ true
  pub connected : (freed || is_null state || has_msc_a) ≡ true
  pub watched : (freed || is_some timer || guard || is_unwatched state) ≡ true
  pub over : freed ≡ true → (is_null state && not (is_some timer) && not guard) ≡ true
  pub counted : calls ≡ base + count_of (is_in_call state)

abbrev pub Watched : ℕ → Trans → Type 0
Watched base t =
    Watches base t.state t.timer t.guard_running t.freed t.has_msc_a t.stats.active_calls

pub count_statistics-calls :
    (base : ℕ) (old new : State) (s : Stats)
    → s.active_calls ≡ base + count_of (is_in_call old)
    → (count_statistics old new s).active_calls ≡ base + count_of (is_in_call new)
unfolding count_statistics is_disconnect
count_statistics-calls base old new s h = ground (arith, h)

abbrev pub Counted : ℕ → Trans → Type 0
Counted base t = t.stats.active_calls ≡ base + count_of (is_in_call t.state)

-- A change of state of a transaction that lives.
pub moved-Watches :
    (base : ℕ) (t : Trans) (s : State) (x : Option CcTimer) (g : Bool)
    → t.freed ≡ false
    → t.has_msc_a ≡ true
    → fits x s ≡ true
    → (is_some x || g || is_unwatched s) ≡ true
    → Counted base t
    → Watches base s x g t.freed t.has_msc_a (count_statistics t.state s t.stats).active_calls
moved-Watches base t s x g f a h k c = record {
  timed = h;
  connected = ground (arith, a);
  watched = ground (arith, k);
  over = λ e. absurd (ground (arith, e, f));
  counted = count_statistics-calls base t.state s t.stats c;
}

abbrev Ended : ℕ → Trans → Type 0
Ended base t = (t.freed ≡ true) × (t.timer ≡ none) × Counted base t

gsm48_cc_tx_release-Counted :
    (base : ℕ) (t : Trans) (cause : Option Cause)
    → Counted base t
    → Counted base (gsm48_cc_tx_release t cause)
unfolding gsm48_cc_tx_release gsm48_start_cc_timer trans_tx_gsm48 new_cc_state is_active
gsm48_cc_tx_release-Counted base t cause c =
    if_elim (Counted base) (not t.has_msc_a) (λ e. c)
      (λ e.
        if_elim (λ (w : Trans). Counted base (trans_tx_gsm48 w release cause))
          (is_release_req t.state) (λ r. c)
          (λ r. count_statistics-calls base t.state release_req t.stats c))

pub gsm48_cc_tx_release-Watched :
    (base : ℕ) (t : Trans) (cause : Option Cause)
    → t.freed ≡ false
    → t.has_msc_a ≡ true
    → Counted base t
    → Watched base (gsm48_cc_tx_release t cause)
unfolding gsm48_cc_tx_release gsm48_start_cc_timer trans_tx_gsm48 new_cc_state is_active
    is_release_req
gsm48_cc_tx_release-Watched base t cause f a c =
    if_elim (Watched base) (not t.has_msc_a) (λ e. absurd (ground (arith, a, e)))
      (λ e.
        if_elim (λ (w : Trans). Watched base (trans_tx_gsm48 w release cause))
          (is_release_req t.state)
          (λ r. record {
            timed = ground (arith, r);
            connected = ground (arith, a);
            watched = ground (arith, f);
            over = λ d. absurd (ground (arith, d, f));
            counted = c;
          })
          (λ r. moved-Watches base t release_req (some t308) t.guard_running f a refl refl c))

released_freed :
    (t : Trans) (cause : Option Cause) → t.freed ≡ true → (gsm48_cc_tx_release t cause).freed ≡ true
unfolding gsm48_cc_tx_release gsm48_start_cc_timer trans_tx_gsm48 new_cc_state is_active
released_freed t cause f =
    if_elim (λ (x : Trans). x.freed ≡ true) (not t.has_msc_a) (λ e. f)
      (λ e.
        if_elim (λ (w : Trans). (trans_tx_gsm48 w release cause).freed ≡ true)
          (is_release_req t.state) (λ r. f) (λ r. f))

free_release-freed :
    (t : Trans)
    → t.freed ≡ true
    → (gsm48_stop_cc_timer (free_release_ms (free_release_mncc t))).freed ≡ true
unfolding gsm48_stop_cc_timer free_release_ms free_release_mncc mncc_release_ind mncc_recvmsg
free_release-freed t f =
    let w : Trans = free_release_mncc t in
    let k : w.freed ≡ true =
      if_elim (λ (x : Trans). x.freed ≡ true) t.mncc_initiated (λ e. f) (λ e. f) in
    if_elim (λ (x : Trans). (gsm48_stop_cc_timer x).freed ≡ true) (is_release_req w.state) (λ e. k)
      (λ e. released_freed w _ k)

freeing-Ended :
    (base : ℕ) (t : Trans)
    → t.freed ≡ true
    → Counted base t
    → Ended base (gsm48_stop_cc_timer (free_release_ms (free_release_mncc t)))
unfolding gsm48_stop_cc_timer free_release_ms free_release_mncc mncc_release_ind mncc_recvmsg
freeing-Ended base t f c =
    let w : Trans = free_release_mncc t in
    let d : Bool = is_release_req w.state in
    let k : (w.freed ≡ true) × Counted base w =
      if_elim (λ (x : Trans). (x.freed ≡ true) × Counted base x) t.mncc_initiated (λ e. (f, c))
        (λ e. (f, c)) in
    if_elim (λ (x : Trans). Ended base (gsm48_stop_cc_timer x)) d (λ e. (k.0, refl, k.1))
      (λ e. (released_freed w _ k.0, refl, gsm48_cc_tx_release-Counted base w _ k.1))

is_null_null : is_null cc_null ≡ true
unfolding is_null
is_null_null = refl

ended-Watches :
    (base : ℕ) (s : State) (x : Option CcTimer) (f a : Bool) (calls : ℕ)
    → f ≡ true
    → x ≡ none
    → is_null s ≡ true
    → calls ≡ base + count_of (is_in_call s)
    → Watches base s x false f a calls
unfolding is_null
ended-Watches base cc_null none f a calls e h n c = record {
  timed = refl;
  connected = ground (arith, e);
  watched = ground (arith, e);
  over = λ d. refl;
  counted = c;
}
ended-Watches base s none f a calls e h n c = absurd (ground (arith, n))
ended-Watches base s (some x) f a calls e h n c = absurd (ground (arith, h))

Ended-Watched :
    (base : ℕ) (u : Trans)
    → Ended base u
    → Watched base (gsm48_stop_guard_timer (if is_null u.state then u else new_cc_state u cc_null))
unfolding gsm48_stop_guard_timer new_cc_state is_active
Ended-Watched base u k =
    if_elim (λ (x : Trans). Watched base (gsm48_stop_guard_timer x)) (is_null u.state)
      (λ n.
        ended-Watches base u.state u.timer u.freed u.has_msc_a u.stats.active_calls k.0 k.1 n k.2)
      (λ n.
        ended-Watches base cc_null u.timer u.freed u.has_msc_a _ k.0 k.1 is_null_null
          (count_statistics-calls base u.state cc_null u.stats k.2))

pub trans_free-Watched :
    (base : ℕ) (t : Trans) → t.freed ≡ false → Counted base t → Watched base (trans_free t)
unfolding trans_free gsm48_cc_trans_free gsm48_stop_cc_timer
trans_free-Watched base t f c =
    let w : Trans = record t { freed = true; timer = none } in
    let u : Trans =
      if t.callref == 0 then w else gsm48_stop_cc_timer (free_release_ms (free_release_mncc w)) in
    let k : Ended base u =
      if_elim (Ended base) (t.callref == 0) (λ e. (refl, refl, c))
        (λ e. freeing-Ended base w refl c) in
    if_elim (Watched base) t.freed (λ e. absurd (ground (arith, e, f)))
      (λ e. Ended-Watched base u k)

pub trans_free-freed : (t : Trans) → (trans_free t).freed ≡ true
unfolding trans_free gsm48_cc_trans_free gsm48_stop_cc_timer gsm48_stop_guard_timer new_cc_state
    is_active
trans_free-freed t =
    let w : Trans = record t { freed = true; timer = none } in
    let u : Trans =
      if t.callref == 0 then w else gsm48_stop_cc_timer (free_release_ms (free_release_mncc w)) in
    let k : u.freed ≡ true =
      if_elim (λ (x : Trans). x.freed ≡ true) (t.callref == 0) (λ e. refl)
        (λ e. free_release-freed w refl) in
    if_elim (λ (x : Trans). x.freed ≡ true) t.freed (λ e. e)
      (λ e.
        if_elim (λ (x : Trans). (gsm48_stop_guard_timer x).freed ≡ true) (is_null u.state) (λ n. k)
          (λ n. k))

-- ===== src/CallControl/Told.antt =====
-- libmsc/gsm_04_08_cc.c: MNCC is told of the end of a call once.
use osmo_msc.Base.{
  ℕ, ◌+◌, ◌≡◌, refl, Bool, true, false, ◌&&◌, not, Option, none, some, List, [], ◌∷◌, ◌==◌, leb,
  if◌then◌else◌, if_elim, arith,
}
use osmo_msc.CallControl.Types.{
  Location, loc_prn_s_lu, CauseValue, user_notrespond, resource_unavail, Cause, Ind, rel_ind,
  rel_cnf, rej_ind, CcMsg, release, release_compl, Out, to_mncc, to_ms, tx_simple, Trans,
}
use osmo_msc.CallControl.Release.{
  is_active, is_null, is_release_req, is_call_received, new_cc_state, gsm48_stop_cc_timer,
  gsm48_start_cc_timer, gsm48_stop_guard_timer, trans_tx_gsm48, mncc_recvmsg, cause_of,
  mncc_release_ind, gsm48_cc_tx_release, free_release_mncc, free_release_ms, gsm48_cc_trans_free,
  trans_free, drop,
}

abbrev is_end : Ind → Bool
is_end rel_ind = true
is_end rel_cnf = true
is_end rej_ind = true
is_end _ = false

abbrev is_refusal : CcMsg → Bool
is_refusal release_compl = true
is_refusal _ = false

-- How often a message with the callref of a call has told MNCC of its end, or the phone was told that
-- MNCC refuses it.
abbrev pub closings : List Out → ℕ
closings [] = 0
closings (to_mncc m c cause ∷ out) =
    let n = closings out in if is_end m && not (c == 0) then 1 + n else n
closings (to_ms m cause ∷ out) = let n = closings out in if is_refusal m then 1 + n else n
closings (tx_simple m ∷ out) = closings out

abbrev pub closed : ℕ → ℕ
closed c = if c == 0 then 1 else 0

-- While the transaction lives, the end has been told exactly if its callref is given up; once it is
-- freed, the end has been told at most once, and once if MNCC was involved.
pub record TellsOnce (freed initiated : Bool) (callref n : ℕ) : Type 0 where
  pub live : freed ≡ false → n ≡ closed callref
  pub over : freed ≡ true → initiated ≡ true → n ≡ 1
  pub once : leb n 1 ≡ true

abbrev pub Told : Trans → Type 0
Told t = TellsOnce t.freed t.mncc_initiated t.callref (closings t.log)

-- A transaction that lives, and one that is freed.
pub continues : (f i : Bool) (c n : ℕ) → f ≡ false → n ≡ closed c → TellsOnce f i c n
continues f i c n e h = record {
  live = λ _. h;
  over = λ d. absurd (ground (arith, d, e));
  once = ground (arith, h);
}

dies : (f i : Bool) (c n : ℕ) → f ≡ true → leb n 1 ≡ true → (i ≡ true → n ≡ 1) → TellsOnce f i c n
dies f i c n e h k = record { live = λ d. absurd (ground (arith, d, e)); over = λ _. k; once = h }

pub ending : (c n : ℕ) → n ≡ closed c → (if not (c == 0) then 1 + n else n) ≡ 1
ending c n h = ground (arith, h)

pub gsm48_cc_tx_release-Told :
    (t : Trans) (cause : Option Cause) → Told t → Told (gsm48_cc_tx_release t cause)
unfolding gsm48_cc_tx_release gsm48_start_cc_timer trans_tx_gsm48 new_cc_state is_active
gsm48_cc_tx_release-Told t cause h =
    if_elim Told (not t.has_msc_a) (λ e. h)
      (λ e.
        if_elim (λ (w : Trans). Told (trans_tx_gsm48 w release cause)) (is_release_req t.state)
          (λ r. h) (λ r. h))

free_release_ms-Told : (t : Trans) → Told t → Told (gsm48_stop_cc_timer (free_release_ms t))
unfolding free_release_ms gsm48_stop_cc_timer
free_release_ms-Told t h =
    if_elim (λ (w : Trans). Told (gsm48_stop_cc_timer w)) (is_release_req t.state) (λ e. h)
      (λ e. gsm48_cc_tx_release-Told t _ h)

-- A release says that the call ends, if its callref is there.
pub mncc_release_ind-closings :
    (t : Trans) (l : Location) (v : CauseValue)
    → closings t.log ≡ closed t.callref
    → closings (mncc_release_ind t l v).log ≡ 1
unfolding mncc_release_ind mncc_recvmsg
mncc_release_ind-closings t l v h =
    if_elim (λ (m : Ind). closings (mncc_recvmsg t m (some (cause_of l v))).log ≡ 1)
      (is_release_req t.state) (λ e. ending t.callref (closings t.log) h)
      (λ e. ending t.callref (closings t.log) h)

free_release_mncc-Told :
    (t : Trans)
    → t.freed ≡ true
    → closings t.log ≡ closed t.callref
    → (t.callref == 0) ≡ false
    → Told (free_release_mncc t)
unfolding free_release_mncc mncc_release_ind mncc_recvmsg
free_release_mncc-Told t f h c =
    let v : CauseValue = if is_call_received t.state then user_notrespond else resource_unavail in
    let w : Trans = mncc_release_ind t loc_prn_s_lu v in
    let n : closings w.log ≡ 1 = mncc_release_ind-closings t loc_prn_s_lu v h in
    if_elim Told t.mncc_initiated {x = w} {y = t}
      (λ e. dies t.freed true t.callref (closings w.log) f (ground (arith, n)) (λ _. n))
      (λ e.
        dies t.freed t.mncc_initiated t.callref (closings t.log) f (ground (arith, h, c))
          (λ d. absurd (ground (arith, d, e))))

pub trans_free-Told :
    (t : Trans) → t.freed ≡ false → closings t.log ≡ closed t.callref → Told (trans_free t)
unfolding trans_free gsm48_cc_trans_free gsm48_stop_guard_timer new_cc_state is_active
    gsm48_stop_cc_timer
trans_free-Told t f h =
    let w : Trans = record t { freed = true; timer = none } in
    let u : Trans =
      if t.callref == 0 then w else gsm48_stop_cc_timer (free_release_ms (free_release_mncc w)) in
    let k : Told u =
      if_elim Told (t.callref == 0)
        (λ e.
          dies true t.mncc_initiated t.callref (closings t.log) refl (ground (arith, h, e))
            (λ _. ground (arith, h, e)))
        (λ e. free_release_ms-Told (free_release_mncc w) (free_release_mncc-Told w refl h e)) in
    if_elim Told t.freed (λ e. absurd (ground (arith, e, f)))
      (λ e.
        if_elim (λ (x : Trans). Told (gsm48_stop_guard_timer x)) (is_null u.state) (λ n. k)
          (λ n. k))

pub drop-Told : (t : Trans) → t.freed ≡ false → closings t.log ≡ 1 → Told (drop t)
unfolding drop
drop-Told t f h = trans_free-Told (record t { callref = 0 }) f h

-- ===== src/Paging/Runs.antt =====
-- libmsc/paging.c: sequences of paging operations, and the transfer of requests.
use osmo_msc.Base.{
  ◌-◌, ◌≡◌, refl, sym, ap, ◌∙◌, subst, Bool, true, false, ◌&&◌, not, List, [], ◌∷◌, ◌++◌,
  if◌then◌else◌, if_elim, append_assoc, append-nil, arith,
}
use osmo_msc.Paging.{
  PagingCause, RatType, PagingRequest, tx_serv_abrt, Cs, paging_request_start, mark_paging,
  paging_request_join_vsub, paging_response, paging_expired, paging_response_timer_cb, is_sgs,
}
use osmo_msc.Paging.Accounts.{
  with_cb, called_back, called_back-append, Balanced, Accounts, started, taken, start-Accounts,
  paging_concludes-Accounts,
}

pub data Op : Type 0 where
  start : PagingRequest → Op
  response expiry : Op

paging_response_timer_cb-Accounts :
    (acc : List PagingRequest) (cs : Cs)
    → Accounts acc cs
    → Accounts acc (paging_response_timer_cb cs)
unfolding paging_response_timer_cb paging_expired
paging_response_timer_cb-Accounts acc cs a = paging_concludes-Accounts acc _ false (
    if_elim (Accounts acc) (is_sgs cs.attached_via_ran)
      (λ _. record {
        balanced = logged cs a.balanced;
        each_once =
            ap (λ l. l ++ with_cb cs.requests)
              (called_back-append cs.log (tx_serv_abrt ∷ []) ∙ append-nil (called_back cs.log))
            ∙ a.each_once;
      })
      (λ _. a))
  where
    logged : (cs : Cs) → Balanced cs → Balanced (record cs { log = cs.log ++ (tx_serv_abrt ∷ []) })
    logged cs b = ground arith

module _ (delivers : RatType → PagingCause → Bool) where
  -- The timer runs out only while it runs.
  abbrev pub step : Cs → Op → Cs
  step cs (start pr) = started cs (paging_request_start delivers cs pr)
  step cs response = paging_response cs
  step cs expiry = if cs.timer_running then paging_response_timer_cb cs else cs

  abbrev pub accepts : Cs → Op → List PagingRequest
  accepts cs (start pr) = taken (paging_request_start delivers cs pr) pr
  accepts cs _ = []

  pub run : Cs → List Op → Cs
  run cs [] = cs
  run cs (op ∷ ops) = run (step cs op) ops

  pub accepted : Cs → List Op → List PagingRequest
  accepted cs [] = []
  accepted cs (op ∷ ops) = accepts cs op ++ accepted (step cs op) ops

  step-Accounts :
      (acc : List PagingRequest) (cs : Cs) (op : Op)
      → Accounts acc cs
      → Accounts (acc ++ accepts cs op) (step cs op)
  unfolding paging_response
  step-Accounts acc cs (start pr) a = start-Accounts delivers acc cs pr a
  step-Accounts acc cs response a =
      subst (λ l. Accounts l (paging_response cs)) (sym (append-nil acc))
        (paging_concludes-Accounts acc cs true a)
  step-Accounts acc cs expiry a =
      subst (λ l. Accounts l (step cs expiry)) (sym (append-nil acc))
        (if_elim (Accounts acc) cs.timer_running (λ _. paging_response_timer_cb-Accounts acc cs a)
          (λ _. a))

  -- Over any sequence of starts, responses and expiries, every request that was accepted with a
  -- callback is called back exactly once or still pending, in the order of the requests; the timer
  -- runs, and one use token is held, exactly while the subscriber is paged; and no request is
  -- pending otherwise.
  pub run-Accounts :
      (acc : List PagingRequest) (cs : Cs) (ops : List Op)
      → Accounts acc cs
      → Accounts (acc ++ accepted cs ops) (run cs ops)
  unfolding run accepted
  run-Accounts acc cs [] a = subst (λ l. Accounts l cs) (sym (append-nil acc)) a
  run-Accounts acc cs (op ∷ ops) a =
      subst (λ l. Accounts l (run (step cs op) ops))
        (append_assoc acc (accepts cs op) (accepted (step cs op) ops))
        (run-Accounts (acc ++ accepts cs op) (step cs op) ops (step-Accounts acc cs op a))

-- What a transfer of requests makes of the two subscribers.
pub record Transferred (keep discarding : Cs) (r : Cs × Cs) : Type 0 where
  pub all_kept : r.0.requests ≡ keep.requests ++ discarding.requests
  pub held : r.0.paging_uses ≡ (if r.0.is_paging then 1 else 0)
  pub paged : r.0.is_paging ≡ false → r.0.requests ≡ []
  pub untimed : r.0.timer_running ≡ keep.timer_running
  pub released : Balanced r.1

mark_paging-held :
    (cs : Cs)
    → cs.paging_uses ≡ (if cs.is_paging then 1 else 0)
    → let r = mark_paging cs in
      (r.requests ≡ cs.requests)
      × (r.paging_uses ≡ (if r.is_paging then 1 else 0))
      × (r.is_paging ≡ false → r.requests ≡ [])
      × (r.timer_running ≡ cs.timer_running)
unfolding mark_paging
mark_paging-held cs h = ground arith

emptied :
    (cs : Cs)
    → cs.is_paging ≡ true
    → Balanced cs
    → Balanced (record cs {
      requests = [];
      is_paging = false;
      timer_running = false;
      paging_uses = cs.paging_uses - 1;
    })
emptied cs p b = ground arith

-- paging_request_join_vsub() moves all pending requests behind those of the subscriber that is
-- kept, balances the use tokens of both, and leaves the discarded one without requests and timer;
-- the timer of the one that is kept is as before, so it is not started.
pub paging_request_join_vsub-Transferred :
    (keep discarding : Cs)
    → Balanced keep
    → Balanced discarding
    → Transferred keep discarding (paging_request_join_vsub keep discarding)
unfolding paging_request_join_vsub
paging_request_join_vsub-Transferred keep discarding b d =
    if_elim (Transferred keep discarding) (not discarding.is_paging)
      (λ p. record {
        all_kept =
            sym (append-nil keep.requests) ∙ ap (λ l. keep.requests ++ l) (sym (d.empty (off p)));
        held = b.held;
        paged = b.empty;
        untimed = refl;
        released = d;
      })
      (λ p.
        let m =
          mark_paging-held (record keep { requests = keep.requests ++ discarding.requests })
            b.held in
        record {
          all_kept = m.0;
          held = m.1;
          paged = m.2;
          untimed = m.3;
          released = emptied discarding (on p) d;
        })
  where
    off : {x : Bool} → not x ≡ true → x ≡ false
    off {x} h = ground (arith, h)

    on : {x : Bool} → not x ≡ false → x ≡ true
    on {x} h = ground (arith, h)

-- It is paged, no timer runs, and nothing has been called back since.
abbrev pub IsStuck : Cs → Cs → Type 0
IsStuck before cs = (cs.is_paging ≡ true) × (cs.timer_running ≡ false) × (cs.log ≡ before.log)

abbrev is_response : Op → Bool
is_response response = true
is_response _ = false

abbrev pub unanswered : List Op → Bool
unanswered [] = true
unanswered (op ∷ ops) = not (is_response op) && unanswered ops

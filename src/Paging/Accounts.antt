-- ===== src/Paging/Accounts.antt =====
-- libmsc/paging.c: every request is called back once, the use tokens are balanced, and a transfer to a
-- subscriber that is not paged leaves it without a timer.
use osmo_msc.Base.{
  suc, ◌-◌, ◌≡◌, refl, sym, ap, ◌∙◌, subst, Bool, true, false, not, Option, none, some, List, [],
  ◌∷◌, ◌++◌, if◌then◌else◌, if_elim, append_assoc, append-nil, arith,
}
use osmo_msc.Paging.{
  PagingCause, RatType, PagingRequest, Call, paging_cb, paging_signal, tx_serv_abrt, Cs,
  add_request, msc_paging_request, paging_request_start, callbacks, paging_concludes,
}

-- The requests with a callback, and those that were called back.
abbrev pub with_cb : List PagingRequest → List PagingRequest
with_cb [] = []
with_cb (pr ∷ prs) = if pr.has_cb then pr ∷ with_cb prs else with_cb prs

abbrev pub called_back : List Call → List PagingRequest
called_back [] = []
called_back (paging_cb success pr ∷ cs) = pr ∷ called_back cs
called_back (_ ∷ cs) = called_back cs

-- Between two operations: the timer runs, and one token is held, exactly while the subscriber is
-- paged; otherwise no request is pending.
pub record Balanced (cs : Cs) : Type 0 where
  pub timed : cs.timer_running ≡ cs.is_paging
  pub held : cs.paging_uses ≡ (if cs.is_paging then 1 else 0)
  pub empty : cs.is_paging ≡ false → cs.requests ≡ []

-- The requests that were accepted so far are those called back and then those pending, in order.
pub record Accounts (accepted : List PagingRequest) (cs : Cs) : Type 0 where
  pub balanced : Balanced cs
  pub each_once : called_back cs.log ++ with_cb cs.requests ≡ with_cb accepted

with_cb-append : (xs ys : List PagingRequest) → with_cb (xs ++ ys) ≡ with_cb xs ++ with_cb ys
with_cb-append [] ys = refl
with_cb-append (x ∷ xs) ys = rw (with_cb-append xs ys) (spread x.has_cb x (with_cb xs) (with_cb ys))
  where
    spread :
        (b : Bool) (x : PagingRequest) (xs ys : List PagingRequest)
        → (if b then x ∷ (xs ++ ys) else xs ++ ys) ≡ (if b then x ∷ xs else xs) ++ ys
    spread true x xs ys = refl
    spread false x xs ys = refl

pub called_back-append :
    (xs ys : List Call) → called_back (xs ++ ys) ≡ called_back xs ++ called_back ys
called_back-append [] ys = refl
called_back-append (paging_cb b pr ∷ xs) ys = ap (λ l. pr ∷ l) (called_back-append xs ys)
called_back-append (paging_signal b ∷ xs) ys = called_back-append xs ys
called_back-append (tx_serv_abrt ∷ xs) ys = called_back-append xs ys

called_back-callbacks :
    (b : Bool) (prs : List PagingRequest) → called_back (callbacks b prs) ≡ with_cb prs
unfolding callbacks
called_back-callbacks b [] = refl
called_back-callbacks b (pr ∷ prs) = ground (arith, called_back-callbacks b prs)

add_request-Accounts :
    (acc : List PagingRequest) (cs : Cs) (pr : PagingRequest)
    → cs.is_paging ≡ true
    → Accounts acc cs
    → Accounts (acc ++ (pr ∷ [])) (add_request cs pr)
unfolding add_request
add_request-Accounts acc cs pr p a = record {
  balanced = grown cs pr p a.balanced;
  each_once =
      ap (λ l. called_back cs.log ++ l) (with_cb-append cs.requests (pr ∷ []))
      ∙ sym (append_assoc (called_back cs.log) (with_cb cs.requests) (with_cb (pr ∷ [])))
      ∙ ap (λ l. l ++ with_cb (pr ∷ [])) a.each_once
      ∙ sym (with_cb-append acc (pr ∷ []));
}
  where
    grown :
        (cs : Cs) (pr : PagingRequest)
        → cs.is_paging ≡ true
        → Balanced cs
        → Balanced (record cs { requests = cs.requests ++ (pr ∷ []) })
    grown cs pr p b = ground arith

-- A paging that begins.
begun :
    (cs : Cs)
    → cs.is_paging ≡ false
    → Balanced cs
    → Balanced
        (record cs { paging_uses = suc cs.paging_uses; is_paging = true; timer_running = true })
begun cs p b = ground arith

-- The subscriber after a start, and the request if it was accepted.
abbrev pub started : Cs → Option Cs → Cs
started cs none = cs
started cs (some cs') = cs'

abbrev pub taken : Option Cs → PagingRequest → List PagingRequest
taken none pr = []
taken (some cs') pr = pr ∷ []

module _ (delivers : RatType → PagingCause → Bool) where
  pub start-Accounts :
      (acc : List PagingRequest) (cs : Cs) (pr : PagingRequest)
      → Accounts acc cs
      → let r = paging_request_start delivers cs pr in Accounts (acc ++ taken r pr) (started cs r)
  unfolding paging_request_start
  start-Accounts acc cs pr a =
      let P : Option Cs → Type 0 = λ r. Accounts (acc ++ taken r pr) (started cs r) in
      if_elim P cs.is_paging (λ p. add_request-Accounts acc cs pr p a)
        (λ p.
          if_elim P (not (msc_paging_request delivers cs pr))
            (λ _. subst (λ l. Accounts l cs) (sym (append-nil acc)) a)
            (λ _.
              add_request-Accounts acc
                (record cs {
                  paging_uses = suc cs.paging_uses;
                  is_paging = true;
                  timer_running = true;
                })
                pr refl (record { balanced = begun cs p a.balanced; each_once = a.each_once })))

concluded :
    (cs : Cs) (b : Bool) (log : List Call)
    → Balanced cs
    → Balanced (record cs {
      requests = [];
      timer_running = false;
      is_paging = false;
      paging_uses = if cs.is_paging then cs.paging_uses - 1 else cs.paging_uses;
      log = log;
    })
concluded cs b log h = ground arith

pub paging_concludes-Accounts :
    (acc : List PagingRequest) (cs : Cs) (b : Bool)
    → Accounts acc cs
    → Accounts acc (paging_concludes cs b)
unfolding paging_concludes
paging_concludes-Accounts acc cs b a = record {
  balanced = concluded cs b _ a.balanced;
  each_once =
      append-nil (called_back (cs.log ++ (callbacks b cs.requests ++ (paging_signal b ∷ []))))
      ∙ called_back-append cs.log (callbacks b cs.requests ++ (paging_signal b ∷ []))
      ∙ ap (λ l. called_back cs.log ++ l)
          (called_back-append (callbacks b cs.requests) (paging_signal b ∷ [])
            ∙ append-nil (called_back (callbacks b cs.requests))
            ∙ called_back-callbacks b cs.requests)
      ∙ a.each_once;
}

-- ===== src/Paging.antt =====
-- libmsc/paging.c: the paging of a subscriber. The part of a subscriber that paging keeps, with the
-- number of its use tokens "Paging"; the callbacks of requests and the signal are recorded, oldest
-- first, in `log`. Whether a RAN delivers a request is the argument `delivers`. A callback that asks for
-- paging again while the requests are gone through is left out, as are labels and logging.
pub mod Accounts
pub mod Runs
pub mod Tests
use osmo_msc.Base.{
  ℕ, zero, suc, ◌+◌, ◌-◌, Bool, true, false, ◌&&◌, not, Option, none, some, List, [], ◌∷◌, ◌++◌,
  if◌then◌else◌,
}

-- enum paging_cause
pub data PagingCause : Type 0 where
  call_conversational call_streaming call_interactive call_background : PagingCause
  signalling_low_prio signalling_high_prio unspecified : PagingCause

-- enum osmo_rat_type, the values that the code names and any other.
pub data RatType : Type 0 where
  geran_a utran_iu eutran_sgs other_rat : RatType

-- struct paging_request; of the callback counts whether there is one.
pub record PagingRequest : Type 0 where
  pub cause : PagingCause
  pub has_cb : Bool
  pub trans : Option ℕ

-- What paging calls.
pub data Call : Type 0 where
  paging_cb : (success : Bool) → PagingRequest → Call
  paging_signal : (success : Bool) → Call
  tx_serv_abrt : Call

-- vsub->cs
pub record Cs : Type 0 where
  pub attached_via_ran : RatType
  pub requests : List PagingRequest
  pub is_paging : Bool
  pub timer_running : Bool
  pub paging_uses : ℕ
  pub log : List Call

abbrev pub is_attached : RatType → Bool
is_attached other_rat = false
is_attached _ = true

-- msc_paging_request() > 0
unfoldable pub msc_paging_request : (RatType → PagingCause → Bool) → Cs → PagingRequest → Bool
msc_paging_request delivers cs pr =
    is_attached cs.attached_via_ran && delivers cs.attached_via_ran pr.cause

unfoldable pub add_request : Cs → PagingRequest → Cs
add_request cs pr = record cs { requests = cs.requests ++ (pr ∷ []) }

-- A null pointer is `none`; nothing is changed then.
unfoldable pub paging_request_start :
    (RatType → PagingCause → Bool) → Cs → PagingRequest → Option Cs
paging_request_start delivers cs pr =
    if cs.is_paging
    then some (add_request cs pr)
    else if not (msc_paging_request delivers cs pr)
    then none
    else some (
        add_request
          (record cs { paging_uses = suc cs.paging_uses; is_paging = true; timer_running = true })
          pr)

abbrev pub is_empty : List PagingRequest → Bool
is_empty [] = true
is_empty (_ ∷ _) = false

-- A use token is there before the flag is set.
unfoldable pub mark_paging : Cs → Cs
mark_paging keep =
    if not keep.is_paging && not (is_empty keep.requests)
    then record keep { paging_uses = suc keep.paging_uses; is_paging = true }
    else keep

-- The first is kept, the second is discarded.
unfoldable pub paging_request_join_vsub : Cs → Cs → Cs × Cs
paging_request_join_vsub keep discarding =
    if not discarding.is_paging then (keep, discarding) else (
      mark_paging (record keep { requests = keep.requests ++ discarding.requests }),
      record discarding {
        requests = [];
        is_paging = false;
        timer_running = false;
        paging_uses = discarding.paging_uses - 1;
      },
    )

-- The callbacks of the requests, in order; each request is removed first.
unfoldable pub callbacks : (success : Bool) → List PagingRequest → List Call
callbacks success [] = []
callbacks success (pr ∷ prs) =
    let rest = callbacks success prs in if pr.has_cb then paging_cb success pr ∷ rest else rest

unfoldable pub paging_concludes : Cs → (success : Bool) → Cs
paging_concludes cs success = record cs {
  requests = [];
  timer_running = false;
  is_paging = false;
  paging_uses = if cs.is_paging then cs.paging_uses - 1 else cs.paging_uses;
  log = cs.log ++ (callbacks success cs.requests ++ (paging_signal success ∷ []));
}

unfoldable pub paging_response : Cs → Cs
paging_response cs = paging_concludes cs true

unfoldable pub paging_expired : Cs → Cs
paging_expired cs = paging_concludes cs false

abbrev pub is_sgs : RatType → Bool
is_sgs eutran_sgs = true
is_sgs _ = false

-- The timer runs out.
unfoldable pub paging_response_timer_cb : Cs → Cs
paging_response_timer_cb cs =
    paging_expired
      (if is_sgs cs.attached_via_ran then record cs { log = cs.log ++ (tx_serv_abrt ∷ []) } else cs)

-- ===== src/Paging/Tests.antt =====
-- Pagings at concrete inputs.
use osmo_msc.Base.{ℕ, arith, refl, Bool, true, false, some, List, [], ◌∷◌, ◌++◌}
use osmo_msc.Paging.{
  PagingCause, signalling_low_prio, RatType, geran_a, PagingRequest, Cs, paging_request_join_vsub,
}
use osmo_msc.Paging.Accounts.{Balanced, Accounts}
use osmo_msc.Paging.Runs.{
  Op, start, response, expiry, run, accepted, run-Accounts, Transferred,
  paging_request_join_vsub-Transferred,
}

abbrev always : RatType → PagingCause → Bool
always rat cause = true

abbrev idle : Cs
idle = record {
  attached_via_ran = geran_a;
  requests = [];
  is_paging = false;
  timer_running = false;
  paging_uses = 0;
  log = [];
}

abbrev request : ℕ → PagingRequest
request trans = record { cause = signalling_low_prio; has_cb = true; trans = some trans }

abbrev paged : Cs
paged = record idle {
  requests = request 3 ∷ [];
  is_paging = true;
  timer_running = true;
  paging_uses = 1;
}

idle-Balanced : Balanced idle
idle-Balanced = record { timed = refl; held = refl; empty = λ _. refl }

paged-Balanced : Balanced paged
paged-Balanced = record { timed = refl; held = refl; empty = λ h. absurd (ground (arith, h)) }

abbrev operations : List Op
operations = start (request 1) ∷ start (request 2) ∷ expiry ∷ start (request 3) ∷ response ∷ []

run-Accounts_example : Accounts ([] ++ accepted always idle operations) (run always idle operations)
run-Accounts_example =
    run-Accounts always [] idle operations (record { balanced = idle-Balanced; each_once = refl })

paging_request_join_vsub-Transferred_example :
    Transferred idle paged (paging_request_join_vsub idle paged)
paging_request_join_vsub-Transferred_example =
    paging_request_join_vsub-Transferred idle paged idle-Balanced paged-Balanced

-- Another request, and two times that the timer might run out.
abbrev waiting : List Op
waiting = expiry ∷ start (request 4) ∷ expiry ∷ []

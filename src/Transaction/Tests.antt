-- ===== src/Transaction/Tests.antt =====
-- Transactions at concrete inputs.
use osmo_msc.Base.{ℕ, arith, ◌≡◌, refl, none, some, [], ◌∷◌, false}
use osmo_msc.Transaction.{
  GsmTrans, GsmNetwork, cc, sms, new_trans, with_trans, trans_type_to_gsm48_proto, used_tid_bitmask,
  highest, circular, trans_assign_trans_id, trans_alloc, trans_has_conn, find, by_vsub,
}
use osmo_msc.Transaction.Assign.{
  IsUsed, IsHighestUsed, IsNearestFree, trans_assign_trans_id-IsNearest,
}
use osmo_msc.Transaction.Lookup.{IsFound, trans_find_by_id-trans_alloc}
use osmo_msc.Transaction.Free.{Cleanup, trans_free, trans_conn_closed, trans_free_for_vsub}
use osmo_msc.Transaction.Release.{
  OnlyFrees, NoneFreeing, AllBelow, trans_has_conn-trans_conn_closed, find-trans_free_for_vsub,
  trans_free-trans_alloc,
}

abbrev call : ℕ → ℕ → GsmTrans
call self trans_id = record {
  self = self;
  type = cc;
  transaction_id = trans_id;
  vsub = some 5;
  msc_a = some 9;
  callref = 1;
  call_id = 1;
  paging_request = none;
  sm_rp_mr = 0;
  freeing = false;
}

-- Subscriber 5 has calls with the identifiers 6 and 0 over connection 9.
abbrev net : GsmNetwork
net = record {
  trans_list = call 1 6 ∷ call 2 0 ∷ [];
  new_call_id = 3;
  uses = (5, cc) ∷ (5, cc) ∷ [];
  paging = [];
  next_addr = 3;
}

-- The cleanup of a transaction that has nothing to do in its protocol.
abbrev nothing : Cleanup
nothing net t = (net, t)

nothing-OnlyFrees : OnlyFrees nothing
nothing-OnlyFrees = record { shorter = λ net t. omega arith; none_freeing = λ net t k. k }

trans_assign_trans_id-IsNearest_example :
    let U = IsUsed (some 5) (trans_type_to_gsm48_proto cc) net.trans_list in
    (h : ℕ) × IsHighestUsed U 6 h × IsNearestFree U h (trans_assign_trans_id net (some 5) cc)
trans_assign_trans_id-IsNearest_example = trans_assign_trans_id-IsNearest net (some 5) cc

assigned : trans_assign_trans_id net (some 5) cc ≡ some 1
unfolding trans_assign_trans_id used_tid_bitmask trans_type_to_gsm48_proto highest circular
assigned = refl

trans_find_by_id-trans_alloc_example :
    (net' : GsmNetwork) × ((t : GsmTrans) × (trans_alloc net (some 5) cc 1 7 ≡ some (net', t))
      × IsFound net (some 5) cc 1 net' t)
trans_find_by_id-trans_alloc_example =
    trans_find_by_id-trans_alloc net (some 5) cc 1 7 assigned refl

none_freeing : NoneFreeing net.trans_list
unfolding NoneFreeing
none_freeing = (refl, (refl, tt))

trans_has_conn-trans_conn_closed_example : trans_has_conn (trans_conn_closed nothing net 9) 9 ≡ none
trans_has_conn-trans_conn_closed_example =
    trans_has_conn-trans_conn_closed nothing nothing-OnlyFrees net 9 none_freeing

find-trans_free_for_vsub_example :
    find (by_vsub 5) (trans_free_for_vsub nothing net 5).trans_list ≡ none
find-trans_free_for_vsub_example =
    find-trans_free_for_vsub nothing nothing-OnlyFrees net 5 none_freeing

all_below : AllBelow 3 net.trans_list
unfolding AllBelow
all_below = (omega arith, (omega arith, tt))

trans_free-trans_alloc_example :
    let t = new_trans net (some 5) sms 1 7 in
    let net' = with_trans net (some 5) sms t in
    trans_free nothing net' t
    ≡ record net { new_call_id = net'.new_call_id; next_addr = net'.next_addr }
trans_free-trans_alloc_example =
    trans_free-trans_alloc nothing net (some 5) sms 1 7 (λ _ _. refl) all_below

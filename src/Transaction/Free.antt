-- ===== src/Transaction/Free.antt =====
-- libmsc/transaction.c: the release of transactions.
use osmo_msc.Base.{
  ℕ, zero, suc, Bool, true, ◌&&◌, Option, none, some, List, [], ◌∷◌, if◌then◌else◌, ◌==◌, length,
}
use osmo_msc.Transaction.{GsmTrans, GsmNetwork, TransType, type_eq, find, by_conn, by_vsub}

-- llist_del() on the entry of a list.
unfoldable pub unlink : (self : ℕ) → List GsmTrans → List GsmTrans
unlink self [] = []
unlink self (t ∷ ts) = if t.self == self then ts else t ∷ unlink self ts

-- paging_request_remove(), of which only the list of requests is kept here.
unfoldable pub remove_paging : ℕ → List ℕ → List ℕ
remove_paging pr [] = []
remove_paging pr (q ∷ qs) = if q == pr then qs else q ∷ remove_paging pr qs

-- osmo_use_count_by() and vlr_subscr_put(): one token less, where there is one.
unfoldable pub put_use : ℕ → TransType → List (ℕ × TransType) → List (ℕ × TransType)
put_use vsub type [] = []
put_use vsub type ((v, y) ∷ uses) =
    if (v == vsub) && type_eq y type then uses else (v, y) ∷ put_use vsub type uses

unfoldable pub put_vsub : Option ℕ → TransType → List (ℕ × TransType) → List (ℕ × TransType)
put_vsub none type uses = uses
put_vsub (some vsub) type uses = put_use vsub type uses

unfoldable pub put_paging : Option ℕ → List ℕ → List ℕ
put_paging none paging = paging
put_paging (some pr) paging = remove_paging pr paging

-- What the release does in the transaction's protocol, with what is left of the transaction.
abbrev pub Cleanup : Type 0
Cleanup = GsmNetwork → GsmTrans → GsmNetwork × GsmTrans

module _ (cleanup : Cleanup) where
  -- The references that the transaction still has are given back after the cleanup.
  unfoldable pub put_references : GsmNetwork × GsmTrans → GsmNetwork
  put_references (net, t) = record net {
    paging = put_paging t.paging_request net.paging;
    uses = put_vsub t.vsub t.type net.uses;
  }

  -- The transaction is unlinked before its cleanup, which may release others.
  unfoldable pub trans_free : GsmNetwork → GsmTrans → GsmNetwork
  trans_free net t =
      if t.freeing
      then net
      else put_references (
          cleanup (record net { trans_list = unlink t.self net.trans_list })
            (record t { freeing = true }))

  unfoldable pub free_found : GsmNetwork → Option GsmTrans → GsmNetwork
  free_found net none = net
  free_found net (some t) = trans_free net t

  -- The loop that looks for one more transaction and releases it, with `n` rounds left.
  unfoldable pub free_all : (GsmTrans → Bool) → ℕ → GsmNetwork → GsmNetwork
  free_all p zero net = net
  free_all p (suc n) net = free_all p n (free_found net (find p net.trans_list))

  -- trans_conn_closed() and trans_free_for_vsub(): as many rounds as there are transactions.
  unfoldable pub trans_conn_closed : GsmNetwork → (msc_a : ℕ) → GsmNetwork
  trans_conn_closed net msc_a = free_all (by_conn msc_a) (length net.trans_list) net

  unfoldable pub trans_free_for_vsub : GsmNetwork → (vsub : ℕ) → GsmNetwork
  trans_free_for_vsub net vsub = free_all (by_vsub vsub) (length net.trans_list) net

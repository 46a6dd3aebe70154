-- ===== src/Transaction/Release.antt =====
-- libmsc/transaction.c: a release leaves nothing behind, and the releasing loops come to their end.
use osmo_msc.Base.{
  ℕ, zero, suc, ◌≤◌, ◌<◌, ◌≡◌, refl, sym, ap, subst, Bool, true, false, ◌&&◌, Option, none, some,
  List, [], ◌∷◌, ◌++◌, if◌then◌else◌, ◌==◌, length, arith, Option-cases, inl, inr, ◌⊎◌,
}
use osmo_msc.Transaction.{
  GsmTrans, GsmNetwork, TransType, type_eq, find, by_conn, by_vsub, trans_has_conn, new_trans,
  with_trans, vlr_subscr_get,
}
use osmo_msc.Transaction.Free.{
  Cleanup, unlink, put_use, put_vsub, put_paging, put_references, trans_free, free_found, free_all,
  trans_conn_closed, trans_free_for_vsub,
}

-- A transaction that is being released is not in the list.
unfoldable pub NoneFreeing : List GsmTrans → Type 0
NoneFreeing [] = Unit
NoneFreeing (t ∷ ts) = (t.freeing ≡ false) × NoneFreeing ts

-- The cleanups may release other transactions, and add none.
pub record OnlyFrees (cleanup : Cleanup) : Type 0 where
  pub shorter :
      (net : GsmNetwork) (t : GsmTrans)
      → length (cleanup net t).0.trans_list ≤ length net.trans_list
  pub none_freeing :
      (net : GsmNetwork) (t : GsmTrans)
      → NoneFreeing net.trans_list
      → NoneFreeing (cleanup net t).0.trans_list

-- A transaction that a walk finds is not being released, and unlinking it makes the list shorter.
record Found (ts : List GsmTrans) (t : GsmTrans) : Type 0 where
  idle : t.freeing ≡ false
  less : length (unlink t.self ts) < length ts
  rest : NoneFreeing (unlink t.self ts)

some-inj : {A : Type 0} {a b : A} → some a ≡ some b → a ≡ b
some-inj {A} {a} h = ap (λ o. elim o [ none ↦ a | some x ↦ x ]) h

unlink_here :
    (b : Bool) (s : GsmTrans) (ts us : List GsmTrans)
    → length us < length ts
    → length (if b then ts else s ∷ us) < length (s ∷ ts)
unlink_here b s ts us h = ground (arith, h)

unlink_idle :
    (b : Bool) (s : GsmTrans) (ts us : List GsmTrans)
    → s.freeing ≡ false
    → NoneFreeing ts
    → NoneFreeing us
    → NoneFreeing (if b then ts else s ∷ us)
unfolding NoneFreeing
unlink_idle true s ts us i h k = h
unlink_idle false s ts us i h k = (i, k)

self_eq : (t : GsmTrans) → (t.self == t.self) ≡ true
self_eq t = ground arith

find-Found :
    (p : GsmTrans → Bool) (ts : List GsmTrans) (t : GsmTrans)
    → NoneFreeing ts
    → find p ts ≡ some t
    → Found ts t
unfolding find NoneFreeing unlink
find-Found p [] t n h = absurd (ground (arith, h))
find-Found p (s ∷ ts) t n h = elim (split (p s) s (find p ts) t h) [
  | inl e ↦
      subst (λ u. Found (s ∷ ts) u) e
        (record { idle = n.0; less = rw (self_eq s) (omega arith); rest = rw (self_eq s) n.1 })
  | inr e ↦
      let f = find-Found p ts t n.1 e in
      record {
        idle = f.idle;
        less = unlink_here (s.self == t.self) s ts (unlink t.self ts) f.less;
        rest = unlink_idle (s.self == t.self) s ts (unlink t.self ts) n.0 n.1 f.rest;
      }
]
  where
    split :
        (b : Bool) (s : GsmTrans) (o : Option GsmTrans) (t : GsmTrans)
        → (if b then some s else o) ≡ some t
        → (s ≡ t) ⊎ (o ≡ some t)
    split true s o t h = inl (some-inj h)
    split false s o t h = inr h

module _ (cleanup : Cleanup) (frees : OnlyFrees cleanup) where
  -- A release makes the list shorter.
  record Released (net : GsmNetwork) (net' : GsmNetwork) : Type 0 where
    less : length net'.trans_list < length net.trans_list
    rest : NoneFreeing net'.trans_list

  trans_free-Released :
      (net : GsmNetwork) (t : GsmTrans)
      → Found net.trans_list t
      → Released net (trans_free cleanup net t)
  unfolding trans_free put_references
  trans_free-Released net t f =
      let net' = record net { trans_list = unlink t.self net.trans_list } in
      let t' = record t { freeing = true } in
      rw f.idle (record {
        less = le_lt (frees.shorter net' t') f.less;
        rest = frees.none_freeing net' t' f.rest;
      })
    where
      le_lt : {a b c : ℕ} → a ≤ b → b < c → a < c
      le_lt p q = omega arith

  -- Nothing more is released once the walk finds nothing.
  free_all-idle :
      (p : GsmTrans → Bool) (n : ℕ) (net : GsmNetwork)
      → find p net.trans_list ≡ none
      → find p (free_all cleanup p n net).trans_list ≡ none
  unfolding free_all free_found
  free_all-idle p zero net e = e
  free_all-idle p (suc n) net e =
      subst (λ o. find p (free_all cleanup p n (free_found cleanup net o)).trans_list ≡ none)
        (sym e) (free_all-idle p n net e)

  find-empty : (p : GsmTrans → Bool) (ts : List GsmTrans) → length ts ≤ 0 → find p ts ≡ none
  unfolding find
  find-empty p [] l = refl
  find-empty p (t ∷ ts) l = absurd (ground (arith, l))

  -- With as many rounds as transactions, the loop ends when it finds none.
  free_all-none :
      (p : GsmTrans → Bool) (n : ℕ) (net : GsmNetwork)
      → length net.trans_list ≤ n
      → NoneFreeing net.trans_list
      → find p (free_all cleanup p n net).trans_list ≡ none
  unfolding free_all free_found
  free_all-none p zero net l k = find-empty p net.trans_list l
  free_all-none p (suc n) net l k = elim (Option-cases (find p net.trans_list)) [
    | inl e ↦
        subst (λ o. find p (free_all cleanup p n (free_found cleanup net o)).trans_list ≡ none)
          (sym e) (free_all-idle p n net e)
    | inr (t, e) ↦
        let r = trans_free-Released net t (find-Found p net.trans_list t k e) in
        subst (λ o. find p (free_all cleanup p n (free_found cleanup net o)).trans_list ≡ none)
          (sym e) (free_all-none p n (trans_free cleanup net t) (lt_le r.less l) r.rest)
  ]
    where
      lt_le : {a b c : ℕ} → a < b → b ≤ suc c → a ≤ c
      lt_le p q = omega arith

  -- Where no transaction in the list is being released and the cleanups only release, the loop of
  -- trans_conn_closed() comes to its end: no transaction of the connection is left.
  pub trans_has_conn-trans_conn_closed :
      (net : GsmNetwork) (msc_a : ℕ)
      → NoneFreeing net.trans_list
      → trans_has_conn (trans_conn_closed cleanup net msc_a) msc_a ≡ none
  unfolding trans_has_conn trans_conn_closed
  trans_has_conn-trans_conn_closed net msc_a k =
      free_all-none (by_conn msc_a) (length net.trans_list) net (omega arith) k

  -- Where no transaction in the list is being released and the cleanups only release, the loop of
  -- trans_free_for_vsub() comes to its end: no transaction of the subscriber is left.
  pub find-trans_free_for_vsub :
      (net : GsmNetwork) (vsub : ℕ)
      → NoneFreeing net.trans_list
      → find (by_vsub vsub) (trans_free_for_vsub cleanup net vsub).trans_list ≡ none
  unfolding trans_free_for_vsub
  find-trans_free_for_vsub net vsub k =
      free_all-none (by_vsub vsub) (length net.trans_list) net (omega arith) k

-- Addresses in use are not handed out again.
unfoldable pub AllBelow : ℕ → List GsmTrans → Type 0
AllBelow n [] = Unit
AllBelow n (t ∷ ts) = (t.self < n) × AllBelow n ts

unlink-last :
    (n : ℕ) (ts : List GsmTrans) (t : GsmTrans)
    → t.self ≡ n
    → AllBelow n ts
    → unlink t.self (ts ++ (t ∷ [])) ≡ ts
unfolding unlink AllBelow
unlink-last n [] t e a = rw (self_eq t) refl
unlink-last n (s ∷ ts) t e a = rw (differs s t e a.0) (ap (λ us. s ∷ us) (unlink-last n ts t e a.1))
  where
    differs : (s t : GsmTrans) → t.self ≡ n → s.self < n → (s.self == t.self) ≡ false
    differs s t e l = ground arith

put_vsub-get :
    (vsub : Option ℕ) (type : TransType) (uses : List (ℕ × TransType))
    → put_vsub vsub type (vlr_subscr_get vsub type uses) ≡ uses
unfolding put_vsub put_use
put_vsub-get none type uses = refl
put_vsub-get (some v) type uses = rw (token v type) refl
  where
    token : (v : ℕ) (type : TransType) → ((v == v) && type_eq type type) ≡ true
    token v type = ground arith

-- A cleanup with nothing to do.
abbrev pub IsIdle : Cleanup → Type 0
IsIdle cleanup = (net : GsmNetwork) (t : GsmTrans) → cleanup net t ≡ (net, t)

-- Where the protocol has nothing to clean up, releasing a new transaction gives back all that
-- trans_alloc() took: the list, the use counts and the paging requests are as before. Only the
-- call id and the address are used up.
pub trans_free-trans_alloc :
    (cleanup : Cleanup) (net : GsmNetwork) (vsub : Option ℕ) (type : TransType) (j callref : ℕ)
    → IsIdle cleanup
    → AllBelow net.next_addr net.trans_list
    → let t = new_trans net vsub type j callref in
      let net' = with_trans net vsub type t in
      trans_free cleanup net' t
      ≡ record net { new_call_id = net'.new_call_id; next_addr = net'.next_addr }
unfolding trans_free with_trans new_trans put_references put_paging
trans_free-trans_alloc cleanup net vsub type j callref i a =
    let t = new_trans net vsub type j callref in
    rw (unlink-last net.next_addr net.trans_list t refl a, i, put_vsub-get vsub type net.uses) refl

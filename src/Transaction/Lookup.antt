-- ===== src/Transaction/Lookup.antt =====
-- libmsc/transaction.c: a transaction that gets an identifier by trans_assign_trans_id() is found by it.
use osmo_msc.Base.{
  ℕ, ◌<◌, ◌≡◌, refl, subst, Bool, true, false, ◌&&◌, ◌||◌, not, Option, none, some, List, [], ◌∷◌,
  ◌++◌, if◌then◌else◌, ◌==◌, arith,
}
use osmo_msc.Transaction.{
  GsmTrans, GsmNetwork, TransType, type_eq, proto_eq, trans_type_to_gsm48_proto, same, find, by_id,
  is_skipped, used_tid_bitmask, trans_assign_trans_id, trans_alloc, trans_find_by_id, is_null,
  needs_vsub, new_trans, with_trans,
}
use osmo_msc.Transaction.Assign.{IsNearest, trans_assign_trans_id-bits}

type_eq_proto :
    (s t : TransType)
    → type_eq s t ≡ true
    → proto_eq (trans_type_to_gsm48_proto t) (trans_type_to_gsm48_proto s) ≡ true
unfolding trans_type_to_gsm48_proto
type_eq_proto s t h = ground arith

-- Neither a skipped transaction nor one with another identifier is found.
missed :
    (vsub : Option ℕ) (type : TransType) (j : ℕ) (t : GsmTrans)
    → j < 7
    → (is_skipped vsub (trans_type_to_gsm48_proto type) t || not (t.transaction_id == j)) ≡ true
    → by_id vsub type j t ≡ false
missed vsub type j t l h = ground (arith, type_eq_proto t.type type)

unused_missed :
    (s b r : Bool) → (if s then r else b || r) ≡ false → ((s || not b) ≡ true) × (r ≡ false)
unused_missed s b r h = (ground (arith, h), ground (arith, h))

find-unused :
    (vsub : Option ℕ) (type : TransType) (j : ℕ) (ts : List GsmTrans)
    → j < 7
    → used_tid_bitmask vsub (trans_type_to_gsm48_proto type) ts j ≡ false
    → find (by_id vsub type j) ts ≡ none
unfolding find used_tid_bitmask
find-unused vsub type j [] l h = refl
find-unused vsub type j (t ∷ ts) l h =
    let (m, r) =
      unused_missed (is_skipped vsub (trans_type_to_gsm48_proto type) t) (t.transaction_id == j)
        (used_tid_bitmask vsub (trans_type_to_gsm48_proto type) ts j) h in
    rw (missed vsub type j t l m) (find-unused vsub type j ts l r)

module _ {A : Type 0} where
  past :
      (b : Bool) (s : A) {o o' r : Option A}
      → (if b then some s else o) ≡ none
      → (o ≡ none → o' ≡ r)
      → (if b then some s else o') ≡ r
  past true s h f = absurd (ground (arith, h))
  past false s h f = f h

  here_or_past :
      (b : Bool) (s : A) {o o' r : Option A}
      → (if b then some s else o) ≡ r
      → (o ≡ r → o' ≡ r)
      → (if b then some s else o') ≡ r
  here_or_past true s h f = h
  here_or_past false s h f = f h

-- The new transaction is the last of the list.
find-last :
    (p : GsmTrans → Bool) (ts : List GsmTrans) (t : GsmTrans)
    → find p ts ≡ none
    → p t ≡ true
    → find p (ts ++ (t ∷ [])) ≡ some t
unfolding find
find-last p [] t h q = rw q refl
find-last p (s ∷ ts) t h q = past (p s) s h (λ e. find-last p ts t e q)

find-earlier :
    (p : GsmTrans → Bool) (ts us : List GsmTrans) (t : GsmTrans)
    → find p ts ≡ some t
    → find p (ts ++ us) ≡ some t
unfolding find
find-earlier p [] us t h = absurd (ground (arith, h))
find-earlier p (s ∷ ts) us t h = here_or_past (p s) s h (find-earlier p ts us t)

same_refl : (v : Option ℕ) → same v v ≡ true
same_refl v = ground arith

type_eq_refl : (t : TransType) → type_eq t t ≡ true
type_eq_refl t = ground arith

found :
    (net : GsmNetwork) (vsub : Option ℕ) (type : TransType) (j callref : ℕ)
    → by_id vsub type j (new_trans net vsub type j callref) ≡ true
unfolding new_trans
found net vsub type j callref = ground (arith, same_refl vsub, type_eq_refl type)

-- The transaction `t` was allocated with identifier `j` and is the one found by it, and every one
-- that was found before by its identifier is still found.
abbrev pub IsFound : GsmNetwork → Option ℕ → TransType → ℕ → GsmNetwork → GsmTrans → Type 0
IsFound net vsub type j net' t =
    (t.transaction_id ≡ j)
    × (t.vsub ≡ vsub)
    × (t.type ≡ type)
    × (trans_find_by_id net' vsub type j ≡ some t)
    × ((v : Option ℕ) (y : TransType) (k : ℕ) (u : GsmTrans)
        → trans_find_by_id net v y k ≡ some u
        → trans_find_by_id net' v y k ≡ some u)

unused_by_choice :
    (net : GsmNetwork) (vsub : Option ℕ) (type : TransType) (j : ℕ)
    → trans_assign_trans_id net vsub type ≡ some j
    → (j < 7) × (used_tid_bitmask vsub (trans_type_to_gsm48_proto type) net.trans_list j ≡ false)
unused_by_choice net vsub type j e =
    let used = used_tid_bitmask vsub (trans_type_to_gsm48_proto type) net.trans_list in
    let (h, q, n) = trans_assign_trans_id-bits net vsub type in
    let n' = subst (IsNearest used h) e n in (n'.0, n'.1)

-- With a subscriber, or for a group call, trans_alloc() with an identifier that
-- trans_assign_trans_id() gave makes a transaction, which trans_find_by_id() then finds by the
-- identifier; what was found before by its identifier is found as before.
pub trans_find_by_id-trans_alloc :
    (net : GsmNetwork) (vsub : Option ℕ) (type : TransType) (j callref : ℕ)
    → trans_assign_trans_id net vsub type ≡ some j
    → (is_null vsub && needs_vsub type) ≡ false
    → (net' : GsmNetwork) × ((t : GsmTrans) × (trans_alloc net vsub type j callref ≡ some (net', t))
        × IsFound net vsub type j net' t)
unfolding trans_alloc trans_find_by_id new_trans with_trans
trans_find_by_id-trans_alloc net vsub type j callref e n =
    let t = new_trans net vsub type j callref in
    let (l, u) = unused_by_choice net vsub type j e in
    (
      with_trans net vsub type t,
      (
        t,
        rw n refl,
        (
          refl,
          refl,
          refl,
          find-last (by_id vsub type j) net.trans_list t
              (find-unused vsub type j net.trans_list l u) (found net vsub type j callref),
          λ v y k u h. find-earlier (by_id v y k) net.trans_list (t ∷ []) u h,
        ),
      ),
    )

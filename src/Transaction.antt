-- ===== src/Transaction.antt =====
-- libmsc/transaction.c: the transactions of the network. A pointer to a transaction, a subscriber or a
-- connection is the number of the object, a null pointer `none`. The list `trans_list` is kept in its
-- order. The subscribers' use counts are kept as one list of tokens. What the release of a transaction
-- does in call control, short messages, supplementary services, group calls and silent calls is the
-- argument `cleanup`. Allocation succeeds; use counts of connections and logging are left out.
pub mod Free
pub mod Assign
pub mod Lookup
pub mod Release
pub mod Tests
use osmo_msc.Base.{
  ℕ, zero, suc, ◌+◌, ◌%◌, Bool, true, false, ◌&&◌, ◌||◌, not, Option, none, some, List, [], ◌∷◌,
  ◌++◌, if◌then◌else◌, ◌==◌, length,
}

-- enum trans_type
pub data TransType : Type 0 where
  gcc bcc cc sms ussd silent_call : TransType

abbrev pub type_code : TransType → ℕ
type_code gcc = 0
type_code bcc = 1
type_code cc = 2
type_code sms = 3
type_code ussd = 4
type_code silent_call = 5

abbrev pub type_eq : TransType → TransType → Bool
type_eq s t = type_code s == type_code t

-- The protocol discriminators of libosmogsm that the code names.
pub data Proto : Type 0 where
  pdisc_group_cc pdisc_bcast_cc pdisc_cc pdisc_sms pdisc_nc_ss : Proto

abbrev pub proto_code : Proto → ℕ
proto_code pdisc_group_cc = 0
proto_code pdisc_bcast_cc = 1
proto_code pdisc_cc = 2
proto_code pdisc_sms = 3
proto_code pdisc_nc_ss = 4

abbrev pub proto_eq : Proto → Proto → Bool
proto_eq p q = proto_code p == proto_code q

unfoldable pub trans_type_to_gsm48_proto : TransType → Proto
trans_type_to_gsm48_proto gcc = pdisc_group_cc
trans_type_to_gsm48_proto bcc = pdisc_bcast_cc
trans_type_to_gsm48_proto cc = pdisc_cc
trans_type_to_gsm48_proto silent_call = pdisc_cc
trans_type_to_gsm48_proto sms = pdisc_sms
trans_type_to_gsm48_proto ussd = pdisc_nc_ss

abbrev pub trans_id_unassigned : ℕ
trans_id_unassigned = 255

-- The comparison of two pointers.
abbrev pub same : Option ℕ → Option ℕ → Bool
same none none = true
same (some a) (some b) = a == b
same _ _ = false

-- struct gsm_trans; `self` is its address.
pub record GsmTrans : Type 0 where
  pub self : ℕ
  pub type : TransType
  pub transaction_id : ℕ
  pub vsub : Option ℕ
  pub msc_a : Option ℕ
  pub callref : ℕ
  pub call_id : ℕ
  pub paging_request : Option ℕ
  pub sm_rp_mr : ℕ
  pub freeing : Bool

-- The part of struct gsm_network: the list, the next call id, the tokens that subscribers are in use
-- by, the pending paging requests, and the next free address.
pub record GsmNetwork : Type 0 where
  pub trans_list : List GsmTrans
  pub new_call_id : ℕ
  pub uses : List (ℕ × TransType)
  pub paging : List ℕ
  pub next_addr : ℕ

-- The walk over the list that ends with the first match.
unfoldable pub find : (GsmTrans → Bool) → List GsmTrans → Option GsmTrans
find p [] = none
find p (t ∷ ts) = if p t then some t else find p ts

abbrev pub by_type : Option ℕ → TransType → GsmTrans → Bool
by_type vsub type t = same t.vsub vsub && type_eq t.type type

abbrev pub by_id : Option ℕ → TransType → ℕ → GsmTrans → Bool
by_id vsub type trans_id t =
    same t.vsub vsub && (type_eq t.type type && (t.transaction_id == trans_id))

abbrev pub by_callref : TransType → ℕ → GsmTrans → Bool
by_callref type callref t = (t.callref == callref) && type_eq t.type type

abbrev pub by_sm_rp_mr : Option ℕ → ℕ → GsmTrans → Bool
by_sm_rp_mr vsub sm_rp_mr t = same t.vsub vsub && (type_eq t.type sms && (t.sm_rp_mr == sm_rp_mr))

abbrev pub by_conn : ℕ → GsmTrans → Bool
by_conn msc_a t = same t.msc_a (some msc_a)

abbrev pub by_vsub : ℕ → GsmTrans → Bool
by_vsub vsub t = same t.vsub (some vsub)

-- The lookups; `vsub` is the subscriber of the connection.
unfoldable pub trans_find_by_type : GsmNetwork → (vsub : Option ℕ) → TransType → Option GsmTrans
trans_find_by_type net vsub type = find (by_type vsub type) net.trans_list

unfoldable pub trans_find_by_id :
    GsmNetwork → (vsub : Option ℕ) → TransType → (trans_id : ℕ) → Option GsmTrans
trans_find_by_id net vsub type trans_id = find (by_id vsub type trans_id) net.trans_list

unfoldable pub trans_find_by_callref : GsmNetwork → TransType → (callref : ℕ) → Option GsmTrans
trans_find_by_callref net type callref = find (by_callref type callref) net.trans_list

unfoldable pub trans_find_by_sm_rp_mr :
    GsmNetwork → (vsub : Option ℕ) → (sm_rp_mr : ℕ) → Option GsmTrans
trans_find_by_sm_rp_mr net vsub sm_rp_mr = find (by_sm_rp_mr vsub sm_rp_mr) net.trans_list

unfoldable pub trans_has_conn : GsmNetwork → (msc_a : ℕ) → Option GsmTrans
trans_has_conn net msc_a = find (by_conn msc_a) net.trans_list

-- A valid subscriber is indispensable, except for group calls.
abbrev pub needs_vsub : TransType → Bool
needs_vsub gcc = false
needs_vsub bcc = false
needs_vsub _ = true

abbrev pub is_null : Option ℕ → Bool
is_null none = true
is_null (some _) = false

-- vlr_subscr_get()
abbrev pub vlr_subscr_get : Option ℕ → TransType → List (ℕ × TransType) → List (ℕ × TransType)
vlr_subscr_get none type uses = uses
vlr_subscr_get (some vsub) type uses = (vsub, type) ∷ uses

unfoldable pub new_trans : GsmNetwork → Option ℕ → TransType → ℕ → ℕ → GsmTrans
new_trans net vsub type trans_id callref = record {
  self = net.next_addr;
  type = type;
  transaction_id = trans_id;
  vsub = vsub;
  msc_a = none;
  callref = callref;
  call_id = net.new_call_id;
  paging_request = none;
  sm_rp_mr = 0;
  freeing = false;
}

-- The counter of call ids is a uint32_t.
unfoldable pub with_trans : GsmNetwork → Option ℕ → TransType → GsmTrans → GsmNetwork
with_trans net vsub type t = record {
  trans_list = net.trans_list ++ (t ∷ []);
  new_call_id = (net.new_call_id + 1) % 4294967296;
  uses = vlr_subscr_get vsub type net.uses;
  paging = net.paging;
  next_addr = suc net.next_addr;
}

unfoldable pub trans_alloc :
    GsmNetwork
    → (vsub : Option ℕ) → TransType
    → (trans_id callref : ℕ) → Option (GsmNetwork × GsmTrans)
trans_alloc net vsub type trans_id callref =
    let t = new_trans net vsub type trans_id callref in
    if is_null vsub && needs_vsub type then none else some (with_trans net vsub type t, t)

-- A transaction that does not count for the identifiers of a subscriber and protocol.
abbrev pub is_skipped : Option ℕ → Proto → GsmTrans → Bool
is_skipped vsub proto t =
    not (same t.vsub vsub)
    || (not (proto_eq proto (trans_type_to_gsm48_proto t.type))
        || (t.transaction_id == trans_id_unassigned))

-- The bits of `used_tid_bitmask`; a transaction identifier has four bits, so no shift is too far.
unfoldable pub used_tid_bitmask : Option ℕ → Proto → List GsmTrans → ℕ → Bool
used_tid_bitmask vsub proto [] j = false
used_tid_bitmask vsub proto (t ∷ ts) j =
    let rest = used_tid_bitmask vsub proto ts j in
    if is_skipped vsub proto t then rest else (t.transaction_id == j) || rest

-- The first loop, downwards to 1: the highest bit set, or 0.
unfoldable pub highest : (ℕ → Bool) → ℕ → ℕ
highest used zero = 0
highest used (suc h) = let rest = highest used h in if used (suc h) then suc h else rest

-- The second loop, with `n` rounds left: the first identifier from `h` on that is not used.
unfoldable pub circular : (ℕ → Bool) → (h n i : ℕ) → Option ℕ
circular used h zero i = none
circular used h (suc n) i =
    let rest = circular used h n (i + 1) in if used ((h + i) % 7) then rest else some ((h + i) % 7)

-- -1 is `none`.
unfoldable pub trans_assign_trans_id : GsmNetwork → (vsub : Option ℕ) → TransType → Option ℕ
trans_assign_trans_id net vsub type =
    let used = used_tid_bitmask vsub (trans_type_to_gsm48_proto type) net.trans_list in
    circular used (highest used 6) 7 0

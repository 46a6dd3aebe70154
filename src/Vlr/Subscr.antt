-- ===== src/Vlr/Subscr.antt =====
-- include/osmocom/vlr/vlr.h, libvlr/vlr.c and the tuple selection of libvlr/vlr_auth_fsm.c.
-- The array `auth_tuples[5]` is a function of the index, read and written below 5 only; a pointer
-- into it is an index. `use_count` and `key_seq` are C ints that stay non-negative here.
pub mod Select
mod Tests
use osmo_msc.Base.{
  ℕ, zero, suc, ◌+◌, ◌-◌, ◌%◌, ◌≡◌, ◌≢◌, ◌≤◌, ◌<◌, Bool, true, false, ◌&&◌, ◌||◌, not, Option, none,
  some, List, [], ◌∷◌, ℤ, pos, negsuc, ltb, leb, ◌==◌, if◌then◌else◌, length, get_elem?, bytes_eq,
}

-- struct osmo_auth_vector, the fields that this code reads. `umts` is the bit OSMO_AUTH_TYPE_UMTS
-- of `auth_types`; `res` is the RES array, of which `res_len` bytes count.
pub record AuthVector : Type 0 where
  pub rand : List ℕ
  pub umts : Bool
  pub res : List ℕ
  pub res_len : ℕ
  pub sres : List ℕ

pub record AuthTuple : Type 0 where
  pub use_count : ℕ
  pub key_seq : ℕ
  pub vec : AuthVector

pub data SecCtx : Type 0 where
  sec_none sec_gsm sec_umts : SecCtx

pub record Subscr : Type 0 where
  pub imsi : List ℕ
  pub auth_tuples : ℕ → AuthTuple
  pub last_tuple : Option ℕ
  pub sec_ctx : SecCtx

abbrev pub key_seq_inval : ℕ
key_seq_inval = 7

-- ARRAY_SIZE(vsub->auth_tuples)
abbrev pub num_tuples : ℕ
num_tuples = 5

abbrev pub set_tuple : (ℕ → AuthTuple) → ℕ → AuthTuple → ℕ → AuthTuple
set_tuple ts i t j = if j == i then t else ts j

abbrev pub is_usable : (ℕ → AuthTuple) → ℕ → Bool
is_usable ts i = not ((ts i).key_seq == key_seq_inval)

-- One round of the loop: keep the candidate unless this tuple is usable and less used.
pick : (ts : ℕ → AuthTuple) → ℕ → Option ℕ → Option ℕ
pick ts i none = if (ts i).key_seq == key_seq_inval then none else some i
pick ts i (some j) =
    if (ts i).key_seq == key_seq_inval
    then some j
    else if ltb (ts i).use_count (ts j).use_count
    then some i
    else some j

unfoldable pub scan : (ts : ℕ → AuthTuple) (count idx : ℕ) → Option ℕ → Option ℕ
unfolding pick
scan ts zero idx at = at
scan ts (suc count) idx at =
    scan ts count ((idx + 1) % num_tuples) (pick ts ((idx + 1) % num_tuples) at)

-- Where the scan starts: behind the last used tuple, or at 0.
unfoldable pub start_idx : Subscr → ℕ
start_idx v = elim v.last_tuple [
  | none ↦ num_tuples - 1
  | some i ↦
      if (v.auth_tuples i).key_seq == key_seq_inval
      then num_tuples - 1
      else (v.auth_tuples i).key_seq
]

-- `max_reuse_count >= 0 && at->use_count > max_reuse_count`
abbrev pub over_used : ℤ → ℕ → Bool
over_used (pos m) used = ltb m used
over_used (negsuc m) used = false

unfoldable pub allow : (ts : ℕ → AuthTuple) → ℤ → Option ℕ → Option ℕ
allow ts max none = none
allow ts max (some i) = if over_used max (ts i).use_count then none else some i

unfoldable pub next_auth_tuple : Subscr → ℤ → Option ℕ
unfolding allow
next_auth_tuple v max = allow v.auth_tuples max (scan v.auth_tuples num_tuples (start_idx v) none)

unfoldable pub use_tuple : Subscr → ℕ → Subscr
use_tuple v i =
    let at = v.auth_tuples i in
    record v {
      auth_tuples = set_tuple v.auth_tuples i (record at { use_count = at.use_count + 1 });
    }

-- Return a tuple and increment its use count.
unfoldable pub get_auth_tuple : Subscr → ℤ → Option (ℕ × Subscr)
unfolding use_tuple
get_auth_tuple v max = elim (next_auth_tuple v max) [
  | none ↦ none
  | some i ↦ some (i, use_tuple v i)
]

unfoldable pub has_auth_tuple : Subscr → ℤ → Bool
has_auth_tuple v max = elim (next_auth_tuple v max) [ none ↦ false | some i ↦ true ]

-- All fields zeroed by memset().
abbrev pub zero_vector : AuthVector
zero_vector = record { rand = []; umts = false; res = []; res_len = 0; sres = [] }

abbrev pub no_tuple : AuthTuple
no_tuple = record { use_count = 0; key_seq = key_seq_inval; vec = zero_vector }

-- The loop over the received vectors, from index `i` on: those past the array are skipped.
unfoldable pub store_vectors : (ℕ → AuthTuple) → ℕ → List AuthVector → ℕ → AuthTuple
store_vectors ts i [] = ts
store_vectors ts i (vec ∷ vecs) =
    store_vectors
      (if leb num_tuples i
        then ts
        else set_tuple ts i (record { use_count = (ts i).use_count; key_seq = i; vec = vec }))
      (i + 1) vecs

unfoldable pub update_tuples : Subscr → List AuthVector → Subscr
unfolding store_vectors
update_tuples v [] = record v { last_tuple = none }
update_tuples v (vec ∷ vecs) = record v {
  auth_tuples = store_vectors (λ _. no_tuple) 0 (vec ∷ vecs);
  last_tuple = none;
}

unfoldable pub use_umts_aka : AuthVector → Bool → Bool
use_umts_aka vec is_r99 = if not is_r99 then false else if not vec.umts then false else true

-- An IMSI that is set and equal to the given one.
unfoldable pub matches_imsi : Subscr → List ℕ → Bool
matches_imsi v imsi = not (length v.imsi == 0) && bytes_eq v.imsi imsi

-- Take the last tuple once more, if its use count and its key sequence permit.
unfoldable pub try_reuse_tuple : Subscr → ℤ → ℕ → Bool × Subscr
unfolding use_tuple
try_reuse_tuple v max key_seq = elim v.last_tuple [
  | none ↦ (false, v)
  | some i ↦
      if over_used max (v.auth_tuples i).use_count
      then (false, v)
      else if not ((v.auth_tuples i).key_seq == key_seq)
      then (false, v)
      else (true, use_tuple v i)
]

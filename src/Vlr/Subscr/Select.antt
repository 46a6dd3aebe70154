-- ===== src/Vlr/Subscr/Select.antt =====
-- libvlr/vlr_auth_fsm.c: what the selection of an authentication tuple promises.
use osmo_msc.Base.{
  ◌-◌, ℕ, zero, suc, ◌+◌, ◌%◌, ◌≡◌, ◌≢◌, ◌≤◌, ◌<◌, subst, inl, inr, true, false, Option, none, some,
  ℤ, pos, negsuc, arith, Option-cases,
}
use osmo_msc.Vlr.Subscr.{
  Subscr, AuthTuple, num_tuples, key_seq_inval, pick, scan, allow, start_idx, next_auth_tuple,
  over_used, has_auth_tuple, get_auth_tuple, use_tuple,
}

-- Slot `i` of the array holds a tuple.
abbrev pub Usable : (ℕ → AuthTuple) → ℕ → Type 0
Usable ts i = (ts i).key_seq ≢ key_seq_inval

-- The candidate is there, and used no more often than `used`.
abbrev AtMost : (ℕ → AuthTuple) → ℕ → Option ℕ → Type 0
AtMost ts used none = ⊥
AtMost ts used (some j) = (ts j).use_count ≤ used

-- The candidate, if there is one, is a slot that holds a tuple.
abbrev IsSlot : (ℕ → AuthTuple) → Option ℕ → Type 0
IsSlot ts none = Unit
IsSlot ts (some j) = (j < num_tuples) × Usable ts j

module _ (ts : ℕ → AuthTuple) where
  pick-AtMost_old : (i used : ℕ) (at : Option ℕ) → AtMost ts used at → AtMost ts used (pick ts i at)
  unfolding pick
  pick-AtMost_old i used none h = absurd h
  pick-AtMost_old i used (some j) h = ground arith

  pick-AtMost_new :
      (i : ℕ) (at : Option ℕ) → Usable ts i → AtMost ts (ts i).use_count (pick ts i at)
  unfolding pick
  pick-AtMost_new i none h = ground arith
  pick-AtMost_new i (some j) h = ground arith

  pick-IsSlot : (i : ℕ) (at : Option ℕ) → i < num_tuples → IsSlot ts at → IsSlot ts (pick ts i at)
  unfolding pick
  pick-IsSlot i none l h = ground arith
  pick-IsSlot i (some j) l h = ground arith

  scan-AtMost_old :
      (count idx used : ℕ) (at : Option ℕ)
      → AtMost ts used at
      → AtMost ts used (scan ts count idx at)
  unfolding scan
  scan-AtMost_old zero idx used at h = h
  scan-AtMost_old (suc count) idx used at h =
      scan-AtMost_old count _ used (pick ts ((idx + 1) % num_tuples) at)
        (pick-AtMost_old _ used at h)

  scan-IsSlot : (count idx : ℕ) (at : Option ℕ) → IsSlot ts at → IsSlot ts (scan ts count idx at)
  unfolding scan
  scan-IsSlot zero idx at h = h
  scan-IsSlot (suc count) idx at h =
      scan-IsSlot count _ (pick ts ((idx + 1) % num_tuples) at) (pick-IsSlot _ at (omega arith) h)

  -- A slot that the scan visits in round `k` bounds the use count of the result.
  scan-AtMost_visited :
      (count idx k i : ℕ) (at : Option ℕ)
      → k < count
      → i ≡ (idx + 1 + k) % num_tuples
      → Usable ts i
      → AtMost ts (ts i).use_count (scan ts count idx at)
  unfolding scan
  scan-AtMost_visited zero idx k i at l e u = elim l [ ]
  scan-AtMost_visited (suc count) idx zero i at l e u =
      let here : i ≡ (idx + 1) % num_tuples = omega arith in
      scan-AtMost_old count _ _ (pick ts ((idx + 1) % num_tuples) at)
        (subst (λ n. AtMost ts (ts i).use_count (pick ts n at)) here (pick-AtMost_new i at u))
  scan-AtMost_visited (suc count) idx (suc k) i at l e u =
      scan-AtMost_visited count ((idx + 1) % num_tuples) k i (pick ts ((idx + 1) % num_tuples) at)
        (omega arith) (omega arith) u

  -- Five rounds from any start visit every slot.
  scan-AtMost :
      (idx i : ℕ)
      → i < num_tuples
      → Usable ts i
      → AtMost ts (ts i).use_count (scan ts num_tuples idx none)
  scan-AtMost idx i l u =
      scan-AtMost_visited num_tuples idx ((i + 9 - idx % num_tuples) % num_tuples) i none
        (omega arith) (omega arith) u

  -- The use counts of the slots that hold a tuple are at least that of the chosen one, or there is
  -- none to choose from.
  scan_cases :
      (at : Option ℕ)
      → IsSlot ts at
      → ((i : ℕ) → i < num_tuples → Usable ts i → AtMost ts (ts i).use_count at)
      → (max : ℤ)
      → ((i : ℕ)
          → allow ts max at ≡ some i
          → (i < num_tuples)
            × Usable ts i
            × (over_used max (ts i).use_count ≡ false)
            × ((k : ℕ) → k < num_tuples → Usable ts k → (ts i).use_count ≤ (ts k).use_count))
        × (allow ts max at ≡ none
            → (k : ℕ) → k < num_tuples
            → Usable ts k
            → over_used max (ts k).use_count ≡ true)
  unfolding allow
  scan_cases none s m max = ((λ i e. cc), λ e k l u. absurd (m k l u))
  scan_cases (some j) s m (pos c) = ((λ i e. ground (arith, s)), λ e k l u. ground (arith, m k l u))
  scan_cases (some j) s m (negsuc c) = ((λ i e. ground (arith, s)), λ e k l u. cc)

-- A chosen tuple is within the array and valid, its use count is within the limit, and no other
-- valid tuple was used less often. No tuple is chosen only if every valid one is over the limit.
pub next_auth_tuple_least :
    (v : Subscr) (max : ℤ)
    → ((i : ℕ)
        → next_auth_tuple v max ≡ some i
        → (i < num_tuples)
          × Usable v.auth_tuples i
          × (over_used max (v.auth_tuples i).use_count ≡ false)
          × ((k : ℕ)
              → k < num_tuples
              → Usable v.auth_tuples k
              → (v.auth_tuples i).use_count ≤ (v.auth_tuples k).use_count))
      × (next_auth_tuple v max ≡ none
          → (k : ℕ) → k < num_tuples
          → Usable v.auth_tuples k
          → over_used max (v.auth_tuples k).use_count ≡ true)
unfolding next_auth_tuple
next_auth_tuple_least v max =
    scan_cases v.auth_tuples (scan v.auth_tuples num_tuples (start_idx v) none)
      (scan-IsSlot v.auth_tuples num_tuples (start_idx v) none tt)
      (scan-AtMost v.auth_tuples (start_idx v)) max

-- A valid tuple within the limit is enough for a choice.
pub next_auth_tuple-some :
    (v : Subscr) (max : ℤ) (k : ℕ)
    → k < num_tuples
    → Usable v.auth_tuples k
    → over_used max (v.auth_tuples k).use_count ≡ false
    → (i : ℕ) × (next_auth_tuple v max ≡ some i)
next_auth_tuple-some v max k l u o = elim (Option-cases (next_auth_tuple v max)) [
  | inl e ↦ let over = (next_auth_tuple_least v max).1 e k l u in cc
  | inr (i, e) ↦ (i, e)
]

-- `has_auth_tuple` foretells what `get_auth_tuple` does.
pub has-get_auth_tuple :
    (v : Subscr) (max : ℤ)
    → has_auth_tuple v max ≡ true
    → (i : ℕ) × (next_auth_tuple v max ≡ some i) × (get_auth_tuple v max ≡ some (i, use_tuple v i))
unfolding has_auth_tuple get_auth_tuple
has-get_auth_tuple v max h = ground arith

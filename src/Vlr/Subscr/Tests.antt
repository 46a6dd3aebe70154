-- ===== src/Vlr/Subscr/Tests.antt =====
-- The subscriber's tuples at concrete inputs.
use osmo_msc.Base.{
  ℕ, ◌≡◌, ◌<◌, ◌≤◌, refl, true, false, some, none, [], ◌∷◌, pos, ◌==◌, if◌then◌else◌,
}
use osmo_msc.Vlr.Subscr.{
  Subscr, AuthVector, AuthTuple, sec_none, next_auth_tuple, scan, start_idx, over_used, num_tuples,
  no_tuple,
}
use osmo_msc.Vlr.Subscr.Select.{Usable, next_auth_tuple_least}

abbrev vector : AuthVector
vector = record {
  rand = 9 ∷ [];
  umts = true;
  res = 1 ∷ 2 ∷ [];
  res_len = 2;
  sres = 5 ∷ 6 ∷ 7 ∷ 8 ∷ [];
}

-- Three tuples, used once, not at all and not at all; the first was the last one used.
abbrev tuples : ℕ → AuthTuple
tuples i =
    if i == 0
    then record { use_count = 1; key_seq = 0; vec = vector }
    else if i == 1
    then record { use_count = 0; key_seq = 1; vec = vector }
    else if i == 2
    then record { use_count = 0; key_seq = 2; vec = vector }
    else no_tuple

abbrev subscr : Subscr
subscr = record { imsi = 1 ∷ []; auth_tuples = tuples; last_tuple = some 0; sec_ctx = sec_none }

chosen : next_auth_tuple subscr (pos 0) ≡ some 1
unfolding next_auth_tuple scan start_idx
chosen = refl

next_auth_tuple_least_example :
    ((i : ℕ)
      → next_auth_tuple subscr (pos 0) ≡ some i
      → (i < num_tuples)
        × Usable tuples i
        × (over_used (pos 0) (tuples i).use_count ≡ false)
        × ((k : ℕ)
            → k < num_tuples
            → Usable tuples k
            → (tuples i).use_count ≤ (tuples k).use_count))
    × (next_auth_tuple subscr (pos 0) ≡ none
        → (k : ℕ) → k < num_tuples
        → Usable tuples k
        → over_used (pos 0) (tuples k).use_count ≡ true)
next_auth_tuple_least_example = next_auth_tuple_least subscr (pos 0)

-- ===== src/Csd/BearerCap/RoundTrip.antt =====
-- libmsc/csd_bs.c: what is written to the bearer capabilities is read back.
use osmo_msc.Base.{
  ℕ, zero, suc, ◌≡◌, ◌≢◌, Bool, true, false, Option, none, some, ◌==◌, if◌then◌else◌, arith, refl,
  Bool-cases, inl, inr, ap, ◌∙◌, sym, subst,
}
use osmo_msc.Csd.BearerService.{CsdBs, csd_bs_valid}
use osmo_msc.Csd.BsList.{CsdBsList, empty_list, csd_bs_list_n, csd_bs_list_add_bs}
use osmo_msc.Csd.BearerCap.{
  BearerCap, write_bs, write_first, csd_bs_list_to_bearer_cap, csd_bs_list_from_bearer_cap,
}

-- The first valid service among the `k` entries from `i` on.
abbrev pub first_valid : (k i : ℕ) → (ℕ → CsdBs) → Option CsdBs
first_valid zero i a = none
first_valid (suc k) i a = if csd_bs_valid (a i) then some (a i) else first_valid k (suc i) a

abbrev pub single : CsdBs → CsdBsList
unfolding csd_bs_list_add_bs
single b = csd_bs_list_add_bs empty_list b

nonzero : (n : ℕ) → n ≢ 0 → (n == 0) ≡ false
nonzero n h = ground arith

module _ (ir_8k ir_16k : ℕ) (is_8k : ir_8k ≢ 0) (is_16k : ir_16k ≢ 0) where
  -- A valid service is written as a whole.
  write_bs-valid :
      (cap : BearerCap) (b : CsdBs)
      → csd_bs_valid b ≡ true
      → ((write_bs ir_8k ir_16k cap b).1 ≡ true)
        × (csd_bs_list_from_bearer_cap (write_bs ir_8k ir_16k cap b).0 ≡ single b)
  unfolding write_bs csd_bs_list_from_bearer_cap
  write_bs-valid cap b v = ground (arith, nonzero ir_8k is_8k, nonzero ir_16k is_16k)

  write_bs-invalid :
      (cap : BearerCap) (b : CsdBs)
      → csd_bs_valid b ≡ false
      → write_bs ir_8k ir_16k cap b ≡ (cap, false)
  unfolding write_bs
  write_bs-invalid cap b v = rw v refl

  last_round :
      (k i : ℕ) (a : ℕ → CsdBs) (cap : BearerCap)
      → (write_bs ir_8k ir_16k cap (a i)).1 ≡ true
      → write_first ir_8k ir_16k (suc k) i a cap ≡ ((write_bs ir_8k ir_16k cap (a i)).0, true)
  unfolding write_first
  last_round k i a cap h = rw (h, write_first) refl

  next_round :
      (k i : ℕ) (a : ℕ → CsdBs) (cap : BearerCap)
      → write_bs ir_8k ir_16k cap (a i) ≡ (cap, false)
      → write_first ir_8k ir_16k (suc k) i a cap ≡ write_first ir_8k ir_16k k (suc i) a cap
  unfolding write_first
  next_round k i a cap h =
      rw (ap (λ r. r.1) h, write_first) (ap (λ r. write_first ir_8k ir_16k k (suc i) a r.0) h)

  -- The result of the loop stands for `b`.
  abbrev Reads : CsdBs → BearerCap × Bool → Type 0
  Reads b r = (r.1 ≡ true) × (csd_bs_list_from_bearer_cap r.0 ≡ single b)

  write_first-valid :
      (k i : ℕ) (a : ℕ → CsdBs) (cap : BearerCap) (b : CsdBs)
      → first_valid k i a ≡ some b
      → Reads b (write_first ir_8k ir_16k k i a cap)
  write_first-valid zero i a cap b h = absurd (ground arith)
  write_first-valid (suc k) i a cap b h = elim (Bool-cases (csd_bs_valid (a i))) [
    | inl v ↦
        let w = write_bs-valid cap (a i) v in
        let e : a i ≡ b = ground (arith, v) in
        subst (Reads b) (sym (last_round k i a cap w.0)) (refl, w.1 ∙ ap single e)
    | inr v ↦
        subst (Reads b) (sym (next_round k i a cap (write_bs-invalid cap (a i) v)))
          (write_first-valid k (suc i) a cap b (ground (arith, v)))
  ]

-- Writing a list to the bearer capabilities and reading them back gives the first valid service of
-- the list alone, if there is one: the two intermediate rates are not 0.
pub csd_bs_list_from_bearer_cap-to_bearer_cap :
    (ir_8k ir_16k : ℕ) (cap : BearerCap) (list : CsdBsList) (b : CsdBs)
    → ir_8k ≢ 0
    → ir_16k ≢ 0
    → first_valid (csd_bs_list_n list) 0 list.bs ≡ some b
    → ((csd_bs_list_to_bearer_cap ir_8k ir_16k cap list).1 ≡ true)
      × (csd_bs_list_from_bearer_cap (csd_bs_list_to_bearer_cap ir_8k ir_16k cap list).0 ≡ single b)
unfolding csd_bs_list_to_bearer_cap
csd_bs_list_from_bearer_cap-to_bearer_cap ir_8k ir_16k cap list b h8 h16 h =
    write_first-valid ir_8k ir_16k h8 h16 (csd_bs_list_n list) 0 list.bs cap b h

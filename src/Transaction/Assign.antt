-- ===== src/Transaction/Assign.antt =====
-- libmsc/transaction.c: which identifier trans_assign_trans_id() chooses.
use osmo_msc.Base.{
  ℕ, zero, suc, ◌+◌, ◌-◌, ◌%◌, ◌≤◌, ◌<◌, ◌≡◌, refl, sym, ap, ◌∙◌, subst, Bool, true, false, Option,
  none, some, List, [], ◌∷◌, if_elim, arith, ◌⊎◌, inl, inr, ◌||◌, ◌==◌, not, if◌then◌else◌,
}
use osmo_msc.Transaction.{
  GsmTrans, Proto, proto_eq, same, trans_id_unassigned, GsmNetwork, TransType,
  trans_type_to_gsm48_proto, used_tid_bitmask, highest, circular, trans_assign_trans_id,
}

-- How many steps upwards, modulo 7, `j` is from `h`.
abbrev pub distance : (h j : ℕ) → ℕ
distance h j = (j + 7 - h) % 7

module _ (used : ℕ → Bool) where
  -- What `n` rounds from round `i` on tell.
  abbrev Tried : (h i n : ℕ) → Option ℕ → Type 0
  Tried h i n none = (k : ℕ) → i ≤ k → k < i + n → used ((h + k) % 7) ≡ true
  Tried h i n (some j) =
      (k : ℕ) × (i ≤ k)
      × (k < i + n)
      × (j ≡ (h + k) % 7)
      × (used j ≡ false)
      × ((m : ℕ) → i ≤ m → m < k → used ((h + m) % 7) ≡ true)

  at_or_after :
      (h i k : ℕ)
      → used ((h + i) % 7) ≡ true
      → (i + 1 ≤ k → used ((h + k) % 7) ≡ true)
      → i ≤ k
      → used ((h + k) % 7) ≡ true
  at_or_after h i k u f p = elim (split i k p) [
    | inl e ↦ subst (λ m. used ((h + m) % 7) ≡ true) e u
    | inr l ↦ f l
  ]
    where
      split : (i k : ℕ) → i ≤ k → (i ≡ k) ⊎ (i + 1 ≤ k)
      split i k p = omega arith

  one_more :
      (h i n : ℕ) (o : Option ℕ)
      → used ((h + i) % 7) ≡ true
      → Tried h (i + 1) n o
      → Tried h i (suc n) o
  one_more h i n none u f = λ k p q. at_or_after h i k u (λ l. f k l (omega arith)) p
  one_more h i n (some j) u (k, p, q, e, v, f) =
      (k, omega arith, omega arith, e, v, λ m a b. at_or_after h i m u (λ l. f m l b) a)

  circular-Tried : (h n i : ℕ) → Tried h i n (circular used h n i)
  unfolding circular
  circular-Tried h zero i = λ k p q. absurd (ground arith)
  circular-Tried h (suc n) i =
      if_elim (Tried h i (suc n)) (used ((h + i) % 7))
        (λ u. one_more h i n (circular used h n (i + 1)) u (circular-Tried h n (i + 1)))
        (λ u. (i, omega arith, omega arith, refl, u, λ m a b. absurd (ground arith)))

  -- `h` is the highest identifier up to `n` in use, or 0.
  abbrev pub IsHighest : (n h : ℕ) → Type 0
  IsHighest n h = (h ≤ n) × ((h ≡ 0) ⊎ (used h ≡ true)) × ((m : ℕ) → h < m → m ≤ n → used m ≡ false)

  highest-IsHighest : (n : ℕ) → IsHighest n (highest used n)
  unfolding highest
  highest-IsHighest zero = (omega arith, inl refl, λ m a b. absurd (ground arith))
  highest-IsHighest (suc n) =
      if_elim (IsHighest (suc n)) (used (suc n))
        (λ u. (omega arith, inr u, λ m a b. absurd (ground arith)))
        (λ u. let (l, z, f) = highest-IsHighest n in (omega arith, z, λ m a b. above u f m a b))
    where
      above :
          {n h : ℕ}
          → used (suc n) ≡ false
          → ((m : ℕ) → h < m → m ≤ n → used m ≡ false)
          → (m : ℕ) → h < m
          → m ≤ suc n
          → used m ≡ false
      above {n} {h} u f m a b = elim (last m n b) [
        | inl e ↦ subst (λ k. used k ≡ false) (sym e) u
        | inr l ↦ f m a l
      ]
        where
          last : (m n : ℕ) → m ≤ suc n → (m ≡ suc n) ⊎ (m ≤ n)
          last m n b = omega arith

  -- For the bits: the unused identifier below 7 that is nearest above the highest one in use, modulo
  -- 7; none if all are in use.
  abbrev pub IsNearest : (h : ℕ) → Option ℕ → Type 0
  IsNearest h none = (j : ℕ) → j < 7 → used j ≡ true
  IsNearest h (some j) =
      (j < 7) × (used j ≡ false) × ((m : ℕ) → m < 7 → distance h m < distance h j → used m ≡ true)

  reached : (h j : ℕ) → h ≤ 6 → j < 7 → (h + distance h j) % 7 ≡ j
  reached h j p q = omega arith

  back : (h k : ℕ) → h ≤ 6 → k < 7 → distance h ((h + k) % 7) ≡ k
  back h k p q = omega arith

  small : (h j : ℕ) → distance h j < 7
  small h j = omega arith

  nearest : (h : ℕ) (o : Option ℕ) → h ≤ 6 → Tried h 0 7 o → IsNearest h o
  nearest h none p f = λ j q.
      subst (λ m. used m ≡ true) (reached h j p q) (f (distance h j) (omega arith) (small h j))
  nearest h (some j) p (k, a, b, e, v, f) = (
    omega arith,
    v,
    λ m q d.
        subst (λ m. used m ≡ true) (reached h m p q) (f (distance h m) (omega arith) (nearer m d)),
  )
    where
      nearer : (m : ℕ) → distance h m < distance h j → distance h m < k
      nearer m d = subst (λ x. distance h m < x) (ap (distance h) e ∙ back h k p b) d

-- What trans_assign_trans_id() gives, by the bits.
pub trans_assign_trans_id-bits :
    (net : GsmNetwork) (vsub : Option ℕ) (type : TransType)
    → let used = used_tid_bitmask vsub (trans_type_to_gsm48_proto type) net.trans_list in
      (h : ℕ) × IsHighest used 6 h × IsNearest used h (trans_assign_trans_id net vsub type)
unfolding trans_assign_trans_id
trans_assign_trans_id-bits net vsub type =
    let used = used_tid_bitmask vsub (trans_type_to_gsm48_proto type) net.trans_list in
    let h = highest-IsHighest used 6 in
    (
      highest used 6,
      h,
      nearest used (highest used 6) (circular used (highest used 6) 7 0) h.0
          (circular-Tried used (highest used 6) 7 0),
    )

-- A transaction of the subscriber and the protocol has the identifier.
abbrev Uses : Option ℕ → Proto → ℕ → GsmTrans → Type 0
Uses vsub proto j t =
    (t.vsub ≡ vsub) × (trans_type_to_gsm48_proto t.type ≡ proto) × (t.transaction_id ≡ j)

abbrev pub IsUsed : Option ℕ → Proto → List GsmTrans → ℕ → Type 0
IsUsed vsub proto [] j = ⊥
IsUsed vsub proto (t ∷ ts) j = Uses vsub proto j t ⊎ IsUsed vsub proto ts j

-- What the test for the use of an identifier tells.
abbrev Tells : Bool → Type 0 → Type 0
Tells b U = (b ≡ true → U) × (b ≡ false → U → ⊥)

same-Tells : (a b : Option ℕ) → Tells (same a b) (a ≡ b)
same-Tells none none = (λ _. refl, λ h. absurd (ground (arith, h)))
same-Tells none (some b) = (λ h. absurd (ground (arith, h)), λ _ e. cc)
same-Tells (some a) none = (λ h. absurd (ground (arith, h)), λ _ e. cc)
same-Tells (some a) (some b) = (λ h. ap some (ground (arith, h)), λ h e. ground (arith, h, e))

proto_eq-Tells : (p q : Proto) → Tells (proto_eq p q) (q ≡ p)
proto_eq-Tells p q = (λ h. ground (arith, h), λ h e. ground (arith, h, e))

bit_true :
    (a b c d r : Bool)
    → (if not a || (not b || c) then r else d || r) ≡ true
    → ((a ≡ true) × (b ≡ true) × (d ≡ true)) ⊎ (r ≡ true)
bit_true a b c d r h = ground arith

bit_false : (a b c d r : Bool) → (if not a || (not b || c) then r else d || r) ≡ false → r ≡ false
bit_false a b c d r h = ground arith

bit_unset :
    (a b c d r : Bool)
    → (if not a || (not b || c) then r else d || r) ≡ false
    → a ≡ true
    → b ≡ true
    → c ≡ false
    → d ≡ true
    → ⊥
bit_unset a b c d r h x y z w = ground arith

not_false : (b : Bool) (A : Type 0) → Tells b A → A → b ≡ true
not_false true A t x = refl
not_false false A (f, g) x = absurd (g refl x)

-- Up to 6 the bits tell which identifiers are used.
used_tid_bitmask-Tells :
    (vsub : Option ℕ) (proto : Proto) (ts : List GsmTrans) (j : ℕ)
    → j < 7
    → Tells (used_tid_bitmask vsub proto ts j) (IsUsed vsub proto ts j)
unfolding used_tid_bitmask
used_tid_bitmask-Tells vsub proto [] j l = (λ h. absurd (ground (arith, h)), λ h u. u)
used_tid_bitmask-Tells vsub proto (t ∷ ts) j l =
    let (a, a') = same-Tells t.vsub vsub in
    let (b, b') = proto_eq-Tells proto (trans_type_to_gsm48_proto t.type) in
    let (r, r') = used_tid_bitmask-Tells vsub proto ts j l in
    (
      λ h.
          elim (bit_true (same t.vsub vsub) (proto_eq proto (trans_type_to_gsm48_proto t.type))
            (t.transaction_id == trans_id_unassigned) (t.transaction_id == j) _ h) [
              | inl (x, y, z) ↦ inl (a x, b y, ground (arith, z))
              | inr x ↦ inr (r x)
            ],
      λ h u. elim u [
        | inl (x, y, z) ↦
            bit_unset (same t.vsub vsub) (proto_eq proto (trans_type_to_gsm48_proto t.type))
              (t.transaction_id == trans_id_unassigned) (t.transaction_id == j) _ h
              (not_false _ _ (a, a') x) (not_false _ _ (b, b') y) (ground (arith, z, l))
              (ground (arith, z))
        | inr x ↦
            r'
              (bit_false (same t.vsub vsub) (proto_eq proto (trans_type_to_gsm48_proto t.type))
                (t.transaction_id == trans_id_unassigned) (t.transaction_id == j) _ h)
              x
      ],
    )

-- `h` is the highest identifier up to `n` in use, or 0.
abbrev pub IsHighestUsed : (ℕ → Type 0) → (n h : ℕ) → Type 0
IsHighestUsed U n h = (h ≤ n) × ((h ≡ 0) ⊎ U h) × ((m : ℕ) → h < m → m ≤ n → U m → ⊥)

-- The unused identifier below 7 that is nearest above `h`, modulo 7; none if all are in use.
abbrev pub IsNearestFree : (ℕ → Type 0) → (h : ℕ) → Option ℕ → Type 0
IsNearestFree U h none = (j : ℕ) → j < 7 → U j
IsNearestFree U h (some j) =
    (j < 7) × (U j → ⊥) × ((m : ℕ) → m < 7 → distance h m < distance h j → U m)

module _ (used : ℕ → Bool) (U : ℕ → Type 0) (f : (j : ℕ) → j < 7 → Tells (used j) (U j)) where
  IsHighest-IsHighestUsed : (h : ℕ) → IsHighest used 6 h → IsHighestUsed U 6 h
  IsHighest-IsHighestUsed h (l, inl e, k) = (l, inl e, λ m a b. (f m (omega arith)).1 (k m a b))
  IsHighest-IsHighestUsed h (l, inr e, k) =
      (l, inr ((f h (omega arith)).0 e), λ m a b. (f m (omega arith)).1 (k m a b))

  IsNearest-IsNearestFree : (h : ℕ) (o : Option ℕ) → IsNearest used h o → IsNearestFree U h o
  IsNearest-IsNearestFree h none k = λ j l. (f j l).0 (k j l)
  IsNearest-IsNearestFree h (some j) (l, e, k) = (l, (f j l).1 e, λ m q d. (f m q).0 (k m q d))

-- trans_assign_trans_id() takes, among the identifiers 0 to 6, the one that no transaction of the
-- subscriber and protocol has and that is nearest above the highest one that such a transaction has
-- (0 if none has one up to 6), going round after 6; it fails exactly if each of the seven is had by
-- such a transaction.
pub trans_assign_trans_id-IsNearest :
    (net : GsmNetwork) (vsub : Option ℕ) (type : TransType)
    → let U = IsUsed vsub (trans_type_to_gsm48_proto type) net.trans_list in
      (h : ℕ) × IsHighestUsed U 6 h × IsNearestFree U h (trans_assign_trans_id net vsub type)
trans_assign_trans_id-IsNearest net vsub type =
    let proto = trans_type_to_gsm48_proto type in
    let used = used_tid_bitmask vsub proto net.trans_list in
    let f = used_tid_bitmask-Tells vsub proto net.trans_list in
    let (h, k, n) = trans_assign_trans_id-bits net vsub type in
    (h, IsHighest-IsHighestUsed used _ f h k, IsNearest-IsNearestFree used _ f h _ n)

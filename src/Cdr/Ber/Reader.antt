-- ===== src/Cdr/Ber/Reader.antt =====
-- osmo-msc-cdrenc/huawei_ber.c: a reader of BER, and that it reads the numbers, lengths and tags
-- that the writer appends.
use osmo_msc.Base.{
  ℕ, zero, suc, ◌+◌, ◌-◌, ◌*◌, ◌/◌, ◌%◌, ◌≡◌, ◌<◌, refl, ap, ◌∙◌, Bool, true, false, inl, inr,
  Bool-cases, Option, none, some, List, [], ◌∷◌, ◌++◌, ltb, ◌==◌, if◌then◌else◌, length, arith,
}
use osmo_msc.Cdr.Ber.{push_bytes, push_septets, tag_bytes, length_bytes}

-- The reader: a number of `k` bytes, the highest first.
abbrev pub read_bytes : (k acc : ℕ) → List ℕ → Option (ℕ × List ℕ)
read_bytes zero acc xs = some (acc, xs)
read_bytes (suc k) acc [] = none
read_bytes (suc k) acc (x ∷ xs) = read_bytes k (acc * 256 + x) xs

-- A number in groups of seven bits; the last one has no continuation bit.
abbrev pub read_septets : (acc : ℕ) → List ℕ → Option (ℕ × List ℕ)
read_septets acc [] = none
read_septets acc (x ∷ xs) =
    let rest = read_septets (acc * 128 + (x - 128)) xs in
    if ltb x 128 then some (acc * 128 + x, xs) else rest

abbrev pub read_length : List ℕ → Option (ℕ × List ℕ)
read_length [] = none
read_length (x ∷ xs) = if ltb x 128 then some (x, xs) else read_bytes (x - 128) 0 xs

-- 256 to the power of the fuel.
abbrev bytes_bound : ℕ → ℕ
bytes_bound zero = 1
bytes_bound (suc k) = 256 * bytes_bound k

abbrev septets_bound : ℕ → ℕ
septets_bound zero = 1
septets_bound (suc k) = 128 * septets_bound k

pub read-push_bytes :
    (fuel t : ℕ) (stack rest : List ℕ)
    → t < bytes_bound fuel
    → read_bytes (length (push_bytes fuel t stack)) 0 (push_bytes fuel t stack ++ rest)
      ≡ read_bytes (length stack) t (stack ++ rest)
unfolding push_bytes
read-push_bytes zero t stack rest h =
    ap (λ a. read_bytes (length stack) a (stack ++ rest)) (omega (arith, h))
read-push_bytes (suc fuel) t stack rest h = elim (Bool-cases (t == 0)) [
  | inl e ↦ rw e (ap (λ a. read_bytes (length stack) a (stack ++ rest)) (ground (arith, e)))
  | inr e ↦ rw e (
      read-push_bytes fuel (t / 256) (t % 256 ∷ stack) rest (omega (arith, h))
      ∙ ap (λ a. read_bytes (length stack) a (stack ++ rest)) (omega arith))
]

read-push_septets :
    (fuel t : ℕ) (stack rest : List ℕ)
    → t < septets_bound fuel
    → read_septets 0 (push_septets fuel t stack ++ rest) ≡ read_septets t (stack ++ rest)
unfolding push_septets
read-push_septets zero t stack rest h = ap (λ a. read_septets a (stack ++ rest)) (omega (arith, h))
read-push_septets (suc fuel) t stack rest h = elim (Bool-cases (t == 0)) [
  | inl e ↦ rw e (ap (λ a. read_septets a (stack ++ rest)) (ground (arith, e)))
  | inr e ↦
      let big : ltb (t % 128 + 128) 128 ≡ false = ground arith in
      rw e (
        read-push_septets fuel (t / 128) ((t % 128 + 128) ∷ stack) rest (omega (arith, h))
        ∙ rw big (ap (λ a. read_septets a (stack ++ rest)) (omega arith)))
]

long_form :
    (stack rest : List ℕ)
    → read_length ((128 + length stack) ∷ (stack ++ rest))
      ≡ read_bytes (length stack) 0 (stack ++ rest)
long_form stack rest =
    let big : ltb (128 + length stack) 128 ≡ false = ground arith in
    rw big (ap (λ k. read_bytes k 0 (stack ++ rest)) (omega arith))

-- A length of at most 2^64 - 1 is read back.
pub read_length-length_bytes :
    (len : ℕ) (rest : List ℕ)
    → len < 18446744073709551616
    → read_length (length_bytes len ++ rest) ≡ some (len, rest)
unfolding length_bytes
read_length-length_bytes len rest h = elim (Bool-cases (ltb len 128)) [
  | inl e ↦ rw (e, e) refl
  | inr e ↦ rw e (long_form (push_bytes 8 len []) rest ∙ read-push_bytes 8 len [] rest h)
]

pub record Tag : Type 0 where
  pub tag_class : ℕ
  pub constructed : Bool
  pub number : ℕ

abbrev header : ℕ → ℕ → Tag
header x n = record { tag_class = x / 64; constructed = (x / 32) % 2 == 1; number = n }

abbrev pub read_tag : List ℕ → Option (Tag × List ℕ)
read_tag [] = none
read_tag (x ∷ xs) =
    if ltb (x % 32) 31
    then some (header x (x % 32), xs)
    else elim (read_septets 0 xs) [ none ↦ none | some r ↦ some (header x r.0, r.1) ]

first_byte : (c : Bool) (n : ℕ) → n < 32 → ((2 * 64 + (if c then 32 else 0)) % 256 + n) % 32 ≡ n
first_byte c n h = ground arith

first_header :
    (c : Bool) (n m : ℕ)
    → n < 32
    → header ((2 * 64 + (if c then 32 else 0)) % 256 + n) m
      ≡ record { tag_class = 2; constructed = c; number = m }
first_header c n m h = ground arith

-- A context tag below 2^31 is read back.
pub read_tag-tag_bytes :
    (c : Bool) (tag : ℕ) (rest : List ℕ)
    → tag < 2147483648
    → read_tag (tag_bytes 2 c tag ++ rest)
      ≡ some (record { tag_class = 2; constructed = c; number = tag }, rest)
unfolding tag_bytes
read_tag-tag_bytes c tag rest h = elim (Bool-cases (ltb tag 31)) [
  | inl e ↦
      let l : tag < 32 = ground (arith, e) in
      rw (e, first_byte c tag l, e) (ap (λ t. some (t, rest)) (first_header c tag tag l))
  | inr e ↦
      let low : ltb (tag % 128) 128 ≡ true = ground arith in
      let whole : tag / 128 * 128 + tag % 128 ≡ tag = omega arith in
      let s = read-push_septets 5 (tag / 128) (tag % 128 ∷ []) rest (omega (arith, h)) in
      rw (e, first_byte c 31 (omega arith), s, low, whole)
        (ap (λ t. some (t, rest)) (first_header c 31 tag (omega arith)))
]

-- The first `n` of a list, and the others.
abbrev pub cut : ℕ → List ℕ → Option (List ℕ × List ℕ)
cut zero xs = some ([], xs)
cut (suc n) [] = none
cut (suc n) (x ∷ xs) = elim (cut n xs) [ none ↦ none | some r ↦ some (x ∷ r.0, r.1) ]

pub cut-length : (xs rest : List ℕ) → cut (length xs) (xs ++ rest) ≡ some (xs, rest)
cut-length [] rest = refl
cut-length (x ∷ xs) rest = rw (cut-length xs rest) refl

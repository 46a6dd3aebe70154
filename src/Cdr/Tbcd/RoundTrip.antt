-- ===== src/Cdr/Tbcd/RoundTrip.antt =====
-- osmo-msc-cdrenc/huawei_ber.c: BCD digits are read back as the number that was dialled.
use osmo_msc.Base.{
  ℕ, suc, ◌+◌, ◌*◌, ◌/◌, ◌%◌, ◌≡◌, ◌≤◌, ◌<◌, refl, ap, ◌∙◌, inl, inr, Bool, true, false, ◌&&◌, ◌||◌,
  Bool-cases, List, [], ◌∷◌, ◌++◌, ltb, ◌==◌, if◌then◌else◌, length, arith,
}
use osmo_msc.Cdr.Ber.Buffer.{length-append}
use osmo_msc.Cdr.Tbcd.{in_range, nibble, collect, pad, pack, ber_tbcd_digits}

-- The reader: two digits a byte, the low one first; 15 fills up the last byte.
abbrev pub digit_of : ℕ → ℕ
digit_of v = if ltb v 10 then v + 48 else if v == 10 then 42 else 35

abbrev pub read_tbcd : List ℕ → List ℕ
read_tbcd [] = []
read_tbcd (x ∷ xs) =
    digit_of (x % 16) ∷ (if x / 16 == 15 then [] else digit_of (x / 16) ∷ read_tbcd xs)

-- A digit, '*' or '#'.
abbrev pub is_dialled : ℕ → Bool
is_dialled c = in_range 48 57 c || (c == 42 || c == 35)

abbrev pub all_dialled : List ℕ → Bool
all_dialled [] = true
all_dialled (c ∷ cs) = is_dialled c && all_dialled cs

abbrev hex_of : ℕ → ℕ
hex_of c = if in_range 48 57 c then c else if c == 42 then 97 else 98

abbrev all_hex : List ℕ → List ℕ
all_hex [] = []
all_hex (c ∷ cs) = hex_of c ∷ all_hex cs

collected :
    (n : ℕ) (cs : List ℕ) → all_dialled cs ≡ true → n + length cs ≤ 63 → collect n cs ≡ all_hex cs
unfolding collect
collected n [] h l = refl
collected n (c ∷ cs) h l =
    let ih : collect (n + 1) cs ≡ all_hex cs =
      collected (n + 1) cs (ground (arith, h)) (omega (arith, l)) in
    ground (arith, h, l, ih)

digit-hex_of : (c : ℕ) → is_dialled c ≡ true → digit_of (nibble (hex_of c)) ≡ c
unfolding nibble
digit-hex_of c h = ground (arith, h)

nibble-hex_of : (c : ℕ) → nibble (hex_of c) < 15
unfolding nibble
nibble-hex_of c = ground arith

pad-two : (x y : ℕ) (xs : List ℕ) → pad (x ∷ y ∷ xs) ≡ x ∷ y ∷ pad xs
pad-two x y xs = elim (Bool-cases (length xs % 2 == 1)) [
  | inl e ↦ let e' : (suc (suc (length xs))) % 2 == 1 ≡ true = ground (arith, e) in rw (e, e') refl
  | inr e ↦ let e' : (suc (suc (length xs))) % 2 == 1 ≡ false = ground (arith, e) in rw (e, e') refl
]

read_two :
    (a b : ℕ) (xs : List ℕ)
    → a < 15
    → b < 15
    → read_tbcd ((b * 16 + a) ∷ xs) ≡ digit_of a ∷ digit_of b ∷ read_tbcd xs
read_two a b xs h k =
    let low : (b * 16 + a) % 16 ≡ a = omega (arith, h) in
    let high : (b * 16 + a) / 16 ≡ b = omega (arith, h) in
    let go : (b == 15) ≡ false = ground (arith, k) in rw (low, high, go) refl

read_last : (a : ℕ) → a < 15 → read_tbcd ((15 * 16 + a) ∷ []) ≡ digit_of a ∷ []
read_last a h =
    let low : (15 * 16 + a) % 16 ≡ a = omega (arith, h) in
    let high : (15 * 16 + a) / 16 ≡ 15 = omega (arith, h) in rw (low, high) refl

filled : nibble 102 ≡ 15
unfolding nibble
filled = refl

read-pack : (cs : List ℕ) → all_dialled cs ≡ true → read_tbcd (pack (pad (all_hex cs))) ≡ cs
unfolding pack
read-pack [] h = refl
read-pack (c ∷ []) h =
    ap (λ v. read_tbcd ((v * 16 + nibble (hex_of c)) ∷ [])) filled
    ∙ read_last (nibble (hex_of c)) (nibble-hex_of c)
    ∙ ap (λ d. d ∷ []) (digit-hex_of c (ground (arith, h)))
read-pack (c ∷ d ∷ cs) h =
    ap (λ xs. read_tbcd (pack xs)) (pad-two (hex_of c) (hex_of d) (all_hex cs))
    ∙ read_two (nibble (hex_of c)) (nibble (hex_of d)) (pack (pad (all_hex cs))) (nibble-hex_of c)
        (nibble-hex_of d)
    ∙ ap (λ x. x ∷ digit_of (nibble (hex_of d)) ∷ read_tbcd (pack (pad (all_hex cs))))
        (digit-hex_of c (ground (arith, h)))
    ∙ ap (λ x. c ∷ x ∷ read_tbcd (pack (pad (all_hex cs)))) (digit-hex_of d (ground (arith, h)))
    ∙ ap (λ xs. c ∷ d ∷ xs) (read-pack cs (ground (arith, h)))

length-all_hex : (cs : List ℕ) → length (all_hex cs) ≡ length cs
length-all_hex [] = refl
length-all_hex (c ∷ cs) = ap suc (length-all_hex cs)

pad-length : (xs : List ℕ) → length xs ≤ 63 → length (pad xs) / 2 ≤ 32
pad-length xs h = elim (Bool-cases (length xs % 2 == 1)) [
  | inl e ↦
      let l : length (xs ++ (102 ∷ [])) ≡ length xs + 1 = length-append xs (102 ∷ []) in
      rw (e, l) (omega (arith, h))
  | inr e ↦ rw e (omega (arith, h))
]

-- A dialled number of at most 63 digits, '*' and '#' is read back from the bytes of
-- ber_tbcd_digits(), where 32 bytes are there for them.
pub read_tbcd-ber_tbcd_digits :
    (outl : ℕ) (cs : List ℕ)
    → 32 ≤ outl
    → length cs ≤ 63
    → all_dialled cs ≡ true
    → read_tbcd (ber_tbcd_digits outl cs) ≡ cs
unfolding ber_tbcd_digits
read_tbcd-ber_tbcd_digits outl cs o l h =
    let c : collect 0 cs ≡ all_hex cs = collected 0 cs h (omega (arith, l)) in
    let k : length (pad (all_hex cs)) / 2 ≤ 32 =
      pad-length (all_hex cs) (omega (arith, length-all_hex cs, l)) in
    let fits : ltb outl (length (pad (all_hex cs)) / 2) ≡ false = ground (arith, k, o) in
    rw (c, fits) (read-pack cs h)

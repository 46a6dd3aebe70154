-- ===== src/Cdr/Tbcd.antt =====
-- osmo-msc-cdrenc/huawei_ber.c: telephone numbers as BCD digits. A string is the list of its
-- characters' codes, without the 0 at its end; a result of no bytes stands for the return value 0.
pub mod RoundTrip
use osmo_msc.Base.{
  ℕ, zero, suc, ◌+◌, ◌-◌, ◌*◌, ◌/◌, ◌%◌, Bool, true, false, ◌&&◌, ◌||◌, List, [], ◌∷◌, ◌++◌, ltb,
  leb, ◌==◌, if◌then◌else◌, length,
}
use osmo_msc.Cdr.Ber.{BerBuf, ber_ctx_prim}

abbrev pub in_range : ℕ → ℕ → ℕ → Bool
in_range a b c = leb a c && leb c b

-- The codes of '0', '9', '*', '#', 'a', 'b' and 'f' are 48, 57, 42, 35, 97, 98 and 102.
unfoldable pub nibble : ℕ → ℕ
nibble c =
    if in_range 48 57 c
    then c - 48
    else if in_range 97 102 c
    then c - 97 + 10
    else if in_range 65 70 c
    then c - 65 + 10
    else 15

-- The loop that collects the characters: `n` are there, and 63 are the most.
unfoldable pub collect : (n : ℕ) → List ℕ → List ℕ
collect n [] = []
collect n (c ∷ cs) =
    let rest = collect (n + 1) cs in
    let skipped = collect n cs in
    if ltb (n + 1) 64
    then if in_range 48 57 c
      then c ∷ rest
      else if c == 42
      then 97 ∷ rest
      else if c == 35
      then 98 ∷ rest
      else skipped
    else []

abbrev pub pad : List ℕ → List ℕ
pad xs = if length xs % 2 == 1 then xs ++ (102 ∷ []) else xs

unfoldable pub pack : List ℕ → List ℕ
pack [] = []
pack (x ∷ []) = []
pack (x ∷ y ∷ xs) = (nibble y * 16 + nibble x) ∷ pack xs

unfoldable pub ber_tbcd_digits : (outl : ℕ) → List ℕ → List ℕ
ber_tbcd_digits outl digits =
    let hex = pad (collect 0 digits) in if ltb outl (length hex / 2) then [] else pack hex

-- The type of number and the numbering plan come first.
pub with_ton_npi : (outl ton_npi : ℕ) → List ℕ → List ℕ
with_ton_npi outl ton_npi [] = []
with_ton_npi outl ton_npi (x ∷ xs) = if ltb outl (length (x ∷ xs) + 1) then [] else ton_npi ∷ x ∷ xs

unfoldable pub ber_tbcd_number : (outl : ℕ) → List ℕ → (ton_npi : ℕ) → List ℕ
ber_tbcd_number outl digits ton_npi = with_ton_npi outl ton_npi (ber_tbcd_digits 32 digits)

unfoldable pub ber_ctx_tbcd : BerBuf → ℕ → List ℕ → BerBuf
ber_ctx_tbcd b tag digits = ber_ctx_prim b tag (ber_tbcd_digits 32 digits)

unfoldable pub ber_ctx_isdn : BerBuf → ℕ → List ℕ → BerBuf
ber_ctx_isdn b tag digits = ber_ctx_prim b tag (ber_tbcd_number 33 digits 145)

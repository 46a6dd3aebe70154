-- ===== src/Cdr/Ber.antt =====
-- osmo-msc-cdrenc/huawei_ber.c: the BER writer. Bytes are numbers below 256; `|` of disjoint bits
-- is a sum. A tag, a C int, is not negative here. The small arrays that a number is taken apart into
-- are stacks, lists with the last byte written at the head, as they are read from the end.
pub mod Buffer
pub mod Reader
pub mod RoundTrip
use osmo_msc.Base.{
  ℕ, zero, suc, ◌+◌, ◌*◌, ◌/◌, ◌%◌, Bool, true, false, List, [], ◌∷◌, ◌++◌, ltb, leb, ◌==◌,
  if◌then◌else◌, length,
}

-- struct ber_buf: `len` is the length of the data.
pub record BerBuf : Type 0 where
  pub bytes : List ℕ
  pub cap : ℕ

abbrev pub ber_init : BerBuf
ber_init = record { bytes = []; cap = 0 }

abbrev pub ber_reset : BerBuf → BerBuf
ber_reset b = record b { bytes = [] }

-- How many values a size_t has: 2 ^ 64.
abbrev pub size_t : ℕ
size_t = 18446744073709551616

-- The loop `while (cap < need) cap *= 2;`, with fuel.
unfoldable pub doubles : (fuel need cap : ℕ) → ℕ
doubles zero need cap = cap
doubles (suc fuel) need cap =
    let rest = doubles fuel need (cap * 2 % size_t) in if ltb cap need then rest else cap

-- The memory is there: the program ends if realloc() fails.
unfoldable pub ber_grow : BerBuf → ℕ → BerBuf
unfolding doubles
ber_grow b add =
    let need = (length b.bytes + add) % size_t in
    let cap = if b.cap == 0 then 256 else b.cap in
    if leb need b.cap then b else record b { cap = doubles need need cap }

unfoldable pub ber_raw : BerBuf → List ℕ → BerBuf
unfolding ber_grow
ber_raw b [] = b
ber_raw b (x ∷ xs) =
    let b' = ber_grow b (length (x ∷ xs)) in record b' { bytes = b'.bytes ++ (x ∷ xs) }

-- The loop that pushes the bytes of a number, the lowest first.
unfoldable pub push_bytes : (fuel t : ℕ) → List ℕ → List ℕ
push_bytes zero t stack = stack
push_bytes (suc fuel) t stack =
    let rest = push_bytes fuel (t / 256) (t % 256 ∷ stack) in if t == 0 then stack else rest

-- The loop that pushes groups of seven bits, each with the continuation bit.
unfoldable pub push_septets : (fuel t : ℕ) → List ℕ → List ℕ
push_septets zero t stack = stack
push_septets (suc fuel) t stack =
    let rest = push_septets fuel (t / 128) ((t % 128 + 128) ∷ stack) in
    if t == 0 then stack else rest

-- What ber_tag() appends; five groups hold every C int.
unfoldable pub tag_bytes : (tag_class : ℕ) (constructed : Bool) (tag : ℕ) → List ℕ
tag_bytes tag_class constructed tag =
    let first = (tag_class * 64 + (if constructed then 32 else 0)) % 256 in
    if ltb tag 31
    then (first + tag) ∷ []
    else (first + 31) ∷ push_septets 5 (tag / 128) (tag % 128 ∷ [])

-- What ber_length() appends; eight bytes hold every size_t.
unfoldable pub length_bytes : ℕ → List ℕ
length_bytes len =
    let stack = push_bytes 8 len [] in
    if ltb len 128 then len ∷ [] else (128 + length stack) ∷ stack

unfoldable pub ber_tag : BerBuf → (tag_class : ℕ) (constructed : Bool) (tag : ℕ) → BerBuf
unfolding ber_raw
ber_tag b tag_class constructed tag = ber_raw b (tag_bytes tag_class constructed tag)

unfoldable pub ber_length : BerBuf → ℕ → BerBuf
unfolding ber_raw
ber_length b len = ber_raw b (length_bytes len)

unfoldable pub ber_ctx_prim : BerBuf → ℕ → List ℕ → BerBuf
ber_ctx_prim b tag [] = b
ber_ctx_prim b tag (x ∷ xs) =
    ber_raw (ber_length (ber_tag b 2 false tag) (length (x ∷ xs))) (x ∷ xs)

unfoldable pub wrap_bytes : BerBuf → ℕ → List ℕ → BerBuf
wrap_bytes outer tag [] = outer
wrap_bytes outer tag (x ∷ xs) =
    ber_raw (ber_length (ber_tag outer 2 true tag) (length (x ∷ xs))) (x ∷ xs)

unfoldable pub ber_wrap_ctx : BerBuf → ℕ → BerBuf → BerBuf
ber_wrap_ctx outer tag inner = wrap_bytes outer tag inner.bytes

-- A leading 0 keeps the top bit of the first byte clear.
abbrev pub clear_sign : List ℕ → List ℕ
clear_sign [] = []
clear_sign (x ∷ xs) = if leb 128 x then 0 ∷ x ∷ xs else x ∷ xs

-- Of the C int that is `u` as an unsigned int.
abbrev pub encode_int : ℕ → List ℕ
encode_int u = if u == 0 then 0 ∷ [] else clear_sign (push_bytes 4 u [])

unfoldable pub ber_ctx_int : BerBuf → ℕ → ℕ → BerBuf
unfolding ber_ctx_prim ber_tag ber_length
ber_ctx_int b tag u = ber_ctx_prim b tag (encode_int u)

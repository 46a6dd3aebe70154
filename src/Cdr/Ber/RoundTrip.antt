-- ===== src/Cdr/Ber/RoundTrip.antt =====
-- osmo-msc-cdrenc/huawei_ber.c: the elements that the writer appends are read back.
use osmo_msc.Base.{
  ℕ, ◌≡◌, ◌≢◌, ◌<◌, refl, ap, ◌∙◌, Bool, true, false, inl, inr, Bool-cases, Option, none, some,
  List, [], ◌∷◌, ◌++◌, append_assoc, leb, ◌==◌, length, arith,
}
use osmo_msc.Cdr.Ber.{
  BerBuf, push_bytes, tag_bytes, length_bytes, ber_raw, ber_tag, ber_length, ber_ctx_prim,
  ber_wrap_ctx, wrap_bytes, clear_sign, encode_int,
}
use osmo_msc.Cdr.Ber.Buffer.{bytes-ber_raw}
use osmo_msc.Cdr.Ber.Reader.{
  read_bytes, read_length, Tag, read_tag, cut, read-push_bytes, read_length-length_bytes,
  read_tag-tag_bytes, cut-length,
}

abbrev after_length : Tag → Option (ℕ × List ℕ) → Option (Tag × List ℕ × List ℕ)
after_length t none = none
after_length t (some l) = elim (cut (l.0) (l.1)) [ none ↦ none | some r ↦ some (t, r.0, r.1) ]

abbrev after_tag : Option (Tag × List ℕ) → Option (Tag × List ℕ × List ℕ)
after_tag none = none
after_tag (some t) = after_length (t.0) (read_length (t.1))

-- A whole element: its tag, its content, and what follows.
abbrev pub read_tlv : List ℕ → Option (Tag × List ℕ × List ℕ)
read_tlv xs = after_tag (read_tag xs)

abbrev pub context : Bool → ℕ → Tag
context c tag = record { tag_class = 2; constructed = c; number = tag }

abbrev element : (c : Bool) (tag : ℕ) → List ℕ → List ℕ
element c tag xs = tag_bytes 2 c tag ++ (length_bytes (length xs) ++ xs)

read_tlv-element :
    (c : Bool) (tag : ℕ) (xs rest : List ℕ)
    → tag < 2147483648
    → length xs < 18446744073709551616
    → read_tlv (element c tag xs ++ rest) ≡ some (context c tag, xs, rest)
read_tlv-element c tag xs rest h l =
    let behind = append_assoc (length_bytes (length xs)) xs rest in
    ap read_tlv (
      append_assoc (tag_bytes 2 c tag) (length_bytes (length xs) ++ xs) rest
      ∙ ap (λ ys. tag_bytes 2 c tag ++ ys) behind)
    ∙ ap after_tag (read_tag-tag_bytes c tag (length_bytes (length xs) ++ (xs ++ rest)) h)
    ∙ ap (after_length (context c tag)) (read_length-length_bytes (length xs) (xs ++ rest) l)
    ∙ rw (cut-length xs rest, after_length) refl

bytes-element :
    (b : BerBuf) (c : Bool) (tag : ℕ) (xs : List ℕ)
    → (ber_raw (ber_length (ber_tag b 2 c tag) (length xs)) xs).bytes ≡ b.bytes ++ element c tag xs
unfolding ber_tag ber_length
bytes-element b c tag xs =
    let t = tag_bytes 2 c tag in
    let l = length_bytes (length xs) in
    let b1 = ber_raw b t in
    bytes-ber_raw (ber_raw b1 l) xs
    ∙ ap (λ d. d ++ xs) (bytes-ber_raw b1 l ∙ ap (λ d. d ++ l) (bytes-ber_raw b t))
    ∙ append_assoc (b.bytes ++ t) l xs
    ∙ append_assoc b.bytes t (l ++ xs)

-- An element was appended: a reader that starts where the data ended gets it, and what follows.
abbrev pub Appends : BerBuf → BerBuf → Tag → List ℕ → Type 0
Appends b b' t xs =
    (e : List ℕ) × ((b'.bytes ≡ b.bytes ++ e)
      × ((rest : List ℕ) → read_tlv (e ++ rest) ≡ some (t, xs, rest)))

-- ber_ctx_prim() appends, for content that is not empty, a primitive element that a reader gets back
-- with its tag and its content, whatever follows.
pub ber_ctx_prim-Appends :
    (b : BerBuf) (tag : ℕ) (xs : List ℕ)
    → tag < 2147483648
    → length xs < 18446744073709551616
    → xs ≢ []
    → Appends b (ber_ctx_prim b tag xs) (context false tag) xs
unfolding ber_ctx_prim
ber_ctx_prim-Appends b tag [] h l n = absurd (n refl)
ber_ctx_prim-Appends b tag (x ∷ xs) h l n = (
  element false tag (x ∷ xs),
  (bytes-element b false tag (x ∷ xs), λ rest. read_tlv-element false tag (x ∷ xs) rest h l),
)

wrap_bytes-Appends :
    (b : BerBuf) (tag : ℕ) (xs : List ℕ)
    → tag < 2147483648
    → length xs < 18446744073709551616
    → xs ≢ []
    → Appends b (wrap_bytes b tag xs) (context true tag) xs
unfolding wrap_bytes
wrap_bytes-Appends b tag [] h l n = absurd (n refl)
wrap_bytes-Appends b tag (x ∷ xs) h l n = (
  element true tag (x ∷ xs),
  (bytes-element b true tag (x ∷ xs), λ rest. read_tlv-element true tag (x ∷ xs) rest h l),
)

-- ber_wrap_ctx() appends a constructed element whose content is the data of the inner buffer, if it
-- has any.
pub ber_wrap_ctx-Appends :
    (b inner : BerBuf) (tag : ℕ)
    → tag < 2147483648
    → length inner.bytes < 18446744073709551616
    → inner.bytes ≢ []
    → Appends b (ber_wrap_ctx b tag inner) (context true tag) inner.bytes
unfolding ber_wrap_ctx
ber_wrap_ctx-Appends b inner tag h l n = wrap_bytes-Appends b tag inner.bytes h l n

-- The sign bit of a number in two's complement.
abbrev pub is_negative : List ℕ → Bool
is_negative [] = false
is_negative (x ∷ xs) = leb 128 x

clear_sign-read_bytes :
    (s rest : List ℕ)
    → read_bytes (length (clear_sign s)) 0 (clear_sign s ++ rest)
      ≡ read_bytes (length s) 0 (s ++ rest)
clear_sign-read_bytes [] rest = refl
clear_sign-read_bytes (x ∷ s) rest = elim (Bool-cases (leb 128 x)) [
  | inl e ↦ rw e refl
  | inr e ↦ rw e refl
]

is_negative-clear_sign : (s : List ℕ) → is_negative (clear_sign s) ≡ false
is_negative-clear_sign [] = refl
is_negative-clear_sign (x ∷ s) = elim (Bool-cases (leb 128 x)) [
  | inl e ↦ rw e refl
  | inr e ↦ rw (e, e) refl
]

-- The content that encode_int() makes of an unsigned int is read back as that number, with a clear
-- sign bit: so a negative C int is written as the positive number that is 2^32 more.
pub encode_int-read_bytes :
    (u : ℕ) (rest : List ℕ)
    → u < 4294967296
    → (read_bytes (length (encode_int u)) 0 (encode_int u ++ rest) ≡ some (u, rest))
      × (is_negative (encode_int u) ≡ false)
encode_int-read_bytes u rest h = elim (Bool-cases (u == 0)) [
  | inl e ↦ let z : u ≡ 0 = ground (arith, e) in rw (e, z) (refl, refl)
  | inr e ↦
      let s = push_bytes 4 u [] in
      rw e (clear_sign-read_bytes s rest ∙ read-push_bytes 4 u [] rest h, is_negative-clear_sign s)
]

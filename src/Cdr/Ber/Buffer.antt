-- ===== src/Cdr/Ber/Buffer.antt =====
-- osmo-msc-cdrenc/huawei_ber.c: the buffer grows to what it holds.
use osmo_msc.Base.{
  ℕ, zero, suc, ◌+◌, ◌*◌, ◌%◌, ◌≡◌, ◌≤◌, ◌<◌, subst, if_elim, true, refl, sym, ap, ◌∙◌, List, [],
  ◌∷◌, ◌++◌, append-nil, ltb, leb, ◌==◌, if◌then◌else◌, length, arith,
}
use osmo_msc.Cdr.Ber.{BerBuf, size_t, doubles, ber_grow, ber_raw}

abbrev half : ℕ
half = 9223372036854775808

-- Below 2^63 a doubling does not wrap.
unwrapped : (cap need : ℕ) → need ≤ half → cap < need → cap * 2 % size_t ≡ cap * 2
unwrapped cap need h l = omega (arith, h, l)

below : (cap need : ℕ) → ltb cap need ≡ true → cap < need
below cap need e = ground (arith, e)

grown : (fuel need cap : ℕ) → 1 ≤ cap → need ≤ cap + suc fuel → need ≤ cap * 2 + fuel
grown fuel need cap p h = omega (arith, p, h)

-- As many rounds as bytes are needed are enough, from a capacity that is not 0.
doubles-le :
    (fuel need cap : ℕ) → 1 ≤ cap → need ≤ half → need ≤ cap + fuel → need ≤ doubles fuel need cap
unfolding doubles
doubles-le zero need cap p b h = omega (arith, h)
doubles-le (suc fuel) need cap p b h =
    if_elim (λ m. need ≤ m) (ltb cap need)
      (λ e.
        subst (λ m. need ≤ doubles fuel need m) (sym (unwrapped cap need b (below cap need e)))
          (doubles-le fuel need (cap * 2) (omega (arith, p)) b (grown fuel need cap p h)))
      (λ e. ground (arith, e))

ber_grow-bytes : (b : BerBuf) (n : ℕ) → (ber_grow b n).bytes ≡ b.bytes
unfolding ber_grow
ber_grow-bytes b n =
    if_elim (λ (d : BerBuf). d.bytes ≡ b.bytes) (leb ((length b.bytes + n) % size_t) b.cap)
      (λ e. refl) (λ e. refl)

unwrapped_sum : (m : ℕ) → m ≤ half → m % size_t ≡ m
unwrapped_sum m h = omega (arith, h)

start_cap : (c : ℕ) → 1 ≤ (if c == 0 then 256 else c)
start_cap c = ground arith

ber_grow-le :
    (b : BerBuf) (n : ℕ) → length b.bytes + n ≤ half → length b.bytes + n ≤ (ber_grow b n).cap
unfolding ber_grow
ber_grow-le b n h =
    let e = unwrapped_sum (length b.bytes + n) h in
    let need = (length b.bytes + n) % size_t in
    let k : need ≤ half = subst (λ m. m ≤ half) (sym e) h in
    let r : need ≤ (ber_grow b n).cap =
      if_elim (λ (d : BerBuf). need ≤ d.cap) (leb need b.cap) (λ l. ground (arith, l))
        (λ l. doubles-le need need _ (start_cap b.cap) k (omega arith)) in
    subst (λ m. m ≤ (ber_grow b n).cap) e r

pub bytes-ber_raw : (b : BerBuf) (xs : List ℕ) → (ber_raw b xs).bytes ≡ b.bytes ++ xs
unfolding ber_raw
bytes-ber_raw b [] = sym (append-nil b.bytes)
bytes-ber_raw b (x ∷ xs) = ap (λ d. d ++ (x ∷ xs)) (ber_grow-bytes b (length (x ∷ xs)))

pub length-append : (xs ys : List ℕ) → length (xs ++ ys) ≡ length xs + length ys
length-append [] ys = omega arith
length-append (x ∷ xs) ys = ap suc (length-append xs ys) ∙ omega arith

-- Writing keeps the data within the capacity, as long as the data and what is written have at most
-- 2^63 bytes together: then neither their sum nor a doubling of the capacity wraps in a size_t.
pub ber_raw-fits :
    (b : BerBuf) (xs : List ℕ)
    → length b.bytes ≤ b.cap
    → length b.bytes + length xs ≤ 9223372036854775808
    → length (ber_raw b xs).bytes ≤ (ber_raw b xs).cap
unfolding ber_raw
ber_raw-fits b [] h k = h
ber_raw-fits b (x ∷ xs) h k =
    let n = length (x ∷ xs) in
    let e = ber_grow-bytes b n in
    let l = length-append b.bytes (x ∷ xs) in
    let g = ber_grow-le b n k in rw e (omega (arith, l, g))

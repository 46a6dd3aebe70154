-- ===== src/Cdr/Tests.antt =====
-- osmo-msc-cdrenc/huawei_ber.c: the theorems at concrete elements.
use osmo_msc.Base.{refl, ℕ, ◌≡◌, ◌≢◌, ◌≤◌, true, false, some, List, [], ◌∷◌, ◌++◌, length, arith}
use osmo_msc.Cdr.Ber.{BerBuf, ber_init, ber_raw, ber_ctx_prim, ber_wrap_ctx, encode_int}
use osmo_msc.Cdr.Tbcd.{ber_tbcd_digits}
use osmo_msc.Cdr.Tbcd.RoundTrip.{read_tbcd, read_tbcd-ber_tbcd_digits}
use osmo_msc.Cdr.Ber.Buffer.{ber_raw-fits}
use osmo_msc.Cdr.Ber.Reader.{read_bytes}
use osmo_msc.Cdr.Ber.RoundTrip.{
  Appends, context, is_negative, ber_ctx_prim-Appends, ber_wrap_ctx-Appends, encode_int-read_bytes,
}

abbrev some_bytes : List ℕ
some_bytes = 3 ∷ 200 ∷ []

abbrev some_buf : BerBuf
some_buf = record { bytes = some_bytes; cap = 256 }

ber_raw-fits_example :
    length (ber_raw some_buf some_bytes).bytes ≤ (ber_raw some_buf some_bytes).cap
ber_raw-fits_example = ber_raw-fits some_buf some_bytes (omega arith) (omega arith)

has_bytes : some_bytes ≢ []
has_bytes h = cc

ber_ctx_prim-Appends_example :
    Appends some_buf (ber_ctx_prim some_buf 150 some_bytes) (context false 150) some_bytes
ber_ctx_prim-Appends_example =
    ber_ctx_prim-Appends some_buf 150 some_bytes (omega arith) (omega arith) has_bytes

ber_wrap_ctx-Appends_example :
    Appends ber_init (ber_wrap_ctx ber_init 7 some_buf) (context true 7) some_bytes
ber_wrap_ctx-Appends_example =
    ber_wrap_ctx-Appends ber_init some_buf 7 (omega arith) (omega arith) has_bytes

encode_int-read_bytes_example :
    (read_bytes (length (encode_int 4294967295)) 0 (encode_int 4294967295 ++ [])
      ≡ some (4294967295, []))
    × (is_negative (encode_int 4294967295) ≡ false)
encode_int-read_bytes_example = encode_int-read_bytes 4294967295 [] (omega arith)

-- The digits 1, 2, 3 and '#'.
abbrev dialled : List ℕ
dialled = 49 ∷ 50 ∷ 51 ∷ 35 ∷ []

read_tbcd-ber_tbcd_digits_example : read_tbcd (ber_tbcd_digits 32 dialled) ≡ dialled
read_tbcd-ber_tbcd_digits_example =
    read_tbcd-ber_tbcd_digits 32 dialled (omega arith) (omega arith) refl

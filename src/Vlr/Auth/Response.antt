-- ===== src/Vlr/Auth/Response.antt =====
-- libvlr/vlr_auth_fsm.c, check_auth_resp(): the phone's RES or SRES against the vector in use.
use osmo_msc.Base.{
  Option-cases, inl, inr, ◌⊎◌, subst, ℕ, ◌≡◌, ◌≢◌, ◌↔◌, refl, Bool, true, false, ◌&&◌, ◌||◌, not,
  Option, none, some, List, ◌==◌, if◌then◌else◌, take, bytes_eq, bytes_eq_iff, arith,
}
use osmo_msc.Vlr.Subscr.{Subscr, AuthVector, SecCtx, sec_none, sec_gsm, sec_umts}

-- `memcmp(a, b, n) == 0`, for buffers of at least `n` bytes.
unfoldable pub mem_eq : List ℕ → List ℕ → ℕ → Bool
mem_eq a b n = bytes_eq (take n a) (take n b)

pub mem_eq_iff : (a b : List ℕ) (n : ℕ) → (mem_eq a b n ≡ true) ↔ (take n a ≡ take n b)
unfolding mem_eq
mem_eq_iff a b n = bytes_eq_iff (take n a) (take n b)

-- sizeof(vec->sres)
abbrev pub sres_size : ℕ
sres_size = 4

pub out_false : Subscr → Bool × Subscr
out_false v = (false, record v { sec_ctx = sec_none })

-- From the point where the length of RES has told UMTS AKA from GSM AKA.
unfoldable pub check_res :
    (v : Subscr) (vec : AuthVector) (is_r99 is_utran : Bool) (res : List ℕ) (res_len : ℕ)
    → (res_is_umts_aka : Bool) → Bool × Subscr
unfolding out_false
check_res v vec is_r99 is_utran res res_len res_is_umts_aka =
    let check_umts = is_r99 && (vec.umts && res_is_umts_aka) in
    if is_utran && not check_umts
    then out_false v
    else if check_umts
    then if not (res_len == vec.res_len) || not (mem_eq res vec.res res_len)
      then out_false v
      else (true, record v { sec_ctx = sec_umts })
    else if not (res_len == sres_size) || not (mem_eq res vec.sres sres_size)
    then out_false v
    else (true, record v { sec_ctx = sec_gsm })

unfoldable pub check_vec :
    (v : Subscr) (vec : AuthVector) (is_r99 is_utran : Bool) (res : Option (List ℕ)) (res_len : ℕ)
    → Bool × Subscr
unfolding check_res out_false
check_vec v vec is_r99 is_utran none res_len = out_false v
check_vec v vec is_r99 is_utran (some res) res_len =
    if res_len == 0
    then out_false v
    else if res_len == vec.res_len
    then check_res v vec is_r99 is_utran res res_len true
    else if res_len == sres_size
    then check_res v vec is_r99 is_utran res res_len false
    else out_false v

-- `none` is the failed OSMO_ASSERT(at).
unfoldable pub check_auth_resp : Subscr → Bool → Bool → Option (List ℕ) → ℕ → Option (Bool × Subscr)
check_auth_resp v is_r99 is_utran res res_len = elim v.last_tuple [
  | none ↦ none
  | some i ↦ some (check_vec v (v.auth_tuples i).vec is_r99 is_utran res res_len)
]

-- A check leaves the tuple in use alone.
pub last_tuple-check_vec :
    (v : Subscr) (vec : AuthVector) (is_r99 is_utran : Bool) (res : Option (List ℕ)) (n : ℕ)
    → (check_vec v vec is_r99 is_utran res n).1.last_tuple ≡ v.last_tuple
unfolding check_vec
last_tuple-check_vec v vec is_r99 is_utran none n = refl
last_tuple-check_vec v vec is_r99 is_utran (some res) n = ground arith

-- What a response has to be for UMTS AKA, and for GSM AKA.
abbrev pub PassesUmts : AuthVector → Bool → List ℕ → ℕ → Type 0
PassesUmts vec is_r99 res n =
    (is_r99 ≡ true)
    × (vec.umts ≡ true)
    × (n ≢ 0)
    × (n ≡ vec.res_len)
    × (mem_eq res vec.res n ≡ true)

abbrev pub PassesGsm : AuthVector → Bool → Bool → List ℕ → ℕ → Type 0
PassesGsm vec is_r99 is_utran res n =
    (is_utran ≡ false)
    × (n ≡ 4)
    × (mem_eq res vec.sres 4 ≡ true)
    × ¬ ((is_r99 ≡ true) × (vec.umts ≡ true) × (vec.res_len ≡ 4))

module _ (v : Subscr) (vec : AuthVector) (is_r99 is_utran : Bool) (res : List ℕ) (n : ℕ) where
  abbrev checked : Bool × Subscr
  checked = check_vec v vec is_r99 is_utran (some res) n

  check_vec-umts : (checked.1.sec_ctx ≡ sec_umts) → PassesUmts vec is_r99 res n
  unfolding check_vec
  check_vec-umts h = ground arith

  umts-check_vec : PassesUmts vec is_r99 res n → (checked.1.sec_ctx ≡ sec_umts)
  unfolding check_vec
  umts-check_vec h = ground arith

  check_vec-gsm : (checked.1.sec_ctx ≡ sec_gsm) → PassesGsm vec is_r99 is_utran res n
  unfolding check_vec
  check_vec-gsm h = ground arith

  gsm-check_vec : PassesGsm vec is_r99 is_utran res n → (checked.1.sec_ctx ≡ sec_gsm)
  unfolding check_vec
  gsm-check_vec h = ground arith

  check_vec-passed : (checked.0 ≡ true) → (checked.1.sec_ctx ≢ sec_none)
  unfolding check_vec
  check_vec-passed h = ground arith

  passed-check_vec : (checked.1.sec_ctx ≢ sec_none) → (checked.0 ≡ true)
  unfolding check_vec
  passed-check_vec h = ground arith

  check_vec_kept :
      (checked.1.auth_tuples ≡ v.auth_tuples)
      × (checked.1.last_tuple ≡ v.last_tuple)
      × (checked.1.imsi ≡ v.imsi)
  unfolding check_vec
  check_vec_kept = ground arith

-- What a UMTS response and a GSM response are, in terms of the bytes compared.
abbrev pub IsUmtsResponse : AuthVector → Bool → List ℕ → ℕ → Type 0
IsUmtsResponse vec is_r99 res n =
    (is_r99 ≡ true)
    × (vec.umts ≡ true)
    × (n ≢ 0)
    × (n ≡ vec.res_len)
    × (take n res ≡ take n vec.res)

abbrev pub IsGsmResponse : AuthVector → Bool → Bool → List ℕ → ℕ → Type 0
IsGsmResponse vec is_r99 is_utran res n =
    (is_utran ≡ false)
    × (n ≡ 4)
    × (take 4 res ≡ take 4 vec.sres)
    × ¬ ((is_r99 ≡ true) × (vec.umts ≡ true) × (vec.res_len ≡ 4))

PassesUmts-iff :
    (vec : AuthVector) (is_r99 : Bool) (res : List ℕ) (n : ℕ)
    → PassesUmts vec is_r99 res n ↔ IsUmtsResponse vec is_r99 res n
PassesUmts-iff vec is_r99 res n = (
  (λ h. (h.0, h.1, h.2, h.3, (mem_eq_iff res vec.res n).0 h.4)),
  λ h. (h.0, h.1, h.2, h.3, (mem_eq_iff res vec.res n).1 h.4),
)

PassesGsm-iff :
    (vec : AuthVector) (is_r99 is_utran : Bool) (res : List ℕ) (n : ℕ)
    → PassesGsm vec is_r99 is_utran res n ↔ IsGsmResponse vec is_r99 is_utran res n
PassesGsm-iff vec is_r99 is_utran res n = (
  (λ h. (h.0, h.1, (mem_eq_iff res vec.sres 4).0 h.2, h.3)),
  λ h. (h.0, h.1, (mem_eq_iff res vec.sres 4).1 h.2, h.3),
)

-- What `check_auth_resp` has to have done, at the vector in use.
abbrev pub ChecksResponse :
    (v : Subscr) (vec : AuthVector) (is_r99 is_utran : Bool) (res : List ℕ) (n : ℕ)
    → Bool × Subscr
    → Type 0
ChecksResponse v vec is_r99 is_utran res n r =
    ((r.1.sec_ctx ≡ sec_umts) ↔ IsUmtsResponse vec is_r99 res n)
    × ((r.1.sec_ctx ≡ sec_gsm) ↔ IsGsmResponse vec is_r99 is_utran res n)
    × ((r.0 ≡ true) ↔ (r.1.sec_ctx ≢ sec_none))
    × (r.1.auth_tuples ≡ v.auth_tuples)
    × (r.1.last_tuple ≡ v.last_tuple)
    × (r.1.imsi ≡ v.imsi)

check_vec-ChecksResponse :
    (v : Subscr) (vec : AuthVector) (is_r99 is_utran : Bool) (res : List ℕ) (n : ℕ)
    → ChecksResponse v vec is_r99 is_utran res n (check_vec v vec is_r99 is_utran (some res) n)
check_vec-ChecksResponse v vec is_r99 is_utran res n = (
  (
    (λ h. umts.0 (check_vec-umts v vec is_r99 is_utran res n h)),
    λ h. umts-check_vec v vec is_r99 is_utran res n (umts.1 h),
  ),
  (
    (λ h. gsm.0 (check_vec-gsm v vec is_r99 is_utran res n h)),
    λ h. gsm-check_vec v vec is_r99 is_utran res n (gsm.1 h),
  ),
  (check_vec-passed v vec is_r99 is_utran res n, passed-check_vec v vec is_r99 is_utran res n),
  (check_vec_kept v vec is_r99 is_utran res n).0,
  (check_vec_kept v vec is_r99 is_utran res n).1,
  (check_vec_kept v vec is_r99 is_utran res n).2,
)
  where
    umts : PassesUmts vec is_r99 res n ↔ IsUmtsResponse vec is_r99 res n
    umts = PassesUmts-iff vec is_r99 res n

    gsm : PassesGsm vec is_r99 is_utran res n ↔ IsGsmResponse vec is_r99 is_utran res n
    gsm = PassesGsm-iff vec is_r99 is_utran res n

-- With a tuple in use the assertion holds. A UMTS security context is established exactly by the
-- expected RES, of any length but 0, of a vector with UMTS tokens at an R99 phone. A GSM one is established exactly by the
-- expected SRES of 4 bytes on GERAN, unless the phone is R99 and the vector has UMTS tokens and a RES
-- of 4 bytes too. The check succeeds exactly if it establishes one of the two, and it leaves the tuples,
-- the tuple in use and the IMSI alone.
pub check_auth_resp-ChecksResponse :
    (v : Subscr) (i : ℕ) (is_r99 is_utran : Bool) (res : List ℕ) (n : ℕ)
    → v.last_tuple ≡ some i
    → (r : Bool × Subscr) × (check_auth_resp v is_r99 is_utran (some res) n ≡ some r)
      × ChecksResponse v (v.auth_tuples i).vec is_r99 is_utran res n r
unfolding check_auth_resp
check_auth_resp-ChecksResponse v i is_r99 is_utran res n e = (
  check_vec v (v.auth_tuples i).vec is_r99 is_utran (some res) n,
  ground arith,
  check_vec-ChecksResponse v (v.auth_tuples i).vec is_r99 is_utran res n,
)

SecCtx-cases : (c : SecCtx) → c ≢ sec_none → (c ≡ sec_umts) ⊎ (c ≡ sec_gsm)
SecCtx-cases c h = ground arith

-- A vector in use and a response that is accepted by it.
abbrev pub AcceptedBy : Subscr → ℕ → Bool → Bool → List ℕ → ℕ → Type 0
AcceptedBy v i is_r99 is_utran res n =
    IsUmtsResponse (v.auth_tuples i).vec is_r99 res n
    ⊎ IsGsmResponse (v.auth_tuples i).vec is_r99 is_utran res n

check_vec-AcceptedBy :
    (v : Subscr) (i : ℕ) (is_r99 is_utran : Bool) (res : List ℕ) (n : ℕ)
    → (check_vec v (v.auth_tuples i).vec is_r99 is_utran (some res) n).0 ≡ true
    → AcceptedBy v i is_r99 is_utran res n
check_vec-AcceptedBy v i is_r99 is_utran res n h =
    let c = check_vec-ChecksResponse v (v.auth_tuples i).vec is_r99 is_utran res n in
    elim (SecCtx-cases _ (c.2.0 h)) [ inl u ↦ inl (c.0.0 u) | inr g ↦ inr (c.1.0 g) ]

abbrev pub IsPass : Option (Bool × Subscr) → Type 0
IsPass none = ⊥
IsPass (some (ok, w)) = ok ≡ true

abbrev pub Accepts : Subscr → Bool → Bool → Option (List ℕ) → ℕ → Type 0
Accepts v is_r99 is_utran p n =
    (i : ℕ) × (res : List ℕ) × (v.last_tuple ≡ some i)
    × (p ≡ some res)
    × AcceptedBy v i is_r99 is_utran res n

check_auth_resp-none :
    (v : Subscr) (is_r99 is_utran : Bool) (p : Option (List ℕ)) (n : ℕ)
    → v.last_tuple ≡ none
    → check_auth_resp v is_r99 is_utran p n ≡ none
unfolding check_auth_resp
check_auth_resp-none v is_r99 is_utran p n e = ground arith

check_auth_resp-some :
    (v : Subscr) (i : ℕ) (is_r99 is_utran : Bool) (p : Option (List ℕ)) (n : ℕ)
    → v.last_tuple ≡ some i
    → check_auth_resp v is_r99 is_utran p n
      ≡ some (check_vec v (v.auth_tuples i).vec is_r99 is_utran p n)
unfolding check_auth_resp
check_auth_resp-some v i is_r99 is_utran p n e = ground arith

check_vec-Accepts :
    (v : Subscr) (i : ℕ) (is_r99 is_utran : Bool) (p : Option (List ℕ)) (n : ℕ)
    → v.last_tuple ≡ some i
    → (check_vec v (v.auth_tuples i).vec is_r99 is_utran p n).0 ≡ true
    → Accepts v is_r99 is_utran p n
unfolding check_vec
check_vec-Accepts v i is_r99 is_utran none n e h = absurd (ground arith)
check_vec-Accepts v i is_r99 is_utran (some res) n e h =
    (i, res, e, refl, check_vec-AcceptedBy v i is_r99 is_utran res n h)

-- Only a response that matches the tuple in use passes.
pub check_auth_resp-Accepts :
    (v : Subscr) (is_r99 is_utran : Bool) (p : Option (List ℕ)) (n : ℕ)
    → IsPass (check_auth_resp v is_r99 is_utran p n)
    → Accepts v is_r99 is_utran p n
check_auth_resp-Accepts v is_r99 is_utran p n h = elim (Option-cases v.last_tuple) [
  | inl e ↦ absurd (subst IsPass (check_auth_resp-none v is_r99 is_utran p n e) h)
  | inr (i, e) ↦
      check_vec-Accepts v i is_r99 is_utran p n e
        (subst IsPass (check_auth_resp-some v i is_r99 is_utran p n e) h)
]

-- ===== src/Csd/BsList.antt =====
-- libmsc/csd_bs.c: lists of bearer services, in order of preference. The array `bs` of CSD_BS_MAX
-- entries is a function of the index; what reads and writes it stays below CSD_BS_MAX. Pointers to
-- lists are not null here.
pub mod Add
pub mod Entries
pub mod Intersect
use osmo_msc.Base.{
  ℕ, zero, suc, ◌+◌, Bool, true, false, ◌&&◌, ◌||◌, not, ltb, leb, ◌==◌, if◌then◌else◌,
}
use osmo_msc.Csd.BearerService.{CsdBs, bs_none, code, csd_bs_max, csd_bs_valid}

abbrev pub bs_eq : CsdBs → CsdBs → Bool
bs_eq a b = code a == code b

pub record CsdBsList : Type 0 where
  pub count : ℕ
  pub bs : ℕ → CsdBs

-- (struct csd_bs_list){}
abbrev pub empty_list : CsdBsList
empty_list = record { count = 0; bs = λ _. bs_none }

abbrev pub set_bs : (ℕ → CsdBs) → ℕ → CsdBs → ℕ → CsdBs
set_bs a i b j = if j == i then b else a j

abbrev pub csd_bs_list_is_sane : CsdBsList → Bool
csd_bs_list_is_sane list = ltb 0 list.count && leb list.count csd_bs_max

-- The number of entries that are walked.
abbrev pub csd_bs_list_n : CsdBsList → ℕ
csd_bs_list_n list = if ltb csd_bs_max list.count then csd_bs_max else list.count

abbrev pub csd_bs_list_clamp : CsdBsList → CsdBsList
csd_bs_list_clamp list = record list { count = csd_bs_list_n list }

-- The loop that looks for an entry: `k` entries from `i` on.
abbrev pub finds : (ℕ → CsdBs) → (i k : ℕ) → CsdBs → Bool
finds a i zero b = false
finds a i (suc k) b = if bs_eq (a i) b then true else finds a (suc i) k b

unfoldable pub csd_bs_list_has_bs : CsdBsList → CsdBs → Bool
csd_bs_list_has_bs list b = finds list.bs 0 (csd_bs_list_n list) b

unfoldable pub csd_bs_list_add_bs : CsdBsList → CsdBs → CsdBsList
csd_bs_list_add_bs list b =
    let n = csd_bs_list_n list in
    if not (csd_bs_valid b)
    then list
    else if finds list.bs 0 n b
    then csd_bs_list_clamp list
    else if leb csd_bs_max n
    then csd_bs_list_clamp list
    else record { count = n + 1; bs = set_bs list.bs n b }

-- The loop of csd_bs_list_remove() over the `k` entries from `i` on, of `n`: the array and `found`.
unfoldable pub removes :
    (n : ℕ) (b : CsdBs) (k i : ℕ) (found : Bool) → (ℕ → CsdBs) → (ℕ → CsdBs) × Bool
removes n b zero i found a = (a, found)
removes n b (suc k) i found a =
    let found' = found || bs_eq (a i) b in
    removes n b k (suc i) found' (if found' && ltb (i + 1) n then set_bs a i (a (i + 1)) else a)

abbrev pub pred : ℕ → ℕ
pred zero = zero
pred (suc n) = n

-- `found` needs an entry, so `n - 1` does not wrap.
unfoldable pub csd_bs_list_remove : CsdBsList → CsdBs → CsdBsList
csd_bs_list_remove list b =
    let n = csd_bs_list_n list in
    let r = removes n b n 0 false list.bs in record { count = if r.1 then pred n else n; bs = r.0 }

-- The loop of csd_bs_list_intersection(). Each round goes one entry on or removes one: the fuel is
-- the number of entries left.
unfoldable pub intersects : (fuel i : ℕ) (dest other : CsdBsList) → CsdBsList
unfolding csd_bs_list_has_bs csd_bs_list_remove
intersects zero i dest other = dest
intersects (suc fuel) i dest other =
    if not (ltb i dest.count) then dest else elim (csd_bs_list_has_bs other (dest.bs i)) [
      | true ↦ intersects fuel (suc i) dest other
      | false ↦ intersects fuel i (csd_bs_list_remove dest (dest.bs i)) other
    ]

unfoldable pub csd_bs_list_intersection : (dest other : CsdBsList) → CsdBsList
unfolding intersects
csd_bs_list_intersection dest other =
    let dest' = csd_bs_list_clamp dest in intersects dest'.count 0 dest' other

-- ===== src/Csd/BearerService.antt =====
-- libmsc/csd_bs.c: the bearer services of 3GPP TS 22.002 and their table.
use osmo_msc.Base.{ℕ, ◌+◌, Bool, true, false, ◌&&◌, ltb, if◌then◌else◌}

-- enum csd_bs. A C enum may hold a value without a name: `bs_other n` is CSD_BS_MAX + 1 + n.
pub data CsdBs : Type 0 where
  bs_none : CsdBs
  bs_21_t_v110_0k3 bs_22_t_v110_1k2 bs_24_t_v110_2k4 bs_25_t_v110_4k8 bs_26_t_v110_9k6 : CsdBs
  bs_21_nt_v110_0k3 bs_22_nt_v110_1k2 bs_24_nt_v110_2k4 bs_25_nt_v110_4k8 bs_26_nt_v110_9k6 : CsdBs
  bs_31_t_v110_1k2 bs_32_t_v110_2k4 bs_33_t_v110_4k8 bs_34_t_v110_9k6 : CsdBs
  bs_max : CsdBs
  bs_other : ℕ → CsdBs

abbrev pub code : CsdBs → ℕ
code bs_none = 0
code bs_21_t_v110_0k3 = 1
code bs_22_t_v110_1k2 = 2
code bs_24_t_v110_2k4 = 3
code bs_25_t_v110_4k8 = 4
code bs_26_t_v110_9k6 = 5
code bs_21_nt_v110_0k3 = 6
code bs_22_nt_v110_1k2 = 7
code bs_24_nt_v110_2k4 = 8
code bs_25_nt_v110_4k8 = 9
code bs_26_nt_v110_9k6 = 10
code bs_31_t_v110_1k2 = 11
code bs_32_t_v110_2k4 = 12
code bs_33_t_v110_4k8 = 13
code bs_34_t_v110_9k6 = 14
code bs_max = 15
code (bs_other n) = 16 + n

-- CSD_BS_MAX, the number of entries of a list.
abbrev pub csd_bs_max : ℕ
csd_bs_max = code bs_max

abbrev pub csd_bs_valid : CsdBs → Bool
csd_bs_valid bs = ltb (code bs_none) (code bs) && ltb (code bs) csd_bs_max

-- enum gsm48_bcap_ra, the values that this code names; RA_NONE is the value 0.
pub data BcapRa : Type 0 where
  ra_none ra_v110_x30 : BcapRa
  ra_other : ℕ → BcapRa

pub record CsdBsMap : Type 0 where
  pub num : ℕ
  pub async : Bool
  pub transp : Bool
  pub ra : BcapRa
  pub rate : ℕ

v110 : (num : ℕ) (async transp : Bool) (rate : ℕ) → CsdBsMap
v110 num async transp rate = record {
  num = num;
  async = async;
  transp = transp;
  ra = ra_v110_x30;
  rate = rate;
}

-- The table `bs_map`, read at valid services only; the entry of CSD_BS_NONE is all zero.
unfoldable pub bs_map : CsdBs → CsdBsMap
unfolding v110
bs_map bs_21_t_v110_0k3 = v110 21 true true 300
bs_map bs_22_t_v110_1k2 = v110 22 true true 1200
bs_map bs_24_t_v110_2k4 = v110 24 true true 2400
bs_map bs_25_t_v110_4k8 = v110 25 true true 4800
bs_map bs_26_t_v110_9k6 = v110 26 true true 9600
bs_map bs_21_nt_v110_0k3 = v110 21 true false 300
bs_map bs_22_nt_v110_1k2 = v110 22 true false 1200
bs_map bs_24_nt_v110_2k4 = v110 24 true false 2400
bs_map bs_25_nt_v110_4k8 = v110 25 true false 4800
bs_map bs_26_nt_v110_9k6 = v110 26 true false 9600
bs_map bs_31_t_v110_1k2 = v110 31 false true 1200
bs_map bs_32_t_v110_2k4 = v110 32 false true 2400
bs_map bs_33_t_v110_4k8 = v110 33 false true 4800
bs_map bs_34_t_v110_9k6 = v110 34 false true 9600
bs_map _ = record { num = 0; async = false; transp = false; ra = ra_none; rate = 0 }

unfoldable pub csd_bs_is_transp : CsdBs → Bool
unfolding bs_map
csd_bs_is_transp bs = if csd_bs_valid bs then (bs_map bs).transp else false

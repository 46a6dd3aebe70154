-- ===== src/Csd/BearerCap.antt =====
-- libmsc/csd_bs.c: bearer services to and from the bearer capabilities of call control.
pub mod RoundTrip
use osmo_msc.Base.{
  ℕ, zero, suc, ◌==◌, Bool, true, false, ◌&&◌, not, Option, none, some, if◌then◌else◌,
}
use osmo_msc.Csd.BearerService.{
  CsdBs, BcapRa, ra_none, ra_v110_x30, csd_bs_valid, bs_map, bs_none, bs_21_t_v110_0k3,
  bs_22_t_v110_1k2, bs_24_t_v110_2k4, bs_25_t_v110_4k8, bs_26_t_v110_9k6, bs_21_nt_v110_0k3,
  bs_22_nt_v110_1k2, bs_24_nt_v110_2k4, bs_25_nt_v110_4k8, bs_26_nt_v110_9k6, bs_31_t_v110_1k2,
  bs_32_t_v110_2k4, bs_33_t_v110_4k8, bs_34_t_v110_9k6,
}
use osmo_msc.Csd.BsList.{CsdBsList, empty_list, csd_bs_list_n, csd_bs_list_add_bs}

-- enum gsm48_bcap_user_rate, the values that this code names.
pub data UserRate : Type 0 where
  ur_300 ur_1200 ur_2400 ur_4800 ur_9600 : UserRate
  ur_other : ℕ → UserRate

-- enum gsm48_bcap_transp, the values that this code names.
pub data Transp : Type 0 where
  tr_transp tr_rlp tr_tr_pref tr_rlp_pref : Transp
  tr_other : ℕ → Transp

-- enum gsm48_bcap_itcap: GSM48_BCAP_ITCAP_UNR_DIG_INF or another.
pub data Transfer : Type 0 where
  itcap_unr_dig_inf : Transfer
  itcap_other : ℕ → Transfer

-- Of enum gsm48_bcap_sig_access, enum gsm48_bcap_parity and enum gsm48_bcap_modem_type the one
-- value that is written, or another.
pub data SigAccess : Type 0 where
  sa_i440_i450 : SigAccess
  sa_other : ℕ → SigAccess

pub data Parity : Type 0 where
  par_none : Parity
  par_other : ℕ → Parity

pub data ModemType : Type 0 where
  mt_none : ModemType
  mt_other : ℕ → ModemType

-- struct gsm_mncc_bearer_cap, the fields that this code reads and writes.
pub record BearerCap : Type 0 where
  pub transfer : Transfer
  pub rate_adaption : BcapRa
  pub async : Bool
  pub transp : Transp
  pub sig_access : SigAccess
  pub nr_data_bits : ℕ
  pub parity : Parity
  pub nr_stop_bits : ℕ
  pub modem_type : ModemType
  pub user_rate : UserRate
  pub interm_rate : ℕ

async_transp : UserRate → CsdBs
async_transp ur_300 = bs_21_t_v110_0k3
async_transp ur_1200 = bs_22_t_v110_1k2
async_transp ur_2400 = bs_24_t_v110_2k4
async_transp ur_4800 = bs_25_t_v110_4k8
async_transp ur_9600 = bs_26_t_v110_9k6
async_transp (ur_other n) = bs_none

async_non_transp : UserRate → CsdBs
async_non_transp ur_300 = bs_21_nt_v110_0k3
async_non_transp ur_1200 = bs_22_nt_v110_1k2
async_non_transp ur_2400 = bs_24_nt_v110_2k4
async_non_transp ur_4800 = bs_25_nt_v110_4k8
async_non_transp ur_9600 = bs_26_nt_v110_9k6
async_non_transp (ur_other n) = bs_none

sync_transp : UserRate → CsdBs
sync_transp ur_1200 = bs_31_t_v110_1k2
sync_transp ur_2400 = bs_32_t_v110_2k4
sync_transp ur_4800 = bs_33_t_v110_4k8
sync_transp ur_9600 = bs_34_t_v110_9k6
sync_transp _ = bs_none

-- 3.1kHz calls have an intermediate rate and no rate adaptation.
effective_ra : BearerCap → BcapRa
effective_ra cap = elim cap.rate_adaption [
  | ra_none ↦ if not (cap.interm_rate == 0) then ra_v110_x30 else ra_none
  | ra ↦ ra
]

by_mode : BcapRa → (async transp : Bool) → UserRate → CsdBs
unfolding async_transp async_non_transp sync_transp
by_mode ra_v110_x30 true true rate = async_transp rate
by_mode ra_v110_x30 true false rate = async_non_transp rate
by_mode ra_v110_x30 false true rate = sync_transp rate
by_mode _ _ _ _ = bs_none

unfoldable pub csd_bs_from_bearer_cap : BearerCap → Bool → CsdBs
unfolding effective_ra by_mode
csd_bs_from_bearer_cap cap transp = by_mode (effective_ra cap) cap.async transp cap.user_rate

-- The list is reset first.
unfoldable pub csd_bs_list_from_bearer_cap : BearerCap → CsdBsList
unfolding csd_bs_from_bearer_cap csd_bs_list_add_bs
csd_bs_list_from_bearer_cap cap =
    let t = csd_bs_from_bearer_cap cap true in
    let nt = csd_bs_from_bearer_cap cap false in
    elim cap.transp [
      | tr_transp ↦ csd_bs_list_add_bs empty_list t
      | tr_rlp ↦ csd_bs_list_add_bs empty_list nt
      | tr_tr_pref ↦ csd_bs_list_add_bs (csd_bs_list_add_bs empty_list t) nt
      | tr_rlp_pref ↦ csd_bs_list_add_bs (csd_bs_list_add_bs empty_list nt) t
      | tr_other n ↦ empty_list
    ]

-- Over the values of GSM48_BCAP_IR_8k and GSM48_BCAP_IR_16k, which are not in this repository.
module _ (ir_8k ir_16k : ℕ) where
  -- The rates of `switch (bs_map[bs].rate)`, none in the default case.
  user_rates : ℕ → Option (UserRate × ℕ)
  user_rates rate =
      if rate == 300
      then some (ur_300, ir_8k)
      else if rate == 1200
      then some (ur_1200, ir_8k)
      else if rate == 2400
      then some (ur_2400, ir_8k)
      else if rate == 4800
      then some (ur_4800, ir_8k)
      else if rate == 9600
      then some (ur_9600, ir_16k)
      else none

  -- The fields written before the switch.
  write_mode : BearerCap → CsdBs → BearerCap
  write_mode cap b = record cap {
    rate_adaption = elim cap.transfer [ itcap_unr_dig_inf ↦ ra_v110_x30 | itcap_other n ↦ ra_none ];
    async = (bs_map b).async;
    transp = if (bs_map b).transp then tr_transp else tr_rlp;
    sig_access = sa_i440_i450;
    nr_data_bits = 8;
    parity = par_none;
    nr_stop_bits = 1;
    modem_type = mt_none;
  }

  -- One round of the loop: the capabilities, and whether the function returns 1.
  unfoldable pub write_bs : BearerCap → CsdBs → BearerCap × Bool
  unfolding user_rates write_mode bs_map
  write_bs cap b =
      if not (csd_bs_valid b) then (cap, false) else elim (user_rates (bs_map b).rate) [
        | none ↦ (write_mode cap b, false)
        | some (ur, ir) ↦ (record (write_mode cap b) { user_rate = ur; interm_rate = ir }, true)
      ]

  unfoldable pub write_first : (k i : ℕ) → (ℕ → CsdBs) → BearerCap → BearerCap × Bool
  write_first zero i a cap = (cap, false)
  write_first (suc k) i a cap =
      let (cap', done) = write_bs cap (a i) in
      elim done [ true ↦ (cap', true) | false ↦ write_first k (suc i) a cap' ]

  -- Whether 1 is returned, not 0.
  unfoldable pub csd_bs_list_to_bearer_cap : BearerCap → CsdBsList → BearerCap × Bool
  csd_bs_list_to_bearer_cap cap list = write_first (csd_bs_list_n list) 0 list.bs cap

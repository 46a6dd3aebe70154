-- ===== src/Vlr/AccessRequest/Tests.antt =====
-- Access requests at concrete inputs.
use osmo_msc.Base.{refl, true, false, some, none, List, [], ◌∷◌, pos}
use osmo_msc.Fsm.{OsmoFsm, masked}
use osmo_msc.Vlr.Subscr.{Subscr, no_tuple, sec_none, sec_gsm}
use osmo_msc.Vlr.AccessRequest.{
  State, Kind, Event, auth_res, auth_failure, ciph_res, ciph_compl, ArqSubscr, ArqFsm, Env, Config,
  unlinked, cm_serv_req, cmserv_other, mi_imsi, new_instance, proc_acc_req,
}
use osmo_msc.Vlr.AccessRequest.Security.{run}
use osmo_msc.Vlr.AccessRequest.Invariant.{Goes}
use osmo_msc.Vlr.AccessRequest.Unanswered.{Granted, run-auth_failure}

abbrev core : OsmoFsm State Kind
core = masked State Kind

abbrev auth : Subscr
auth = record { imsi = 1 ∷ []; auth_tuples = λ _. no_tuple; last_tuple = none; sec_ctx = sec_none }

abbrev subscr : ArqSubscr
subscr = record {
  auth = auth;
  proc_arq_fsm = unlinked;
  imsi_detached_flag = true;
  conf_by_radio_contact_ind = false;
  sub_dataconf_by_hlr_ind = true;
  loc_conf_in_hlr_ind = true;
  ms_not_reachable_flag = false;
}

-- The authentication leaves a GSM security context.
abbrev env : Env
env = record {
  others = λ v. record v { auth = record (v.auth) { sec_ctx = sec_gsm } };
  found = some subscr;
  assoc_ok = true;
  ciph_ok = true;
  serv_acc_ok = true;
}

abbrev cfg : Config
cfg = record {
  auth_tuple_max_reuse_count = pos 0;
  parq_retrieve_imsi = false;
  retrieve_imeisv_ciphered = true;
}

abbrev request : ArqFsm
unfolding new_instance
request = new_instance cfg 1 2 cm_serv_req (cmserv_other 1) true true true false 7

abbrev history : List (Env × Event)
history = (env, auth_res) ∷ (env, ciph_res (some ciph_compl)) ∷ []

run-auth_failure_example :
    Goes
      (Granted request)
      (run core (proc_acc_req core env mi_imsi request) ((env, auth_failure (some none)) ∷ []))
unfolding new_instance
run-auth_failure_example =
    run-auth_failure core env env mi_imsi request subscr refl (refl, refl, refl, λ _. refl) refl
      refl refl refl

-- ===== src/Fsm.antt =====
-- What libosmocore's FSM core (osmo_fsm_inst_state_chg(), osmo_fsm_inst_dispatch()) does with the
-- masks of a state table. The core is not part of this repository: it is a parameter of the models
-- of the state machines, with its documented behaviour as laws.
use mathlib.Core.Bool.{Bool-set}
use mathlib.Core.HLevel.{is_prop→PathP, Π_prop}
use osmo_msc.Base.{◌≡◌, refl, sym, subst, fun_ext, Bool}

-- `in_event_mask` and `out_state_mask` of a table of states, as functions.
abbrev pub InMask : Type 0 → Type 0 → Type 0
InMask S E = S → E → Bool

abbrev pub OutMask : Type 0 → Type 0
OutMask S = S → S → Bool

pub record OsmoFsm (S E : Type 0) : Type 0 where
  -- Whether a state change goes ahead, and whether an event reaches the state's action.
  pub state_chg : OutMask S → S → S → Bool
  pub dispatch : InMask S E → S → E → Bool
  -- A change goes ahead exactly if the current state's out_state_mask names the new state, and an
  -- event is handled exactly if the current state's in_event_mask names it.
  pub state_chg_by_mask : (m : OutMask S) (s t : S) → state_chg m s t ≡ m s t
  pub dispatch_by_mask : (m : InMask S E) (s : S) (e : E) → dispatch m s e ≡ m s e

-- The two functions are what the masks say.
module _ {S E : Type 0} (core : OsmoFsm S E) where
  pub state_chg_eq : core.state_chg ≡ λ m s t. m s t
  state_chg_eq = fun_ext λ m. fun_ext λ s. fun_ext λ t. core.state_chg_by_mask m s t

  pub dispatch_eq : core.dispatch ≡ λ m s e. m s e
  dispatch_eq = fun_ext λ m. fun_ext λ s. fun_ext λ e. core.dispatch_by_mask m s e

-- A core that behaves as documented.
unfoldable pub masked : (S E : Type 0) → OsmoFsm S E
masked S E = record {
  state_chg = λ m s t. m s t;
  dispatch = λ m s e. m s e;
  state_chg_by_mask = λ m s t. refl;
  dispatch_by_mask = λ m s e. refl;
}

module _ {S E : Type 0} where
  laws_prop :
      (f g : (S → E → Bool) → S → E → Bool)
      → IsProp ((m : S → E → Bool) (s : S) (e : E) → f m s e ≡ g m s e)
  laws_prop f g = Π_prop λ m. Π_prop λ s. Π_prop λ e. Bool-set (f m s e) (g m s e)

-- The documented behaviour determines the core.
masked-eq : {S E : Type 0} (core : OsmoFsm S E) → masked S E ≡ core
unfolding masked
masked-eq {S} {E} core = λ i. record {
  state_chg = sym (state_chg_eq core) i;
  dispatch = sym (dispatch_eq core) i;
  state_chg_by_mask =
      is_prop→PathP (λ j. (m : OutMask S) (s t : S) → sym (state_chg_eq core) j m s t ≡ m s t)
        (λ j. laws_prop (sym (state_chg_eq core) j) (λ m s t. m s t)) (λ m s t. refl)
        core.state_chg_by_mask i;
  dispatch_by_mask =
      is_prop→PathP (λ j. (m : InMask S E) (s : S) (e : E) → sym (dispatch_eq core) j m s e ≡ m s e)
        (λ j. laws_prop (sym (dispatch_eq core) j) (λ m s e. m s e)) (λ m s e. refl)
        core.dispatch_by_mask i;
}

-- So what holds over `masked`, where it can be computed, holds over every core.
pub for_every_core {ℓ} :
    {S E : Type 0} (P : OsmoFsm S E → Type ℓ) → P (masked S E) → (core : OsmoFsm S E) → P core
for_every_core P p core = subst P (masked-eq core) p

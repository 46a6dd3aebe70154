-- ===== src/Csd/Filter/Members.antt =====
-- libmsc/csd_filter.c: which bearer services the filter lets pass.
use osmo_msc.Base.{
  ◌≡◌, refl, ap, ◌∙◌, Bool, true, false, ◌&&◌, not, List, [], ◌∷◌, if◌then◌else◌, arith, Bool-cases,
  inl, inr,
}
use osmo_msc.Csd.BearerService.{CsdBs, code, csd_bs_valid, csd_bs_is_transp}
use osmo_msc.Csd.BsList.{CsdBsList, bs_eq, empty_list, csd_bs_list_is_sane}
use osmo_msc.Csd.BsList.Entries.{entries, member}
use osmo_msc.Csd.BsList.Add.{entries-csd_bs_list_add_bs}
use osmo_msc.Csd.BsList.Intersect.{common, entries-csd_bs_list_intersection}
use osmo_msc.Csd.Filter.{
  CsdFilter, RatType, geran_a, utran_iu, rat_other, csd_filter_set_ran, csd_filter_run, restrict,
  is_assigned,
}

member-cong : (x y : CsdBs) (zs : List CsdBs) → code x ≡ code y → member x zs ≡ member y zs
member-cong x y [] h = refl
member-cong x y (z ∷ zs) h = rw (h, member-cong x y zs h) refl

and_false : (t : Bool) → (t && false) ≡ false
and_false t = ground arith

member-common :
    (b : CsdBs) (xs ys : List CsdBs) → member b (common xs ys) ≡ (member b xs && member b ys)
member-common b [] ys = refl
member-common b (x ∷ xs) ys =
    let ih = member-common b xs ys in
    elim (Bool-cases (bs_eq x b)) [
      | inl e ↦
          let same = member-cong x b ys (ground (arith, e)) in
          elim (Bool-cases (member b ys)) [
            | inl m ↦ rw (same, m, e) refl
            | inr m ↦ rw (same, m, e) (ih ∙ ap (λ t. member b xs && t) m ∙ and_false (member b xs))
          ]
      | inr e ↦ elim (Bool-cases (member x ys)) [ inl m ↦ rw (m, e) ih | inr m ↦ rw (m, e) ih ]
    ]

-- A list that says nothing restricts nothing.
abbrev pub allows : CsdBsList → CsdBs → Bool
allows l b = if csd_bs_list_is_sane l then member b (entries l) else true

restrict-member :
    (r other : CsdBsList) (b : CsdBs)
    → member b (entries (restrict r other)) ≡ (member b (entries r) && allows other b)
unfolding restrict
restrict-member r other b = elim (Bool-cases (csd_bs_list_is_sane other)) [
  | inl e ↦ rw e (
      ap (member b) (entries-csd_bs_list_intersection r other).1
      ∙ member-common b (entries r) (entries other))
  | inr e ↦ rw e (ground arith)
]

abbrev pub passes : CsdFilter → (remote : CsdBsList) → CsdBs → Bool
passes f remote b =
    if is_assigned f.assignment
    then csd_bs_valid f.assignment && bs_eq f.assignment b
    else ((member b (entries f.ran) && allows f.ms b) && allows f.bss b) && allows remote b

-- After csd_filter_run() a service is in the result exactly if it is the assigned one, where one is
-- assigned, and otherwise if the RAN has it and no list of the phone, of the cell or of the remote
-- side that says something lacks it; a value that is assigned without being a service leaves the
-- result empty.
pub member-csd_filter_run :
    (f : CsdFilter) (remote : CsdBsList) (b : CsdBs)
    → member b (entries (csd_filter_run f remote)) ≡ passes f remote b
unfolding csd_filter_run
member-csd_filter_run f remote b = elim (Bool-cases (is_assigned f.assignment)) [
  | inl e ↦ rw e (ap (member b) (entries-csd_bs_list_add_bs empty_list f.assignment) ∙ ground arith)
  | inr e ↦
      rw
        (
          e,
          restrict-member (restrict (restrict f.ran f.ms) f.bss) remote b,
          restrict-member (restrict f.ran f.ms) f.bss b,
          restrict-member f.ran f.ms b,
        )
        refl
]

-- The services of a RAN type: over Iu the valid non-transparent ones, otherwise all valid ones.
abbrev pub of_ran : RatType → CsdBs → Bool
of_ran utran_iu b = csd_bs_valid b && not (csd_bs_is_transp b)
of_ran _ b = csd_bs_valid b

-- csd_filter_set_ran() fills in exactly the services of the RAN type.
pub member-csd_filter_set_ran :
    (f : CsdFilter) (rat : RatType) (b : CsdBs)
    → member b (entries (csd_filter_set_ran f rat).ran) ≡ of_ran rat b
unfolding csd_filter_set_ran csd_bs_is_transp
member-csd_filter_set_ran f geran_a b = ground arith
member-csd_filter_set_ran f utran_iu b = ground arith
member-csd_filter_set_ran f rat_other b = ground arith

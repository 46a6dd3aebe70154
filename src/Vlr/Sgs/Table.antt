-- ===== src/Vlr/Sgs/Table.antt =====
-- libvlr/vlr_sgs.c: the subscribers of a VLR together, with the counter of pages in flight that
-- they share.
use osmo_msc.Base.{
  ℕ, zero, suc, ◌+◌, ◌≡◌, refl, ap, Bool, Option, List, [], ◌∷◌, ◌++◌, if_elim, if◌then◌else◌,
  arith,
}
use osmo_msc.Fsm.{OsmoFsm, for_every_core}
use osmo_msc.Vlr.Sgs.Types.{State, Event, Lai, rx_reset_from_mme, Env, Vsub}
use osmo_msc.Vlr.Sgs.Association.{dispatch}
use osmo_msc.Vlr.Sgs.Same.{core}
use osmo_msc.Vlr.Sgs.Invariant.{count_of, Inv}
use osmo_msc.Vlr.Sgs.Events.{dispatch-Inv}
use osmo_msc.Vlr.Sgs.Runs.{Input, step, step-Inv}
use osmo_msc.Vlr.Sgs.{Vlr, on_subscr, of_mme, vlr_sgs_reset_mme, vlr_subscr_alloc, sgs_restore_one}

-- How many subscribers are being paged: those with a pending Ts5.
abbrev pub pages : List Vsub → ℕ
pages [] = 0
pages (v ∷ vs) = count_of v.ts5_pending + pages vs

-- Every subscriber satisfies the invariant, in some count of the others' pages.
pub data AllHold : List Vsub → Type 0 where
  all_nil : AllHold []
  all_cons : {v : Vsub} {vs : List Vsub} (rest : ℕ) → Inv rest v → AllHold vs → AllHold (v ∷ vs)

-- The counter counts the pages of the subscribers, and `extra` others.
pub record Counts (extra : ℕ) (vlr : Vlr) : Type 0 where
  pub each : AllHold vlr.subscribers
  pub counted : vlr.pag_inflight ≡ extra + pages vlr.subscribers

recounted :
    (r n m : ℕ) (v : Vsub)
    → Inv r v
    → m ≡ n + count_of v.ts5_pending
    → Inv n (record v { inflight = m })
recounted r n m v i h = record {
  balanced = record {
    sound = i.balanced.sound;
    paging = i.balanced.paging;
    attached = i.balanced.attached;
    counted = ground (arith, h, i.balanced.paging);
  };
  settled = i.settled;
}

recount : (n : ℕ) (v : Vsub) → Inv n v → v.inflight ≡ n + count_of v.ts5_pending
recount n v i = ground (arith, i.balanced.counted, i.balanced.paging)

-- An operation that keeps the invariant of any subscriber keeps the count.
on_subscr-Counts :
    (f : Vsub → Vsub)
    → ((rest : ℕ) (v : Vsub) → Inv rest v → Inv rest (f v))
    → (vs : List Vsub) (i extra n : ℕ) → AllHold vs
    → n ≡ extra + pages vs
    → Counts extra (on_subscr f vs i n)
unfolding on_subscr
on_subscr-Counts f k [] i extra n a h = record { each = a; counted = h }
on_subscr-Counts f k (v ∷ vs) zero extra n (all_cons r j a) h =
    let c : Inv (extra + pages vs) (f (record v { inflight = n })) =
      k (extra + pages vs) _ (recounted r (extra + pages vs) n v j (ground (arith, h))) in
    record {
      each = all_cons (extra + pages vs) c a;
      counted = ground (arith, recount (extra + pages vs) (f (record v { inflight = n })) c);
    }
on_subscr-Counts f k (v ∷ vs) (suc i) extra n (all_cons r j a) h =
    let c : Counts (extra + count_of v.ts5_pending) (on_subscr f vs i n) =
      on_subscr-Counts f k vs i (extra + count_of v.ts5_pending) n a (ground (arith, h)) in
    record { each = all_cons r j c.each; counted = ground (arith, c.counted) }

reset_one :
    (env : Env) (b : Bool) (rest : ℕ) (w : Vsub)
    → Inv rest w
    → Inv rest (if b then dispatch core env w rx_reset_from_mme else w)
reset_one env b rest w i =
    if_elim (Inv rest) b (λ e. dispatch-Inv rest env w rx_reset_from_mme i) (λ e. i)

vlr_sgs_reset_mme-Counts :
    (env : Env) (vs : List Vsub) (name : Option ℕ) (extra n : ℕ)
    → AllHold vs
    → n ≡ extra + pages vs
    → Counts extra (vlr_sgs_reset_mme core env vs n name)
unfolding vlr_sgs_reset_mme
vlr_sgs_reset_mme-Counts env [] name extra n a h = record { each = a; counted = h }
vlr_sgs_reset_mme-Counts env (v ∷ vs) name extra n (all_cons r j a) h =
    let w : Vsub = record v { inflight = n } in
    let v' : Vsub = if of_mme name v.mme_name then dispatch core env w rx_reset_from_mme else w in
    let c : Inv (extra + pages vs) v' =
      reset_one env (of_mme name v.mme_name) (extra + pages vs) w
        (recounted r (extra + pages vs) n v j (ground (arith, h))) in
    let e : v'.inflight ≡ extra + pages vs + count_of v'.ts5_pending =
      recount (extra + pages vs) v' c in
    let t : Counts (extra + count_of v'.ts5_pending)
        (vlr_sgs_reset_mme core env vs v'.inflight name) =
      vlr_sgs_reset_mme-Counts env vs name (extra + count_of v'.ts5_pending) v'.inflight a
        (ground (arith, e)) in
    record { each = all_cons (extra + pages vs) c t.each; counted = ground (arith, t.counted) }

-- What happens to the VLR: a subscriber appears, or is restored from the database, something happens to one of them, or the
-- associations of one MME, or of all, are reset.
pub data Act : Type 0 where
  created : Act
  restored : ℕ → Lai → (tmsi last_eutran_plmn : Option ℕ) (expire_lu : ℕ) → Act
  at : ℕ → Input → Act
  reset : Option ℕ → Act

abbrev pub act : OsmoFsm State Event → Env → Act → Vlr → Vlr
act fsm env created vlr = record vlr {
  subscribers = vlr.subscribers ++ (vlr_subscr_alloc env ∷ []);
}
act fsm env (restored n lai tmsi plmn expire_lu) vlr = record vlr {
  subscribers = vlr.subscribers ++ (sgs_restore_one env n lai tmsi plmn expire_lu ∷ []);
}
act fsm env (at i x) vlr = on_subscr (step fsm env x) vlr.subscribers i vlr.pag_inflight
act fsm env (reset name) vlr = vlr_sgs_reset_mme fsm env vlr.subscribers vlr.pag_inflight name

abbrev pub empty : Vlr
empty = record { subscribers = []; pag_inflight = 0 }

-- The last act first.
abbrev pub run : OsmoFsm State Event → List (Env × Act) → Vlr
run fsm [] = empty
run fsm ((env, a) ∷ acts) = act fsm env a (run fsm acts)

alloc-Inv : (env : Env) → Inv 0 (vlr_subscr_alloc env)
unfolding vlr_subscr_alloc
alloc-Inv env = record {
  balanced = record { sound = refl; paging = refl; attached = refl; counted = refl };
  settled = refl;
}

restored-Inv :
    (env : Env) (n : ℕ) (lai : Lai) (t p : Option ℕ) (x : ℕ)
    → Inv 0 (sgs_restore_one env n lai t p x)
unfolding sgs_restore_one vlr_subscr_alloc
restored-Inv env n lai t p x = record {
  balanced = record { sound = refl; paging = refl; attached = refl; counted = refl };
  settled = refl;
}

-- A new subscriber is not paged.
added-Counts :
    (w : Vsub) (vlr : Vlr)
    → Inv 0 w
    → count_of w.ts5_pending ≡ 0
    → Counts 0 vlr
    → Counts 0 (record vlr { subscribers = vlr.subscribers ++ (w ∷ []) })
added-Counts w vlr i n c = record {
  each = each_of vlr.subscribers c.each;
  counted = ground (arith, c.counted, pages_of vlr.subscribers);
}
  where
    each_of : (vs : List Vsub) → AllHold vs → AllHold (vs ++ (w ∷ []))
    each_of [] a = all_cons 0 i all_nil
    each_of (v ∷ vs) (all_cons r j a) = all_cons r j (each_of vs a)

    pages_of : (vs : List Vsub) → pages (vs ++ (w ∷ [])) ≡ pages vs
    pages_of [] = ground (arith, n)
    pages_of (v ∷ vs) = ap (λ m. count_of v.ts5_pending + m) (pages_of vs)

act-Counts : (env : Env) (a : Act) (vlr : Vlr) → Counts 0 vlr → Counts 0 (act core env a vlr)
act-Counts env created vlr c =
    added-Counts (vlr_subscr_alloc env) vlr (alloc-Inv env) (unfold vlr_subscr_alloc in refl) c
act-Counts env (restored n lai t p x) vlr c =
    added-Counts (sgs_restore_one env n lai t p x) vlr (restored-Inv env n lai t p x)
      (unfold sgs_restore_one vlr_subscr_alloc in refl) c
act-Counts env (at i x) vlr c =
    on_subscr-Counts (step core env x) (λ rest v j. step-Inv rest env x v j) vlr.subscribers i 0
      vlr.pag_inflight c.each c.counted
act-Counts env (reset name) vlr c =
    vlr_sgs_reset_mme-Counts env vlr.subscribers name 0 vlr.pag_inflight c.each c.counted

run-Counts : (acts : List (Env × Act)) → Counts 0 (run core acts)
run-Counts [] = record { each = all_nil; counted = refl }
run-Counts ((env, a) ∷ acts) = act-Counts env a (run core acts) (run-Counts acts)

-- Whatever happens to a VLR that starts without subscribers, in any order, with whatever other
-- machines write to its subscribers and with those restored from the database: the counter of pages
-- in flight is the number of subscribers with a pending Ts5. And for each of them: no assertion fails
-- and no use is put that nobody holds; it has one VSUB_USE_SGS_PAGING_REQ while Ts5 is pending and
-- none otherwise, and one VSUB_USE_ATTACHED exactly while its location update is complete; Ts6-2 only runs in SGs-ASSOCIATED, which is confirmed by radio contact.
pub pages-Counts : (fsm : OsmoFsm State Event) (acts : List (Env × Act)) → Counts 0 (run fsm acts)
pages-Counts fsm acts = for_every_core (λ c. Counts 0 (run c acts)) (run-Counts acts) fsm

-- ===== src/Renewal/Toggle.antt =====
-- After `toggle_auto_apply_licenses`, the plan that was asked for is the only one of its agreement
-- whose licenses are applied automatically.
use license_manager.Base.{
  ℕ, ◌+◌, ◌≡◌, refl, Bool, true, false, some, none, List, [], ◌∷◌, All, arith, count, length,
  select, select-All, length-select, ◌==◌, if◌then◌else◌, Option, is_some, Bool-cases, Option-cases,
  inl, inr, ◌∙◌,
}
use license_manager.Base.Table.{
  find, upsert, key-find, count-upsert, find-upsert_ne, find-upsert_self,
}
use license_manager.Base.Table.Keys.{
  DistinctKeys, IsLoaded, IsLoaded-saved, select-IsLoaded, select-DistinctKeys, count-IsLoaded,
}
use license_manager.Models.{Plan, plan_keyed}
use license_manager.Store.{World, ok, save_plan, get_plan}
use license_manager.Renewal.{turn_off_each, turn_on, toggle_auto_apply_licenses, auto_applied_in}

-- The world with other plan rows.
abbrev pub with_plans : List Plan → World → World
with_plans plans w = record w { db = record w.db { plans = plans } }

abbrev off : Plan → Plan
off p = record p { should_auto_apply_licenses = some false }

-- A row without the flag.
abbrev pub unflagged : Option Plan → Option Plan
unflagged none = none
unflagged (some p) = some (off p)

unflagged_saved :
    (p : Plan) (u : ℕ) (plans : List Plan)
    → IsLoaded plans p
    → unflagged (find u (upsert (off p) plans)) ≡ unflagged (find u plans)
unflagged_saved p u plans loaded = elim (Bool-cases (p.uuid == u)) [
  | inl here ↦ ground (arith, find-upsert_self (off p) plans)
  | inr other ↦ ground (arith, find-upsert_ne (off p) u plans)
]

turned_off : List Plan → List Plan → List Plan
turned_off [] plans = plans
turned_off (p ∷ rest) plans = turned_off rest (upsert (off p) plans)

module _ (agreement : ℕ) where
  record IsTurnedOff (ls plans after : List Plan) : Type 0 where
    left :
        count (auto_applied_in agreement) after + length ls
        ≡ count (auto_applied_in agreement) plans
    alike : (u : ℕ) → unflagged (find u after) ≡ unflagged (find u plans)

  turn_off_each_lem :
      (ls : List Plan) (w : World)
      → All (IsLoaded w.plans) ls
      → DistinctKeys ls
      → All (λ p. auto_applied_in agreement p ≡ true) ls
      → (turn_off_each ls w ≡ (ok tt, with_plans (turned_off ls w.plans) w))
        × IsTurnedOff ls w.plans (turned_off ls w.plans)
  unfolding turn_off_each turned_off save_plan
  turn_off_each_lem [] w loaded distinct ours =
      (refl, record { left = omega arith; alike = λ u. refl })
  turn_off_each_lem (l ∷ ls) w loaded distinct ours =
      let w' = with_plans (upsert (off l) w.plans) w in
      let (run, rest) =
        turn_off_each_lem ls w' (IsLoaded-saved (off l) w.plans ls distinct.0 loaded.1) distinct.1
          ours.1 in
      (
        run,
        record {
          left = ground (
            arith,
            rest.left,
            count-upsert (auto_applied_in agreement) (off l) l w.plans loaded.0,
          );
          alike = λ u. rest.alike u ∙ unflagged_saved l u w.plans loaded.0;
        },
      )

  -- The plan that is to be the only one, if there is one, is a plan of the agreement.
  abbrev pub IsTarget : List Plan → Option ℕ → Type 0
  IsTarget plans none = Unit
  IsTarget plans (some u) =
      (p : Plan) × (find u plans ≡ some p) × (p.customer_agreement ≡ agreement)

  abbrev pub is_chosen : Option ℕ → List Plan → Bool
  is_chosen none plans = true
  is_chosen (some u) plans = elim (find u plans) [
    | none ↦ false
    | some p ↦ auto_applied_in agreement p
  ]

  -- Only the target applies its licenses automatically, and every plan is as before but for the flag.
  pub record IsToggled (target : Option ℕ) (plans after : List Plan) : Type 0 where
    pub number : count (auto_applied_in agreement) after ≡ (if is_some target then 1 else 0)
    pub chosen : is_chosen target after ≡ true
    pub alike : (u : ℕ) → unflagged (find u after) ≡ unflagged (find u plans)

  chosen_row :
      (u : ℕ) (p q : Plan) (plans rows : List Plan)
      → find u rows ≡ some q
      → find u plans ≡ some p
      → p.customer_agreement ≡ agreement
      → unflagged (find u rows) ≡ unflagged (find u plans)
      → (q.uuid ≡ u) × (q.customer_agreement ≡ agreement) × IsLoaded rows q
  chosen_row u p q plans rows there here ours alike =
      let key = key-find u rows there in
      let like : some (off q) ≡ some (off p) = rw there at rw here at alike in
      (key, ground (arith, like), ground (arith, key, there))

  -- Where no two plans share a uuid, switching to a plan of the agreement, or to none: the call
  -- succeeds and changes no table but the plans. Afterwards the target is the only plan of the
  -- agreement whose licenses are applied automatically, none is where there is no target, and every
  -- plan is as before but for that flag.
  pub toggle_auto_apply_licenses_whole :
      (target : Option ℕ) (w : World)
      → DistinctKeys w.plans
      → IsTarget w.plans target
      → (after : List Plan) × (toggle_auto_apply_licenses agreement target w
          ≡ (ok tt, with_plans after w))
        × IsToggled target w.plans after
  unfolding toggle_auto_apply_licenses turn_on get_plan save_plan
  toggle_auto_apply_licenses_whole none w keys target =
      let ls = select (auto_applied_in agreement) w.plans in
      let (run, done) =
        turn_off_each_lem ls w (select-IsLoaded (auto_applied_in agreement) w.plans keys)
          (select-DistinctKeys (auto_applied_in agreement) w.plans keys)
          (select-All (auto_applied_in agreement) w.plans) in
      (
        turned_off ls w.plans,
        ground (arith, run),
        record {
          number = omega (arith, done.left, length-select (auto_applied_in agreement) w.plans);
          chosen = refl;
          alike = done.alike;
        },
      )
  toggle_auto_apply_licenses_whole (some u) w keys (p, here, ours) =
      let ls = select (auto_applied_in agreement) w.plans in
      let (run, done) =
        turn_off_each_lem ls w (select-IsLoaded (auto_applied_in agreement) w.plans keys)
          (select-DistinctKeys (auto_applied_in agreement) w.plans keys)
          (select-All (auto_applied_in agreement) w.plans) in
      let size = length-select (auto_applied_in agreement) w.plans in
      let rows = turned_off ls w.plans in
      let alike = done.alike in
      elim (Option-cases (find u rows)) [
        | inl gone ↦ ground (arith, alike u)
        | inr (q, there) ↦
            let (key, its, same_row) = chosen_row u p q w.plans rows there here ours (alike u) in
            let on = record q { should_auto_apply_licenses = some true } in
            (
              upsert on rows,
              ground (arith, run, there),
              record {
                number = ground (
                  arith,
                  done.left,
                  count-IsLoaded (auto_applied_in agreement) u rows {a = q},
                  count-upsert (auto_applied_in agreement) on q rows same_row,
                );
                chosen = ground (arith, find-upsert_self on rows);
                alike = λ v. elim (Bool-cases (q.uuid == v)) [
                  | inl same ↦ ground (arith, find-upsert_self on rows, alike v)
                  | inr other ↦ ground (arith, find-upsert_ne on v rows, alike v)
                ];
              },
            )
      ]

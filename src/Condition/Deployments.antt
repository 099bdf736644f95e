-- ===== src/Condition/Deployments.antt =====
-- operator/internal/condition/condition.go: UpdateComponentStatuses, which turns the deployments of
-- a custom resource into its conditions.
use text.Mathlib.TextLemmas.{cons-append, nil-append}
use mathlib.Core.List.{append-nil, append_assoc}
use konflux_ci.Prelude.{
  ℕ, String, code, Bool, true, false, not, List, [], ◌∷◌, ◌++◌, ◌≡◌, ◌≢◌, refl, sym, ap, subst, ◌∙◌,
  ◌&&◌, ◌||◌, some, ok, ◌==◌, string_eq, nat_eq, ◌&◌, join, All, All-map, keep_if-All, all, any,
  keep_if, map, Memᴰ, arith, inl, inr, ◌⊎◌, Bool-cases, if◌then◌else◌, eq_of_beq, beq_refl,
}
use konflux_ci.Condition.Defs.{
  condition_true, condition_false, status_eq, Condition, Accessor, StatusApi, type_ready,
  Deployment, is_deployment_ready, deployment_type, deployment_condition, DeploymentStatusSummary,
  new_summary, cleanup_stale_conditions, set_condition, add_to_summary, set_each_deployment,
  set_deployment_conditions, set_overall_ready_condition, update_component_statuses,
}
use konflux_ci.Condition.Laws.{
  IsStatusApi, stamped, set_condition_lem, All-set_status, ReadyIs, set_ready, ReadyIs-cong,
  find-keep_if,
}

has_slash : String → Bool
has_slash String.[] = false
has_slash (String.◌∷◌ c s) = code c == b'/' || has_slash s

has_slash-append : (s t : String) → has_slash (s & "/" & t) ≡ true
unfolding has_slash
has_slash-append String.[] t = rw (nil-append, cons-append)
has_slash-append (String.◌∷◌ c s) t = rw cons-append (rw (has_slash-append s t) (ground arith))

-- No deployment has the condition type "Ready".
deployment_type-ne-ready : (d : Deployment) → deployment_type d ≢ type_ready
unfolding deployment_type has_slash
deployment_type-ne-ready d e = cc (has_slash-append d.namespace d.name)

-- The loop's summary, in terms of the deployments alone.
record Summary (ds : List Deployment) (s s' : DeploymentStatusSummary) : Type 0 where
  ready : s'.all_ready ≡ (s.all_ready && all is_deployment_ready ds)
  total : s'.total_count ≡ s.total_count
  names :
      s'.not_ready_names
      ≡ s.not_ready_names
        ++ map (λ (d : Deployment). d.name) (keep_if (λ d. not (is_deployment_ready d)) ds)
  seen :
      (t : String)
      → any (λ u. u == t) s'.seen_condition_types
        ≡ (any (λ d. deployment_type d == t) ds || any (λ u. u == t) s.seen_condition_types)

type-deployment_condition : (d : Deployment) → (deployment_condition d).type ≡ deployment_type d
unfolding deployment_condition
type-deployment_condition d = ground arith

status-deployment_condition :
    (d : Deployment)
    → (deployment_condition d).status
      ≡ (if is_deployment_ready d then condition_true else condition_false)
unfolding deployment_condition
status-deployment_condition d = ground arith

kept_if_seen :
    (c : Condition) (seen : List String)
    → any (λ t. t == c.type) seen ≡ true
    → (if c.type == type_ready then true else any (λ t. t == c.type) seen) ≡ true
kept_if_seen c seen e = ground arith

any_of_deployment :
    {d : Deployment} {ds : List Deployment}
    → Memᴰ d ds
    → any (λ x. deployment_type x == deployment_type d) ds ≡ true
any_of_deployment {d} (Memᴰ.head {x = x} e) = rw (← e) (rw (beq_refl (deployment_type d)))
any_of_deployment {d} (Memᴰ.tail {x = x} m) =
    elim (Bool-cases (deployment_type x == deployment_type d)) [
      | inl p ↦ rw p
      | inr p ↦ rw p (any_of_deployment m)
    ]

deployment_of_any :
    (ds : List Deployment) (t : String)
    → any (λ d. deployment_type d == t) ds ≡ true
    → Memᴰ t (map deployment_type ds)
deployment_of_any [] t h = cc
deployment_of_any (d ∷ ds) t h = elim (Bool-cases (deployment_type d == t)) [
  | inl p ↦ Memᴰ.head (sym (eq_of_beq p))
  | inr p ↦ Memᴰ.tail (deployment_of_any ds t (rw p at h))
]

module _ (s : DeploymentStatusSummary) (d : Deployment) where
  ready-add : (add_to_summary s d).all_ready ≡ (s.all_ready && is_deployment_ready d)
  unfolding add_to_summary
  ready-add = ground arith

  total-add : (add_to_summary s d).total_count ≡ s.total_count
  unfolding add_to_summary
  total-add = ground arith

  names-add :
      (add_to_summary s d).not_ready_names
      ≡ s.not_ready_names ++ (if is_deployment_ready d then [] else d.name ∷ [])
  unfolding add_to_summary
  names-add = elim (Bool-cases (is_deployment_ready d)) [
    | inl p ↦ rw p (sym (append-nil s.not_ready_names))
    | inr p ↦ rw p
  ]

  seen-add : (add_to_summary s d).seen_condition_types ≡ deployment_type d ∷ s.seen_condition_types
  unfolding add_to_summary
  seen-add = elim (Bool-cases (is_deployment_ready d)) [
    | inl p ↦ rw p (rw (type-deployment_condition d))
    | inr p ↦ rw p (rw (type-deployment_condition d))
  ]

and_assoc : (a b c : Bool) → ((a && b) && c) ≡ (a && (b && c))
and_assoc a b c = ground arith

names-cons :
    (d : Deployment) (ds : List Deployment)
    → (if is_deployment_ready d then [] else d.name ∷ [])
        ++ map (λ (x : Deployment). x.name) (keep_if (λ x. not (is_deployment_ready x)) ds)
      ≡ map (λ (x : Deployment). x.name) (keep_if (λ x. not (is_deployment_ready x)) (d ∷ ds))
names-cons d ds = elim (Bool-cases (is_deployment_ready d)) [ inl p ↦ rw p | inr p ↦ rw p ]

module _ (api : StatusApi) (law : IsStatusApi api) (now : ℕ) where
  open api use {find_status_condition as find}

  set_each-Summary :
      (obj : Accessor) (s : DeploymentStatusSummary) (ds : List Deployment)
      → Summary ds s (set_each_deployment api now obj s ds).1
  unfolding set_each_deployment
  set_each-Summary obj s [] = record {
    ready = ground arith;
    total = refl;
    names = sym (append-nil s.not_ready_names);
    seen = λ t. refl;
  }
  set_each-Summary obj s (d ∷ ds) =
      let s' = add_to_summary s d in
      let rest = set_each-Summary (set_condition api now obj (deployment_condition d)) s' ds in
      record {
        ready = rest.ready ∙ rw (ready-add s d) (and_assoc s.all_ready (is_deployment_ready d) _);
        total = rest.total ∙ total-add s d;
        names =
            rest.names
            ∙ rw (names-add s d, append_assoc)
                (ap (λ (xs : List String). s.not_ready_names ++ xs) (names-cons d ds));
        seen = λ t. rest.seen t ∙ rw (seen-add s d) (ground arith);
      }

  abbrev each : Accessor → DeploymentStatusSummary → List Deployment → Accessor
  each obj s ds = (set_each_deployment api now obj s ds).0

  generation-each :
      (obj : Accessor) (s : DeploymentStatusSummary) (ds : List Deployment)
      → (each obj s ds).generation ≡ obj.generation
  unfolding set_each_deployment
  generation-each obj s [] = refl
  generation-each obj s (d ∷ ds) =
      generation-each (set_condition api now obj (deployment_condition d)) (add_to_summary s d) ds
      ∙ (set_condition_lem api law now obj (deployment_condition d)).3

  -- The loop leaves a condition alone that is not of one of the deployments.
  find-each_other :
      (obj : Accessor) (s : DeploymentStatusSummary) (ds : List Deployment) (t : String)
      → All (λ d. deployment_type d ≢ t) ds
      → find (each obj s ds).conditions t ≡ find obj.conditions t
  unfolding set_each_deployment
  find-each_other obj s [] t h = refl
  find-each_other obj s (d ∷ ds) t h =
      find-each_other (set_condition api now obj (deployment_condition d)) (add_to_summary s d) ds t
        h.1
      ∙ (set_condition_lem api law now obj (deployment_condition d)).1 t
          (λ e. h.0 (sym (type-deployment_condition d) ∙ e))

  -- No two deployments have the same namespace and name.
  abbrev pub DistinctTypes : List Deployment → Type 0
  DistinctTypes [] = Unit
  DistinctTypes (d ∷ ds) = All (λ x. deployment_type x ≢ deployment_type d) ds × DistinctTypes ds

  -- The condition of a deployment: True exactly if it is ready.
  pub record Reports (cr cr' : Accessor) (d : Deployment) : Type 0 where
    pub condition : Condition
    pub found : find cr'.conditions (deployment_type d) ≡ some condition
    pub status :
        condition.status ≡ (if is_deployment_ready d then condition_true else condition_false)
    pub generation : condition.observed_generation ≡ cr.generation

  each-Reports :
      (obj : Accessor) (s : DeploymentStatusSummary) (ds : List Deployment) {d : Deployment}
      → DistinctTypes ds
      → Memᴰ d ds
      → Reports obj (each obj s ds) d
  unfolding set_each_deployment
  each-Reports obj s [] distinct m = elim m [ ]
  each-Reports obj s (x ∷ ds) {d} distinct (Memᴰ.head e) =
      let set = set_condition_lem api law now obj (deployment_condition x) in
      let p = type-deployment_condition x in
      let given = deployment_condition x in
      let placed =
        stamped now (find obj.conditions given.type)
          (record given { observed_generation = obj.generation }) in
      subst (Reports obj (each obj s (x ∷ ds))) (sym e) (record {
        condition = placed;
        found =
            find-each_other _ _ ds (deployment_type x) distinct.0
            ∙ subst
                (λ t.
                  find (set_condition api now obj (deployment_condition x)).conditions t
                  ≡ some placed)
                p set.0;
        status = status-deployment_condition x;
        generation = refl;
      })
  each-Reports obj s (x ∷ ds) distinct (Memᴰ.tail m) =
      let set = set_condition_lem api law now obj (deployment_condition x) in
      let rest =
        each-Reports (set_condition api now obj (deployment_condition x)) (add_to_summary s x) ds
          distinct.1 m in
      record {
        condition = rest.condition;
        found = rest.found;
        status = rest.status;
        generation = rest.generation ∙ set.3;
      }

  -- What UpdateComponentStatuses makes of the resource, before and after it sets Ready.
  abbrev kept_after : Accessor → List Deployment → Accessor
  kept_after cr ds =
      let (cr', summary) = set_deployment_conditions api now cr ds in
      cleanup_stale_conditions cr' (λ c.
        if c.type == type_ready then true else any (λ t. t == c.type) summary.seen_condition_types)

  abbrev pub names_not_ready : List Deployment → String
  names_not_ready ds =
      join " " (map (λ (d : Deployment). d.name) (keep_if (λ d. not (is_deployment_ready d)) ds))

  overall-ReadyIs :
      (obj : Accessor) (s : DeploymentStatusSummary)
      → ReadyIs api law
          (set_overall_ready_condition api now obj s)
          obj.generation
          s.all_ready
          ("Deployments not ready: [" & join " " s.not_ready_names & "]")
  unfolding set_overall_ready_condition
  overall-ReadyIs obj s = set_ready api law now obj s.all_ready _ _ _ _

  -- After UpdateComponentStatuses, the deployments being listed, Ready is found: True, with the
  -- resource's generation, exactly if every deployment is ready, and otherwise False with a message
  -- that names the deployments that are not ready, in order.
  pub update_component_statuses_ready :
      (ds : List Deployment) (cr : Accessor)
      → (cr' : Accessor) × (update_component_statuses api now (ok ds) cr ≡ ok cr')
        × ReadyIs api law cr' cr.generation
            (all is_deployment_ready ds)
            ("Deployments not ready: [" & names_not_ready ds & "]")
  unfolding update_component_statuses cleanup_stale_conditions set_deployment_conditions
  update_component_statuses_ready ds cr =
      let summary = set_each-Summary cr (new_summary ds) ds in
      (
        _,
        refl,
        ReadyIs-cong api law _ (generation-each cr (new_summary ds) ds) summary.ready
            (ap (λ (names : List String). "Deployments not ready: [" & join " " names & "]")
              summary.names)
            (overall-ReadyIs (kept_after cr ds) _),
      )

  find-overall_ne :
      (obj : Accessor) (s : DeploymentStatusSummary) (t : String)
      → t ≢ type_ready
      → find (set_overall_ready_condition api now obj s).conditions t ≡ find obj.conditions t
  unfolding set_overall_ready_condition
  find-overall_ne obj s t n = elim (Bool-cases s.all_ready) [
    | inl p ↦ rw p ((set_condition_lem api law now obj _).1 t (λ e. n (sym e)))
    | inr p ↦ rw p ((set_condition_lem api law now obj _).1 t (λ e. n (sym e)))
  ]

  -- The conditions of the listed deployments are not stale.
  find-kept :
      (cr : Accessor) (ds : List Deployment) (d : Deployment)
      → Memᴰ d ds
      → find (kept_after cr ds).conditions (deployment_type d)
        ≡ find (set_deployment_conditions api now cr ds).0.conditions (deployment_type d)
  unfolding cleanup_stale_conditions set_deployment_conditions
  find-kept cr ds d m =
      find-keep_if api law _ (set_deployment_conditions api now cr ds).0.conditions
        (deployment_type d)
        λ c e. kept_if_seen c _ (
          (set_each-Summary cr (new_summary ds) ds).seen c.type ∙ (rw e (rw (any_of_deployment m))))

  -- After UpdateComponentStatuses, each listed deployment has its condition, True exactly if it is
  -- ready, with the resource's generation, if no two of them share a namespace and a name.
  pub update_component_statuses_each :
      (ds : List Deployment) (cr : Accessor) (d : Deployment)
      → DistinctTypes ds
      → Memᴰ d ds
      → (cr' : Accessor) × (update_component_statuses api now (ok ds) cr ≡ ok cr')
        × Reports cr cr' d
  unfolding update_component_statuses
  update_component_statuses_each ds cr d distinct m =
      let r = each-Reports cr (new_summary ds) ds distinct m in
      (
        _,
        refl,
        record {
          condition = r.condition;
          found =
              find-overall_ne (kept_after cr ds) _ (deployment_type d) (deployment_type-ne-ready d)
              ∙ find-kept cr ds d m
              ∙ (unfold set_deployment_conditions in r.found);
          status = r.status;
          generation = r.generation;
        },
      )

  abbrev IsExpected : List Deployment → Condition → Type 0
  IsExpected ds c = (c.type ≡ type_ready) ⊎ Memᴰ c.type (map deployment_type ds)

  kept-IsExpected :
      (cr : Accessor) (ds : List Deployment) → All (IsExpected ds) (kept_after cr ds).conditions
  unfolding cleanup_stale_conditions set_deployment_conditions
  kept-IsExpected cr ds =
      All-map _ (λ c kept. expected c kept)
        (keep_if-All _ (set_deployment_conditions api now cr ds).0.conditions)
    where
      expected :
          (c : Condition)
          → (if c.type == type_ready
              then true
              else any
                  (λ t. t == c.type)
                  (set_deployment_conditions api now cr ds).1.seen_condition_types)
            ≡ true
          → IsExpected ds c
      expected c h = elim (Bool-cases (c.type == type_ready)) [
        | inl p ↦ inl (eq_of_beq p)
        | inr p ↦ inr (
            deployment_of_any ds c.type
              (ground (arith, (set_each-Summary cr (new_summary ds) ds).seen c.type)))
      ]

  overall-IsExpected :
      (ds : List Deployment) (obj : Accessor) (s : DeploymentStatusSummary)
      → All (IsExpected ds) obj.conditions
      → All (IsExpected ds) (set_overall_ready_condition api now obj s).conditions
  unfolding set_overall_ready_condition set_condition
  overall-IsExpected ds obj s all = elim (Bool-cases s.all_ready) [
    | inl p ↦
        rw p (All-set_status api law (IsExpected ds) now obj.conditions _ (λ old. inl refl) all)
    | inr p ↦
        rw p (All-set_status api law (IsExpected ds) now obj.conditions _ (λ old. inl refl) all)
  ]

  -- After UpdateComponentStatuses, no condition is left but Ready and those of the listed deployments.
  pub update_component_statuses_only :
      (ds : List Deployment) (cr : Accessor)
      → (cr' : Accessor) × (update_component_statuses api now (ok ds) cr ≡ ok cr')
        × All (λ c. (c.type ≡ type_ready) ⊎ Memᴰ c.type (map deployment_type ds)) cr'.conditions
  unfolding update_component_statuses
  update_component_statuses_only ds cr =
      (_, refl, overall-IsExpected ds (kept_after cr ds) _ (kept-IsExpected cr ds))

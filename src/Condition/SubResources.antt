-- ===== src/Condition/SubResources.antt =====
-- operator/internal/condition/condition.go: what the parent resource makes of its sub-resources.
use text.Mathlib.TextLemmas.{append_assoc}
use text.Mathlib.TextPositions.{starts_with-append}
use konflux_ci.Prelude.{
  ℕ, String, true, false, not, List, [], ◌∷◌, ◌≡◌, ◌≢◌, refl, sym, subst, ◌∙◌, Option, none, some,
  ◌==◌, string_eq, ◌&◌, join, starts_with, All-mem, All, All-map, All-of_mem, all, any, keep_if,
  keep_if-All, map, Memᴰ, arith, inl, inr, ◌⊎◌, Bool-cases, Option-cases, if◌then◌else◌,
  dots_for_slashes, eq_of_beq, beq_refl,
}
use konflux_ci.Condition.Defs.{
  condition_false, status_eq, Condition, new_condition, Accessor, StatusApi, type_ready,
  SubCrStatus, DependencyOverride, aggregate_readiness, prefixed_type, is_current, set_condition,
  is_condition_true, set_aggregated_ready_condition, copy_condition, copy_conditions,
  copy_sub_cr_status, is_explicitly_false, override_ready_if_dependency_false,
}
use konflux_ci.Condition.Laws.{IsStatusApi, set_condition_lem, find-keep_if, ReadyIs, set_ready}

abbrev pub reason_of : SubCrStatus → String
reason_of s = s.name & " is not ready"

abbrev pub reasons_of : List SubCrStatus → List String
reasons_of statuses = map reason_of (keep_if (λ s. not s.ready) statuses)

aggregate_readiness_lem :
    (statuses : List SubCrStatus)
    → aggregate_readiness statuses ≡ (all (λ s. s.ready) statuses, reasons_of statuses)
unfolding aggregate_readiness
aggregate_readiness_lem [] = refl
aggregate_readiness_lem (s ∷ rest) = elim (Bool-cases s.ready) [
  | inl p ↦ rw (p, aggregate_readiness_lem rest)
  | inr p ↦ rw (p, aggregate_readiness_lem rest)
]

prefixed_type-starts :
    (prefix type : String) → starts_with (prefixed_type prefix type) (prefix & ".") ≡ true
unfolding prefixed_type
prefixed_type-starts prefix type =
    rw (← append_assoc prefix "." (dots_for_slashes type))
      (starts_with-append (prefix & ".") (dots_for_slashes type))

module _ (prefix : String) (updated : List String) (c : Condition) where
  current-seen :
      is_current prefix updated c ≡ true
      → starts_with c.type (prefix & ".") ≡ true
      → any (λ u. u == c.type) updated ≡ true
  unfolding is_current
  current-seen h k = elim (Bool-cases (any (λ u. u == c.type) updated)) [
    | inl p ↦ p
    | inr p ↦ cc (rw (k, p) at h)
  ]

  other-current : starts_with c.type (prefix & ".") ≡ false → is_current prefix updated c ≡ true
  unfolding is_current
  other-current h = rw h

  seen-current : any (λ u. u == c.type) updated ≡ true → is_current prefix updated c ≡ true
  unfolding is_current
  seen-current h = elim (Bool-cases (starts_with c.type (prefix & "."))) [
    | inl p ↦ rw (p, h)
    | inr p ↦ rw p
  ]

module _ (api : StatusApi) (law : IsStatusApi api) (now : ℕ) where
  open api use {find_status_condition as find}

  -- SetAggregatedReadyCondition: Ready is found, with the resource's generation: True exactly if
  -- all the sub-CRs are ready, and otherwise False with a message that names those that are not.
  pub set_aggregated_ready_condition_lem :
      (obj : Accessor) (statuses : List SubCrStatus)
      → ReadyIs api law
          (set_aggregated_ready_condition api now obj statuses)
          obj.generation
          (all (λ s. s.ready) statuses)
          (join "; " (reasons_of statuses))
  unfolding set_aggregated_ready_condition
  set_aggregated_ready_condition_lem obj statuses =
      rw (set_aggregated_ready_condition, aggregate_readiness_lem statuses)
        (set_ready api law now obj (all (λ s. s.ready) statuses) _ _ _ _)

  generation-copy :
      (prefix : String) (parent : Accessor) (updated : List String) (cs : List Condition)
      → (copy_conditions api now prefix parent updated cs).0.generation ≡ parent.generation
  unfolding copy_conditions set_condition
  generation-copy prefix parent updated [] = refl
  generation-copy prefix parent updated (c ∷ cs) =
      generation-copy prefix (copy_condition api now prefix parent c)
        (prefixed_type prefix c.type ∷ updated) cs

  -- The types that the loop has written.
  updated-copy :
      (prefix : String) (parent : Accessor) (updated : List String) (cs : List Condition)
      (t : String)
      → any (λ u. u == t) (copy_conditions api now prefix parent updated cs).1 ≡ true
      → (any (λ u. u == t) updated ≡ true)
        ⊎ ((c : Condition) × Memᴰ c cs × (prefixed_type prefix c.type ≡ t))
  unfolding copy_conditions
  updated-copy prefix parent updated [] t h = inl h
  updated-copy prefix parent updated (c ∷ cs) t h =
      elim (updated-copy prefix (copy_condition api now prefix parent c)
        (prefixed_type prefix c.type ∷ updated) cs t h) [
          | inr (x, m, e) ↦ inr (x, Memᴰ.tail m, e)
          | inl seen ↦ elim (Bool-cases (prefixed_type prefix c.type == t)) [
            | inl p ↦ inr (c, Memᴰ.head refl, eq_of_beq p)
            | inr p ↦ inl (rw p at seen)
          ]
        ]

  updated-keeps :
      (prefix : String) (parent : Accessor) (updated : List String) (cs : List Condition)
      (t : String)
      → any (λ u. u == t) updated ≡ true
      → any (λ u. u == t) (copy_conditions api now prefix parent updated cs).1 ≡ true
  unfolding copy_conditions
  updated-keeps prefix parent updated [] t h = h
  updated-keeps prefix parent updated (c ∷ cs) t h =
      updated-keeps prefix (copy_condition api now prefix parent c)
        (prefixed_type prefix c.type ∷ updated) cs t (ground arith)

  updated-has :
      (prefix : String) (parent : Accessor) (updated : List String) (cs : List Condition)
      {c : Condition}
      → Memᴰ c cs
      → any
          (λ u. u == prefixed_type prefix c.type)
          (copy_conditions api now prefix parent updated cs).1
        ≡ true
  unfolding copy_conditions
  updated-has prefix parent updated [] m = elim m [ ]
  updated-has prefix parent updated (x ∷ cs) {c} (Memᴰ.head e) =
      updated-keeps prefix (copy_condition api now prefix parent x)
        (prefixed_type prefix x.type ∷ updated) cs (prefixed_type prefix c.type)
        (rw e (rw (beq_refl (prefixed_type prefix x.type))))
  updated-has prefix parent updated (x ∷ cs) (Memᴰ.tail m) =
      updated-has prefix (copy_condition api now prefix parent x)
        (prefixed_type prefix x.type ∷ updated) cs m

  -- The loop leaves other types alone.
  find-copy_other :
      (prefix : String) (parent : Accessor) (updated : List String) (cs : List Condition)
      (t : String)
      → All (λ c. prefixed_type prefix c.type ≢ t) cs
      → find (copy_conditions api now prefix parent updated cs).0.conditions t
        ≡ find parent.conditions t
  unfolding copy_conditions
  find-copy_other prefix parent updated [] t h = refl
  find-copy_other prefix parent updated (c ∷ cs) t h =
      find-copy_other prefix (copy_condition api now prefix parent c)
        (prefixed_type prefix c.type ∷ updated) cs t h.1
      ∙ (set_condition_lem api law now parent _).1 t h.0

  -- No two conditions have the same type under the prefix.
  abbrev pub DistinctUnder : String → List Condition → Type 0
  DistinctUnder prefix [] = Unit
  DistinctUnder prefix (c ∷ cs) =
      All (λ x. prefixed_type prefix x.type ≢ prefixed_type prefix c.type) cs
      × DistinctUnder prefix cs

  -- The sub-CR's condition stands in the parent, with the parent's own generation.
  pub record Copied (prefix : String) (generation : ℕ) (conditions : List Condition) (c : Condition)
      : Type 0 where
    pub condition : Condition
    pub found : find conditions (prefixed_type prefix c.type) ≡ some condition
    pub status : condition.status ≡ c.status
    pub reason : condition.reason ≡ c.reason
    pub message : condition.message ≡ c.message
    pub parent_generation : condition.observed_generation ≡ generation

  copy-Copied :
      (prefix : String) (parent : Accessor) (updated : List String) (cs : List Condition)
      {c : Condition}
      → DistinctUnder prefix cs
      → Memᴰ c cs
      → Copied prefix parent.generation
          (copy_conditions api now prefix parent updated cs).0.conditions
          c
  unfolding copy_conditions
  copy-Copied prefix parent updated [] d m = elim m [ ]
  copy-Copied prefix parent updated (x ∷ cs) {c} d (Memᴰ.head e) =
      let next = copy_condition api now prefix parent x in
      let set =
        set_condition_lem api law now parent
          (record x { type = prefixed_type prefix x.type; last_transition_time = 0 }) in
      subst
        (Copied prefix parent.generation
          (copy_conditions api now prefix parent updated (x ∷ cs)).0.conditions)
        (sym e)
        (record {
          condition = _;
          found =
              find-copy_other prefix next (prefixed_type prefix x.type ∷ updated) cs
                (prefixed_type prefix x.type) d.0
              ∙ set.0;
          status = refl;
          reason = refl;
          message = refl;
          parent_generation = refl;
        })
  copy-Copied prefix parent updated (x ∷ cs) d (Memᴰ.tail m) =
      let set =
        set_condition_lem api law now parent
          (record x { type = prefixed_type prefix x.type; last_transition_time = 0 }) in
      let r =
        copy-Copied prefix (copy_condition api now prefix parent x)
          (prefixed_type prefix x.type ∷ updated) cs d.1 m in
      record {
        condition = r.condition;
        found = r.found;
        status = r.status;
        reason = r.reason;
        message = r.message;
        parent_generation = r.parent_generation ∙ set.3;
      }

  module _ (parent sub : Accessor) (prefix : String) where
    abbrev result : Accessor
    result = (copy_sub_cr_status api now parent sub prefix).0

    abbrev FromSub : Condition → Type 0
    FromSub c = (x : Condition) × Memᴰ x sub.conditions × (prefixed_type prefix x.type ≡ c.type)

    no_stale :
        All
          (λ c. starts_with c.type (prefix & ".") ≡ true → FromSub c)
          (copy_sub_cr_status api now parent sub prefix).0.conditions
    unfolding copy_sub_cr_status
    no_stale =
        All-map _ (λ c kept starts. current c kept starts)
          (keep_if-All _ (copy_conditions api now prefix parent [] sub.conditions).0.conditions)
      where
        current :
            (c : Condition)
            → is_current prefix (copy_conditions api now prefix parent [] sub.conditions).1 c ≡ true
            → starts_with c.type (prefix & ".") ≡ true
            → FromSub c
        current c kept starts =
            elim (updated-copy prefix parent [] sub.conditions c.type
              (current-seen prefix _ c kept starts)) [ inl e ↦ cc | inr x ↦ x ]

    -- CopySubCRStatus leaves no stale condition: a condition of the parent whose type begins
    -- with the prefix and a dot is now that of a condition of the sub-CR.
    pub copy_sub_cr_status_no_stale :
        (c : Condition)
        → Memᴰ c (copy_sub_cr_status api now parent sub prefix).0.conditions
        → starts_with c.type (prefix & ".") ≡ true
        → (x : Condition) × Memᴰ x sub.conditions × (prefixed_type prefix x.type ≡ c.type)
    copy_sub_cr_status_no_stale c m starts = All-mem _ no_stale m starts

    -- CopySubCRStatus does not touch what is not of the sub-CR: at a type that does not begin with
    -- the prefix and a dot, the parent's condition is found as before.
    pub copy_sub_cr_status_other :
        (t : String)
        → starts_with t (prefix & ".") ≡ false
        → find (copy_sub_cr_status api now parent sub prefix).0.conditions t
          ≡ find parent.conditions t
    unfolding copy_sub_cr_status
    copy_sub_cr_status_other t n =
        find-keep_if api law _ _ t (λ c e. other-current prefix _ c (rw e n))
        ∙ find-copy_other prefix parent [] sub.conditions t
            (All-of_mem _ _ λ c m e. cc (prefixed_type-starts prefix c.type, n))

    -- CopySubCRStatus copies each condition of the sub-CR, with its status, reason and message but
    -- the parent's generation, if no two types of the sub-CR agree once slashes are dots; and it
    -- reports the sub-CR ready exactly if its own Ready condition is True.
    pub copy_sub_cr_status_copies :
        DistinctUnder prefix sub.conditions
        → All
            (Copied prefix parent.generation
              (copy_sub_cr_status api now parent sub prefix).0.conditions)
            sub.conditions
          × ((copy_sub_cr_status api now parent sub prefix).1.ready
              ≡ is_condition_true api now sub type_ready)
    unfolding copy_sub_cr_status
    copy_sub_cr_status_copies d =
        (All-of_mem _ _ λ c m. survives c m (copy-Copied prefix parent [] sub.conditions d m), refl)
      where
        survives :
            (c : Condition)
            → Memᴰ c sub.conditions
            → Copied prefix parent.generation
                (copy_conditions api now prefix parent [] sub.conditions).0.conditions
                c
            → Copied prefix parent.generation result.conditions c
        survives c m r = record {
          condition = r.condition;
          found =
              find-keep_if api law _ _ (prefixed_type prefix c.type) (λ x e.
                seen-current prefix _ x (rw e (updated-has prefix parent [] sub.conditions m)))
              ∙ r.found;
          status = r.status;
          reason = r.reason;
          message = r.message;
          parent_generation = r.parent_generation;
        }

  -- The first dependency whose condition is there and False.
  abbrev pub first_false : List Condition → List DependencyOverride → Option DependencyOverride
  first_false cs [] = none
  first_false cs (d ∷ ds) =
      if is_explicitly_false api now (find cs d.condition_type) then some d else first_false cs ds

  -- OverrideReadyIfDependencyFalse: without a dependency that is explicitly False the resource is
  -- unchanged.
  -- Ready is False for the sake of a dependency.
  pub record Overridden (obj : Accessor) (generation : ℕ) (d : DependencyOverride) : Type 0 where
    pub condition : Condition
    pub found : find obj.conditions type_ready ≡ some condition
    pub status : condition.status ≡ condition_false
    pub reason : condition.reason ≡ d.reason
    pub message : condition.message ≡ d.message
    pub same_generation : condition.observed_generation ≡ generation

  override_unchanged :
      (obj : Accessor) (ds : List DependencyOverride)
      → first_false obj.conditions ds ≡ none
      → override_ready_if_dependency_false api now obj ds ≡ obj
  unfolding override_ready_if_dependency_false
  override_unchanged obj [] h = refl
  override_unchanged obj (d ∷ ds) h =
      elim (Bool-cases (is_explicitly_false api now (find obj.conditions d.condition_type))) [
        | inl p ↦ cc (rw p at h)
        | inr p ↦ rw p (override_unchanged obj ds (rw p at h))
      ]

  override_sets :
      (obj : Accessor) (ds : List DependencyOverride) (d : DependencyOverride)
      → first_false obj.conditions ds ≡ some d
      → override_ready_if_dependency_false api now obj ds
        ≡ set_condition api now obj (new_condition type_ready condition_false d.reason d.message)
  unfolding override_ready_if_dependency_false
  override_sets obj [] d h = cc
  override_sets obj (x ∷ ds) d h =
      elim (Bool-cases (is_explicitly_false api now (find obj.conditions x.condition_type))) [
        | inl p ↦ let e : x ≡ d = cc (rw p at h) in rw p (rw e)
        | inr p ↦ rw p (override_sets obj ds d (rw p at h))
      ]

  -- OverrideReadyIfDependencyFalse: the first dependency that is explicitly False makes Ready False,
  -- with its reason and message and the resource's generation; the condition of any other type is found
  -- as before. Without such a dependency the resource is unchanged.
  pub override_ready_if_dependency_false_lem :
      (obj : Accessor) (ds : List DependencyOverride)
      → ((first_false obj.conditions ds ≡ none)
          × (override_ready_if_dependency_false api now obj ds ≡ obj))
        ⊎ ((d : DependencyOverride) × (first_false obj.conditions ds ≡ some d)
            × Overridden (override_ready_if_dependency_false api now obj ds) obj.generation d
            × ((t : String)
                → type_ready ≢ t
                → find (override_ready_if_dependency_false api now obj ds).conditions t
                  ≡ find obj.conditions t))
  override_ready_if_dependency_false_lem obj ds =
      elim (Option-cases (first_false obj.conditions ds)) [
        | inl e ↦ inl (e, override_unchanged obj ds e)
        | inr (d, e) ↦
            let given = new_condition type_ready condition_false d.reason d.message in
            let placed = set_condition_lem api law now obj given in
            inr (
              d,
              e,
              rw (override_sets obj ds d e) (record {
                condition = _;
                found = placed.0;
                status = refl;
                reason = refl;
                message = refl;
                same_generation = refl;
              }),
              λ t n. rw (override_sets obj ds d e) (placed.1 t n),
            )
      ]

-- ===== src/Condition/Laws.antt =====
-- The documented behaviour of SetStatusCondition and FindStatusCondition, and what follows for
-- `set_condition` of operator/internal/condition/condition.go.
use konflux_ci.Prelude.{
  ℕ, String, Bool, true, false, List, [], ◌∷◌, ◌++◌, ◌≡◌, ◌≢◌, refl, sym, ap, subst, ◌∙◌, Option,
  none, some, ◌==◌, string_eq, All, All-append, keep_if, arith, inl, inr, Bool-cases, Option-cases,
  if◌then◌else◌, eq_of_beq, beq_refl, beq_of_ne, ne_of_beq,
}
use konflux_ci.Condition.Defs.{
  condition_true, condition_false, new_condition, type_ready, status_eq, Condition, Accessor,
  StatusApi, set_condition,
}

-- The transition time moves only when the status does.
abbrev pub transition_time : ℕ → Option Condition → Condition → ℕ
transition_time now none c = now
transition_time now (some old) c = if old.status == c.status then old.last_transition_time else now

abbrev pub stamped : ℕ → Option Condition → Condition → Condition
stamped now old c = record c { last_transition_time = transition_time now old c }

-- FindStatusCondition returns the first condition of the type. SetStatusCondition appends a
-- condition of a new type, and replaces the first one of a type that is there.
pub record IsStatusApi (api : StatusApi) : Type 0 where
  pub find_nil : (t : String) → api.find_status_condition [] t ≡ none
  pub find_cons :
      (c : Condition) (cs : List Condition) (t : String)
      → api.find_status_condition (c ∷ cs) t
        ≡ (if c.type == t then some c else api.find_status_condition cs t)
  pub set_absent :
      (now : ℕ) (cs : List Condition) (c : Condition)
      → api.find_status_condition cs c.type ≡ none
      → api.set_status_condition now cs c ≡ cs ++ stamped now none c ∷ []
  pub set_present :
      (now : ℕ) (before : List Condition) (old : Condition) (after : List Condition) (c : Condition)
      → api.find_status_condition before c.type ≡ none
      → old.type ≡ c.type
      → api.set_status_condition now (before ++ old ∷ after) c
        ≡ before ++ stamped now (some old) c ∷ after

All-replace {κ} :
    (P : Condition → Type κ) (before after : List Condition) (old c : Condition)
    → P c
    → All P (before ++ old ∷ after)
    → All P (before ++ c ∷ after)
All-replace P [] after old c h all = (h, all.1)
All-replace P (b ∷ before) after old c h all = (all.0, All-replace P before after old c h all.1)

module _ (api : StatusApi) (law : IsStatusApi api) where
  open api use {set_status_condition, find_status_condition as find}

  -- Where a found condition stands.
  record Found (cs : List Condition) (t : String) (old : Condition) : Type 0 where
    before : List Condition
    after : List Condition
    split : cs ≡ before ++ old ∷ after
    first : find before t ≡ none
    same_type : old.type ≡ t

  find-Found :
      (cs : List Condition) (t : String) (old : Condition) → find cs t ≡ some old → Found cs t old
  find-Found [] t old h = cc (law.find_nil t)
  find-Found (c ∷ cs) t old h = elim (Bool-cases (c.type == t)) [
    | inl e ↦
        let p : c ≡ old = ground (arith, law.find_cons c cs t) in
        record {
          before = [];
          after = cs;
          split = ap (λ (x : Condition). x ∷ cs) p;
          first = law.find_nil t;
          same_type = sym (ap (λ (x : Condition). x.type) p) ∙ eq_of_beq e;
        }
    | inr n ↦
        let found = find-Found cs t old (ground (arith, law.find_cons c cs t)) in
        record {
          before = c ∷ found.before;
          after = found.after;
          split = ap (λ (xs : List Condition). c ∷ xs) found.split;
          first = ground (arith, law.find_cons c found.before t, found.first);
          same_type = found.same_type;
        }
  ]

  find-append_here :
      (before after : List Condition) (c : Condition) (t : String)
      → find before t ≡ none
      → c.type ≡ t
      → find (before ++ c ∷ after) t ≡ some c
  find-append_here [] after c t h e = law.find_cons c after t ∙ rw (e, beq_refl t)
  find-append_here (b ∷ before) after c t h e = elim (Bool-cases (b.type == t)) [
    | inl p ↦ ground (arith, law.find_cons b before t)
    | inr n ↦
        let rest = find-append_here before after c t (ground (arith, law.find_cons b before t)) e in
        law.find_cons b (before ++ c ∷ after) t ∙ rw n rest
  ]

  -- What stands at other types does not matter.
  find-append_ne :
      (before after : List Condition) (c d : Condition) (t : String)
      → c.type ≢ t
      → d.type ≢ t
      → find (before ++ c ∷ after) t ≡ find (before ++ d ∷ after) t
  find-append_ne [] after c d t nc nd =
      ground (arith, law.find_cons c after t, law.find_cons d after t, beq_of_ne nc, beq_of_ne nd)
  find-append_ne (b ∷ before) after c d t nc nd = ground (
    arith,
    law.find_cons b (before ++ c ∷ after) t,
    law.find_cons b (before ++ d ∷ after) t,
    find-append_ne before after c d t nc nd,
  )

  find-append_last :
      (cs : List Condition) (c : Condition) (t : String)
      → c.type ≢ t
      → find (cs ++ c ∷ []) t ≡ find cs t
  find-append_last [] c t n = ground (arith, law.find_cons c [] t, beq_of_ne n)
  find-append_last (b ∷ cs) c t n =
      ground
        (arith, law.find_cons b (cs ++ c ∷ []) t, law.find_cons b cs t, find-append_last cs c t n)

  pub find-set_self :
      (now : ℕ) (cs : List Condition) (c : Condition)
      → find (set_status_condition now cs c) c.type ≡ some (stamped now (find cs c.type) c)
  find-set_self now cs c = elim (Option-cases (find cs c.type)) [
    | inl e ↦ rw (law.set_absent now cs c e, e) (find-append_here cs [] _ c.type e refl)
    | inr (old, e) ↦
        let f = find-Found cs c.type old e in
        let p : set_status_condition now cs c ≡ f.before ++ stamped now (some old) c ∷ f.after =
          ap (λ (xs : List Condition). set_status_condition now xs c) f.split
          ∙ law.set_present now f.before old f.after c f.first f.same_type in
        rw (p, e) (find-append_here f.before f.after _ c.type f.first refl)
  ]

  pub find-set_ne :
      (now : ℕ) (cs : List Condition) (c : Condition) (t : String)
      → c.type ≢ t
      → find (set_status_condition now cs c) t ≡ find cs t
  find-set_ne now cs c t n = elim (Option-cases (find cs c.type)) [
    | inl e ↦ rw (law.set_absent now cs c e) (find-append_last cs _ t n)
    | inr (old, e) ↦
        let f = find-Found cs c.type old e in
        let p : set_status_condition now cs c ≡ f.before ++ stamped now (some old) c ∷ f.after =
          ap (λ (xs : List Condition). set_status_condition now xs c) f.split
          ∙ law.set_present now f.before old f.after c f.first f.same_type in
        rw p (
          find-append_ne f.before f.after _ old t n (λ q. n (sym f.same_type ∙ q))
          ∙ sym (ap (λ (xs : List Condition). find xs t) f.split))
  ]

  -- What holds of all the conditions and of the new one, whatever its time, holds afterwards.
  pub All-set_status {κ} :
      (P : Condition → Type κ) (now : ℕ) (cs : List Condition) (c : Condition)
      → ((old : Option Condition) → P (stamped now old c))
      → All P cs
      → All P (set_status_condition now cs c)
  All-set_status P now cs c new all = elim (Option-cases (find cs c.type)) [
    | inl e ↦ rw (law.set_absent now cs c e) (All-append P cs _ all (new none, tt))
    | inr (old, e) ↦
        let f = find-Found cs c.type old e in
        let p : set_status_condition now cs c ≡ f.before ++ stamped now (some old) c ∷ f.after =
          ap (λ (xs : List Condition). set_status_condition now xs c) f.split
          ∙ law.set_present now f.before old f.after c f.first f.same_type in
        rw p (All-replace P f.before f.after old _ (new (some old)) (subst (All P) f.split all))
  ]

  module _ (now : ℕ) (obj : Accessor) (c : Condition) where
    abbrev placed : Option Condition → Condition
    placed old = stamped now old (record c { observed_generation = obj.generation })

    pub set_condition_lem :
        (find (set_condition api now obj c).conditions c.type
          ≡ some (placed (find obj.conditions c.type)))
        × ((t : String)
            → c.type ≢ t
            → find (set_condition api now obj c).conditions t ≡ find obj.conditions t)
        × ((set_condition api now obj c).name ≡ obj.name)
        × ((set_condition api now obj c).generation ≡ obj.generation)
    unfolding set_condition
    set_condition_lem = (
      find-set_self now obj.conditions (record c { observed_generation = obj.generation }),
      (λ t n.
          find-set_ne now obj.conditions (record c { observed_generation = obj.generation }) t n),
      refl,
      refl,
    )

    -- SetCondition: afterwards the condition of its type is the given one, with the resource's
    -- generation, and with the old transition time exactly if the status was already there;
    -- at any other type the condition is found as before.
    pub find-set_condition :
        (t : String)
        → find (set_condition api now obj c).conditions t ≡ (
            if c.type == t
            then some (placed (find obj.conditions c.type))
            else find obj.conditions t)
    find-set_condition t = elim (Bool-cases (c.type == t)) [
      | inl e ↦ rw (e) (
          subst
            (λ u.
              find (set_condition api now obj c).conditions u
              ≡ some (placed (find obj.conditions c.type)))
            (eq_of_beq e) set_condition_lem.0)
      | inr e ↦ rw (e) (set_condition_lem.1 t (ne_of_beq e))
    ]

  -- Dropping conditions of other types does not change what is found at a type.
  pub find-keep_if :
      (p : Condition → Bool) (cs : List Condition) (t : String)
      → ((c : Condition) → c.type ≡ t → p c ≡ true)
      → find (keep_if p cs) t ≡ find cs t
  find-keep_if p [] t h = refl
  find-keep_if p (c ∷ cs) t h = elim (Bool-cases (p c)) [
    | inl e ↦ rw e (
        law.find_cons c (keep_if p cs) t
        ∙ (rw (find-keep_if p cs t h) (sym (law.find_cons c cs t))))
    | inr e ↦
        let n : c.type ≢ t = λ q. cc (h c q, e) in
        rw e (find-keep_if p cs t h ∙ (sym (law.find_cons c cs t ∙ rw (beq_of_ne n))))
  ]

  -- Ready is found, at this generation: True if `ready`, and else False with this message.
  pub record ReadyIs (obj : Accessor) (generation : ℕ) (ready : Bool) (message : String)
      : Type 0 where
    pub condition : Condition
    pub found : find obj.conditions type_ready ≡ some condition
    pub status : condition.status ≡ (if ready then condition_true else condition_false)
    pub same_generation : condition.observed_generation ≡ generation
    pub explained : (if ready then message else condition.message) ≡ message

  -- Setting Ready by the outcome of a test.
  pub set_ready :
      (now : ℕ) (obj : Accessor) (ready : Bool) (reason reason' text message : String)
      → ReadyIs
          (if ready
            then set_condition api now obj (new_condition type_ready condition_true reason text)
            else set_condition api now obj
                (new_condition type_ready condition_false reason' message))
          obj.generation
          ready
          message
  set_ready now obj true reason reason' text message = record {
    condition = _;
    found = (set_condition_lem now obj (new_condition type_ready condition_true reason text)).0;
    status = refl;
    same_generation = refl;
    explained = refl;
  }
  set_ready now obj false reason reason' text message = record {
    condition = _;
    found =
        (set_condition_lem now obj (new_condition type_ready condition_false reason' message)).0;
    status = refl;
    same_generation = refl;
    explained = refl;
  }

  pub ReadyIs-cong :
      (obj : Accessor) {g g' : ℕ} {r r' : Bool} {m m' : String}
      → g ≡ g'
      → r ≡ r'
      → m ≡ m'
      → ReadyIs obj g r m
      → ReadyIs obj g' r' m'
  ReadyIs-cong obj {g} {g'} {r} {r'} {m} {m'} p q e h =
      subst (λ x. ReadyIs obj g' r' x) e
        (subst (λ x. ReadyIs obj g' x m) q (subst (λ x. ReadyIs obj x r m) p h))

-- ===== src/Component/Tracked.antt =====
-- The objects that the steps of a component controller (operator/internal/controller) track: nothing
-- but what the spec of its part asks for.
use konflux_ci.Prelude.{
  String, Bool, false, List, [], ◌∷◌, ◌≡◌, refl, sym, subst, ◌∙◌, some, Result, ok, err, Memᴰ, All,
  inl, inr, ◌⊎◌, Bool-cases, Result-cases, ◌==◌, nat_eq,
}
use konflux_ci.Cluster.{Object, Api}
use konflux_ci.Tracking.Defs.{ResourceKey, OwnershipConfig, Session, key_of, apply_owned}
use konflux_ci.Tracking.Apply.{KeepsIdentity}
use konflux_ci.Tracking.Growth.{apply_owned-Grows, apply_owned-only}
use konflux_ci.Component.Defs.{Step, run_steps}
use konflux_ci.Component.Manifests.{apply_each, apply_all_manifests}
use konflux_ci.Component.Steps.{AreQuiet}

module _ (cfg : OwnershipConfig) (P : ResourceKey → Type 0) where
  -- A key that is tracked after a step was tracked before, or has the property.
  abbrev pub TracksOnly : (Session → Session) → Type 0
  TracksOnly f =
      (s : Session)
      → s.client.ownership ≡ some cfg
      → (k : ResourceKey) → Memᴰ k (f s).client.tracked
      → Memᴰ k s.client.tracked ⊎ P k

  abbrev pub TrackOnly : List Step → Type 0
  TrackOnly xs = All (λ x. TracksOnly (λ s. (x.run s).1)) xs

  pub run_steps-TracksOnly :
      (xs : List Step) → AreQuiet cfg xs → TrackOnly xs → TracksOnly (λ s. (run_steps xs s).1)
  unfolding run_steps
  run_steps-TracksOnly [] q t s o k m = inl m
  run_steps-TracksOnly (x ∷ xs) (q, qs) (t, ts) s o k m = elim (Result-cases (x.run s).0) [
    | inr (e, r) ↦ t s o k (rw (r, run_steps) at m)
    | inl (wait, r) ↦ elim (Bool-cases (wait == 0)) [
      | inr n ↦ t s o k (rw (r, n, run_steps) at m)
      | inl z ↦
          elim (run_steps-TracksOnly xs qs ts (x.run s).1 ((q s o).ownership ∙ o) k
            (rw (r, z, run_steps) at m)) [ inr p ↦ inr p | inl before ↦ t s o k before ]
    ]
  ]

  module _ (api : Api) (law : KeepsIdentity api) where
    pub apply_each-TracksOnly :
        (component : String) (skip : Object → Bool) (os : List Object)
        → ((o : Object) → Memᴰ o os → skip o ≡ false → P (key_of api o))
        → TracksOnly (λ s. (apply_each api component skip os s).1)
    unfolding apply_each
    apply_each-TracksOnly component skip [] f s o k m = inl m
    apply_each-TracksOnly component skip (x ∷ xs) f s o k m =
        let rest = apply_each-TracksOnly component skip xs (λ y n. f y (Memᴰ.tail n)) in
        elim (Bool-cases (skip x)) [
          | inl t ↦ rest s o k (rw (t, apply_each) at m)
          | inr t ↦
              let s' = (apply_owned api x s).1 in
              let own : Memᴰ k s'.client.tracked → Memᴰ k s.client.tracked ⊎ P k = λ n.
                elim (apply_owned-only api law cfg x s o k n) [
                  | inl before ↦ inl before
                  | inr e ↦ inr (subst P (sym e) (f x (Memᴰ.head refl) t))
                ] in
              elim (Result-cases (apply_owned api x s).0) [
                | inr (e, r) ↦ own (rw (t, r, apply_each) at m)
                | inl (u, r) ↦
                    elim (rest s' ((apply_owned-Grows api law cfg x s o).ownership ∙ o) k
                      (rw (t, r, apply_each) at m)) [ inr p ↦ inr p | inl before ↦ own before ]
              ]
        ]

    pub apply_all_manifests-TracksOnly :
        (answer : Result (List Object)) (missing component : String) (skip : Object → Bool)
        → ((os : List Object) (o : Object)
            → answer ≡ ok os
            → Memᴰ o os
            → skip o ≡ false
            → P (key_of api o))
        → TracksOnly (λ s. (apply_all_manifests api answer missing component skip s).1)
    unfolding apply_all_manifests
    apply_all_manifests-TracksOnly (err e) missing component skip f s o k m = inl m
    apply_all_manifests-TracksOnly (ok os) missing component skip f s o k m =
        apply_each-TracksOnly component skip os (λ x n. f os x refl n) s o k m

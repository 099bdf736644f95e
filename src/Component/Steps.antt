-- ===== src/Component/Steps.antt =====
-- What the steps of a component controller (operator/internal/controller) do to its session.
use konflux_ci.Prelude.{
  String, Bool, false, List, [], ◌∷◌, ◌≡◌, sym, ap, subst, ◌∙◌, some, Result, ok, err, Memᴰ, All,
  arith, inl, inr, Bool-cases, Result-cases, ◌==◌, nat_eq,
}
use konflux_ci.Cluster.{Object, Api}
use konflux_ci.Tracking.Defs.{OwnershipConfig, Session, key_of, apply_owned}
use konflux_ci.Tracking.Apply.{KeepsIdentity, apply_owned_lem}
use konflux_ci.Tracking.Growth.{Grows, Grows-refl, Grows-trans, apply_owned-Grows}
use konflux_ci.Component.Defs.{Step, run_steps}
use konflux_ci.Component.Manifests.{apply_each, apply_all_manifests}

-- Under this ownership a session only grows.
abbrev pub IsQuiet : OwnershipConfig → (Session → Session) → Type 0
IsQuiet cfg f = (s : Session) → s.client.ownership ≡ some cfg → Grows s (f s)

abbrev pub AreQuiet : OwnershipConfig → List Step → Type 0
AreQuiet cfg xs = All (λ x. IsQuiet cfg (λ s. (x.run s).1)) xs

pub run_steps-IsQuiet :
    (cfg : OwnershipConfig) (xs : List Step)
    → AreQuiet cfg xs
    → IsQuiet cfg (λ s. (run_steps xs s).1)
unfolding run_steps
run_steps-IsQuiet cfg [] q s o = Grows-refl s
run_steps-IsQuiet cfg (x ∷ xs) (q, qs) s o =
    let first = q s o in
    elim (Result-cases (x.run s).0) [
      | inr (e, r) ↦ rw (r, run_steps) first
      | inl (wait, r) ↦ elim (Bool-cases (wait == 0)) [
        | inr n ↦ rw (r, n, run_steps) first
        | inl z ↦
            rw (r, z, run_steps)
              (Grows-trans first (run_steps-IsQuiet cfg xs qs _ (first.ownership ∙ o)))
      ]
    ]

module _ (api : Api) (law : KeepsIdentity api) (cfg : OwnershipConfig) where
  pub apply_each-IsQuiet :
      (component : String) (skip : Object → Bool) (os : List Object)
      → IsQuiet cfg (λ s. (apply_each api component skip os s).1)
  unfolding apply_each
  apply_each-IsQuiet component skip [] s o = Grows-refl s
  apply_each-IsQuiet component skip (x ∷ xs) s o =
      let first = apply_owned-Grows api law cfg x s o in
      elim (Bool-cases (skip x)) [
        | inl t ↦ rw (t, apply_each) (apply_each-IsQuiet component skip xs s o)
        | inr f ↦ elim (Result-cases (apply_owned api x s).0) [
          | inr (e, r) ↦ rw (f, r, apply_each) first
          | inl (u, r) ↦
              rw (f, r, apply_each)
                (Grows-trans first (apply_each-IsQuiet component skip xs _ (first.ownership ∙ o)))
        ]
      ]

  pub apply_all_manifests-IsQuiet :
      (answer : Result (List Object)) (missing component : String) (skip : Object → Bool)
      → IsQuiet cfg (λ s. (apply_all_manifests api answer missing component skip s).1)
  unfolding apply_all_manifests
  apply_all_manifests-IsQuiet (err e) missing component skip s o = Grows-refl s
  apply_all_manifests-IsQuiet (ok os) missing component skip s o =
      apply_each-IsQuiet component skip os s o

  -- Each object of the loop that is not skipped is tracked when the loop succeeds.
  pub apply_each-tracked :
      (component : String) (skip : Object → Bool) (os : List Object) (s : Session)
      → s.client.ownership ≡ some cfg
      → (apply_each api component skip os s).0 ≡ ok tt
      → (x : Object) → Memᴰ x os
      → skip x ≡ false
      → Memᴰ (key_of api x) (apply_each api component skip os s).1.client.tracked
  unfolding apply_each
  apply_each-tracked component skip [] s o r x m f = elim m [ ]
  apply_each-tracked component skip (y ∷ ys) s o r x m f =
      let s' = (apply_owned api y s).1 in
      let first = apply_owned-Grows api law cfg y s o in
      elim (Bool-cases (skip y)) [
        | inl t ↦
            rw (t, apply_each)
              (elim m [
                | Memᴰ.head e ↦ absurd (ground (arith, ap skip e, t, f))
                | Memᴰ.tail n ↦
                    apply_each-tracked component skip ys s o (rw (t, apply_each) at r) x n f
              ])
        | inr t ↦ elim (Result-cases (apply_owned api y s).0) [
          | inr (e, p) ↦ absurd (ground (arith, t, p, r))
          | inl (u, p) ↦
              let a = apply_owned_lem api law cfg y s s' o (ap (λ z. (z, s')) p) in
              rw (t, p, apply_each)
                (elim m [
                  | Memᴰ.head e ↦
                      subst
                        (λ z.
                          Memᴰ (key_of api z)
                            (apply_each api component skip ys s').1.client.tracked)
                        (sym e)
                        ((apply_each-IsQuiet component skip ys s' (first.ownership ∙ o)).tracked _
                          a.now_tracked)
                  | Memᴰ.tail n ↦
                      apply_each-tracked component skip ys s' (first.ownership ∙ o)
                        (rw (t, p, apply_each) at r) x n f
                ])
        ]
      ]

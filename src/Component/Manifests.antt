-- ===== src/Component/Manifests.antt =====
-- applyManifests of the component controllers in operator/internal/controller: the loop over the
-- embedded objects, some of which a controller skips.
use konflux_ci.Prelude.{
  ℕ, String, Bool, false, List, [], ◌∷◌, Error, Result, ok, err, wrap, ◌&◌, if◌then◌else◌,
}
use konflux_ci.Prelude.Exec.{Exec}
use konflux_ci.Cluster.{Object, Api}
use konflux_ci.Tracking.Defs.{Session, apply_owned}

-- The error of an object that could not be applied.
abbrev pub apply_error : String → Object → Error → Error
apply_error component o e =
    wrap
      ("failed to apply object " & o.namespace & "/" & o.name & " (" & o.gvk.kind & ") from "
        & component & ": ")
      e

module _ (api : Api) where
  -- The loop: every object that is not skipped is applied, up to the first that fails.
  unfoldable pub apply_each : String → (Object → Bool) → List Object → Exec Session (Unit {0})
  apply_each component skip [] s = (ok tt, s)
  apply_each component skip (o ∷ os) s =
      let (r, s') = apply_owned api o s in
      let rest = apply_each component skip os (apply_owned api o s).1 in
      let without = apply_each component skip os s in
      if skip o
      then without
      else elim r [ err e ↦ (err (apply_error component o e), s') | ok _ ↦ rest ]

  -- applyManifests, from the answer of the object store; `missing` begins the error text.
  unfoldable pub apply_all_manifests :
      Result (List Object) → String → String → (Object → Bool) → Exec Session ℕ
  apply_all_manifests (err e) missing component skip s = (err (wrap missing e), s)
  apply_all_manifests (ok os) missing component skip s =
      let (r, s') = apply_each component skip os s in (elim r [ err e ↦ err e | ok _ ↦ ok 0 ], s')

abbrev pub none_skipped : Object → Bool
none_skipped o = false

-- ===== src/Customization/Pods.antt =====
-- ApplyToPodTemplateSpec of operator/pkg/customization/pod.go as a whole, and leader election.
use mathlib.Core.List.{append-nil}
use konflux_ci.Prelude.{
  ℕ, Memᴰ, String, false, List, [], ◌∷◌, ◌++◌, ◌≡◌, refl, sym, subst, some, lookup,
  lookup-insert_same, Result, ok, err, string_eq, arith, inl, inr, Bool-cases, Result-cases, All₂,
  is_some, ◌||◌, leb,
}
use konflux_ci.Customization.Keyed.{find_key, find_last_key, find_last_key-snoc}
use konflux_ci.Customization.Container.{Container}
use konflux_ci.Customization.Overlay.{
  PodSpec, PodOverlay, or_no_map, or_no_list, with_arg_replace, with_leader_election,
}
use konflux_ci.Customization.Merge.{
  Codec, strategic_merge, arg_key, merge_container_list, has_replacements, merge_both, after_merge,
  customise, apply_to_pod_template_spec,
}
use konflux_ci.Customization.Laws.{
  IsContainerMerge, IsPodMerge, IsMergeable, same-AllCustomized, Customized,
  merge_container_list-Customized,
}

-- A list of containers and what becomes of it under an overlay.
abbrev pub AreCustomized : PodOverlay → List Container → List Container → Type 0
AreCustomized p cs cs' =
    All₂ (Customized (or_no_map p.container_overlays) p.arg_replacements) cs cs'

-- The containers of a pod and what becomes of them.
abbrev pub IsCustomizedPod : PodOverlay → PodSpec → PodSpec → Type 0
IsCustomizedPod p t t' =
    AreCustomized p t.containers t'.containers
    × AreCustomized p t.init_containers t'.init_containers

module _ {J : Type 0} (codec : Codec J Container) (pod_codec : Codec J PodSpec)
    (law : IsContainerMerge codec) (pod_law : IsPodMerge pod_codec) where
  Customized-nothing : (c : Container) → Customized [] [] c c
  unfolding find_last_key lookup
  Customized-nothing c = record {
    same_name = refl;
    env = λ n. refl;
    distinct = λ h. h;
    replaced = λ k arg h. absurd (ground (arith, h));
    kept = λ k h. rw (append-nil c.args);
  }

  -- Where there is nothing to apply, the containers stay as they are.
  AreCustomized-nothing :
      (p : PodOverlay) (cs : List Container)
      → is_some p.container_overlays || has_replacements codec pod_codec p.arg_replacements ≡ false
      → AreCustomized p cs cs
  AreCustomized-nothing p [] h = tt
  AreCustomized-nothing p (c ∷ cs) h =
      let no_overlays : [] ≡ or_no_map p.container_overlays = ground (arith, h) in
      let no_replacements : [] ≡ p.arg_replacements = ground (arith, h) in
      (
        subst (λ r. Customized (or_no_map p.container_overlays) r c c) no_replacements
            (subst (λ o. Customized o [] c c) no_overlays (Customized-nothing c)),
        AreCustomized-nothing p cs h,
      )

  merge_both-IsCustomizedPod :
      (p : PodOverlay) (t : PodSpec)
      → (merge_both codec pod_codec p t).0 ≡ ok tt
      → IsCustomizedPod p t (merge_both codec pod_codec p t).1
  merge_both-IsCustomizedPod p t r =
      let overlays = or_no_map p.container_overlays in
      let all_merged =
        merge_container_list-Customized overlays p.arg_replacements codec pod_codec law in
      elim (Result-cases
        (merge_container_list codec pod_codec overlays p.arg_replacements t.containers).0) [
          | inr (e, q) ↦ absurd (ground (arith, q, r))
          | inl (u, q) ↦
              rw (merge_both, q)
                (all_merged t.containers q, all_merged t.init_containers (rw (merge_both, q) at r))
        ]

  after_merge-IsCustomizedPod :
      (p : PodOverlay) (t : PodSpec) (x : Result (Unit {0}) × PodSpec)
      → (after_merge codec pod_codec p x).0 ≡ ok tt
      → (x.0 ≡ ok tt → IsCustomizedPod p t x.1)
      → IsCustomizedPod p t (after_merge codec pod_codec p x).1
  after_merge-IsCustomizedPod p t (err e, t') r h = cc
  after_merge-IsCustomizedPod p t (ok u, t') r h = h refl

  customise-IsCustomizedPod :
      (p : PodOverlay) (t : PodSpec)
      → (customise codec pod_codec p t).0 ≡ ok tt
      → IsCustomizedPod p t (customise codec pod_codec p t).1
  customise-IsCustomizedPod p t r = after_merge-IsCustomizedPod p t _ r λ q.
      elim (Bool-cases
        (is_some p.container_overlays || has_replacements codec pod_codec p.arg_replacements)) [
          | inl b ↦ rw (b) (merge_both-IsCustomizedPod p t (rw (b) at q))
          | inr b ↦
              rw (b) (
                AreCustomized-nothing p t.containers b,
                AreCustomized-nothing p t.init_containers b,
              )
        ]

  -- If no two containers, no two init containers and no two variables of one of them have the same name,
  -- and applying an overlay to the template of the pod succeeds, then each container and each init
  -- container keeps its name and its place; a variable has the overlay's last value for it where the
  -- overlay of the container sets it, and else its old one, and no variable stands twice; the first
  -- argument with the flag of a replacement is the last replacement for that flag, and the arguments with any
  -- other flag are the old ones followed by the overlay's.
  pub apply_to_pod_template_spec-IsCustomizedPod :
      (p : PodOverlay) (t t' : PodSpec)
      → IsMergeable t
      → apply_to_pod_template_spec codec pod_codec (some p) (some t) ≡ (ok tt, some t')
      → IsCustomizedPod p t t'
  unfolding apply_to_pod_template_spec
  apply_to_pod_template_spec-IsCustomizedPod p t t' mergeable r =
      let sent = record p.pod_spec {
        containers = t.containers;
        init_containers = t.init_containers;
      } in
      elim (Result-cases (strategic_merge pod_codec t sent)) [
        | inr (e, q) ↦ absurd (ground (arith, q, r))
        | inl (m, q) ↦
            let k = pod_law.keeps t sent m mergeable refl refl q in
            let same : (customise codec pod_codec p m).0 ≡ ok tt =
              ground (arith, (rw (q, apply_to_pod_template_spec) at r)) in
            let result : (customise codec pod_codec p m).1 ≡ t' =
              ground (arith, (rw (q, apply_to_pod_template_spec) at r)) in
            let done = customise-IsCustomizedPod p m same in
            let carried = same-AllCustomized (or_no_map p.container_overlays) p.arg_replacements in
            subst (IsCustomizedPod p t) result (carried _ _ _ k.0 done.0, carried _ _ _ k.1 done.1)
      ]

  -- What becomes of some container of the list stems from one of the same name.
  origin :
      (p : PodOverlay) (cs cs' : List Container)
      → AreCustomized p cs cs'
      → (c' : Container) → Memᴰ c' cs'
      → (c : Container) × Customized (or_no_map p.container_overlays) p.arg_replacements c c'
  origin p [] [] a c' m = elim m [ ]
  origin p (c ∷ cs) (d ∷ ds) (x, xs) c' m = elim m [
    | Memᴰ.head e ↦
        (c, subst (Customized (or_no_map p.container_overlays) p.arg_replacements c) (sym e) x)
    | Memᴰ.tail n ↦ origin p cs ds xs c' n
  ]
  origin p [] (d ∷ ds) a c' m = absurd a
  origin p (c ∷ cs) [] a c' m = absurd a

  leader-last :
      (name : String) (replicas : ℕ) (q : PodOverlay)
      → leb replicas 1 ≡ false
      → find_last_key arg_key "--leader-elect"
          (or_no_list (lookup name (with_leader_election name replicas q).arg_replacements))
        ≡ some "--leader-elect=true"
  unfolding with_leader_election with_arg_replace arg_key
  leader-last name replicas q h =
      rw (h, with_arg_replace)
        (rw
          (lookup-insert_same name
            (or_no_list (lookup name q.arg_replacements) ++ "--leader-elect=true" ∷ [])
            q.arg_replacements)
          (find_last_key-snoc arg_key "--leader-elect" (or_no_list (lookup name q.arg_replacements))
            "--leader-elect=true" refl))

  -- If a deployment has more than one replica, leader election for a container is the last option of an
  -- overlay, and the overlay is applied to a pod in which no two containers, no two init containers and no
  -- two variables of one of them have the same name, then in each container of this name the first argument
  -- whose text before a "=" is "--leader-elect" is "--leader-elect=true".
  pub leader_elected :
      (name : String) (replicas : ℕ) (q : PodOverlay) (t t' : PodSpec) (c : Container)
      → leb replicas 1 ≡ false
      → IsMergeable t
      → apply_to_pod_template_spec codec pod_codec
          (some (with_leader_election name replicas q))
          (some t)
        ≡ (ok tt, some t')
      → Memᴰ c t'.containers
      → c.name ≡ name
      → find_key arg_key "--leader-elect" c.args ≡ some "--leader-elect=true"
  leader_elected name replicas q t t' c h mergeable r m e =
      let p = with_leader_election name replicas q in
      let done = apply_to_pod_template_spec-IsCustomizedPod p t t' mergeable r in
      let (old, customized) = origin p t.containers t'.containers done.0 c m in
      customized.replaced "--leader-elect" "--leader-elect=true"
        (rw (← customized.same_name, e) (leader-last name replicas q h))

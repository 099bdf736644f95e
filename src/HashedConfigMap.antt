-- ===== src/HashedConfigMap.antt =====
-- operator/pkg/hashedconfigmap/hashedconfigmap.go: a ConfigMap whose name ends in a hash of its content.
-- SHA-256 as hexadecimal text, the API server and SetControllerReference answer through `HashApi`.
mod Tests
use konflux_ci.Prelude.{
  ℕ, zero, suc, String, Bool, true, false, not, List, [], ◌∷◌, ◌≡◌, ◌≢◌, refl, sym, subst, ◌&&◌,
  Option, none, some, Dict, Error, Result, ok, err, wrap, ◌&◌, ◌==◌, string_eq, starts_with,
  if◌then◌else◌, Memᴰ, arith, inl, inr, ◌⊎◌, Bool-cases, Result-cases, ne_of_beq, beq_of_ne,
  and_true,
}
use konflux_ci.Prelude.Exec.{Exec}

-- The first characters of a text, s[:n]; a text that is shorter is taken whole.
unfoldable pub take_text : ℕ → String → String
take_text zero s = ""
take_text (suc n) String.[] = ""
take_text (suc n) (String.◌∷◌ c s) = String.◌∷◌ c (take_text n s)

pub record ConfigMap : Type 0 where
  pub namespace : String
  pub name : String
  pub labels : Dict String
  pub contents : Dict String
  pub controller : Option String

-- HashedConfigMap, less the client and the scheme
pub record Handler : Type 0 where
  pub base_name : String
  pub namespace : String
  pub data_key : String
  pub label : String
  pub field_manager : String

pub data Call : Type 0 where
  patch_call : ConfigMap → String → Call
  list_call : String → String → Call
  delete_call : String → Call

abbrev pub Calls : Type 0
Calls = List Call

pub record HashApi : Type 0 where
  pub sha256_hex : String → String
  pub set_controller_reference : String → ConfigMap → Result ConfigMap
  pub patch : Calls → ConfigMap → String → Result ConfigMap
  pub list : Calls → String → String → Result (List ConfigMap)
  pub delete : Calls → ConfigMap → Option Error

module _ (api : HashApi) (handler : Handler) where
  unfoldable pub generate_hash_suffix : String → String
  generate_hash_suffix content = take_text 10 (api.sha256_hex content)

  unfoldable pub build_config_map_name : String → String → String
  build_config_map_name base_name content = base_name & "-" & generate_hash_suffix content

  unfoldable pub config_map_of : String → ConfigMap
  config_map_of content = record {
    namespace = handler.namespace;
    name = build_config_map_name handler.base_name content;
    labels = (handler.label, "true") ∷ [];
    contents = (handler.data_key, content) ∷ [];
    controller = none;
  }

  -- An earlier ConfigMap of this handler.
  abbrev pub is_old : String → ConfigMap → Bool
  is_old current cm = not (cm.name == current) && starts_with cm.name (handler.base_name & "-")

  -- The loop of cleanupOld: a failure of Delete is only logged.
  unfoldable pub delete_old : String → List ConfigMap → Calls → Calls
  delete_old current [] log = log
  delete_old current (cm ∷ cms) log =
      let log' = if is_old current cm then delete_call cm.name ∷ log else log in
      delete_old current cms log'

  abbrev pub cleaned : String → Result (List ConfigMap) → Calls → Calls
  cleaned current (ok cms) log = delete_old current cms log
  cleaned current (err e) log = log

  -- cleanupOld; that it failed is only logged by its caller.
  unfoldable pub cleanup_old : String → Calls → Calls
  cleanup_old current log =
      cleaned current (api.list log handler.namespace handler.label)
        (list_call handler.namespace handler.label ∷ log)

  -- Apply: the name and the ConfigMap as the Patch call leaves it.
  unfoldable pub apply : String → String → Exec Calls (String × ConfigMap)
  apply owner content log =
      let name = build_config_map_name handler.base_name content in
      elim (api.set_controller_reference owner (config_map_of content)) [
        | err e ↦ (err (wrap "failed to set owner reference: " e), log)
        | ok cm ↦ elim (api.patch log cm handler.field_manager) [
          | err e ↦ (
            err (wrap ("failed to apply ConfigMap " & name & ": ") e),
            patch_call cm handler.field_manager ∷ log,
          )
          | ok cm' ↦ (ok (name, cm'), cleanup_old name (patch_call cm handler.field_manager ∷ log))
        ]
      ]

  delete_old-safe :
      (current name : String) (cms : List ConfigMap) (log : Calls)
      → Memᴰ (delete_call name) (delete_old current cms log)
      → Memᴰ (delete_call name) log
        ⊎ ((cm : ConfigMap) × Memᴰ cm cms × (cm.name ≡ name) × (is_old current cm ≡ true))
  unfolding delete_old
  delete_old-safe current name [] log m = inl m
  delete_old-safe current name (cm ∷ cms) log m = elim (Bool-cases (is_old current cm)) [
    | inr keep ↦ elim (delete_old-safe current name cms log (rw (keep, delete_old) at m)) [
      | inl before ↦ inl before
      | inr (x, y, z, w) ↦ inr (x, Memᴰ.tail y, z, w)
    ]
    | inl old ↦
        elim (delete_old-safe current name cms (delete_call cm.name ∷ log)
          (rw (old, delete_old) at m)) [
            | inr (x, y, z, w) ↦ inr (x, Memᴰ.tail y, z, w)
            | inl now ↦ elim now [
              | Memᴰ.head e ↦ inr (cm, Memᴰ.head refl, cc e, old)
              | Memᴰ.tail before ↦ inl before
            ]
          ]
  ]

  delete_old-keeps :
      (current : String) (c : Call) (cms : List ConfigMap) (log : Calls)
      → Memᴰ c log
      → Memᴰ c (delete_old current cms log)
  unfolding delete_old
  delete_old-keeps current c [] log m = m
  delete_old-keeps current c (cm ∷ cms) log m = elim (Bool-cases (is_old current cm)) [
    | inl old ↦
        rw (old, delete_old)
          (delete_old-keeps current c cms (delete_call cm.name ∷ log) (Memᴰ.tail m))
    | inr keep ↦ rw (keep, delete_old) (delete_old-keeps current c cms log m)
  ]

  delete_old-complete :
      (current : String) (cm : ConfigMap) (cms : List ConfigMap) (log : Calls)
      → Memᴰ cm cms
      → is_old current cm ≡ true
      → Memᴰ (delete_call cm.name) (delete_old current cms log)
  unfolding delete_old
  delete_old-complete current cm [] log m old = elim m [ ]
  delete_old-complete current cm (x ∷ cms) log (Memᴰ.head e) old =
      let old' : is_old current x ≡ true = subst (λ y. is_old current y ≡ true) e old in
      rw (old', delete_old)
        (delete_old-keeps current (delete_call cm.name) cms (delete_call x.name ∷ log)
          (Memᴰ.head (subst (λ y. delete_call cm.name ≡ delete_call y.name) e refl)))
  delete_old-complete current cm (x ∷ cms) log (Memᴰ.tail m) old =
      elim (Bool-cases (is_old current x)) [
        | inl o ↦
            rw (o, delete_old) (delete_old-complete current cm cms (delete_call x.name ∷ log) m old)
        | inr k ↦ rw (k, delete_old) (delete_old-complete current cm cms log m old)
      ]

  past_patch :
      (name manager : String) (cm : ConfigMap) (log : Calls)
      → Memᴰ (delete_call name) (patch_call cm manager ∷ log)
      → Memᴰ (delete_call name) log
  past_patch name manager cm log (Memᴰ.head e) = cc
  past_patch name manager cm log (Memᴰ.tail m) = m

  past_list :
      (name namespace label : String) (log : Calls)
      → Memᴰ (delete_call name) (list_call namespace label ∷ log)
      → Memᴰ (delete_call name) log
  past_list name namespace label log (Memᴰ.head e) = cc
  past_list name namespace label log (Memᴰ.tail m) = m

  -- A name that cleanup may delete.
  abbrev pub MayDelete : String → String → Type 0
  MayDelete current name = (name ≢ current) × (starts_with name (handler.base_name & "-") ≡ true)

  is_old-MayDelete :
      (current : String) (cm : ConfigMap) → is_old current cm ≡ true → MayDelete current cm.name
  is_old-MayDelete current cm old =
      let (other, begins) = and_true {a = not (cm.name == current)} old in
      (ne_of_beq (ground (arith, other)), begins)

  cleanup_old-safe :
      (current name : String) (log : Calls)
      → Memᴰ (delete_call name) (cleanup_old current log)
      → Memᴰ (delete_call name) log ⊎ MayDelete current name
  unfolding cleanup_old
  cleanup_old-safe current name log m =
      elim (Result-cases (api.list log handler.namespace handler.label)) [
        | inr (e, p) ↦ inl (past_list name handler.namespace handler.label log (rw (p) at m))
        | inl (cms, p) ↦ elim (delete_old-safe current name cms _ (rw (p) at m)) [
          | inl before ↦ inl (past_list name handler.namespace handler.label log before)
          | inr (cm, n, same, old) ↦
              inr (subst (MayDelete current) same (is_old-MayDelete current cm old))
        ]
      ]

  -- Whatever the server answers, Apply deletes no ConfigMap with the name for the present content,
  -- and none whose name does not begin with the handler's base name and a dash.
  pub apply_deletes :
      (owner content : String) (log : Calls) (name : String)
      → Memᴰ (delete_call name) (apply owner content log).1
      → Memᴰ (delete_call name) log
        ⊎ MayDelete (build_config_map_name handler.base_name content) name
  unfolding apply
  apply_deletes owner content log name m =
      let current = build_config_map_name handler.base_name content in
      elim (Result-cases (api.set_controller_reference owner (config_map_of content))) [
        | inr (e, p) ↦ inl (rw (p, apply) at m)
        | inl (owned, p) ↦ elim (Result-cases (api.patch log owned handler.field_manager)) [
          | inr (e, q) ↦
              inl (past_patch name handler.field_manager owned log (rw (p, q, apply) at m))
          | inl (cm', q) ↦
              elim (cleanup_old-safe current name (patch_call owned handler.field_manager ∷ log)
                (rw (p, q, apply) at m)) [
                  | inl before ↦ inl (past_patch name handler.field_manager owned log before)
                  | inr may ↦ inr may
                ]
        ]
      ]

  -- If Apply succeeds and the ConfigMaps can be listed, a Delete call was sent for each listed
  -- one that MayDelete names, and the answer is the name for the content, even if a deletion failed.
  pub apply_cleans :
      (owner content : String) (log : Calls) (owned cm' old : ConfigMap) (cms : List ConfigMap)
      → api.set_controller_reference owner (config_map_of content) ≡ ok owned
      → api.patch log owned handler.field_manager ≡ ok cm'
      → api.list (patch_call owned handler.field_manager ∷ log) handler.namespace handler.label
        ≡ ok cms
      → Memᴰ old cms
      → MayDelete (build_config_map_name handler.base_name content) old.name
      → ((apply owner content log).0 ≡ ok (build_config_map_name handler.base_name content, cm'))
        × Memᴰ (delete_call old.name) (apply owner content log).1
  unfolding apply cleanup_old
  apply_cleans owner content log owned cm' old cms p q r m (other, begins) =
      let current = build_config_map_name handler.base_name content in
      let n : (old.name == current) ≡ false = beq_of_ne other in
      (
        rw (p, q, apply) refl,
        rw (p, q, apply)
            (rw (r) (delete_old-complete current old cms _ m (ground (arith, n, begins)))),
      )

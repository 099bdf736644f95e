-- ===== src/Tracking/Cleanup/Safety.antt =====
-- What orphan cleanup may delete, whatever the interleaving and whatever the server answers.
use konflux_ci.Prelude.{
  is_no_match, ℕ, String, true, false, List, [], ◌∷◌, ◌≡◌, refl, Option, none, some, Result, ok,
  err, string_eq, Memᴰ, All, All-of_mem, All-set, All-get_elem?, get_elem?, map, arith, inl, inr,
  ◌⊎◌, Bool-cases, Option-cases, mem_of_any, not_mem_of_any, Error,
}
use konflux_ci.Cluster.{Gvk, Object, Request, list_request, delete_request, History, Api}
use konflux_ci.Tracking.Defs.{
  ClusterScopedAllowList, allowed_names, is_allowed, OwnershipConfig, is_tracked, key_eq,
}
use konflux_ci.Tracking.Cleanup.{
  Job, Worker, pending, deleting, finished, State, list_kind, item_key, foreign, cleanup_item,
  listed, looked_at, worker_step, turn, run_schedule, cleanup_orphans,
}

-- A cluster-scoped object of a restricted kind has a name of its kind's list.
abbrev pub Allows : ClusterScopedAllowList → Gvk → Object → Type 0
Allows allow_list g item =
    (a : List (Gvk × List String)) (names : List String)
    → allow_list ≡ some a
    → allowed_names g a ≡ some names
    → item.namespace ≡ ""
    → Memᴰ item.name names

is_allowed-Allows :
    (a : ClusterScopedAllowList) (g : Gvk) (item : Object)
    → is_allowed a g item.namespace item.name ≡ true
    → Allows a g item
unfolding is_allowed
is_allowed-Allows none g item h a names p q r = cc
is_allowed-Allows (some b) g item h a names p q r =
    mem_of_any item.name names (ground (arith, string_eq.agrees item.namespace ""))

module _ (api : Api) (job : Job) where
  -- The object may go: it was not applied, it is the owner's, and its name is allowed.
  pub record MayGo (g : Gvk) (item : Object) : Type 0 where
    pub untracked : ¬ Memᴰ (item_key g item) job.client.tracked
    pub owned :
        (cfg : OwnershipConfig)
        → job.client.ownership ≡ some cfg
        → api.is_controlled_by item cfg.owner ≡ true
    pub allowed : Allows job.allow_list g item

  -- A List call for the label and the kind had the object in its answer.
  abbrev pub Listed : Gvk → Object → Type 0
  Listed g item =
      (h : History) × (items : List Object) × (api.list h (list_kind g) job.label_key
          job.label_value
        ≡ ok items)
      × Memᴰ item items

  foreign_owned :
      (o : Option OwnershipConfig) (item : Object)
      → foreign api job o item ≡ false
      → (cfg : OwnershipConfig) → o ≡ some cfg
      → api.is_controlled_by item cfg.owner ≡ true
  foreign_owned o item h cfg p = ground arith

  pub cleanup_item_cases :
      (g : Gvk) (item : Object) (h : History)
      → ((cleanup_item api job g item h).1 ≡ h)
        ⊎ (((cleanup_item api job g item h).1 ≡ delete_request g item ∷ h) × MayGo g item)
  unfolding cleanup_item is_tracked
  cleanup_item_cases g item h = elim (Bool-cases (is_tracked job.client (item_key g item))) [
    | inl t ↦ inl (rw t)
    | inr t ↦ elim (Bool-cases (foreign api job job.client.ownership item)) [
      | inl f ↦ inl (rw (t, f))
      | inr f ↦ elim (Bool-cases (is_allowed job.allow_list g item.namespace item.name)) [
        | inr n ↦ inl (rw (t, f, n))
        | inl y ↦ inr (
          rw (t, f, y),
          record {
            untracked = not_mem_of_any _ _ t;
            owned = foreign_owned _ _ f;
            allowed = is_allowed-Allows job.allow_list g item y;
          },
        )
      ]
    ]
  ]

  module _ (gvks : List Gvk) where
    -- The requests that cleanup may send.
    abbrev pub Justified : Request → Type 0
    Justified (list_request g key value) =
        (k : Gvk) × Memᴰ k gvks
        × (g ≡ list_kind k)
        × (key ≡ job.label_key)
        × (value ≡ job.label_value)
    Justified (delete_request g item) = Memᴰ g gvks × Listed g item × MayGo g item
    Justified _ = ⊥

    -- `Sends h k`: the requests of `k` are those of `h` and then justified ones.
    pub data Sends (h : History) : History → Type 0 where
      nothing : Sends h h
      request : {k : History} (r : Request) → Justified r → Sends h k → Sends h (r ∷ k)

    abbrev Kept : Worker → Type 0
    Kept (pending g) = Memᴰ g gvks
    Kept (deleting g items) = Memᴰ g gvks × All (Listed g) items
    Kept finished = Unit

    listed-Kept :
        (g : Gvk) (k : History) (r : Result (List Object))
        → Memᴰ g gvks
        → api.list k (list_kind g) job.label_key job.label_value ≡ r
        → Kept (listed api job g r).0
    listed-Kept g k (ok items) m e =
        (m, All-of_mem (Listed g) items λ item found. (k, items, e, found))
    listed-Kept g k (err x) m e = elim (Bool-cases (is_no_match x.kind)) [
      | inl p ↦ rw p tt
      | inr p ↦ rw p tt
    ]

    looked_at-Kept :
        (g : Gvk) (rest : List Object) (e : Option Error)
        → Memᴰ g gvks
        → All (Listed g) rest
        → Kept (looked_at api job g rest e).0
    looked_at-Kept g rest none m l = (m, l)
    looked_at-Kept g rest (some e) m l = tt

    module _ (h : History) where
      cleanup_item-Sends :
          (g : Gvk) (item : Object) (k : History)
          → Memᴰ g gvks
          → Listed g item
          → Sends h k
          → Sends h (cleanup_item api job g item k).1
      cleanup_item-Sends g item k m l s = elim (cleanup_item_cases g item k) [
        | inl e ↦ rw e s
        | inr (e, may) ↦ rw e (request _ (m, l, may) s)
      ]

      -- A worker's step keeps what is known of the worker, and sends justified requests.
      worker_step-Kept :
          (w : Worker) (k : History)
          → Kept w
          → Sends h k
          → Kept (worker_step api job w k).0.0 × Sends h (worker_step api job w k).1
      unfolding worker_step
      worker_step-Kept (pending g) k m s =
          (listed-Kept g k _ m refl, request _ (g, m, refl, refl, refl) s)
      worker_step-Kept (deleting g []) k m s = (tt, s)
      worker_step-Kept (deleting g (item ∷ rest)) k m s = (
        looked_at-Kept g rest (cleanup_item api job g item k).0 m.0 m.1.1,
        cleanup_item-Sends g item k m.0 m.1.0 s,
      )
      worker_step-Kept finished k m s = (tt, s)

      record Inv (s : State) : Type 0 where
        workers : All Kept s.workers
        history : Sends h s.history

      turn-Inv : (i : ℕ) (s : State) → Inv s → Inv (turn api job i s)
      unfolding turn
      turn-Inv i s v = elim (Option-cases (get_elem? s.workers i)) [
        | inl e ↦ rw (e, turn) v
        | inr (w, e) ↦
            let (kept, sent) =
              worker_step-Kept w s.history (All-get_elem? Kept s.workers i v.workers e) v.history in
            rw (e, turn)
              (record { workers = All-set Kept s.workers i _ v.workers kept; history = sent })
      ]

      run_schedule-Inv : (is : List ℕ) (s : State) → Inv s → Inv (run_schedule api job is s)
      unfolding run_schedule
      run_schedule-Inv [] s v = v
      run_schedule-Inv (i ∷ is) s v = run_schedule-Inv is (turn api job i s) (turn-Inv i s v)

      pending-Kept : (gs : List Gvk) → All (λ g. Memᴰ g gvks) gs → All Kept (map pending gs)
      pending-Kept [] m = tt
      pending-Kept (g ∷ gs) m = (m.0, pending-Kept gs m.1)

    -- Under every interleaving of the goroutines, cleanup sends nothing but List calls for its owner
    -- label and its kinds, and Delete calls; each deleted object was in the answer to such a List
    -- call, was not tracked, is controlled by the configured owner if there is one, and has an
    -- allowed name if it is cluster-scoped and its kind is restricted.
    pub cleanup_orphans_safe :
        (h : History) (schedule : List ℕ)
        → Sends h (cleanup_orphans api job gvks h schedule).history
    unfolding cleanup_orphans
    cleanup_orphans_safe h schedule =
        (run_schedule-Inv h schedule _ (record {
          workers = pending-Kept h gvks (All-of_mem (λ g. Memᴰ g gvks) gvks λ g m. m);
          history = nothing;
        })).history

-- ===== src/Tracking/Cleanup.antt =====
-- operator/pkg/tracking/tracking.go: CleanupOrphans and cleanupOrphansForGVK.
-- CleanupOrphans runs one goroutine for each kind. A goroutine is a `Worker`, one step of it is a
-- request to the API server with what follows it, and a schedule says whose turn it is: every
-- interleaving of the goroutines is one schedule. An error ends its own goroutine, and the error
-- group keeps the first.
pub mod Safety
pub mod Complete
use konflux_ci.Prelude.{
  is_no_match, is_not_found, ℕ, String, Bool, true, false, List, [], ◌∷◌, ◌≡◌, ◌&&◌, ◌||◌, not,
  Option, none, some, Error, ErrorKind, Result, ok, err, wrap, ◌==◌, string_eq, ◌&◌, get_elem?, set,
  map, if◌then◌else◌,
}
use konflux_ci.Cluster.{Gvk, Object, Request, list_request, delete_request, History, Api}
use konflux_ci.Tracking.Defs.{
  ResourceKey, ClusterScopedAllowList, is_allowed, key_text, OwnershipConfig, Client, is_tracked,
}

-- The arguments of CleanupOrphans.
pub record Job : Type 0 where
  pub client : Client
  pub label_key : String
  pub label_value : String
  pub allow_list : ClusterScopedAllowList

-- One goroutine: its kind before the List call, and the items still to be looked at after it.
pub data Worker : Type 0 where
  pending : Gvk → Worker
  deleting : Gvk → List Object → Worker
  finished : Worker

pub record State : Type 0 where
  pub workers : List Worker
  pub history : History
  pub first_error : Option Error

abbrev pub list_kind : Gvk → Gvk
list_kind g = record g { kind = g.kind & "List" }

abbrev pub item_key : Gvk → Object → ResourceKey
item_key g item = record { gvk = g; namespace = item.namespace; name = item.name }

-- client.IgnoreNotFound
abbrev pub ignore_not_found : Option Error → Option Error
ignore_not_found none = none
ignore_not_found (some e) = if is_not_found e.kind then none else some e

-- errgroup keeps the first error.
abbrev pub keep_first : Option Error → Option Error → Option Error
keep_first none e = e
keep_first (some e) _ = some e

module _ (api : Api) (job : Job) where
  abbrev pub foreign : Option OwnershipConfig → Object → Bool
  foreign none item = false
  foreign (some cfg) item = not (api.is_controlled_by item cfg.owner)

  -- The body of the loop over the items: an error of Delete, and the history after it.
  unfoldable pub cleanup_item : Gvk → Object → History → Option Error × History
  cleanup_item g item h =
      if is_tracked job.client (item_key g item)
      then (none, h)
      else if foreign job.client.ownership item
      then (none, h)
      else if not (is_allowed job.allow_list g item.namespace item.name)
      then (none, h)
      else (
        elim (ignore_not_found (api.delete h g item)) [
          | none ↦ none
          | some e ↦ some (wrap ("failed to delete " & key_text (item_key g item) & ": ") e)
        ],
        delete_request g item ∷ h,
      )

  -- What a goroutine of CleanupOrphans makes of an error of its kind.
  abbrev pub cleanup_error : Gvk → Error → Error
  cleanup_error g e = wrap ("failed to cleanup orphans for " & api.gvk_text g & ": ") e

  abbrev pub listed : Gvk → Result (List Object) → Worker × Option Error
  listed g (ok items) = (deleting g items, none)
  listed g (err e) =
      if is_no_match e.kind
      then (finished, none)
      else (finished, some (cleanup_error g (wrap "failed to list resources: " e)))

  abbrev pub looked_at : Gvk → List Object → Option Error → Worker × Option Error
  looked_at g rest none = (deleting g rest, none)
  looked_at g rest (some e) = (finished, some (cleanup_error g e))

  -- One step of cleanupOrphansForGVK: the List call, one item, or the return.
  unfoldable pub worker_step : Worker → History → (Worker × Option Error) × History
  worker_step (pending g) h = (
    listed g (api.list h (list_kind g) job.label_key job.label_value),
    list_request (list_kind g) job.label_key job.label_value ∷ h,
  )
  worker_step (deleting g []) h = ((finished, none), h)
  worker_step (deleting g (item ∷ rest)) h =
      let (e, h') = cleanup_item g item h in (looked_at g rest e, h')
  worker_step finished h = ((finished, none), h)

  abbrev pub after_step : ℕ → State → (Worker × Option Error) × History → State
  after_step i s ((w, e), h) = record {
    workers = set s.workers i w;
    history = h;
    first_error = keep_first s.first_error e;
  }

  -- The turn of the goroutine at place `i`; a place out of range is no turn at all.
  unfoldable pub turn : ℕ → State → State
  turn i s = elim (get_elem? s.workers i) [
    | none ↦ s
    | some w ↦ after_step i s (worker_step w s.history)
  ]

  unfoldable pub run_schedule : List ℕ → State → State
  run_schedule [] s = s
  run_schedule (i ∷ is) s = run_schedule is (turn i s)

  -- CleanupOrphans under a schedule, from the requests sent before it.
  unfoldable pub cleanup_orphans : List Gvk → History → List ℕ → State
  unfolding run_schedule
  cleanup_orphans gvks h schedule =
      run_schedule schedule (record { workers = map pending gvks; history = h; first_error = none })

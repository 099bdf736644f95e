-- ===== src/Tracking/Cleanup/Complete.antt =====
-- What orphan cleanup has done when every goroutine has returned and none has failed.
use konflux_ci.Prelude.{
  is_no_match, ℕ, true, false, List, [], ◌∷◌, ◌≡◌, ◌≢◌, refl, sym, subst, Option, none, some,
  Result, ok, err, ◌==◌, string_eq, Memᴰ, All, All₂, All₂-set, get_elem?, map, any_of_mem, arith,
  inl, inr, ◌⊎◌, Bool-cases, Option-cases, mem_of_any, eq_of_beq, Error, ErrorKind,
}
use konflux_ci.Cluster.{Gvk, Object, Request, delete_request, History, Api}
use konflux_ci.Tracking.Defs.{
  ClusterScopedAllowList, allowed_names, is_allowed, OwnershipConfig, is_tracked, key_eq,
}
use konflux_ci.Tracking.Cleanup.{
  ignore_not_found, keep_first, Job, Worker, pending, deleting, finished, State, list_kind,
  item_key, foreign, cleanup_item, listed, looked_at, worker_step, turn, run_schedule,
  cleanup_orphans,
}
use konflux_ci.Tracking.Cleanup.Safety.{Allows, MayGo, cleanup_item_cases}

Allows-is_allowed :
    (a : ClusterScopedAllowList) (g : Gvk) (item : Object)
    → Allows a g item
    → is_allowed a g item.namespace item.name ≡ true
unfolding is_allowed
Allows-is_allowed none g item h = refl
Allows-is_allowed (some b) g item h = elim (Bool-cases (item.namespace == "")) [
  | inr n ↦ rw n
  | inl n ↦ elim (Option-cases (allowed_names g b)) [
    | inl m ↦ rw (n, m)
    | inr (names, m) ↦ rw (n, m) (any_of_mem (h b names refl m (eq_of_beq n)))
  ]
]

-- The goroutine has returned.
abbrev pub IsFinished : Worker → Type 0
IsFinished finished = Unit
IsFinished _ = ⊥

module _ (api : Api) (job : Job) where
  -- A Delete call for the object was sent, and answered with no error or with "not found".
  abbrev pub Gone : History → Gvk → Object → Type 0
  Gone h g item =
      (k : History) × (ignore_not_found (api.delete k g item) ≡ none)
      × Memᴰ (delete_request g item) h

  MayGo-untracked :
      (g : Gvk) (item : Object)
      → MayGo api job g item
      → is_tracked job.client (item_key g item) ≡ false
  unfolding is_tracked
  MayGo-untracked g item may = elim (Bool-cases (is_tracked job.client (item_key g item))) [
    | inl t ↦ absurd (may.untracked (mem_of_any _ _ t))
    | inr f ↦ f
  ]

  owned_foreign :
      (o : Option OwnershipConfig) (item : Object)
      → ((cfg : OwnershipConfig) → o ≡ some cfg → api.is_controlled_by item cfg.owner ≡ true)
      → foreign api job o item ≡ false
  owned_foreign none item h = refl
  owned_foreign (some cfg) item h = rw (h cfg refl)

  MayGo-cleanup_item :
      (g : Gvk) (item : Object) (h : History)
      → MayGo api job g item
      → (cleanup_item api job g item h).0 ≡ none
      → Gone (cleanup_item api job g item h).1 g item
  unfolding cleanup_item
  MayGo-cleanup_item g item h may e =
      let t = MayGo-untracked g item may in
      let f = owned_foreign job.client.ownership item may.owned in
      let a = Allows-is_allowed job.allow_list g item may.allowed in
      rw (t, f, a) (h, ground arith, Memᴰ.head refl)

  -- A kind has been dealt with: its resource is not installed, or every object of a List call's
  -- answer that may go is gone.
  pub data Swept (h : History) (g : Gvk) : Type 0 where
    missing :
        (k : History) (e : Error)
        → api.list k (list_kind g) job.label_key job.label_value ≡ err e
        → e.kind ≡ ErrorKind.no_match
        → Swept h g
    swept :
        (k : History) (items : List Object)
        → api.list k (list_kind g) job.label_key job.label_value ≡ ok items
        → ((item : Object) → Memᴰ item items → MayGo api job g item → Gone h g item)
        → Swept h g

  -- How far the goroutine of a kind is.
  abbrev Stage : Option Error → History → Gvk → Worker → Type 0
  Stage e h g (pending g') = g' ≡ g
  Stage e h g (deleting g' rest) =
      (g' ≡ g)
      × (k : History) × (items : List Object) × (api.list k (list_kind g) job.label_key
            job.label_value
          ≡ ok items)
      × ((item : Object)
          → Memᴰ item items
          → Memᴰ item rest ⊎ (MayGo api job g item → Gone h g item))
  Stage e h g finished = (e ≢ none) ⊎ Swept h g

  abbrev Later : History → History → Type 0
  Later h k = (r : Request) → Memᴰ r h → Memᴰ r k

  Swept-Later : (h k : History) (g : Gvk) → Later h k → Swept h g → Swept k g
  Swept-Later h k g later (missing n e answer absent) = missing n e answer absent
  Swept-Later h k g later (swept n items answer gone) =
      swept n items answer
        λ item m may. let (l, answered, sent) = gone item m may in (l, answered, later _ sent)

  Stage-Later :
      (x y : Option Error) (h k : History) (g : Gvk) (w : Worker)
      → (x ≢ none → y ≢ none)
      → Later h k
      → Stage x h g w
      → Stage y k g w
  Stage-Later x y h k g (pending g') f later s = s
  Stage-Later x y h k g (deleting g' rest) f later (p, n, items, answer, gone) = (
    p,
    n,
    items,
    answer,
    λ item m. elim (gone item m) [
      | inl waits ↦ inl waits
      | inr went ↦ inr λ may. let (l, answered, sent) = went may in (l, answered, later _ sent)
    ],
  )
  Stage-Later x y h k g finished f later (inl failed) = inl (f failed)
  Stage-Later x y h k g finished f later (inr s) = inr (Swept-Later h k g later s)

  keep_first-none : (x y : Option Error) → x ≢ none → keep_first x y ≢ none
  keep_first-none x y h = ground arith

  keep_first-some : (x : Option Error) (e : Error) → keep_first x (some e) ≢ none
  keep_first-some x e = ground arith

  is_no_match-kind : (k : ErrorKind) → is_no_match k ≡ true → k ≡ ErrorKind.no_match
  is_no_match-kind k h = ground arith

  listed-Stage :
      (x : Option Error) (h k : History) (g : Gvk) (r : Result (List Object))
      → api.list k (list_kind g) job.label_key job.label_value ≡ r
      → Stage (keep_first x (listed api job g r).1) h g (listed api job g r).0
  listed-Stage x h k g (ok items) e = (refl, k, items, e, λ item m. inl m)
  listed-Stage x h k g (err y) e = elim (Bool-cases (is_no_match y.kind)) [
    | inl p ↦ rw p (inr (missing k y e (is_no_match-kind y.kind p)))
    | inr p ↦ rw p (inl (keep_first-some x _))
  ]

  waiting_cases :
      (h : History) (g : Gvk) (first item : Object) (rest : List Object)
      → (MayGo api job g first → Gone h g first)
      → Memᴰ item (first ∷ rest) ⊎ (MayGo api job g item → Gone h g item)
      → Memᴰ item rest ⊎ (MayGo api job g item → Gone h g item)
  waiting_cases h g first item rest went (inl (Memᴰ.head p)) =
      inr (subst (λ i. MayGo api job g i → Gone h g i) (sym p) went)
  waiting_cases h g first item rest went (inl (Memᴰ.tail m)) = inl m
  waiting_cases h g first item rest went (inr gone) = inr gone

  cleanup_item-Later :
      (g : Gvk) (item : Object) (h : History) → Later h (cleanup_item api job g item h).1
  cleanup_item-Later g item h r m = elim (cleanup_item_cases api job g item h) [
    | inl e ↦ rw e m
    | inr (e, _) ↦ rw e (Memᴰ.tail m)
  ]

  looked_at-Stage :
      (x e : Option Error) (h : History) (g : Gvk) (first : Object) (rest : List Object)
      → (MayGo api job g first → e ≡ none → Gone h g first)
      → Stage x h g (deleting g (first ∷ rest))
      → Stage (keep_first x (looked_at api job g rest e).1) h g (looked_at api job g rest e).0
  looked_at-Stage x none h g first rest went (p, n, items, answer, gone) = (
    p,
    n,
    items,
    answer,
    λ item m. waiting_cases h g first item rest (λ may. went may refl) (gone item m),
  )
  looked_at-Stage x (some e) h g first rest went s = inl (keep_first-some x _)

  worker_step-Stage :
      (x : Option Error) (k : History) (g : Gvk) (w : Worker)
      → Stage x k g w
      → Stage
          (keep_first x (worker_step api job w k).0.1)
          (worker_step api job w k).1
          g
          (worker_step api job w k).0.0
  unfolding worker_step
  worker_step-Stage x k g (pending g') p =
      let next = worker_step api job (pending g') k in
      let q : Stage (keep_first x next.0.1) next.1 g' next.0.0 =
        listed-Stage x next.1 k g' _ refl in
      subst (λ z. Stage (keep_first x next.0.1) next.1 z next.0.0) p q
  worker_step-Stage x k g (deleting g' []) (p, n, items, answer, gone) = inr (
      swept n items answer
        λ item m may. elim (gone item m) [ inl waits ↦ elim waits [ ] | inr went ↦ went may ])
  worker_step-Stage x k g (deleting g' (item ∷ rest)) s =
      let next = worker_step api job (deleting g' (item ∷ rest)) k in
      let later =
        Stage-Later x x k next.1 g (deleting g' (item ∷ rest)) (λ f. f)
          (cleanup_item-Later g' item k) s in
      let q : Stage x next.1 g' (deleting g' (item ∷ rest)) =
        subst (λ z. Stage x next.1 z (deleting g' (item ∷ rest))) (sym s.0) later in
      subst (λ z. Stage (keep_first x next.0.1) next.1 z next.0.0) s.0
        (looked_at-Stage x (cleanup_item api job g' item k).0 next.1 g' item rest
          (MayGo-cleanup_item g' item k) q)
  worker_step-Stage x k g finished (inl f) = inl (keep_first-none x none f)
  worker_step-Stage x k g finished (inr s) = inr s

  worker_step-Later : (w : Worker) (k : History) → Later k (worker_step api job w k).1
  unfolding worker_step
  worker_step-Later (pending g) k r m = Memᴰ.tail m
  worker_step-Later (deleting g []) k r m = m
  worker_step-Later (deleting g (item ∷ rest)) k r m = cleanup_item-Later g item k r m
  worker_step-Later finished k r m = m

  abbrev Stages : List Gvk → State → Type 0
  Stages gvks s = All₂ (Stage s.first_error s.history) gvks s.workers

  turn-Stages :
      (gvks : List Gvk) (i : ℕ) (s : State) → Stages gvks s → Stages gvks (turn api job i s)
  unfolding turn
  turn-Stages gvks i s v = elim (Option-cases (get_elem? s.workers i)) [
    | inl e ↦ rw (e, turn) v
    | inr (w, e) ↦
        let next = worker_step api job w s.history in
        let y = keep_first s.first_error next.0.1 in
        rw (e, turn)
          (All₂-set (Stage s.first_error s.history) (Stage y next.1) gvks s.workers i next.0.0
            (λ g c.
              Stage-Later s.first_error y s.history next.1 g c
                (keep_first-none s.first_error next.0.1) (worker_step-Later w s.history))
            (λ g. worker_step-Stage s.first_error s.history g w) e v)
  ]

  run_schedule-Stages :
      (gvks : List Gvk) (is : List ℕ) (s : State)
      → Stages gvks s
      → Stages gvks (run_schedule api job is s)
  unfolding run_schedule
  run_schedule-Stages gvks [] s v = v
  run_schedule-Stages gvks (i ∷ is) s v =
      run_schedule-Stages gvks is (turn api job i s) (turn-Stages gvks i s v)

  pending-Stages :
      (gvks : List Gvk) (x : Option Error) (h : History) → All₂ (Stage x h) gvks (map pending gvks)
  pending-Stages [] x h = tt
  pending-Stages (g ∷ gvks) x h = (refl, pending-Stages gvks x h)

  Stages-Swept :
      (gvks : List Gvk) (ws : List Worker) (x : Option Error) (h : History)
      → x ≡ none
      → All IsFinished ws
      → All₂ (Stage x h) gvks ws
      → All (Swept h) gvks
  Stages-Swept [] [] x h e f s = tt
  Stages-Swept (g ∷ gs) (finished ∷ ws) x h e f (inl failed, ss) = absurd (failed e)
  Stages-Swept (g ∷ gs) (finished ∷ ws) x h e f (inr done, ss) =
      (done, Stages-Swept gs ws x h e f.1 ss)
  Stages-Swept (g ∷ gs) (pending k ∷ ws) x h e f s = absurd f.0
  Stages-Swept (g ∷ gs) (deleting k r ∷ ws) x h e f s = absurd f.0
  Stages-Swept [] (w ∷ ws) x h e f s = absurd s
  Stages-Swept (g ∷ gs) [] x h e f s = absurd s

  -- Under every interleaving, when all goroutines have returned and no error was kept, each kind
  -- is either not installed, or every object in the answer to one of its List calls that was not
  -- tracked, is the owner's and has an allowed name was deleted: a Delete call for it was sent and
  -- answered with no error or with "not found".
  pub cleanup_orphans_complete :
      (gvks : List Gvk) (h : History) (schedule : List ℕ)
      → All IsFinished (cleanup_orphans api job gvks h schedule).workers
      → (cleanup_orphans api job gvks h schedule).first_error ≡ none
      → All (Swept (cleanup_orphans api job gvks h schedule).history) gvks
  unfolding cleanup_orphans
  cleanup_orphans_complete gvks h schedule f e =
      Stages-Swept gvks _ _ _ e f (run_schedule-Stages gvks schedule _ (pending-Stages gvks none h))

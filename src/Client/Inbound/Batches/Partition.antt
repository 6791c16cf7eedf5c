-- ===== src/Client/Inbound/Batches/Partition.antt =====
-- The containers of a round share out the results: none is lost, doubled or sent for another task.
use mathlib.Core.List.{Perm}
use verfploeter.Prelude.{
  ℕ, ◌≤◌, ◌<◌, ◌≡◌, ◌≢◌, refl, sym, ap, subst, ◌∙◌, Bool, false, List, [], ◌∷◌, ◌++◌, append_assoc,
  some, Default, length, arith, ◌==◌, All, value, u32_max, Bool-cases, inl, inr, ==_iff,
}
use verfploeter.Schema.Metadata.{Metadata}
use verfploeter.Schema.Client
use verfploeter.Schema.Result.{Result}
use verfploeter.Schema.TaskResult.{TaskResult}
use verfploeter.Client.Inbound.{result_task_id, State, sort_by_task_id, drain_filter, transmit}
use verfploeter.Client.Inbound.Sorting.{IsSorted, sort-perm, sort-IsSorted}
use verfploeter.Client.Inbound.Batches.{
  prepend, single, batches, Starts, prepend-Starts, send_all, transmit-batches,
}

module _ {U : Type 0} ⦃u : Default U⦄ where
  -- All results, in the order of sending.
  unfoldable pub results_of : List (TaskResult U) → List (Result U)
  results_of [] = []
  results_of (b ∷ bs) = b.result_list ++ results_of bs

  results_of-prepend :
      (tr : TaskResult U) (bs : List (TaskResult U))
      → results_of (prepend tr bs) ≡ tr.result_list ++ results_of bs
  unfolding results_of prepend
  results_of-prepend tr [] = refl
  results_of-prepend tr (b ∷ bs) =
      ground (arith, append_assoc tr.result_list b.result_list (results_of bs))

  -- The containers of a list of results hold these results, in their order.
  pub results_of-batches :
      (metadata : Metadata U) (rs : List (Result U)) → results_of (batches metadata rs) ≡ rs
  unfolding batches
  results_of-batches metadata [] = unfold results_of in refl
  results_of-batches metadata (r ∷ rs) =
      results_of-prepend (single metadata r) (batches metadata rs)
      ∙ unfold single in ap (◌∷◌ r) (results_of-batches metadata rs)

  -- A container for one task: its results are all of that task, and it names the client.
  pub record IsBatch (metadata : Metadata U) (b : TaskResult U) : Type 0 where
    pub client : b.client ≡ some (record Client.new { metadata = some metadata })
    pub nonempty : 0 < length b.result_list
    pub of_task : All (λ r. result_task_id r ≡ b.task_id) b.result_list
    pub unfinished : b.is_finished ≡ false

  -- Task ids grow from container to container, so each task has one.
  abbrev pub Increases : List (TaskResult U) → Type 0
  Increases [] = Unit {0}
  Increases (b ∷ []) = Unit {0}
  Increases (b ∷ c ∷ bs) = (b.task_id < c.task_id) × Increases (c ∷ bs)

  single-IsBatch : (metadata : Metadata U) (r : Result U) → IsBatch metadata (single metadata r)
  unfolding single
  single-IsBatch metadata r = record {
    client = refl;
    nonempty = omega arith;
    of_task = (refl, tt);
    unfinished = refl;
  }

  prepend-IsBatch :
      (metadata : Metadata U) (r : Result U) (bs : List (TaskResult U))
      → All (IsBatch metadata) bs
      → All (IsBatch metadata) (prepend (single metadata r) bs)
  unfolding prepend
  prepend-IsBatch metadata r [] h = (single-IsBatch metadata r, tt)
  prepend-IsBatch metadata r (b ∷ bs) h = elim (Bool-cases (result_task_id r == b.task_id)) [
    | inl same ↦
        unfold single in
        rw same (
          record {
            client = refl;
            nonempty = omega arith;
            of_task = (
              refl,
              subst (λ t. All (λ x. result_task_id x ≡ t) b.result_list)
                  (sym ((==_iff (result_task_id r) b.task_id).0 same)) h.0.of_task,
            );
            unfinished = refl;
          },
          h.1,
        )
    | inr new ↦ unfold single in rw new (single-IsBatch metadata r, h)
  ]

  -- Every container has a result, holds results of its own task only, names the client and is not
  -- marked as finished.
  pub batches-IsBatch :
      (metadata : Metadata U) (rs : List (Result U)) → All (IsBatch metadata) (batches metadata rs)
  unfolding batches
  batches-IsBatch metadata [] = tt
  batches-IsBatch metadata (r ∷ rs) =
      prepend-IsBatch metadata r (batches metadata rs) (batches-IsBatch metadata rs)

  prepend-Increases :
      (metadata : Metadata U) (r : Result U) (t : ℕ) (bs : List (TaskResult U))
      → Starts t bs
      → result_task_id r ≤ t
      → Increases bs
      → Increases (prepend (single metadata r) bs)
  unfolding prepend single
  prepend-Increases metadata r t [] e le s = absurd e
  prepend-Increases metadata r t (b ∷ []) e le s = ground arith
  prepend-Increases metadata r t (b ∷ c ∷ bs) e le s = ground arith

  -- From sorted results the task ids of the containers grow strictly: each task has one container.
  pub batches-Increases :
      (metadata : Metadata U) (rs : List (Result U)) → IsSorted rs → Increases (batches metadata rs)
  unfolding batches
  batches-Increases metadata [] s = tt
  batches-Increases metadata (r ∷ []) s = tt
  batches-Increases metadata (r ∷ x ∷ xs) s =
      prepend-Increases metadata r (result_task_id x) (batches metadata (x ∷ xs))
        (prepend-Starts (single metadata x) (batches metadata xs)) s.0
        (batches-Increases metadata (x ∷ xs) s.1)

  -- The containers share out the results: each result is in one of them, each container is for one
  -- task, and each task has one container.
  pub record IsPartition (metadata : Metadata U) (rs : List (Result U)) (bs : List (TaskResult U))
      : Type 0 where
    pub results : Perm (results_of bs) rs
    pub containers : All (IsBatch metadata) bs
    pub increases : Increases bs

  batches-IsPartition :
      (metadata : Metadata U) (rs : List (Result U))
      → IsPartition metadata rs (batches metadata (sort_by_task_id rs))
  batches-IsPartition metadata rs = record {
    results = rw (results_of-batches metadata (sort_by_task_id rs)) (sort-perm rs);
    containers = batches-IsBatch metadata (sort_by_task_id rs);
    increases = batches-Increases metadata (sort_by_task_id rs) (sort-IsSorted rs);
  }

  -- If no result in the queue has the task id 2^32 - 1, a round empties the queue and sends
  -- containers in the order of their task ids that share out the ping results: none is lost or
  -- doubled, each container has results of its own task, names the client and is not marked as
  -- finished, and each task has one container. The delivered ones add their lengths to the counter.
  pub transmit-IsPartition :
      {W : Type 0} (send_result : TaskResult U → W → W × Bool) (metadata : Metadata U) (world : W)
      (s : State U) (rq : List (Result U))
      → s.result_queue ≡ some rq
      → All (λ r. result_task_id r ≢ u32_max) rq
      → (bs : List (TaskResult U)) × IsPartition metadata (drain_filter rq) bs
        × (transmit send_result metadata world s
            ≡ value (
              (send_all send_result (world, s.packets_transmitted) bs).0,
              record s {
                result_queue = some [];
                packets_transmitted = (send_all send_result (world, s.packets_transmitted) bs).1;
              },
            ))
  transmit-IsPartition send_result metadata world s rq e h = (
    batches metadata (sort_by_task_id (drain_filter rq)),
    batches-IsPartition metadata (drain_filter rq),
    transmit-batches send_result metadata world s rq e h,
  )

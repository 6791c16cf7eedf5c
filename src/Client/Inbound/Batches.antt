-- ===== src/Client/Inbound/Batches.antt =====
-- What a round of the packet transmitter sends: one container for each task.
pub mod Partition
use verfploeter.Prelude.{
  ℕ, ◌+◌, ◌≤◌, ◌<◌, ◌≡◌, ◌≢◌, refl, sym, ap, ◌∙◌, Bool, true, false, List, [], ◌∷◌, ◌++◌,
  append_assoc, Option, none, some, Default, length, value, arith, ◌==◌, if◌then◌else◌, Bool-cases,
  is_empty, ==_iff, inl, inr, u32_max, All,
}
use verfploeter.Schema.Metadata.{Metadata}
use verfploeter.Schema.Client
use verfploeter.Schema.Result.{Result}
use verfploeter.Schema.TaskResult
use verfploeter.Schema.TaskResult.{TaskResult}
use verfploeter.Client.Inbound.{
  result_task_id, flush, push_result, new_container, group_results, transmit_results,
  first_container, transmit, State, sort_by_task_id, drain_filter,
}
use verfploeter.Client.Inbound.Sorting.{sort-All, drain-All}

module _ {U : Type 0} ⦃u : Default U⦄ where
  -- A container in front of others: joined with the first if that is for the same task.
  prepend : TaskResult U → List (TaskResult U) → List (TaskResult U)
  prepend tr [] = tr ∷ []
  prepend tr (b ∷ bs) =
      if tr.task_id == b.task_id
      then record tr { result_list = tr.result_list ++ b.result_list } ∷ bs
      else tr ∷ b ∷ bs

  -- The container of one result, from the client of the given metadata.
  single : Metadata U → Result U → TaskResult U
  single metadata r = record {
    task_id = result_task_id r;
    client = some (record Client.new { metadata = some metadata });
    result_list = r ∷ [];
    is_finished = false;
    unknown_fields = u.default;
  }

  -- The specification: runs of results with one task id.
  unfoldable pub batches : Metadata U → List (Result U) → List (TaskResult U)
  unfolding prepend single
  batches metadata [] = []
  batches metadata (r ∷ rs) = prepend (single metadata r) (batches metadata rs)

module _ {U : Type 0} ⦃u : Default U⦄ {W : Type 0} (send_result : TaskResult U → W → W × Bool) where
  deliver : W × ℕ → TaskResult U → W × ℕ
  deliver (world, transmitted) b =
      let (world', delivered) = send_result b world in
      (world', if delivered then transmitted + length b.result_list else transmitted)

  -- Each container in turn; a delivered one adds its length to the counter.
  unfoldable pub send_all : W × ℕ → List (TaskResult U) → W × ℕ
  unfolding deliver
  send_all out [] = out
  send_all out (b ∷ bs) = send_all (deliver out b) bs

module _ {U : Type 0} ⦃u : Default U⦄ where
  prepend-push :
      (tr : TaskResult U) (r : Result U) (metadata : Metadata U) (bs : List (TaskResult U))
      → tr.task_id ≡ result_task_id r
      → prepend (push_result r tr) bs ≡ prepend tr (prepend (single metadata r) bs)
  unfolding prepend single push_result
  prepend-push tr r metadata [] e = ground arith
  prepend-push tr r metadata (b ∷ bs) e =
      ground (arith, append_assoc tr.result_list (r ∷ []) b.result_list)

  -- Containers that hold a result each, the first one for task `t`.
  abbrev Starts : ℕ → List (TaskResult U) → Type 0
  Starts t [] = ⊥
  Starts t (b ∷ bs) = b.task_id ≡ t

  prepend-Starts :
      (tr : TaskResult U) (bs : List (TaskResult U)) → Starts tr.task_id (prepend tr bs)
  unfolding prepend
  prepend-Starts tr [] = refl
  prepend-Starts tr (b ∷ bs) = ground arith

  prepend-other :
      (tr : TaskResult U) (bs : List (TaskResult U)) (t : ℕ)
      → Starts t bs
      → (tr.task_id == t) ≡ false
      → prepend tr bs ≡ tr ∷ bs
  unfolding prepend
  prepend-other tr [] t s e = absurd s
  prepend-other tr (b ∷ bs) t s e = ground arith

module _ {U : Type 0} ⦃u : Default U⦄ {W : Type 0} (send_result : TaskResult U → W → W × Bool)
    (metadata : Metadata U) where
  abbrev finish : TaskResult U × (W × ℕ) → W × ℕ
  finish (tr, out) = flush send_result tr out

  flush-deliver :
      (tr : TaskResult U) (out : W × ℕ) (x : Result U) (xs : List (Result U))
      → tr.result_list ≡ x ∷ xs
      → flush send_result tr out ≡ deliver send_result out tr
  unfolding flush deliver
  flush-deliver tr (world, transmitted) x xs e = simp (ap is_empty e)

  group_results-same :
      (tr : TaskResult U) (out : W × ℕ) (r : Result U) (rs : List (Result U))
      → (tr.task_id == result_task_id r) ≡ true
      → group_results send_result metadata tr out (r ∷ rs)
        ≡ group_results send_result metadata (push_result r tr) out rs
  unfolding group_results
  group_results-same tr out r rs e = rw e

  group_results-new :
      (tr : TaskResult U) (out : W × ℕ) (r : Result U) (rs : List (Result U))
      → (tr.task_id == result_task_id r) ≡ false
      → group_results send_result metadata tr out (r ∷ rs)
        ≡ group_results send_result metadata (single metadata r) (flush send_result tr out) rs
  unfolding group_results single
  group_results-new tr out r rs e = rw e

  send_all-new :
      (tr : TaskResult U) (out : W × ℕ) (r : Result U) (rs : List (Result U)) (x : Result U)
      (xs : List (Result U))
      → tr.result_list ≡ x ∷ xs
      → (tr.task_id == result_task_id r) ≡ false
      → send_all send_result (flush send_result tr out) (batches metadata (r ∷ rs))
        ≡ send_all send_result out (prepend tr (batches metadata (r ∷ rs)))
  unfolding batches send_all
  send_all-new tr out r rs x xs e new = rw (
    prepend-other tr (batches metadata (r ∷ rs)) (result_task_id r)
        (prepend-Starts (single metadata r) (batches metadata rs)) new,
    flush-deliver tr out x xs e,
  )

  group_results-batches :
      (tr : TaskResult U) (out : W × ℕ) (rs : List (Result U)) (x : Result U) (xs : List (Result U))
      → tr.result_list ≡ x ∷ xs
      → finish (group_results send_result metadata tr out rs)
        ≡ send_all send_result out (prepend tr (batches metadata rs))
  group_results-batches tr out [] x xs e =
      unfold group_results batches send_all prepend in flush-deliver tr out x xs e
  group_results-batches tr out (r ∷ rs) x xs e =
      elim (Bool-cases (tr.task_id == result_task_id r)) [
        | inl same ↦
            ap finish (group_results-same tr out r rs same)
            ∙ group_results-batches (push_result r tr) out rs x (xs ++ (r ∷ []))
                (unfold push_result in ap (λ (l : List (Result U)). l ++ (r ∷ [])) e)
            ∙ ap (send_all send_result out) (
                unfold batches in
                prepend-push tr r metadata (batches metadata rs) ((==_iff _ _).0 same))
        | inr new ↦
            ap finish (group_results-new tr out r rs new)
            ∙ group_results-batches (single metadata r) (flush send_result tr out) rs r []
                (unfold single in refl)
            ∙ unfold batches in send_all-new tr out r rs x xs e new
      ]

  pub transmit_results-batches :
      (out : W × ℕ) (rs : List (Result U))
      → All (λ r. result_task_id r ≢ u32_max) rs
      → transmit_results send_result metadata out rs
        ≡ send_all send_result out (batches metadata rs)
  transmit_results-batches out [] h =
      unfold transmit_results batches send_all group_results flush in refl
  transmit_results-batches out (r ∷ rs) h =
      unfold transmit_results batches flush in
      ap finish (group_results-new first_container out r rs (ground (arith, h.0)))
      ∙ group_results-batches (single metadata r) out rs r [] (unfold single in refl)

  -- If no result in the queue has the task id 2^32 - 1, one round empties the queue, sends one
  -- container for each run of equal task ids among the sorted ping results, in order, and adds the
  -- lengths of the delivered ones to the counter.
  pub transmit-batches :
      (world : W) (s : State U) (rq : List (Result U))
      → s.result_queue ≡ some rq
      → All (λ r. result_task_id r ≢ u32_max) rq
      → let out =
          send_all send_result
            (world, s.packets_transmitted)
            (batches metadata (sort_by_task_id (drain_filter rq))) in
        transmit send_result metadata world s
        ≡ value (out.0, record s { result_queue = some []; packets_transmitted = out.1 })
  unfolding transmit
  transmit-batches world s rq e h =
      let rs = sort_by_task_id (drain_filter rq) in
      let same =
        transmit_results-batches (world, s.packets_transmitted) rs
          (sort-All _ (drain_filter rq) (drain-All _ rq h)) in
      ground (arith, same)

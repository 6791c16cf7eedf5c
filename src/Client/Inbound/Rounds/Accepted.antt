-- ===== src/Client/Inbound/Rounds/Accepted.antt =====
-- What a server that accepts every result has received, and lists of results.
use verfploeter.Prelude.{
  ℕ, suc, ◌+◌, ◌≡◌, ◌≢◌, ◌∙◌, refl, sym, ap, Bool, true, List, [], ◌∷◌, ◌++◌, append_assoc,
  append-nil, Default, arith, length, length-append, All, u32_max, Option, none, some,
}
use verfploeter.Schema.Result
use verfploeter.Schema.Result.{Result}
use verfploeter.Schema.TaskResult.{TaskResult}
use verfploeter.Client.Inbound.{drain_filter, insert_by_task_id, sort_by_task_id, result_task_id}
use verfploeter.Client.Inbound.Sorting.{of_task}
use verfploeter.Client.Inbound.Batches.{send_all}
use verfploeter.Client.Inbound.Batches.Partition.{results_of}
use verfploeter.Client.Inbound.Rounds.{followed}

-- A server that accepts every result; it keeps what it got.
abbrev pub accept : {U : Type 0} → TaskResult U → List (TaskResult U) → List (TaskResult U) × Bool
accept tr got = (got ++ (tr ∷ []), true)

module _ {U : Type 0} ⦃u : Default U⦄ where
  pub of_task-append :
      (t : ℕ) (xs ys : List (Result U)) → of_task t (xs ++ ys) ≡ of_task t xs ++ of_task t ys
  unfolding of_task
  of_task-append t [] ys = refl
  of_task-append t (x ∷ xs) ys = ground (arith, of_task-append t xs ys)

  pub results_of-append :
      (bs cs : List (TaskResult U)) → results_of (bs ++ cs) ≡ results_of bs ++ results_of cs
  unfolding results_of
  results_of-append [] cs = refl
  results_of-append (b ∷ bs) cs =
      ap (◌++◌ b.result_list) (results_of-append bs cs)
      ∙ sym (append_assoc b.result_list (results_of bs) (results_of cs))

  length-insert :
      (r : Result U) (xs : List (Result U)) → length (insert_by_task_id r xs) ≡ suc (length xs)
  unfolding insert_by_task_id
  length-insert r [] = refl
  length-insert r (x ∷ xs) = ground (arith, length-insert r xs)

  pub length-sort : (xs : List (Result U)) → length (sort_by_task_id xs) ≡ length xs
  unfolding sort_by_task_id
  length-sort [] = refl
  length-sort (x ∷ xs) = omega (arith, length-insert x (sort_by_task_id xs), length-sort xs)

  pub send_all-accept :
      (bs got : List (TaskResult U)) (n : ℕ)
      → send_all accept (got, n) bs ≡ (got ++ bs, n + length (results_of bs))
  unfolding send_all results_of
  send_all-accept [] got n =
      rw (append-nil got) (let e : n + 0 ≡ n = omega arith in ap (λ k. (got, k)) (sym e))
  send_all-accept (b ∷ bs) got n =
      send_all-accept bs (got ++ (b ∷ [])) (n + length b.result_list) ∙ λ i.
      (append_assoc got (b ∷ []) bs i, sum i)
    where
      sum :
          n + length b.result_list + length (results_of bs)
          ≡ n + length (b.result_list ++ results_of bs)
      sum = omega (arith, length-append b.result_list (results_of bs))

  -- A result that the transmitter sends on: it has a ping, for a task that a container can be for.
  abbrev pub IsSendable : Result U → Type 0
  IsSendable r = (Result.has_ping r ≡ true) × (result_task_id r ≢ u32_max)

  pub targets :
      (rq : List (Result U)) → All IsSendable rq → All (λ r. result_task_id r ≢ u32_max) rq
  targets [] g = tt
  targets (r ∷ rq) g = (g.0.1, targets rq g.1)

  pub drain-id : (rq : List (Result U)) → All IsSendable rq → drain_filter rq ≡ rq
  unfolding drain_filter
  drain-id [] g = refl
  drain-id (r ∷ rq) g = rw (g.0.0, drain-id rq g.1)

  pub followed-append :
      (o : Option (Result U)) (rs : List (Result U)) → followed o rs ≡ followed o [] ++ rs
  followed-append none rs = refl
  followed-append (some r) rs = refl

  pub left_of : (P : Result U → Type 0) (xs ys : List (Result U)) → All P (xs ++ ys) → All P xs
  left_of P [] ys p = tt
  left_of P (x ∷ xs) ys p = (p.0, left_of P xs ys p.1)

  pub right_of : (P : Result U → Type 0) (xs ys : List (Result U)) → All P (xs ++ ys) → All P ys
  right_of P [] ys p = p
  right_of P (x ∷ xs) ys p = right_of P xs ys p.1

  pub All-append :
      (P : Result U → Type 0) (xs ys : List (Result U)) → All P xs → All P ys → All P (xs ++ ys)
  All-append P [] ys p q = q
  All-append P (x ∷ xs) ys p q = (p.0, All-append P xs ys p.1 q)

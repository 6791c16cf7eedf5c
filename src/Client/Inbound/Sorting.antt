-- ===== src/Client/Inbound/Sorting.antt =====
-- The sort by task id: the same results, in order, and equal task ids in the order of arrival.
use mathlib.Core.List.{Perm}
use mathlib.Core.List.Perm
use verfploeter.Prelude.{
  ℕ, ◌≤◌, ◌≡◌, refl, List, [], ◌∷◌, Default, arith, ◌==◌, leb, if◌then◌else◌, Bool-cases, inl, inr,
  All,
}
use verfploeter.Schema.Result.{Result}
use verfploeter.Client.Inbound.{result_task_id, insert_by_task_id, sort_by_task_id, drain_filter}

-- Each task id is at most the next one.
abbrev pub IsSorted : {U : Type 0} ⦃u : Default U⦄ → List (Result U) → Type 0
IsSorted [] = Unit {0}
IsSorted (r ∷ []) = Unit {0}
IsSorted (r ∷ x ∷ xs) = (result_task_id r ≤ result_task_id x) × IsSorted (x ∷ xs)

module _ {U : Type 0} ⦃u : Default U⦄ where
  -- The results of one task, in their order.
  unfoldable pub of_task : ℕ → List (Result U) → List (Result U)
  of_task t [] = []
  of_task t (r ∷ rs) = let rest = of_task t rs in if result_task_id r == t then r ∷ rest else rest

  insert-perm : (r : Result U) (xs : List (Result U)) → Perm (insert_by_task_id r xs) (r ∷ xs)
  unfolding insert_by_task_id
  insert-perm r [] = Perm.refl _
  insert-perm r (x ∷ xs) = elim (Bool-cases (leb (result_task_id r) (result_task_id x))) [
    | inl e ↦ rw e (Perm.refl _)
    | inr e ↦ rw e (Perm.trans (Perm.cons x (insert-perm r xs)) (Perm.swap r x xs))
  ]

  -- The sort gives the same results in another order.
  pub sort-perm : (xs : List (Result U)) → Perm (sort_by_task_id xs) xs
  unfolding sort_by_task_id
  sort-perm [] = Perm.refl []
  sort-perm (x ∷ xs) = Perm.trans (insert-perm x (sort_by_task_id xs)) (Perm.cons x (sort-perm xs))

  insert-IsSorted :
      (r : Result U) (xs : List (Result U)) → IsSorted xs → IsSorted (insert_by_task_id r xs)
  unfolding insert_by_task_id
  insert-IsSorted r [] s = tt
  insert-IsSorted r (x ∷ []) s = ground arith
  insert-IsSorted r (x ∷ y ∷ ys) s = ground (arith, insert-IsSorted r (y ∷ ys) s.1)

  -- Task ids do not fall in what the sort gives.
  pub sort-IsSorted : (xs : List (Result U)) → IsSorted (sort_by_task_id xs)
  unfolding sort_by_task_id
  sort-IsSorted [] = tt
  sort-IsSorted (x ∷ xs) = insert-IsSorted x (sort_by_task_id xs) (sort-IsSorted xs)

  insert-of_task :
      (t : ℕ) (r : Result U) (xs : List (Result U))
      → of_task t (insert_by_task_id r xs) ≡ of_task t (r ∷ xs)
  unfolding insert_by_task_id of_task
  insert-of_task t r [] = refl
  insert-of_task t r (x ∷ xs) = ground (arith, insert-of_task t r xs)

  -- The sort keeps the order of the results of each task.
  pub sort-of_task : (t : ℕ) (xs : List (Result U)) → of_task t (sort_by_task_id xs) ≡ of_task t xs
  unfolding sort_by_task_id of_task
  sort-of_task t [] = refl
  sort-of_task t (x ∷ xs) =
      ground (arith, insert-of_task t x (sort_by_task_id xs), sort-of_task t xs)

  insert-All :
      (P : Result U → Type 0) (r : Result U) (xs : List (Result U))
      → P r
      → All P xs
      → All P (insert_by_task_id r xs)
  unfolding insert_by_task_id
  insert-All P r [] p h = (p, tt)
  insert-All P r (x ∷ xs) p h = ground (arith, insert-All P r xs p h.1)

  pub sort-All :
      (P : Result U → Type 0) (xs : List (Result U)) → All P xs → All P (sort_by_task_id xs)
  unfolding sort_by_task_id
  sort-All P [] h = tt
  sort-All P (x ∷ xs) h = insert-All P x (sort_by_task_id xs) h.0 (sort-All P xs h.1)

  pub drain-All :
      (P : Result U → Type 0) (xs : List (Result U)) → All P xs → All P (drain_filter xs)
  unfolding drain_filter
  drain-All P [] h = tt
  drain-All P (x ∷ xs) h = ground (arith, drain-All P xs h.1)

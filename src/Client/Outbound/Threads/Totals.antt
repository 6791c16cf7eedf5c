-- ===== src/Client/Outbound/Threads/Totals.antt =====
-- Sums over the threads.
use verfploeter.Prelude.{ℕ, ◌+◌, ◌≡◌, List, [], ◌∷◌, ◌++◌, arith}

module _ {A : Type 0} (f : A → ℕ) where
  unfoldable pub sum_of : List A → ℕ
  sum_of [] = 0
  sum_of (x ∷ xs) = f x + sum_of xs

  pub sum_of-append : (xs ys : List A) → sum_of (xs ++ ys) ≡ sum_of xs + sum_of ys
  unfolding sum_of
  sum_of-append [] ys = omega arith
  sum_of-append (x ∷ xs) ys = omega (arith, sum_of-append xs ys)

  pub sum_of-middle :
      (xs ys : List A) (y : A) → sum_of (xs ++ (y ∷ ys)) ≡ sum_of xs + f y + sum_of ys
  unfolding sum_of
  sum_of-middle xs ys y = omega (arith, sum_of-append xs (y ∷ ys))

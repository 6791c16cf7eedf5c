-- ===== src/Server/Subscriptions.antt =====
-- The subscription list of VerfploeterService: `R` is the type Sender<TaskResult>. The history of
-- registrations and disconnections is the specification.
use verfploeter.Prelude.{
  ℕ, ◌≡◌, refl, ap, Bool, false, List, [], ◌∷◌, ◌++◌, Option, none, some, arith, append-nil,
  append_assoc, not, ◌&&◌, ◌||◌, Bool-cases, ==_iff, Option-cases, inl, inr, ◌∙◌, ◌==◌,
  if◌then◌else◌,
}
use verfploeter.Server.HashMap.{get, insert, remove, get-insert, get-remove}

module _ {R : Type 0} where
  unfoldable pub register_subscriber : ℕ → R → List (ℕ × List R) → List (ℕ × List R)
  register_subscriber task_id tx list = elim (get task_id list) [
    | some subscribers ↦ insert task_id (subscribers ++ (tx ∷ [])) list
    | none ↦ insert task_id (tx ∷ []) list
  ]

  unfoldable pub get_subscribers : ℕ → List (ℕ × List R) → Option (List R)
  get_subscribers task_id list = get task_id list

  unfoldable pub disconnect_subscribers : ℕ → List (ℕ × List R) → List (ℕ × List R)
  disconnect_subscribers task_id list = elim (get task_id list) [
    | some subscribers ↦ remove task_id list
    | none ↦ list
  ]

-- What clients did: `subscribe_result` and `task_finished`.
pub data Action (R : Type 0) : Type 0 where
  subscribed : ℕ → R → Action R
  finished : ℕ → Action R

module _ {R : Type 0} where
  unfoldable pub act : Action R → List (ℕ × List R) → List (ℕ × List R)
  act (subscribed task_id tx) list = register_subscriber task_id tx list
  act (finished task_id) list = disconnect_subscribers task_id list

  unfoldable pub run : List (Action R) → List (ℕ × List R) → List (ℕ × List R)
  run [] list = list
  run (a ∷ actions) list = run actions (act a list)

  -- The specification: the subscriptions to a task that no later notification has ended.
  finishes : ℕ → List (Action R) → Bool
  finishes t [] = false
  finishes t (subscribed k tx ∷ actions) = finishes t actions
  finishes t (finished k ∷ actions) = k == t || finishes t actions

  unfoldable pub live : ℕ → List (Action R) → List R
  unfolding finishes
  live t [] = []
  live t (subscribed k tx ∷ actions) =
      let rest = live t actions in if k == t && not (finishes t actions) then tx ∷ rest else rest
  live t (finished k ∷ actions) = live t actions

  -- The map has no entry for a task without subscribers.
  abbrev pub nonempty : List R → Option (List R)
  nonempty [] = none
  nonempty (x ∷ xs) = some (x ∷ xs)

  nonempty-snoc : (xs : List R) (x : R) → nonempty (xs ++ (x ∷ [])) ≡ some (xs ++ (x ∷ []))
  nonempty-snoc [] x = refl
  nonempty-snoc (y ∷ ys) x = refl

  abbrev held : Option (List R) → List R
  held none = []
  held (some xs) = xs

  held-nonempty : (xs : List R) → held (nonempty xs) ≡ xs
  held-nonempty [] = refl
  held-nonempty (x ∷ xs) = refl

  register-insert :
      (k : ℕ) (tx : R) (list : List (ℕ × List R))
      → register_subscriber k tx list ≡ insert k (held (get k list) ++ (tx ∷ [])) list
  unfolding register_subscriber
  register-insert k tx list = elim (Option-cases (get k list)) [
    | inl e ↦ rw (register_subscriber, e)
    | inr (xs, e) ↦ rw (register_subscriber, e)
  ]

  get-subscribed :
      (t k : ℕ) (tx : R) (old : List R) (list : List (ℕ × List R))
      → get t list ≡ nonempty old
      → get t (act (subscribed k tx) list) ≡ nonempty (if k == t then old ++ (tx ∷ []) else old)
  unfolding act
  get-subscribed t k tx old list e = elim (Bool-cases (k == t)) [
    | inl same ↦
        rw (register-insert k tx list, get-insert k t _ list, same)
          (rw ((==_iff k t).0 same, e, held-nonempty old, nonempty-snoc old tx))
    | inr other ↦ rw (register-insert k tx list, get-insert k t _ list, other) e
  ]

  disconnect-get :
      (t k : ℕ) (list : List (ℕ × List R))
      → get t (disconnect_subscribers k list) ≡ (if k == t then none else get t list)
  unfolding disconnect_subscribers
  disconnect-get t k list = elim (Option-cases (get k list)) [
    | inl e ↦
        rw (disconnect_subscribers, e)
          (elim (Bool-cases (k == t)) [
            | inl same ↦ rw same (rw (← (==_iff k t).0 same) e)
            | inr other ↦ rw other
          ])
    | inr (xs, e) ↦ rw (disconnect_subscribers, e) (get-remove k t list)
  ]

  get-finished :
      (t k : ℕ) (old : List R) (list : List (ℕ × List R))
      → get t list ≡ nonempty old
      → get t (act (finished k) list) ≡ nonempty (if k == t then [] else old)
  unfolding act
  get-finished t k old list e = elim (Bool-cases (k == t)) [
    | inl same ↦ rw (disconnect-get t k list, same)
    | inr other ↦ rw (disconnect-get t k list, other) e
  ]

  run-live :
      (t : ℕ) (actions : List (Action R)) (old : List R) (list : List (ℕ × List R))
      → get t list ≡ nonempty old
      → get t (run actions list)
        ≡ nonempty ((if finishes t actions then [] else old) ++ live t actions)
  unfolding run live
  run-live t [] old list e = rw (append-nil old) e
  run-live t (subscribed k tx ∷ actions) old list e =
      run-live t actions _ (act (subscribed k tx) list) (get-subscribed t k tx old list e)
      ∙ ap nonempty (ground (arith, append_assoc old (tx ∷ []) (live t actions)))
  run-live t (finished k ∷ actions) old list e =
      run-live t actions _ (act (finished k) list) (get-finished t k old list e)
      ∙ ap nonempty (ground arith)

  -- From the empty list on, a task's subscribers are those of its live subscriptions, in their
  -- order.
  pub get_subscribers-live :
      (t : ℕ) (actions : List (Action R))
      → get_subscribers t (run actions []) ≡ nonempty (live t actions)
  unfolding get_subscribers
  get_subscribers-live t actions =
      run-live t actions [] [] (unfold get in refl) ∙ ap nonempty (ground arith)

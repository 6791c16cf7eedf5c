-- ===== src/Server/Service/TaskIds.antt =====
-- The task ids that `do_task` gives out.
use verfploeter.Prelude.{
  ℕ, suc, ◌+◌, ◌≤◌, ◌<◌, ◌≡◌, true, List, [], ◌∷◌, Option, none, some, Default, arith, length,
  u32_max, if◌then◌else◌, Bool-cases, inl, inr,
}
use verfploeter.Schema.Ack.{Ack}
use verfploeter.Schema.ScheduleTask.{ScheduleTask}
use verfploeter.Server.Service.{
  Channels, Service, Event, connects, forwarder_exits, keeps_alive, does_task, lists_clients,
  sends_result, subscribes, finishes_task, connect, forwarder_exit, keepalive, do_task, send_result,
  subscribe_result, task_finished, step,
}

-- From `lo` on, each larger than the one before.
abbrev pub Ascends : ℕ → List ℕ → Type 0
Ascends lo [] = Unit {0}
Ascends lo (x ∷ xs) = (lo ≤ x) × Ascends (suc x) xs

Ascends-weaken : (a b : ℕ) (xs : List ℕ) → a ≤ b → Ascends b xs → Ascends a xs
Ascends-weaken a b [] le h = tt
Ascends-weaken a b (x ∷ xs) le h = (omega arith, h.1)

module _ {U : Type 0} where
  -- The ids in the acknowledgements that report success.
  abbrev pub ids_of : Option (Ack U) → List ℕ → List ℕ
  ids_of none rest = rest
  ids_of (some ack) rest = if ack.success then ack.task_id ∷ rest else rest

module _ {U : Type 0} ⦃u : Default U⦄ {S R W : Type 0} (ch : Channels U S R W) where
  -- What one request does to the counter. An id is used up exactly if the client is found.
  pub record Counts (s s' : Service U S R) (ack : Ack U) : Type 0 where
    pub grows : s.current_task_id ≤ s'.current_task_id
    pub by_one : s'.current_task_id ≤ s.current_task_id + 1
    pub taken :
        ack.success ≡ true
        → (ack.task_id ≡ s.current_task_id) × (s'.current_task_id ≡ s.current_task_id + 1)

  do_task-Counts :
      (req : ScheduleTask U) (s : Service U S R) (world : W)
      → s.current_task_id < u32_max
      → Counts s (do_task ch req (s, world)).0.0 (do_task ch req (s, world)).1
  unfolding do_task
  do_task-Counts req s world room = ground arith

  step-Counts :
      (e : Event U S) (s : Service U S R) (world : W)
      → s.current_task_id < u32_max
      → (s.current_task_id ≤ (step ch e (s, world)).0.0.current_task_id)
        × ((step ch e (s, world)).0.0.current_task_id ≤ s.current_task_id + 1)
  unfolding step connect forwarder_exit keepalive send_result subscribe_result task_finished
  step-Counts (connects metadata) s world room = ground arith
  step-Counts (forwarder_exits id) s world room = ground arith
  step-Counts (keeps_alive tx) s world room = ground arith
  step-Counts (does_task req) s world room = ground (arith, do_task-Counts req s world room)
  step-Counts lists_clients s world room = ground arith
  step-Counts (sends_result req) s world room = ground arith
  step-Counts (subscribes req) s world room = ground arith
  step-Counts (finishes_task req) s world room = ground arith

  unfoldable pub scheduled_ids : List (Event U S) → Service U S R × W → List ℕ
  scheduled_ids [] sw = []
  scheduled_ids (e ∷ es) sw = let (sw', ack) = step ch e sw in ids_of ack (scheduled_ids es sw')

  step-Ascends :
      (e : Event U S) (s : Service U S R) (world : W) (rest : List ℕ)
      → s.current_task_id < u32_max
      → Ascends (step ch e (s, world)).0.0.current_task_id rest
      → Ascends s.current_task_id (ids_of (step ch e (s, world)).1 rest)
  unfolding step
  step-Ascends (does_task req) s world rest room h =
      let c = do_task-Counts req s world room in
      let ack = (do_task ch req (s, world)).1 in
      elim (Bool-cases ack.success) [
        | inl e ↦ rw e (
          omega (arith, c.taken e),
          Ascends-weaken (suc ack.task_id) _ rest (omega (arith, c.taken e)) h,
        )
        | inr e ↦ rw e (Ascends-weaken _ _ rest c.grows h)
      ]
  step-Ascends e s world rest room h = Ascends-weaken _ _ rest (step-Counts e s world room).0 h

  -- Over any sequence of events successful tasks get ids that ascend, so no two share one, as long
  -- as the counter has room for as many ids.
  pub scheduled_ids-Ascends :
      (es : List (Event U S)) (s : Service U S R) (world : W)
      → s.current_task_id + length es ≤ u32_max
      → Ascends s.current_task_id (scheduled_ids es (s, world))
  unfolding scheduled_ids
  scheduled_ids-Ascends [] s world room = tt
  scheduled_ids-Ascends (e ∷ es) s world room =
      step-Ascends e s world _ (omega arith)
        (scheduled_ids-Ascends es _ _ (omega (arith, step-Counts e s world)))

-- ===== src/Client/Tasks/Delivery.antt =====
-- From the server's `do_task` to the client's handler.
use verfploeter.Prelude.{
  ℕ, ◌≡◌, ◌∙◌, refl, sym, ap, Bool, true, List, [], ◌∷◌, ◌++◌, append_assoc, append-nil, Option,
  none, some, Default, value, map, if◌then◌else◌, arith, Bool-cases, Option-cases, inl, inr,
}
use verfploeter.Schema.Ack.{Ack}
use verfploeter.Schema.Empty
use verfploeter.Schema.ScheduleTask
use verfploeter.Schema.ScheduleTask.{ScheduleTask}
use verfploeter.Schema.Task
use verfploeter.Schema.Task.{Task}
use verfploeter.Schema.TaskResult
use verfploeter.Schema.TaskResult.{TaskResult}
use verfploeter.Server.Subscriptions
use verfploeter.Server.Service.{
  Channels, Service, Event, connects, forwarder_exits, keeps_alive, does_task, lists_clients,
  sends_result, subscribes, finishes_task, connect, forwarder_exit, keepalive, do_task, send_result,
  send_to_all, subscribe_result, task_finished, step, run,
}
use verfploeter.Server.Service.TaskIds.{scheduled_ids, ids_of}
use verfploeter.Client.Tasks.{forward_task, forward_tasks}

module _ {U : Type 0} ⦃u : Default U⦄ {S R : Type 0} where
  -- Channels that deliver every task; the world keeps the tasks in their order. Results go
  -- elsewhere.
  abbrev pub delivering : S → R → Channels U S R (List (Task U))
  delivering tx rx = record {
    task_channel = λ tasks. (tasks, tx);
    result_channel = λ tasks. (tasks, rx);
    send_task = λ tx task tasks. (tasks ++ (task ∷ []), true);
    send_result = λ rx result tasks. (tasks, true);
  }

module _ {U : Type 0} ⦃u : Default U⦄ where
  -- A handler whose channel is open; it keeps what it got.
  abbrev pub handle : Task U → List (Task U) → List (Task U) × Bool
  handle task got = (got ++ (task ∷ []), true)

  unfoldable pub ping_tasks : List (Task U) → List (Task U)
  ping_tasks [] = []
  ping_tasks (t ∷ ts) = let rest = ping_tasks ts in if Task.has_ping t then t ∷ rest else rest

  forward_tasks-handle :
      (ts got : List (Task U))
      → forward_tasks handle (map some ts) got ≡ value (got ++ ping_tasks ts)
  unfolding forward_tasks forward_task ping_tasks
  forward_tasks-handle [] got = rw (append-nil got)
  forward_tasks-handle (t ∷ ts) got = elim (Bool-cases (Task.has_ping t)) [
    | inl e ↦ rw e (
        forward_tasks-handle ts (got ++ (t ∷ []))
        ∙ ap value (append_assoc got (t ∷ []) (ping_tasks ts)))
    | inr e ↦ rw e (forward_tasks-handle ts got)
  ]

  -- The ids of the ping tasks.
  abbrev pub ping_ids : List (Task U) → List ℕ
  ping_ids ts = map (λ t. Task.get_task_id t) (ping_tasks ts)

  ping_ids-append : (xs ys : List (Task U)) → ping_ids (xs ++ ys) ≡ ping_ids xs ++ ping_ids ys
  unfolding ping_tasks
  ping_ids-append [] ys = refl
  ping_ids-append (x ∷ xs) ys = ground (arith, ping_ids-append xs ys)

module _ {U : Type 0} ⦃u : Default U⦄ {S R : Type 0} (tx : S) (rx : R) where
  do_task-ids :
      (req : ScheduleTask U) (s : Service U S R) (tasks : List (Task U))
      → ping_ids (do_task (delivering tx rx) req (s, tasks)).0.1
        ≡ ping_ids tasks ++ ids_of (some (do_task (delivering tx rx) req (s, tasks)).1) []
  unfolding do_task ping_tasks
  do_task-ids req s tasks =
      let t : Task U =
        Task.set_ping (ScheduleTask.take_ping req).0
          (Task.set_task_id s.current_task_id Task.new) in
      ground (arith, ping_ids-append tasks (t ∷ []), append-nil (ping_ids tasks))

  send_to_all-tasks :
      (req : TaskResult U) (subscribers : List R) (tasks : List (Task U))
      → send_to_all (delivering tx rx) req subscribers tasks ≡ tasks
  unfolding send_to_all
  send_to_all-tasks req [] tasks = refl
  send_to_all-tasks req (r ∷ subscribers) tasks = send_to_all-tasks req subscribers tasks

  send_result-tasks :
      (req : TaskResult U) (s : Service U S R) (tasks : List (Task U))
      → (send_result (delivering tx rx) req (s, tasks)).0.1 ≡ tasks
  unfolding send_result
  send_result-tasks req s tasks =
      elim (Option-cases
        (Subscriptions.get_subscribers (TaskResult.get_task_id req) s.subscription_list)) [
          | inl e ↦ rw (send_result, e) refl
          | inr (subscribers, e) ↦ rw (send_result, e) (send_to_all-tasks req subscribers tasks)
        ]

  step-ids :
      (e : Event U S) (s : Service U S R) (tasks : List (Task U))
      → ping_ids (step (delivering tx rx) e (s, tasks)).0.1
        ≡ ping_ids tasks ++ ids_of (step (delivering tx rx) e (s, tasks)).1 []
  unfolding step connect forwarder_exit keepalive subscribe_result task_finished ping_tasks
  step-ids (connects metadata) s tasks = sym (append-nil (ping_ids tasks))
  step-ids (forwarder_exits id) s tasks = sym (append-nil (ping_ids tasks))
  step-ids (keeps_alive to) s tasks = ping_ids-append tasks (Task.set_empty Empty.new Task.new ∷ [])
  step-ids (does_task req) s tasks = do_task-ids req s tasks
  step-ids lists_clients s tasks = sym (append-nil (ping_ids tasks))
  step-ids (sends_result req) s tasks =
      ap ping_ids (send_result-tasks req s tasks) ∙ sym (append-nil (ping_ids tasks))
  step-ids (subscribes req) s tasks = sym (append-nil (ping_ids tasks))
  step-ids (finishes_task req) s tasks = sym (append-nil (ping_ids tasks))

  ids_of-append : (ack : Option (Ack U)) (rest : List ℕ) → ids_of ack [] ++ rest ≡ ids_of ack rest
  ids_of-append none rest = refl
  ids_of-append (some ack) rest = ground arith

  run-ids :
      (es : List (Event U S)) (s : Service U S R) (tasks : List (Task U))
      → ping_ids (run (delivering tx rx) es (s, tasks)).1
        ≡ ping_ids tasks ++ scheduled_ids (delivering tx rx) es (s, tasks)
  unfolding run scheduled_ids
  run-ids [] s tasks = sym (append-nil (ping_ids tasks))
  run-ids (e ∷ es) s tasks =
      let (next, ack) = step (delivering tx rx) e (s, tasks) in
      run-ids es next.0 next.1
      ∙ ap (λ ids. ids ++ scheduled_ids (delivering tx rx) es next) (step-ids e s tasks)
      ∙ append_assoc (ping_ids tasks) (ids_of ack []) (scheduled_ids (delivering tx rx) es next)
      ∙ ap (◌++◌ (ping_ids tasks)) (ids_of-append ack (scheduled_ids (delivering tx rx) es next))

  -- If the channels deliver, then after any events of the server the clients' loops hand exactly
  -- those tasks to their handlers whose ids `do_task` acknowledged with success, in that order; the
  -- keepalives go nowhere.
  pub forward_tasks-scheduled_ids :
      (es : List (Event U S)) (s : Service U S R)
      → (got : List (Task U)) × (forward_tasks handle
            (map some (run (delivering tx rx) es (s, [])).1)
            []
          ≡ value got)
        × (map (λ t. Task.get_task_id t) got ≡ scheduled_ids (delivering tx rx) es (s, []))
  forward_tasks-scheduled_ids es s = (
    ping_tasks (run (delivering tx rx) es (s, [])).1,
    forward_tasks-handle (run (delivering tx rx) es (s, [])).1 [],
    unfold ping_tasks in run-ids es s [],
  )

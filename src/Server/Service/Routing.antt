-- ===== src/Server/Service/Routing.antt =====
-- Who is sent a result: the subscription list after any events is that of the calls that were made.
use verfploeter.Prelude.{
  ℕ, ◌≡◌, ◌∙◌, refl, sym, ap, List, [], ◌∷◌, ◌++◌, append-nil, append_assoc, map, Option, none,
  some, Default, arith,
}
use verfploeter.Schema.ScheduleTask.{ScheduleTask}
use verfploeter.Schema.TaskId
use verfploeter.Schema.TaskResult
use verfploeter.Schema.TaskResult.{TaskResult}
use verfploeter.Server.Subscriptions
use verfploeter.Server.Subscriptions.{
  Action, subscribed, finished, act, live, nonempty, get_subscribers, get_subscribers-live,
}
use verfploeter.Server.Service.{
  Channels, Service, new, Event, connects, forwarder_exits, keeps_alive, does_task, lists_clients,
  sends_result, subscribes, finishes_task, connect, forwarder_exit, keepalive, do_task, send_result,
  send_to_all, subscribe_result, task_finished, step, run,
}

module _ {U : Type 0} ⦃u : Default U⦄ {S R W : Type 0} (ch : Channels U S R W) where
  -- The calls of `subscribe_result` and `task_finished`, with the channels that the former made.
  unfoldable pub action : Event U S → W → Option (Action R)
  action (connects metadata) world = none
  action (forwarder_exits id) world = none
  action (keeps_alive tx) world = none
  action (does_task req) world = none
  action lists_clients world = none
  action (sends_result req) world = none
  action (subscribes req) world =
      some (subscribed (TaskId.get_task_id req) (ch.result_channel world).1)
  action (finishes_task req) world = some (finished (TaskId.get_task_id req))

  abbrev followed : Option (Action R) → List (Action R) → List (Action R)
  followed none actions = actions
  followed (some a) actions = a ∷ actions

  unfoldable pub actions_of : List (Event U S) → Service U S R × W → List (Action R)
  unfolding action
  actions_of [] sw = []
  actions_of (e ∷ es) sw = followed (action e sw.1) (actions_of es (step ch e sw).0)

  abbrev done : Option (Action R) → List (ℕ × List R) → List (ℕ × List R)
  done none list = list
  done (some a) list = act a list

  do_task-subscriptions :
      (req : ScheduleTask U) (s : Service U S R) (world : W)
      → (do_task ch req (s, world)).0.0.subscription_list ≡ s.subscription_list
  unfolding do_task
  do_task-subscriptions req s world = ground arith

  step-action :
      (e : Event U S) (s : Service U S R) (world : W)
      → (step ch e (s, world)).0.0.subscription_list ≡ done (action e world) s.subscription_list
  unfolding step action connect forwarder_exit keepalive send_result subscribe_result task_finished
      act
  step-action (connects metadata) s world = refl
  step-action (forwarder_exits id) s world = refl
  step-action (keeps_alive tx) s world = refl
  step-action (does_task req) s world = do_task-subscriptions req s world
  step-action lists_clients s world = refl
  step-action (sends_result req) s world = refl
  step-action (subscribes req) s world = refl
  step-action (finishes_task req) s world = refl

  run-followed :
      (a : Option (Action R)) (actions : List (Action R)) (list : List (ℕ × List R))
      → Subscriptions.run (followed a actions) list ≡ Subscriptions.run actions (done a list)
  unfolding Subscriptions.run
  run-followed none actions list = refl
  run-followed (some a) actions list = refl

  run-actions :
      (es : List (Event U S)) (s : Service U S R) (world : W)
      → (run ch es (s, world)).0.subscription_list
        ≡ Subscriptions.run (actions_of es (s, world)) s.subscription_list
  unfolding run actions_of Subscriptions.run
  run-actions [] s world = refl
  run-actions (e ∷ es) s world =
      run-actions es _ _
      ∙ ap (Subscriptions.run (actions_of es (step ch e (s, world)).0)) (step-action e s world)
      ∙ sym (run-followed (action e world) _ s.subscription_list)

  -- The channels with a record of the results that were sent, each with where it went.
  unfoldable pub recorded : Channels U S R (W × List (R × TaskResult U))
  recorded = record {
    task_channel = λ (world, log). ((((ch.task_channel world).0), log), (ch.task_channel world).1);
    result_channel =
        λ (world, log). ((((ch.result_channel world).0), log), (ch.result_channel world).1);
    send_task = λ tx task (world, log).
        (((ch.send_task tx task world).0, log), (ch.send_task tx task world).1);
    send_result = λ tx result (world, log). (
      ((ch.send_result tx result world).0, log ++ ((tx, result) ∷ [])),
      (ch.send_result tx result world).1,
    );
  }

module _ {U : Type 0} ⦃u : Default U⦄ {S R W : Type 0} (ch : Channels U S R W) where
  send_to_all-log :
      (req : TaskResult U) (txs : List R) (world : W × List (R × TaskResult U))
      → (send_to_all (recorded ch) req txs world).1 ≡ world.1 ++ map (λ tx. (tx, req)) txs
  unfolding send_to_all recorded
  send_to_all-log req [] world = sym (append-nil world.1)
  send_to_all-log req (tx ∷ txs) world =
      send_to_all-log req txs _ ∙ append_assoc world.1 ((tx, req) ∷ []) (map (λ tx. (tx, req)) txs)

  send_result-log :
      (req : TaskResult U) (s : Service U S R) (world : W × List (R × TaskResult U))
      (subscribers : List R)
      → get_subscribers (TaskResult.get_task_id req) s.subscription_list ≡ nonempty subscribers
      → (send_result (recorded ch) req (s, world)).0.1.1
        ≡ world.1 ++ map (λ tx. (tx, req)) subscribers
  unfolding send_result
  send_result-log req s world [] e = rw (send_result, e) (sym (append-nil world.1))
  send_result-log req s world (tx ∷ subscribers) e =
      rw (send_result, e) (send_to_all-log req (tx ∷ subscribers) world)

  -- With a record of what is sent: after any events from the start, a client's result is sent once
  -- to each subscription to its task that no notification of the task's end came after, in the
  -- order of the subscriptions, and to nobody else. The service itself does not change.
  pub send_result-live :
      (es : List (Event U S)) (world : W) (req : TaskResult U)
      → let (before, sends) = run (recorded ch) es (new, (world, [])) in
        let (after, sends') = (send_result (recorded ch) req (before, sends)).0 in
        (after ≡ before)
        × (sends'.1
            ≡ sends.1
              ++ map
                  (λ tx. (tx, req))
                  (live
                    (TaskResult.get_task_id req)
                    (actions_of (recorded ch) es (new, (world, [])))))
  unfolding send_result
  send_result-live es world req =
      let (before, sends) = run (recorded ch) es (new, (world, [])) in
      (
        refl,
        send_result-log req before sends _ (
            ap (get_subscribers (TaskResult.get_task_id req))
              (run-actions (recorded ch) es new (world, []))
            ∙ get_subscribers-live (TaskResult.get_task_id req)
                (actions_of (recorded ch) es (new, (world, [])))),
      )

-- ===== src/Server/Service/Invariant.antt =====
-- The connections stay well formed, whatever happens.
use verfploeter.Prelude.{ℕ, suc, ◌+◌, ◌≤◌, ◌≡◌, List, [], ◌∷◌, Default, arith, length, u32_max}
use verfploeter.Schema.ScheduleTask.{ScheduleTask}
use verfploeter.Server.Connections.{
  Connection, IsValid, add_connection, add_connection-IsValid, add_connection-connection_id,
  unregister-IsValid, unregister-connection_id,
}
use verfploeter.Server.Service.{
  Channels, Service, Event, connects, forwarder_exits, keeps_alive, does_task, lists_clients,
  sends_result, subscribes, finishes_task, connect, forwarder_exit, keepalive, do_task, send_result,
  subscribe_result, task_finished, step, run,
}

module _ {U : Type 0} ⦃u : Default U⦄ {S R W : Type 0} (ch : Channels U S R W) where
  -- The connections are well formed, and the next `n` ids do not wrap.
  abbrev pub Holds : ℕ → Service U S R → Type 0
  Holds n s = IsValid s.connection_manager × (s.connection_manager.connection_id + n ≤ u32_max)

  do_task-connections :
      (req : ScheduleTask U) (s : Service U S R) (world : W)
      → (do_task ch req (s, world)).0.0.connection_manager ≡ s.connection_manager
  unfolding do_task
  do_task-connections req s world = ground arith

  step-Holds :
      (n : ℕ) (e : Event U S) (s : Service U S R) (world : W)
      → Holds (suc n) s
      → Holds n (step ch e (s, world)).0.0
  unfolding step connect forwarder_exit keepalive send_result subscribe_result task_finished
  step-Holds n (connects metadata) s world v =
      let c : Connection U S = record {
        channel = (ch.task_channel world).1;
        metadata = metadata;
      } in
      (
        unfold add_connection in add_connection-IsValid c s.connection_manager (omega arith) v.0,
        unfold add_connection in omega (arith, add_connection-connection_id c s.connection_manager),
      )
  step-Holds n (forwarder_exits id) s world v = (
    unregister-IsValid id s.connection_manager v.0,
    omega (arith, unregister-connection_id id s.connection_manager),
  )
  step-Holds n (keeps_alive tx) s world v = (v.0, omega arith)
  step-Holds n (does_task req) s world v = rw (do_task-connections req s world) (v.0, omega arith)
  step-Holds n lists_clients s world v = (v.0, omega arith)
  step-Holds n (sends_result req) s world v = (v.0, omega arith)
  step-Holds n (subscribes req) s world v = (v.0, omega arith)
  step-Holds n (finishes_task req) s world v = (v.0, omega arith)

  -- From a well-formed state, `n` events end in one, if the counter has room for as many ids.
  pub run-IsValid :
      (es : List (Event U S)) (s : Service U S R) (world : W)
      → Holds (length es) s
      → IsValid (run ch es (s, world)).0.connection_manager
  unfolding run
  run-IsValid [] s world v = v.0
  run-IsValid (e ∷ es) s world v = run-IsValid es _ _ (step-Holds (length es) e s world v)

-- ===== src/Tests/Server.antt =====
-- The theorems of Server at a concrete service and history.
use verfploeter.Prelude.{
  ℕ, ◌≡◌, ◌⊎◌, refl, true, List, [], ◌∷◌, none, some, arith, suc, map, value, ◌++◌,
}
use verfploeter.Schema.Client
use verfploeter.Schema.Metadata.{Metadata}
use verfploeter.Schema.Ping
use verfploeter.Schema.ScheduleTask
use verfploeter.Schema.ScheduleTask.{ScheduleTask}
use verfploeter.Server.HashMap
use verfploeter.Server.Connections
use verfploeter.Server.Connections.{
  Connection, ConnectionManager, IsValid, add_connection, get_client_tx_by_idx,
  get_client_tx_by_hostname, unregister_connection,
}
use verfploeter.Server.Connections.Lookup.{
  IsAdded, add_connection-IsAdded, Serves, get_client_tx_by_hostname-Serves,
}
use verfploeter.Server.Subscriptions
use verfploeter.Server.Subscriptions.{
  Action, subscribed, finished, live, nonempty, get_subscribers, get_subscribers-live,
}
use verfploeter.Server.Service
use verfploeter.Server.Service.{
  Channels, Service, Event, connects, forwarder_exits, keeps_alive, does_task, subscribes,
  finishes_task, run, send_result,
}
use verfploeter.Server.Service.Routing.{action, actions_of, recorded, send_result-live}
use verfploeter.Schema.Task
use verfploeter.Schema.Task.{Task}
use verfploeter.Client.Tasks.{forward_tasks}
use verfploeter.Client.Tasks.Delivery.{delivering, handle, forward_tasks-scheduled_ids}
use verfploeter.Schema.TaskId
use verfploeter.Schema.TaskId.{TaskId}
use verfploeter.Schema.TaskResult
use verfploeter.Schema.TaskResult.{TaskResult}
use verfploeter.Server.Service.TaskIds.{scheduled_ids, Ascends, scheduled_ids-Ascends}
use verfploeter.Server.Service.Invariant.{run-IsValid}
use verfploeter.Tests.Crates.Wire.{unit_default}

abbrev metadata : Metadata (Unit {0})
metadata = record { hostname = "here"; version = "1"; unknown_fields = tt }

-- Channels are numbered in the order of their making; the world is the next number.
abbrev channels : Channels (Unit {0}) ℕ ℕ ℕ
channels = record {
  task_channel = λ n. (suc n, n);
  result_channel = λ n. (suc n, n);
  send_task = λ tx t n. (n, true);
  send_result = λ tx tr n. (n, true);
}

abbrev connection : Connection (Unit {0}) ℕ
connection = record { channel = 40; metadata = metadata }

-- One connection, with the id 1.
abbrev manager : ConnectionManager (Unit {0}) ℕ
manager = record { connections = (1, connection) ∷ []; connection_id = 1 }

manager-IsValid : IsValid manager
unfolding HashMap.get
manager-IsValid = record { keys = (refl, tt); bounded = ((omega arith, omega arith), tt) }

-- A ping task for the client with the index 1.
abbrev request : ScheduleTask (Unit {0})
request =
    ScheduleTask.set_ping Ping.new
      (ScheduleTask.set_client (Client.set_index 1 Client.new) ScheduleTask.new)

abbrev events : List (Event (Unit {0}) ℕ)
events =
    connects metadata
    ∷ does_task request
    ∷ does_task request
    ∷ forwarder_exits 1
    ∷ does_task request
    ∷ []

abbrev empty : Service (Unit {0}) ℕ ℕ
empty = Service.new

-- Task 5 is subscribed to twice and finishes in between; task 6 does not.
abbrev history : List (Action ℕ)
history = subscribed 5 1 ∷ subscribed 6 2 ∷ finished 5 ∷ subscribed 5 3 ∷ []

scheduled_ids_run : scheduled_ids channels events (empty, 0) ≡ 0 ∷ 1 ∷ []
unfolding scheduled_ids Service.step Service.do_task get_client_tx_by_idx HashMap.get
    Service.connect Connections.register_connection HashMap.insert
    Connections.generate_connection_id Service.forwarder_exit unregister_connection HashMap.remove
scheduled_ids_run = refl

live_run : live 5 history ≡ 3 ∷ []
unfolding live
live_run = refl

get_subscribers-live_example :
    get_subscribers 5 (Subscriptions.run history []) ≡ nonempty (live 5 history)
get_subscribers-live_example = get_subscribers-live 5 history

scheduled_ids-Ascends_example : Ascends 0 (scheduled_ids channels events (empty, 0))
scheduled_ids-Ascends_example = scheduled_ids-Ascends channels events empty 0 (omega arith)

run-IsValid_example : IsValid (run channels events (empty, 0)).0.connection_manager
run-IsValid_example =
    run-IsValid channels events empty 0 (record { keys = tt; bounded = tt }, omega arith)

add_connection-IsAdded_example :
    IsAdded connection manager
      (add_connection connection manager).0
      (add_connection connection manager).1
add_connection-IsAdded_example =
    add_connection-IsAdded connection manager (omega arith) manager-IsValid

get_client_tx_by_hostname-Serves_example :
    ((tx : ℕ) × (get_client_tx_by_hostname "here" manager ≡ some tx) × Serves "here" manager tx)
    ⊎ ((get_client_tx_by_hostname "here" manager ≡ none) × ((tx : ℕ) → ¬ Serves "here" manager tx))
get_client_tx_by_hostname-Serves_example =
    get_client_tx_by_hostname-Serves "here" manager manager-IsValid

-- The world is the next channel, and the channels that were sent a result.
abbrev recording : Channels (Unit {0}) ℕ ℕ (ℕ × List ℕ)
recording = record {
  task_channel = λ (n, got). ((suc n, got), n);
  result_channel = λ (n, got). ((suc n, got), n);
  send_task = λ tx t world. (world, true);
  send_result = λ tx tr (n, got). ((n, got ++ (tx ∷ [])), true);
}

abbrev task_id : ℕ → TaskId (Unit {0})
task_id n = TaskId.set_task_id n TaskId.new

-- Channels 0, 2 and 3 are for task 5, which is finished after the first.
abbrev subscriptions : List (Event (Unit {0}) ℕ)
subscriptions =
    subscribes (task_id 5)
    ∷ subscribes (task_id 6)
    ∷ finishes_task (task_id 5)
    ∷ subscribes (task_id 5)
    ∷ subscribes (task_id 5)
    ∷ []

abbrev result : TaskResult (Unit {0})
result = TaskResult.set_task_id 5 TaskResult.new

send_result_run :
    (send_result recording result (run recording subscriptions (empty, (0, [])))).0.1
    ≡ (4, 2 ∷ 3 ∷ [])
unfolding send_result run Service.step Service.subscribe_result Service.task_finished
    Subscriptions.register_subscriber Subscriptions.disconnect_subscribers get_subscribers
    HashMap.get HashMap.insert HashMap.remove
send_result_run = refl

send_result-live_example :
    let (before, sends) = run (recorded recording) subscriptions (empty, ((0, []), [])) in
    let (after, sends') = (send_result (recorded recording) result (before, sends)).0 in
    (after ≡ before) × (sends'.1 ≡ sends.1 ++ ((2, result) ∷ (3, result) ∷ []))
unfolding recorded live actions_of action Service.step Service.subscribe_result
    Service.task_finished
send_result-live_example = send_result-live recording subscriptions (0, []) result

-- The pings of the two tasks reach the handler, the keepalive between them does not.
abbrev tasked : List (Event (Unit {0}) ℕ)
tasked = connects metadata ∷ does_task request ∷ keeps_alive 0 ∷ does_task request ∷ []

abbrev tasks : List (Task (Unit {0}))
tasks = (run (delivering 0 0) tasked (empty, [])).1

scheduled_ids-tasked : scheduled_ids (delivering 0 0) tasked (empty, []) ≡ 0 ∷ 1 ∷ []
unfolding scheduled_ids Service.step Service.do_task get_client_tx_by_idx HashMap.get
    Service.connect Connections.register_connection HashMap.insert Service.keepalive
    Connections.generate_connection_id
scheduled_ids-tasked = refl

forward_tasks-scheduled_ids_example :
    (got : List (Task (Unit {0}))) × (forward_tasks handle (map some tasks) [] ≡ value got)
    × (map (λ t. Task.get_task_id t) got ≡ scheduled_ids (delivering 0 0) tasked (empty, []))
forward_tasks-scheduled_ids_example = forward_tasks-scheduled_ids 0 0 tasked empty

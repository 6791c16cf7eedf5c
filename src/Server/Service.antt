-- ===== src/Server/Service.antt =====
-- The handlers of VerfploeterService. The channels of the crate `futures` are a parameter: a sender
-- is a value, and a send changes the world and is `Ok` or not. The streams that a handler spawns
-- are events of their own: a keepalive, and the end of a connection's task forwarder.
pub mod TaskIds
pub mod Invariant
pub mod Routing
use text.Mathlib.Text.{◌==◌ as str_eq}
use verfploeter.Prelude.{
  ℕ, ◌+◌, Bool, true, false, List, [], ◌∷◌, Option, none, some, String, Default, if◌then◌else◌,
  add32, map,
}
use verfploeter.Schema.Ack
use verfploeter.Schema.Ack.{Ack}
use verfploeter.Schema.Client
use verfploeter.Schema.ClientList
use verfploeter.Schema.ClientList.{ClientList}
use verfploeter.Schema.Empty
use verfploeter.Schema.Metadata
use verfploeter.Schema.Metadata.{Metadata}
use verfploeter.Schema.ScheduleTask
use verfploeter.Schema.ScheduleTask.{ScheduleTask}
use verfploeter.Schema.Task
use verfploeter.Schema.Task.{Task}
use verfploeter.Schema.TaskId
use verfploeter.Schema.TaskId.{TaskId}
use verfploeter.Schema.TaskResult
use verfploeter.Schema.TaskResult.{TaskResult}
use verfploeter.Server.Connections
use verfploeter.Server.Connections.{Connection, ConnectionManager}
use verfploeter.Server.Subscriptions

-- `S` and `R` are Sender<Task> and Sender<TaskResult>, `W` is the world of all channels.
pub record Channels (U S R W : Type 0) : Type 0 where
  pub task_channel : W → W × S
  pub result_channel : W → W × R
  pub send_task : S → Task U → W → W × Bool
  pub send_result : R → TaskResult U → W → W × Bool

pub record Service (U S R : Type 0) : Type 0 where
  pub connection_manager : ConnectionManager U S
  pub subscription_list : List (ℕ × List R)
  pub current_task_id : ℕ

module _ {U S R : Type 0} where
  -- As `Server::new` makes it.
  abbrev pub new : Service U S R
  new = record { connection_manager = Connections.new; subscription_list = []; current_task_id = 0 }

module _ {U : Type 0} ⦃u : Default U⦄ {S R W : Type 0} (ch : Channels U S R W) where
  unfoldable pub connect : Metadata U → Service U S R × W → Service U S R × W
  connect metadata (s, world) =
      let (world', tx) = ch.task_channel world in
      let (counted, connection_id) = Connections.generate_connection_id s.connection_manager in
      let connection : Connection U S = record { channel = tx; metadata = metadata } in
      (
        record s {
          connection_manager = Connections.register_connection connection_id connection counted;
        },
        world',
      )

  -- The forwarder's stream has ended, well or with an error.
  unfoldable pub forwarder_exit : ℕ → Service U S R × W → Service U S R × W
  forwarder_exit connection_id (s, world) = (
    record s {
      connection_manager = Connections.unregister_connection connection_id s.connection_manager;
    },
    world,
  )

  -- A tick of the interval: an empty task.
  unfoldable pub keepalive : S → Service U S R × W → Service U S R × W
  keepalive tx (s, world) = (s, (ch.send_task tx (Task.set_empty Empty.new Task.new) world).0)

  -- By hostname, if one is given, or by index.
  unfoldable pub find_client : ScheduleTask U → Service U S R → Option S
  find_client req s =
      let hostname = Metadata.get_hostname (Client.get_metadata (ScheduleTask.get_client req)) in
      if str_eq hostname ""
      then Connections.get_client_tx_by_idx (Client.get_index (ScheduleTask.get_client req))
          s.connection_manager
      else Connections.get_client_tx_by_hostname hostname s.connection_manager

  -- The part of `do_task` behind the lookup: it takes an id and sends the task.
  schedule : ScheduleTask U → S → Ack U → Service U S R × W → (Service U S R × W) × Ack U
  schedule req tx ack (s, world) =
      let task_id = s.current_task_id in
      let t = Task.set_ping (ScheduleTask.take_ping req).0 (Task.set_task_id task_id Task.new) in
      let (world', sent) = ch.send_task tx t world in
      let ack' = Ack.set_task_id task_id ack in
      (
        (record s { current_task_id = add32 s.current_task_id 1 }, world'),
        (if sent
            then Ack.set_success true ack'
            else Ack.set_error_message "client exists, but was unable to send task" ack'),
      )

  unfoldable pub do_task : ScheduleTask U → Service U S R × W → (Service U S R × W) × Ack U
  unfolding schedule find_client
  do_task req (s, world) =
      let ack = Ack.set_success false Ack.new in
      if ScheduleTask.has_ping req
      then elim (find_client req s) [
        | some tx ↦ schedule req tx ack (s, world)
        | none ↦ ((s, world), Ack.set_error_message "client does not exist" ack)
      ]
      else ((s, world), ack)

  unfoldable pub list_clients : Service U S R → ClientList U
  list_clients s =
      ClientList.set_clients
        (map (λ e. Client.set_metadata (e.1).metadata (Client.set_index e.0 Client.new))
          s.connection_manager.connections)
        ClientList.new

  -- `.map(|s| s.clone().send(req.clone()).wait()).for_each(drop)`
  unfoldable pub send_to_all : TaskResult U → List R → W → W
  send_to_all req [] world = world
  send_to_all req (tx ∷ subscribers) world =
      send_to_all req subscribers (ch.send_result tx req world).0

  unfoldable pub send_result : TaskResult U → Service U S R × W → (Service U S R × W) × Ack U
  unfolding send_to_all
  send_result req (s, world) = (
    (
      s,
      elim (Subscriptions.get_subscribers (TaskResult.get_task_id req) s.subscription_list) [
        | some subscribers ↦ send_to_all req subscribers world
        | none ↦ world
      ],
    ),
    Ack.new,
  )

  unfoldable pub subscribe_result : TaskId U → Service U S R × W → Service U S R × W
  subscribe_result req (s, world) =
      let (world', tx) = ch.result_channel world in
      (
        record s {
          subscription_list =
              Subscriptions.register_subscriber (TaskId.get_task_id req) tx s.subscription_list;
        },
        world',
      )

  unfoldable pub task_finished : TaskId U → Service U S R × W → (Service U S R × W) × Ack U
  task_finished req (s, world) = (
    (
      record s {
        subscription_list =
            Subscriptions.disconnect_subscribers (TaskId.get_task_id req) s.subscription_list;
      },
      world,
    ),
    Ack.new,
  )

-- What can happen to the service, one event at a time.
pub data Event (U S : Type 0) : Type 0 where
  connects : Metadata U → Event U S
  forwarder_exits : ℕ → Event U S
  keeps_alive : S → Event U S
  does_task : ScheduleTask U → Event U S
  lists_clients : Event U S
  sends_result : TaskResult U → Event U S
  subscribes : TaskId U → Event U S
  finishes_task : TaskId U → Event U S

module _ {U : Type 0} ⦃u : Default U⦄ {S R W : Type 0} (ch : Channels U S R W) where
  -- The service after an event, and the acknowledgement of a `do_task`.
  unfoldable pub step : Event U S → Service U S R × W → (Service U S R × W) × Option (Ack U)
  step (connects metadata) sw = (connect ch metadata sw, none)
  step (forwarder_exits id) sw = (forwarder_exit ch id sw, none)
  step (keeps_alive tx) sw = (keepalive ch tx sw, none)
  step (does_task req) sw = let (sw', ack) = do_task ch req sw in (sw', some ack)
  step lists_clients sw = (sw, none)
  step (sends_result req) sw = ((send_result ch req sw).0, none)
  step (subscribes req) sw = (subscribe_result ch req sw, none)
  step (finishes_task req) sw = ((task_finished ch req sw).0, none)

  unfoldable pub run : List (Event U S) → Service U S R × W → Service U S R × W
  run [] sw = sw
  run (e ∷ es) sw = run es (step e sw).0

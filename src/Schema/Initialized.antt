-- ===== src/Schema/Initialized.antt =====
-- `is_initialized` of the messages. A message is initialized when its required fields are set; the
-- schema has none.
use verfploeter.Prelude.{◌≡◌, refl, Bool, true, ◌&&◌, List, [], ◌∷◌, Option, none, some, Default}
use verfploeter.Schema.Empty
use verfploeter.Schema.Empty.{Empty}
use verfploeter.Schema.Ack
use verfploeter.Schema.Ack.{Ack}
use verfploeter.Schema.TaskId
use verfploeter.Schema.TaskId.{TaskId}
use verfploeter.Schema.Metadata
use verfploeter.Schema.Metadata.{Metadata}
use verfploeter.Schema.Client
use verfploeter.Schema.Client.{Client}
use verfploeter.Schema.ClientList
use verfploeter.Schema.ClientList.{ClientList}
use verfploeter.Schema.Address
use verfploeter.Schema.Address.{Address}
use verfploeter.Schema.Ping
use verfploeter.Schema.Ping.{Ping}
use verfploeter.Schema.ScheduleTask
use verfploeter.Schema.ScheduleTask.{ScheduleTask, ScheduleTaskData, ping as scheduletask_ping}
use verfploeter.Schema.Task
use verfploeter.Schema.Task.{Task, TaskData, ping as task_ping, empty as task_empty}
use verfploeter.Schema.PingPayload
use verfploeter.Schema.PingPayload.{PingPayload}
use verfploeter.Schema.PingResult
use verfploeter.Schema.PingResult.{PingResult}
use verfploeter.Schema.Result
use verfploeter.Schema.Result.{Result, ResultValue, ping as result_ping}
use verfploeter.Schema.TaskResult
use verfploeter.Schema.TaskResult.{TaskResult}

both : {a b : Bool} → a ≡ true → b ≡ true → (a && b) ≡ true
both e f = rw (e, f) refl

in_option :
    {A : Type 0} (is : A → Bool) (o : Option A)
    → ((a : A) → is a ≡ true)
    → elim o [ some v ↦ is v | none ↦ true ] ≡ true
in_option is none h = refl
in_option is (some a) h = h a

module _ {U : Type 0} ⦃u : Default U⦄ where
  Empty-is_initialized : (m : Empty U) → Empty.is_initialized m ≡ true
  unfolding Empty.is_initialized
  Empty-is_initialized m = refl

  Ack-is_initialized : (m : Ack U) → Ack.is_initialized m ≡ true
  unfolding Ack.is_initialized
  Ack-is_initialized m = refl

  TaskId-is_initialized : (m : TaskId U) → TaskId.is_initialized m ≡ true
  unfolding TaskId.is_initialized
  TaskId-is_initialized m = refl

  Metadata-is_initialized : (m : Metadata U) → Metadata.is_initialized m ≡ true
  unfolding Metadata.is_initialized
  Metadata-is_initialized m = refl

  Client-is_initialized : (m : Client U) → Client.is_initialized m ≡ true
  unfolding Client.is_initialized
  Client-is_initialized m = in_option Metadata.is_initialized m.metadata Metadata-is_initialized

  clients_initialized_lem : (ms : List (Client U)) → ClientList.clients_initialized ms ≡ true
  unfolding ClientList.clients_initialized
  clients_initialized_lem [] = refl
  clients_initialized_lem (x ∷ xs) = both (Client-is_initialized x) (clients_initialized_lem xs)

  pub ClientList-is_initialized : (m : ClientList U) → ClientList.is_initialized m ≡ true
  unfolding ClientList.is_initialized
  ClientList-is_initialized m = clients_initialized_lem m.clients

  Address-is_initialized : (m : Address U) → Address.is_initialized m ≡ true
  unfolding Address.is_initialized
  Address-is_initialized m = refl

  destination_addresses_initialized_lem :
      (ms : List (Address U)) → Ping.destination_addresses_initialized ms ≡ true
  unfolding Ping.destination_addresses_initialized
  destination_addresses_initialized_lem [] = refl
  destination_addresses_initialized_lem (x ∷ xs) =
      both (Address-is_initialized x) (destination_addresses_initialized_lem xs)

  Ping-is_initialized : (m : Ping U) → Ping.is_initialized m ≡ true
  unfolding Ping.is_initialized
  Ping-is_initialized m =
      both (in_option Address.is_initialized m.source_address Address-is_initialized)
        (destination_addresses_initialized_lem m.destination_addresses)

  scheduletask_kind_lem :
      (o : Option (ScheduleTaskData U))
      → elim o [ some (scheduletask_ping v) ↦ Ping.is_initialized v | none ↦ true ] ≡ true
  scheduletask_kind_lem none = refl
  scheduletask_kind_lem (some (scheduletask_ping v)) = Ping-is_initialized v

  pub ScheduleTask-is_initialized : (m : ScheduleTask U) → ScheduleTask.is_initialized m ≡ true
  unfolding ScheduleTask.is_initialized
  ScheduleTask-is_initialized m =
      both (in_option Client.is_initialized m.client Client-is_initialized)
        (scheduletask_kind_lem m.kind)

  task_kind_lem :
      (o : Option (TaskData U))
      → elim o [
        | some (task_ping v) ↦ Ping.is_initialized v
        | some (task_empty v) ↦ Empty.is_initialized v
        | none ↦ true
      ]
        ≡ true
  task_kind_lem none = refl
  task_kind_lem (some (task_ping v)) = Ping-is_initialized v
  task_kind_lem (some (task_empty v)) = Empty-is_initialized v

  pub Task-is_initialized : (m : Task U) → Task.is_initialized m ≡ true
  unfolding Task.is_initialized
  Task-is_initialized m = task_kind_lem m.kind

  PingPayload-is_initialized : (m : PingPayload U) → PingPayload.is_initialized m ≡ true
  unfolding PingPayload.is_initialized
  PingPayload-is_initialized m =
      both (in_option Address.is_initialized m.source_address Address-is_initialized)
        (in_option Address.is_initialized m.destination_address Address-is_initialized)

  PingResult-is_initialized : (m : PingResult U) → PingResult.is_initialized m ≡ true
  unfolding PingResult.is_initialized
  PingResult-is_initialized m =
      both
        (both (in_option Address.is_initialized m.source_address Address-is_initialized)
          (in_option Address.is_initialized m.destination_address Address-is_initialized))
        (in_option PingPayload.is_initialized m.payload PingPayload-is_initialized)

  result_value_lem :
      (o : Option (ResultValue U))
      → elim o [ some (result_ping v) ↦ PingResult.is_initialized v | none ↦ true ] ≡ true
  result_value_lem none = refl
  result_value_lem (some (result_ping v)) = PingResult-is_initialized v

  Result-is_initialized : (m : Result U) → Result.is_initialized m ≡ true
  unfolding Result.is_initialized
  Result-is_initialized m = result_value_lem m.value

  result_list_initialized_lem :
      (ms : List (Result U)) → TaskResult.result_list_initialized ms ≡ true
  unfolding TaskResult.result_list_initialized
  result_list_initialized_lem [] = refl
  result_list_initialized_lem (x ∷ xs) =
      both (Result-is_initialized x) (result_list_initialized_lem xs)

  -- Every task result is initialized, whatever messages it holds: there is no required field to
  -- miss.
  pub TaskResult-is_initialized : (m : TaskResult U) → TaskResult.is_initialized m ≡ true
  unfolding TaskResult.is_initialized
  TaskResult-is_initialized m =
      both (in_option Client.is_initialized m.client Client-is_initialized)
        (result_list_initialized_lem m.result_list)

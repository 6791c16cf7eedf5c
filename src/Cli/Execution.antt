-- ===== src/Cli/Execution.antt =====
-- src/cli/mod.rs: `execute` with its two commands. The server's stub is a parameter over the world
-- that it changes; a call that failed gives `none`. The file of addresses is the list of its lines,
-- and the parser of IPv4 addresses a parameter. What is printed or logged is a list.
pub mod Output
pub mod Rows
use verfploeter.Prelude.{
  ℕ, Bool, true, false, not, List, [], ◌∷◌, ◌++◌, Option, none, some, String, Default, map, Outcome,
  value, panic, ◌>>=◌, unwrap, if◌then◌else◌, length,
}
use verfploeter.Schema.Ack
use verfploeter.Schema.Ack.{Ack}
use verfploeter.Schema.Client
use verfploeter.Schema.ClientList
use verfploeter.Schema.ClientList.{ClientList}
use verfploeter.Schema.Metadata
use verfploeter.Schema.ScheduleTask.{ScheduleTask}
use verfploeter.Schema.TaskId
use verfploeter.Schema.TaskId.{TaskId}
use verfploeter.Schema.TaskResult.{TaskResult}
use verfploeter.Cli.Enrichment.{Row, RowData, Transformer, get_data, get_headers}
use verfploeter.Cli.Measurement.{
  Databases, schedule_task, transform_pipeline, pipeline_headers, enrich, csv_line,
}

-- The calls of VerfploeterClient. A stream is the list of its items, each a result or an error.
pub record Stub (U W : Type 0) : Type 0 where
  pub list_clients : W → W × Option (ClientList U)
  pub do_task : ScheduleTask U → W → W × Option (Ack U)
  pub subscribe_result : TaskId U → W → W × Option (List (Option (TaskResult U)))

-- The arguments of `start`. `ip_file` is `none` if the file does not open; a line may fail to be
-- read. The databases are given by their paths.
pub record Args : Type 0 where
  pub client_hostname : String
  pub source_ip : String
  pub ip_file : Option (List (Option String))
  pub json : Bool
  pub ip2country : Option String
  pub ip2asn : Option String

pub data Printed (F : Type 0) : Type 0 where
  unable_to_connect : Printed F
  failed_to_schedule : Printed F
  message : String → Printed F
  header_line : List String → Printed F
  json_line : Row F → Printed F
  line : List (Option (RowData F)) → Printed F
  stream_failed : Printed F
  -- The table of clients, without its titles, and their number.
  client_table : List (ℕ × String × String) → ℕ → Printed F
  no_client_list : Printed F

-- How a command ended: what it did to the world and printed, and whether it panicked.
pub record Ended (F W : Type 0) : Type 0 where
  pub world : W
  pub output : List (Printed F)
  pub panicked : Bool

-- `scheduled_task_id`, `error_message` and `success`
pub record Scheduled : Type 0 where
  pub scheduled_task_id : Option ℕ
  pub error_message : Option String
  pub success : Bool

-- `lines().map(|l| ...from_str(&l.unwrap()).unwrap()).collect()`
unfoldable pub read_addresses : (String → Option ℕ) → List (Option String) → Outcome (List ℕ)
read_addresses from_str [] = value []
read_addresses from_str (l ∷ ls) = do
  text ← unwrap l
  ip ← unwrap (from_str text)
  ips ← read_addresses from_str ls
  value (ip ∷ ips)

module _ {U : Type 0} ⦃u : Default U⦄ where
  unfoldable pub request : (String → Option ℕ) → Args → Outcome (ScheduleTask U)
  unfolding read_addresses
  request from_str args = do
    source_ip ← unwrap (from_str args.source_ip)
    ls ← unwrap args.ip_file
    ips ← read_addresses from_str ls
    value (schedule_task args.client_hostname source_ip ips)

  -- `match grpc_client.do_task(&schedule_task)`
  unfoldable pub scheduled : Option (Ack U) → Scheduled
  scheduled (some ack) = record {
    scheduled_task_id = some (Ack.get_task_id ack);
    error_message = if not (Ack.get_success ack) then some (Ack.get_error_message ack) else none;
    success = Ack.get_success ack;
  }
  scheduled none = record { scheduled_task_id = none; error_message = none; success = false }

  unfoldable pub connect_log : {F : Type 0} → Option (Ack U) → List (Printed F)
  connect_log (some ack) = []
  connect_log none = unable_to_connect ∷ []

  unfoldable pub client_rows : ClientList U → List (ℕ × String × String)
  client_rows list =
      map
        (λ c. (
          Client.get_index c,
          Metadata.get_hostname (Client.get_metadata c),
          Metadata.get_version (Client.get_metadata c),
        ))
        (ClientList.get_clients list)

module _ {F : Type 0} where
  unfoldable pub print_entry : Bool → List Transformer → List String → Row F → Printed F
  print_entry json ts headers entry =
      if json then json_line (enrich ts entry) else line (csv_line headers (enrich ts entry))

  first_lines : Bool → List String → List (Printed F)
  first_lines json headers = if json then [] else header_line headers ∷ []

module _ {F W : Type 0} where
  abbrev pub printed_before : List (Printed F) → Ended F W → Ended F W
  printed_before ls e = record e { output = ls ++ e.output }

  -- `for mut entry in data`, and what follows; `get_data` may panic.
  unfoldable pub print_rows :
      Bool → List Transformer → List String → Outcome (List (Row F)) → W → Ended F W → Ended F W
  print_rows json ts headers panic world rest = record {
    world = world;
    output = [];
    panicked = true;
  }
  print_rows json ts headers (value rows) world rest =
      printed_before (map (print_entry json ts headers) rows) rest

  -- The part behind `else`.
  unfoldable pub report : Option String → W → Ended F W
  report (some text) world = record {
    world = world;
    output = failed_to_schedule ∷ message text ∷ [];
    panicked = false;
  }
  report none world = record { world = world; output = failed_to_schedule ∷ []; panicked = true }

module _ {U : Type 0} ⦃u : Default U⦄ {F W : Type 0} (to_millis : ℕ → F) where
  -- The stream of results, until it ends or the data of an item panics.
  unfoldable pub print_results :
      Bool → List Transformer → List String → List (Option (TaskResult U)) → W → Ended F W
  unfolding print_rows
  print_results json ts headers [] world = record { world = world; output = []; panicked = false }
  print_results json ts headers (none ∷ items) world =
      printed_before (stream_failed ∷ []) (print_results json ts headers items world)
  print_results json ts headers (some tr ∷ items) world =
      print_rows json ts headers (get_data to_millis tr) world
        (print_results json ts headers items world)

  -- `subscribe_result(..).unwrap()` and what follows.
  unfoldable pub print_stream :
      Bool → List Transformer → List String → Option (List (Option (TaskResult U))) → W → Ended F W
  unfolding print_results
  print_stream json ts headers none world = record { world = world; output = []; panicked = true }
  print_stream json ts headers (some items) world = print_results json ts headers items world

module _ {U : Type 0} ⦃u : Default U⦄ {F W : Type 0} (to_millis : ℕ → F)
    (from_str : String → Option ℕ) (db : Databases) (stub : Stub U W) where
  -- The part behind `if success`, with its pipeline.
  unfoldable pub follow_with : Args → Option ℕ → Outcome (List Transformer) → W → Ended F W
  unfolding print_stream first_lines
  follow_with args id panic world = record { world = world; output = []; panicked = true }
  follow_with args none (value ts) world = record {
    world = world;
    output = first_lines args.json (pipeline_headers ts get_headers);
    panicked = true;
  }
  follow_with args (some id) (value ts) world =
      let headers = pipeline_headers ts get_headers in
      let (world', result) = stub.subscribe_result (TaskId.set_task_id id TaskId.new) world in
      printed_before (first_lines args.json headers)
        (print_stream to_millis args.json ts headers result world')

  unfoldable pub follow : Args → Option ℕ → W → Ended F W
  unfolding follow_with
  follow args id world =
      follow_with args id (transform_pipeline db args.ip2country args.ip2asn) world

  perform_request : Args → Outcome (ScheduleTask U) → W → Ended F W
  unfolding follow report
  perform_request args panic world = record { world = world; output = []; panicked = true }
  perform_request args (value req) world =
      let (world', reply) = stub.do_task req world in
      let s = scheduled reply in
      printed_before (connect_log reply) (
        if s.success then follow args s.scheduled_task_id world' else report s.error_message world')

  unfoldable pub perform_verfploeter_measurement : Args → W → Ended F W
  unfolding perform_request
  perform_verfploeter_measurement args world = perform_request args (request from_str args) world

module _ {U : Type 0} ⦃u : Default U⦄ {F W : Type 0} (stub : Stub U W) where
  unfoldable pub print_client_list : W → Ended F W
  print_client_list world =
      let (world', reply) = stub.list_clients world in
      record {
        world = world';
        output = elim reply [
          | some list ↦ client_table (client_rows list) (length (ClientList.get_clients list)) ∷ []
          | none ↦ no_client_list ∷ []
        ];
        panicked = false;
      }

-- The subcommand that was given.
pub data Command : Type 0 where
  client_list : Command
  start : Args → Command
  other : Command

module _ {U : Type 0} ⦃u : Default U⦄ {F W : Type 0} (to_millis : ℕ → F)
    (from_str : String → Option ℕ) (db : Databases) (stub : Stub U W) where
  unfoldable pub execute : Command → W → Ended F W
  execute client_list world = print_client_list stub world
  execute (start args) world = perform_verfploeter_measurement to_millis from_str db stub args world
  execute other world = record { world = world; output = []; panicked = true }

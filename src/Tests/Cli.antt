-- ===== src/Tests/Cli.antt =====
-- The theorems of Cli at a concrete task result and at concrete servers.
use verfploeter.Prelude.{
  ℕ, suc, ◌≡◌, ◌↔◌, refl, true, false, List, [], ◌∷◌, Option, none, some, String, value,
}
use verfploeter.Schema.Address
use verfploeter.Schema.PingResult
use verfploeter.Schema.PingPayload
use verfploeter.Schema.Result
use verfploeter.Schema.TaskResult
use verfploeter.Schema.TaskResult.{TaskResult}
use verfploeter.Cli.Enrichment.{
  Row, get_data, Transformer, ip2_country, ip2_asn, ping_entries, ping_row, result_rows,
}
use verfploeter.Schema.Convert.{ip_v4, ip_addr_from}
use verfploeter.Cli.Measurement.{Databases, schedule_task, transform_pipeline}
use verfploeter.Cli.Enrichment.Values.{new_ip2_country, new_ip2_asn}
use verfploeter.Schema.Ack
use verfploeter.Schema.Ack.{Ack}
use verfploeter.Schema.Display.{fmt, ping_line, line_break, unsupported_result}
use verfploeter.Cli.Execution.{
  Args, Stub, Ended, unable_to_connect, failed_to_schedule, request, scheduled, connect_log, follow,
  perform_verfploeter_measurement,
}
use verfploeter.Cli.Execution.Output.{IsTable, perform-unscheduled, perform-IsTable}
use verfploeter.Cli.Execution.Rows.{gathered, IsPrinted, perform-IsPrinted}
use verfploeter.Tests.Crates.Wire.{unit_default}

-- One result, from 10.0.0.2 to 0.0.0.1, of a request from 0.0.0.1 to 0.0.0.2.
abbrev result : Result.Result (Unit {0})
result =
    Result.set_ping
      (PingResult.set_destination_address (Address.set_v4 1 Address.new) (
        PingResult.set_source_address (Address.set_v4 167772162 Address.new) (
          PingResult.set_payload
            (PingPayload.set_source_address (Address.set_v4 1 Address.new)
              (PingPayload.set_destination_address (Address.set_v4 2 Address.new) PingPayload.new))
            PingResult.new)))
      Result.new

abbrev task_result : TaskResult (Unit {0})
task_result = TaskResult.set_result_list (result ∷ []) TaskResult.new

-- A country is known, a network is not.
abbrev pipeline : List Transformer
pipeline =
    ip2_country "source_address" "source_address_country" (λ a. some (some (some "NL")))
    ∷ ip2_asn "source_address" "source_address_asn" (λ a. none)
    ∷ []

abbrev rows : List (Row ℕ)
unfolding ping_entries
rows =
    ping_entries (λ n. n) 0 "" (Result.get_ping result) (ip_v4 167772162) (ip_v4 1) (ip_v4 1)
      (ip_v4 2)
    ∷ []

-- Every text is the address 7.
abbrev any_address : String → Option ℕ
any_address text = some 7

abbrev args : Args
args = record {
  client_hostname = "here";
  source_ip = "10.0.0.1";
  ip_file = some (some "10.0.0.2" ∷ some "10.0.0.3" ∷ []);
  json = false;
  ip2country = some "country.mmdb";
  ip2asn = none;
}

-- The country is known, and no database of networks opens.
abbrev databases : Databases
databases = record {
  open_country = λ path. some (λ a. some (some (some "NL")));
  open_asn = λ path. none;
}

abbrev countries : List Transformer
countries =
    ip2_country "source_address" "source_address_country" (λ a. some (some (some "NL"))) ∷ []

-- A server that does not answer `do_task`; the world counts the calls.
abbrev unreachable : Stub (Unit {0}) ℕ
unreachable = record {
  list_clients = λ n. (suc n, none);
  do_task = λ req n. (suc n, none);
  subscribe_result = λ id n. (suc n, none);
}

-- A server that schedules task 5 and streams a result and an error.
abbrev answering : Stub (Unit {0}) ℕ
answering = record {
  list_clients = λ n. (suc n, none);
  do_task = λ req n. (suc n, some (Ack.set_success true (Ack.set_task_id 5 Ack.new)));
  subscribe_result = λ id n. (suc n, some (some task_result ∷ none ∷ []));
}

perform_run :
    (perform_verfploeter_measurement {F = ℕ}
      (λ n. n)
      any_address
      databases
      answering
      args
      0).panicked
    ≡ false
unfolding perform_verfploeter_measurement request scheduled connect_log follow get_data ping_row
    ip_addr_from result_rows transform_pipeline new_ip2_country
perform_run = refl

perform-unscheduled_example :
    let ended : Ended ℕ ℕ =
      perform_verfploeter_measurement (λ n. n) any_address databases unreachable args 0 in
    (ended.world ≡ 1)
    × ((ended.panicked ≡ true) ↔ (◌≡◌ {A = Option (Ack (Unit {0}))} none none))
    × (ended.output ≡ unable_to_connect ∷ failed_to_schedule ∷ [])
unfolding request scheduled
perform-unscheduled_example =
    perform-unscheduled (λ n. n) any_address databases unreachable args
      (schedule_task "here" 7 (7 ∷ 7 ∷ [])) 0 refl refl

perform-IsTable_example :
    IsTable countries
      (perform_verfploeter_measurement {F = ℕ}
        (λ n. n)
        any_address
        databases
        answering
        args
        0).output
unfolding request scheduled transform_pipeline new_ip2_country
perform-IsTable_example =
    perform-IsTable (λ n. n) any_address databases answering args
      (schedule_task "here" 7 (7 ∷ 7 ∷ [])) countries 0 refl refl refl refl

perform-IsPrinted_example :
    IsPrinted countries rows
      (perform_verfploeter_measurement {F = ℕ} (λ n. n) any_address databases answering args 0)
unfolding request transform_pipeline new_ip2_country gathered get_data rows ping_row ip_addr_from
    result_rows
perform-IsPrinted_example =
    perform-IsPrinted (λ n. n) any_address databases answering args
      (schedule_task "here" 7 (7 ∷ 7 ∷ [])) (Ack.set_success true (Ack.set_task_id 5 Ack.new))
      countries (some task_result ∷ none ∷ []) rows 0 refl refl refl refl refl refl refl

-- The task is scheduled, but a database does not open.
perform_without_database :
    perform_verfploeter_measurement {F = ℕ}
      (λ n. n)
      any_address
      databases
      answering
      (record args { ip2asn = some "asn.mmdb" })
      0
    ≡ record { world = 1; output = []; panicked = true }
unfolding perform_verfploeter_measurement request scheduled connect_log follow transform_pipeline
    new_ip2_country new_ip2_asn
perform_without_database = refl

abbrev unsupported : TaskResult (Unit {0})
unsupported = TaskResult.set_result_list (result ∷ Result.new ∷ []) TaskResult.new

fmt_run :
    fmt unsupported
    ≡ value (
        ping_line 0 "" (ip_v4 167772162) (ip_v4 1) (ip_v4 1) (ip_v4 2)
        ∷ line_break
        ∷ unsupported_result 0 ""
        ∷ line_break
        ∷ [])
unfolding fmt ip_addr_from
fmt_run = refl

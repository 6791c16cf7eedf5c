-- ===== src/Cli/Execution/Rows.antt =====
-- The rows of the streamed results of src/cli/mod.rs and the lines of values that are printed.
use mathlib.Core.List.{map-append}
use verfploeter.Prelude.{
  ℕ, ◌≡◌, refl, ap, sym, ◌∙◌, true, false, List, [], ◌∷◌, ◌++◌, map, Option, none, some, String,
  Default, Outcome, value, panic, ◌>>=◌, arith,
}
use verfploeter.Schema.Ack
use verfploeter.Schema.Ack.{Ack}
use verfploeter.Schema.ScheduleTask.{ScheduleTask}
use verfploeter.Schema.TaskId
use verfploeter.Schema.TaskResult.{TaskResult}
use verfploeter.Cli.Enrichment.{Row, RowData, Transformer, get_data, get_headers}
use verfploeter.Cli.Measurement.{Databases, transform_pipeline, pipeline_headers}
use verfploeter.Cli.Measurement.Lines.{line_of}
use verfploeter.Cli.Execution.{
  unable_to_connect, failed_to_schedule, message, header_line, json_line, line, stream_failed,
  client_table, no_client_list, Stub, Args, Printed, Ended, request, scheduled, connect_log,
  print_entry, print_rows, print_results, print_stream, first_lines, follow_with, follow,
  perform_request, perform_verfploeter_measurement,
}

value-injective : {A : Type 0} (a b : A) → value a ≡ value b → a ≡ b
value-injective a b e = cc

module _ {F : Type 0} where
  -- The lines of values, in their order.
  unfoldable pub lines_in : List (Printed F) → List (List (Option (RowData F)))
  lines_in [] = []
  lines_in (line fields ∷ ps) = fields ∷ lines_in ps
  lines_in (unable_to_connect ∷ ps) = lines_in ps
  lines_in (failed_to_schedule ∷ ps) = lines_in ps
  lines_in (message text ∷ ps) = lines_in ps
  lines_in (header_line headers ∷ ps) = lines_in ps
  lines_in (json_line row ∷ ps) = lines_in ps
  lines_in (stream_failed ∷ ps) = lines_in ps
  lines_in (client_table rows n ∷ ps) = lines_in ps
  lines_in (no_client_list ∷ ps) = lines_in ps

  entries-lines :
      (ts : List Transformer) (rows : List (Row F)) (rest : List (Printed F))
      → lines_in (map (print_entry false ts (pipeline_headers ts get_headers)) rows ++ rest)
        ≡ map (line_of ts) rows ++ lines_in rest
  unfolding print_entry lines_in
  entries-lines ts [] rest = refl
  entries-lines ts (row ∷ rows) rest = ap (◌∷◌ (line_of ts row)) (entries-lines ts rows rest)

module _ {F W : Type 0} where
  -- All rows are printed, and nothing panics.
  abbrev pub IsPrinted : List Transformer → List (Row F) → Ended F W → Type 0
  IsPrinted ts rows e = (lines_in e.output ≡ map (line_of ts) rows) × (e.panicked ≡ false)

  rows-IsPrinted :
      (ts : List Transformer) (o rest : Outcome (List (Row F))) (rows : List (Row F)) (world : W)
      (e : Ended F W)
      → (o >>= (λ rows. rest >>= (λ rest. value (rows ++ rest)))) ≡ value rows
      → ((others : List (Row F)) → rest ≡ value others → IsPrinted ts others e)
      → IsPrinted ts rows (print_rows false ts (pipeline_headers ts get_headers) o world e)
  unfolding print_rows
  rows-IsPrinted ts panic rest rows world e h p = absurd (ground arith)
  rows-IsPrinted ts (value these) panic rows world e h p = absurd (ground arith)
  rows-IsPrinted ts (value these) (value others) rows world e h p =
      let same = value-injective (these ++ others) rows h in
      (
        entries-lines ts these e.output
            ∙ ap (map (line_of ts) these ++◌) (p others refl).0
            ∙ sym (map-append (line_of ts) these others)
            ∙ ap (map (line_of ts)) same,
        (p others refl).1,
      )

module _ {U : Type 0} ⦃u : Default U⦄ {F : Type 0} (to_millis : ℕ → F) where
  -- The rows of all results of a stream; a failed item has none.
  unfoldable pub gathered : List (Option (TaskResult U)) → Outcome (List (Row F))
  gathered [] = value []
  gathered (none ∷ items) = gathered items
  gathered (some result ∷ items) =
      get_data to_millis result >>= (λ rows. gathered items >>= (λ rest. value (rows ++ rest)))

module _ {U : Type 0} ⦃u : Default U⦄ {F W : Type 0} (to_millis : ℕ → F) where
  results-IsPrinted :
      (ts : List Transformer) (items : List (Option (TaskResult U))) (rows : List (Row F))
      (world : W)
      → gathered to_millis items ≡ value rows
      → IsPrinted ts rows
          (print_results to_millis false ts (pipeline_headers ts get_headers) items world)
  unfolding print_results gathered lines_in
  results-IsPrinted ts [] rows world e = (ap (map (line_of ts)) (value-injective [] rows e), refl)
  results-IsPrinted ts (none ∷ items) rows world e = results-IsPrinted ts items rows world e
  results-IsPrinted ts (some result ∷ items) rows world e =
      rows-IsPrinted ts (get_data to_millis result) (gathered to_millis items) rows world _ e
        (λ others e'. results-IsPrinted ts items others world e')

module _ {U : Type 0} ⦃u : Default U⦄ {F W : Type 0} (to_millis : ℕ → F)
    (from_str : String → Option ℕ) (db : Databases) (stub : Stub U W) where
  -- If CSV is asked for, the arguments make a request, the server schedules it and streams the
  -- results of the task, the databases open and the rows of all results are made without a panic,
  -- then the lines of values that are printed are those of these rows, each once and in the order of
  -- the stream, and the command ends without a panic.
  pub perform-IsPrinted :
      (args : Args) (req : ScheduleTask U) (ack : Ack U) (ts : List Transformer)
      (items : List (Option (TaskResult U))) (rows : List (Row F)) (world : W)
      → args.json ≡ false
      → request from_str args ≡ value req
      → (stub.do_task req world).1 ≡ some ack
      → Ack.get_success ack ≡ true
      → transform_pipeline db args.ip2country args.ip2asn ≡ value ts
      → (stub.subscribe_result
          (TaskId.set_task_id (Ack.get_task_id ack) TaskId.new)
          (stub.do_task req world).0).1
        ≡ some items
      → gathered to_millis items ≡ value rows
      → IsPrinted ts rows (perform_verfploeter_measurement to_millis from_str db stub args world)
  unfolding perform_verfploeter_measurement perform_request scheduled connect_log follow follow_with
      first_lines print_stream lines_in
  perform-IsPrinted args req ack ts items rows world csv e answered success opened streamed g =
      rw (perform_verfploeter_measurement, e, answered, success, follow, opened, csv, streamed)
        (results-IsPrinted to_millis ts items rows _ g)

-- ===== src/Cli/Execution/Output.antt =====
-- How a measurement ends, and what it prints.
use verfploeter.Prelude.{
  ℕ, true, false, List, [], ◌∷◌, ◌++◌, Option, none, some, String, Default, map, Outcome, value,
  panic, ◌≡◌, ◌↔◌, refl, ap, All, if◌then◌else◌, arith,
}
use verfploeter.Schema.Ack.{Ack}
use verfploeter.Schema.ScheduleTask.{ScheduleTask}
use verfploeter.Schema.TaskId
use verfploeter.Schema.TaskResult.{TaskResult}
use verfploeter.Cli.Enrichment.{Row, RowData, Transformer, get_data, get_headers}
use verfploeter.Cli.Measurement.{Databases, transform_pipeline, pipeline_headers, enrich}
use verfploeter.Cli.Measurement.Lines.{
  IsFull, columns, line_of, pipeline_headers-append, get_data-IsFull,
}
use verfploeter.Cli.Execution.{
  unable_to_connect, Stub, Args, Printed, printed_before, failed_to_schedule, message, line,
  header_line, json_line, Ended, request, scheduled, connect_log, print_entry, print_rows,
  print_results, print_stream, first_lines, follow_with, follow, report, perform_request,
  perform_verfploeter_measurement,
}

module _ {F : Type 0} where
  -- One value for each column.
  unfoldable pub IsWhole : List String → List (Option (RowData F)) → Type 0
  IsWhole [] [] = Unit {0}
  IsWhole [] (field ∷ fields) = ⊥
  IsWhole (column ∷ columns) [] = ⊥
  IsWhole (column ∷ columns) (field ∷ fields) =
      ((v : RowData F) × (field ≡ some v)) × IsWhole columns fields

  IsFull-IsWhole :
      (cols : List String) (row : Row F) (fields : List (Option (RowData F)))
      → IsFull cols row fields
      → IsWhole cols fields
  unfolding IsFull IsWhole
  IsFull-IsWhole [] row [] h = tt
  IsFull-IsWhole [] row (field ∷ fields) h = absurd h
  IsFull-IsWhole (col ∷ cols) row [] h = absurd h
  IsFull-IsWhole (col ∷ cols) row (field ∷ fields) h =
      ((h.0.0, h.0.1), IsFull-IsWhole cols row fields h.1)

  -- What may follow a header line: whole lines, and messages.
  abbrev pub Follows : List String → Printed F → Type 0
  Follows cols (line fields) = IsWhole cols fields
  Follows cols (header_line headers) = ⊥
  Follows cols (json_line row) = ⊥
  Follows cols p = Unit {0}

  -- The output is a header line for the pipeline and what may follow it.
  abbrev pub IsTable : List Transformer → List (Printed F) → Type 0
  IsTable ts output =
      (rest : List (Printed F)) × (output ≡ header_line (columns ts) ∷ rest)
      × All (Follows (columns ts)) rest

  Follows-append :
      (cols : List String) (xs ys : List (Printed F))
      → All (Follows cols) xs
      → All (Follows cols) ys
      → All (Follows cols) (xs ++ ys)
  Follows-append cols [] ys p q = q
  Follows-append cols (x ∷ xs) ys p q = (p.0, Follows-append cols xs ys p.1 q)

  entries-Follow :
      (ts : List Transformer) (rows : List (Row F))
      → All (λ row. IsFull (columns ts) (enrich ts row) (line_of ts row)) rows
      → All
          (Follows (columns ts))
          (map (print_entry false ts (pipeline_headers ts get_headers)) rows)
  unfolding print_entry
  entries-Follow ts [] h = tt
  entries-Follow ts (row ∷ rows) h =
      (IsFull-IsWhole (columns ts) (enrich ts row) (line_of ts row) h.0, entries-Follow ts rows h.1)

  rows-Follow :
      {W : Type 0} (ts : List Transformer) (o : Outcome (List (Row F))) (world : W)
      (rest : Ended F W)
      → ((rows : List (Row F))
          → o ≡ value rows
          → All (λ row. IsFull (columns ts) (enrich ts row) (line_of ts row)) rows)
      → All (Follows (columns ts)) rest.output
      → All
          (Follows (columns ts))
          (print_rows false ts (pipeline_headers ts get_headers) o world rest).output
  unfolding print_rows
  rows-Follow ts panic world rest h r = tt
  rows-Follow ts (value rows) world rest h r =
      Follows-append (columns ts)
        (map (print_entry false ts (pipeline_headers ts get_headers)) rows) rest.output
        (entries-Follow ts rows (h rows refl)) r

module _ {U : Type 0} ⦃u : Default U⦄ {F W : Type 0} (to_millis : ℕ → F) where
  results-Follow :
      (ts : List Transformer) (items : List (Option (TaskResult U))) (world : W)
      → All
          (Follows (columns ts))
          (print_results to_millis false ts (pipeline_headers ts get_headers) items world).output
  unfolding print_results
  results-Follow ts [] world = tt
  results-Follow ts (none ∷ items) world = (tt, results-Follow ts items world)
  results-Follow ts (some result ∷ items) world =
      rows-Follow ts (get_data to_millis result) world
        (print_results to_millis false ts (pipeline_headers ts get_headers) items world)
        (λ rows e. get_data-IsFull to_millis ts result rows e) (results-Follow ts items world)

  stream-Follow :
      (ts : List Transformer) (result : Option (List (Option (TaskResult U)))) (world : W)
      → All
          (Follows (columns ts))
          (print_stream to_millis false ts (pipeline_headers ts get_headers) result world).output
  unfolding print_stream
  stream-Follow ts none world = tt
  stream-Follow ts (some items) world = results-Follow ts items world

-- What is printed when the task was not scheduled.
abbrev pub failure : {U F : Type 0} → Option (Ack U) → List (Printed F)
failure none = unable_to_connect ∷ failed_to_schedule ∷ []
failure (some ack) = failed_to_schedule ∷ message ack.error_message ∷ []

module _ {U : Type 0} ⦃u : Default U⦄ {F W : Type 0} (to_millis : ℕ → F)
    (from_str : String → Option ℕ) (db : Databases) (stub : Stub U W) where
  -- If the arguments make a request, and the server does not answer it with success, then nothing
  -- more is asked of the server, the command panics exactly when the server did not answer at all,
  -- and it prints that the task was not scheduled, with the server's message if there is one.
  pub perform-unscheduled :
      (args : Args) (req : ScheduleTask U) (world : W)
      → request from_str args ≡ value req
      → (scheduled (stub.do_task req world).1).success ≡ false
      → let ended : Ended F W =
          perform_verfploeter_measurement to_millis from_str db stub args world in
        (ended.world ≡ (stub.do_task req world).0)
        × ((ended.panicked ≡ true) ↔ ((stub.do_task req world).1 ≡ none))
        × (ended.output ≡ failure (stub.do_task req world).1)
  unfolding perform_verfploeter_measurement scheduled connect_log
  perform-unscheduled args req world e failed = ground (arith, e)

  follow_with-IsTable :
      (args : Args) (id : Option ℕ) (ts : List Transformer) (world : W)
      → args.json ≡ false
      → IsTable ts (follow_with to_millis from_str db stub args id (value ts) world).output
  unfolding follow_with first_lines
  follow_with-IsTable args none ts world csv =
      ([], rw (csv, pipeline_headers-append ts get_headers) refl, tt)
  follow_with-IsTable args (some id) ts world csv =
      let (world', result) = stub.subscribe_result (TaskId.set_task_id id TaskId.new) world in
      let printed =
        (print_stream to_millis false ts (pipeline_headers ts get_headers) result world').output in
      (
        printed,
        rw csv (ap (λ hs. header_line hs ∷ printed) (pipeline_headers-append ts get_headers)),
        stream-Follow to_millis ts result world',
      )

  answered-IsTable :
      (args : Args) (reply : Option (Ack U)) (ts : List Transformer) (world : W)
      → args.json ≡ false
      → (scheduled reply).success ≡ true
      → transform_pipeline db args.ip2country args.ip2asn ≡ value ts
      → IsTable ts
          (printed_before (connect_log reply) (
            if (scheduled reply).success
            then follow to_millis from_str db stub args (scheduled reply).scheduled_task_id world
            else report (scheduled reply).error_message world)).output
  unfolding scheduled connect_log follow
  answered-IsTable args none ts world csv success opened = absurd (ground arith)
  answered-IsTable args (some ack) ts world csv success opened =
      rw (success, follow, opened)
        (follow_with-IsTable args (scheduled (some ack)).scheduled_task_id ts world csv)

  -- If CSV is asked for, the arguments make a request, the server answers it with success and the
  -- databases open, then the first line that is printed names the ten columns and those of the
  -- transformers. No other header line and no JSON follow it, and every line of values has one value
  -- for each name of the first.
  pub perform-IsTable :
      (args : Args) (req : ScheduleTask U) (ts : List Transformer) (world : W)
      → args.json ≡ false
      → request from_str args ≡ value req
      → (scheduled (stub.do_task req world).1).success ≡ true
      → transform_pipeline db args.ip2country args.ip2asn ≡ value ts
      → IsTable ts (perform_verfploeter_measurement to_millis from_str db stub args world).output
  unfolding perform_verfploeter_measurement perform_request
  perform-IsTable args req ts world csv e success opened =
      rw (perform_verfploeter_measurement, e)
        (answered-IsTable args (stub.do_task req world).1 ts (stub.do_task req world).0 csv success
          opened)

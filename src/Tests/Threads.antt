-- ===== src/Tests/Threads.antt =====
-- The theorems on the client's threads at concrete schedules.
use verfploeter.Prelude.{
  ℕ, suc, ◌+◌, ◌≡◌, ◌≢◌, ◌≤◌, ◌⊎◌, refl, true, false, Bool, List, [], ◌∷◌, some, value, arith, All,
  u32_max,
}
use verfploeter.Net.Cursor.{documented}
use verfploeter.Net.Packet.{Ipv4Packet, icmp_v4}
use verfploeter.Schema.TaskResult.{TaskResult}
use verfploeter.Schema.PingPayload
use verfploeter.Schema.PingPayload.RoundTrip.{merge_from-write_to}
use verfploeter.Schema.Signed.{ok, from_signed_bytes}
use verfploeter.Schema.Signed.Authentic.{from_signed_bytes-ok}
use verfploeter.Client.Inbound.{result_task_id, secret}
use verfploeter.Client.Inbound.Rounds
use verfploeter.Client.Inbound.Rounds.{Event, processes, takes, sends, result_of, valid_results}
use verfploeter.Client.Inbound.Rounds.Accepted.{accept}
use verfploeter.Client.Inbound.Rounds.Invariant.{IsConserved}
use verfploeter.Client.Inbound.Rounds.Conserved.{run-Conserved}
use verfploeter.Client.Outbound.{Network, admitted}
use verfploeter.Client.Outbound.Counting.{total, signed_bytes}
use verfploeter.Client.Outbound.Threads
use verfploeter.Client.Outbound.Threads.{
  Thread, Threads, Moved, Phase, locking, pinging, sleeping, notify, binding, finished, panicked,
  unwound, lock, bind, advance, Run, move, Step, start, run, Steps, here, later, Runs, halt, more,
}
use verfploeter.Client.Outbound.Threads.Totals.{sum_of}
use verfploeter.Client.Outbound.Threads.Exclusion.{holds, mutual_exclusion}
use verfploeter.Client.Outbound.Threads.Progress.{work, Runs-progress}
use verfploeter.Client.Outbound.Threads.Finish.{IsUp, tasks}
use verfploeter.Client.Outbound.Threads.Notified.{recorded, AllNotified, tasks-Notified}
use verfploeter.Client.Outbound.Threads.Poison.{thread_pinged, poisoned-stuck}
use verfploeter.Schema.Task
use verfploeter.Schema.Task.{Task}
use verfploeter.Tests.Crates.Wire.{format, format-IsProtobuf, unit_default}
use verfploeter.Tests.Crates.Mac.{sum_mac, sum_mac-IsMac}
use verfploeter.Tests.Schema.{payload, payload-IsPingPayload}
use verfploeter.Tests.Client.{task, nothing_sent, metadata, echo}

-- Nothing fails; the world is the number of packets.
abbrev up : Network (Unit {0}) ℕ
up = record {
  bind = λ ip n. (n, true);
  duration_since_epoch = λ n. (n, some (1000 + n));
  check = λ n. (n, true);
  sleep = λ n. n;
  drains = λ n. admitted refl;
  send_to = λ bytes ip n. (suc n, true);
  task_finished = λ id n. (n, true);
}

up-IsUp : IsUp up
up-IsUp = record { clocked = λ n. (1000 + n, refl); binds = λ ip n. refl; delivers = λ id n. refl }

-- No socket binds.
abbrev unbound : Network (Unit {0}) ℕ
unbound = record {
  bind = λ ip n. (n, false);
  duration_since_epoch = λ n. (n, some (1000 + n));
  check = λ n. (n, true);
  sleep = λ n. n;
  drains = λ n. admitted refl;
  send_to = λ bytes ip n. (suc n, true);
  task_finished = λ id n. (n, true);
}

abbrev waiting : Thread (Unit {0})
waiting = record { task = task; phase = locking }

abbrev inside : Thread (Unit {0})
inside = record { task = task; phase = binding }

-- Two threads, and the first has the mutex.
abbrev two : Threads (Unit {0}) ℕ
two = record {
  threads = waiting ∷ waiting ∷ [];
  outbound_mutex = record { held = false; poisoned = false };
  sent = nothing_sent;
}

abbrev locked : Threads (Unit {0}) ℕ
locked = record {
  threads = inside ∷ waiting ∷ [];
  outbound_mutex = record { held = true; poisoned = false };
  sent = nothing_sent;
}

abbrev entered : Moved (Unit {0}) ℕ
entered = record {
  phase = binding;
  outbound_mutex = record { held = true; poisoned = false };
  sent = nothing_sent;
}

module _ (net : Network (Unit {0}) ℕ) where
  two_started : Steps documented format sum_mac net (Threads.new nothing_sent) two
  two_started = later (later here (start task)) (start task)

  first_locks : Run documented format sum_mac net two locked
  unfolding advance lock
  first_locks = move [] (waiting ∷ []) waiting entered refl refl

-- The first thread cannot bind its socket.
abbrev failed : Threads (Unit {0}) ℕ
failed = record {
  threads = record { task = task; phase = panicked } ∷ waiting ∷ [];
  outbound_mutex = unwound;
  sent = nothing_sent;
}

first_panics : Run documented format sum_mac unbound locked failed
unfolding advance bind
first_panics =
    move [] (waiting ∷ []) inside
      (record { phase = panicked; outbound_mutex = unwound; sent = nothing_sent }) refl refl

mutual_exclusion_example : holds {U = Unit {0}} locking ≡ false
mutual_exclusion_example =
    mutual_exclusion documented format sum_mac up nothing_sent locked
      (later (two_started up) (run (first_locks up))) [] [] [] inside waiting refl refl

Runs-progress_example :
    (1 + work locked ≤ work two)
    × ((work locked ≡ 0)
        ⊎ ((v : Threads (Unit {0}) ℕ) × Run documented format sum_mac unbound locked v))
Runs-progress_example =
    Runs-progress documented format sum_mac unbound nothing_sent two 1 locked (two_started unbound)
      (more (first_locks unbound) halt)

-- One thread, from its start to its end, with a task without destinations.
abbrev quick : Task (Unit {0})
quick = record Task.new { task_id = 9 }

abbrev at : Phase (Unit {0}) → Bool → List ℕ → Threads (Unit {0}) (ℕ × List ℕ)
at phase held log = record {
  threads = record { task = quick; phase = phase } ∷ [];
  outbound_mutex = record { held = held; poisoned = false };
  sent = record { world = (0, log); transmitted_ok = 0; transmitted_error = 0 };
}

abbrev moved : Phase (Unit {0}) → Bool → List ℕ → Moved (Unit {0}) (ℕ × List ℕ)
moved phase held log = record {
  phase = phase;
  outbound_mutex = record { held = held; poisoned = false };
  sent = record { world = (0, log); transmitted_ok = 0; transmitted_error = 0 };
}

quick-Runs :
    Runs documented format sum_mac
      (recorded up)
      (at locking false [])
      4
      (at finished false (9 ∷ []))
unfolding advance lock bind notify recorded
quick-Runs = more (move [] [] _ (moved binding true []) refl refl) (
    more (move [] [] _ (moved (pinging []) true []) refl refl) (
      more (move [] [] _ (moved sleeping false []) refl refl)
        (more (move [] [] _ (moved finished false (9 ∷ [])) refl refl) halt)))

tasks-Notified_example :
    (tasks (at finished false (9 ∷ [])) ≡ tasks (at locking false []))
    × (4 ≤ work (at locking false []))
    × (AllNotified (at finished false (9 ∷ []))
        ⊎ ((v : Threads (Unit {0}) (ℕ × List ℕ)) × Run documented format sum_mac
              (recorded up)
              (at finished false (9 ∷ []))
              v))
tasks-Notified_example =
    tasks-Notified documented format sum_mac sum_mac-IsMac 7 refl up up-IsUp nothing_sent
      (at locking false []) 4 (at finished false (9 ∷ [])) (later here (start quick)) quick-Runs

-- A third task comes after the panic.
abbrev third : Threads (Unit {0}) ℕ
third = record failed {
  threads = record { task = task; phase = panicked } ∷ waiting ∷ waiting ∷ [];
}

poisoned-stuck_example :
    (total third.sent ≡ total failed.sent)
    × (sum_of thread_pinged third.threads ≤ sum_of thread_pinged failed.threads)
poisoned-stuck_example =
    poisoned-stuck documented format sum_mac unbound nothing_sent failed third
      (later (later (two_started unbound) (run (first_locks unbound))) (run first_panics)) refl
      (later here (start task))

abbrev reply : ℕ × Ipv4Packet
reply =
    (99, record { ttl = 64; source_address = 1; destination_address = 2; payload = icmp_v4 echo })

-- A packet comes between the transmitter's swap and its sends.
abbrev events : List Event
events = processes reply ∷ takes ∷ processes reply ∷ sends ∷ processes reply ∷ []

reply_signed : from_signed_bytes format sum_mac secret echo.body ≡ ok payload
unfolding signed_bytes
reply_signed =
    (from_signed_bytes-ok format sum_mac sum_mac-IsMac secret 7 echo.body payload refl).1 (
      PingPayload.write_to format payload,
      refl,
      merge_from-write_to format format-IsProtobuf payload payload-IsPingPayload,
    )

events_targets : All (λ r. result_task_id r ≢ u32_max) (valid_results format sum_mac events)
unfolding valid_results result_of
events_targets =
    rw (valid_results, result_of, reply_signed)
      ((λ e. omega (arith, e)), ((λ e. omega (arith, e)), ((λ e. omega (arith, e)), tt)))

run-Conserved_example :
    (s : Rounds.Threads (Unit {0}) (List (TaskResult (Unit {0})))) × (Rounds.run format sum_mac
        accept metadata events
        (Rounds.new [])
      ≡ value s)
    × IsConserved (valid_results format sum_mac events) s
run-Conserved_example = run-Conserved format sum_mac metadata events events_targets

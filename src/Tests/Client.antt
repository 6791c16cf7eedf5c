-- ===== src/Tests/Client.antt =====
-- The theorems of Client at concrete queues, tasks and packets.
use mathlib.Core.List.{Perm}
use verfploeter.Prelude.{
  false, ℕ, ◌-◌, ◌≡◌, ◌≢◌, ◌+◌, ◌++◌, refl, Bool, true, List, [], ◌∷◌, none, some, value, arith,
  length, All, u32_max, suc, ◌==◌,
}
use verfploeter.Net.Cursor.{documented}
use verfploeter.Net.Packet.{Icmp4Packet, Ipv4Packet, ipv4_from, to_bytes}
use verfploeter.Net.Packet.Layout.{InRange}
use verfploeter.Schema.Address
use verfploeter.Schema.Address.{Address}
use verfploeter.Schema.Metadata.{Metadata}
use verfploeter.Schema.Ping.{Ping}
use verfploeter.Schema.Ping
use verfploeter.Schema.Result.{Result, ping}
use verfploeter.Schema.Task
use verfploeter.Schema.Task.{Task}
use verfploeter.Client.Inbound.{
  receive, State, process_packet, transmit, sort_by_task_id, drain_filter, result_task_id,
}
use verfploeter.Client.Inbound.Sorting.{sort-perm}
use verfploeter.Client.Inbound.Batches.{batches, send_all, transmit-batches}
use verfploeter.Client.Inbound.Batches.Partition.{IsPartition, transmit-IsPartition}
use verfploeter.Schema.TaskResult.{TaskResult}
use verfploeter.Client.Outbound.{Network, Sent, admitted, delayed, rate_limit, perform_ping}
use verfploeter.Client.Outbound.Counting.{total, perform_ping-total, signed_bytes}
use verfploeter.Client.Outbound.Echo.{processed, echo_result, process_packet-echo}
use verfploeter.Tests.Crates.Wire.{format, format-IsProtobuf, unit_default}
use verfploeter.Tests.Crates.Mac.{sum_mac, sum_mac-IsMac}
use verfploeter.Tests.Net.{documented-IsByteOrder, header, header-IsIcmpHeader}
use verfploeter.Tests.Schema.{payload, payload-IsPingPayload}

abbrev pub metadata : Metadata (Unit {0})
metadata = record { hostname = "here"; version = "1"; unknown_fields = tt }

abbrev address : ℕ → Address (Unit {0})
address n = Address.set_v4 n Address.new

-- A ping result of the task, told apart by its time.
abbrev result : ℕ → ℕ → Result (Unit {0})
result task_id receive_time = record {
  value = some (
      ping (record {
        source_address = none;
        destination_address = none;
        receive_time = receive_time;
        payload = some (record {
          task_id = task_id;
          transmit_time = 0;
          source_address = none;
          destination_address = none;
          unknown_fields = tt;
        });
        ttl = 64;
        unknown_fields = tt;
      }));
  unknown_fields = tt;
}

abbrev queue : List (Result (Unit {0}))
queue = result 2 0 ∷ result 1 1 ∷ result 2 2 ∷ []

abbrev sorted : List (Result (Unit {0}))
sorted = result 1 1 ∷ result 2 0 ∷ result 2 2 ∷ []

abbrev state : List (Result (Unit {0})) → State (Unit {0})
state rq = record {
  result_queue = some rq;
  packets_processed_valid = 0;
  packets_processed_invalid = 0;
  packets_transmitted = 0;
}

-- The world keeps what was sent.
abbrev keep :
    TaskResult (Unit {0}) → List (TaskResult (Unit {0})) → List (TaskResult (Unit {0})) × Bool
keep tr sent = (sent ++ (tr ∷ []), true)

sort_by_task_id_run : sort_by_task_id queue ≡ sorted
unfolding sort_by_task_id
sort_by_task_id_run = refl

queue-tasks : All (λ r. result_task_id r ≢ u32_max) queue
queue-tasks = ((λ e. omega (arith, e)), ((λ e. omega (arith, e)), ((λ e. omega (arith, e)), tt)))

transmit-batches_example :
    let out = send_all keep ([], 0) (batches metadata (sort_by_task_id (drain_filter queue))) in
    transmit keep metadata [] (state queue)
    ≡ value (out.0, record (state queue) { result_queue = some []; packets_transmitted = out.1 })
transmit-batches_example = transmit-batches keep metadata [] (state queue) queue refl queue-tasks

transmit-IsPartition_example :
    (bs : List (TaskResult (Unit {0}))) × IsPartition metadata (drain_filter queue) bs
    × (transmit keep metadata [] (state queue)
        ≡ value (
          (send_all keep ([], 0) bs).0,
          record (state queue) {
            result_queue = some [];
            packets_transmitted = (send_all keep ([], 0) bs).1;
          },
        ))
transmit-IsPartition_example =
    transmit-IsPartition keep metadata [] (state queue) queue refl queue-tasks

queue-perm : Perm (sort_by_task_id queue) queue
queue-perm = sort-perm queue

-- A packet that is too short stops the receiver.
receive_run :
    receive documented
      (record { queue = []; packets_received = 0; panicked = false })
      (some (record { datagram = 69 ∷ []; since_epoch = some 5; delivered = true }) ∷ none ∷ [])
    ≡ record { queue = []; packets_received = 1; panicked = true }
unfolding receive ipv4_from
receive_run = refl

-- A network that sends the first packet only: the world counts the attempts.
abbrev network : Network (Unit {0}) ℕ
network = record {
  bind = λ ip n. (n, true);
  duration_since_epoch = λ n. (n, some (1000 + n));
  check = λ n. (n, true);
  sleep = λ n. n;
  drains = λ n. admitted refl;
  send_to = λ bytes ip n. (suc n, n == 0);
  task_finished = λ id n. (n, true);
}

abbrev pub task : Task (Unit {0})
task =
    Task.set_ping
      (record {
        source_address = some (address 1);
        destination_addresses = address 2 ∷ address 3 ∷ [];
        unknown_fields = tt;
      })
      Task.new

abbrev pub nothing_sent : Sent ℕ
nothing_sent = record { world = 0; transmitted_ok = 0; transmitted_error = 0 }

perform_ping-total_example :
    (t : Sent ℕ) × (perform_ping documented format sum_mac network task nothing_sent ≡ value t)
    × (total t ≡ total nothing_sent + length (Ping.get_destination_addresses (Task.get_ping task)))
perform_ping-total_example =
    perform_ping-total documented format sum_mac sum_mac-IsMac 7 refl network
      (λ n. (1000 + n, refl)) task nothing_sent refl

-- A limiter that refuses twice: the world is the number of refusals that are left.
rate_limit_run :
    rate_limit {check = λ n. (n, n == 0)} {sleep = λ n. n - 1} 2
      (delayed refl (delayed refl (admitted refl)))
    ≡ 0
unfolding rate_limit
rate_limit_run = refl

-- The payload comes back in an echo reply.
abbrev pub echo : Icmp4Packet
echo = record {
  icmp_type = 0;
  code = 0;
  checksum = 4660;
  identifier = 1;
  sequence_number = 2;
  body = signed_bytes format sum_mac 7 payload;
}

echo-InRange : InRange echo
echo-InRange = record {
  icmp_type = omega arith;
  code = omega arith;
  checksum = omega arith;
  identifier = omega arith;
  sequence_number = omega arith;
}

process_packet-echo_example :
    (packet : Ipv4Packet) × (ipv4_from documented (header ++ to_bytes documented echo)
      ≡ value packet)
    × (process_packet format sum_mac (99, packet) (state queue)
        ≡ processed (state queue) queue (echo_result 99 header payload))
process_packet-echo_example =
    process_packet-echo documented format sum_mac documented-IsByteOrder format-IsProtobuf
      sum_mac-IsMac 7 refl header echo payload 99 (state queue) queue header-IsIcmpHeader
      echo-InRange refl payload-IsPingPayload refl

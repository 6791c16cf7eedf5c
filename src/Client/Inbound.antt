-- ===== src/Client/Inbound.antt =====
-- src/client/handlers/ping_inbound.rs: the three threads of PingInbound as functions on their state.
-- Prometheus counters are numbers. A call of the server is the parameter `send_result`, with the
-- world that it changes and whether it was `Ok`.
pub mod Batches
pub mod Sorting
pub mod Rounds
use verfploeter.Prelude.{
  take, ◌>>=◌, ℕ, zero, suc, ◌+◌, ◌≡◌, Bool, true, false, List, [], ◌∷◌, ◌++◌, String, Option, none,
  some, Default, length, is_empty, Outcome, value, panic, ◌==◌, leb, if◌then◌else◌, u32_max,
}
use verfploeter.Net.Cursor.{ByteOrder}
use verfploeter.Net.Packet.{Ipv4Packet, icmp_v4, unimplemented, ipv4_from}
use verfploeter.Schema.Wire.{Protobuf}
use verfploeter.Schema.Signed.{SignedResult, ok, HmacSha256, from_signed_bytes}
use verfploeter.Schema.Convert.{address_from}
use verfploeter.Schema.Metadata.{Metadata}
use verfploeter.Schema.Client
use verfploeter.Schema.PingPayload
use verfploeter.Schema.PingPayload.{PingPayload}
use verfploeter.Schema.PingResult
use verfploeter.Schema.PingResult.{PingResult}
use verfploeter.Schema.Result
use verfploeter.Schema.Result.{Result}
use verfploeter.Client.Handlers.{current_timestamp}
use verfploeter.Schema.TaskResult
use verfploeter.Schema.TaskResult.{TaskResult}

-- What the packet receiver thread leaves: the packets in the channel with their times, the counter
-- PACKETS_RECEIVED, and whether the thread panicked.
pub record Received : Type 0 where
  pub queue : List (ℕ × Ipv4Packet)
  pub packets_received : ℕ
  pub panicked : Bool

-- A return of `socket.recv` that is `Ok`, with what the clock gives then and whether the channel
-- takes the packet.
pub record Arrival : Type 0 where
  pub datagram : List ℕ
  pub since_epoch : Option ℕ
  pub delivered : Bool

-- The packet of the bytes in the buffer, and its time.
arrived : ByteOrder → Arrival → Outcome (ℕ × Ipv4Packet)
arrived b a = do
  packet ← ipv4_from b (take 1500 a.datagram)
  now ← current_timestamp a.since_epoch
  if a.delivered then value (now, packet) else panic

-- One entry for each return of `socket.recv`, `none` for an error. The buffer has 1500 bytes.
unfoldable pub receive : ByteOrder → Received → List (Option Arrival) → Received
unfolding arrived
receive b s [] = s
receive b s (none ∷ events) = s
receive b s (some a ∷ events) =
    let counted = record s { packets_received = s.packets_received + 1 } in
    if length (take 1500 a.datagram) == 0 then counted else elim (arrived b a) [
      | panic ↦ record counted { panicked = true }
      | value packet ↦ receive b (record counted { queue = s.queue ++ (packet ∷ []) }) events
    ]

abbrev pub secret : String
secret = "test-secret"

pub record State (U : Type 0) : Type 0 where
  pub result_queue : Option (List (Result U))
  pub packets_processed_valid : ℕ
  pub packets_processed_invalid : ℕ
  pub packets_transmitted : ℕ

module _ {U : Type 0} ⦃u : Default U⦄ (w : Protobuf U) (h : HmacSha256) where
  -- The payload of an echo, if it is signed.
  ping_payload : Ipv4Packet → Option (PingPayload U)
  ping_payload packet = elim packet.payload [
    | icmp_v4 echo ↦ elim (from_signed_bytes w h secret echo.body) [
      | ok payload ↦ some payload
      | _ ↦ none
    ]
    | unimplemented ↦ none
  ]

  ping_result : ℕ → Ipv4Packet → PingPayload U → Result U
  ping_result receive_time packet payload =
      Result.set_ping
        (PingResult.set_ttl packet.ttl (
          PingResult.set_receive_time receive_time (
            PingResult.set_destination_address (address_from packet.destination_address) (
              PingResult.set_source_address (address_from packet.source_address)
                (PingResult.set_payload payload PingResult.new)))))
        Result.new

  -- The body of the packet processor's loop.
  unfoldable pub process_packet : ℕ × Ipv4Packet → State U → State U
  unfolding ping_payload ping_result
  process_packet (receive_time, packet) s = elim (ping_payload packet) [
    | none ↦ record s { packets_processed_invalid = s.packets_processed_invalid + 1 }
    | some payload ↦ record s {
      packets_processed_valid = s.packets_processed_valid + 1;
      result_queue = elim s.result_queue [
        | none ↦ none
        | some queue ↦ some (queue ++ (ping_result receive_time packet payload ∷ []))
      ];
    }
  ]

module _ {U : Type 0} ⦃u : Default U⦄ where
  -- `result.get_ping().get_payload().get_task_id()`
  abbrev pub result_task_id : Result U → ℕ
  result_task_id r = PingPayload.get_task_id (PingResult.get_payload (Result.get_ping r))

  -- `rq.drain_filter(|x| x.has_ping())`: what it takes out.
  unfoldable pub drain_filter : List (Result U) → List (Result U)
  drain_filter [] = []
  drain_filter (r ∷ rs) = let rest = drain_filter rs in if Result.has_ping r then r ∷ rest else rest

  -- `sort_by_key`, which is stable: an element goes before the first with no smaller key.
  insert_by_task_id : Result U → List (Result U) → List (Result U)
  insert_by_task_id r [] = r ∷ []
  insert_by_task_id r (x ∷ xs) =
      let rest = insert_by_task_id r xs in
      if leb (result_task_id r) (result_task_id x) then r ∷ x ∷ xs else x ∷ rest

  unfoldable pub sort_by_task_id : List (Result U) → List (Result U)
  unfolding insert_by_task_id
  sort_by_task_id [] = []
  sort_by_task_id (r ∷ rs) = insert_by_task_id r (sort_by_task_id rs)

  -- `tr.mut_result_list().push(result)`
  push_result : Result U → TaskResult U → TaskResult U
  push_result r tr = TaskResult.set_result_list (TaskResult.get_result_list tr ++ (r ∷ [])) tr

  -- The container that the loop begins with; its task id stands for none.
  abbrev pub first_container : TaskResult U
  first_container = TaskResult.set_task_id u32_max TaskResult.new

  -- A container for a new task.
  new_container : Metadata U → ℕ → TaskResult U
  new_container metadata task_id =
      TaskResult.set_client (Client.set_metadata metadata Client.new)
        (TaskResult.set_task_id task_id TaskResult.new)

module _ {U : Type 0} ⦃u : Default U⦄ {W : Type 0} (send_result : TaskResult U → W → W × Bool) where
  -- `if !tr.get_result_list().is_empty()`: send the container and count what was delivered.
  flush : TaskResult U → W × ℕ → W × ℕ
  flush tr (world, transmitted) =
      if is_empty (TaskResult.get_result_list tr)
      then (world, transmitted)
      else (let (world', delivered) = send_result tr world in
          (
            world',
            if delivered then transmitted + length (TaskResult.get_result_list tr) else transmitted,
          ))

  -- `for result in rq_ping`, and the container that is left behind it.
  group_results : Metadata U → TaskResult U → W × ℕ → List (Result U) → TaskResult U × (W × ℕ)
  unfolding flush push_result new_container
  group_results metadata tr out [] = (tr, out)
  group_results metadata tr out (r ∷ rs) =
      let same = TaskResult.get_task_id tr == result_task_id r in
      group_results metadata
        (push_result r (if same then tr else new_container metadata (result_task_id r)))
        (if same then out else flush tr out) rs

  pub transmit_results : Metadata U → W × ℕ → List (Result U) → W × ℕ
  unfolding group_results
  transmit_results metadata out rq_ping =
      let (tr, out') = group_results metadata first_container out rq_ping in flush tr out'

  -- One round of the packet transmitter.
  unfoldable pub transmit : Metadata U → W → State U → Outcome (W × State U)
  unfolding transmit_results
  transmit metadata world s = elim s.result_queue [
    | none ↦ panic
    | some rq ↦
        let (world', transmitted) =
          transmit_results metadata (world, s.packets_transmitted)
            (sort_by_task_id (drain_filter rq)) in
        value (world', record s { result_queue = some []; packets_transmitted = transmitted })
  ]

-- ===== src/Client/Inbound/Rounds.antt =====
-- The packet processor and the packet transmitter side by side: they share the result queue, which
-- each locks for a moment. The transmitter takes the queue in one step and sends what it took in
-- another, so packets may be processed in between.
pub mod Accepted
pub mod Invariant
pub mod Conserved
use verfploeter.Prelude.{
  ℕ, ◌+◌, List, [], ◌∷◌, ◌++◌, Option, none, some, Default, Outcome, value, panic, ◌>>=◌, Bool,
  true,
}
use verfploeter.Net.Packet.{Ipv4Packet}
use verfploeter.Schema.Wire.{Protobuf}
use verfploeter.Schema.Signed.{HmacSha256}
use verfploeter.Schema.Metadata.{Metadata}
use verfploeter.Schema.Result.{Result}
use verfploeter.Schema.TaskResult.{TaskResult}
use verfploeter.Client.Inbound.{
  State, ping_payload, ping_result, process_packet, drain_filter, sort_by_task_id, transmit_results,
}

-- `taken` is the transmitter's `rq`, between the swap and the end of its sends.
pub record Threads (U W : Type 0) : Type 0 where
  pub state : State U
  pub taken : Option (List (Result U))
  pub world : W

pub data Event : Type 0 where
  processes : ℕ × Ipv4Packet → Event
  takes : Event
  sends : Event

-- As `PingInbound::new` makes it, with the counters at 0.
abbrev pub new : {U W : Type 0} → W → Threads U W
new world = record {
  state = record {
    result_queue = some [];
    packets_processed_valid = 0;
    packets_processed_invalid = 0;
    packets_transmitted = 0;
  };
  taken = none;
  world = world;
}

module _ {U : Type 0} ⦃u : Default U⦄ {W : Type 0} where
  -- `result_queue.replace(Vec::new()).unwrap()`
  unfoldable pub take_queue : Threads U W → Outcome (Threads U W)
  take_queue s = elim s.state.result_queue [
    | none ↦ panic
    | some rq ↦
        value (record s { state = record s.state { result_queue = some [] }; taken = some rq })
  ]

  unfoldable pub send_taken :
      (TaskResult U → W → W × Bool) → Metadata U → List (Result U) → Threads U W → Threads U W
  unfolding transmit_results
  send_taken send_result metadata rq s =
      let (world, transmitted) =
        transmit_results send_result metadata (s.world, s.state.packets_transmitted)
          (sort_by_task_id (drain_filter rq)) in
      record {
        state = record s.state { packets_transmitted = transmitted };
        taken = none;
        world = world;
      }

module _ {U : Type 0} ⦃u : Default U⦄ (w : Protobuf U) (h : HmacSha256) {W : Type 0}
    (send_result : TaskResult U → W → W × Bool) (metadata : Metadata U) where
  -- The transmitter takes the queue only when it has sent what it took before; an event that is not
  -- its turn changes nothing.
  unfoldable pub step : Event → Threads U W → Outcome (Threads U W)
  step (processes packet) s = value (record s { state = process_packet w h packet s.state })
  step takes s = elim s.taken [ none ↦ take_queue s | some rq ↦ value s ]
  step sends s = elim s.taken [
    | none ↦ value s
    | some rq ↦ value (send_taken send_result metadata rq s)
  ]

  unfoldable pub run : List Event → Threads U W → Outcome (Threads U W)
  run [] s = value s
  run (e ∷ es) s = step e s >>= run es

module _ {U : Type 0} where
  abbrev pub followed : Option (Result U) → List (Result U) → List (Result U)
  followed none rs = rs
  followed (some r) rs = r ∷ rs

module _ {U : Type 0} ⦃u : Default U⦄ (w : Protobuf U) (h : HmacSha256) where
  -- The results of the valid packets, in the order of processing.
  unfoldable pub result_of : ℕ × Ipv4Packet → Option (Result U)
  unfolding ping_payload ping_result
  result_of (receive_time, packet) = elim (ping_payload w h packet) [
    | none ↦ none
    | some payload ↦ some (ping_result w h receive_time packet payload)
  ]

  unfoldable pub valid_results : List Event → List (Result U)
  valid_results [] = []
  valid_results (processes packet ∷ es) = followed (result_of packet) (valid_results es)
  valid_results (takes ∷ es) = valid_results es
  valid_results (sends ∷ es) = valid_results es

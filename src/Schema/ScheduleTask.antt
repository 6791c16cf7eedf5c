-- ===== src/Schema/ScheduleTask.antt =====
-- The message `ScheduleTask` of schema/verfploeter.proto, in src/schema/verfploeter.rs: the struct
-- with its accessors, and its part of `protobuf::Message`. `cached_size` is left out: it holds what
-- `compute_size` returned last, and `write_to_bytes` calls that first.
pub mod RoundTrip
pub mod Termination
use verfploeter.Prelude.{
  ℕ, Bool, true, false, List, [], ◌++◌, Option, none, some, Default, length, ◌==◌, if◌then◌else◌,
  add32, ◌&&◌, String, ◌∷◌,
}
use verfploeter.Schema.Wire.{
  Protobuf, ProtobufResult, add_nested_size, expect_wire_type, ok, wire_type_length_delimited,
  ◌>>=◌, ◌>>◌,
}
use verfploeter.Schema.Wire.Loop.{merge_loop}
use verfploeter.Schema.Client
use verfploeter.Schema.Client.{Client}
use verfploeter.Schema.Ping
use verfploeter.Schema.Ping.{Ping}

pub data ScheduleTaskData (U : Type 0) : Type 0 where
  ping : (Ping U) → ScheduleTaskData U

pub record ScheduleTask (U : Type 0) : Type 0 where
  pub client : Option (Client U)
  pub kind : Option (ScheduleTaskData U)
  pub unknown_fields : U

module _ {U : Type 0} ⦃u : Default U⦄ where
  abbrev pub new : ScheduleTask U
  new = record { client = none; kind = none; unknown_fields = u.default }

  abbrev pub clear_client : ScheduleTask U → ScheduleTask U
  clear_client m = record m { client = none }

  abbrev pub has_client : ScheduleTask U → Bool
  has_client m = elim m.client [ some v ↦ true | none ↦ false ]

  abbrev pub set_client : Client U → ScheduleTask U → ScheduleTask U
  set_client v m = record m { client = some v }

  abbrev pub take_client : ScheduleTask U → Client U × ScheduleTask U
  take_client m = (elim m.client [ some v ↦ v | none ↦ Client.new ], record m { client = none })

  abbrev pub get_client : ScheduleTask U → Client U
  get_client m = elim m.client [ some v ↦ v | none ↦ Client.new ]

  abbrev pub clear_ping : ScheduleTask U → ScheduleTask U
  clear_ping m = record m { kind = none }

  abbrev pub has_ping : ScheduleTask U → Bool
  has_ping m = elim m.kind [ some (ping v) ↦ true | _ ↦ false ]

  abbrev pub set_ping : Ping U → ScheduleTask U → ScheduleTask U
  set_ping v m = record m { kind = some (ping v) }

  abbrev pub get_ping : ScheduleTask U → Ping U
  get_ping m = elim m.kind [ some (ping v) ↦ v | _ ↦ Ping.new ]

  abbrev pub take_ping : ScheduleTask U → Ping U × ScheduleTask U
  take_ping m = if has_ping m then (get_ping m, record m { kind = none }) else (Ping.new, m)

  -- A mutable borrow: the value that it refers to, and the message with the value that it is left
  -- with. An absent message is made first.
  abbrev pub mut_client : ScheduleTask U → Client U × (Client U → ScheduleTask U)
  mut_client m = (get_client m, λ v. record m { client = some v })

  abbrev pub mut_ping : ScheduleTask U → Ping U × (Ping U → ScheduleTask U)
  mut_ping m = (get_ping m, λ v. record m { kind = some (ping v) })

  unfoldable pub is_initialized : ScheduleTask U → Bool
  is_initialized m =
      (elim m.client [ some v ↦ Client.is_initialized v | none ↦ true ])
      && (elim m.kind [ some (ping v) ↦ Ping.is_initialized v | none ↦ true ])

  abbrev pub clear : ScheduleTask U → ScheduleTask U
  clear m = record (clear_ping (clear_client m)) { unknown_fields = u.default }

  abbrev pub default_instance : ScheduleTask U
  default_instance = new

module _ {U : Type 0} ⦃u : Default U⦄ (w : Protobuf U) where
  unfoldable pub compute_size : ScheduleTask U → ℕ
  compute_size m =
      let s1 : ℕ = elim m.client [
        | some v ↦
            add_nested_size 0 (w.compute_raw_varint32_size (Client.compute_size w v))
              (Client.compute_size w v)
        | none ↦ 0
      ] in
      let s2 : ℕ = elim m.kind [
        | some (ping v) ↦
            add_nested_size s1 (w.compute_raw_varint32_size (Ping.compute_size w v))
              (Ping.compute_size w v)
        | none ↦ s1
      ] in
      add32 s2 (w.unknown_fields_size m.unknown_fields)

  unfoldable pub write_to : ScheduleTask U → List ℕ
  write_to m =
      (elim m.client [
        | some v ↦
            w.write_tag 1 wire_type_length_delimited
            ++ (w.write_raw_varint32 (Client.compute_size w v) ++ Client.write_to w v)
        | none ↦ []
      ])
      ++ ((elim m.kind [
        | some (ping v) ↦
            w.write_tag 2 wire_type_length_delimited
            ++ (w.write_raw_varint32 (Ping.compute_size w v) ++ Ping.write_to w v)
        | none ↦ []
      ])
          ++ w.write_unknown_fields m.unknown_fields)

  -- The field of the given number, from the stream behind its tag.
  read_field : ScheduleTask U → ℕ → ℕ → List ℕ → ProtobufResult (ScheduleTask U × List ℕ)
  read_field m field_number wire_type rest =
      if field_number == 1
      then (do
        (v, rest_of_stream) ←
            w.read_singular_message_into (Client.merge_from w) Client.new wire_type rest
        ok (record m { client = some v }, rest_of_stream))
      else (if field_number == 2
          then (do
            expect_wire_type wire_type_length_delimited wire_type
            (v, rest_of_stream) ← w.read_message (Ping.merge_from w) Ping.new rest
            ok (record m { kind = some (ping v) }, rest_of_stream))
          else ((do
            (v, rest_of_stream) ←
                w.read_unknown_or_skip_group field_number wire_type rest m.unknown_fields
            ok (record m { unknown_fields = v }, rest_of_stream))))

  -- One round of the loop: a tag, and the field that it announces.
  unfoldable pub merge_field : ScheduleTask U → List ℕ → ProtobufResult (ScheduleTask U × List ℕ)
  unfolding read_field
  merge_field m is = do
    (field_number, wire_type, rest) ← w.read_tag_unpack is
    read_field m field_number wire_type rest

  unfoldable pub merge_from : ScheduleTask U → List ℕ → ProtobufResult (ScheduleTask U)
  unfolding merge_loop
  merge_from m is = merge_loop merge_field (length is) m is

-- ===== src/Schema/PingPayload.antt =====
-- The message `PingPayload` of schema/verfploeter.proto, in src/schema/verfploeter.rs: the struct
-- with its accessors, and its part of `protobuf::Message`. `cached_size` is left out: it holds what
-- `compute_size` returned last, and `write_to_bytes` calls that first.
pub mod RoundTrip
pub mod Termination
pub mod Codec
use verfploeter.Prelude.{
  ℕ, ◌+◌, Bool, true, false, not, String, List, [], ◌∷◌, ◌++◌, Option, none, some, Default, length,
  ◌==◌, if◌then◌else◌, add32, ◌&&◌,
}
use verfploeter.Schema.Wire.{
  Protobuf, ProtobufResult, add_nested_size, expect_wire_type, ok, wire_type_length_delimited,
  wire_type_varint, ◌>>=◌, ◌>>◌,
}
use verfploeter.Schema.Wire.Loop.{merge_loop}
use verfploeter.Schema.Address
use verfploeter.Schema.Address.{Address}

pub record PingPayload (U : Type 0) : Type 0 where
  pub task_id : ℕ
  pub transmit_time : ℕ
  pub source_address : Option (Address U)
  pub destination_address : Option (Address U)
  pub unknown_fields : U

module _ {U : Type 0} ⦃u : Default U⦄ where
  abbrev pub new : PingPayload U
  new = record {
    task_id = 0;
    transmit_time = 0;
    source_address = none;
    destination_address = none;
    unknown_fields = u.default;
  }

  abbrev pub clear_task_id : PingPayload U → PingPayload U
  clear_task_id m = record m { task_id = 0 }

  abbrev pub set_task_id : ℕ → PingPayload U → PingPayload U
  set_task_id v m = record m { task_id = v }

  abbrev pub get_task_id : PingPayload U → ℕ
  get_task_id m = m.task_id

  abbrev pub clear_transmit_time : PingPayload U → PingPayload U
  clear_transmit_time m = record m { transmit_time = 0 }

  abbrev pub set_transmit_time : ℕ → PingPayload U → PingPayload U
  set_transmit_time v m = record m { transmit_time = v }

  abbrev pub get_transmit_time : PingPayload U → ℕ
  get_transmit_time m = m.transmit_time

  abbrev pub clear_source_address : PingPayload U → PingPayload U
  clear_source_address m = record m { source_address = none }

  abbrev pub has_source_address : PingPayload U → Bool
  has_source_address m = elim m.source_address [ some v ↦ true | none ↦ false ]

  abbrev pub set_source_address : Address U → PingPayload U → PingPayload U
  set_source_address v m = record m { source_address = some v }

  abbrev pub take_source_address : PingPayload U → Address U × PingPayload U
  take_source_address m = (
    elim m.source_address [ some v ↦ v | none ↦ Address.new ],
    record m { source_address = none },
  )

  abbrev pub get_source_address : PingPayload U → Address U
  get_source_address m = elim m.source_address [ some v ↦ v | none ↦ Address.new ]

  abbrev pub clear_destination_address : PingPayload U → PingPayload U
  clear_destination_address m = record m { destination_address = none }

  abbrev pub has_destination_address : PingPayload U → Bool
  has_destination_address m = elim m.destination_address [ some v ↦ true | none ↦ false ]

  abbrev pub set_destination_address : Address U → PingPayload U → PingPayload U
  set_destination_address v m = record m { destination_address = some v }

  abbrev pub take_destination_address : PingPayload U → Address U × PingPayload U
  take_destination_address m = (
    elim m.destination_address [ some v ↦ v | none ↦ Address.new ],
    record m { destination_address = none },
  )

  abbrev pub get_destination_address : PingPayload U → Address U
  get_destination_address m = elim m.destination_address [ some v ↦ v | none ↦ Address.new ]

  -- A mutable borrow: the value that it refers to, and the message with the value that it is left
  -- with. An absent message is made first.
  abbrev pub mut_source_address : PingPayload U → Address U × (Address U → PingPayload U)
  mut_source_address m = (get_source_address m, λ v. record m { source_address = some v })

  abbrev pub mut_destination_address : PingPayload U → Address U × (Address U → PingPayload U)
  mut_destination_address m =
      (get_destination_address m, λ v. record m { destination_address = some v })

  unfoldable pub is_initialized : PingPayload U → Bool
  is_initialized m =
      (elim m.source_address [ some v ↦ Address.is_initialized v | none ↦ true ])
      && (elim m.destination_address [ some v ↦ Address.is_initialized v | none ↦ true ])

  abbrev pub clear : PingPayload U → PingPayload U
  clear m =
      record (clear_destination_address
        (clear_source_address (clear_transmit_time (clear_task_id m)))) {
          unknown_fields = u.default;
        }

  abbrev pub default_instance : PingPayload U
  default_instance = new

module _ {U : Type 0} ⦃u : Default U⦄ (w : Protobuf U) where
  unfoldable pub compute_size : PingPayload U → ℕ
  compute_size m =
      let s1 : ℕ =
        if not (m.task_id == 0) then add32 0 (w.value_size 1 m.task_id wire_type_varint) else 0 in
      let s2 : ℕ =
        if not (m.transmit_time == 0)
        then add32 s1 (w.value_size 2 m.transmit_time wire_type_varint)
        else s1 in
      let s3 : ℕ = elim m.source_address [
        | some v ↦
            add_nested_size s2 (w.compute_raw_varint32_size (Address.compute_size w v))
              (Address.compute_size w v)
        | none ↦ s2
      ] in
      let s4 : ℕ = elim m.destination_address [
        | some v ↦
            add_nested_size s3 (w.compute_raw_varint32_size (Address.compute_size w v))
              (Address.compute_size w v)
        | none ↦ s3
      ] in
      add32 s4 (w.unknown_fields_size m.unknown_fields)

  unfoldable pub write_to : PingPayload U → List ℕ
  write_to m =
      (if not (m.task_id == 0) then w.write_uint32 1 m.task_id else [])
      ++ ((if not (m.transmit_time == 0) then w.write_uint64 2 m.transmit_time else [])
          ++ ((elim m.source_address [
            | some v ↦
                w.write_tag 3 wire_type_length_delimited
                ++ (w.write_raw_varint32 (Address.compute_size w v) ++ Address.write_to w v)
            | none ↦ []
          ])
              ++ ((elim m.destination_address [
                | some v ↦
                    w.write_tag 4 wire_type_length_delimited
                    ++ (w.write_raw_varint32 (Address.compute_size w v) ++ Address.write_to w v)
                | none ↦ []
              ])
                  ++ w.write_unknown_fields m.unknown_fields)))

  -- The field of the given number, from the stream behind its tag.
  read_field : PingPayload U → ℕ → ℕ → List ℕ → ProtobufResult (PingPayload U × List ℕ)
  read_field m field_number wire_type rest =
      if field_number == 1
      then (do
        expect_wire_type wire_type_varint wire_type
        (v, rest_of_stream) ← w.read_uint32 rest
        ok (record m { task_id = v }, rest_of_stream))
      else (if field_number == 2
          then (do
            expect_wire_type wire_type_varint wire_type
            (v, rest_of_stream) ← w.read_uint64 rest
            ok (record m { transmit_time = v }, rest_of_stream))
          else (if field_number == 3
              then (do
                (v, rest_of_stream) ←
                    w.read_singular_message_into (Address.merge_from w) Address.new wire_type rest
                ok (record m { source_address = some v }, rest_of_stream))
              else (if field_number == 4
                  then (do
                    (v, rest_of_stream) ←
                        w.read_singular_message_into (Address.merge_from w) Address.new wire_type
                          rest
                    ok (record m { destination_address = some v }, rest_of_stream))
                  else ((do
                    (v, rest_of_stream) ←
                        w.read_unknown_or_skip_group field_number wire_type rest m.unknown_fields
                    ok (record m { unknown_fields = v }, rest_of_stream))))))

  -- One round of the loop: a tag, and the field that it announces.
  unfoldable pub merge_field : PingPayload U → List ℕ → ProtobufResult (PingPayload U × List ℕ)
  unfolding read_field
  merge_field m is = do
    (field_number, wire_type, rest) ← w.read_tag_unpack is
    read_field m field_number wire_type rest

  unfoldable pub merge_from : PingPayload U → List ℕ → ProtobufResult (PingPayload U)
  unfolding merge_loop
  merge_from m is = merge_loop merge_field (length is) m is

-- ===== src/Schema/PingResult.antt =====
-- The message `PingResult` of schema/verfploeter.proto, in src/schema/verfploeter.rs: the struct
-- with its accessors, and its part of `protobuf::Message`. `cached_size` is left out: it holds what
-- `compute_size` returned last, and `write_to_bytes` calls that first.
pub mod RoundTrip
pub mod Termination
use verfploeter.Prelude.{
  ℕ, Bool, true, false, not, List, [], ◌++◌, Option, none, some, Default, length, ◌==◌,
  if◌then◌else◌, add32, ◌&&◌, String, ◌∷◌,
}
use verfploeter.Schema.Wire.{
  Protobuf, ProtobufResult, add_nested_size, expect_wire_type, ok, wire_type_length_delimited,
  wire_type_varint, ◌>>=◌, ◌>>◌,
}
use verfploeter.Schema.Wire.Loop.{merge_loop}
use verfploeter.Schema.Address
use verfploeter.Schema.Address.{Address}
use verfploeter.Schema.PingPayload
use verfploeter.Schema.PingPayload.{PingPayload}

pub record PingResult (U : Type 0) : Type 0 where
  pub source_address : Option (Address U)
  pub destination_address : Option (Address U)
  pub receive_time : ℕ
  pub payload : Option (PingPayload U)
  pub ttl : ℕ
  pub unknown_fields : U

module _ {U : Type 0} ⦃u : Default U⦄ where
  abbrev pub new : PingResult U
  new = record {
    source_address = none;
    destination_address = none;
    receive_time = 0;
    payload = none;
    ttl = 0;
    unknown_fields = u.default;
  }

  abbrev pub clear_source_address : PingResult U → PingResult U
  clear_source_address m = record m { source_address = none }

  abbrev pub has_source_address : PingResult U → Bool
  has_source_address m = elim m.source_address [ some v ↦ true | none ↦ false ]

  abbrev pub set_source_address : Address U → PingResult U → PingResult U
  set_source_address v m = record m { source_address = some v }

  abbrev pub take_source_address : PingResult U → Address U × PingResult U
  take_source_address m = (
    elim m.source_address [ some v ↦ v | none ↦ Address.new ],
    record m { source_address = none },
  )

  abbrev pub get_source_address : PingResult U → Address U
  get_source_address m = elim m.source_address [ some v ↦ v | none ↦ Address.new ]

  abbrev pub clear_destination_address : PingResult U → PingResult U
  clear_destination_address m = record m { destination_address = none }

  abbrev pub has_destination_address : PingResult U → Bool
  has_destination_address m = elim m.destination_address [ some v ↦ true | none ↦ false ]

  abbrev pub set_destination_address : Address U → PingResult U → PingResult U
  set_destination_address v m = record m { destination_address = some v }

  abbrev pub take_destination_address : PingResult U → Address U × PingResult U
  take_destination_address m = (
    elim m.destination_address [ some v ↦ v | none ↦ Address.new ],
    record m { destination_address = none },
  )

  abbrev pub get_destination_address : PingResult U → Address U
  get_destination_address m = elim m.destination_address [ some v ↦ v | none ↦ Address.new ]

  abbrev pub clear_receive_time : PingResult U → PingResult U
  clear_receive_time m = record m { receive_time = 0 }

  abbrev pub set_receive_time : ℕ → PingResult U → PingResult U
  set_receive_time v m = record m { receive_time = v }

  abbrev pub get_receive_time : PingResult U → ℕ
  get_receive_time m = m.receive_time

  abbrev pub clear_payload : PingResult U → PingResult U
  clear_payload m = record m { payload = none }

  abbrev pub has_payload : PingResult U → Bool
  has_payload m = elim m.payload [ some v ↦ true | none ↦ false ]

  abbrev pub set_payload : PingPayload U → PingResult U → PingResult U
  set_payload v m = record m { payload = some v }

  abbrev pub take_payload : PingResult U → PingPayload U × PingResult U
  take_payload m =
      (elim m.payload [ some v ↦ v | none ↦ PingPayload.new ], record m { payload = none })

  abbrev pub get_payload : PingResult U → PingPayload U
  get_payload m = elim m.payload [ some v ↦ v | none ↦ PingPayload.new ]

  abbrev pub clear_ttl : PingResult U → PingResult U
  clear_ttl m = record m { ttl = 0 }

  abbrev pub set_ttl : ℕ → PingResult U → PingResult U
  set_ttl v m = record m { ttl = v }

  abbrev pub get_ttl : PingResult U → ℕ
  get_ttl m = m.ttl

  -- A mutable borrow: the value that it refers to, and the message with the value that it is left
  -- with. An absent message is made first.
  abbrev pub mut_source_address : PingResult U → Address U × (Address U → PingResult U)
  mut_source_address m = (get_source_address m, λ v. record m { source_address = some v })

  abbrev pub mut_destination_address : PingResult U → Address U × (Address U → PingResult U)
  mut_destination_address m =
      (get_destination_address m, λ v. record m { destination_address = some v })

  abbrev pub mut_payload : PingResult U → PingPayload U × (PingPayload U → PingResult U)
  mut_payload m = (get_payload m, λ v. record m { payload = some v })

  unfoldable pub is_initialized : PingResult U → Bool
  is_initialized m =
      (elim m.source_address [ some v ↦ Address.is_initialized v | none ↦ true ])
      && (elim m.destination_address [ some v ↦ Address.is_initialized v | none ↦ true ])
      && (elim m.payload [ some v ↦ PingPayload.is_initialized v | none ↦ true ])

  abbrev pub clear : PingResult U → PingResult U
  clear m =
      record (clear_ttl
        (clear_payload (clear_receive_time (clear_destination_address (clear_source_address m))))) {
          unknown_fields = u.default;
        }

  abbrev pub default_instance : PingResult U
  default_instance = new

module _ {U : Type 0} ⦃u : Default U⦄ (w : Protobuf U) where
  unfoldable pub compute_size : PingResult U → ℕ
  compute_size m =
      let s1 : ℕ = elim m.source_address [
        | some v ↦
            add_nested_size 0 (w.compute_raw_varint32_size (Address.compute_size w v))
              (Address.compute_size w v)
        | none ↦ 0
      ] in
      let s2 : ℕ = elim m.destination_address [
        | some v ↦
            add_nested_size s1 (w.compute_raw_varint32_size (Address.compute_size w v))
              (Address.compute_size w v)
        | none ↦ s1
      ] in
      let s3 : ℕ =
        if not (m.receive_time == 0)
        then add32 s2 (w.value_size 3 m.receive_time wire_type_varint)
        else s2 in
      let s4 : ℕ = elim m.payload [
        | some v ↦
            add_nested_size s3 (w.compute_raw_varint32_size (PingPayload.compute_size w v))
              (PingPayload.compute_size w v)
        | none ↦ s3
      ] in
      let s5 : ℕ =
        if not (m.ttl == 0) then add32 s4 (w.value_size 5 m.ttl wire_type_varint) else s4 in
      add32 s5 (w.unknown_fields_size m.unknown_fields)

  unfoldable pub write_to : PingResult U → List ℕ
  write_to m =
      (elim m.source_address [
        | some v ↦
            w.write_tag 1 wire_type_length_delimited
            ++ (w.write_raw_varint32 (Address.compute_size w v) ++ Address.write_to w v)
        | none ↦ []
      ])
      ++ ((elim m.destination_address [
        | some v ↦
            w.write_tag 2 wire_type_length_delimited
            ++ (w.write_raw_varint32 (Address.compute_size w v) ++ Address.write_to w v)
        | none ↦ []
      ])
          ++ ((if not (m.receive_time == 0) then w.write_uint64 3 m.receive_time else [])
              ++ ((elim m.payload [
                | some v ↦
                    w.write_tag 4 wire_type_length_delimited
                    ++ (w.write_raw_varint32 (PingPayload.compute_size w v)
                        ++ PingPayload.write_to w v)
                | none ↦ []
              ])
                  ++ ((if not (m.ttl == 0) then w.write_uint32 5 m.ttl else [])
                      ++ w.write_unknown_fields m.unknown_fields))))

  -- The field of the given number, from the stream behind its tag.
  read_field : PingResult U → ℕ → ℕ → List ℕ → ProtobufResult (PingResult U × List ℕ)
  read_field m field_number wire_type rest =
      if field_number == 1
      then (do
        (v, rest_of_stream) ←
            w.read_singular_message_into (Address.merge_from w) Address.new wire_type rest
        ok (record m { source_address = some v }, rest_of_stream))
      else (if field_number == 2
          then (do
            (v, rest_of_stream) ←
                w.read_singular_message_into (Address.merge_from w) Address.new wire_type rest
            ok (record m { destination_address = some v }, rest_of_stream))
          else (if field_number == 3
              then (do
                expect_wire_type wire_type_varint wire_type
                (v, rest_of_stream) ← w.read_uint64 rest
                ok (record m { receive_time = v }, rest_of_stream))
              else (if field_number == 4
                  then (do
                    (v, rest_of_stream) ←
                        w.read_singular_message_into (PingPayload.merge_from w) PingPayload.new
                          wire_type rest
                    ok (record m { payload = some v }, rest_of_stream))
                  else (if field_number == 5
                      then (do
                        expect_wire_type wire_type_varint wire_type
                        (v, rest_of_stream) ← w.read_uint32 rest
                        ok (record m { ttl = v }, rest_of_stream))
                      else ((do
                        (v, rest_of_stream) ←
                            w.read_unknown_or_skip_group field_number wire_type rest
                              m.unknown_fields
                        ok (record m { unknown_fields = v }, rest_of_stream)))))))

  -- One round of the loop: a tag, and the field that it announces.
  unfoldable pub merge_field : PingResult U → List ℕ → ProtobufResult (PingResult U × List ℕ)
  unfolding read_field
  merge_field m is = do
    (field_number, wire_type, rest) ← w.read_tag_unpack is
    read_field m field_number wire_type rest

  unfoldable pub merge_from : PingResult U → List ℕ → ProtobufResult (PingResult U)
  unfolding merge_loop
  merge_from m is = merge_loop merge_field (length is) m is

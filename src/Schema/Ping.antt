-- ===== src/Schema/Ping.antt =====
-- The message `Ping` of schema/verfploeter.proto, in src/schema/verfploeter.rs: the struct with its
-- accessors, and its part of `protobuf::Message`. `cached_size` is left out: it holds what
-- `compute_size` returned last, and `write_to_bytes` calls that first.
pub mod RoundTrip
pub mod Termination
use verfploeter.Prelude.{
  ℕ, Bool, true, false, List, [], ◌∷◌, ◌++◌, Option, none, some, Default, length, ◌==◌,
  if◌then◌else◌, add32, ◌&&◌, String,
}
use verfploeter.Schema.Wire.{
  Protobuf, ProtobufResult, add_nested_size, ok, wire_type_length_delimited, ◌>>=◌,
}
use verfploeter.Schema.Wire.Loop.{merge_loop}
use verfploeter.Schema.Address
use verfploeter.Schema.Address.{Address}

pub record Ping (U : Type 0) : Type 0 where
  pub source_address : Option (Address U)
  pub destination_addresses : List (Address U)
  pub unknown_fields : U

module _ {U : Type 0} ⦃u : Default U⦄ where
  abbrev pub new : Ping U
  new = record { source_address = none; destination_addresses = []; unknown_fields = u.default }

  abbrev pub clear_source_address : Ping U → Ping U
  clear_source_address m = record m { source_address = none }

  abbrev pub has_source_address : Ping U → Bool
  has_source_address m = elim m.source_address [ some v ↦ true | none ↦ false ]

  abbrev pub set_source_address : Address U → Ping U → Ping U
  set_source_address v m = record m { source_address = some v }

  abbrev pub take_source_address : Ping U → Address U × Ping U
  take_source_address m = (
    elim m.source_address [ some v ↦ v | none ↦ Address.new ],
    record m { source_address = none },
  )

  abbrev pub get_source_address : Ping U → Address U
  get_source_address m = elim m.source_address [ some v ↦ v | none ↦ Address.new ]

  abbrev pub clear_destination_addresses : Ping U → Ping U
  clear_destination_addresses m = record m { destination_addresses = [] }

  abbrev pub set_destination_addresses : List (Address U) → Ping U → Ping U
  set_destination_addresses v m = record m { destination_addresses = v }

  abbrev pub take_destination_addresses : Ping U → List (Address U) × Ping U
  take_destination_addresses m = (m.destination_addresses, record m { destination_addresses = [] })

  abbrev pub get_destination_addresses : Ping U → List (Address U)
  get_destination_addresses m = m.destination_addresses

  -- A mutable borrow: the value that it refers to, and the message with the value that it is left
  -- with. An absent message is made first.
  abbrev pub mut_source_address : Ping U → Address U × (Address U → Ping U)
  mut_source_address m = (get_source_address m, λ v. record m { source_address = some v })

  abbrev pub mut_destination_addresses : Ping U → List (Address U) × (List (Address U) → Ping U)
  mut_destination_addresses m =
      (m.destination_addresses, λ v. record m { destination_addresses = v })

  unfoldable pub destination_addresses_initialized : List (Address U) → Bool
  destination_addresses_initialized [] = true
  destination_addresses_initialized (v ∷ vs) =
      Address.is_initialized v && destination_addresses_initialized vs

  unfoldable pub is_initialized : Ping U → Bool
  unfolding destination_addresses_initialized
  is_initialized m =
      (elim m.source_address [ some v ↦ Address.is_initialized v | none ↦ true ])
      && (destination_addresses_initialized m.destination_addresses)

  abbrev pub clear : Ping U → Ping U
  clear m = record (clear_destination_addresses (clear_source_address m)) {
    unknown_fields = u.default;
  }

  abbrev pub default_instance : Ping U
  default_instance = new

module _ {U : Type 0} ⦃u : Default U⦄ (w : Protobuf U) where
  destination_addresses_size : ℕ → List (Address U) → ℕ
  destination_addresses_size my_size [] = my_size
  destination_addresses_size my_size (v ∷ vs) =
      let len = Address.compute_size w v in
      destination_addresses_size (add_nested_size my_size (w.compute_raw_varint32_size len) len) vs

  write_destination_addresses : List (Address U) → List ℕ
  write_destination_addresses [] = []
  write_destination_addresses (v ∷ vs) =
      w.write_tag 2 wire_type_length_delimited
      ++ (w.write_raw_varint32 (Address.compute_size w v)
          ++ (Address.write_to w v ++ write_destination_addresses vs))

  unfoldable pub compute_size : Ping U → ℕ
  unfolding destination_addresses_size
  compute_size m =
      let s1 : ℕ = elim m.source_address [
        | some v ↦
            add_nested_size 0 (w.compute_raw_varint32_size (Address.compute_size w v))
              (Address.compute_size w v)
        | none ↦ 0
      ] in
      let s2 : ℕ = destination_addresses_size s1 m.destination_addresses in
      add32 s2 (w.unknown_fields_size m.unknown_fields)

  unfoldable pub write_to : Ping U → List ℕ
  unfolding write_destination_addresses
  write_to m =
      (elim m.source_address [
        | some v ↦
            w.write_tag 1 wire_type_length_delimited
            ++ (w.write_raw_varint32 (Address.compute_size w v) ++ Address.write_to w v)
        | none ↦ []
      ])
      ++ (write_destination_addresses m.destination_addresses
          ++ w.write_unknown_fields m.unknown_fields)

  -- The field of the given number, from the stream behind its tag.
  read_field : Ping U → ℕ → ℕ → List ℕ → ProtobufResult (Ping U × List ℕ)
  read_field m field_number wire_type rest =
      if field_number == 1
      then (do
        (v, rest_of_stream) ←
            w.read_singular_message_into (Address.merge_from w) Address.new wire_type rest
        ok (record m { source_address = some v }, rest_of_stream))
      else (if field_number == 2
          then (do
            (v, rest_of_stream) ←
                w.read_repeated_message_into (Address.merge_from w) Address.new wire_type rest
                  m.destination_addresses
            ok (record m { destination_addresses = v }, rest_of_stream))
          else ((do
            (v, rest_of_stream) ←
                w.read_unknown_or_skip_group field_number wire_type rest m.unknown_fields
            ok (record m { unknown_fields = v }, rest_of_stream))))

  -- One round of the loop: a tag, and the field that it announces.
  unfoldable pub merge_field : Ping U → List ℕ → ProtobufResult (Ping U × List ℕ)
  unfolding read_field
  merge_field m is = do
    (field_number, wire_type, rest) ← w.read_tag_unpack is
    read_field m field_number wire_type rest

  unfoldable pub merge_from : Ping U → List ℕ → ProtobufResult (Ping U)
  unfolding merge_loop
  merge_from m is = merge_loop merge_field (length is) m is

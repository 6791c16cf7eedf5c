-- ===== src/Schema/Client.antt =====
-- The message `Client` of schema/verfploeter.proto, in src/schema/verfploeter.rs: the struct with
-- its accessors, and its part of `protobuf::Message`. `cached_size` is left out: it holds what
-- `compute_size` returned last, and `write_to_bytes` calls that first.
pub mod RoundTrip
pub mod Termination
use verfploeter.Prelude.{
  ℕ, Bool, true, false, not, List, [], ◌++◌, Option, none, some, Default, length, ◌==◌,
  if◌then◌else◌, add32, ◌&&◌, String, ◌∷◌,
}
use verfploeter.Schema.Wire.{
  Protobuf, ProtobufResult, add_nested_size, expect_wire_type, ok, wire_type_length_delimited,
  wire_type_varint, ◌>>=◌, ◌>>◌,
}
use verfploeter.Schema.Wire.Loop.{merge_loop}
use verfploeter.Schema.Metadata
use verfploeter.Schema.Metadata.{Metadata}

pub record Client (U : Type 0) : Type 0 where
  pub index : ℕ
  pub metadata : Option (Metadata U)
  pub unknown_fields : U

module _ {U : Type 0} ⦃u : Default U⦄ where
  abbrev pub new : Client U
  new = record { index = 0; metadata = none; unknown_fields = u.default }

  abbrev pub clear_index : Client U → Client U
  clear_index m = record m { index = 0 }

  abbrev pub set_index : ℕ → Client U → Client U
  set_index v m = record m { index = v }

  abbrev pub get_index : Client U → ℕ
  get_index m = m.index

  abbrev pub clear_metadata : Client U → Client U
  clear_metadata m = record m { metadata = none }

  abbrev pub has_metadata : Client U → Bool
  has_metadata m = elim m.metadata [ some v ↦ true | none ↦ false ]

  abbrev pub set_metadata : Metadata U → Client U → Client U
  set_metadata v m = record m { metadata = some v }

  abbrev pub take_metadata : Client U → Metadata U × Client U
  take_metadata m =
      (elim m.metadata [ some v ↦ v | none ↦ Metadata.new ], record m { metadata = none })

  abbrev pub get_metadata : Client U → Metadata U
  get_metadata m = elim m.metadata [ some v ↦ v | none ↦ Metadata.new ]

  -- A mutable borrow: the value that it refers to, and the message with the value that it is left
  -- with. An absent message is made first.
  abbrev pub mut_metadata : Client U → Metadata U × (Metadata U → Client U)
  mut_metadata m = (get_metadata m, λ v. record m { metadata = some v })

  unfoldable pub is_initialized : Client U → Bool
  is_initialized m = elim m.metadata [ some v ↦ Metadata.is_initialized v | none ↦ true ]

  abbrev pub clear : Client U → Client U
  clear m = record (clear_metadata (clear_index m)) { unknown_fields = u.default }

  abbrev pub default_instance : Client U
  default_instance = new

module _ {U : Type 0} ⦃u : Default U⦄ (w : Protobuf U) where
  unfoldable pub compute_size : Client U → ℕ
  compute_size m =
      let s1 : ℕ =
        if not (m.index == 0) then add32 0 (w.value_size 1 m.index wire_type_varint) else 0 in
      let s2 : ℕ = elim m.metadata [
        | some v ↦
            add_nested_size s1 (w.compute_raw_varint32_size (Metadata.compute_size w v))
              (Metadata.compute_size w v)
        | none ↦ s1
      ] in
      add32 s2 (w.unknown_fields_size m.unknown_fields)

  unfoldable pub write_to : Client U → List ℕ
  write_to m =
      (if not (m.index == 0) then w.write_uint32 1 m.index else [])
      ++ ((elim m.metadata [
        | some v ↦
            w.write_tag 2 wire_type_length_delimited
            ++ (w.write_raw_varint32 (Metadata.compute_size w v) ++ Metadata.write_to w v)
        | none ↦ []
      ])
          ++ w.write_unknown_fields m.unknown_fields)

  -- The field of the given number, from the stream behind its tag.
  read_field : Client U → ℕ → ℕ → List ℕ → ProtobufResult (Client U × List ℕ)
  read_field m field_number wire_type rest =
      if field_number == 1
      then (do
        expect_wire_type wire_type_varint wire_type
        (v, rest_of_stream) ← w.read_uint32 rest
        ok (record m { index = v }, rest_of_stream))
      else (if field_number == 2
          then (do
            (v, rest_of_stream) ←
                w.read_singular_message_into (Metadata.merge_from w) Metadata.new wire_type rest
            ok (record m { metadata = some v }, rest_of_stream))
          else ((do
            (v, rest_of_stream) ←
                w.read_unknown_or_skip_group field_number wire_type rest m.unknown_fields
            ok (record m { unknown_fields = v }, rest_of_stream))))

  -- One round of the loop: a tag, and the field that it announces.
  unfoldable pub merge_field : Client U → List ℕ → ProtobufResult (Client U × List ℕ)
  unfolding read_field
  merge_field m is = do
    (field_number, wire_type, rest) ← w.read_tag_unpack is
    read_field m field_number wire_type rest

  unfoldable pub merge_from : Client U → List ℕ → ProtobufResult (Client U)
  unfolding merge_loop
  merge_from m is = merge_loop merge_field (length is) m is

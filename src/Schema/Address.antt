-- ===== src/Schema/Address.antt =====
-- The message `Address` of schema/verfploeter.proto, in src/schema/verfploeter.rs: the struct with
-- its accessors, and its part of `protobuf::Message`. `cached_size` is left out: it holds what
-- `compute_size` returned last, and `write_to_bytes` calls that first.
pub mod RoundTrip
pub mod Termination
pub mod Codec
use verfploeter.Prelude.{
  ℕ, ◌+◌, Bool, true, false, not, String, List, [], ◌∷◌, ◌++◌, Option, none, some, Default, length,
  ◌==◌, if◌then◌else◌, add32, ◌&&◌,
}
use verfploeter.Schema.Wire.{
  Protobuf, ProtobufResult, expect_wire_type, ok, wire_type_length_delimited, wire_type_varint,
  ◌>>=◌, ◌>>◌,
}
use verfploeter.Schema.Wire.Loop.{merge_loop}

pub data AddressValue (U : Type 0) : Type 0 where
  v4 : ℕ → AddressValue U
  v6 : (List ℕ) → AddressValue U

pub record Address (U : Type 0) : Type 0 where
  pub value : Option (AddressValue U)
  pub unknown_fields : U

module _ {U : Type 0} ⦃u : Default U⦄ where
  abbrev pub new : Address U
  new = record { value = none; unknown_fields = u.default }

  abbrev pub clear_v4 : Address U → Address U
  clear_v4 m = record m { value = none }

  abbrev pub has_v4 : Address U → Bool
  has_v4 m = elim m.value [ some (v4 v) ↦ true | _ ↦ false ]

  abbrev pub set_v4 : ℕ → Address U → Address U
  set_v4 v m = record m { value = some (v4 v) }

  abbrev pub get_v4 : Address U → ℕ
  get_v4 m = elim m.value [ some (v4 v) ↦ v | _ ↦ 0 ]

  abbrev pub clear_v6 : Address U → Address U
  clear_v6 m = record m { value = none }

  abbrev pub has_v6 : Address U → Bool
  has_v6 m = elim m.value [ some (v6 v) ↦ true | _ ↦ false ]

  abbrev pub set_v6 : List ℕ → Address U → Address U
  set_v6 v m = record m { value = some (v6 v) }

  abbrev pub get_v6 : Address U → List ℕ
  get_v6 m = elim m.value [ some (v6 v) ↦ v | _ ↦ [] ]

  abbrev pub take_v6 : Address U → List ℕ × Address U
  take_v6 m = if has_v6 m then (get_v6 m, record m { value = none }) else ([], m)

  -- A mutable borrow: the value that it refers to, and the message with the value that it is left
  -- with. An absent message is made first.
  abbrev pub mut_v6 : Address U → List ℕ × (List ℕ → Address U)
  mut_v6 m = (get_v6 m, λ v. record m { value = some (v6 v) })

  unfoldable pub is_initialized : Address U → Bool
  is_initialized m = true

  abbrev pub clear : Address U → Address U
  clear m = record (clear_v6 (clear_v4 m)) { unknown_fields = u.default }

  abbrev pub default_instance : Address U
  default_instance = new

module _ {U : Type 0} ⦃u : Default U⦄ (w : Protobuf U) where
  unfoldable pub compute_size : Address U → ℕ
  compute_size m =
      let s1 : ℕ = elim m.value [
        | some (v4 v) ↦ add32 0 (w.value_size 1 v wire_type_varint)
        | some (v6 v) ↦ add32 0 (w.bytes_size 2 v)
        | none ↦ 0
      ] in
      add32 s1 (w.unknown_fields_size m.unknown_fields)

  unfoldable pub write_to : Address U → List ℕ
  write_to m =
      (elim m.value [
        | some (v4 v) ↦ w.write_uint32 1 v
        | some (v6 v) ↦ w.write_bytes 2 v
        | none ↦ []
      ])
      ++ w.write_unknown_fields m.unknown_fields

  -- The field of the given number, from the stream behind its tag.
  read_field : Address U → ℕ → ℕ → List ℕ → ProtobufResult (Address U × List ℕ)
  read_field m field_number wire_type rest =
      if field_number == 1
      then (do
        expect_wire_type wire_type_varint wire_type
        (v, rest_of_stream) ← w.read_uint32 rest
        ok (record m { value = some (v4 v) }, rest_of_stream))
      else (if field_number == 2
          then (do
            expect_wire_type wire_type_length_delimited wire_type
            (v, rest_of_stream) ← w.read_bytes rest
            ok (record m { value = some (v6 v) }, rest_of_stream))
          else ((do
            (v, rest_of_stream) ←
                w.read_unknown_or_skip_group field_number wire_type rest m.unknown_fields
            ok (record m { unknown_fields = v }, rest_of_stream))))

  -- One round of the loop: a tag, and the field that it announces.
  unfoldable pub merge_field : Address U → List ℕ → ProtobufResult (Address U × List ℕ)
  unfolding read_field
  merge_field m is = do
    (field_number, wire_type, rest) ← w.read_tag_unpack is
    read_field m field_number wire_type rest

  unfoldable pub merge_from : Address U → List ℕ → ProtobufResult (Address U)
  unfolding merge_loop
  merge_from m is = merge_loop merge_field (length is) m is

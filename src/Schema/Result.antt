-- ===== src/Schema/Result.antt =====
-- The message `Result` of schema/verfploeter.proto, in src/schema/verfploeter.rs: the struct with
-- its accessors, and its part of `protobuf::Message`. `cached_size` is left out: it holds what
-- `compute_size` returned last, and `write_to_bytes` calls that first.
pub mod RoundTrip
pub mod Termination
use verfploeter.Prelude.{
  ℕ, Bool, true, false, List, [], ◌++◌, Option, none, some, Default, length, ◌==◌, if◌then◌else◌,
  add32, ◌&&◌, String, ◌∷◌,
}
use verfploeter.Schema.Wire.{
  Protobuf, ProtobufResult, add_nested_size, expect_wire_type, ok, wire_type_length_delimited,
  ◌>>=◌, ◌>>◌,
}
use verfploeter.Schema.Wire.Loop.{merge_loop}
use verfploeter.Schema.PingResult
use verfploeter.Schema.PingResult.{PingResult}

pub data ResultValue (U : Type 0) : Type 0 where
  ping : (PingResult U) → ResultValue U

pub record Result (U : Type 0) : Type 0 where
  pub value : Option (ResultValue U)
  pub unknown_fields : U

module _ {U : Type 0} ⦃u : Default U⦄ where
  abbrev pub new : Result U
  new = record { value = none; unknown_fields = u.default }

  abbrev pub clear_ping : Result U → Result U
  clear_ping m = record m { value = none }

  abbrev pub has_ping : Result U → Bool
  has_ping m = elim m.value [ some (ping v) ↦ true | _ ↦ false ]

  abbrev pub set_ping : PingResult U → Result U → Result U
  set_ping v m = record m { value = some (ping v) }

  abbrev pub get_ping : Result U → PingResult U
  get_ping m = elim m.value [ some (ping v) ↦ v | _ ↦ PingResult.new ]

  abbrev pub take_ping : Result U → PingResult U × Result U
  take_ping m = if has_ping m then (get_ping m, record m { value = none }) else (PingResult.new, m)

  -- A mutable borrow: the value that it refers to, and the message with the value that it is left
  -- with. An absent message is made first.
  abbrev pub mut_ping : Result U → PingResult U × (PingResult U → Result U)
  mut_ping m = (get_ping m, λ v. record m { value = some (ping v) })

  unfoldable pub is_initialized : Result U → Bool
  is_initialized m = elim m.value [ some (ping v) ↦ PingResult.is_initialized v | none ↦ true ]

  abbrev pub clear : Result U → Result U
  clear m = record (clear_ping m) { unknown_fields = u.default }

  abbrev pub default_instance : Result U
  default_instance = new

module _ {U : Type 0} ⦃u : Default U⦄ (w : Protobuf U) where
  unfoldable pub compute_size : Result U → ℕ
  compute_size m =
      let s1 : ℕ = elim m.value [
        | some (ping v) ↦
            add_nested_size 0 (w.compute_raw_varint32_size (PingResult.compute_size w v))
              (PingResult.compute_size w v)
        | none ↦ 0
      ] in
      add32 s1 (w.unknown_fields_size m.unknown_fields)

  unfoldable pub write_to : Result U → List ℕ
  write_to m =
      (elim m.value [
        | some (ping v) ↦
            w.write_tag 1 wire_type_length_delimited
            ++ (w.write_raw_varint32 (PingResult.compute_size w v) ++ PingResult.write_to w v)
        | none ↦ []
      ])
      ++ w.write_unknown_fields m.unknown_fields

  -- The field of the given number, from the stream behind its tag.
  read_field : Result U → ℕ → ℕ → List ℕ → ProtobufResult (Result U × List ℕ)
  read_field m field_number wire_type rest =
      if field_number == 1
      then (do
        expect_wire_type wire_type_length_delimited wire_type
        (v, rest_of_stream) ← w.read_message (PingResult.merge_from w) PingResult.new rest
        ok (record m { value = some (ping v) }, rest_of_stream))
      else ((do
        (v, rest_of_stream) ←
            w.read_unknown_or_skip_group field_number wire_type rest m.unknown_fields
        ok (record m { unknown_fields = v }, rest_of_stream)))

  -- One round of the loop: a tag, and the field that it announces.
  unfoldable pub merge_field : Result U → List ℕ → ProtobufResult (Result U × List ℕ)
  unfolding read_field
  merge_field m is = do
    (field_number, wire_type, rest) ← w.read_tag_unpack is
    read_field m field_number wire_type rest

  unfoldable pub merge_from : Result U → List ℕ → ProtobufResult (Result U)
  unfolding merge_loop
  merge_from m is = merge_loop merge_field (length is) m is

-- ===== src/Schema/Empty.antt =====
-- The message `Empty` of schema/verfploeter.proto, in src/schema/verfploeter.rs: the struct with its
-- accessors, and its part of `protobuf::Message`. `cached_size` is left out: it holds what
-- `compute_size` returned last, and `write_to_bytes` calls that first.
pub mod RoundTrip
pub mod Termination
use verfploeter.Prelude.{ℕ, List, Default, length, add32, Bool, true, ◌&&◌, String, [], ◌∷◌}
use verfploeter.Schema.Wire.{Protobuf, ProtobufResult, ok, ◌>>=◌}
use verfploeter.Schema.Wire.Loop.{merge_loop}

pub record Empty (U : Type 0) : Type 0 where
  pub unknown_fields : U

module _ {U : Type 0} ⦃u : Default U⦄ where
  abbrev pub new : Empty U
  new = record { unknown_fields = u.default }

  unfoldable pub is_initialized : Empty U → Bool
  is_initialized m = true

  abbrev pub clear : Empty U → Empty U
  clear m = record m { unknown_fields = u.default }

  abbrev pub default_instance : Empty U
  default_instance = new

module _ {U : Type 0} ⦃u : Default U⦄ (w : Protobuf U) where
  unfoldable pub compute_size : Empty U → ℕ
  compute_size m = add32 0 (w.unknown_fields_size m.unknown_fields)

  unfoldable pub write_to : Empty U → List ℕ
  write_to m = w.write_unknown_fields m.unknown_fields

  -- The field of the given number, from the stream behind its tag.
  read_field : Empty U → ℕ → ℕ → List ℕ → ProtobufResult (Empty U × List ℕ)
  read_field m field_number wire_type rest = (do
    (v, rest_of_stream) ← w.read_unknown_or_skip_group field_number wire_type rest m.unknown_fields
    ok (record m { unknown_fields = v }, rest_of_stream))

  -- One round of the loop: a tag, and the field that it announces.
  unfoldable pub merge_field : Empty U → List ℕ → ProtobufResult (Empty U × List ℕ)
  unfolding read_field
  merge_field m is = do
    (field_number, wire_type, rest) ← w.read_tag_unpack is
    read_field m field_number wire_type rest

  unfoldable pub merge_from : Empty U → List ℕ → ProtobufResult (Empty U)
  unfolding merge_loop
  merge_from m is = merge_loop merge_field (length is) m is

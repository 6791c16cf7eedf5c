-- ===== src/Schema/TaskId.antt =====
-- The message `TaskId` of schema/verfploeter.proto, in src/schema/verfploeter.rs: the struct with
-- its accessors, and its part of `protobuf::Message`. `cached_size` is left out: it holds what
-- `compute_size` returned last, and `write_to_bytes` calls that first.
pub mod RoundTrip
pub mod Termination
use verfploeter.Prelude.{
  ℕ, not, List, [], ◌++◌, Default, length, ◌==◌, if◌then◌else◌, add32, Bool, true, ◌&&◌, String,
  ◌∷◌,
}
use verfploeter.Schema.Wire.{
  Protobuf, ProtobufResult, expect_wire_type, ok, wire_type_varint, ◌>>=◌, ◌>>◌,
}
use verfploeter.Schema.Wire.Loop.{merge_loop}

pub record TaskId (U : Type 0) : Type 0 where
  pub task_id : ℕ
  pub unknown_fields : U

module _ {U : Type 0} ⦃u : Default U⦄ where
  abbrev pub new : TaskId U
  new = record { task_id = 0; unknown_fields = u.default }

  abbrev pub clear_task_id : TaskId U → TaskId U
  clear_task_id m = record m { task_id = 0 }

  abbrev pub set_task_id : ℕ → TaskId U → TaskId U
  set_task_id v m = record m { task_id = v }

  abbrev pub get_task_id : TaskId U → ℕ
  get_task_id m = m.task_id

  unfoldable pub is_initialized : TaskId U → Bool
  is_initialized m = true

  abbrev pub clear : TaskId U → TaskId U
  clear m = record (clear_task_id m) { unknown_fields = u.default }

  abbrev pub default_instance : TaskId U
  default_instance = new

module _ {U : Type 0} ⦃u : Default U⦄ (w : Protobuf U) where
  unfoldable pub compute_size : TaskId U → ℕ
  compute_size m =
      let s1 : ℕ =
        if not (m.task_id == 0) then add32 0 (w.value_size 1 m.task_id wire_type_varint) else 0 in
      add32 s1 (w.unknown_fields_size m.unknown_fields)

  unfoldable pub write_to : TaskId U → List ℕ
  write_to m =
      (if not (m.task_id == 0) then w.write_uint32 1 m.task_id else [])
      ++ w.write_unknown_fields m.unknown_fields

  -- The field of the given number, from the stream behind its tag.
  read_field : TaskId U → ℕ → ℕ → List ℕ → ProtobufResult (TaskId U × List ℕ)
  read_field m field_number wire_type rest =
      if field_number == 1
      then (do
        expect_wire_type wire_type_varint wire_type
        (v, rest_of_stream) ← w.read_uint32 rest
        ok (record m { task_id = v }, rest_of_stream))
      else ((do
        (v, rest_of_stream) ←
            w.read_unknown_or_skip_group field_number wire_type rest m.unknown_fields
        ok (record m { unknown_fields = v }, rest_of_stream)))

  -- One round of the loop: a tag, and the field that it announces.
  unfoldable pub merge_field : TaskId U → List ℕ → ProtobufResult (TaskId U × List ℕ)
  unfolding read_field
  merge_field m is = do
    (field_number, wire_type, rest) ← w.read_tag_unpack is
    read_field m field_number wire_type rest

  unfoldable pub merge_from : TaskId U → List ℕ → ProtobufResult (TaskId U)
  unfolding merge_loop
  merge_from m is = merge_loop merge_field (length is) m is

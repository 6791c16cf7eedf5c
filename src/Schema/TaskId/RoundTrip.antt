-- ===== src/Schema/TaskId/RoundTrip.antt =====
-- The size of a task id, and reading back what it writes.
use verfploeter.Prelude.{
  ℕ, ◌<◌, ◌^◌, ◌≡◌, sym, ap, not, Default, length, length-append, arith, IsU32, ◌==◌,
}
use verfploeter.Schema.Wire.{Protobuf, IsProtobuf, ok, wire_type_varint}
use verfploeter.Schema.Wire.Loop.{Reads-nil}
use verfploeter.Schema.Wire.Sizes.{Counts, Counts-if, Counts-unknown}
use verfploeter.Schema.Wire.Fields.{Merges, Merges-uint32}
use verfploeter.Schema.Wire.Nested.{Codec}
use verfploeter.Schema.TaskId.{TaskId, new, compute_size, write_to, merge_field, merge_from}

-- The values fit their fields, and there are no unknown fields.
pub record IsTaskId {U : Type 0} ⦃u : Default U⦄ (m : TaskId U) : Type 0 where
  pub task_id : IsU32 m.task_id
  pub unknown_fields : m.unknown_fields ≡ u.default

module _ {U : Type 0} ⦃u : Default U⦄ (w : Protobuf U) (h : IsProtobuf w) where
  -- `compute_size` is the number of bytes that are written, in 32 bits.
  pub TaskId-compute_size : (m : TaskId U) → Counts (compute_size w m) (length (write_to w m))
  unfolding compute_size write_to
  TaskId-compute_size m =
      let s1 =
        Counts-if (not (m.task_id == 0)) 0 0 (w.value_size 1 m.task_id wire_type_varint)
          (w.write_uint32 1 m.task_id) (omega arith) (h.value_size_uint32 1 m.task_id) in
      let all = Counts-unknown w h m.unknown_fields _ _ s1 in rw length-append (omega arith)

  at : ℕ → TaskId U
  at task_id = record { task_id = task_id; unknown_fields = u.default }

  write_to-Merges :
      (task_id : ℕ)
      → IsU32 task_id
      → Merges w h (merge_field w) new (write_to w (at task_id)) (at task_id)
  unfolding at write_to merge_field
  write_to-Merges task_id task_id_fits = rw h.no_unknown_fields (
      Merges-uint32 w h (merge_field w) 1 task_id (λ v. at v) _ _ (omega arith) (omega arith)
        (λ is. rw (h.read_tag 1 wire_type_varint is (omega arith) (omega arith) (omega arith)))
        task_id_fits (λ bound. Reads-nil (merge_field w) _))

  at-eq : (m : TaskId U) → m.unknown_fields ≡ u.default → at m.task_id ≡ m
  unfolding at
  at-eq m e = ap (λ fields. record m { unknown_fields = fields }) (sym e)

  -- A task id whose values fit their fields, without unknown fields, reads back from the bytes that
  -- it writes, if these are fewer than 2^32.
  pub TaskId-merge_from :
      (m : TaskId U)
      → IsTaskId m
      → length (write_to w m) < 2 ^ 32
      → merge_from w new (write_to w m) ≡ ok m
  unfolding merge_from
  TaskId-merge_from m fits =
      rw (← at-eq m fits.unknown_fields)
        (λ bound. write_to-Merges m.task_id fits.task_id bound _ (omega arith))

  pub TaskId-Codec : Codec IsTaskId new (compute_size w) (write_to w) (merge_from w)
  TaskId-Codec = record { size = TaskId-compute_size; round = TaskId-merge_from }

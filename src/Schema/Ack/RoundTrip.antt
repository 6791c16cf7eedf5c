-- ===== src/Schema/Ack/RoundTrip.antt =====
-- The size of an acknowledgement, and reading back what it writes.
use text.Mathlib.Text.{◌==◌ as str_eq}
use verfploeter.Prelude.{
  ℕ, ◌<◌, ◌^◌, ◌≡◌, sym, ap, Bool, false, not, String, Default, length, length-append, arith, IsU32,
  ◌==◌,
}
use verfploeter.Schema.Wire.{Protobuf, IsProtobuf, ok, wire_type_varint, wire_type_length_delimited}
use verfploeter.Schema.Wire.Loop.{Reads-nil}
use verfploeter.Schema.Wire.Sizes.{Counts, Counts-if, Counts-bool, Counts-unknown}
use verfploeter.Schema.Wire.Fields.{Merges, Merges-uint32, Merges-bool, Merges-string}
use verfploeter.Schema.Wire.Nested.{Codec}
use verfploeter.Schema.Ack.{Ack, new, compute_size, write_to, merge_field, merge_from}

-- The values fit their fields, and there are no unknown fields.
pub record IsAck {U : Type 0} ⦃u : Default U⦄ (m : Ack U) : Type 0 where
  pub task_id : IsU32 m.task_id
  pub unknown_fields : m.unknown_fields ≡ u.default

module _ {U : Type 0} ⦃u : Default U⦄ (w : Protobuf U) (h : IsProtobuf w) where
  -- `compute_size` is the number of bytes that are written, in 32 bits.
  pub Ack-compute_size : (m : Ack U) → Counts (compute_size w m) (length (write_to w m))
  unfolding compute_size write_to
  Ack-compute_size m =
      let s1 =
        Counts-if (not (m.task_id == 0)) 0 0 (w.value_size 1 m.task_id wire_type_varint)
          (w.write_uint32 1 m.task_id) (omega arith) (h.value_size_uint32 1 m.task_id) in
      let s2 = Counts-bool w h 2 m.success _ _ (omega arith) (omega arith) s1 in
      let s3 =
        Counts-if (not (str_eq m.error_message "")) _ _ (w.string_size 3 m.error_message)
          (w.write_string 3 m.error_message) s2 (h.string_size_lem 3 m.error_message) in
      let all = Counts-unknown w h m.unknown_fields _ _ s3 in
      rw (length-append, length-append, length-append) (omega arith)

  at : ℕ → Bool → String → Ack U
  at task_id success error_message = record {
    task_id = task_id;
    success = success;
    error_message = error_message;
    unknown_fields = u.default;
  }

  write_to-Merges :
      (task_id : ℕ) (success : Bool) (error_message : String)
      → IsU32 task_id
      → Merges w h
          (merge_field w)
          new
          (write_to w (at task_id success error_message))
          (at task_id success error_message)
  unfolding at write_to merge_field
  write_to-Merges task_id success error_message task_id_fits = rw h.no_unknown_fields (
      Merges-uint32 w h (merge_field w) 1 task_id (λ v. at v false "") _ _ (omega arith)
        (omega arith)
        (λ is. rw (h.read_tag 1 wire_type_varint is (omega arith) (omega arith) (omega arith)))
        task_id_fits
        (Merges-bool w h (merge_field w) 2 success (λ v. at task_id v "") _ _ (omega arith)
          (omega arith)
          (λ is. rw (h.read_tag 2 wire_type_varint is (omega arith) (omega arith) (omega arith)))
          (Merges-string w h (merge_field w) 3 error_message (λ v. at task_id success v) _ _
            (omega arith) (omega arith)
            (λ is. rw (
              h.read_tag 3 wire_type_length_delimited is (omega arith) (omega arith) (omega arith)))
            (λ bound. Reads-nil (merge_field w) _))))

  at-eq : (m : Ack U) → m.unknown_fields ≡ u.default → at m.task_id m.success m.error_message ≡ m
  unfolding at
  at-eq m e = ap (λ fields. record m { unknown_fields = fields }) (sym e)

  -- An acknowledgement whose values fit their fields, without unknown fields, reads back from the
  -- bytes that it writes, if these are fewer than 2^32.
  pub Ack-merge_from :
      (m : Ack U)
      → IsAck m
      → length (write_to w m) < 2 ^ 32
      → merge_from w new (write_to w m) ≡ ok m
  unfolding merge_from
  Ack-merge_from m fits = rw (← at-eq m fits.unknown_fields) (λ bound.
      write_to-Merges m.task_id m.success m.error_message fits.task_id bound _ (omega arith))

  pub Ack-Codec : Codec IsAck new (compute_size w) (write_to w) (merge_from w)
  Ack-Codec = record { size = Ack-compute_size; round = Ack-merge_from }

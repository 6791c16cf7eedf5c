-- ===== src/Schema/TaskResult/RoundTrip.antt =====
-- The size of a task result, and reading back what it writes.
use verfploeter.Prelude.{
  ℕ, ◌<◌, ◌^◌, ◌≡◌, refl, sym, ap, Bool, false, not, List, [], Option, none, Default, length,
  length-append, arith, IsU32, ◌==◌, All,
}
use verfploeter.Schema.Wire.{Protobuf, IsProtobuf, ok, wire_type_varint, wire_type_length_delimited}
use verfploeter.Schema.Wire.Loop.{Reads-nil}
use verfploeter.Schema.Wire.Sizes.{
  Counts, Counts-if, Counts-bool, Counts-field, Counts-repeated, Counts-unknown,
}
use verfploeter.Schema.Wire.Fields.{Merges, Merges-uint32, Merges-bool}
use verfploeter.Schema.Wire.Nested.{Codec, OfSome, Merges-singular, Merges-repeated}
use verfploeter.Schema.Client
use verfploeter.Schema.Client.{Client}
use verfploeter.Schema.Client.RoundTrip.{IsClient, Client-compute_size, Client-Codec}
use verfploeter.Schema.Result
use verfploeter.Schema.Result.{Result}
use verfploeter.Schema.Result.RoundTrip.{IsResult, Result-compute_size, Result-Codec}
use verfploeter.Schema.TaskResult.{
  TaskResult, new, compute_size, write_to, merge_field, merge_from, result_list_size,
  write_result_list,
}

-- The values fit their fields, and there are no unknown fields.
pub record IsTaskResult {U : Type 0} ⦃u : Default U⦄ (m : TaskResult U) : Type 0 where
  pub task_id : IsU32 m.task_id
  pub client : OfSome IsClient m.client
  pub result_list : All IsResult m.result_list
  pub unknown_fields : m.unknown_fields ≡ u.default

module _ {U : Type 0} ⦃u : Default U⦄ (w : Protobuf U) (h : IsProtobuf w) where
  -- `compute_size` is the number of bytes that are written, in 32 bits.
  pub TaskResult-compute_size :
      (m : TaskResult U) → Counts (compute_size w m) (length (write_to w m))
  unfolding compute_size write_to
  TaskResult-compute_size m =
      let s1 =
        Counts-if (not (m.task_id == 0)) 0 0 (w.value_size 1 m.task_id wire_type_varint)
          (w.write_uint32 1 m.task_id) (omega arith) (h.value_size_uint32 1 m.task_id) in
      let s2 =
        Counts-field w h (Client.compute_size w) (Client.write_to w) (Client-compute_size w h) 2
          m.client _ _ (omega arith) (omega arith) s1 in
      let s3 =
        Counts-repeated w h (Result.compute_size w) (Result.write_to w) (Result-compute_size w h) 3
          (result_list_size w) (write_result_list w) (omega arith) (omega arith)
          (λ size. unfold result_list_size in refl) (λ size a more. unfold result_list_size in refl)
          (unfold write_result_list in refl) (λ a more. unfold write_result_list in refl)
          m.result_list _ _ s2 in
      let s4 = Counts-bool w h 4 m.is_finished _ _ (omega arith) (omega arith) s3 in
      let all = Counts-unknown w h m.unknown_fields _ _ s4 in
      rw (length-append, length-append, length-append, length-append) (omega arith)

  at : ℕ → Option (Client U) → List (Result U) → Bool → TaskResult U
  at task_id client result_list is_finished = record {
    task_id = task_id;
    client = client;
    result_list = result_list;
    is_finished = is_finished;
    unknown_fields = u.default;
  }

  write_to-Merges :
      (task_id : ℕ) (client : Option (Client U)) (result_list : List (Result U))
      (is_finished : Bool)
      → IsU32 task_id
      → OfSome IsClient client
      → All IsResult result_list
      → Merges w h
          (merge_field w)
          new
          (write_to w (at task_id client result_list is_finished))
          (at task_id client result_list is_finished)
  unfolding at write_to merge_field
  write_to-Merges task_id client result_list is_finished task_id_fits client_fits result_list_fits =
      rw h.no_unknown_fields (
        Merges-uint32 w h (merge_field w) 1 task_id (λ v. at v none [] false) _ _ (omega arith)
          (omega arith)
          (λ is. rw (h.read_tag 1 wire_type_varint is (omega arith) (omega arith) (omega arith)))
          task_id_fits
          (Merges-singular w h (merge_field w) (Client-Codec w h) 2 client
            (λ v. at task_id v [] false) _ _ (omega arith) (omega arith)
            (λ is. rw (
              h.read_tag 2 wire_type_length_delimited is (omega arith) (omega arith) (omega arith)))
            client_fits
            (Merges-repeated w h (merge_field w) (Result-Codec w h) 3 (write_result_list w)
              (λ v. at task_id client v false) _ _ (omega arith) (omega arith)
              (unfold write_result_list in refl) (λ a more. unfold write_result_list in refl)
              (λ done. λ is. rw (
                h.read_tag 3 wire_type_length_delimited is (omega arith) (omega arith)
                  (omega arith)))
              [] result_list result_list_fits
              (Merges-bool w h (merge_field w) 4 is_finished (λ v. at task_id client result_list v)
                _ _ (omega arith) (omega arith)
                (λ is.
                  rw (h.read_tag 4 wire_type_varint is (omega arith) (omega arith) (omega arith)))
                (λ bound. Reads-nil (merge_field w) _)))))

  at-eq :
      (m : TaskResult U)
      → m.unknown_fields ≡ u.default
      → at m.task_id m.client m.result_list m.is_finished ≡ m
  unfolding at
  at-eq m e = ap (λ fields. record m { unknown_fields = fields }) (sym e)

  -- A task result whose values fit their fields, without unknown fields, reads back from the bytes
  -- that it writes, if these are fewer than 2^32.
  pub TaskResult-merge_from :
      (m : TaskResult U)
      → IsTaskResult m
      → length (write_to w m) < 2 ^ 32
      → merge_from w new (write_to w m) ≡ ok m
  unfolding merge_from
  TaskResult-merge_from m fits = rw (← at-eq m fits.unknown_fields) (λ bound.
      write_to-Merges m.task_id m.client m.result_list m.is_finished fits.task_id fits.client
        fits.result_list bound _ (omega arith))

  pub TaskResult-Codec : Codec IsTaskResult new (compute_size w) (write_to w) (merge_from w)
  TaskResult-Codec = record { size = TaskResult-compute_size; round = TaskResult-merge_from }

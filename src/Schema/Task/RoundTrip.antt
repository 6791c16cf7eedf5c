-- ===== src/Schema/Task/RoundTrip.antt =====
-- The size of a task, and reading back what it writes.
use verfploeter.Prelude.{
  ℕ, ◌+◌, ◌<◌, ◌^◌, ◌≡◌, sym, ap, not, [], ◌++◌, Option, none, some, Default, length, length-append,
  arith, IsU32, ◌==◌,
}
use verfploeter.Schema.Wire.{
  Protobuf, IsProtobuf, ok, add_nested_size, wire_type_varint, wire_type_length_delimited,
}
use verfploeter.Schema.Wire.Loop.{Reads-nil}
use verfploeter.Schema.Wire.Sizes.{Counts, Counts-if, Counts-nested, Counts-unknown}
use verfploeter.Schema.Wire.Fields.{Merges, Merges-uint32}
use verfploeter.Schema.Wire.Nested.{Codec, Merges-message}
use verfploeter.Schema.Ping
use verfploeter.Schema.Ping.{Ping}
use verfploeter.Schema.Ping.RoundTrip.{IsPing, Ping-compute_size, Ping-Codec}
use verfploeter.Schema.Empty
use verfploeter.Schema.Empty.{Empty}
use verfploeter.Schema.Empty.RoundTrip.{IsEmpty, Empty-compute_size, Empty-Codec}
use verfploeter.Schema.Task.{
  Task, new, compute_size, write_to, merge_field, merge_from, TaskData, ping, empty,
}

abbrev pub IsTaskData : {U : Type 0} ⦃u : Default U⦄ → Option (TaskData U) → Type 0
IsTaskData none = Unit {0}
IsTaskData (some (ping v)) = IsPing v
IsTaskData (some (empty v)) = IsEmpty v

-- The values fit their fields, and there are no unknown fields.
pub record IsTask {U : Type 0} ⦃u : Default U⦄ (m : Task U) : Type 0 where
  pub task_id : IsU32 m.task_id
  pub kind : IsTaskData m.kind
  pub unknown_fields : m.unknown_fields ≡ u.default

module _ {U : Type 0} ⦃u : Default U⦄ (w : Protobuf U) (h : IsProtobuf w) where
  kind-Counts :
      (kind : Option (TaskData U)) (size bytes : ℕ)
      → Counts size bytes
      → Counts
          (elim kind [
            | some (ping v) ↦
                add_nested_size size
                  (w.compute_raw_varint32_size (Ping.compute_size w v))
                  (Ping.compute_size w v)
            | some (empty v) ↦
                add_nested_size size
                  (w.compute_raw_varint32_size (Empty.compute_size w v))
                  (Empty.compute_size w v)
            | none ↦ size
          ])
          (bytes
            + length (elim kind [
              | some (ping v) ↦
                  w.write_tag 2 wire_type_length_delimited
                  ++ (w.write_raw_varint32 (Ping.compute_size w v) ++ Ping.write_to w v)
              | some (empty v) ↦
                  w.write_tag 3 wire_type_length_delimited
                  ++ (w.write_raw_varint32 (Empty.compute_size w v) ++ Empty.write_to w v)
              | none ↦ []
            ]))
  kind-Counts none size bytes e = omega arith
  kind-Counts (some (ping v)) size bytes e =
      Counts-nested w h 2 size bytes (Ping.compute_size w v) (Ping.write_to w v) (omega arith)
        (omega arith) e (Ping-compute_size w h v)
  kind-Counts (some (empty v)) size bytes e =
      Counts-nested w h 3 size bytes (Empty.compute_size w v) (Empty.write_to w v) (omega arith)
        (omega arith) e (Empty-compute_size w h v)

  -- `compute_size` is the number of bytes that are written, in 32 bits.
  pub Task-compute_size : (m : Task U) → Counts (compute_size w m) (length (write_to w m))
  unfolding compute_size write_to
  Task-compute_size m =
      let s1 =
        Counts-if (not (m.task_id == 0)) 0 0 (w.value_size 1 m.task_id wire_type_varint)
          (w.write_uint32 1 m.task_id) (omega arith) (h.value_size_uint32 1 m.task_id) in
      let s2 = kind-Counts m.kind _ _ s1 in
      let all = Counts-unknown w h m.unknown_fields _ _ s2 in
      rw (length-append, length-append) (omega arith)

  at : ℕ → Option (TaskData U) → Task U
  at task_id kind = record { task_id = task_id; kind = kind; unknown_fields = u.default }

  kind-Merges :
      (task_id : ℕ) (kind : Option (TaskData U))
      → IsTaskData kind
      → Merges w h
          (merge_field w)
          (at task_id none)
          ((elim kind [
            | some (ping v) ↦
                w.write_tag 2 wire_type_length_delimited
                ++ (w.write_raw_varint32 (Ping.compute_size w v) ++ Ping.write_to w v)
            | some (empty v) ↦
                w.write_tag 3 wire_type_length_delimited
                ++ (w.write_raw_varint32 (Empty.compute_size w v) ++ Empty.write_to w v)
            | none ↦ []
          ])
            ++ [])
          (at task_id kind)
  unfolding at merge_field
  kind-Merges task_id none fits = λ bound. Reads-nil (merge_field w) _
  kind-Merges task_id (some (ping v)) fits =
      Merges-message w h (merge_field w) (Ping-Codec w h) 2 v _ _ (λ v. at task_id (some (ping v)))
        [] (omega arith) (omega arith)
        (λ is.
          rw (h.read_tag 2 wire_type_length_delimited is (omega arith) (omega arith) (omega arith)))
        fits (λ bound. Reads-nil (merge_field w) _)
  kind-Merges task_id (some (empty v)) fits =
      Merges-message w h (merge_field w) (Empty-Codec w h) 3 v _ _
        (λ v. at task_id (some (empty v))) [] (omega arith) (omega arith)
        (λ is.
          rw (h.read_tag 3 wire_type_length_delimited is (omega arith) (omega arith) (omega arith)))
        fits (λ bound. Reads-nil (merge_field w) _)

  write_to-Merges :
      (task_id : ℕ) (kind : Option (TaskData U))
      → IsU32 task_id
      → IsTaskData kind
      → Merges w h (merge_field w) new (write_to w (at task_id kind)) (at task_id kind)
  unfolding at write_to merge_field
  write_to-Merges task_id kind task_id_fits kind_fits = rw h.no_unknown_fields (
      Merges-uint32 w h (merge_field w) 1 task_id (λ v. at v none) _ _ (omega arith) (omega arith)
        (λ is. rw (h.read_tag 1 wire_type_varint is (omega arith) (omega arith) (omega arith)))
        task_id_fits (kind-Merges task_id kind kind_fits))

  at-eq : (m : Task U) → m.unknown_fields ≡ u.default → at m.task_id m.kind ≡ m
  unfolding at
  at-eq m e = ap (λ fields. record m { unknown_fields = fields }) (sym e)

  -- A task whose values fit their fields, without unknown fields, reads back from the bytes that it
  -- writes, if these are fewer than 2^32.
  pub Task-merge_from :
      (m : Task U)
      → IsTask m
      → length (write_to w m) < 2 ^ 32
      → merge_from w new (write_to w m) ≡ ok m
  unfolding merge_from
  Task-merge_from m fits =
      rw (← at-eq m fits.unknown_fields)
        (λ bound. write_to-Merges m.task_id m.kind fits.task_id fits.kind bound _ (omega arith))

  pub Task-Codec : Codec IsTask new (compute_size w) (write_to w) (merge_from w)
  Task-Codec = record { size = Task-compute_size; round = Task-merge_from }

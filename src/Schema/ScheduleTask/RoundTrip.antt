-- ===== src/Schema/ScheduleTask/RoundTrip.antt =====
-- The size of a request for a task, and reading back what it writes.
use verfploeter.Prelude.{
  ℕ, ◌+◌, ◌<◌, ◌^◌, ◌≡◌, sym, ap, [], ◌++◌, Option, none, some, Default, length, length-append,
  arith,
}
use verfploeter.Schema.Wire.{Protobuf, IsProtobuf, ok, add_nested_size, wire_type_length_delimited}
use verfploeter.Schema.Wire.Loop.{Reads-nil}
use verfploeter.Schema.Wire.Sizes.{Counts, Counts-nested, Counts-field, Counts-unknown}
use verfploeter.Schema.Wire.Fields.{Merges}
use verfploeter.Schema.Wire.Nested.{Codec, OfSome, Merges-singular, Merges-message}
use verfploeter.Schema.Client
use verfploeter.Schema.Client.{Client}
use verfploeter.Schema.Client.RoundTrip.{IsClient, Client-compute_size, Client-Codec}
use verfploeter.Schema.Ping
use verfploeter.Schema.Ping.{Ping}
use verfploeter.Schema.Ping.RoundTrip.{IsPing, Ping-compute_size, Ping-Codec}
use verfploeter.Schema.ScheduleTask.{
  ScheduleTask, new, compute_size, write_to, merge_field, merge_from, ScheduleTaskData, ping,
}

abbrev pub IsScheduleTaskData : {U : Type 0} ⦃u : Default U⦄ → Option (ScheduleTaskData U) → Type 0
IsScheduleTaskData none = Unit {0}
IsScheduleTaskData (some (ping v)) = IsPing v

-- The values fit their fields, and there are no unknown fields.
pub record IsScheduleTask {U : Type 0} ⦃u : Default U⦄ (m : ScheduleTask U) : Type 0 where
  pub client : OfSome IsClient m.client
  pub kind : IsScheduleTaskData m.kind
  pub unknown_fields : m.unknown_fields ≡ u.default

module _ {U : Type 0} ⦃u : Default U⦄ (w : Protobuf U) (h : IsProtobuf w) where
  kind-Counts :
      (kind : Option (ScheduleTaskData U)) (size bytes : ℕ)
      → Counts size bytes
      → Counts
          (elim kind [
            | some (ping v) ↦
                add_nested_size size
                  (w.compute_raw_varint32_size (Ping.compute_size w v))
                  (Ping.compute_size w v)
            | none ↦ size
          ])
          (bytes
            + length (elim kind [
              | some (ping v) ↦
                  w.write_tag 2 wire_type_length_delimited
                  ++ (w.write_raw_varint32 (Ping.compute_size w v) ++ Ping.write_to w v)
              | none ↦ []
            ]))
  kind-Counts none size bytes e = omega arith
  kind-Counts (some (ping v)) size bytes e =
      Counts-nested w h 2 size bytes (Ping.compute_size w v) (Ping.write_to w v) (omega arith)
        (omega arith) e (Ping-compute_size w h v)

  -- `compute_size` is the number of bytes that are written, in 32 bits.
  pub ScheduleTask-compute_size :
      (m : ScheduleTask U) → Counts (compute_size w m) (length (write_to w m))
  unfolding compute_size write_to
  ScheduleTask-compute_size m =
      let s1 =
        Counts-field w h (Client.compute_size w) (Client.write_to w) (Client-compute_size w h) 1
          m.client 0 0 (omega arith) (omega arith) (omega arith) in
      let s2 = kind-Counts m.kind _ _ s1 in
      let all = Counts-unknown w h m.unknown_fields _ _ s2 in
      rw (length-append, length-append) (omega arith)

  at : Option (Client U) → Option (ScheduleTaskData U) → ScheduleTask U
  at client kind = record { client = client; kind = kind; unknown_fields = u.default }

  kind-Merges :
      (client : Option (Client U)) (kind : Option (ScheduleTaskData U))
      → IsScheduleTaskData kind
      → Merges w h
          (merge_field w)
          (at client none)
          ((elim kind [
            | some (ping v) ↦
                w.write_tag 2 wire_type_length_delimited
                ++ (w.write_raw_varint32 (Ping.compute_size w v) ++ Ping.write_to w v)
            | none ↦ []
          ])
            ++ [])
          (at client kind)
  unfolding at merge_field
  kind-Merges client none fits = λ bound. Reads-nil (merge_field w) _
  kind-Merges client (some (ping v)) fits =
      Merges-message w h (merge_field w) (Ping-Codec w h) 2 v _ _ (λ v. at client (some (ping v)))
        [] (omega arith) (omega arith)
        (λ is.
          rw (h.read_tag 2 wire_type_length_delimited is (omega arith) (omega arith) (omega arith)))
        fits (λ bound. Reads-nil (merge_field w) _)

  write_to-Merges :
      (client : Option (Client U)) (kind : Option (ScheduleTaskData U))
      → OfSome IsClient client
      → IsScheduleTaskData kind
      → Merges w h (merge_field w) new (write_to w (at client kind)) (at client kind)
  unfolding at write_to merge_field
  write_to-Merges client kind client_fits kind_fits = rw h.no_unknown_fields (
      Merges-singular w h (merge_field w) (Client-Codec w h) 1 client (λ v. at v none) _ _
        (omega arith) (omega arith)
        (λ is.
          rw (h.read_tag 1 wire_type_length_delimited is (omega arith) (omega arith) (omega arith)))
        client_fits (kind-Merges client kind kind_fits))

  at-eq : (m : ScheduleTask U) → m.unknown_fields ≡ u.default → at m.client m.kind ≡ m
  unfolding at
  at-eq m e = ap (λ fields. record m { unknown_fields = fields }) (sym e)

  -- A request for a task whose values fit their fields, without unknown fields, reads back from the
  -- bytes that it writes, if these are fewer than 2^32.
  pub ScheduleTask-merge_from :
      (m : ScheduleTask U)
      → IsScheduleTask m
      → length (write_to w m) < 2 ^ 32
      → merge_from w new (write_to w m) ≡ ok m
  unfolding merge_from
  ScheduleTask-merge_from m fits =
      rw (← at-eq m fits.unknown_fields)
        (λ bound. write_to-Merges m.client m.kind fits.client fits.kind bound _ (omega arith))

  pub ScheduleTask-Codec : Codec IsScheduleTask new (compute_size w) (write_to w) (merge_from w)
  ScheduleTask-Codec = record { size = ScheduleTask-compute_size; round = ScheduleTask-merge_from }

-- ===== src/Schema/PingPayload/RoundTrip.antt =====
-- Writing a ping payload and merging it into the default value.
use verfploeter.Prelude.{
  ℕ, ◌<◌, ◌≡◌, not, List, [], ◌++◌, Option, none, some, Default, length, length-append,
  append_assoc, arith, IsU32, IsU64, ◌==◌,
}
use verfploeter.Schema.Wire.{Protobuf, IsProtobuf, ok, wire_type_varint, wire_type_length_delimited}
use verfploeter.Schema.Wire.Loop.{Reads, Reads-nil, Reads-chunk, Reads-if}
use verfploeter.Schema.Wire.Chunks.{length-write_uint32, length-write_uint64}
use verfploeter.Schema.Address
use verfploeter.Schema.Address.{Address}
use verfploeter.Schema.Address.RoundTrip.{
  IsAddress, merge_from-write_to as address_round_trip, compute_size-write_to as address_size,
}
use verfploeter.Schema.PingPayload.{PingPayload, new, write_to, merge_field, merge_from}

abbrev pub IsOptionalAddress : {U : Type 0} ⦃u : Default U⦄ → Option (Address U) → Type 0
IsOptionalAddress none = Unit {0}
IsOptionalAddress (some a) = IsAddress a

-- The values fit their fields, and there are no unknown fields.
pub record IsPingPayload {U : Type 0} ⦃u : Default U⦄ (m : PingPayload U) : Type 0 where
  pub task_id : IsU32 m.task_id
  pub transmit_time : IsU64 m.transmit_time
  pub source_address : IsOptionalAddress m.source_address
  pub destination_address : IsOptionalAddress m.destination_address
  pub unknown_fields : m.unknown_fields ≡ u.default

module _ {U : Type 0} ⦃u : Default U⦄ (w : Protobuf U) (h : IsProtobuf w) where
  at : ℕ → ℕ → Option (Address U) → Option (Address U) → PingPayload U
  at task_id transmit_time source_address destination_address = record {
    task_id = task_id;
    transmit_time = transmit_time;
    source_address = source_address;
    destination_address = destination_address;
    unknown_fields = u.default;
  }

  -- What a nested address takes up in the stream.
  abbrev nested : ℕ → Address U → List ℕ
  nested f a =
      w.write_tag f wire_type_length_delimited
      ++ (w.write_raw_varint32 (Address.compute_size w a) ++ Address.write_to w a)

  abbrev optional : ℕ → Option (Address U) → List ℕ
  optional f o = elim o [ some v ↦ nested f v | none ↦ [] ]

  nested_round :
      (a : Address U) (rest : List ℕ)
      → IsAddress a
      → w.read_singular_message_into
          (Address.merge_from w)
          Address.new
          wire_type_length_delimited
          (w.write_raw_varint32 (Address.compute_size w a) ++ (Address.write_to w a ++ rest))
        ≡ ok (a, rest)
  nested_round a rest r = rw (address_size w h a r).0 (
      h.read_singular_message (Address.merge_from w) Address.new a (Address.write_to w a) rest
        (address_size w h a r).1 (address_round_trip w h a r))

  length-nested : (f : ℕ) (a : Address U) → 0 < f → f < 16 → 0 < length (nested f a)
  length-nested f a pos small =
      rw length-append
        (omega (arith, h.length-write_tag f wire_type_length_delimited pos small (omega arith)))

  task_id_round :
      (v : ℕ) (rest : List ℕ)
      → IsU32 v
      → merge_field w new (w.write_uint32 1 v ++ rest) ≡ ok (at v 0 none none, rest)
  unfolding merge_field at
  task_id_round v rest r = rw (
    h.write_uint32_lem 1 v,
    append_assoc,
    h.read_tag 1 wire_type_varint _ (omega arith) (omega arith) (omega arith),
    h.read_uint32_lem v rest r,
  )

  transmit_time_round :
      (t v : ℕ) (rest : List ℕ)
      → IsU64 v
      → merge_field w (at t 0 none none) (w.write_uint64 2 v ++ rest) ≡ ok (at t v none none, rest)
  unfolding merge_field at
  transmit_time_round t v rest r = rw (
    h.write_uint64_lem 2 v,
    append_assoc,
    h.read_tag 2 wire_type_varint _ (omega arith) (omega arith) (omega arith),
    h.read_uint64_lem v rest r,
  )

  source_address_round :
      (t x : ℕ) (a : Address U) (rest : List ℕ)
      → IsAddress a
      → merge_field w (at t x none none) (nested 3 a ++ rest) ≡ ok (at t x (some a) none, rest)
  unfolding merge_field at
  source_address_round t x a rest r = rw (
    append_assoc,
    h.read_tag 3 wire_type_length_delimited _ (omega arith) (omega arith) (omega arith),
    append_assoc,
    nested_round a rest r,
  )

  destination_address_round :
      (t x : ℕ) (s : Option (Address U)) (a : Address U) (rest : List ℕ)
      → IsAddress a
      → merge_field w (at t x s none) (nested 4 a ++ rest) ≡ ok (at t x s (some a), rest)
  unfolding merge_field at
  destination_address_round t x s a rest r = rw (
    append_assoc,
    h.read_tag 4 wire_type_length_delimited _ (omega arith) (omega arith) (omega arith),
    append_assoc,
    nested_round a rest r,
  )

  source_address-Reads :
      (t x : ℕ) (o : Option (Address U)) (r : PingPayload U) (rest : List ℕ)
      → IsOptionalAddress o
      → Reads (merge_field w) (at t x o none) rest r
      → Reads (merge_field w) (at t x none none) (optional 3 o ++ rest) r
  source_address-Reads t x none r rest v next = next
  source_address-Reads t x (some a) r rest v next =
      Reads-chunk (merge_field w) _ (at t x (some a) none) r (nested 3 a) rest
        (length-nested 3 a (omega arith) (omega arith)) (source_address_round t x a rest v) next

  destination_address-Reads :
      (t x : ℕ) (s o : Option (Address U)) (r : PingPayload U) (rest : List ℕ)
      → IsOptionalAddress o
      → Reads (merge_field w) (at t x s o) rest r
      → Reads (merge_field w) (at t x s none) (optional 4 o ++ rest) r
  destination_address-Reads t x s none r rest v next = next
  destination_address-Reads t x s (some a) r rest v next =
      Reads-chunk (merge_field w) _ (at t x s (some a)) r (nested 4 a) rest
        (length-nested 4 a (omega arith) (omega arith)) (destination_address_round t x s a rest v)
        next

  write_to-Reads :
      (t x : ℕ) (s d : Option (Address U))
      → IsU32 t
      → IsU64 x
      → IsOptionalAddress s
      → IsOptionalAddress d
      → Reads (merge_field w) new (write_to w (at t x s d)) (at t x s d)
  unfolding at write_to
  write_to-Reads t x s d ht hx hs hd = rw h.no_unknown_fields (
      Reads-if (merge_field w) (not (t == 0)) new (at t 0 none none) _ (w.write_uint32 1 t) _
        (length-write_uint32 w h 1 t (omega arith) (omega arith) ht).0 (λ e. ground arith)
        (task_id_round t _ ht)
        (Reads-if (merge_field w) (not (x == 0)) _ (at t x none none) _ (w.write_uint64 2 x) _
          (length-write_uint64 w h 2 x (omega arith) (omega arith) hx).0 (λ e. ground arith)
          (transmit_time_round t x _ hx)
          (source_address-Reads t x s _ _ hs
            (destination_address-Reads t x s d _ [] hd (Reads-nil (merge_field w) _)))))

  at-eq :
      (m : PingPayload U)
      → m.unknown_fields ≡ u.default
      → at m.task_id m.transmit_time m.source_address m.destination_address ≡ m
  unfolding at
  at-eq m e = ground arith

  -- A payload in range, without unknown fields, reads back from the bytes that it writes.
  pub merge_from-write_to :
      (m : PingPayload U) → IsPingPayload m → merge_from w new (write_to w m) ≡ ok m
  unfolding merge_from
  merge_from-write_to m r = rw (← at-eq m r.unknown_fields) (
      write_to-Reads m.task_id m.transmit_time m.source_address m.destination_address r.task_id
        r.transmit_time r.source_address r.destination_address _ (omega arith))

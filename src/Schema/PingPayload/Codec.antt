-- ===== src/Schema/PingPayload/Codec.antt =====
-- The size of a ping payload, and what other messages take from it.
use verfploeter.Schema.PingPayload.RoundTrip.{IsPingPayload, merge_from-write_to}
use verfploeter.Prelude.{not, Default, length, length-append, arith, ◌==◌}
use verfploeter.Schema.Wire.{Protobuf, IsProtobuf, wire_type_varint}
use verfploeter.Schema.Wire.Sizes.{Counts, Counts-if, Counts-field, Counts-unknown}
use verfploeter.Schema.Wire.Nested.{Codec}
use verfploeter.Schema.Address
use verfploeter.Schema.Address.{Address}
use verfploeter.Schema.Address.Codec.{Address-compute_size}
use verfploeter.Schema.PingPayload.{PingPayload, new, compute_size, write_to, merge_from}

module _ {U : Type 0} ⦃u : Default U⦄ (w : Protobuf U) (h : IsProtobuf w) where
  -- `compute_size` is the number of bytes that are written, in 32 bits.
  pub PingPayload-compute_size :
      (m : PingPayload U) → Counts (compute_size w m) (length (write_to w m))
  unfolding compute_size write_to
  PingPayload-compute_size m =
      let s1 =
        Counts-if (not (m.task_id == 0)) 0 0 (w.value_size 1 m.task_id wire_type_varint)
          (w.write_uint32 1 m.task_id) (omega arith) (h.value_size_uint32 1 m.task_id) in
      let s2 =
        Counts-if (not (m.transmit_time == 0)) _ _ (w.value_size 2 m.transmit_time wire_type_varint)
          (w.write_uint64 2 m.transmit_time) s1 (h.value_size_uint64 2 m.transmit_time) in
      let s3 =
        Counts-field w h (Address.compute_size w) (Address.write_to w) (Address-compute_size w h) 3
          m.source_address _ _ (omega arith) (omega arith) s2 in
      let s4 =
        Counts-field w h (Address.compute_size w) (Address.write_to w) (Address-compute_size w h) 4
          m.destination_address _ _ (omega arith) (omega arith) s3 in
      let all = Counts-unknown w h m.unknown_fields _ _ s4 in
      rw (length-append, length-append, length-append, length-append) (omega arith)

  pub PingPayload-Codec : Codec IsPingPayload new (compute_size w) (write_to w) (merge_from w)
  PingPayload-Codec = record {
    size = PingPayload-compute_size;
    round = λ m fits bound. merge_from-write_to w h m fits;
  }

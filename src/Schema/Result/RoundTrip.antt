-- ===== src/Schema/Result/RoundTrip.antt =====
-- The size of a result, and reading back what it writes.
use verfploeter.Prelude.{
  ℕ, ◌+◌, ◌<◌, ◌^◌, ◌≡◌, sym, ap, [], ◌++◌, Option, none, some, Default, length, length-append,
  arith,
}
use verfploeter.Schema.Wire.{Protobuf, IsProtobuf, ok, add_nested_size, wire_type_length_delimited}
use verfploeter.Schema.Wire.Loop.{Reads-nil}
use verfploeter.Schema.Wire.Sizes.{Counts, Counts-nested, Counts-unknown}
use verfploeter.Schema.Wire.Fields.{Merges}
use verfploeter.Schema.Wire.Nested.{Codec, Merges-message}
use verfploeter.Schema.PingResult
use verfploeter.Schema.PingResult.{PingResult}
use verfploeter.Schema.PingResult.RoundTrip.{
  IsPingResult, PingResult-compute_size, PingResult-Codec,
}
use verfploeter.Schema.Result.{
  Result, new, compute_size, write_to, merge_field, merge_from, ResultValue, ping,
}

abbrev pub IsResultValue : {U : Type 0} ⦃u : Default U⦄ → Option (ResultValue U) → Type 0
IsResultValue none = Unit {0}
IsResultValue (some (ping v)) = IsPingResult v

-- The values fit their fields, and there are no unknown fields.
pub record IsResult {U : Type 0} ⦃u : Default U⦄ (m : Result U) : Type 0 where
  pub value : IsResultValue m.value
  pub unknown_fields : m.unknown_fields ≡ u.default

module _ {U : Type 0} ⦃u : Default U⦄ (w : Protobuf U) (h : IsProtobuf w) where
  value-Counts :
      (value : Option (ResultValue U)) (size bytes : ℕ)
      → Counts size bytes
      → Counts
          (elim value [
            | some (ping v) ↦
                add_nested_size size
                  (w.compute_raw_varint32_size (PingResult.compute_size w v))
                  (PingResult.compute_size w v)
            | none ↦ size
          ])
          (bytes
            + length (elim value [
              | some (ping v) ↦
                  w.write_tag 1 wire_type_length_delimited
                  ++ (w.write_raw_varint32 (PingResult.compute_size w v) ++ PingResult.write_to w v)
              | none ↦ []
            ]))
  value-Counts none size bytes e = omega arith
  value-Counts (some (ping v)) size bytes e =
      Counts-nested w h 1 size bytes (PingResult.compute_size w v) (PingResult.write_to w v)
        (omega arith) (omega arith) e (PingResult-compute_size w h v)

  -- `compute_size` is the number of bytes that are written, in 32 bits.
  pub Result-compute_size : (m : Result U) → Counts (compute_size w m) (length (write_to w m))
  unfolding compute_size write_to
  Result-compute_size m =
      let s1 = value-Counts m.value 0 0 (omega arith) in
      let all = Counts-unknown w h m.unknown_fields _ _ s1 in rw length-append (omega arith)

  at : Option (ResultValue U) → Result U
  at value = record { value = value; unknown_fields = u.default }

  value-Merges :
      (value : Option (ResultValue U))
      → IsResultValue value
      → Merges w h
          (merge_field w)
          (at none)
          ((elim value [
            | some (ping v) ↦
                w.write_tag 1 wire_type_length_delimited
                ++ (w.write_raw_varint32 (PingResult.compute_size w v) ++ PingResult.write_to w v)
            | none ↦ []
          ])
            ++ [])
          (at value)
  unfolding at merge_field
  value-Merges none fits = λ bound. Reads-nil (merge_field w) _
  value-Merges (some (ping v)) fits =
      Merges-message w h (merge_field w) (PingResult-Codec w h) 1 v _ _ (λ v. at (some (ping v))) []
        (omega arith) (omega arith)
        (λ is.
          rw (h.read_tag 1 wire_type_length_delimited is (omega arith) (omega arith) (omega arith)))
        fits (λ bound. Reads-nil (merge_field w) _)

  write_to-Merges :
      (value : Option (ResultValue U))
      → IsResultValue value
      → Merges w h (merge_field w) new (write_to w (at value)) (at value)
  unfolding at write_to merge_field
  write_to-Merges value value_fits = rw h.no_unknown_fields (value-Merges value value_fits)

  at-eq : (m : Result U) → m.unknown_fields ≡ u.default → at m.value ≡ m
  unfolding at
  at-eq m e = ap (λ fields. record m { unknown_fields = fields }) (sym e)

  -- A result whose values fit their fields, without unknown fields, reads back from the bytes that
  -- it writes, if these are fewer than 2^32.
  pub Result-merge_from :
      (m : Result U)
      → IsResult m
      → length (write_to w m) < 2 ^ 32
      → merge_from w new (write_to w m) ≡ ok m
  unfolding merge_from
  Result-merge_from m fits =
      rw (← at-eq m fits.unknown_fields)
        (λ bound. write_to-Merges m.value fits.value bound _ (omega arith))

  pub Result-Codec : Codec IsResult new (compute_size w) (write_to w) (merge_from w)
  Result-Codec = record { size = Result-compute_size; round = Result-merge_from }

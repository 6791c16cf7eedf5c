-- ===== src/Schema/PingResult/Termination.antt =====
-- The merge of a ping result ends: its loop has enough fuel.
use verfploeter.Prelude.{ℕ, ◌≢◌, List, some, Default, ◌==◌, length, arith}
use verfploeter.Schema.Wire.{Protobuf, out_of_fuel, Shrinks, IsReader}
use verfploeter.Schema.Wire.Loop.{Progress, merge_loop-ne-out_of_fuel}
use verfploeter.Schema.Wire.Progress.{Shrinks-map, Shrinks-if, Shrinks-expect, Progress-tag}
use verfploeter.Schema.Address
use verfploeter.Schema.Address.Termination.{merge_from-ne-out_of_fuel as Address-ne-out_of_fuel}
use verfploeter.Schema.PingPayload
use verfploeter.Schema.PingPayload.Termination.{
  merge_from-ne-out_of_fuel as PingPayload-ne-out_of_fuel,
}
use verfploeter.Schema.PingResult.{PingResult, read_field, merge_field, merge_from}

module _ {U : Type 0} ⦃u : Default U⦄ (w : Protobuf U) (reader : IsReader w) where
  read_field-Shrinks :
      (m : PingResult U) (f t : ℕ) (rest : List ℕ) → Shrinks rest (read_field w m f t rest)
  unfolding read_field
  read_field-Shrinks m f t rest =
      Shrinks-if (f == 1) rest _ _
        (Shrinks-map (λ v. record m { source_address = some v }) rest _
          (reader.message_shrinks (Address.merge_from w) Address.new t rest
            (λ body. Address-ne-out_of_fuel w reader Address.new body)))
        (Shrinks-if (f == 2) rest _ _
          (Shrinks-map (λ v. record m { destination_address = some v }) rest _
            (reader.message_shrinks (Address.merge_from w) Address.new t rest
              (λ body. Address-ne-out_of_fuel w reader Address.new body)))
          (Shrinks-if (f == 3) rest _ _
            (Shrinks-expect _ t rest _ (
              Shrinks-map (λ v. record m { receive_time = v }) rest _ (reader.uint64_shrinks rest)))
            (Shrinks-if (f == 4) rest _ _
              (Shrinks-map (λ v. record m { payload = some v }) rest _
                (reader.message_shrinks (PingPayload.merge_from w) PingPayload.new t rest
                  (λ body. PingPayload-ne-out_of_fuel w reader PingPayload.new body)))
              (Shrinks-if (f == 5) rest _ _
                (Shrinks-expect _ t rest _
                  (Shrinks-map (λ v. record m { ttl = v }) rest _ (reader.uint32_shrinks rest)))
                (Shrinks-map (λ v. record m { unknown_fields = v }) rest _
                  (reader.unknown_shrinks f t rest m.unknown_fields))))))

  merge_field-Progress : (m : PingResult U) (is : List ℕ) → Progress is (merge_field w m is)
  unfolding merge_field
  merge_field-Progress m is =
      Progress-tag w reader is (read_field w m) (λ f t rest. read_field-Shrinks m f t rest)

  -- If the crate's readers give no bytes back and take one for a tag, merging any stream into any
  -- message of this kind ends, with a result or with an error of the crate.
  pub PingResult-ne-out_of_fuel : (m : PingResult U) (is : List ℕ) → merge_from w m is ≢ out_of_fuel
  unfolding merge_from
  PingResult-ne-out_of_fuel m is =
      merge_loop-ne-out_of_fuel (merge_field w) (λ m is. merge_field-Progress m is) (length is) m is
        (omega arith)

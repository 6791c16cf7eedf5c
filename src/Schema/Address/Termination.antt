-- ===== src/Schema/Address/Termination.antt =====
-- The merge of an address ends: its loop has enough fuel.
use verfploeter.Prelude.{ℕ, ◌≢◌, List, some, Default, ◌==◌, length, arith}
use verfploeter.Schema.Wire.{Protobuf, out_of_fuel, Shrinks, IsReader}
use verfploeter.Schema.Wire.Loop.{Progress, merge_loop-ne-out_of_fuel}
use verfploeter.Schema.Wire.Progress.{Shrinks-map, Shrinks-if, Shrinks-expect, Progress-tag}
use verfploeter.Schema.Address.{Address, v4, v6, read_field, merge_field, merge_from}

module _ {U : Type 0} ⦃u : Default U⦄ (w : Protobuf U) (reader : IsReader w) where
  read_field-Shrinks :
      (m : Address U) (f t : ℕ) (rest : List ℕ) → Shrinks rest (read_field w m f t rest)
  unfolding read_field
  read_field-Shrinks m f t rest =
      Shrinks-if (f == 1) rest _ _
        (Shrinks-expect _ t rest _
          (Shrinks-map (λ v. record m { value = some (v4 v) }) rest _ (reader.uint32_shrinks rest)))
        (Shrinks-if (f == 2) rest _ _
          (Shrinks-expect _ t rest _ (
            Shrinks-map (λ v. record m { value = some (v6 v) }) rest _ (reader.bytes_shrinks rest)))
          (Shrinks-map (λ v. record m { unknown_fields = v }) rest _
            (reader.unknown_shrinks f t rest m.unknown_fields)))

  merge_field-Progress : (m : Address U) (is : List ℕ) → Progress is (merge_field w m is)
  unfolding merge_field
  merge_field-Progress m is =
      Progress-tag w reader is (read_field w m) (λ f t rest. read_field-Shrinks m f t rest)

  -- If the crate's readers give no bytes back and take one for a tag, merging any stream into any
  -- address ends, with a result or with an error of the crate.
  pub merge_from-ne-out_of_fuel : (m : Address U) (is : List ℕ) → merge_from w m is ≢ out_of_fuel
  unfolding merge_from
  merge_from-ne-out_of_fuel m is =
      merge_loop-ne-out_of_fuel (merge_field w) (λ m is. merge_field-Progress m is) (length is) m is
        (omega arith)

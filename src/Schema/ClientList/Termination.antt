-- ===== src/Schema/ClientList/Termination.antt =====
-- The merge of a list of clients ends: its loop has enough fuel.
use verfploeter.Prelude.{ℕ, ◌≢◌, List, Default, ◌==◌, length, arith}
use verfploeter.Schema.Wire.{Protobuf, out_of_fuel, Shrinks, IsReader}
use verfploeter.Schema.Wire.Loop.{Progress, merge_loop-ne-out_of_fuel}
use verfploeter.Schema.Wire.Progress.{Shrinks-map, Shrinks-if, Progress-tag}
use verfploeter.Schema.Client
use verfploeter.Schema.Client.Termination.{Client-ne-out_of_fuel}
use verfploeter.Schema.ClientList.{ClientList, read_field, merge_field, merge_from}

module _ {U : Type 0} ⦃u : Default U⦄ (w : Protobuf U) (reader : IsReader w) where
  read_field-Shrinks :
      (m : ClientList U) (f t : ℕ) (rest : List ℕ) → Shrinks rest (read_field w m f t rest)
  unfolding read_field
  read_field-Shrinks m f t rest =
      Shrinks-if (f == 1) rest _ _
        (Shrinks-map (λ v. record m { clients = v }) rest _
          (reader.repeated_shrinks (Client.merge_from w) Client.new t rest m.clients
            (λ body. Client-ne-out_of_fuel w reader Client.new body)))
        (Shrinks-map (λ v. record m { unknown_fields = v }) rest _
          (reader.unknown_shrinks f t rest m.unknown_fields))

  merge_field-Progress : (m : ClientList U) (is : List ℕ) → Progress is (merge_field w m is)
  unfolding merge_field
  merge_field-Progress m is =
      Progress-tag w reader is (read_field w m) (λ f t rest. read_field-Shrinks m f t rest)

  -- If the crate's readers give no bytes back and take one for a tag, merging any stream into any
  -- message of this kind ends, with a result or with an error of the crate.
  pub ClientList-ne-out_of_fuel : (m : ClientList U) (is : List ℕ) → merge_from w m is ≢ out_of_fuel
  unfolding merge_from
  ClientList-ne-out_of_fuel m is =
      merge_loop-ne-out_of_fuel (merge_field w) (λ m is. merge_field-Progress m is) (length is) m is
        (omega arith)

-- ===== src/Schema/Empty/RoundTrip.antt =====
-- The size of an empty message, and reading back what it writes.
use verfploeter.Prelude.{◌<◌, ◌^◌, ◌≡◌, sym, ap, Default, length, arith}
use verfploeter.Schema.Wire.{Protobuf, IsProtobuf, ok}
use verfploeter.Schema.Wire.Loop.{Reads-nil}
use verfploeter.Schema.Wire.Sizes.{Counts, Counts-unknown}
use verfploeter.Schema.Wire.Fields.{Merges}
use verfploeter.Schema.Wire.Nested.{Codec}
use verfploeter.Schema.Empty.{Empty, new, compute_size, write_to, merge_field, merge_from}

-- The values fit their fields, and there are no unknown fields.
pub record IsEmpty {U : Type 0} ⦃u : Default U⦄ (m : Empty U) : Type 0 where
  pub unknown_fields : m.unknown_fields ≡ u.default

module _ {U : Type 0} ⦃u : Default U⦄ (w : Protobuf U) (h : IsProtobuf w) where
  -- `compute_size` is the number of bytes that are written, in 32 bits.
  pub Empty-compute_size : (m : Empty U) → Counts (compute_size w m) (length (write_to w m))
  unfolding compute_size write_to
  Empty-compute_size m =
      let all = Counts-unknown w h m.unknown_fields 0 0 (omega arith) in omega arith

  write_to-Merges : Merges w h (merge_field w) new (write_to w (new)) (new)
  unfolding write_to merge_field
  write_to-Merges = rw h.no_unknown_fields (λ bound. Reads-nil (merge_field w) _)

  at-eq : (m : Empty U) → m.unknown_fields ≡ u.default → new ≡ m
  at-eq m e = ap (λ fields. record m { unknown_fields = fields }) (sym e)

  -- An empty message whose values fit their fields, without unknown fields, reads back from the
  -- bytes that it writes, if these are fewer than 2^32.
  pub Empty-merge_from :
      (m : Empty U)
      → IsEmpty m
      → length (write_to w m) < 2 ^ 32
      → merge_from w new (write_to w m) ≡ ok m
  unfolding merge_from
  Empty-merge_from m fits =
      rw (← at-eq m fits.unknown_fields) (λ bound. write_to-Merges bound _ (omega arith))

  pub Empty-Codec : Codec IsEmpty new (compute_size w) (write_to w) (merge_from w)
  Empty-Codec = record { size = Empty-compute_size; round = Empty-merge_from }

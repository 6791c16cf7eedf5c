-- ===== src/Schema/Metadata/RoundTrip.antt =====
-- The size of metadata, and reading back what it writes.
use text.Mathlib.Text.{◌==◌ as str_eq}
use verfploeter.Prelude.{◌<◌, ◌^◌, ◌≡◌, sym, ap, not, String, Default, length, length-append, arith}
use verfploeter.Schema.Wire.{Protobuf, IsProtobuf, ok, wire_type_length_delimited}
use verfploeter.Schema.Wire.Loop.{Reads-nil}
use verfploeter.Schema.Wire.Sizes.{Counts, Counts-if, Counts-unknown}
use verfploeter.Schema.Wire.Fields.{Merges, Merges-string}
use verfploeter.Schema.Wire.Nested.{Codec}
use verfploeter.Schema.Metadata.{Metadata, new, compute_size, write_to, merge_field, merge_from}

-- The values fit their fields, and there are no unknown fields.
pub record IsMetadata {U : Type 0} ⦃u : Default U⦄ (m : Metadata U) : Type 0 where
  pub unknown_fields : m.unknown_fields ≡ u.default

module _ {U : Type 0} ⦃u : Default U⦄ (w : Protobuf U) (h : IsProtobuf w) where
  -- `compute_size` is the number of bytes that are written, in 32 bits.
  pub Metadata-compute_size : (m : Metadata U) → Counts (compute_size w m) (length (write_to w m))
  unfolding compute_size write_to
  Metadata-compute_size m =
      let s1 =
        Counts-if (not (str_eq m.hostname "")) 0 0 (w.string_size 1 m.hostname)
          (w.write_string 1 m.hostname) (omega arith) (h.string_size_lem 1 m.hostname) in
      let s2 =
        Counts-if (not (str_eq m.version "")) _ _ (w.string_size 2 m.version)
          (w.write_string 2 m.version) s1 (h.string_size_lem 2 m.version) in
      let all = Counts-unknown w h m.unknown_fields _ _ s2 in
      rw (length-append, length-append) (omega arith)

  at : String → String → Metadata U
  at hostname version = record {
    hostname = hostname;
    version = version;
    unknown_fields = u.default;
  }

  write_to-Merges :
      (hostname : String) (version : String)
      → Merges w h (merge_field w) new (write_to w (at hostname version)) (at hostname version)
  unfolding at write_to merge_field
  write_to-Merges hostname version = rw h.no_unknown_fields (
      Merges-string w h (merge_field w) 1 hostname (λ v. at v "") _ _ (omega arith) (omega arith)
        (λ is.
          rw (h.read_tag 1 wire_type_length_delimited is (omega arith) (omega arith) (omega arith)))
        (Merges-string w h (merge_field w) 2 version (λ v. at hostname v) _ _ (omega arith)
          (omega arith)
          (λ is.
            rw (
              h.read_tag 2 wire_type_length_delimited is (omega arith) (omega arith) (omega arith)))
          (λ bound. Reads-nil (merge_field w) _)))

  at-eq : (m : Metadata U) → m.unknown_fields ≡ u.default → at m.hostname m.version ≡ m
  unfolding at
  at-eq m e = ap (λ fields. record m { unknown_fields = fields }) (sym e)

  -- Metadata whose values fit their fields, without unknown fields, reads back from the bytes that
  -- it writes, if these are fewer than 2^32.
  pub Metadata-merge_from :
      (m : Metadata U)
      → IsMetadata m
      → length (write_to w m) < 2 ^ 32
      → merge_from w new (write_to w m) ≡ ok m
  unfolding merge_from
  Metadata-merge_from m fits =
      rw (← at-eq m fits.unknown_fields)
        (λ bound. write_to-Merges m.hostname m.version bound _ (omega arith))

  pub Metadata-Codec : Codec IsMetadata new (compute_size w) (write_to w) (merge_from w)
  Metadata-Codec = record { size = Metadata-compute_size; round = Metadata-merge_from }

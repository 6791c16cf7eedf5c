-- ===== src/Schema/Wire/Fields.antt =====
-- Reading back field by field: what the loop of `merge_from` makes of each field that `write_to`
-- writes. A message is followed from state to state: `place v` is the state with `v` in the field.
use text.Mathlib.Text.{◌==◌ as str_eq}
use text.Mathlib.TextEquality.{eq_iff}
use verfploeter.Prelude.{
  ℕ, ◌<◌, ◌^◌, ◌≡◌, refl, subst, ap, Bool, true, false, not, List, [], ◌++◌, append_assoc, String,
  Default, length, length-append, arith, ◌==◌, if◌then◌else◌, IsU32, IsU64,
}
use verfploeter.Schema.Wire.{
  ProtobufResult, ok, ◌>>=◌, Protobuf, IsProtobuf, wire_type_varint, wire_type_length_delimited,
}
use verfploeter.Schema.Wire.Loop.{Reads, Reads-chunk}

module _ {U : Type 0} ⦃u : Default U⦄ (w : Protobuf U) (h : IsProtobuf w) {M : Type 0}
    (round : M → List ℕ → ProtobufResult (M × List ℕ)) where
  -- From `m` the loop reads the stream and ends in `r`, if the stream's length fits 32 bits.
  abbrev pub Merges : M → List ℕ → M → Type 0
  Merges m is r = length is < 2 ^ 32 → Reads round m is r

  -- A round reads the tag and then so.
  abbrev pub Field :
      {A : Type 0} → ℕ → ℕ → (List ℕ → ProtobufResult (A × List ℕ)) → M → (A → M) → Type 0
  Field f t read m place =
      (is : List ℕ)
      → round m (w.write_tag f t ++ is) ≡ (read is >>= (λ (v, rest). ok (place v, rest)))

  pub Merges-Field :
      {A : Type 0} (f t : ℕ) (a : A) (body : List ℕ) (read : List ℕ → ProtobufResult (A × List ℕ))
      (m r : M) (place : A → M) (rest : List ℕ)
      → 0 < f
      → f < 16
      → t < 6
      → Field f t read m place
      → (length (body ++ rest) < 2 ^ 32 → read (body ++ rest) ≡ ok (a, rest))
      → Merges (place a) rest r
      → Merges m ((w.write_tag f t ++ body) ++ rest) r
  Merges-Field f t a body read m r place rest pos small known field back next bound =
      let tag = h.length-write_tag f t pos small known in
      let total = length-append (w.write_tag f t ++ body) rest in
      let parts = length-append (w.write_tag f t) body in
      let behind = length-append body rest in
      Reads-chunk round m (place a) r (w.write_tag f t ++ body) rest (omega (arith, tag, parts))
        (rw (append_assoc, field (body ++ rest), back (omega (arith, tag, total, parts, behind))))
        (next (omega (arith, total)))

  -- A field that is left out when it has its default value.
  Merges-if :
      (present : Bool) (m m' r : M) (chunk rest : List ℕ)
      → (present ≡ false → m' ≡ m)
      → (Merges m' rest r → Merges m (chunk ++ rest) r)
      → Merges m' rest r
      → Merges m ((if present then chunk else []) ++ rest) r
  Merges-if true m m' r chunk rest same step next = step next
  Merges-if false m m' r chunk rest same step next = subst (λ k. Merges k rest r) (same refl) next

  pub Merges-uint32 :
      (f v : ℕ) (place : ℕ → M) (r : M) (rest : List ℕ)
      → 0 < f
      → f < 16
      → Field f wire_type_varint w.read_uint32 (place 0) place
      → IsU32 v
      → Merges (place v) rest r
      → Merges (place 0) ((if not (v == 0) then w.write_uint32 f v else []) ++ rest) r
  Merges-uint32 f v place r rest pos small field fits =
      Merges-if (not (v == 0)) (place 0) (place v) r (w.write_uint32 f v) rest
        (λ e. ap place (ground arith))
        (rw (h.write_uint32_lem f v) (
          Merges-Field f wire_type_varint v (w.write_raw_varint32 v) w.read_uint32 (place 0) r place
            rest pos small (omega arith) field (λ bound. h.read_uint32_lem v rest fits)))

  pub Merges-uint64 :
      (f v : ℕ) (place : ℕ → M) (r : M) (rest : List ℕ)
      → 0 < f
      → f < 16
      → Field f wire_type_varint w.read_uint64 (place 0) place
      → IsU64 v
      → Merges (place v) rest r
      → Merges (place 0) ((if not (v == 0) then w.write_uint64 f v else []) ++ rest) r
  Merges-uint64 f v place r rest pos small field fits =
      Merges-if (not (v == 0)) (place 0) (place v) r (w.write_uint64 f v) rest
        (λ e. ap place (ground arith))
        (rw (h.write_uint64_lem f v) (
          Merges-Field f wire_type_varint v (w.write_raw_varint64 v) w.read_uint64 (place 0) r place
            rest pos small (omega arith) field (λ bound. h.read_uint64_lem v rest fits)))

  pub Merges-bool :
      (f : ℕ) (v : Bool) (place : Bool → M) (r : M) (rest : List ℕ)
      → 0 < f
      → f < 16
      → Field f wire_type_varint w.read_bool (place false) place
      → Merges (place v) rest r
      → Merges (place false) ((if v then w.write_bool f v else []) ++ rest) r
  Merges-bool f false place r rest pos small field = λ next. next
  Merges-bool f true place r rest pos small field = rw (h.write_bool_lem f) (
      Merges-Field f wire_type_varint true (w.write_raw_varint32 1) w.read_bool (place false) r
        place rest pos small (omega arith) field (λ bound. h.read_bool_lem rest))

  pub Merges-string :
      (f : ℕ) (v : String) (place : String → M) (r : M) (rest : List ℕ)
      → 0 < f
      → f < 16
      → Field f wire_type_length_delimited
          (w.read_singular_proto3_string_into wire_type_length_delimited)
          (place "")
          place
      → Merges (place v) rest r
      → Merges (place "") ((if not (str_eq v "") then w.write_string f v else []) ++ rest) r
  Merges-string f v place r rest pos small field =
      Merges-if (not (str_eq v "")) (place "") (place v) r (w.write_string f v) rest
        (λ e. ap place ((eq_iff v "").0 (ground (arith, e))))
        (rw (h.write_string_lem f v) (
          Merges-Field f wire_type_length_delimited v (h.string_body v)
            (w.read_singular_proto3_string_into wire_type_length_delimited) (place "") r place rest
            pos small (omega arith) field
            (λ bound.
              h.read_string_lem v rest (omega (arith, length-append (h.string_body v) rest)))))

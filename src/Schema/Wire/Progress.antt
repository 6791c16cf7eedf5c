-- ===== src/Schema/Wire/Progress.antt =====
-- Rounds of `merge_from` that give no bytes back, from the laws of the crate's readers.
use verfploeter.Prelude.{
  ℕ, ◌<◌, ◌≡◌, ◌≢◌, refl, List, length, arith, Bool, true, false, if◌then◌else◌,
}
use verfploeter.Schema.Wire.{
  ProtobufResult, ok, err, out_of_fuel, ◌>>=◌, ◌>>◌, Shrinks, IsReader, Protobuf, expect_wire_type,
}
use verfploeter.Schema.Wire.Loop.{Progress}

pub Shrinks-map :
    {A B : Type 0} (f : A → B) (is : List ℕ) (r : ProtobufResult (A × List ℕ))
    → Shrinks is r
    → Shrinks is (r >>= (λ (a, rest). ok (f a, rest)))
Shrinks-map f is (ok (a, rest)) h = h
Shrinks-map f is (err e) h = tt
Shrinks-map f is out_of_fuel h = h

pub Shrinks-if :
    {A : Type 0} (c : Bool) (is : List ℕ) (x y : ProtobufResult (A × List ℕ))
    → Shrinks is x
    → Shrinks is y
    → Shrinks is (if c then x else y)
Shrinks-if true is x y hx hy = hx
Shrinks-if false is x y hx hy = hy

-- A field behind the test of its wire type.
pub Shrinks-expect :
    {A : Type 0} (expected wire_type : ℕ) (is : List ℕ) (r : ProtobufResult (A × List ℕ))
    → Shrinks is r
    → Shrinks is (expect_wire_type expected wire_type >> r)
Shrinks-expect expected wire_type is r h = ground arith

Progress-step :
    {B : Type 0} (is rest : List ℕ) (r : ProtobufResult (B × List ℕ))
    → length rest < length is
    → Shrinks rest r
    → Progress is r
Progress-step is rest (ok (b, behind)) short h = omega arith
Progress-step is rest (err e) short h = tt
Progress-step is rest out_of_fuel short h = h

module _ {U : Type 0} (w : Protobuf U) (reader : IsReader w) where
  Progress-read :
      {B : Type 0} (is : List ℕ) (r : ProtobufResult (ℕ × ℕ × List ℕ))
      (k : ℕ → ℕ → List ℕ → ProtobufResult (B × List ℕ))
      → r ≢ out_of_fuel
      → ((f t : ℕ) (rest : List ℕ) → r ≡ ok (f, t, rest) → length rest < length is)
      → ((f t : ℕ) (rest : List ℕ) → Shrinks rest (k f t rest))
      → Progress is (r >>= (λ (f, t, rest). k f t rest))
  Progress-read is (ok (f, t, rest)) k ne short h =
      Progress-step is rest (k f t rest) (short f t rest refl) (h f t rest)
  Progress-read is (err e) k ne short h = tt
  Progress-read is out_of_fuel k ne short h = ne refl

  -- A round that reads a tag, and then gives no bytes back, takes a byte at least.
  pub Progress-tag :
      {B : Type 0} (is : List ℕ) (k : ℕ → ℕ → List ℕ → ProtobufResult (B × List ℕ))
      → ((f t : ℕ) (rest : List ℕ) → Shrinks rest (k f t rest))
      → Progress is (w.read_tag_unpack is >>= (λ (f, t, rest). k f t rest))
  Progress-tag is k h =
      Progress-read is (w.read_tag_unpack is) k (reader.tag_shrinks is).0 (reader.tag_shrinks is).1
        h

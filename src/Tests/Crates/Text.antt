-- ===== src/Tests/Crates/Text.antt =====
-- Texts as bytes: three for each character's number, the highest first.
use Prim.Native.Nat.{Ordering, compare}
use Prim.Native.Char.{char, code, IsLt, IsScalar}
use Prim.Native.String.{[] as nil, ◌∷◌ as cons}
use verfploeter.Prelude.{
  ℕ, ◌+◌, ◌*◌, ◌/◌, ◌%◌, ◌≡◌, refl, List, [], ◌∷◌, Option, none, some, arith, String,
}

-- The clauses of `IsScalar`'s helpers.
abbrev Both : Ordering → Ordering → Type 0
Both Ordering.lt o = IsLt o
Both Ordering.eq _ = ⊥
Both Ordering.gt _ = ⊥

abbrev Scalar : Ordering → Ordering → Ordering → Type 0
Scalar Ordering.lt _ _ = Unit {0}
Scalar Ordering.eq o p = Both o p
Scalar Ordering.gt o p = Both o p

unfoldable is_both : (o p : Ordering) → Option (Both o p)
is_both Ordering.lt Ordering.lt = some tt
is_both Ordering.lt Ordering.eq = none
is_both Ordering.lt Ordering.gt = none
is_both Ordering.eq p = none
is_both Ordering.gt p = none

unfoldable is_scalar : (o p q : Ordering) → Option (Scalar o p q)
unfolding is_both
is_scalar Ordering.lt p q = some tt
is_scalar Ordering.eq p q = is_both p q
is_scalar Ordering.gt p q = is_both p q

is_both-some : (o p : Ordering) (b : Both o p) → is_both o p ≡ some b
unfolding is_both
is_both-some Ordering.lt Ordering.lt b = refl
is_both-some Ordering.lt Ordering.eq b = absurd b
is_both-some Ordering.lt Ordering.gt b = absurd b
is_both-some Ordering.eq p b = absurd b
is_both-some Ordering.gt p b = absurd b

is_scalar-some : (o p q : Ordering) (s : Scalar o p q) → is_scalar o p q ≡ some s
unfolding is_scalar
is_scalar-some Ordering.lt p q s = refl
is_scalar-some Ordering.eq p q s = is_both-some p q s
is_scalar-some Ordering.gt p q s = is_both-some p q s

unfoldable cons_code : (n : ℕ) → Option (IsScalar n) → Option String → Option String
cons_code n (some s) (some v) = some (cons (char n s) v)
cons_code n (some s) none = none
cons_code n none v = none

unfoldable pub bytes : String → List ℕ
bytes nil = []
bytes (cons c v) = code c / 65536 ∷ code c / 256 % 256 ∷ code c % 256 ∷ bytes v

unfoldable pub text : List ℕ → Option String
unfolding cons_code is_scalar is_both
text [] = some nil
text (a ∷ []) = none
text (a ∷ b ∷ []) = none
text (a ∷ b ∷ c ∷ rest) =
    let n = a * 65536 + b * 256 + c in
    cons_code n (is_scalar (compare n 55296) (compare 57343 n) (compare n 1114112)) (text rest)

cons_code-some :
    (n m : ℕ) (s : IsScalar n) (v : String) (t : Option String)
    → m ≡ n
    → t ≡ some v
    → cons_code m (is_scalar (compare m 55296) (compare 57343 m) (compare m 1114112)) t
      ≡ some (cons (char n s) v)
unfolding cons_code is_scalar
cons_code-some n m s v t e f =
    rw (e, f, is_scalar-some (compare n 55296) (compare 57343 n) (compare n 1114112) s)

pub text-bytes : (v : String) → text (bytes v) ≡ some v
unfolding text bytes
text-bytes nil = refl
text-bytes (cons (char n s) v) =
    cons_code-some n (n / 65536 * 65536 + n / 256 % 256 * 256 + n % 256) s v (text (bytes v))
      (omega arith) (text-bytes v)

-- ===== src/Tests/Crates/Varint.antt =====
-- Base-128 numbers: seven bits a byte, the lowest first, with the top bit on all but the last.
use verfploeter.Prelude.{
  Bool-cases, inl, inr, ℕ, zero, suc, ◌+◌, ◌-◌, ◌*◌, ◌/◌, ◌%◌, ◌^◌, ◌≤◌, ◌<◌, ◌≡◌, refl, List, [],
  ◌∷◌, ◌++◌, Option, none, some, arith, ltb, if◌then◌else◌, length,
}

unfoldable pub encode : ℕ → ℕ → List ℕ
encode zero v = v ∷ []
encode (suc k) v =
    let rest = encode k (v / 128) in if ltb v 128 then v ∷ [] else (v % 128 + 128) ∷ rest

join : ℕ → Option (ℕ × List ℕ) → Option (ℕ × List ℕ)
join b none = none
join b (some (v, rest)) = some (b - 128 + 128 * v, rest)

unfoldable pub decode : List ℕ → Option (ℕ × List ℕ)
unfolding join
decode [] = none
decode (b ∷ bs) = let more = decode bs in if ltb b 128 then some (b, bs) else join b more

pub decode-encode :
    (k v : ℕ) (rest : List ℕ) → v < 128 ^ suc k → decode (encode k v ++ rest) ≡ some (v, rest)
unfolding decode encode
decode-encode zero v rest h = ground arith
decode-encode (suc k) v rest h = ground (arith, decode-encode k (v / 128) rest (omega arith))

pub length-encode : (k v : ℕ) → (0 < length (encode k v)) × (length (encode k v) ≤ suc k)
unfolding encode
length-encode zero v = omega arith
length-encode (suc k) v = ground (arith, length-encode k (v / 128))

pub encode_short : (k v : ℕ) → v < 128 → encode k v ≡ v ∷ []
unfolding encode
encode_short zero v h = refl
encode_short (suc k) v h = ground arith

pub length-encode_le : (j k v : ℕ) → v < 128 ^ suc j → length (encode k v) ≤ suc j
unfolding encode
length-encode_le j zero v h = omega arith
length-encode_le zero (suc k) v h = ground arith
length-encode_le (suc j) (suc k) v h = ground (arith, length-encode_le j k (v / 128) (omega arith))

-- What is left is shorter.
abbrev pub Shorter : List ℕ → Option (ℕ × List ℕ) → Type 0
Shorter is none = Unit {0}
Shorter is (some (v, rest)) = length rest < length is

Shorter-join :
    (b : ℕ) (bs : List ℕ) (more : Option (ℕ × List ℕ))
    → Shorter bs more
    → Shorter (b ∷ bs) (join b more)
unfolding join
Shorter-join b bs none h = tt
Shorter-join b bs (some (v, rest)) h = omega arith

pub decode-Shorter : (is : List ℕ) → Shorter is (decode is)
unfolding decode
decode-Shorter [] = tt
decode-Shorter (b ∷ bs) = elim (Bool-cases (ltb b 128)) [
  | inl e ↦ rw e (omega arith)
  | inr e ↦ rw e (Shorter-join b bs (decode bs) (decode-Shorter bs))
]

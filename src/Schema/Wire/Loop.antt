-- ===== src/Schema/Wire/Loop.antt =====
-- `while !is.eof()? { … }`, the loop of every `merge_from`, over one round of it. Each round takes a
-- byte at least (`merge_loop-ne-out_of_fuel`), so the length of the stream is enough fuel.
use verfploeter.Prelude.{
  ℕ, zero, suc, ◌≤◌, ◌<◌, ◌≡◌, ◌≢◌, refl, List, [], ◌∷◌, ◌++◌, length, arith, Bool, true, false,
  if◌then◌else◌, subst, length-append, ◌⊎◌, inl, inr,
}
use verfploeter.Schema.Wire.{ProtobufResult, ProtobufError, ok, err, out_of_fuel, ◌>>=◌}

-- A round that ends well has taken a byte at least.
abbrev pub Progress : {A : Type 0} → List ℕ → ProtobufResult (A × List ℕ) → Type 0
Progress is (ok (a, rest)) = length rest < length is
Progress is (err e) = Unit {0}
Progress is out_of_fuel = ⊥

round-cases :
    {A : Type 0} (is : List ℕ) (r : ProtobufResult (A × List ℕ))
    → Progress is r
    → ((a : A) × (rest : List ℕ) × (r ≡ ok (a, rest)) × (length rest < length is))
      ⊎ ((e : ProtobufError) × (r ≡ err e))
round-cases is (ok (a, rest)) h = inl (a, rest, refl, h)
round-cases is (err e) h = inr (e, refl)
round-cases is out_of_fuel h = absurd h

module _ {M : Type 0} (round : M → List ℕ → ProtobufResult (M × List ℕ)) where
  unfoldable pub merge_loop : ℕ → M → List ℕ → ProtobufResult M
  merge_loop fuel m [] = ok m
  merge_loop zero m (b ∷ is) = out_of_fuel
  merge_loop (suc fuel) m (b ∷ is) = do (m', rest) ← round m (b ∷ is); merge_loop fuel m' rest

  -- From `m` the loop reads the whole stream and ends in `r`, on any fuel of the stream's length.
  abbrev pub Reads : M → List ℕ → M → Type 0
  Reads m is r = (fuel : ℕ) → length is ≤ fuel → merge_loop fuel m is ≡ ok r

  pub Reads-nil : (m : M) → Reads m [] m
  unfolding merge_loop
  Reads-nil m fuel h = refl

  pub Reads-round :
      (m m' r : M) (is rest : List ℕ)
      → length rest < length is
      → round m is ≡ ok (m', rest)
      → Reads m' rest r
      → Reads m is r
  unfolding merge_loop
  Reads-round m m' r [] rest short e next fuel h = absurd (omega arith)
  Reads-round m m' r (b ∷ is) rest short e next zero h = absurd (omega arith)
  Reads-round m m' r (b ∷ is) rest short e next (suc fuel) h = rw e (next fuel (omega arith))

  pub Reads-chunk :
      (m m' r : M) (chunk rest : List ℕ)
      → 0 < length chunk
      → round m (chunk ++ rest) ≡ ok (m', rest)
      → Reads m' rest r
      → Reads m (chunk ++ rest) r
  Reads-chunk m m' r chunk rest long e next =
      Reads-round m m' r (chunk ++ rest) rest (omega (arith, length-append chunk rest)) e next

  -- A field that is written under a test, and has its default value otherwise.
  pub Reads-if :
      (present : Bool) (m m' r : M) (chunk rest : List ℕ)
      → 0 < length chunk
      → (present ≡ false → m' ≡ m)
      → round m (chunk ++ rest) ≡ ok (m', rest)
      → Reads m' rest r
      → Reads m ((if present then chunk else []) ++ rest) r
  Reads-if true m m' r chunk rest long same e next = Reads-chunk m m' r chunk rest long e next
  Reads-if false m m' r chunk rest long same e next = subst (λ k. Reads k rest r) (same refl) next

  pub merge_loop-ne-out_of_fuel :
      ((m : M) (is : List ℕ) → Progress is (round m is))
      → (fuel : ℕ) (m : M) (is : List ℕ) → length is ≤ fuel
      → merge_loop fuel m is ≢ out_of_fuel
  unfolding merge_loop
  merge_loop-ne-out_of_fuel progress fuel m [] h = λ e. cc
  merge_loop-ne-out_of_fuel progress zero m (b ∷ is) h = absurd (omega arith)
  merge_loop-ne-out_of_fuel progress (suc fuel) m (b ∷ is) h =
      elim (round-cases (b ∷ is) (round m (b ∷ is)) (progress m (b ∷ is))) [
        | inl (m', rest, e, short) ↦
            rw e (merge_loop-ne-out_of_fuel progress fuel m' rest (omega arith))
        | inr (x, e) ↦ rw e (λ p. cc)
      ]

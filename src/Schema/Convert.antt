-- ===== src/Schema/Convert.antt =====
-- The conversions between `Address` and the standard library's addresses in src/schema/mod.rs. An
-- `Ipv4Addr` is the number that its four bytes spell, an `Ipv6Addr` the list of its 16 bytes.
use verfploeter.Prelude.{
  ℕ, ◌+◌, ◌≤◌, ◌<◌, ◌≡◌, refl, ◌∙◌, ap, List, [], ◌∷◌, ◌++◌, false, Default, length, set, Outcome,
  value, panic, ◌>>=◌, ltb, if◌then◌else◌, arith, length-set, length-append, append_assoc,
  set-append, lt→ltb, drop, replicate, Bool-cases, inl, inr, ◌⊎◌,
}
use verfploeter.Schema.Address
use verfploeter.Schema.Address.{Address, v4, v6}

pub data IpAddr : Type 0 where
  ip_v4 : ℕ → IpAddr
  ip_v6 : List ℕ → IpAddr

-- `for (i, e) in bytes.iter().enumerate() { buffer[i] = *e; }`: an index past the array panics.
fill : ℕ → List ℕ → List ℕ → Outcome (List ℕ)
fill i buffer [] = value buffer
fill i buffer (e ∷ bytes) =
    let rest = fill (i + 1) (set buffer i e) bytes in if ltb i (length buffer) then rest else panic

-- `impl From<&Address> for IpAddr`
module _ {U : Type 0} ⦃u : Default U⦄ where
  unfoldable pub ip_addr_from : Address U → Outcome IpAddr
  unfolding fill
  ip_addr_from address =
      if Address.has_v4 address
      then value (ip_v4 (Address.get_v4 address))
      else (fill 0 (replicate 16 0) (Address.get_v6 address) >>= (λ buffer. value (ip_v6 buffer)))

  -- `impl From<Ipv4Addr> for Address`
  abbrev pub address_from : ℕ → Address U
  address_from addr = Address.set_v4 addr Address.new

fill-append :
    (done bytes free : List ℕ)
    → length bytes ≤ length free
    → fill (length done) (done ++ free) bytes ≡ value (done ++ (bytes ++ drop (length bytes) free))
unfolding fill
fill-append done [] free h = refl
fill-append done (e ∷ bytes) [] h = absurd (omega arith)
fill-append done (e ∷ bytes) (x ∷ free) h =
    rw
      (
        lt→ltb (length done) (length (done ++ (x ∷ free)))
            (omega (arith, length-append done (x ∷ free))),
        set-append done free x e,
      )
      (let n : length done + 1 ≡ length (done ++ (e ∷ [])) =
          omega (arith, length-append done (e ∷ [])) in
        rw n (
          fill-append (done ++ (e ∷ [])) bytes free (omega arith)
          ∙ ap value (append_assoc done (e ∷ []) (bytes ++ drop (length bytes) free))))

fill-panic :
    (i : ℕ) (buffer bytes : List ℕ)
    → length buffer < i + length bytes
    → i ≤ length buffer
    → fill i buffer bytes ≡ panic
unfolding fill
fill-panic i buffer [] h k = absurd (omega arith)
fill-panic i buffer (e ∷ bytes) h k =
    ground (arith, length-set {0} buffer i e, fill-panic (i + 1) (set buffer i e) bytes)

-- What the conversion gives for an address without a v4 value: its v6 bytes, filled up with zeros.
module _ {U : Type 0} ⦃u : Default U⦄ where
  ip_addr_from-short :
      (a : Address U)
      → Address.has_v4 a ≡ false
      → length (Address.get_v6 a) ≤ 16
      → ip_addr_from a
        ≡ value (ip_v6 (Address.get_v6 a ++ drop (length (Address.get_v6 a)) (replicate 16 0)))
  unfolding ip_addr_from
  ip_addr_from-short a e short = rw (e, fill-append [] (Address.get_v6 a) (replicate 16 0) short)

  ip_addr_from-long :
      (a : Address U)
      → Address.has_v4 a ≡ false
      → 16 < length (Address.get_v6 a)
      → ip_addr_from a ≡ panic
  unfolding ip_addr_from
  ip_addr_from-long a e long =
      rw (e, fill-panic 0 (replicate 16 0) (Address.get_v6 a) (omega arith) (omega arith))

  -- The conversion of an address without a v4 value either panics, its v6 value having more than 16
  -- bytes, or gives that value filled up with zeros to 16 bytes.
  pub ip_addr_from-cases :
      (a : Address U)
      → Address.has_v4 a ≡ false
      → ((length (Address.get_v6 a) ≤ 16)
          × (ip_addr_from a
              ≡ value
                  (ip_v6 (Address.get_v6 a ++ drop (length (Address.get_v6 a)) (replicate 16 0)))))
        ⊎ ((16 < length (Address.get_v6 a)) × (ip_addr_from a ≡ panic))
  ip_addr_from-cases a e = elim (Bool-cases (ltb 16 (length (Address.get_v6 a)))) [
    | inl more ↦ inr (ground arith, ip_addr_from-long a e (ground arith))
    | inr most ↦ inl (ground arith, ip_addr_from-short a e (ground arith))
  ]

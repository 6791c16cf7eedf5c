-- ===== src/Tests/Crates/Mac.antt =====
-- A code of 32 bytes for `HmacSha256`: the sum of the key and the message, with 31 zeros.
use verfploeter.Prelude.{
  ℕ, ◌+◌, ◌≡◌, ◌↔◌, refl, Bool, true, false, ◌&&◌, List, [], ◌∷◌, some, arith, ◌==◌, replicate,
}
use verfploeter.Schema.Signed.{HmacSha256, IsMac}

unfoldable pub list_eq : List ℕ → List ℕ → Bool
list_eq [] [] = true
list_eq [] (y ∷ ys) = false
list_eq (x ∷ xs) [] = false
list_eq (x ∷ xs) (y ∷ ys) = x == y && list_eq xs ys

list_eq_iff : (xs ys : List ℕ) → (list_eq xs ys ≡ true) ↔ (xs ≡ ys)
unfolding list_eq
list_eq_iff [] [] = (λ e. refl, λ e. refl)
list_eq_iff [] (y ∷ ys) = (λ e. cc, λ e. cc)
list_eq_iff (x ∷ xs) [] = (λ e. cc, λ e. cc)
list_eq_iff (x ∷ xs) (y ∷ ys) =
    (λ e. ground (arith, list_eq_iff xs ys), λ e. ground (arith, list_eq_iff xs ys))

unfoldable pub sum : List ℕ → ℕ
sum [] = 0
sum (x ∷ xs) = x + sum xs

abbrev pub sum_mac : HmacSha256
sum_mac = record {
  Mac = ℕ;
  new_varkey = λ secret. some 7;
  input = λ m bytes. m + sum bytes;
  code = λ m. m ∷ replicate 31 0;
  verify = λ m s. list_eq s (m ∷ replicate 31 0);
}

pub sum_mac-IsMac : IsMac sum_mac
sum_mac-IsMac = record { length-code = λ m. refl; verify_iff = λ m s. list_eq_iff s _ }

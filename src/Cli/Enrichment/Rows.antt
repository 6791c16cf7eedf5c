-- ===== src/Cli/Enrichment/Rows.antt =====
-- Which columns the rows have.
use text.Mathlib.Text.{◌==◌ as str_eq}
use text.Mathlib.TextEquality.{eq_iff}
use verfploeter.Prelude.{
  Bool, subst, ℕ, ◌≡◌, refl, List, [], ◌∷◌, ◌++◌, some, String, Default, Outcome, value, panic,
  ◌>>=◌, if◌then◌else◌, All, Bool-cases, Option-cases, inl, inr, arith, true, false,
}
use verfploeter.Schema.PingResult.{PingResult}
use verfploeter.Schema.PingResult
use verfploeter.Schema.PingPayload
use verfploeter.Schema.TaskResult
use verfploeter.Schema.Result
use verfploeter.Schema.Result.{Result}
use verfploeter.Schema.TaskResult.{TaskResult}
use verfploeter.Schema.Convert.{IpAddr, ip_addr_from}
use verfploeter.Cli.Enrichment.{
  Row, RowData, get, insert, ping_entries, ping_row, result_rows, get_data, get_headers,
  Transformer, transform, destination_of, add_header, enriched,
}

-- The row has a value for the column.
abbrev pub Has : {F : Type 0} → Row F → String → Type 0
Has {F} row k = (v : RowData F) × (get k row ≡ some v)

str_eq-same : (k : String) → str_eq k k ≡ true
str_eq-same k = (eq_iff k k).1 refl

module _ {F : Type 0} where
  get-insert :
      (k j : String) (v : RowData F) (row : Row F)
      → get j (insert k v row) ≡ (if str_eq k j then some v else get j row)
  unfolding get insert
  get-insert k j v [] = refl
  get-insert k j v ((i, x) ∷ row) =
      ground (arith, eq_iff i k, eq_iff k j, eq_iff i j, get-insert k j v row)

  pub Has-insert_same : (k : String) (v : RowData F) (row : Row F) → Has (insert k v row) k
  Has-insert_same k v row = (v, rw (get-insert k k v row, str_eq-same k))

  pub Has-insert : (j k : String) (v : RowData F) (row : Row F) → Has row j → Has (insert k v row) j
  Has-insert j k v row (x, e) = elim (Bool-cases (str_eq k j)) [
    | inl same ↦ (v, rw (get-insert k j v row, same))
    | inr other ↦ (x, rw (get-insert k j v row, other) e)
  ]

  Has-inserted :
      (k : String) (v : RowData F) (row : Row F) (headers : List String)
      → All (Has row) headers
      → All (Has (insert k v row)) (headers ++ (k ∷ []))
  Has-inserted k v row [] h = (Has-insert_same k v row, tt)
  Has-inserted k v row (j ∷ headers) h =
      (Has-insert j k v row h.0, Has-inserted k v row headers h.1)

  -- A transformer keeps the columns and adds its own.
  pub Has-transform :
      (t : Transformer) (row : Row F) (headers : List String)
      → All (Has row) headers
      → All (Has (transform t row)) (add_header t headers)
  unfolding transform
  Has-transform t row headers h = elim (Option-cases (enriched t row)) [
    | inl e ↦ rw (transform, e) (Has-inserted (destination_of t) _ row headers h)
    | inr (v, e) ↦ rw (transform, e) (Has-inserted (destination_of t) v row headers h)
  ]

value-injective : {A : Type 0} (a b : A) → value a ≡ value b → a ≡ b
value-injective a b e = cc

value-ne-panic : {A : Type 0} (a : A) → panic ≡ value a → ⊥
value-ne-panic a e = cc

module _ {F : Type 0} where
  -- What four conversions and the entries of their results give.
  four :
      (s d ms md : Outcome IpAddr) (entries : IpAddr → IpAddr → IpAddr → IpAddr → Row F)
      (row : Row F)
      → (s >>= (λ s. d >>= (λ d. ms >>= (λ ms. md >>= (λ md. value (entries s d ms md))))))
        ≡ value row
      → (a b c e : IpAddr) × (entries a b c e ≡ row)
  four (value a) (value b) (value c) (value e) entries row h =
      (a, b, c, e, value-injective (entries a b c e) row h)
  four panic d ms md entries row h = absurd (value-ne-panic row h)
  four (value a) panic ms md entries row h = absurd (value-ne-panic row h)
  four (value a) (value b) panic md entries row h = absurd (value-ne-panic row h)
  four (value a) (value b) (value c) panic entries row h = absurd (value-ne-panic row h)

  rows-All :
      (P : Row F → Type 0) (c : Bool) (o : Outcome (Row F)) (rest : Outcome (List (Row F)))
      (rows : List (Row F))
      → (if c then (o >>= (λ row. rest >>= (λ rest. value (row ∷ rest)))) else rest) ≡ value rows
      → ((row : Row F) → o ≡ value row → P row)
      → ((rows : List (Row F)) → rest ≡ value rows → All P rows)
      → All P rows
  rows-All P true (value row) (value rest) rows e p q =
      subst (All P) (value-injective (row ∷ rest) rows e) (p row refl, q rest refl)
  rows-All P true (value row) panic rows e p q = absurd (value-ne-panic rows e)
  rows-All P true panic rest rows e p q = absurd (value-ne-panic rows e)
  rows-All P false o rest rows e p q = q rows e

module _ {U : Type 0} ⦃u : Default U⦄ {F : Type 0} (to_millis : ℕ → F) where
  ping_entries-Has :
      (task_id : ℕ) (client_id : String) (ping : PingResult U) (s d ms md : IpAddr)
      → All (Has (ping_entries to_millis task_id client_id ping s d ms md)) get_headers
  unfolding ping_entries get
  ping_entries-Has task_id client_id ping s d ms md = (
    (_, refl),
    (
      (_, refl),
      (
        (_, refl),
        (
          (_, refl),
          ((_, refl), ((_, refl), ((_, refl), ((_, refl), ((_, refl), ((_, refl), tt)))))),
        ),
      ),
    ),
  )

  ping_row-Has :
      (task_id : ℕ) (client_id : String) (r : Result U) (row : Row F)
      → ping_row to_millis task_id client_id r ≡ value row
      → All (Has row) get_headers
  unfolding ping_row
  ping_row-Has task_id client_id r row e =
      let ping = Result.get_ping r in
      let payload = PingResult.get_payload ping in
      let (s, d, ms, md, same) =
        four (ip_addr_from (PingResult.get_source_address ping))
          (ip_addr_from (PingResult.get_destination_address ping))
          (ip_addr_from (PingPayload.get_source_address payload))
          (ip_addr_from (PingPayload.get_destination_address payload))
          (ping_entries to_millis task_id client_id ping) row e in
      subst (λ row. All (Has row) get_headers) same
        (ping_entries-Has task_id client_id ping s d ms md)

  result_rows-Has :
      (task_id : ℕ) (client_id : String) (rs : List (Result U)) (rows : List (Row F))
      → result_rows to_millis task_id client_id rs ≡ value rows
      → All (λ row. All (Has row) get_headers) rows
  unfolding result_rows
  result_rows-Has task_id client_id [] rows e =
      subst (λ rows. All (λ (row : Row F). All (Has row) get_headers) rows)
        (value-injective [] rows e) tt
  result_rows-Has task_id client_id (r ∷ rs) rows e =
      rows-All (λ row. All (Has row) get_headers) (Result.has_ping r)
        (ping_row to_millis task_id client_id r) (result_rows to_millis task_id client_id rs) rows e
        (ping_row-Has task_id client_id r) (result_rows-Has task_id client_id rs)

  pub get_data-Has :
      (tr : TaskResult U) (rows : List (Row F))
      → get_data to_millis tr ≡ value rows
      → All (λ row. All (Has row) get_headers) rows
  unfolding get_data
  get_data-Has tr rows e = result_rows-Has _ _ (TaskResult.get_result_list tr) rows e

-- ===== src/Cli/Measurement/Lines.antt =====
-- The lines of the output have every column that the first line names.
use text.Mathlib.Text.{◌==◌ as str_eq}
use text.Mathlib.TextEquality.{eq_iff}
use mathlib.Core.List.{Mem, mem-cons}
use verfploeter.Prelude.{
  ℕ, ◌≡◌, ◌∙◌, sym, subst, List, [], ◌∷◌, ◌++◌, append-nil, append_assoc, map, Option, some, String,
  Default, value, All, arith, Bool-cases, inl, inr,
}
use verfploeter.Schema.TaskResult.{TaskResult}
use verfploeter.Cli.Enrichment.{
  Row, RowData, get, get_data, get_headers, Transformer, transform, destination_of, add_header,
}
use verfploeter.Cli.Enrichment.Rows.{Has, Has-transform, get_data-Has}
use verfploeter.Cli.Measurement.{pipeline_headers, enrich, csv_line}

-- The fields are, one for each column and in their order, values that the row has there.
unfoldable pub IsFull : {F : Type 0} → List String → Row F → List (Option (RowData F)) → Type 0
IsFull [] row [] = Unit {0}
IsFull [] row (field ∷ fields) = ⊥
IsFull (column ∷ columns) row [] = ⊥
IsFull {F} (column ∷ columns) row (field ∷ fields) =
    ((v : RowData F) × (field ≡ some v) × Mem (column, v) row) × IsFull columns row fields

-- The ten columns of every row, and one for each transformer.
abbrev pub columns : List Transformer → List String
columns ts = get_headers ++ map destination_of ts

pub pipeline_headers-append :
    (ts : List Transformer) (headers : List String)
    → pipeline_headers ts headers ≡ headers ++ map destination_of ts
unfolding pipeline_headers
pipeline_headers-append [] headers = sym (append-nil headers)
pipeline_headers-append (t ∷ ts) headers =
    pipeline_headers-append ts (add_header t headers)
    ∙ append_assoc headers (destination_of t ∷ []) (map destination_of ts)

module _ {F : Type 0} where
  Mem-get : (k : String) (row : Row F) (v : RowData F) → get k row ≡ some v → Mem (k, v) row
  unfolding get
  Mem-get k [] v e = absurd (ground arith)
  Mem-get k ((j, x) ∷ row) v e = elim (Bool-cases (str_eq j k)) [
    | inl same ↦ mem-cons.1 ∣ inl (ground (arith, eq_iff j k, e, same)) ∣₁
    | inr other ↦ mem-cons.1 ∣ inr (Mem-get k row v (ground (arith, other, e))) ∣₁
  ]

  Has-enrich :
      (ts : List Transformer) (row : Row F) (headers : List String)
      → All (Has row) headers
      → All (Has (enrich ts row)) (pipeline_headers ts headers)
  unfolding enrich pipeline_headers
  Has-enrich [] row headers h = h
  Has-enrich (t ∷ ts) row headers h =
      Has-enrich ts (transform t row) (add_header t headers) (Has-transform t row headers h)

  csv_line-IsFull :
      (headers : List String) (row : Row F)
      → All (Has row) headers
      → IsFull headers row (csv_line headers row)
  unfolding csv_line IsFull
  csv_line-IsFull [] row h = tt
  csv_line-IsFull (header ∷ headers) row h =
      ((h.0.0, h.0.1, Mem-get header row h.0.0 h.0.1), csv_line-IsFull headers row h.1)

  -- What is printed of a row.
  abbrev pub line_of : List Transformer → Row F → List (Option (RowData F))
  line_of ts row = csv_line (pipeline_headers ts get_headers) (enrich ts row)

  lines-IsFull :
      (ts : List Transformer) (rows : List (Row F))
      → All (λ row. All (Has row) get_headers) rows
      → All (λ row. IsFull (columns ts) (enrich ts row) (line_of ts row)) rows
  lines-IsFull ts [] h = tt
  lines-IsFull ts (row ∷ rows) h = (
    subst (λ headers. IsFull headers (enrich ts row) (line_of ts row))
        (pipeline_headers-append ts get_headers)
        (csv_line-IsFull (pipeline_headers ts get_headers) (enrich ts row)
          (Has-enrich ts row get_headers h.0)),
    lines-IsFull ts rows h.1,
  )

pub get_data-IsFull :
    {U : Type 0} ⦃u : Default U⦄ {F : Type 0} (to_millis : ℕ → F) (ts : List Transformer)
    (tr : TaskResult U) (rows : List (Row F))
    → get_data to_millis tr ≡ value rows
    → All (λ row. IsFull (columns ts) (enrich ts row) (line_of ts row)) rows
get_data-IsFull to_millis ts tr rows e = lines-IsFull ts rows (get_data-Has to_millis tr rows e)

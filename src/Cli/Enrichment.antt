-- ===== src/Cli/Enrichment.antt =====
-- src/cli/enrichment/mod.rs: the rows of a task result and the transformers that add columns. A
-- row, a `HashMap<String, RowData>`, is the list of its entries. `F` is the type f64; the database
-- readers of the crate `maxminddb` are parameters.
pub mod Rows
pub mod Values
use text.Mathlib.Text.{◌==◌ as str_eq}
use verfploeter.Prelude.{
  ℕ, ◌+◌, ◌-◌, ◌%◌, ◌^◌, List, [], ◌∷◌, ◌++◌, Option, none, some, String, Default, Outcome, value,
  ◌>>=◌, if◌then◌else◌,
}
use verfploeter.Schema.Client
use verfploeter.Schema.Convert.{IpAddr, ip_addr_from}
use verfploeter.Schema.Metadata
use verfploeter.Schema.PingPayload
use verfploeter.Schema.PingResult
use verfploeter.Schema.PingResult.{PingResult}
use verfploeter.Schema.Result
use verfploeter.Schema.Result.{Result}
use verfploeter.Schema.TaskResult
use verfploeter.Schema.TaskResult.{TaskResult}

pub data RowData (F : Type 0) : Type 0 where
  string : String → RowData F
  integer : ℕ → RowData F
  float : F → RowData F
  ip_address : IpAddr → RowData F

abbrev pub Row : Type 0 → Type 0
Row F = List (String × RowData F)

module _ {F : Type 0} where
  unfoldable pub get : String → Row F → Option (RowData F)
  get k [] = none
  get k ((j, v) ∷ row) = if str_eq j k then some v else get k row

  unfoldable pub insert : String → RowData F → Row F → Row F
  insert k v [] = (k, v) ∷ []
  insert k v ((j, x) ∷ row) = if str_eq j k then (k, v) ∷ row else (j, x) ∷ insert k v row

-- `receive_time - transmit_time` in u64, which wraps in a release build.
abbrev pub time_diff : ℕ → ℕ → ℕ
time_diff receive_time transmit_time = (receive_time + 2 ^ 64 - transmit_time) % 2 ^ 64

-- `to_millis` is `(n as f64) / 1_000_000f64`.
module _ {U : Type 0} ⦃u : Default U⦄ {F : Type 0} (to_millis : ℕ → F) where
  -- The entries of the row of a result, with its four addresses.
  unfoldable pub ping_entries :
      ℕ → String → PingResult U → IpAddr → IpAddr → IpAddr → IpAddr → Row F
  unfolding insert
  ping_entries task_id client_id ping source destination meta_source meta_destination =
      let receive_time = PingResult.get_receive_time ping in
      let transmit_time = PingPayload.get_transmit_time (PingResult.get_payload ping) in
      insert "ttl" (integer (PingResult.get_ttl ping)) (
        insert "meta_destination_address" (ip_address meta_destination) (
          insert "meta_source_address" (ip_address meta_source) (
            insert "destination_address" (ip_address destination) (
              insert "source_address" (ip_address source) (
                insert "send_receive_time_diff"
                  (float (to_millis (time_diff receive_time transmit_time)))
                  (insert "receive_time" (integer receive_time) (
                    insert "transmit_time" (integer transmit_time) (
                      insert "client_id" (string client_id)
                        (insert "task_id" (integer task_id) [])))))))))

  -- The row of a result.
  unfoldable pub ping_row : ℕ → String → Result U → Outcome (Row F)
  ping_row task_id client_id result = do
    let ping = Result.get_ping result
    let payload = PingResult.get_payload ping
    source ← ip_addr_from (PingResult.get_source_address ping)
    destination ← ip_addr_from (PingResult.get_destination_address ping)
    meta_source ← ip_addr_from (PingPayload.get_source_address payload)
    meta_destination ← ip_addr_from (PingPayload.get_destination_address payload)
    value (ping_entries task_id client_id ping source destination meta_source meta_destination)

  unfoldable pub result_rows : ℕ → String → List (Result U) → Outcome (List (Row F))
  unfolding ping_row
  result_rows task_id client_id [] = value []
  result_rows task_id client_id (r ∷ rs) =
      let rest = result_rows task_id client_id rs in
      if Result.has_ping r
      then (do row ← ping_row task_id client_id r; rows ← rest; value (row ∷ rows))
      else rest

  unfoldable pub get_data : TaskResult U → Outcome (List (Row F))
  unfolding result_rows
  get_data tr =
      result_rows (TaskResult.get_task_id tr)
        (Metadata.get_hostname (Client.get_metadata (TaskResult.get_client tr)))
        (TaskResult.get_result_list tr)

abbrev pub get_headers : List String
get_headers =
    "task_id" ∷ "client_id" ∷ "transmit_time" ∷ "receive_time" ∷ "send_receive_time_diff"
    ∷ "source_address" ∷ "destination_address" ∷ "meta_source_address" ∷ "meta_destination_address"
    ∷ "ttl" ∷ []

-- A lookup as the readers give it: failed, or with the parts of an answer, each of which may be
-- missing.
pub data Transformer : Type 0 where
  ip2_country : String → String → (IpAddr → Option (Option (Option String))) → Transformer
  ip2_asn : String → String → (IpAddr → Option (Option ℕ)) → Transformer

abbrev pub source_of : Transformer → String
source_of (ip2_country source destination lookup) = source
source_of (ip2_asn source destination lookup) = source

abbrev pub destination_of : Transformer → String
destination_of (ip2_country source destination lookup) = destination
destination_of (ip2_asn source destination lookup) = destination

module _ {F : Type 0} where
  -- The value that a lookup gives for the column, if it gives one.
  found : Transformer → IpAddr → Option (RowData F)
  found (ip2_country source destination lookup) address = elim (lookup address) [
    | some (some (some iso_code)) ↦ some (string iso_code)
    | _ ↦ none
  ]
  found (ip2_asn source destination lookup) address = elim (lookup address) [
    | some (some number) ↦ some (integer number)
    | _ ↦ none
  ]

  enriched : Transformer → Row F → Option (RowData F)
  unfolding found
  enriched t row = elim (get (source_of t) row) [ some (ip_address a) ↦ found t a | _ ↦ none ]

  unfoldable pub transform : Transformer → Row F → Row F
  unfolding enriched
  transform t row = elim (enriched t row) [
    | some v ↦ insert (destination_of t) v row
    | none ↦ insert (destination_of t) (string "Unknown") row
  ]

abbrev pub add_header : Transformer → List String → List String
add_header t headers = headers ++ (destination_of t ∷ [])

-- ===== src/Cli/Measurement.antt =====
-- `perform_verfploeter_measurement` in src/cli/mod.rs: the request that it sends and the lines that
-- it prints. The parsed arguments and addresses are its inputs.
pub mod Lines
use verfploeter.Prelude.{
  ℕ, List, [], ◌∷◌, ◌++◌, Option, none, some, String, Default, Outcome, value, ◌>>=◌, map,
}
use verfploeter.Schema.Address
use verfploeter.Schema.Address.{Address}
use verfploeter.Schema.Client
use verfploeter.Schema.Metadata
use verfploeter.Schema.Ping
use verfploeter.Schema.ScheduleTask
use verfploeter.Schema.ScheduleTask.{ScheduleTask}
use verfploeter.Cli.Enrichment.{Row, RowData, get, Transformer, transform, add_header}
use verfploeter.Cli.Enrichment.Values.{new_ip2_country, new_ip2_asn}
use verfploeter.Schema.Convert.{IpAddr}

module _ {U : Type 0} ⦃u : Default U⦄ where
  unfoldable pub schedule_task : String → ℕ → List ℕ → ScheduleTask U
  schedule_task client_hostname source_ip ips =
      let ping =
        Ping.set_destination_addresses (map (λ ip. Address.set_v4 ip Address.new) ips)
          (Ping.set_source_address (Address.set_v4 source_ip Address.new) Ping.new) in
      let client =
        Client.set_metadata (Metadata.set_hostname client_hostname Metadata.new) Client.new in
      ScheduleTask.set_client client (ScheduleTask.set_ping ping ScheduleTask.new)

-- `maxminddb::Reader::open_readfile`, with the lookups in a database that opens.
pub record Databases : Type 0 where
  pub open_country : String → Option (IpAddr → Option (Option (Option String)))
  pub open_asn : String → Option (IpAddr → Option (Option ℕ))

-- The transformer of a database, if its path is given.
one_of : (String → Outcome Transformer) → Option String → Outcome (List Transformer)
one_of new none = value []
one_of new (some path) = new path >>= (λ t. value (t ∷ []))

-- A database that does not open panics.
unfoldable pub transform_pipeline :
    Databases → Option String → Option String → Outcome (List Transformer)
unfolding one_of
transform_pipeline db ip2country ip2asn = do
  countries ←
      one_of (new_ip2_country db.open_country "source_address" "source_address_country") ip2country
  networks ← one_of (new_ip2_asn db.open_asn "source_address" "source_address_asn") ip2asn
  value (countries ++ networks)

unfoldable pub pipeline_headers : List Transformer → List String → List String
pipeline_headers [] headers = headers
pipeline_headers (t ∷ ts) headers = pipeline_headers ts (add_header t headers)

module _ {F : Type 0} where
  unfoldable pub enrich : List Transformer → Row F → Row F
  enrich [] entry = entry
  enrich (t ∷ ts) entry = enrich ts (transform t entry)

  -- The fields between the commas of a line; a missing one is printed as nothing.
  unfoldable pub csv_line : List String → Row F → List (Option (RowData F))
  csv_line [] entry = []
  csv_line (header ∷ headers) entry = get header entry ∷ csv_line headers entry

-- ===== src/Cli/Enrichment/Values.antt =====
-- The values of a row in src/cli/enrichment/mod.rs: their conversions, and how they are printed and
-- serialized. The text of a number, of an f64 and of an address, and the serializer, are parameters.
use verfploeter.Prelude.{ℕ, String, Option, Outcome, value, ◌>>=◌, unwrap}
use verfploeter.Schema.Convert.{IpAddr}
use verfploeter.Cli.Enrichment.{
  RowData, string, integer, float, ip_address, Transformer, ip2_country, ip2_asn,
}

-- `Serializer`, with its result.
pub record Serializer (F S : Type 0) : Type 0 where
  pub serialize_str : String → S
  pub serialize_u64 : ℕ → S
  pub serialize_f64 : F → S

module _ {F : Type 0} where
  unfoldable pub serialize : {S : Type 0} → (IpAddr → String) → Serializer F S → RowData F → S
  serialize ip_text serializer (string d) = serializer.serialize_str d
  serialize ip_text serializer (integer i) = serializer.serialize_u64 i
  serialize ip_text serializer (float i) = serializer.serialize_f64 i
  serialize ip_text serializer (ip_address i) = serializer.serialize_str (ip_text i)

  unfoldable pub fmt : (ℕ → String) → (F → String) → (IpAddr → String) → RowData F → String
  fmt number_text float_text ip_text (string d) = d
  fmt number_text float_text ip_text (integer i) = number_text i
  fmt number_text float_text ip_text (float i) = float_text i
  fmt number_text float_text ip_text (ip_address i) = ip_text i

  abbrev pub from_string : String → RowData F
  from_string item = string item

  -- `data as u64`: every u32 is one.
  abbrev pub from_u32 : ℕ → RowData F
  from_u32 item = integer item

  abbrev pub from_ip_addr : IpAddr → RowData F
  from_ip_addr item = ip_address item

  abbrev pub from_u64 : ℕ → RowData F
  from_u64 item = integer item

  abbrev pub from_f64 : F → RowData F
  from_f64 item = float item

-- `open_readfile(..).expect(..)`: the lookups of the database, if it opens.
unfoldable pub new_ip2_country :
    (String → Option (IpAddr → Option (Option (Option String))))
    → String
    → String
    → String
    → Outcome Transformer
new_ip2_country open_readfile source destination path = do
  mmreader ← unwrap (open_readfile path)
  value (ip2_country source destination mmreader)

unfoldable pub new_ip2_asn :
    (String → Option (IpAddr → Option (Option ℕ))) → String → String → String → Outcome Transformer
new_ip2_asn open_readfile source destination path = do
  mmreader ← unwrap (open_readfile path)
  value (ip2_asn source destination mmreader)

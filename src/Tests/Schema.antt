-- ===== src/Tests/Schema.antt =====
-- The theorems of Schema at concrete messages.
use verfploeter.Prelude.{
  ℕ, ◌≡◌, ◌≢◌, ◌↔◌, ◌⊎◌, ◌≤◌, ◌<◌, ◌++◌, refl, List, [], ◌∷◌, some, value, panic, arith, length,
  drop, replicate,
}
use verfploeter.Schema.Wire
use verfploeter.Schema.Address
use verfploeter.Schema.Address.{Address, v4, v6}
use verfploeter.Schema.Address.RoundTrip.{IsAddress}
use verfploeter.Schema.PingPayload
use verfploeter.Schema.PingPayload.{PingPayload}
use verfploeter.Schema.PingPayload.RoundTrip.{IsPingPayload, merge_from-write_to}
use verfploeter.Schema.PingPayload.Termination.{merge_from-ne-out_of_fuel}
use verfploeter.Schema.Signed.{ok, to_signed_bytes, from_signed_bytes}
use verfploeter.Schema.Signed.Authentic.{from_signed_bytes-to_signed_bytes, from_signed_bytes-ok}
use verfploeter.Schema.Convert.{ip_v6, ip_addr_from, ip_addr_from-cases}
use verfploeter.Tests.Crates.Wire.{format, format-IsProtobuf, unit_default}
use verfploeter.Tests.Crates.Reader.{format-IsReader}
use verfploeter.Tests.Crates.Mac.{sum_mac, sum_mac-IsMac}

-- 10.0.0.1, and an address of three bytes.
abbrev pub address : Address (Unit {0})
address = record { value = some (v4 167772161); unknown_fields = tt }

abbrev pub short_v6 : Address (Unit {0})
short_v6 = record { value = some (v6 (1 ∷ 2 ∷ 3 ∷ [])); unknown_fields = tt }

pub address-IsAddress : IsAddress address
address-IsAddress = (omega arith, refl)

pub short_v6-IsAddress : IsAddress short_v6
short_v6-IsAddress = (omega arith, refl)

-- The payload of task 300, sent from `address` to `short_v6`.
abbrev pub payload : PingPayload (Unit {0})
payload = record {
  task_id = 300;
  transmit_time = 1234567;
  source_address = some address;
  destination_address = some short_v6;
  unknown_fields = tt;
}

pub payload-IsPingPayload : IsPingPayload payload
payload-IsPingPayload = record {
  task_id = omega arith;
  transmit_time = omega arith;
  source_address = address-IsAddress;
  destination_address = short_v6-IsAddress;
  unknown_fields = refl;
}

merge_from-write_to_example :
    PingPayload.merge_from format PingPayload.new (PingPayload.write_to format payload)
    ≡ Wire.ok payload
merge_from-write_to_example =
    merge_from-write_to format format-IsProtobuf payload payload-IsPingPayload

from_signed_bytes-to_signed_bytes_example :
    (bytes : List ℕ) × (to_signed_bytes format sum_mac payload "key" ≡ ok bytes)
    × (from_signed_bytes format sum_mac "key" bytes ≡ ok payload)
from_signed_bytes-to_signed_bytes_example =
    from_signed_bytes-to_signed_bytes format sum_mac sum_mac-IsMac format-IsProtobuf payload "key" 7
      payload-IsPingPayload refl

-- The bytes of the payload and their code.
abbrev signed : List ℕ
signed =
    PingPayload.write_to format payload
    ++ sum_mac.code (sum_mac.input 7 (PingPayload.write_to format payload))

from_signed_bytes-ok_example : (from_signed_bytes format sum_mac "key" signed ≡ ok payload) ↔ (
    (value : List ℕ) × (signed ≡ value ++ sum_mac.code (sum_mac.input 7 value))
    × (PingPayload.merge_from format PingPayload.new value ≡ Wire.ok payload))
from_signed_bytes-ok_example =
    from_signed_bytes-ok format sum_mac sum_mac-IsMac "key" 7 signed payload refl

ip_addr_from-cases_example :
    ((length (Address.get_v6 short_v6) ≤ 16)
      × (ip_addr_from short_v6
          ≡ value (
              ip_v6 (
                Address.get_v6 short_v6
                ++ drop (length (Address.get_v6 short_v6)) (replicate 16 0)))))
    ⊎ ((16 < length (Address.get_v6 short_v6)) × (ip_addr_from short_v6 ≡ panic))
ip_addr_from-cases_example = ip_addr_from-cases short_v6 refl

-- A tag without its value.
merge_from-ne-out_of_fuel_example :
    PingPayload.merge_from format PingPayload.new (8 ∷ []) ≢ Wire.out_of_fuel
merge_from-ne-out_of_fuel_example =
    merge_from-ne-out_of_fuel format format-IsReader PingPayload.new (8 ∷ [])

-- ===== src/Client/Outbound/Echo.antt =====
-- From a request of ping_outbound.rs over the echoing host to the result of ping_inbound.rs.
use verfploeter.Prelude.{ℕ, ◌+◌, ◌≡◌, List, [], ◌∷◌, ◌++◌, some, Default, value, arith, get_or}
use verfploeter.Net.Cursor.{ByteOrder, IsByteOrder}
use verfploeter.Net.Packet.{Icmp4Packet, Ipv4Packet, icmp_v4, ipv4_from, to_bytes}
use verfploeter.Net.Packet.Layout.{
  InRange, icmp_from-to_bytes, IsIcmpHeader, ipv4_from-append, u32_at,
}
use verfploeter.Schema.Wire.{Protobuf, IsProtobuf}
use verfploeter.Schema.Convert.{address_from}
use verfploeter.Schema.PingPayload.{PingPayload}
use verfploeter.Schema.PingPayload.RoundTrip.{IsPingPayload}
use verfploeter.Schema.Result.{Result, ping}
use verfploeter.Schema.Signed.{HmacSha256, IsMac, ok, from_signed_bytes}
use verfploeter.Schema.Signed.Authentic.{from_signed_bytes-signed}
use verfploeter.Client.Inbound.{State, process_packet, secret}
use verfploeter.Client.Outbound.Counting.{signed_bytes}

-- The packet that a datagram with the header and the echo is read as.
abbrev pub echo_packet : List ℕ → Icmp4Packet → Ipv4Packet
echo_packet header echo = record {
  ttl = get_or header 8 0;
  source_address = u32_at header 12;
  destination_address = u32_at header 16;
  payload = icmp_v4 echo;
}

module _ {U : Type 0} ⦃u : Default U⦄ where
  -- The result of an echo of `payload` in a datagram with the header, received at a time.
  unfoldable pub echo_result : ℕ → List ℕ → PingPayload U → Result U
  echo_result receive_time header payload = record {
    value = some (
        ping (record {
          source_address = some (address_from (u32_at header 12));
          destination_address = some (address_from (u32_at header 16));
          receive_time = receive_time;
          payload = some payload;
          ttl = get_or header 8 0;
          unknown_fields = u.default;
        }));
    unknown_fields = u.default;
  }

  -- One more valid packet, and its result at the end of the queue.
  abbrev pub processed : State U → List (Result U) → Result U → State U
  processed s rq r = record s {
    packets_processed_valid = s.packets_processed_valid + 1;
    result_queue = some (rq ++ (r ∷ []));
  }

module _ {U : Type 0} ⦃u : Default U⦄ (b : ByteOrder) (w : Protobuf U) (h : HmacSha256) where
  process_packet-signed :
      (receive_time : ℕ) (header : List ℕ) (echo : Icmp4Packet) (payload : PingPayload U)
      (s : State U) (rq : List (Result U))
      → from_signed_bytes w h secret echo.body ≡ ok payload
      → s.result_queue ≡ some rq
      → process_packet w h (receive_time, echo_packet header echo) s
        ≡ processed s rq (echo_result receive_time header payload)
  unfolding process_packet echo_result
  process_packet-signed receive_time header echo payload s rq signed queue = ground arith

  -- A datagram of an ICMP header and a packet whose body is the signed bytes of a payload is read
  -- without a panic, and processing it counts one valid packet and queues one result, which carries
  -- the payload, the header's addresses and time to live and the time. The header may have options,
  -- the packet's fields and the payload's are in range, the key is accepted, and the queue is
  -- there.
  pub process_packet-echo :
      (order : IsByteOrder b) (proto : IsProtobuf w) (law : IsMac h) (mac : h.Mac)
      → h.new_varkey secret ≡ some mac
      → (header : List ℕ) (echo : Icmp4Packet) (payload : PingPayload U) (receive_time : ℕ)
        (s : State U) (rq : List (Result U))
      → IsIcmpHeader header
      → InRange echo
      → echo.body ≡ signed_bytes w h mac payload
      → IsPingPayload payload
      → s.result_queue ≡ some rq
      → (packet : Ipv4Packet) × (ipv4_from b (header ++ to_bytes b echo) ≡ value packet)
        × (process_packet w h (receive_time, packet) s
            ≡ processed s rq (echo_result receive_time header payload))
  unfolding signed_bytes
  process_packet-echo order proto law mac key header echo payload receive_time s rq ip range body
        valid queue =
      (
        echo_packet header echo,
        ipv4_from-append b order header (to_bytes b echo) echo ip
            (icmp_from-to_bytes b order echo range),
        process_packet-signed receive_time header echo payload s rq
            (rw body (from_signed_bytes-signed w h law proto payload secret mac valid key)) queue,
      )

-- ===== src/Schema/ClientList/RoundTrip.antt =====
-- The size of a list of clients, and reading back what it writes.
use verfploeter.Prelude.{
  ◌<◌, ◌^◌, ◌≡◌, refl, sym, ap, List, [], Default, length, length-append, arith, All,
}
use verfploeter.Schema.Wire.{Protobuf, IsProtobuf, ok, wire_type_length_delimited}
use verfploeter.Schema.Wire.Loop.{Reads-nil}
use verfploeter.Schema.Wire.Sizes.{Counts, Counts-repeated, Counts-unknown}
use verfploeter.Schema.Wire.Fields.{Merges}
use verfploeter.Schema.Wire.Nested.{Codec, Merges-repeated}
use verfploeter.Schema.Client
use verfploeter.Schema.Client.{Client}
use verfploeter.Schema.Client.RoundTrip.{IsClient, Client-compute_size, Client-Codec}
use verfploeter.Schema.ClientList.{
  ClientList, new, compute_size, write_to, merge_field, merge_from, clients_size, write_clients,
}

-- The values fit their fields, and there are no unknown fields.
pub record IsClientList {U : Type 0} ⦃u : Default U⦄ (m : ClientList U) : Type 0 where
  pub clients : All IsClient m.clients
  pub unknown_fields : m.unknown_fields ≡ u.default

module _ {U : Type 0} ⦃u : Default U⦄ (w : Protobuf U) (h : IsProtobuf w) where
  -- `compute_size` is the number of bytes that are written, in 32 bits.
  pub ClientList-compute_size :
      (m : ClientList U) → Counts (compute_size w m) (length (write_to w m))
  unfolding compute_size write_to
  ClientList-compute_size m =
      let s1 =
        Counts-repeated w h (Client.compute_size w) (Client.write_to w) (Client-compute_size w h) 1
          (clients_size w) (write_clients w) (omega arith) (omega arith)
          (λ size. unfold clients_size in refl) (λ size a more. unfold clients_size in refl)
          (unfold write_clients in refl) (λ a more. unfold write_clients in refl) m.clients 0 0
          (omega arith) in
      let all = Counts-unknown w h m.unknown_fields _ _ s1 in rw length-append (omega arith)

  at : List (Client U) → ClientList U
  at clients = record { clients = clients; unknown_fields = u.default }

  write_to-Merges :
      (clients : List (Client U))
      → All IsClient clients
      → Merges w h (merge_field w) new (write_to w (at clients)) (at clients)
  unfolding at write_to merge_field
  write_to-Merges clients clients_fits = rw h.no_unknown_fields (
      Merges-repeated w h (merge_field w) (Client-Codec w h) 1 (write_clients w) (λ v. at v) _ _
        (omega arith) (omega arith) (unfold write_clients in refl)
        (λ a more. unfold write_clients in refl)
        (λ done. λ is.
          rw (h.read_tag 1 wire_type_length_delimited is (omega arith) (omega arith) (omega arith)))
        [] clients clients_fits (λ bound. Reads-nil (merge_field w) _))

  at-eq : (m : ClientList U) → m.unknown_fields ≡ u.default → at m.clients ≡ m
  unfolding at
  at-eq m e = ap (λ fields. record m { unknown_fields = fields }) (sym e)

  -- A list of clients whose values fit their fields, without unknown fields, reads back from the
  -- bytes that it writes, if these are fewer than 2^32.
  pub ClientList-merge_from :
      (m : ClientList U)
      → IsClientList m
      → length (write_to w m) < 2 ^ 32
      → merge_from w new (write_to w m) ≡ ok m
  unfolding merge_from
  ClientList-merge_from m fits =
      rw (← at-eq m fits.unknown_fields)
        (λ bound. write_to-Merges m.clients fits.clients bound _ (omega arith))

  pub ClientList-Codec : Codec IsClientList new (compute_size w) (write_to w) (merge_from w)
  ClientList-Codec = record { size = ClientList-compute_size; round = ClientList-merge_from }

-- ===== src/Schema/Display.antt =====
-- `impl fmt::Display for TaskResult` in src/schema/mod.rs. What it writes is a list: a line of
-- fields, which the separator `|` joins, or a line break.
use verfploeter.Prelude.{
  ℕ, List, [], ◌∷◌, ◌++◌, String, Bool, true, false, Default, Outcome, value, ◌>>=◌, if◌then◌else◌,
}
use verfploeter.Schema.Client
use verfploeter.Schema.Metadata
use verfploeter.Schema.PingPayload
use verfploeter.Schema.PingResult
use verfploeter.Schema.PingResult.{PingResult}
use verfploeter.Schema.Result
use verfploeter.Schema.Result.{Result}
use verfploeter.Schema.TaskResult
use verfploeter.Schema.TaskResult.{TaskResult}
use verfploeter.Schema.Convert.{IpAddr, ip_addr_from}

pub data Piece : Type 0 where
  -- The task, the client, and the addresses of the reply and of its payload.
  ping_line : ℕ → String → IpAddr → IpAddr → IpAddr → IpAddr → Piece
  unsupported_result : ℕ → String → Piece
  line_break : Piece

module _ {U : Type 0} ⦃u : Default U⦄ where
  unfoldable pub fmt_ping : ℕ → String → PingResult U → Outcome Piece
  fmt_ping task_id client_id ping = do
    source ← ip_addr_from (PingResult.get_source_address ping)
    destination ← ip_addr_from (PingResult.get_destination_address ping)
    meta_source ← ip_addr_from (PingPayload.get_source_address (PingResult.get_payload ping))
    meta_destination ←
        ip_addr_from (PingPayload.get_destination_address (PingResult.get_payload ping))
    value (ping_line task_id client_id source destination meta_source meta_destination)

  unfoldable pub fmt_result : ℕ → String → Result U → Outcome (List Piece)
  unfolding fmt_ping
  fmt_result task_id client_id result =
      if Result.has_ping result
      then (fmt_ping task_id client_id (Result.get_ping result) >>= (λ p. value (p ∷ [])))
      else value (unsupported_result task_id client_id ∷ line_break ∷ [])

  -- `for (idx, result) in ...enumerate()`: the first line has no break before it.
  unfoldable pub fmt_results : ℕ → String → Bool → List (Result U) → Outcome (List Piece)
  unfolding fmt_result
  fmt_results task_id client_id first [] = value []
  fmt_results task_id client_id first (r ∷ rs) = do
    line ← fmt_result task_id client_id r
    rest ← fmt_results task_id client_id false rs
    value ((if first then [] else line_break ∷ []) ++ (line ++ rest))

  unfoldable pub fmt : TaskResult U → Outcome (List Piece)
  unfolding fmt_results
  fmt m =
      fmt_results (TaskResult.get_task_id m)
        (Metadata.get_hostname (Client.get_metadata (TaskResult.get_client m))) true
        (TaskResult.get_result_list m)

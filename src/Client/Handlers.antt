-- ===== src/Client/Handlers.antt =====
-- src/client/handlers/mod.rs: the time that the handlers stamp packets with.
use verfploeter.Prelude.{ℕ, ◌%◌, ◌^◌, Option, Outcome, value, ◌>>=◌, unwrap}

-- `SystemTime::now().duration_since(UNIX_EPOCH)` is given in nanoseconds, and missing for a clock
-- that is before the epoch; `as u64` wraps.
unfoldable pub current_timestamp : Option ℕ → Outcome ℕ
current_timestamp since = do nanos ← unwrap since; value (nanos % 2 ^ 64)

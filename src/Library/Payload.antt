-- ===== src/Library/Payload.antt =====
-- Event payloads as internal/library/queue.go reads them: only the three numeric dynamic types
-- count, and everything else, a missing key included, is 0.
use Prim.Native.String.{String}
use fetch_bilibili.Prelude.{Option, some}
use fetch_bilibili.Prelude.Int.{ℤ, pos}
use fetch_bilibili.Repo.Payload.{Value, Payload, int64, int, float64, lookup}

abbrev numeric : Option Value → ℤ
numeric (some (int64 z)) = z
numeric (some (int z)) = z
numeric (some (float64 z)) = z
numeric _ = pos 0

unfoldable pub payload_int64 : Payload → String → ℤ
payload_int64 payload key = numeric (lookup key payload)

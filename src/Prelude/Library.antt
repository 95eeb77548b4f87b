-- ===== src/Prelude/Library.antt =====
-- What the code takes of Go's standard library for texts: `strings.TrimSpace`, `strings.ToLower`,
-- `net.SplitHostPort` without its error text, and the number of `strconv.Atoi`. They know Unicode
-- and address syntax, of which no property here depends on more than the fields say.
use Prim.Native.Nat.{ℕ}
use mathlib.Core.Option.{Option}
use meow_frp_server.Prelude.Text.{Bytes}

pub record TextLibrary : Type 0 where
  pub trim_space : Bytes → Bytes
  pub to_lower : Bytes → Bytes
  pub split_host_port : Bytes → Option (Bytes × Bytes)
  pub atoi : Bytes → ℕ

-- ===== src/Prelude/Words.antt =====
-- `int64` as its bit pattern below 2 ^ 64.
use Prim.Native.Nat.{ℕ, ◌+◌, ◌%◌, ◌^◌, ◌<◌}
use mathlib.Core.Bool.{Bool, ◌||◌}
use mathlib.Core.Path.{◌≡◌}
use native.Mathlib.Omega.{arith}
use Prim.Native.Nat.{◌-◌}
use Prim.Native.String.{String, ◌++◌ as ◌<>◌}
use romd_dat_catalogs.Prelude.Equality.{ltb, leb, if◌then◌else◌}
use romd_dat_catalogs.Prelude.Text.{decimal}

-- `n + 1`, which wraps.
unfoldable pub next64 : ℕ → ℕ
next64 n = (n + 1) % 2 ^ 64

-- `n < 1`: zero or negative.
unfoldable pub below_one64 : ℕ → Bool
below_one64 n = ltb n 1 || leb (2 ^ 63) n

-- `%d`
unfoldable pub signed_decimal : ℕ → String
signed_decimal n = if ltb n (2 ^ 63) then decimal n else "-" <> decimal (2 ^ 64 - n)

pub next64-eq : (n : ℕ) → n < 2 ^ 63 → next64 n ≡ n + 1
unfolding next64
next64-eq n h = omega arith

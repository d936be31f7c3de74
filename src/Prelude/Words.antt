-- ===== src/Prelude/Words.antt =====
-- `u8` arithmetic, with the wrap-around of a release build written out.
use Prim.Native.Nat.{ℕ, ◌+◌, ◌-◌, ◌%◌}

unfoldable pub add_u8 : ℕ → ℕ → ℕ
add_u8 a b = (a + b) % 256

unfoldable pub sub_u8 : ℕ → ℕ → ℕ
sub_u8 a b = (a + 256 - b) % 256

-- `n as u8`
unfoldable pub as_u8 : ℕ → ℕ
as_u8 n = n % 256

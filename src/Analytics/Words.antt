-- ===== src/Analytics/Words.antt =====
-- The 64-bit columns of the data frames: two's complement, differences wrap around.
use Prim.Native.Nat.{◌%◌}
use supply_chain_integration.Base.{ℕ, ◌-◌, ◌^◌, ◌≡◌, Bool, true, ltb, if◌then◌else◌, arith}
use supply_chain_integration.Base.Int.{ℤ, pos, negsuc}

-- A column of `int64` can hold it.
abbrev pub fits_int64 : ℤ → Bool
fits_int64 (pos n) = ltb n (2 ^ 63)
fits_int64 (negsuc n) = ltb n (2 ^ 63)

abbrev bits : ℤ → ℕ
bits (pos n) = n % 2 ^ 64
bits (negsuc n) = 2 ^ 64 - 1 - n % 2 ^ 64

abbrev signed : ℕ → ℤ
signed w = if ltb w (2 ^ 63) then pos w else negsuc (2 ^ 64 - 1 - w)

-- The number that the column then holds.
unfoldable pub wrap64 : ℤ → ℤ
wrap64 z = signed (bits z)

-- What fits is held as it is.
pub wrap64-fits : (z : ℤ) → fits_int64 z ≡ true → wrap64 z ≡ z
unfolding wrap64
wrap64-fits (pos n) h = ground arith
wrap64-fits (negsuc n) h = ground arith

-- ===== src/Credits/Credit.antt =====
-- The amount type `Credit` (src/credits/credit.ts): an integer count of nano-dollars, which a
-- JavaScript number holds. Dollars, which are floating-point, are not modelled.
use Prim.Native.Nat.{◌*◌, ◌/◌}
use platform_core.Base.{ℕ, suc, Bool, ◌&&◌, leb, if◌then◌else◌}
use platform_core.Base.Int.{ℤ, pos, negsuc, pos_part, neg_part, ◌+ℤ◌, ◌-ℤ◌, ltb_ℤ, eqb_ℤ}
use platform_core.Credits.Types.{Result, ok, err, Error}

-- `Number.MAX_SAFE_INTEGER`.
abbrev pub max_safe : ℕ
max_safe = 9_007_199_254_740_991

-- `Credit.SCALE`: raw units in a dollar.
abbrev pub scale : ℕ
scale = 1_000_000_000

abbrev pub raw_per_cent : ℕ
raw_per_cent = 10_000_000

-- `Number.isSafeInteger`.
abbrev pub is_safe : ℤ → Bool
is_safe a = leb (pos_part a) max_safe && leb (neg_part a) max_safe

unfoldable pub from_raw : ℤ → Result ℤ
from_raw raw = if ltb_ℤ (pos max_safe) raw then err Error.range_error else ok raw

-- `fromCents` and `fromDollars` at a whole number.
unfoldable pub from_cents : ℤ → ℤ
from_cents (pos n) = pos (n * raw_per_cent)
from_cents (negsuc n) = pos 0 -ℤ pos (suc n * raw_per_cent)

unfoldable pub from_dollars : ℕ → ℤ
from_dollars n = pos (n * scale)

-- `Math.floor(raw / (SCALE / 100))`.
unfoldable pub to_cents_floor : ℤ → ℤ
to_cents_floor (pos n) = pos (n / raw_per_cent)
to_cents_floor (negsuc n) = negsuc (n / raw_per_cent)

unfoldable pub checked : ℤ → Result ℤ
checked result = if is_safe result then ok result else err Error.range_error

unfoldable pub add : ℤ → ℤ → Result ℤ
unfolding checked
add a b = checked (a +ℤ b)

unfoldable pub subtract : ℤ → ℤ → Result ℤ
unfolding checked
subtract a b = checked (a -ℤ b)

-- `multiply` at a whole factor.
unfoldable pub multiply : ℤ → ℕ → Result ℤ
unfolding checked
multiply (pos n) factor = checked (pos (n * factor))
multiply (negsuc n) factor = checked (pos 0 -ℤ pos (suc n * factor))

abbrev pub is_negative : ℤ → Bool
is_negative a = ltb_ℤ a (pos 0)

abbrev pub is_zero : ℤ → Bool
is_zero a = eqb_ℤ a (pos 0)

abbrev pub greater_than : ℤ → ℤ → Bool
greater_than a b = ltb_ℤ b a

abbrev pub less_than : ℤ → ℤ → Bool
less_than a b = ltb_ℤ a b

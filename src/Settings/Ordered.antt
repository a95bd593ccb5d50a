-- ===== src/Settings/Ordered.antt =====
-- app/static/js/settings.js, `compareVersions`: newer than is an order.
use fetchly.Common.{zero, suc, Bool, true, false}
use fetchly.Common.Int.{ℤ, pos, negsuc}
use fetchly.Ecma.{Ecma}

-- The other way round.
abbrev pub opposite : ℤ → ℤ
opposite (pos zero) = pos zero
opposite (pos (suc n)) = negsuc n
opposite (negsuc n) = pos (suc n)

abbrev is_zero : ℤ → Bool
is_zero (pos zero) = true
is_zero _ = false

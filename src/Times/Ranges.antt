-- ===== src/Times/Ranges.antt =====
-- app/static/js/utils.js: what a normalized time range is.
use fetchly.Common.{ℕ, ◌+◌, ◌*◌, ◌≡◌, refl, ◌<◌, ◌≤◌, arith}
use fetchly.Common.Int.{pos, negsuc}
use fetchly.Ecma.{Number, nan, infinite, finite}
use fetchly.Times.{
  clamp, snap_time, snap_range, normalize_time_range, duration_parts, snap_interval,
}

clamp-le : (v : Number) (low high : ℕ) → low ≤ high → clamp v low high ≤ high
unfolding clamp
clamp-le nan low high h = h
clamp-le (infinite _) low high h = h
clamp-le (finite (pos n)) low high h = omega arith
clamp-le (finite (negsuc n)) low high h = omega arith

-- Snapping keeps the order of two times.
snap_time_mono :
    (a b : ℕ)
    → a ≤ b
    → snap_time (finite (pos a)) snap_interval ≤ snap_time (finite (pos b)) snap_interval
unfolding snap_time
snap_time_mono a b h = omega arith

abbrev IsRange : ℕ → ℕ × ℕ → Type 0
IsRange d (s, e) = (s < e) × (e ≤ d)

snap_range-IsRange : (d low high : ℕ) → 0 < d → low ≤ high → IsRange d (snap_range d low high)
unfolding snap_range clamp
snap_range-IsRange d low high h ordered = ground (arith, snap_time_mono low high ordered)

-- For a positive duration, whatever the two times are, also if they are no finite numbers, the range
-- that `normalizeTimeRange` gives is not empty and lies within the duration.
pub range_is_proper :
    (start end : Number) (d : ℕ)
    → 0 < d
    → (let (s, e) = normalize_time_range start end (finite (pos d)) in (s < e) × (e ≤ d))
unfolding normalize_time_range
range_is_proper start end d h =
    let s = clamp start 0 d in
    let e = clamp end 0 d in ground (arith, snap_range-IsRange d e s h, snap_range-IsRange d s e h)

-- The order in which `normalizeTimeRange` is given the two times does not matter, whatever they and the
-- duration are.
pub range_swaps :
    (start end duration : Number)
    → normalize_time_range start end duration ≡ normalize_time_range end start duration
unfolding normalize_time_range
range_swaps start end nan = refl
range_swaps start end (infinite _) = refl
range_swaps start end (finite (negsuc _)) = refl
range_swaps start end (finite (pos d)) = ground arith

-- The parts of a length of time add up to it, and minutes and seconds are less than sixty.
pub duration_parts_lem :
    (total : ℕ)
    → (let (h, m, s) = duration_parts total in
        (h * 3600 + m * 60 + s ≡ total) × (m < 60) × (s < 60))
unfolding duration_parts
duration_parts_lem total = (omega arith, omega arith, omega arith)

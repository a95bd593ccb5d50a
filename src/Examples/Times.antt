-- ===== src/Examples/Times.antt =====
-- Tests of Times: ranges of the trim dialog and its runs.
use fetchly.Common.{◌≡◌, refl, ◌<◌, ◌≤◌, [], ◌∷◌, true, Dict, ℕ, arith}
use fetchly.Common.Int.{pos}
use fetchly.Ecma.{nan, infinite, finite}
use fetchly.Times.{normalize_time_range, snap_range, snap_time, clamp}
use fetchly.Times.Ranges.{range_is_proper}

-- Both handles at the end of 0.8 seconds: the start of the result is no multiple of the interval.
at_the_end : normalize_time_range (finite (pos 800_000)) nan (finite (pos 800_000)) ≡ (0, 800_000)
unfolding normalize_time_range snap_range snap_time clamp
at_the_end = refl

both_at_the_end :
    normalize_time_range (finite (pos 800_000)) (infinite true) (finite (pos 800_000))
    ≡ (0, 800_000)
unfolding normalize_time_range snap_range snap_time clamp
both_at_the_end = refl

off_the_grid :
    normalize_time_range (finite (pos 800_000)) (finite (pos 900_000)) (finite (pos 800_000))
    ≡ (300_000, 800_000)
unfolding normalize_time_range snap_range snap_time clamp
off_the_grid = refl

range_is_proper_example :
    (let (s, e) =
        normalize_time_range (finite (pos 800_000)) (finite (pos 900_000)) (finite (pos 800_000)) in
      (s < e) × (e ≤ 800_000))
range_is_proper_example =
    range_is_proper (finite (pos 800_000)) (finite (pos 900_000)) 800_000 (omega arith)

abbrev runs : Dict ℕ
runs = ("vocals", 4) ∷ ("drums", 5) ∷ []

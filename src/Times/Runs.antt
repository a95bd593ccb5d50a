-- ===== src/Times/Runs.antt =====
-- app/static/js/utils.js: a run of the trim dialog that ends after another one has taken its stem.
use fetchly.Common.{
  ℕ, String, ◌≡◌, ◌&&◌, none, if◌then◌else◌, ◌==◌, Dict, lookup, lookup-delete, arith,
}
use fetchly.Times.{release_lalal_run, owns}

-- A run frees its stem exactly if it holds it; a later run of the stem, and the runs of every other
-- stem, keep theirs.
pub release_exact :
    (runs : Dict ℕ) (stem other : String) (run : ℕ)
    → (let (after, released) = release_lalal_run runs stem run in
        (released ≡ owns (lookup stem runs) run)
        × (lookup other after ≡ (if released && stem == other then none else lookup other runs)))
unfolding release_lalal_run
release_exact runs stem other run = ground (arith, lookup-delete stem other runs)

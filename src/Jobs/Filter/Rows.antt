-- ===== src/Jobs/Filter/Rows.antt =====
-- app/static/js/jobs.js: the rows after `applyStoredJobTitleFilter`.
use fetchly.Common.{
  String, ◌≡◌, refl, Bool, true, false, not, ◌&&◌, List, [], ◌∷◌, ◌==◌, if◌then◌else◌, contains,
  arith, map, Distinct, eq_iff, Bool-cases, inl, inr, eq_cases, eq_self, ◌∙◌, subst, some,
}
use fetchly.Ecma.{Ecma, Object}
use fetchly.Jobs.Update.{get_job_id}
use fetchly.Jobs.Surface.{
  Surface, Node, row, placeholder, has_row, is_hidden, toggle_row, toggle_node,
}
use fetchly.Jobs.State.{ids, find_job}
use fetchly.Jobs.Filter.{same_bool, collect_changes, apply_changes}

module _ (js : Ecma) where
  -- Toggling the row of one job.
  is_hidden-toggle :
      (k j : String) (hide : Bool) (cs : List Node)
      → is_hidden js j (map (toggle_node js k hide) cs)
        ≡ (if k == j && has_row js k cs then hide else is_hidden js j cs)
  unfolding is_hidden has_row
  is_hidden-toggle k j hide [] = ground arith
  is_hidden-toggle k j hide (placeholder ∷ cs) = is_hidden-toggle k j hide cs
  is_hidden-toggle k j hide (row job h ∷ cs) = ground (
    arith,
    is_hidden-toggle k j hide cs,
    eq_iff k j,
    eq_iff (get_job_id js job) k,
    eq_iff (get_job_id js job) j,
  )

  has_row-toggle :
      (k j : String) (hide : Bool) (cs : List Node)
      → has_row js j (map (toggle_node js k hide) cs) ≡ has_row js j cs
  unfolding has_row
  has_row-toggle k j hide [] = refl
  has_row-toggle k j hide (placeholder ∷ cs) = has_row-toggle k j hide cs
  has_row-toggle k j hide (row job h ∷ cs) = ground (arith, has_row-toggle k j hide cs)

  -- The row of `j` after the changes that a list of jobs gives, from the surface `s` on which they
  -- were collected; `base` is what holds where no change is collected.
  verdict : (Object → Bool) → String → List Object → Surface → Bool → Bool
  verdict hides j [] s base = base
  verdict hides j (job ∷ jobs) s base =
      if get_job_id js job == j
        && (contains j s.nodes
            && (not (same_bool (hides job) (is_hidden js j s.children)) && has_row js j s.children))
      then hides job
      else verdict hides j jobs s base

  verdict_miss :
      (hides : Object → Bool) (j : String) (jobs : List Object) (s : Surface) (base : Bool)
      → contains j (ids js jobs) ≡ false
      → verdict hides j jobs s base ≡ base
  unfolding verdict
  verdict_miss hides j [] s base h = refl
  verdict_miss hides j (job ∷ jobs) s base h = ground (arith, verdict_miss hides j jobs s base)

  -- Surfaces with the same tracked ids and rows.
  record SameRows (s t : Surface) : Type 0 where
    nodes : t.nodes ≡ s.nodes
    rows : (j : String) → has_row js j t.children ≡ has_row js j s.children

  toggle_row-SameRows :
      (k : String) (hide : Bool) (s t : Surface)
      → SameRows s t
      → SameRows s (toggle_row js k hide t)
  unfolding toggle_row
  toggle_row-SameRows k hide s t m = record {
    nodes = ground (arith, m.nodes);
    rows = λ j. ground (arith, m.rows j, has_row-toggle k j hide t.children);
  }

  is_hidden-toggle_row :
      (k j : String) (hide : Bool) (t : Surface)
      → is_hidden js j (toggle_row js k hide t).children ≡ (
          if contains k t.nodes && (k == j && has_row js k t.children)
          then hide
          else is_hidden js j t.children)
  unfolding toggle_row
  is_hidden-toggle_row k j hide t = ground (arith, is_hidden-toggle k j hide t.children)

  module _ (hides : Object → Bool) (k : String) (job : Object) (jobs : List Object)
      (s t : Surface) where
    abbrev differs : Bool
    differs = not (same_bool (hides job) (is_hidden js k s.children))

    -- The job's own row, which no later change touches.
    verdict_own :
        (b : Bool)
        → contains k (ids js jobs) ≡ false
        → SameRows s t
        → (contains k s.nodes && differs) ≡ b
        → verdict hides k jobs s
            (is_hidden js k (if b then toggle_row js k (hides job) t else t).children)
          ≡ (if contains k s.nodes && (differs && has_row js k s.children)
              then hides job
              else verdict hides k jobs s (is_hidden js k t.children))
    verdict_own b h m e =
        rw (verdict_miss hides k jobs s _ h, verdict_miss hides k jobs s _ h)
          (ground (arith, is_hidden-toggle_row k k (hides job) t, eq_self k, m.nodes, m.rows k))

    verdict_other :
        (j : String) (b : Bool)
        → (k == j) ≡ false
        → verdict hides j jobs s
            (is_hidden js j (if b then toggle_row js k (hides job) t else t).children)
          ≡ verdict hides j jobs s (is_hidden js j t.children)
    verdict_other j true h = rw (is_hidden-toggle_row k j (hides job) t) (ground arith)
    verdict_other j false h = refl

    abbrev VerdictStep : Bool → String → Type 0
    VerdictStep b j =
        verdict hides j jobs s
          (is_hidden js j (if b then toggle_row js k (hides job) t else t).children)
        ≡ (if k == j
              && (contains j s.nodes
                  && (not (same_bool (hides job) (is_hidden js j s.children))
                      && has_row js j s.children))
            then hides job
            else verdict hides j jobs s (is_hidden js j t.children))

    verdict_step :
        (j : String) (b : Bool)
        → contains k (ids js jobs) ≡ false
        → SameRows s t
        → (contains k s.nodes && differs) ≡ b
        → VerdictStep b j
    verdict_step j b h m e = elim (eq_cases k j) [
      | inl (_, p) ↦ subst (VerdictStep b) p (rw (eq_self k) (verdict_own b h m e))
      | inr (miss, _) ↦ rw miss (verdict_other j b miss)
    ]

  is_hidden-apply_changes :
      (hides : Object → Bool) (j : String) (jobs : List Object) (s t : Surface)
      → Distinct (ids js jobs)
      → SameRows s t
      → is_hidden js j (apply_changes js (collect_changes js hides jobs s) t).children
        ≡ verdict hides j jobs s (is_hidden js j t.children)
  unfolding collect_changes apply_changes verdict
  is_hidden-apply_changes hides j [] s t d m = refl
  is_hidden-apply_changes hides j (job ∷ jobs) s t d m =
      let k = get_job_id js job in
      elim (Bool-cases
        (contains k s.nodes && not (same_bool (hides job) (is_hidden js k s.children)))) [
          | inl e ↦ rw e (
              is_hidden-apply_changes hides j jobs s (toggle_row js k (hides job) t) d.1
                (toggle_row-SameRows k (hides job) s t m)
              ∙ verdict_step hides k job jobs s t j true d.0 m e)
          | inr e ↦ rw e (
              is_hidden-apply_changes hides j jobs s t d.1 m
              ∙ verdict_step hides k job jobs s t j false d.0 m e)
        ]

  -- The row of a listed job, if it is tracked and stands on the surface, is hidden as the filter
  -- says; otherwise nothing changes.
  abbrev pub Shows : (Object → Bool) → String → Object → Surface → Surface → Type 0
  Shows hides j job s t = is_hidden js j t.children ≡ (
      if contains j s.nodes && has_row js j s.children
      then hides job
      else is_hidden js j s.children)

  verdict_absent :
      (hides : Object → Bool) (j : String) (jobs : List Object) (s : Surface) (base : Bool)
      → (contains j s.nodes && has_row js j s.children) ≡ false
      → verdict hides j jobs s base ≡ base
  unfolding verdict
  verdict_absent hides j [] s base h = refl
  verdict_absent hides j (job ∷ jobs) s base h =
      ground (arith, verdict_absent hides j jobs s base h)

  verdict_found :
      (hides : Object → Bool) (j : String) (jobs : List Object) (s : Surface) (job : Object)
      → Distinct (ids js jobs)
      → find_job js j jobs ≡ some job
      → (contains j s.nodes && has_row js j s.children) ≡ true
      → verdict hides j jobs s (is_hidden js j s.children) ≡ hides job
  unfolding verdict find_job
  verdict_found hides j [] s job d f n = cc
  verdict_found hides j (first ∷ jobs) s job d f n = elim (eq_cases (get_job_id js first) j) [
    | inl (hit, p) ↦
        let base = is_hidden js j s.children in
        let absent = subst (λ i. contains i (ids js jobs) ≡ false) p d.0 in
        ground (arith, verdict_miss hides j jobs s base absent)
    | inr (miss, _) ↦ rw miss (verdict_found hides j jobs s job d.1 (rw miss at f) n)
  ]

  -- The rows after the changes collected on a surface.
  pub filter_rows :
      (hides : Object → Bool) (j : String) (jobs : List Object) (s : Surface) (job : Object)
      → Distinct (ids js jobs)
      → find_job js j jobs ≡ some job
      → Shows hides j job s (apply_changes js (collect_changes js hides jobs s) s)
  filter_rows hides j jobs s job d f =
      let same : SameRows s s = record { nodes = refl; rows = λ _. refl } in
      is_hidden-apply_changes hides j jobs s s d same
      ∙ elim (Bool-cases (contains j s.nodes && has_row js j s.children)) [
        | inl e ↦ rw e (verdict_found hides j jobs s job d f e)
        | inr e ↦ rw e (verdict_absent hides j jobs s (is_hidden js j s.children) e)
      ]

-- ===== src/Jobs/Invariant.antt =====
-- app/static/js/jobs.js: the store's list and its set of ids, under the changes that operations make.
pub mod Steps
pub mod Updates
pub mod Boot
pub mod Pages
use fetchly.Common.{
  ℕ, zero, suc, ◌≤◌, ◌+◌, String, ◌≡◌, refl, ap, Bool, true, false, not, ◌&&◌, ◌||◌, Option, none,
  some, List, [], ◌∷◌, ◌++◌, ◌==◌, if◌then◌else◌, length, take, drop, contains, add, remove,
  Distinct, arith, ◌⊎◌, inl, inr, Bool-cases, eq_iff, map, eq_comm, length-take, contains-append,
  leb, contains-remove, Distinct-remove, contains-take, Distinct-take, Distinct-add, contains-add,
  contains-take-false, Distinct-append_one, contains-move_front, Distinct-move_front,
}
use fetchly.Ecma.{Ecma, Object}
use fetchly.Config.{max_rows}
use fetchly.Jobs.Update.{get_job_id}
use fetchly.Jobs.State.{State, ids, hard_max_rows, remove_job, replace_job, forget, trim_jobs}

-- No id occurs twice in the list or is empty, and the set holds the ids of the list.
pub record IsConsistent (js : Ecma) (jobs : List Object) (known : List String) : Type 0 where
  pub distinct : Distinct (ids js jobs)
  pub named : contains "" (ids js jobs) ≡ false
  pub known_distinct : Distinct known
  pub known_iff : (k : String) → contains k known ≡ contains k (ids js jobs)

-- The store of a page: consistent, and no longer than the hard limit.
pub record IsValid (js : Ecma) (s : State) : Type 0 where
  pub consistent : IsConsistent js s.jobs s.job_ids
  pub bounded : length s.jobs ≤ hard_max_rows

module _ (js : Ecma) where
  pub ids-take : (n : ℕ) (jobs : List Object) → ids js (take n jobs) ≡ take n (ids js jobs)
  ids-take zero jobs = refl
  ids-take (suc n) [] = refl
  ids-take (suc n) (j ∷ jobs) = ap (◌∷◌ (get_job_id js j)) (ids-take n jobs)

  pub ids-drop : (n : ℕ) (jobs : List Object) → ids js (drop n jobs) ≡ drop n (ids js jobs)
  ids-drop zero jobs = refl
  ids-drop (suc n) [] = refl
  ids-drop (suc n) (j ∷ jobs) = ids-drop n jobs

  pub ids-append : (xs ys : List Object) → ids js (xs ++ ys) ≡ ids js xs ++ ids js ys
  ids-append [] ys = refl
  ids-append (x ∷ xs) ys = ap (◌∷◌ (get_job_id js x)) (ids-append xs ys)

  pub ids-remove_job :
      (k : String) (jobs : List Object) → ids js (remove_job js k jobs) ≡ remove k (ids js jobs)
  unfolding remove_job
  ids-remove_job k [] = refl
  ids-remove_job k (j ∷ jobs) = ground (arith, ids-remove_job k jobs)

  pub length-remove_job-le :
      (k : String) (jobs : List Object) → length (remove_job js k jobs) ≤ length jobs
  unfolding remove_job
  length-remove_job-le k [] = omega arith
  length-remove_job-le k (j ∷ jobs) = ground (arith, length-remove_job-le k jobs)

  pub length-replace_job :
      (k : String) (job : Object) (jobs : List Object)
      → length (replace_job js k job jobs) ≡ length jobs
  unfolding replace_job
  length-replace_job k job [] = refl
  length-replace_job k job (j ∷ jobs) = ground (arith, length-replace_job k job jobs)

  -- Writing a job in the place of one with its id keeps the ids and their order.
  pub ids-replace_job :
      (k : String) (job : Object) (jobs : List Object)
      → get_job_id js job ≡ k
      → ids js (replace_job js k job jobs) ≡ ids js jobs
  unfolding replace_job
  ids-replace_job k job [] e = refl
  ids-replace_job k job (j ∷ jobs) e =
      ground (arith, ids-replace_job k job jobs, eq_iff (get_job_id js j) k)

  pub Distinct-forget :
      (gone : List Object) (known : List String) → Distinct known → Distinct (forget js gone known)
  unfolding forget
  Distinct-forget [] known d = d
  Distinct-forget (j ∷ gone) known d =
      Distinct-forget gone (remove (get_job_id js j) known)
        (Distinct-remove (get_job_id js j) known d)

  pub contains-forget :
      (k : String) (gone : List Object) (known : List String)
      → Distinct known
      → contains k (forget js gone known) ≡ (contains k known && not (contains k (ids js gone)))
  unfolding forget
  contains-forget k [] known d = ground arith
  contains-forget k (j ∷ gone) known d =
      rw (contains-forget k gone _ (Distinct-remove (get_job_id js j) known d))
        (ground (arith, contains-remove (get_job_id js j) k known d))

  -- Dropping the end of the list, with the ids of what is dropped.
  pub take-IsConsistent :
      (n : ℕ) (jobs : List Object) (known : List String)
      → IsConsistent js jobs known
      → IsConsistent js (take n jobs) (forget js (drop n jobs) known)
  take-IsConsistent n jobs known c = record {
    distinct = rw (ids-take n jobs) (Distinct-take n (ids js jobs) c.distinct);
    named = rw (ids-take n jobs) (contains-take-false n "" (ids js jobs) c.named);
    known_distinct = Distinct-forget (drop n jobs) known c.known_distinct;
    known_iff = λ k. rw (
      contains-forget k (drop n jobs) known c.known_distinct,
      ids-take n jobs,
      ids-drop n jobs,
      c.known_iff k,
      contains-take n k (ids js jobs) c.distinct,
    );
  }

  pub trim_jobs-IsConsistent :
      (s : State)
      → IsConsistent js s.jobs s.job_ids
      → IsConsistent js (trim_jobs js s).jobs (trim_jobs js s).job_ids
  unfolding trim_jobs
  trim_jobs-IsConsistent s c =
      let cap : ℕ = if s.preserve_history then hard_max_rows else max_rows in
      elim (Bool-cases (leb (length s.jobs) cap)) [
        | inl e ↦ rw e c
        | inr e ↦ rw e (take-IsConsistent cap s.jobs s.job_ids c)
      ]

  length-cut :
      (n : ℕ) (s : State) (t : State)
      → t.jobs ≡ (if leb (length s.jobs) n then s.jobs else take n s.jobs)
      → length t.jobs ≤ n
  length-cut n s t e = rw e (ground (arith, length-take n s.jobs))

  pub length-trim_jobs : (s : State) → length (trim_jobs js s).jobs ≤ hard_max_rows
  unfolding trim_jobs
  length-trim_jobs s = elim (Bool-cases s.preserve_history) [
    | inl e ↦ length-cut hard_max_rows s (trim_jobs js s) (ground arith)
    | inr e ↦ omega (arith, length-cut max_rows s (trim_jobs js s) (ground arith))
  ]

  pub trim_jobs-IsValid :
      (s : State) → IsConsistent js s.jobs s.job_ids → IsValid js (trim_jobs js s)
  trim_jobs-IsValid s c = record {
    consistent = trim_jobs-IsConsistent s c;
    bounded = length-trim_jobs s;
  }

  -- A job at the front, in the place of one with its id.
  pub prepend-IsConsistent :
      (job : Object) (jobs : List Object) (known : List String)
      → (get_job_id js job == "") ≡ false
      → IsConsistent js jobs known
      → IsConsistent js
          (job ∷ remove_job js (get_job_id js job) jobs)
          (add (get_job_id js job) known)
  prepend-IsConsistent job jobs known h c =
      let k = get_job_id js job in
      record {
        distinct = rw (ids-remove_job k jobs) (Distinct-move_front k (ids js jobs) c.distinct);
        named =
            rw (ids-remove_job k jobs, contains-move_front k "" (ids js jobs) c.distinct, c.named)
              h;
        known_distinct = Distinct-add k known c.known_distinct;
        known_iff = λ j. rw (
          ids-remove_job k jobs,
          contains-add k j known,
          c.known_iff j,
          contains-move_front k j (ids js jobs) c.distinct,
        );
      }

  -- A job at the end whose id is new.
  pub append-IsConsistent :
      (job : Object) (jobs : List Object) (known : List String)
      → (get_job_id js job == "") ≡ false
      → contains (get_job_id js job) known ≡ false
      → IsConsistent js jobs known
      → IsConsistent js (jobs ++ job ∷ []) (add (get_job_id js job) known)
  append-IsConsistent job jobs known h fresh c =
      let k = get_job_id js job in
      let absent : contains k (ids js jobs) ≡ false = ground (arith, c.known_iff k) in
      record {
        distinct =
            rw (ids-append jobs (job ∷ [])) (Distinct-append_one k (ids js jobs) c.distinct absent);
        named =
            rw (ids-append jobs (job ∷ []))
              (ground (arith, contains-append "" (ids js jobs) (k ∷ []), c.named));
        known_distinct = Distinct-add k known c.known_distinct;
        known_iff = λ j.
            rw (ids-append jobs (job ∷ []), contains-add k j known, c.known_iff j)
              (ground (arith, contains-append j (ids js jobs) (k ∷ [])));
      }

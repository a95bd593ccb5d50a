-- ===== src/Events/Sequence.antt =====
-- app/static/js/events.js: `isNewerUpdate` lets no update of a job through that is not newer.
use fetchly.Common.{
  ◌+◌, ◌≤◌, String, ◌≡◌, Bool, true, false, some, List, [], ◌∷◌, if◌then◌else◌, length, ltb, ◌==◌,
  Dict, lookup, insert, arith, lookup-insert, length-insert-le, Bool-cases, if_both, eq_self,
  eq_cases, ◌⊎◌, inl, inr, le→not-ltb, subst,
}
use fetchly.Common.Int.{ℤ, leb_ℤ}
use fetchly.Ecma.{Ecma, Number, finite, infinite, nan, Object, get, number_of}
use fetchly.Events.Queue.{
  max_entries, insert_bounded, previous_sequence, is_newer_number, is_newer_update, payload_id,
}

leb_ℤ_trans : (a b c : ℤ) → leb_ℤ a b ≡ true → leb_ℤ b c ≡ true → leb_ℤ a c ≡ true
leb_ℤ_trans a b c h k = ground arith

leb_ℤ_total : (a b : ℤ) → leb_ℤ a b ≡ false → leb_ℤ b a ≡ true
leb_ℤ_total a b h = ground arith

leb_ℤ_refl : (a : ℤ) → leb_ℤ a a ≡ true
leb_ℤ_refl a = ground arith

pub insert_small {ℓ} :
    {V : Type ℓ} (k : String) (z : V) (m : Dict V)
    → length m + 1 ≤ max_entries
    → insert_bounded k z m ≡ insert k z m
unfolding insert_bounded
insert_small k z m h =
    rw (le→not-ltb max_entries (length (insert k z m)) (omega (arith, length-insert-le k z m)))

pub lookup-insert_bounded {ℓ} :
    {V : Type ℓ} (k : String) (z : V) (m : Dict V) → lookup k (insert_bounded k z m) ≡ some z
unfolding insert_bounded
lookup-insert_bounded k z m =
    if_both (λ d. lookup k d ≡ some z) (ltb max_entries (length (insert k z m)))
      (unfold lookup in rw (eq_self k)) (rw (lookup-insert k k z m, eq_self k))

previous-insert_bounded :
    (j k : String) (y : ℤ) (m : Dict ℤ)
    → length m + 1 ≤ max_entries
    → previous_sequence k (insert_bounded j y m) ≡ (if j == k then y else previous_sequence k m)
unfolding previous_sequence
previous-insert_bounded j k y m h =
    rw (insert_small j y m h) (ground (arith, lookup-insert j k y m))

-- Updates of any jobs, in order.
unfoldable pub learn : List (String × Number) → Dict ℤ → Dict ℤ
learn [] m = m
learn ((k, n) ∷ us) m = learn us (is_newer_number k n m).1

learn_one :
    (k j : String) (n : Number) (m : Dict ℤ) (z : ℤ)
    → length m + 1 ≤ max_entries
    → leb_ℤ z (previous_sequence k m) ≡ true
    → leb_ℤ z (previous_sequence k (is_newer_number j n m).1) ≡ true
unfolding is_newer_number
learn_one k j nan m z h g = g
learn_one k j (infinite b) m z h g = g
learn_one k j (finite y) m z h g = elim (Bool-cases (leb_ℤ y (previous_sequence j m))) [
  | inl old ↦ rw old g
  | inr new ↦
      let larger = leb_ℤ_total y (previous_sequence j m) new in
      rw (new, previous-insert_bounded j k y m h)
        (elim (eq_cases j k) [
          | inl (hit, p) ↦
              let at_k = subst (λ i. leb_ℤ (previous_sequence i m) y ≡ true) p larger in
              rw hit (leb_ℤ_trans z (previous_sequence k m) y g at_k)
          | inr (miss, _) ↦ rw miss g
        ])
]

length-is_newer_number :
    (k : String) (n : Number) (m : Dict ℤ)
    → length m + 1 ≤ max_entries
    → length (is_newer_number k n m).1 ≤ length m + 1
unfolding is_newer_number
length-is_newer_number k nan m h = omega arith
length-is_newer_number k (infinite b) m h = omega arith
length-is_newer_number k (finite z) m h =
    if_both (λ (r : Bool × Dict ℤ). length r.1 ≤ length m + 1) (leb_ℤ z (previous_sequence k m))
      (omega arith) (rw (insert_small k z m h) (length-insert-le k z m))

learn_keeps :
    (us : List (String × Number)) (k : String) (m : Dict ℤ) (z : ℤ)
    → length m + length us ≤ max_entries
    → leb_ℤ z (previous_sequence k m) ≡ true
    → leb_ℤ z (previous_sequence k (learn us m)) ≡ true
unfolding learn
learn_keeps [] k m z h g = g
learn_keeps ((j, n) ∷ us) k m z h g =
    let grown = length-is_newer_number j n m (omega arith) in
    learn_keeps us k (is_newer_number j n m).1 z (omega arith) (learn_one k j n m z (omega arith) g)

stale_number :
    (k : String) (y : ℤ) (m : Dict ℤ)
    → leb_ℤ y (previous_sequence k m) ≡ true
    → is_newer_number k (finite y) m ≡ (false, m)
unfolding is_newer_number
stale_number k y m h = rw h

previous-insert_self :
    (k : String) (z : ℤ) (m : Dict ℤ) → previous_sequence k (insert_bounded k z m) ≡ z
unfolding previous_sequence
previous-insert_self k z m = rw (lookup-insert_bounded k z m, previous_sequence)

kept :
    (k : String) (z : ℤ) (m : Dict ℤ)
    → (is_newer_number k (finite z) m).0 ≡ true
    → leb_ℤ z (previous_sequence k (is_newer_number k (finite z) m).1) ≡ true
unfolding is_newer_number
kept k z m = elim (Bool-cases (leb_ℤ z (previous_sequence k m))) [
  | inl old ↦ rw old (λ h. cc)
  | inr new ↦ rw new (λ h. rw (previous-insert_self k z m) (leb_ℤ_refl z))
]

-- Once an update of a job was let through, no update of it with that number or a smaller one is let
-- through, whatever updates of this job or others come between, if the map is not reset between them and
-- their number, the first one and the entries of the map are at most its limit of 1000 together.
pub stale_is_dropped :
    (k : String) (z y : ℤ) (us : List (String × Number)) (m : Dict ℤ)
    → (is_newer_number k (finite z) m).0 ≡ true
    → leb_ℤ y z ≡ true
    → length m + 1 + length us ≤ max_entries
    → is_newer_number k (finite y) (learn us (is_newer_number k (finite z) m).1)
      ≡ (false, learn us (is_newer_number k (finite z) m).1)
stale_is_dropped k z y us m h older room =
    let first = (is_newer_number k (finite z) m).1 in
    let grown = length-is_newer_number k (finite z) m (omega arith) in
    let later = learn_keeps us k first z (omega arith) (kept k z m h) in
    stale_number k y (learn us first)
      (leb_ℤ_trans y z (previous_sequence k (learn us first)) older later)

-- An update that is let through has a larger number than the one kept for its job, and its own is
-- kept from then on; one that is not let through changes nothing.
pub newer_exact :
    (js : Ecma) (p : Object) (z : ℤ) (m : Dict ℤ)
    → number_of js (get "seq" p) ≡ finite z
    → (((is_newer_update js p m).0 ≡ true)
        × (leb_ℤ z (previous_sequence (payload_id js p) m) ≡ false)
        × (lookup (payload_id js p) (is_newer_update js p m).1 ≡ some z))
      ⊎ ((leb_ℤ z (previous_sequence (payload_id js p) m) ≡ true)
          × (is_newer_update js p m ≡ (false, m)))
unfolding is_newer_update
newer_exact js p z m e = elim (Bool-cases (leb_ℤ z (previous_sequence (payload_id js p) m))) [
  | inl old ↦ inr (old, rw (e, is_newer_number, old))
  | inr new ↦ inl (
    rw (e, is_newer_number, new),
    new,
    rw (e, is_newer_number, new) (lookup-insert_bounded _ z m),
  )
]

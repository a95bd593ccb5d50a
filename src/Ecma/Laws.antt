-- ===== src/Ecma/Laws.antt =====
-- Reading an object after a write, a deletion or a spread.
use fetchly.Common.{String, ◌≡◌, refl, true, false, ◌||◌, ◌==◌, eq_iff, if◌then◌else◌, arith}
use fetchly.Ecma.{Value, undefined, Object, end, field, get, has_own, put, delete_key, spread}

pub get-put :
    (k j : String) (v : Value) (o : Object) → get j (put k v o) ≡ (if k == j then v else get j o)
unfolding get put
get-put k j v end = refl
get-put k j v (field i w o) = ground (arith, eq_iff k j, eq_iff i k, eq_iff i j, get-put k j v o)

pub has_own-put :
    (k j : String) (v : Value) (o : Object)
    → has_own j (put k v o) ≡ (if k == j then true else has_own j o)
unfolding has_own put
has_own-put k j v end = refl
has_own-put k j v (field i w o) =
    ground (arith, eq_iff k j, eq_iff i k, eq_iff i j, has_own-put k j v o)

pub get-delete_key :
    (k j : String) (o : Object) → get j (delete_key k o) ≡ (if k == j then undefined else get j o)
unfolding get delete_key
get-delete_key k j end = ground arith
get-delete_key k j (field i w o) =
    ground (arith, eq_iff k j, eq_iff i k, eq_iff i j, get-delete_key k j o)

pub has_own-delete_key :
    (k j : String) (o : Object)
    → has_own j (delete_key k o) ≡ (if k == j then false else has_own j o)
unfolding has_own delete_key
has_own-delete_key k j end = ground arith
has_own-delete_key k j (field i w o) =
    ground (arith, eq_iff k j, eq_iff i k, eq_iff i j, has_own-delete_key k j o)

pub get-spread :
    (j : String) (a b : Object) → get j (spread a b) ≡ (if has_own j b then get j b else get j a)
unfolding spread get has_own
get-spread j a end = refl
get-spread j a (field i w b) = ground (arith, get-put i j w (spread a b), get-spread j a b)

pub has_own-spread :
    (j : String) (a b : Object) → has_own j (spread a b) ≡ (has_own j b || has_own j a)
unfolding spread has_own
has_own-spread j a end = refl
has_own-spread j a (field i w b) =
    ground (arith, has_own-put i j w (spread a b), has_own-spread j a b)

pub get-absent : (j : String) (o : Object) → has_own j o ≡ false → get j o ≡ undefined
unfolding get has_own
get-absent j end h = refl
get-absent j (field i w o) h = ground (arith, get-absent j o)

-- ===== src/Api/Snippet.antt =====
-- app/static/js/api.js, `_readResponseSnippet`: the first bytes of a body, whatever its chunks.
use fetchly.Common.{
  ℕ, zero, suc, ◌-◌, ◌≡◌, refl, ap, ◌∙◌, String, Bool, true, false, not, ◌||◌, Option, none, some,
  List, [], ◌∷◌, ◌++◌, if◌then◌else◌, leb, eqb, arith, length, take, length-append, length-take,
}
use mathlib.Core.Option
use fetchly.Api.{Read, bytes, ended, broken, Response, Web}

abbrev pub max_error_text_bytes : ℕ
max_error_text_bytes = 2048

-- The loop: `room` is what is left of the buffer. The result is what was collected, `none` after an exception.
unfoldable pub collect : ℕ → List Read → Option (List ℕ)
collect room [] = some []
collect room (ended ∷ reads) = some []
collect room (broken ∷ reads) = if eqb room 0 then some [] else none
collect room (bytes chunk ∷ reads) =
    let part = take room chunk in
    let rest = collect (room - length part) reads in
    if eqb room 0 then some [] else Option.map (λ found. part ++ found) rest

abbrev pub text_of_bytes : Web → Option (List ℕ) → String
text_of_bytes web none = ""
text_of_bytes web (some found) = web.decode found

unfoldable pub read_response_snippet : Web → Response → ℕ → String
read_response_snippet web response max_bytes = elim response.body [
  | none ↦ ""
  | some reads ↦ text_of_bytes web (collect max_bytes reads)
]

-- The bytes that arrive before the body ends or breaks, and whether it breaks.
abbrev pub body_bytes : List Read → List ℕ
body_bytes [] = []
body_bytes (ended ∷ reads) = []
body_bytes (broken ∷ reads) = []
body_bytes (bytes chunk ∷ reads) = chunk ++ body_bytes reads

abbrev pub breaks : List Read → Bool
breaks [] = false
breaks (ended ∷ reads) = false
breaks (broken ∷ reads) = true
breaks (bytes chunk ∷ reads) = breaks reads

take_none : (n : ℕ) → take {A = ℕ} n [] ≡ []
take_none zero = refl
take_none (suc n) = refl

take-append :
    (n : ℕ) (xs ys : List ℕ) → take n (xs ++ ys) ≡ take n xs ++ take (n - length (take n xs)) ys
take-append zero xs ys = refl
take-append (suc n) [] ys = ap (λ k. take k ys) {x = suc n} (omega arith)
take-append (suc n) (x ∷ xs) ys =
    ap (λ zs. x ∷ zs)
      (take-append n xs ys
        ∙ ap (λ k. take n xs ++ take k ys) {x = n - length (take n xs)} (omega arith))

if_map :
    {A B : Type 0} (f : A → B) (c : Bool) (x y : A)
    → f (if c then x else y) ≡ (if c then f x else f y)
if_map f true x y = refl
if_map f false x y = refl

collect_lem :
    (room : ℕ) (reads : List Read)
    → collect room reads ≡ (
        if leb room (length (body_bytes reads)) || not (breaks reads)
        then some (take room (body_bytes reads))
        else none)
unfolding collect
collect_lem room [] = ground (arith, take_none room)
collect_lem room (ended ∷ reads) = ground (arith, take_none room)
collect_lem room (broken ∷ reads) = ground (arith, take_none room)
collect_lem room (bytes chunk ∷ reads) = ground (
  arith,
  collect_lem (room - length (take room chunk)) reads,
  take-append room chunk (body_bytes reads),
  length-take room chunk,
  length-append chunk (body_bytes reads),
)

-- The snippet of a response that has a body is the text of the first bytes of the body, as many as are asked
-- for, however they were split into chunks; it is empty if the body breaks before they have arrived.
pub read_response_snippet_lem :
    (web : Web) (response : Response) (reads : List Read) (max_bytes : ℕ)
    → response.body ≡ some reads
    → read_response_snippet web response max_bytes ≡ (
        if leb max_bytes (length (body_bytes reads)) || not (breaks reads)
        then web.decode (take max_bytes (body_bytes reads))
        else "")
unfolding read_response_snippet
read_response_snippet_lem web response reads max_bytes e =
    rw (e, collect_lem max_bytes reads)
      (if_map (text_of_bytes web) (leb max_bytes (length (body_bytes reads)) || not (breaks reads))
        _ _)

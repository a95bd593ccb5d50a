-- ===== src/Ui/Key.antt =====
-- app/static/js/ui.js, `resolveJobAction`: what the text of an action key says of the action.
use fetchly.Common.{
  ℕ, zero, suc, ◌≡◌, refl, sym, ap, ◌∙◌, String, Bool, true, false, Option, none, some, List, [],
  ◌∷◌, if◌then◌else◌, eqb, leb,
}
use mathlib.Core.Bool.{false≢true}
use fetchly.Ui.{
  Category, download, cancel, retry, detail, category_text, DurationBucket, unknown, long, ok,
  bucket_text, lalal_text, ActionKey, key_text, append,
}
use Prim.Native.Char.{code}
use text.Mathlib.TextLemmas

-- The codes of a text, last first, put onto others.
unfoldable onto : String → List ℕ → List ℕ
onto String.[] found = found
onto (String.◌∷◌ c s) found = onto s (code c ∷ found)

onto-append : (s t : String) (found : List ℕ) → onto (append s t) found ≡ onto t (onto s found)
unfolding onto
onto-append String.[] t found = ap (λ u. onto u found) (TextLemmas.nil-append t)
onto-append (String.◌∷◌ c s) t found =
    ap (λ u. onto u found) (TextLemmas.cons-append c s t) ∙ onto-append s t (code c ∷ found)

abbrev code_at : ℕ → List ℕ → ℕ
code_at n [] = 0
code_at zero (x ∷ xs) = x
code_at (suc n) (x ∷ xs) = code_at n xs

-- The bucket whose text ends at a place.
abbrev bucket_at : ℕ → List ℕ → DurationBucket
bucket_at n codes =
    if eqb (code_at n codes) 110 then unknown else if eqb (code_at n codes) 103 then long else ok

-- What the last codes of a key say: `e` ends `none`, `n` and `f` end the two texts of the guard.
abbrev read_end : List ℕ → DurationBucket × Option (Bool × Bool)
read_end codes =
    if eqb (code_at 0 codes) 101
    then (bucket_at 5 codes, none)
    else if eqb (code_at 0 codes) 110
    then (if eqb (code_at 9 codes) 110
        then (bucket_at 18 codes, some (true, true))
        else (bucket_at 19 codes, some (false, true)))
    else if eqb (code_at 10 codes) 110
    then (bucket_at 19 codes, some (true, false))
    else (bucket_at 20 codes, some (false, false))

read_end-onto :
    (b : DurationBucket) (l : Option (Bool × Bool)) (rest : List ℕ)
    → read_end (onto (lalal_text l) (58 ∷ onto (bucket_text b) rest)) ≡ (b, l)
unfolding onto
read_end-onto unknown none rest = refl
read_end-onto long none rest = refl
read_end-onto ok none rest = refl
read_end-onto unknown (some (true, true)) rest = refl
read_end-onto long (some (true, true)) rest = refl
read_end-onto ok (some (true, true)) rest = refl
read_end-onto unknown (some (true, false)) rest = refl
read_end-onto long (some (true, false)) rest = refl
read_end-onto ok (some (true, false)) rest = refl
read_end-onto unknown (some (false, true)) rest = refl
read_end-onto long (some (false, true)) rest = refl
read_end-onto ok (some (false, true)) rest = refl
read_end-onto unknown (some (false, false)) rest = refl
read_end-onto long (some (false, false)) rest = refl
read_end-onto ok (some (false, false)) rest = refl

abbrev char_at : ℕ → String → ℕ
char_at n String.[] = 0
char_at zero (String.◌∷◌ c s) = code c
char_at (suc n) (String.◌∷◌ c s) = char_at n s

char_at-append :
    (n : ℕ) (s t : String) → leb 1 (char_at n s) ≡ true → char_at n (append s t) ≡ char_at n s
char_at-append n String.[] t h = absurd (false≢true h)
char_at-append zero (String.◌∷◌ c s) t h = ap (char_at zero) (TextLemmas.cons-append c s t)
char_at-append (suc n) (String.◌∷◌ c s) t h =
    ap (char_at (suc n)) (TextLemmas.cons-append c s t) ∙ char_at-append n s t h

-- The category whose text opens a text, by its fourth letter.
abbrev category_of : ℕ → Category
category_of n =
    if eqb n 110 then download else if eqb n 99 then cancel else if eqb n 114 then retry else detail

read_start :
    (c : Category) (rest : String) → category_of (char_at 3 (append (category_text c) rest)) ≡ c
read_start download rest = ap category_of (char_at-append 3 "download" rest refl)
read_start cancel rest = ap category_of (char_at-append 3 "cancel" rest refl)
read_start retry rest = ap category_of (char_at-append 3 "retry" rest refl)
read_start detail rest = ap category_of (char_at-append 3 "detail" rest refl)

read_key : (k : ActionKey) → read_end (onto (key_text k) []) ≡ (k.bucket, k.lalal)
unfolding key_text onto
read_key k =
    let start = onto (category_text k.category) [] in
    let kind = onto k.kind (58 ∷ start) in
    let last = append ":" (lalal_text k.lalal) in
    let third = append (bucket_text k.bucket) last in
    let second = append k.kind (append ":" third) in
    ap read_end (
      onto-append (category_text k.category) (append ":" second) []
      ∙ onto-append ":" second start
      ∙ onto-append k.kind (append ":" third) (58 ∷ start)
      ∙ onto-append ":" third kind
      ∙ onto-append (bucket_text k.bucket) last (58 ∷ kind)
      ∙ onto-append ":" (lalal_text k.lalal) (onto (bucket_text k.bucket) (58 ∷ kind)))
    ∙ read_end-onto k.bucket k.lalal (58 ∷ kind)

-- What the page shows of an action is read from its key.
pub key_text_injective :
    (k k' : ActionKey)
    → key_text k ≡ key_text k'
    → (k.category ≡ k'.category) × (k.bucket ≡ k'.bucket) × (k.lalal ≡ k'.lalal)
unfolding key_text
key_text_injective k k' e =
    let ends = sym (read_key k) ∙ ap (λ s. read_end (onto s [])) e ∙ read_key k' in
    (
      sym (read_start k.category _)
          ∙ ap (λ s. category_of (char_at 3 s)) e
          ∙ read_start k'.category _,
      ap (λ p. p.0) ends,
      ap (λ p. p.1) ends,
    )

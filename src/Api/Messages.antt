-- ===== src/Api/Messages.antt =====
-- app/static/js/api.js: the message of an error that the server answers with.
use fetchly.Common.{
  ℕ, ◌≢◌, ◌*◌, ◌-◌, leb, ltb, ◌≡◌, refl, sym, ap, ◌∙◌, String, Bool, true, false, not, Option, none,
  some, List, [], ◌∷◌, ◌==◌, if◌then◌else◌, eq_cases, if_both, inl, inr, filter, map,
}
use fetchly.Common.Int.{pos}
use fetchly.Ecma.{
  Ecma, finite, Value, null, undefined, bool, num, text, arr, obj, Items, nil, cons, Object, end,
  field, get, string_of, unit,
}
use mathlib.Core.Bool.{false≢true}
use package.text.Mathlib.TextLemmas
use Prim.Native.Char.{Char, code}
use fetchly.Ui.{append}
use fetchly.Api.{Response, Web}
use fetchly.Api.Snippet.{read_response_snippet, max_error_text_bytes}

-- A property with the message of its value.
pub record Told : Type 0 where
  pub name : String
  pub value : Value
  pub message : String

-- `filter(Boolean).join("; ")`
abbrev pub joined : List String → String
joined [] = ""
joined (s ∷ []) = s
joined (s ∷ t ∷ rest) = append s (append "; " (joined (t ∷ rest)))

abbrev pub said : List String → String
said messages = joined (filter (λ s. not (s == "")) messages)

-- What `_extractMessages` does with `detail` and `error`: a text, an array or an object is taken.
abbrev pub is_telling : Value → Bool
is_telling (text s) = true
is_telling (arr xs) = true
is_telling (obj o) = true
is_telling _ = false

abbrev pub told_by : String → List Told → Option String
told_by key [] = none
told_by key (t ∷ rest) =
    if t.name == key
    then (if is_telling t.value then some t.message else none)
    else told_by key rest

abbrev pub or_else : Option String → String → String
or_else none s = s
or_else (some t) s = t

-- `typeof obj.msg === "string" && obj.msg`
abbrev pub msg_of : Value → Option String
msg_of (text s) = if s == "" then none else some s
msg_of _ = none

-- `_extractMessages`, from the properties with their messages.
unfoldable pub extract_messages : Value → List Told → String
extract_messages msg properties = or_else (msg_of msg) (
    or_else (told_by "detail" properties)
      (or_else (told_by "error" properties) (said (map (λ t. t.message) properties))))

module _ (js : Ecma) where
  unfoldable mutual
    unfolding extract_messages

    pub to_error_message : Value → String
    to_error_message null = ""
    to_error_message undefined = ""
    to_error_message (text s) = s
    to_error_message (arr xs) = said (item_messages xs)
    to_error_message (obj o) = extract_messages (get "msg" o) (told_of o)
    to_error_message (bool b) = string_of js (bool b)
    to_error_message (num n) = string_of js (num n)

    pub item_messages : Items → List String
    item_messages nil = []
    item_messages (cons x xs) = to_error_message x ∷ item_messages xs

    pub told_of : Object → List Told
    told_of end = []
    told_of (field k v rest) =
        record { name = k; value = v; message = to_error_message v } ∷ told_of rest

abbrev pub units_of : Char → ℕ
units_of c = if leb 65536 (code c) then 2 else 1

-- `text.slice(0, n)`, without the half of a character that it may end with.
unfoldable pub slice_text : ℕ → String → String
slice_text n String.[] = String.[]
slice_text n (String.◌∷◌ c s) =
    let rest = slice_text (n - units_of c) s in
    if ltb n (units_of c) then String.[] else String.◌∷◌ c rest

-- The error's message and the data it was read from.
pub record ParsedError : Type 0 where
  pub message : String
  pub payload : Value

module _ (web : Web) where
  abbrev pub http_text : Response → String
  http_text response = append "HTTP " (
      append ((web.ecma).text_of_number (finite (pos (response.status * unit))))
        (if response.status_text == "" then "" else append ": " response.status_text))

  abbrev pub parsed_or_empty : Option Value → Value
  parsed_or_empty none = obj end
  parsed_or_empty (some v) = v

  unfoldable pub parse_error : Response → ParsedError
  unfolding slice_text
  parse_error response =
      let body = read_response_snippet web response max_error_text_bytes in
      let payload = parsed_or_empty (web.parse_json body) in
      let message = to_error_message web.ecma payload in
      record {
        message =
            if not (message == "")
            then message
            else if body == ""
            then http_text response
            else append (http_text response) (append ": " (slice_text 200 body));
        payload = payload;
      }

abbrev is_empty : String → Bool
is_empty String.[] = true
is_empty (String.◌∷◌ c s) = false

append_speaks : (s t : String) → s ≢ "" → append s t ≢ ""
append_speaks String.[] t h e = h refl
append_speaks (String.◌∷◌ c s) t h e =
    false≢true (ap is_empty (sym (TextLemmas.cons-append c s t) ∙ e))

http_text_speaks : (web : Web) (response : Response) → http_text web response ≢ ""
http_text_speaks web response = append_speaks "HTTP " _ (λ e. false≢true (ap is_empty e))

speaks_else : (s t : String) → t ≢ "" → (if not (s == "") then s else t) ≢ ""
speaks_else s t h = elim (eq_cases s "") [
  | inl (found, _) ↦ rw (found) h
  | inr (found, other) ↦ rw (found) other
]

-- The message of an error response is never empty.
pub parse_error_speaks : (web : Web) (response : Response) → (parse_error web response).message ≢ ""
unfolding parse_error
parse_error_speaks web response =
    let http = http_text_speaks web response in
    let body = read_response_snippet web response max_error_text_bytes in
    let cut = append ": " (slice_text 200 body) in
    speaks_else (to_error_message web.ecma (parsed_or_empty web (web.parse_json body))) _
      (if_both (λ s. s ≢ "") (body == "") http (append_speaks (http_text web response) cut http))

-- A problem that a form of the server reports.
pub record Problem : Type 0 where
  pub place : Value
  pub kind : Value
  pub msg : String

abbrev pub problem_items : List Problem → Items
problem_items [] = nil
problem_items (p ∷ ps) =
    cons (obj (field "loc" p.place (field "msg" (text p.msg) (field "type" p.kind end))))
      (problem_items ps)

-- What is shown of a problem.
abbrev pub problem_text : Ecma → Problem → String
problem_text js p =
    if p.msg == ""
    then said (to_error_message js p.place ∷ to_error_message js p.kind ∷ [])
    else p.msg

messages_of_problems :
    (js : Ecma) (problems : List Problem)
    → item_messages js (problem_items problems) ≡ map (problem_text js) problems
unfolding item_messages to_error_message extract_messages get
messages_of_problems js [] = refl
messages_of_problems js (p ∷ ps) = elim (eq_cases p.msg "") [
  | inl (found, empty) ↦ rw (found, messages_of_problems js ps) refl
  | inr (found, _) ↦ rw (found) (ap (λ s. p.msg ∷ s) (messages_of_problems js ps))
]

-- The problems that the server finds in a form are shown in their order, joined by semicolons: each one by its
-- message, or by its place and its kind where the message is empty; what is empty is left out.
pub form_problems_shown :
    (js : Ecma) (problems : List Problem)
    → to_error_message js (obj (field "detail" (arr (problem_items problems)) end))
      ≡ said (map (problem_text js) problems)
unfolding to_error_message extract_messages get
form_problems_shown js problems = ap said (messages_of_problems js problems)

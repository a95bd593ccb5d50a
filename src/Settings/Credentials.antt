-- ===== src/Settings/Credentials.antt =====
-- app/static/js/settings.js: the form of the account. The texts are those of the inputs, empty where an input
-- is missing.
use Prim.Native.Char.{code}
use fetchly.Common.{
  zero, suc, ◌+◌, ◌<◌, refl, ℕ, ◌≡◌, String, Bool, true, false, not, ◌&&◌, ◌||◌, ◌==◌,
  if◌then◌else◌, eqb, leb, ltb, arith, eq_cases, Bool-cases, subst, sym, ◌∙◌, inl, inr, ap,
}
use fetchly.Common.Texts.{text_length, all_codes}

pub data Checked (A : Type 0) : Type 0 where
  accepted : A → Checked A
  refused : String → Checked A

-- `/^[A-Za-z_-]+$/` for a text that is not empty
abbrev pub is_name_code : ℕ → Bool
is_name_code n = leb 65 n && leb n 90 || leb 97 n && leb n 122 || eqb n 95 || eqb n 45

pub record Account : Type 0 where
  pub admin_username : String
  pub admin_password : String
  pub enable_authentication : Bool

-- The name is trimmed already.
unfoldable pub validate_credentials : String → String → String → Bool → Checked Account
validate_credentials username password confirmation enable_pending =
    if username == ""
    then refused "Username is required"
    else if ltb 64 (text_length username)
    then refused "Username must be at most 64 characters"
    else if not (all_codes is_name_code username)
    then refused "Username may only contain letters, hyphens and underscores"
    else if password == ""
    then refused "Password is required"
    else if ltb (text_length password) 8
    then refused "Password must be at least 8 characters"
    else if not (password == confirmation)
    then refused "Passwords do not match"
    else accepted (record {
      admin_username = username;
      admin_password = password;
      enable_authentication = enable_pending;
    })

abbrev pub is_accepted : {A : Type 0} → Checked A → Bool
is_accepted (accepted a) = true
is_accepted (refused message) = false

-- The signs of a name, written out.
abbrev name_signs : String
name_signs = "ABCDEFGHIJKLMNOPQRSTUVWXYZabcdefghijklmnopqrstuvwxyz_-"

abbrev occurs : ℕ → String → Bool
occurs n String.[] = false
occurs n (String.◌∷◌ c s) = eqb (code c) n || occurs n s

abbrev signs : String → ℕ
signs String.[] = 0
signs (String.◌∷◌ c s) = 1 + signs s

abbrev all_occur : String → String → Bool
all_occur of String.[] = true
all_occur of (String.◌∷◌ c s) = occurs (code c) of && all_occur of s

-- A name as it is described to the user, by its characters and not by UTF-16 units or ranges of codes.
abbrev pub is_name : String → Bool
is_name s = all_occur name_signs s && leb 1 (signs s) && leb (signs s) 64

abbrev same_below : (ℕ → Bool) → String → ℕ → Bool
same_below test signs zero = true
same_below test signs (suc n) =
    (if test n then occurs n signs else not (occurs n signs)) && same_below test signs n

same_ascii : same_below is_name_code name_signs 128 ≡ true
same_ascii = refl

same_at :
    (test : ℕ → Bool) (s : String) (k n : ℕ)
    → same_below test s k ≡ true
    → n < k
    → test n ≡ occurs n s
same_at test s zero n h small = absurd (omega (arith, small))
same_at test s (suc k) n h small = elim (Bool-cases (eqb n k)) [
  | inl same ↦
      let e : k ≡ n = ground (arith, same) in
      subst (λ i. test i ≡ occurs i s) e
        (elim (Bool-cases (test k)) [
          | inl holds ↦ ground (arith, h, holds)
          | inr fails ↦ ground (arith, h, fails)
        ])
  | inr other ↦ same_at test s k n (ground (arith, h)) (ground (arith, small, other))
]

occurs_small :
    (s : String) (n : ℕ) → all_codes (λ c. leb c 127) s ≡ true → 127 < n → occurs n s ≡ false
unfolding all_codes
occurs_small String.[] n h large = refl
occurs_small (String.◌∷◌ c s) n h large = ground (arith, occurs_small s n, h, large)

-- The ranges of codes in the pattern hold those signs and no other.
name_code_lem : (n : ℕ) → is_name_code n ≡ occurs n name_signs
unfolding all_codes
name_code_lem n = elim (Bool-cases (ltb n 128)) [
  | inl small ↦ same_at is_name_code name_signs 128 n same_ascii (ground (arith, small))
  | inr large ↦
      let beyond : is_name_code n ≡ false = ground (arith, large) in
      beyond ∙ sym (occurs_small name_signs n refl (ground (arith, large)))
]

all_codes-occur :
    (test : ℕ → Bool) (of s : String)
    → ((n : ℕ) → test n ≡ occurs n of)
    → all_codes test s ≡ all_occur of s
unfolding all_codes
all_codes-occur test of String.[] same = refl
all_codes-occur test of (String.◌∷◌ c s) same =
    rw (same (code c)) (ap (λ b. occurs (code c) of && b) (all_codes-occur test of s same))

-- A name has one UTF-16 unit for each of its characters.
text_length-name : (s : String) → all_codes is_name_code s ≡ true → text_length s ≡ signs s
unfolding all_codes text_length
text_length-name String.[] h = refl
text_length-name (String.◌∷◌ c s) h = ground (arith, text_length-name s, h)

empty_signs : (s : String) → (s == "") ≡ eqb (signs s) 0
empty_signs String.[] = refl
empty_signs (String.◌∷◌ c s) = elim (eq_cases (String.◌∷◌ c s) "") [
  | inl (_, e) ↦ let zero_signs : 1 + signs s ≡ 0 = ap signs e in absurd (omega (arith, zero_signs))
  | inr (found, _) ↦ ground (arith, found)
]

-- The guards in turn.
accepted_guards :
    (username password confirmation : String) (enable_pending : Bool)
    → is_accepted (validate_credentials username password confirmation enable_pending) ≡ (
        not (username == "")
        && leb (text_length username) 64
        && all_codes is_name_code username
        && leb 8 (text_length password)
        && password == confirmation)
unfolding validate_credentials text_length
accepted_guards username password confirmation enable_pending = elim (eq_cases password "") [
  | inl (found, empty) ↦
      let short : text_length password ≡ 0 = ap text_length empty in ground (arith, found, short)
  | inr (found, other) ↦ ground (arith, found)
]

-- The form of the account is accepted exactly if the name has 1 to 64 characters, each of them one of the 26 capital
-- and 26 small letters, the hyphen or the underscore, and the password has at least 8 UTF-16 units and is confirmed.
pub accepted_exact :
    (username password confirmation : String) (enable_pending : Bool)
    → is_accepted (validate_credentials username password confirmation enable_pending)
      ≡ (is_name username && leb 8 (text_length password) && password == confirmation)
accepted_exact username password confirmation enable_pending =
    let agree = all_codes-occur is_name_code name_signs username name_code_lem in
    let guards = accepted_guards username password confirmation enable_pending in
    elim (Bool-cases (all_codes is_name_code username)) [
      | inl named ↦
          let units = text_length-name username named in
          guards ∙ rw (named, ← agree, named, empty_signs username, units) (ground arith)
      | inr other ↦ guards ∙ rw (other, ← agree, other) (ground arith)
    ]

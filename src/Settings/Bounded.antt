-- ===== src/Settings/Bounded.antt =====
-- app/static/js/settings.js, `validateSettings`: what is sent lies within the bounds.
use fetchly.Common.{
  ℕ, sym, ◌∙◌, ◌≡◌, refl, String, Bool, true, false, ◌&&◌, Option, none, some, List, [], ◌∷◌, ◌==◌,
  if◌then◌else◌, leb, contains, arith, ap, eq_self, eq_cases, Bool-cases, inl, inr,
}
use fetchly.Common.Int.{ℤ, pos, negsuc}
use fetchly.Common.Texts.{text_length}
use fetchly.Ecma.{Ecma}
use fetchly.Settings.Credentials.{Checked, accepted, refused}
use fetchly.Settings.Limits.{
  Limit, runtime_limits, within, or_refuse, ◌>>=◌, Form, SettingsData, runtime_values, output_mode,
  validate_settings, public_host, limit_message, settings_of, retention, fragments, share_uses,
  session_days, or_zero,
}

-- What holds of the value of a check that is accepted.
abbrev holds : {A : Type 0} → (A → Bool) → Checked A → Bool
holds p (accepted a) = p a
holds p (refused message) = true

bind-holds :
    {A B : Type 0} (p : A → Bool) (q : B → Bool) (c : Checked A) (k : A → Checked B)
    → holds p c ≡ true
    → ((a : A) → p a ≡ true → holds q (k a) ≡ true)
    → holds q (c >>= k) ≡ true
bind-holds p q (accepted a) k h next = next a h
bind-holds p q (refused message) k h next = refl

within-holds :
    (low high : ℕ) (o : Option ℤ) (message : String)
    → holds (λ n. leb low n && leb n high) (or_refuse (within low high o) message) ≡ true
within-holds low high none message = refl
within-holds low high (some (negsuc n)) message = refl
within-holds low high (some (pos n)) message = elim (Bool-cases (leb low n && leb n high)) [
  | inl inside ↦ rw (inside, inside) refl
  | inr outside ↦ rw (outside) refl
]

abbrev pub all_within : List Limit → List (String × ℕ) → Bool
all_within [] [] = true
all_within (l ∷ ls) ((key, n) ∷ rest) =
    l.key == key && (leb l.minimum n && leb n l.maximum) && all_within ls rest
all_within _ _ = false

-- The bounds that the page names.
abbrev pub is_in_bounds : SettingsData → Bool
is_in_bounds d =
    leb d.retention_days 365
    && leb d.download_concurrent_fragments 16
    && leb d.share_link_max_uses 10_000
    && (leb 1 d.session_max_days && leb d.session_max_days 7)
    && contains d.download_output_mode ("source" ∷ "universal" ∷ "av1" ∷ [])
    && all_within runtime_limits d.runtime
    && leb (text_length d.public_hostname) 253

holds_if :
    {A : Type 0} (p : A → Bool) (c : Bool) (a : A) (message : String)
    → (c ≡ true → p a ≡ true)
    → holds p (if c then accepted a else refused message) ≡ true
holds_if p true a message h = h refl
holds_if p false a message h = refl

holds_unless :
    {A : Type 0} (p : A → Bool) (c : Bool) (a : A) (message : String)
    → (c ≡ false → p a ≡ true)
    → holds p (if c then refused message else accepted a) ≡ true
holds_unless p true a message h = refl
holds_unless p false a message h = h refl

abbrev is_mode : String → Bool
is_mode m = contains m ("source" ∷ "universal" ∷ "av1" ∷ [])

abbrev is_short : String → Bool
is_short h = leb (text_length h) 253

abbrev is_inside : ℕ → ℕ → ℕ → Bool
is_inside low high n = leb low n && leb n high

module _ (js : Ecma) (parse_int : String → Option ℤ) where
  runtime-holds :
      (limits : List Limit) (form : Form)
      → holds (all_within limits) (runtime_values js parse_int limits form) ≡ true
  unfolding runtime_values
  runtime-holds [] form = refl
  runtime-holds (l ∷ ls) form =
      bind-holds (is_inside l.minimum l.maximum) (all_within (l ∷ ls))
        (or_refuse (within l.minimum l.maximum (parse_int (form.field_text l.key)))
          (limit_message js parse_int l))
        (λ value.
          runtime_values js parse_int ls form >>= λ others. accepted ((l.key, value) ∷ others))
        (within-holds l.minimum l.maximum _ _)
        (λ n inside.
          bind-holds (all_within ls) (all_within (l ∷ ls)) (runtime_values js parse_int ls form)
            (λ others. accepted ((l.key, n) ∷ others)) (runtime-holds ls form)
            (λ others all. ground (arith, eq_self l.key, inside, all)))

  mode-holds : (mode : String) → holds is_mode (output_mode js parse_int mode) ≡ true
  mode-holds mode = holds_if is_mode (is_mode mode) mode _ (λ e. e)

  host-holds : (host : String) → holds is_short (public_host js parse_int host) ≡ true
  unfolding text_length
  host-holds host = holds_unless is_short _ host _ (λ fits. elim (eq_cases host "") [
    | inl (_, empty) ↦ ap is_short empty
    | inr (found, _) ↦ ground (arith, found, fits)
  ])

  abbrev Kept : {A : Type 0} → (A → Bool) → Checked A → Type 0
  Kept p c = holds p c ≡ true

  last-holds :
      (form : Form) (kept parts uses days : ℕ) (mode : String) (runtime : List (String × ℕ))
      → is_inside 0 365 kept ≡ true
      → is_inside 0 16 parts ≡ true
      → is_inside 0 10_000 uses ≡ true
      → is_inside 1 7 days ≡ true
      → is_mode mode ≡ true
      → all_within runtime_limits runtime ≡ true
      → holds is_in_bounds (
          public_host js parse_int (js.trim (form.field_text "public_hostname")) >>= λ host.
          accepted (settings_of js parse_int form kept parts uses days mode runtime host))
        ≡ true
  last-holds form kept parts uses days mode runtime h1 h2 h3 h4 h5 h6 =
      let host = js.trim (form.field_text "public_hostname") in
      bind-holds is_short is_in_bounds (public_host js parse_int host)
        (λ host. accepted (settings_of js parse_int form kept parts uses days mode runtime host))
        (host-holds host) (λ host h7. ground (arith, h1, h2, h3, h4, h5, h6, h7))

  settings-holds : (form : Form) → holds is_in_bounds (validate_settings js parse_int form) ≡ true
  unfolding validate_settings
  settings-holds form =
      let mode_text = form.field_text "download_output_mode" in
      let first : Kept (is_inside 0 365) (retention js parse_int form) =
        within-holds 0 365 (parse_int (form.field_text "retention_days")) _ in
      let second : Kept (is_inside 0 16) (fragments js parse_int form) =
        within-holds 0 16 (parse_int (form.field_text "download_concurrent_fragments")) _ in
      let third : Kept (is_inside 0 10_000) (share_uses js parse_int form) =
        within-holds 0 10_000
          (parse_int (or_zero js parse_int (form.field_text "share_link_max_uses"))) _ in
      let fourth : Kept (is_inside 1 7) (session_days js parse_int form) =
        within-holds 1 7 (parse_int (form.field_text "session_max_days")) _ in
      bind-holds (is_inside 0 365) is_in_bounds (retention js parse_int form) _ first (λ kept h1.
        bind-holds (is_inside 0 16) is_in_bounds (fragments js parse_int form) _ second (λ parts h2.
          bind-holds (is_inside 0 10_000) is_in_bounds (share_uses js parse_int form) _ third
            (λ uses h3.
              bind-holds (is_inside 1 7) is_in_bounds (session_days js parse_int form) _ fourth
                (λ days h4.
                  bind-holds is_mode is_in_bounds (output_mode js parse_int mode_text) _
                    (mode-holds mode_text)
                    (λ mode h5.
                      bind-holds (all_within runtime_limits) is_in_bounds
                        (runtime_values js parse_int runtime_limits form) _
                        (runtime-holds runtime_limits form)
                        (λ runtime h6.
                          last-holds form kept parts uses days mode runtime h1 h2 h3 h4 h5 h6))))))

  -- Settings that are accepted for sending are within the bounds that the page names: the days, the counts, the
  -- format, every row of the table of limits, and the length of the host name.
  pub accepted_in_bounds :
      (form : Form) (settings : SettingsData)
      → validate_settings js parse_int form ≡ accepted settings
      → is_in_bounds settings ≡ true
  accepted_in_bounds form settings e = sym (ap (holds is_in_bounds) e) ∙ settings-holds form

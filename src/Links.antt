-- ===== src/Links.antt =====
-- app/static/js/utils.js: which links the pages accept. Parsing a URL is the browser's, and so a
-- parameter; the rest is the code's own.
mod Hosts
pub mod Accepted
use fetchly.Common.{
  ℕ, String, Bool, true, false, not, ◌&&◌, ◌||◌, Option, none, some, List, [], ◌∷◌, ◌==◌,
  if◌then◌else◌, filter, contains, eqb, leb, ltb,
}
use fetchly.Common.Texts.{
  starts_with, starts_with_folded, ends_with, text_length, replace_all, filter_text, all_codes,
  split_at,
}
use fetchly.Ecma.{Ecma, Value, text}

-- The properties of `URL` that are read; `video` is `searchParams.get("v")`.
pub record Url : Type 0 where
  pub protocol : String
  pub username : String
  pub password : String
  pub port : String
  pub hostname : String
  pub pathname : String
  pub origin : String
  pub video : Option String

-- `new URL(text)`, `new URL(text, window.location.origin)` and that origin; `none` is its exception.
pub record Browser : Type 0 where
  pub ecma : Ecma
  pub parse_url : String → Option Url
  pub parse_relative : String → Option Url
  pub location_origin : String

abbrev pub is_zero_width : ℕ → Bool
is_zero_width n = leb 8203 n && leb n 8205 || eqb n 65279

-- `[\w-]`
abbrev pub is_id_code : ℕ → Bool
is_id_code n =
    leb 48 n && leb n 57 || leb 65 n && leb n 90 || leb 97 n && leb n 122 || eqb n 95 || eqb n 45

-- `VIDEO_ID_REGEX`
unfoldable pub is_video_id : String → Bool
is_video_id s = eqb (text_length s) 11 && all_codes is_id_code s

-- `split("/").filter(Boolean)`
unfoldable pub segments : String → List String
segments path = filter (λ s. not (s == "")) (split_at 47 path)

abbrev pub youtube_hosts : List String
youtube_hosts = "youtube.com" ∷ "www.youtube.com" ∷ "m.youtube.com" ∷ "music.youtube.com" ∷ []

abbrev pub short_hosts : List String
short_hosts = "youtu.be" ∷ "www.youtu.be" ∷ []

abbrev pub youtube_path_prefixes : List String
youtube_path_prefixes = "embed" ∷ "v" ∷ "shorts" ∷ []

abbrev pub facebook_exact_hosts : List String
facebook_exact_hosts = "fb.watch" ∷ "www.fb.watch" ∷ "fb.gg" ∷ "www.fb.gg" ∷ []

abbrev pub is_given_video : Option String → Bool
is_given_video none = false
is_given_video (some v) = is_video_id v

-- `parsed.username || parsed.password || (parsed.port && parsed.port !== "443")`
unfoldable pub has_extras : Url → Bool
has_extras u =
    not (u.username == "") || not (u.password == "") || not (u.port == "") && not (u.port == "443")

abbrev pub is_single_video : List String → Bool
is_single_video (v ∷ []) = is_video_id v
is_single_video _ = false

abbrev pub is_path_video : List String → Bool
is_path_video (prefix ∷ v ∷ []) = contains prefix youtube_path_prefixes && is_video_id v
is_path_video _ = false

-- The tests of `normalizeYouTubeUrl` on a parsed URL, whose host is given in small letters.
unfoldable pub names_video : String → Url → Bool
names_video host u =
    if contains host short_hosts
    then is_single_video (segments u.pathname)
    else contains host youtube_hosts
      && (u.pathname == "/watch" && is_given_video u.video || is_path_video (segments u.pathname))

-- The first segment, if it is an id.
abbrev pub first_video : List String → String
first_video [] = ""
first_video (v ∷ _) = if is_video_id v then v else ""

-- The loop over the segments.
unfoldable pub find_path_video : List String → String
find_path_video [] = ""
find_path_video (prefix ∷ []) = ""
find_path_video (prefix ∷ v ∷ rest) =
    let later = find_path_video (v ∷ rest) in
    if contains prefix youtube_path_prefixes && is_video_id v then v else later

-- What `extractYouTubeVideoId` reads from a parsed URL.
unfoldable pub video_of : String → Url → String
video_of host u =
    let in_path = find_path_video (segments u.pathname) in
    if host == "youtu.be" || ends_with ".youtu.be" host
    then first_video (segments u.pathname)
    else if not (host == "youtube.com" || ends_with ".youtube.com" host)
    then ""
    else elim u.video [ none ↦ in_path | some v ↦ if is_video_id v then v else in_path ]

unfoldable pub platform_of_host : String → Option String
platform_of_host host =
    if host == ""
    then none
    else if contains host short_hosts || contains host youtube_hosts
    then some "youtube"
    else if host == "tiktok.com" || ends_with ".tiktok.com" host
    then some "tiktok"
    else if host == "instagram.com"
        || ends_with ".instagram.com" host
        || host == "instagr.am"
        || host == "www.instagr.am"
    then some "instagram"
    else if host == "facebook.com"
        || ends_with ".facebook.com" host
        || contains host facebook_exact_hosts
    then some "facebook"
    else none

module _ (b : Browser) where
  -- The normalization of copied text.
  unfoldable pub clean : String → String
  clean s = filter_text (λ n. not (is_zero_width n)) (replace_all 0 "&amp;" 4 "&" (b.ecma.trim s))

  abbrev pub host_of : Url → String
  host_of u = b.ecma.lower u.hostname

  -- The tests of `normalizeYouTubeUrl` from the parsing on.
  unfoldable pub accept_youtube : String → Option Url → Option String
  accept_youtube value none = none
  accept_youtube value (some u) =
      if not (u.protocol == "https:") || has_extras u
      then none
      else if names_video (host_of u) u
      then some value
      else none

  unfoldable pub normalize_text : String → Option String
  normalize_text s =
      let value = clean s in
      if value == "" || ltb 2048 (text_length value)
      then none
      else accept_youtube value (b.parse_url value)

  unfoldable pub normalize_youtube_url : Value → Option String
  normalize_youtube_url (text s) = if s == "" then none else normalize_text s
  normalize_youtube_url _ = none

  unfoldable pub is_valid_youtube_url : Value → Bool
  is_valid_youtube_url v = elim (normalize_youtube_url v) [ none ↦ false | some _ ↦ true ]

  unfoldable pub extract_youtube_video_id : Value → String
  extract_youtube_video_id v = elim (normalize_youtube_url v) [
    | none ↦ ""
    | some value ↦ elim (b.parse_url value) [ none ↦ "" | some u ↦ video_of (host_of u) u ]
  ]

  abbrev pub platform_of_url : Option Url → Option String
  platform_of_url none = none
  platform_of_url (some u) = platform_of_host (host_of u)

  unfoldable pub detect_text : String → Option String
  detect_text s =
      let value = clean s in
      if not (starts_with_folded "https://" value)
      then none
      else platform_of_url (b.parse_url value)

  unfoldable pub detect_platform : Value → Option String
  detect_platform (text s) = if s == "" then none else detect_text s
  detect_platform _ = none

  -- After `detectPlatform` the value is a text.
  abbrev pub text_of : Value → String
  text_of (text s) = s
  text_of _ = ""

  unfoldable pub is_valid_media_url : Value → Bool
  is_valid_media_url v = elim (detect_platform v) [
    | none ↦ false
    | some _ ↦ elim (b.parse_url (clean (text_of v))) [ none ↦ false | some u ↦ not (has_extras u) ]
  ]

  unfoldable pub parse_same_origin_url : Value → Option Url
  parse_same_origin_url (text s) = if s == "" then none else elim (b.parse_relative s) [
    | none ↦ none
    | some u ↦ if u.origin == b.location_origin then some u else none
  ]
  parse_same_origin_url _ = none

  unfoldable pub is_safe_same_origin_redirect : Value → Bool
  is_safe_same_origin_redirect v = elim (parse_same_origin_url v) [ none ↦ false | some _ ↦ true ]

  unfoldable pub is_safe_redirect : Value → Bool
  is_safe_redirect v = elim (parse_same_origin_url v) [
    | none ↦ false
    | some u ↦ starts_with "/download/" u.pathname || starts_with "/api/lalal/download/" u.pathname
  ]

-- ===== src/Links/Accepted.antt =====
-- app/static/js/utils.js: the YouTube links that are accepted, and the id read from them.
use fetchly.Common.{
  String, true, false, not, ◌||◌, Option, none, some, ◌==◌, ◌≡◌, refl, ap, subst, contains, ltb,
  arith, eq_cases, Bool-cases, inl, inr, ◌⊎◌,
}
use mathlib.Core.Bool.{false≢true}
use fetchly.Common.Texts.{starts_with_folded, text_length}
use fetchly.Ecma.{Value, null, undefined, bool, num, arr, obj, text}
use fetchly.Links.{
  Url, Browser, is_video_id, youtube_hosts, short_hosts, names_video, normalize_text,
  normalize_youtube_url, is_valid_youtube_url, extract_youtube_video_id, platform_of_host,
  detect_text, detect_platform, is_valid_media_url, clean, accept_youtube, has_extras,
}
use fetchly.Links.Hosts.{names_video-video_of, no_video_id}

abbrev Accepted : Browser → String → Option Url → Type 0
Accepted b value parsed =
    (u : Url) × (parsed ≡ some u)
    × (accept_youtube b value parsed ≡ some value)
    × (names_video (b.ecma.lower u.hostname) u ≡ true)
    × (has_extras u ≡ false)

accept_youtube_cases :
    (b : Browser) (value : String) (parsed : Option Url)
    → (accept_youtube b value parsed ≡ none) ⊎ Accepted b value parsed
unfolding accept_youtube
accept_youtube_cases b value none = inl refl
accept_youtube_cases b value (some u) =
    elim (Bool-cases (not (u.protocol == "https:") || has_extras u)) [
      | inl bad ↦ inl (ground arith)
      | inr good ↦ elim (Bool-cases (names_video (b.ecma.lower u.hostname) u)) [
        | inl named ↦ inr (u, refl, ground arith, named, ground arith)
        | inr other ↦ inl (ground arith)
      ]
    ]

normalize_text_cases :
    (b : Browser) (s : String)
    → (normalize_text b s ≡ none)
      ⊎ ((normalize_text b s ≡ some (clean b s)) × Accepted b (clean b s) (b.parse_url (clean b s)))
unfolding normalize_text
normalize_text_cases b s =
    elim (Bool-cases (clean b s == "" || ltb 2048 (text_length (clean b s)))) [
      | inl bad ↦ inl (rw (normalize_text, bad) refl)
      | inr good ↦ elim (accept_youtube_cases b (clean b s) (b.parse_url (clean b s))) [
        | inl e ↦ inl (rw (normalize_text, good) e)
        | inr a ↦ inr (rw (normalize_text, good) a.2, a)
      ]
    ]

normalize_youtube_url_cases :
    (b : Browser) (v : Value)
    → (normalize_youtube_url b v ≡ none)
      ⊎ ((value : String) × (normalize_youtube_url b v ≡ some value)
          × Accepted b value (b.parse_url value))
unfolding normalize_youtube_url
normalize_youtube_url_cases b (text s) = elim (Bool-cases (s == "")) [
  | inl e ↦ inl (rw e refl)
  | inr e ↦ elim (normalize_text_cases b s) [
    | inl n ↦ inl (rw e n)
    | inr (n, a) ↦ inr (clean b s, rw e n, a)
  ]
]
normalize_youtube_url_cases b null = inl refl
normalize_youtube_url_cases b undefined = inl refl
normalize_youtube_url_cases b (bool _) = inl refl
normalize_youtube_url_cases b (num _) = inl refl
normalize_youtube_url_cases b (arr _) = inl refl
normalize_youtube_url_cases b (obj _) = inl refl

video_id_given : (s : String) → is_video_id s ≡ true → (s == "") ≡ false
video_id_given s h = elim (eq_cases s "") [
  | inl (_, e) ↦ absurd (ground (arith, ap is_video_id e, no_video_id))
  | inr (e, _) ↦ e
]

-- Of a link that `isValidYouTubeUrl` accepts, `extractYouTubeVideoId` gives an id of eleven letters,
-- digits, dashes and underscores; of any other value it gives the empty text.
pub extract_exact :
    (b : Browser) (v : Value)
    → (is_video_id (extract_youtube_video_id b v) ≡ is_valid_youtube_url b v)
      × ((extract_youtube_video_id b v == "") ≡ not (is_valid_youtube_url b v))
unfolding extract_youtube_video_id is_valid_youtube_url
extract_exact b v = elim (normalize_youtube_url_cases b v) [
  | inl e ↦ rw (extract_youtube_video_id, is_valid_youtube_url, e) (no_video_id, refl)
  | inr (value, e, (u, parsed, _, named, _)) ↦
      let id = names_video-video_of (b.ecma.lower u.hostname) u named in
      rw (extract_youtube_video_id, is_valid_youtube_url, e, parsed) (id, video_id_given _ id)
]

platform_youtube :
    (host : String)
    → (contains host short_hosts || contains host youtube_hosts) ≡ true
    → platform_of_host host ≡ some "youtube"
unfolding platform_of_host
platform_youtube host h = elim (eq_cases host "") [
  | inl (_, e) ↦
      absurd
        (false≢true (subst (λ x. (contains x short_hosts || contains x youtube_hosts) ≡ true) e h))
  | inr (e, _) ↦ rw (platform_of_host, e, h) refl
]

names_video-platform :
    (host : String) (u : Url) → names_video host u ≡ true → platform_of_host host ≡ some "youtube"
unfolding names_video
names_video-platform host u h = platform_youtube host (ground arith)

-- A text that `isValidYouTubeUrl` accepts and that, cleaned, starts with `https://` in letters of any
-- case is detected as a YouTube link and passes `isValidMediaUrl`.
pub youtube_is_media :
    (b : Browser) (s : String)
    → is_valid_youtube_url b (text s) ≡ true
    → starts_with_folded "https://" (clean b s) ≡ true
    → (detect_platform b (text s) ≡ some "youtube") × (is_valid_media_url b (text s) ≡ true)
unfolding is_valid_youtube_url normalize_youtube_url detect_platform detect_text is_valid_media_url
youtube_is_media b s h secure = elim (Bool-cases (s == "")) [
  | inl e ↦ absurd (ground arith)
  | inr e ↦ elim (normalize_text_cases b s) [
    | inl n ↦ absurd (false≢true (rw (is_valid_youtube_url, normalize_youtube_url, e, n) at h))
    | inr (n, (u, parsed, _, named, plain)) ↦
        let platform = names_video-platform (b.ecma.lower u.hostname) u named in
        let found : detect_text b s ≡ some "youtube" = rw (detect_text, secure, parsed) platform in
        (
          rw (detect_platform, e) found,
          rw (is_valid_media_url, detect_platform, e, found, parsed) (ap not plain),
        )
  ]
]

-- ===== src/Links/Hosts.antt =====
-- app/static/js/utils.js: the hosts of YouTube and the id of a video in a path.
use fetchly.Common.{
  String, Bool, true, false, not, ◌&&◌, ◌||◌, none, some, List, [], ◌∷◌, ◌==◌, ◌≡◌, refl, subst,
  if◌then◌else◌, contains, arith, eq_cases, Bool-cases, Option-cases, inl, inr, ◌⊎◌,
}
use fetchly.Common.Texts.{ends_with, text_length}
use fetchly.Links.{
  Url, is_video_id, segments, youtube_hosts, short_hosts, names_video, video_of, first_video,
  find_path_video, is_single_video, is_path_video, is_given_video,
}

contains-cases :
    (s t : String) (rest : List String)
    → contains s (t ∷ rest) ≡ true
    → (t ≡ s) ⊎ (contains s rest ≡ true)
contains-cases s t rest h = elim (eq_cases t s) [
  | inl (_, e) ↦ inl e
  | inr (e, _) ↦ inr (ground arith)
]

-- A host of this kind is read as the one that names a video by its first segment.
short_host :
    (host : String)
    → contains host short_hosts ≡ true
    → (host == "youtu.be" || ends_with ".youtu.be" host) ≡ true
unfolding ends_with
short_host host h = elim (contains-cases host "youtu.be" ("www.youtu.be" ∷ []) h) [
  | inl e ↦ subst (λ x. (x == "youtu.be" || ends_with ".youtu.be" x) ≡ true) e refl
  | inr k ↦ elim (contains-cases host "www.youtu.be" [] k) [
    | inl e ↦ subst (λ x. (x == "youtu.be" || ends_with ".youtu.be" x) ≡ true) e refl
    | inr l ↦ absurd (ground arith)
  ]
]

abbrev IsLongHost : String → Type 0
IsLongHost x =
    ((x == "youtu.be" || ends_with ".youtu.be" x) ≡ false)
    × (not (x == "youtube.com" || ends_with ".youtube.com" x) ≡ false)

youtube_host : (host : String) → contains host youtube_hosts ≡ true → IsLongHost host
unfolding ends_with
youtube_host host h =
    elim (contains-cases host "youtube.com"
      ("www.youtube.com" ∷ "m.youtube.com" ∷ "music.youtube.com" ∷ []) h) [
        | inl e ↦ subst IsLongHost e (refl, refl)
        | inr k ↦
            elim (contains-cases host "www.youtube.com" ("m.youtube.com" ∷ "music.youtube.com" ∷ [])
              k) [
                | inl e ↦ subst IsLongHost e (refl, refl)
                | inr l ↦ elim (contains-cases host "m.youtube.com" ("music.youtube.com" ∷ []) l) [
                  | inl e ↦ subst IsLongHost e (refl, refl)
                  | inr m ↦ elim (contains-cases host "music.youtube.com" [] m) [
                    | inl e ↦ subst IsLongHost e (refl, refl)
                    | inr n ↦ absurd (ground arith)
                  ]
                ]
              ]
      ]

single_video :
    (path : List String) → is_single_video path ≡ true → is_video_id (first_video path) ≡ true
single_video [] h = absurd (ground arith)
single_video (v ∷ []) h = rw h h
single_video (v ∷ w ∷ rest) h = absurd (ground arith)

path_video :
    (path : List String) → is_path_video path ≡ true → is_video_id (find_path_video path) ≡ true
unfolding find_path_video
path_video [] h = absurd (ground arith)
path_video (p ∷ []) h = absurd (ground arith)
path_video (p ∷ v ∷ []) h = ground arith
path_video (p ∷ v ∷ w ∷ rest) h = absurd (ground arith)

long_video :
    (host : String) (u : Url)
    → (contains host youtube_hosts
        && (u.pathname == "/watch" && is_given_video u.video
            || is_path_video (segments u.pathname)))
      ≡ true
    → (contains host youtube_hosts ≡ true)
      × ((u.pathname == "/watch" && is_given_video u.video || is_path_video (segments u.pathname))
          ≡ true)
long_video host u h = ground arith

watch_none : (w q : Bool) → (w && false || q) ≡ true → q ≡ true
watch_none w q h = ground arith

watch_some :
    (w : Bool) (v : String) (path : List String)
    → (w && is_video_id v || is_path_video path) ≡ true
    → is_video_id (if is_video_id v then v else find_path_video path) ≡ true
watch_some w v path h = ground (arith, path_video path)

long_video_of :
    (u : Url)
    → (u.pathname == "/watch" && is_given_video u.video || is_path_video (segments u.pathname))
      ≡ true
    → is_video_id (elim u.video [
      | none ↦ find_path_video (segments u.pathname)
      | some v ↦ if is_video_id v then v else find_path_video (segments u.pathname)
    ])
      ≡ true
long_video_of u h = elim (Option-cases u.video) [
  | inl e ↦
      rw e (path_video (segments u.pathname) (watch_none (u.pathname == "/watch") _ (rw e at h)))
  | inr (v, e) ↦ rw e (watch_some (u.pathname == "/watch") v (segments u.pathname) (rw e at h))
]

pub no_video_id : is_video_id "" ≡ false
unfolding is_video_id text_length
no_video_id = refl

pub names_video-video_of :
    (host : String) (u : Url) → names_video host u ≡ true → is_video_id (video_of host u) ≡ true
unfolding names_video video_of
names_video-video_of host u h = elim (Bool-cases (contains host short_hosts)) [
  | inl short ↦ rw (short_host host short) (single_video (segments u.pathname) (rw short at h))
  | inr long ↦
      let (is_host, named) = long_video host u (rw long at h) in
      let (not_short, found) = youtube_host host is_host in
      rw (not_short, found) (long_video_of u named)
]

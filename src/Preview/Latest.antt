-- ===== src/Preview/Latest.antt =====
-- app/static/js/main.js, `updateVideoPreview`: no late answer is shown in the preview of another link.
use fetchly.Common.{
  ℕ, ◌+◌, ◌≡◌, refl, sym, String, Bool, true, false, not, ◌&&◌, ◌||◌, Option, none, some, List, [],
  ◌∷◌, ◌==◌, if◌then◌else◌, eqb, ltb, arith, eq_self, if_both, Bool-cases, Option-cases, inl, inr,
  subst,
}
use mathlib.Core.Option.{some-ne-none, some-injective}
use fetchly.Preview.{
  Meta, dashes, metadata, login_required, unavailable, Update, Preview, empty_form,
  hide_video_preview, abort_and_reset_preview, is_controller, is_aborted, end_update, find_update,
  Info, found, asks_login, fails, update_video_preview, on_info, on_thumbnail, FormEvent, types,
  changes, timer_fires, submits, submitted, picture_fails, info_comes, thumbnail_comes, on_change,
  with_update, is_some, on_form_event, run_form,
}

-- What is shown was fetched for a link.
abbrev pub is_meta_of : String → Meta → Bool
is_meta_of url dashes = true
is_meta_of url (metadata u) = u == url
is_meta_of url (login_required u) = u == url
is_meta_of url (unavailable u) = u == url

abbrev pub is_picture_of : String → Option String → Bool
is_picture_of url none = true
is_picture_of url (some u) = u == url

-- The current update is for the last link, and every number is used already.
IsKnown : Option ℕ → ℕ → String → Update → Type 0
IsKnown controller next last u =
    ((is_controller controller u.id && not (u.url == last)) ≡ false) × (ltb u.id next ≡ true)

abbrev AllKnown : Option ℕ → ℕ → String → List Update → Type 0
AllKnown controller next last [] = Unit {0}
AllKnown controller next last (u ∷ us) =
    IsKnown controller next last u × AllKnown controller next last us

IsLatest : Preview → Type 0
IsLatest p =
    (is_meta_of p.last_url p.meta ≡ true)
    × (is_picture_of p.last_url p.thumbnail ≡ true)
    × AllKnown p.controller p.next p.last_url p.updates

-- No update is current.
AllKnown-none :
    (controller : Option ℕ) (next : ℕ) (last url : String) (us : List Update)
    → AllKnown controller next last us
    → AllKnown none next url us
unfolding IsKnown
AllKnown-none controller next last url [] all = tt
AllKnown-none controller next last url (u ∷ us) ((same, small), rest) =
    ((refl, small), AllKnown-none controller next last url us rest)

-- A new update is current.
AllKnown-new :
    (controller : Option ℕ) (next : ℕ) (last url : String) (us : List Update)
    → AllKnown controller next last us
    → AllKnown (some next) (next + 1) url us
unfolding IsKnown
AllKnown-new controller next last url [] all = tt
AllKnown-new controller next last url (u ∷ us) ((same, small), rest) = (
  (ground (arith, eq_self url), ground (arith, small)),
  AllKnown-new controller next last url us rest,
)

found-IsKnown :
    (controller : Option ℕ) (next : ℕ) (last : String) (id : ℕ) (us : List Update) (u : Update)
    → AllKnown controller next last us
    → find_update id us ≡ some u
    → IsKnown controller next last u
found-IsKnown controller next last id [] u all e = absurd (some-ne-none u (sym e))
found-IsKnown controller next last id (v ∷ us) u (first, rest) e = elim (Bool-cases (eqb v.id id)) [
  | inl same ↦
      subst (IsKnown controller next last) (some-injective v u (ground (arith, e, same))) first
  | inr other ↦ found-IsKnown controller next last id us u rest (ground (arith, e, other))
]

end-IsLatest : (u : Update) (p : Preview) → IsLatest p → IsLatest (end_update u p)
unfolding IsLatest end_update
end-IsLatest u p (meta, picture, all) = elim (Bool-cases (is_controller p.controller u.id)) [
  | inl current ↦
      rw current
        (meta, picture, AllKnown-none p.controller p.next p.last_url p.last_url p.updates all)
  | inr late ↦ rw late (meta, picture, all)
]

-- What an update that was not aborted writes is of the last link.
current-url :
    (u : Update) (p : Preview) (late : Bool)
    → IsKnown p.controller p.next p.last_url u
    → (not (is_controller p.controller u.id) || late) ≡ false
    → (u.url == p.last_url) ≡ true
unfolding IsKnown
current-url u p late (same, small) h = ground arith

-- The update that an answer is for, when there is one.
with_update-IsLatest :
    (id : ℕ) (k : Update → Preview) (p : Preview)
    → ((u : Update) → IsKnown p.controller p.next p.last_url u → IsLatest (k u))
    → IsLatest p
    → IsLatest (with_update (find_update id p.updates) k p)
unfolding IsLatest
with_update-IsLatest id k p each latest = elim (Option-cases (find_update id p.updates)) [
  | inl nobody ↦ rw nobody latest
  | inr (u, is_u) ↦
      rw is_u (each u (found-IsKnown p.controller p.next p.last_url id p.updates u latest.2 is_u))
]

module _ (supported youtube has_video_id : String → Bool) where
  update-IsLatest :
      (p : Preview) → IsLatest p → IsLatest (update_video_preview supported youtube has_video_id p)
  unfolding IsLatest update_video_preview hide_video_preview IsKnown
  update-IsLatest p (meta, picture, all) = elim (Bool-cases (supported p.input)) [
    | inl valid ↦ rw valid (
      refl,
      if_both (λ t. is_picture_of p.input t ≡ true) (has_video_id p.input) (eq_self p.input) refl,
      (
        (ground (arith, eq_self p.input), ground arith),
        AllKnown-new p.controller p.next p.last_url p.input p.updates all,
      ),
    )
    | inr other ↦
        rw other (refl, refl, AllKnown-none p.controller p.next p.last_url p.input p.updates all)
  ]

  on_info-IsLatest :
      (u : Update) (info : Info) (p : Preview)
      → IsKnown p.controller p.next p.last_url u
      → IsLatest p
      → IsLatest (on_info supported youtube has_video_id u info p)
  unfolding on_info IsLatest
  on_info-IsLatest u found p known (meta, picture, all) =
      elim (Bool-cases (is_aborted u p || not (p.input == u.url))) [
        | inl late ↦ rw late (end-IsLatest u p (meta, picture, all))
        | inr current ↦
            let url_is = current-url u p (not (p.input == u.url)) known current in
            rw current (
              if_both IsLatest (youtube u.url)
                (end-IsLatest u (record p { meta = metadata u.url }) (url_is, picture, all))
                (url_is, picture, all))
      ]
  on_info-IsLatest u asks_login p known (meta, picture, all) =
      elim (Bool-cases (is_aborted u p || not (p.input == u.url))) [
        | inl late ↦ rw late (end-IsLatest u p (meta, picture, all))
        | inr current ↦ rw current (
            end-IsLatest u (record p { meta = login_required u.url })
              (current-url u p (not (p.input == u.url)) known current, picture, all))
      ]
  on_info-IsLatest u fails p known (meta, picture, all) = elim (Bool-cases (is_aborted u p)) [
    | inl late ↦ rw late (end-IsLatest u p (meta, picture, all))
    | inr current ↦ rw current (
        end-IsLatest u (record p { meta = unavailable u.url })
          (current-url u p false known (ground (arith, current)), picture, all))
  ]

  on_thumbnail-IsLatest :
      (u : Update) (has_picture : Bool) (p : Preview)
      → IsKnown p.controller p.next p.last_url u
      → IsLatest p
      → IsLatest (on_thumbnail supported youtube has_video_id u has_picture p)
  unfolding on_thumbnail IsLatest
  on_thumbnail-IsLatest u has_picture p known (meta, picture, all) =
      elim (Bool-cases (is_aborted u p || not (p.input == u.url))) [
        | inl late ↦ rw late (end-IsLatest u p (meta, picture, all))
        | inr current ↦ rw current (
            end-IsLatest u
              (record p { thumbnail = if has_picture then some u.url else p.thumbnail })
              (
                meta,
                if_both (λ t. is_picture_of p.last_url t ≡ true) has_picture
                    (current-url u p (not (p.input == u.url)) known current) picture,
                all,
              ))
      ]

  form_event-IsLatest :
      (e : FormEvent) (p : Preview)
      → IsLatest p
      → IsLatest (on_form_event supported youtube has_video_id e p)
  unfolding IsLatest on_form_event on_change abort_and_reset_preview hide_video_preview
  form_event-IsLatest (types s) p latest = latest
  form_event-IsLatest changes p latest =
      if_both IsLatest
        (not (p.input == "")
          && p.input == p.request_url
          && (p.debounce || is_some p.controller || p.visible))
        latest latest
  form_event-IsLatest timer_fires p latest =
      if_both IsLatest p.debounce (update-IsLatest (record p { debounce = false }) latest) latest
  form_event-IsLatest submits p (meta, picture, all) =
      if_both IsLatest (supported p.input)
        (meta, picture, AllKnown-none p.controller p.next p.last_url p.last_url p.updates all)
        (meta, picture, all)
  form_event-IsLatest submitted p (meta, picture, all) = (refl, refl, all)
  form_event-IsLatest picture_fails p (meta, picture, all) = (meta, refl, all)
  form_event-IsLatest (info_comes id info) p latest =
      with_update-IsLatest id (λ u. on_info supported youtube has_video_id u info p) p
        (λ u known. on_info-IsLatest u info p known latest) latest
  form_event-IsLatest (thumbnail_comes id has_picture) p latest =
      with_update-IsLatest id (λ u. on_thumbnail supported youtube has_video_id u has_picture p) p
        (λ u known. on_thumbnail-IsLatest u has_picture p known latest) latest

  run-IsLatest :
      (es : List FormEvent) (p : Preview)
      → IsLatest p
      → IsLatest (run_form supported youtube has_video_id es p)
  unfolding run_form
  run-IsLatest [] p latest = latest
  run-IsLatest (e ∷ es) p latest =
      run-IsLatest es (on_form_event supported youtube has_video_id e p)
        (form_event-IsLatest e p latest)

-- After any inputs, changes, timers, submits and answers in any order from an empty form, the metadata and the
-- thumbnail on the page, where there are some, are of the link that the last preview was started for.
pub preview_shows_last :
    (supported youtube has_video_id : String → Bool) (es : List FormEvent)
    → let p = run_form supported youtube has_video_id es empty_form in
      (is_meta_of p.last_url p.meta ≡ true) × (is_picture_of p.last_url p.thumbnail ≡ true)
unfolding IsLatest
preview_shows_last supported youtube has_video_id es =
    let latest = run-IsLatest supported youtube has_video_id es empty_form (refl, refl, tt) in
    (latest.0, latest.1)

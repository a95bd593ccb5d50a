-- ===== src/Preview.antt =====
-- app/static/js/main.js: the preview of the link in the form, `updateVideoPreview` and what starts it. A shown
-- text or picture is known by the link it was fetched for; links are trimmed already.
pub mod Latest
use fetchly.Common.{
  ℕ, ◌+◌, String, Bool, true, false, not, ◌&&◌, ◌||◌, Option, none, some, List, [], ◌∷◌, ◌==◌,
  if◌then◌else◌, eqb,
}

-- The metadata: dashes, or what was written for a link.
pub data Meta : Type 0 where
  dashes : Meta
  metadata login_required unavailable : String → Meta

-- An update that waits for an answer, known by its `AbortController`.
pub record Update : Type 0 where
  pub id : ℕ
  pub url : String

-- `last_url` is the link of the last update; `controller` is `previewAbortController`.
pub record Preview : Type 0 where
  pub input : String
  pub request_url : String
  pub last_url : String
  pub controller : Option ℕ
  pub next : ℕ
  pub debounce : Bool
  pub visible : Bool
  pub loading : Bool
  pub meta : Meta
  pub thumbnail : Option String
  pub updates : List Update

abbrev pub empty_form : Preview
empty_form = record {
  input = "";
  request_url = "";
  last_url = "";
  controller = none;
  next = 0;
  debounce = false;
  visible = false;
  loading = false;
  meta = dashes;
  thumbnail = none;
  updates = [];
}

unfoldable pub hide_video_preview : Preview → Preview
hide_video_preview p = record p {
  visible = false;
  thumbnail = none;
  loading = false;
  meta = dashes;
}

unfoldable pub abort_and_reset_preview : Preview → Preview
abort_and_reset_preview p = record p { request_url = ""; debounce = false; controller = none }

abbrev pub is_controller : Option ℕ → ℕ → Bool
is_controller none id = false
is_controller (some c) id = eqb c id

-- A controller that is not the current one was aborted.
abbrev pub is_aborted : Update → Preview → Bool
is_aborted u p = not (is_controller p.controller u.id)

-- The `finally` block.
unfoldable pub end_update : Update → Preview → Preview
end_update u p =
    if is_controller p.controller u.id then record p { controller = none; loading = false } else p

abbrev pub find_update : ℕ → List Update → Option Update
find_update id [] = none
find_update id (u ∷ us) = if eqb u.id id then some u else find_update id us

-- The answer of `fetchVideoInfo`.
pub data Info : Type 0 where
  found asks_login fails : Info

-- What happens to the form; an answer comes for the update of a number, once or more or never. Submitting is over when
-- the job is taken; a picture that cannot be loaded is removed.
pub data FormEvent : Type 0 where
  types : String → FormEvent
  changes timer_fires submits submitted picture_fails : FormEvent
  info_comes : ℕ → Info → FormEvent
  thumbnail_comes : ℕ → Bool → FormEvent

abbrev pub is_some : Option ℕ → Bool
is_some none = false
is_some (some c) = true

abbrev pub with_update : Option Update → (Update → Preview) → Preview → Preview
with_update none k p = p
with_update (some u) k p = k u

-- `supported` is `isValidMediaUrl`, `youtube` whether `detectPlatform` finds YouTube, and `has_video_id` whether
-- the link is one of YouTube with a video id.
module _ (supported youtube has_video_id : String → Bool) where
  -- `updateVideoPreview` up to its first await.
  unfoldable pub update_video_preview : Preview → Preview
  update_video_preview p =
      let url = p.input in
      let cleared = record (hide_video_preview p) {
        request_url = url;
        last_url = url;
        controller = none;
      } in
      if not (supported url) then record cleared { request_url = "" } else record cleared {
        controller = some p.next;
        next = p.next + 1;
        thumbnail = if has_video_id url then some url else none;
        visible = true;
        loading = true;
        updates = record { id = p.next; url = url } ∷ p.updates;
      }

  unfoldable pub on_info : Update → Info → Preview → Preview
  on_info u found p =
      if is_aborted u p || not (p.input == u.url)
      then end_update u p
      else if youtube u.url
      then end_update u (record p { meta = metadata u.url })
      else record p { meta = metadata u.url }
  on_info u asks_login p =
      if is_aborted u p || not (p.input == u.url)
      then end_update u p
      else end_update u (record p { meta = login_required u.url })
  on_info u fails p =
      if is_aborted u p
      then end_update u p
      else end_update u (record p { meta = unavailable u.url })

  -- The answer about the thumbnail, and whether there is a picture.
  unfoldable pub on_thumbnail : Update → Bool → Preview → Preview
  on_thumbnail u has_picture p =
      let thumbnail = if has_picture then some u.url else p.thumbnail in
      if is_aborted u p || not (p.input == u.url)
      then end_update u p
      else end_update u (record p { thumbnail = thumbnail })

  -- `scheduleVideoPreviewUpdateFromChange`
  unfoldable pub on_change : Preview → Preview
  on_change p =
      if not (p.input == "")
        && p.input == p.request_url
        && (p.debounce || is_some p.controller || p.visible)
      then p
      else record p { debounce = true }

  unfoldable pub on_form_event : FormEvent → Preview → Preview
  on_form_event (types s) p = record p { input = s; debounce = true }
  on_form_event changes p = on_change p
  on_form_event timer_fires p =
      if p.debounce then update_video_preview (record p { debounce = false }) else p
  on_form_event submits p = if supported p.input then abort_and_reset_preview p else p
  on_form_event submitted p = hide_video_preview (record p { input = "" })
  on_form_event picture_fails p = record p { thumbnail = none }
  on_form_event (info_comes id info) p =
      with_update (find_update id p.updates) (λ u. on_info u info p) p
  on_form_event (thumbnail_comes id has_picture) p =
      with_update (find_update id p.updates) (λ u. on_thumbnail u has_picture p) p

  unfoldable pub run_form : List FormEvent → Preview → Preview
  run_form [] p = p
  run_form (e ∷ es) p = run_form es (on_form_event e p)

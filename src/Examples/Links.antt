-- ===== src/Examples/Links.antt =====
-- Tests of Links, with a parser that knows one link.
use fetchly.Common.{String, ◌≡◌, refl, true, false, not, none, some, ◌==◌, if◌then◌else◌}
use fetchly.Common.Texts.{
  starts_with, starts_with_folded, text_length, replace_all, filter_text, all_codes, split_at,
}
use fetchly.Ecma.{text}
use fetchly.Links.{
  Url, Browser, is_video_id, segments, names_video, has_extras, normalize_text,
  normalize_youtube_url, is_valid_youtube_url, extract_youtube_video_id, detect_platform,
  is_valid_media_url, clean, accept_youtube, is_safe_redirect, parse_same_origin_url,
}
use fetchly.Links.Accepted.{extract_exact, youtube_is_media}
use fetchly.Examples.Sample.{sample_ecma}

abbrev link : String
link = "https://youtu.be/dQw4w9WgXcQ"

abbrev link_url : Url
link_url = record {
  protocol = "https:";
  username = "";
  password = "";
  port = "";
  hostname = "youtu.be";
  pathname = "/dQw4w9WgXcQ";
  origin = "https://youtu.be";
  video = none;
}

abbrev browser : Browser
browser = record {
  ecma = sample_ecma;
  parse_url = λ s. if s == link then some link_url else none;
  parse_relative = λ s. if s == link then some link_url else none;
  location_origin = "https://fetchly.example";
}

ampersands : replace_all 0 "&amp;" 4 "&" "a&amp;b&amp;&c" ≡ "a&b&&c"
unfolding replace_all starts_with
ampersands = refl

link_is_valid : is_valid_youtube_url browser (text link) ≡ true
unfolding is_valid_youtube_url normalize_youtube_url normalize_text clean accept_youtube names_video
    has_extras segments split_at is_video_id text_length all_codes replace_all filter_text
    starts_with
link_is_valid = refl

link_is_secure : starts_with_folded "https://" (clean browser link) ≡ true
unfolding clean starts_with_folded replace_all filter_text starts_with
link_is_secure = refl

link_leaves : is_safe_redirect browser (text link) ≡ false
unfolding is_safe_redirect parse_same_origin_url
link_leaves = refl

extract_exact_example :
    (is_video_id (extract_youtube_video_id browser (text link))
      ≡ is_valid_youtube_url browser (text link))
    × ((extract_youtube_video_id browser (text link) == "")
        ≡ not (is_valid_youtube_url browser (text link)))
extract_exact_example = extract_exact browser (text link)

youtube_is_media_example :
    (detect_platform browser (text link) ≡ some "youtube")
    × (is_valid_media_url browser (text link) ≡ true)
youtube_is_media_example = youtube_is_media browser link link_is_valid link_is_secure

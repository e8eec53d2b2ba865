-- ===== src/Asgi/Selection/Samples.antt =====
-- A few requests: tests, and the theorems at them.
use without.Prelude.{
  map, ◌≢◌, ℕ, ◌≡◌, refl, true, false, Option, none, some, ◌⊎◌, List, [], ◌∷◌, if◌then◌else◌, arith,
}
use without.Prelude.Eq.{◌==◌}
use without.Asgi.Bytes.{
  Bytes, bytes, bytes_key, lower, all_digits, int_from, starts_with, contains, partition, strip,
  strip_left, strip_right,
}
use without.Asgi.Headers.{RawHeaders, get_all, first, replace}
use without.Asgi.Headers.Laws.{get_all-replace}
use without.Asgi.Selection.{
  Selection, whole, span, not_modified, unsatisfiable, digits, suffix_span, span_from, byte_span,
  span_for, join_commas, quoted, after_weak, tag_at, out_of_fuel, tags_from, entity_tags, opaque_of,
  any_matches, has_star, unmodified_since, is_current, range_allowed, selection_for,
}
use without.Asgi.Selection.Spans.{IsWithin, selection_for-IsWithin}
use without.Asgi.Selection.Tags.{EntityTag, tag_text, tags_from-enough, entity_tags-texts}
use without.Asgi.Selection.Precedence.{is_current-no_dates, selection_for-weak}

-- A reading of dates that knows two of them.
abbrev dates : Bytes → Option ℕ
dates b = if b == bytes "Monday" then some 100 else if b == bytes "Tuesday" then some 200 else none

abbrev etag : Bytes
etag = bytes "\"v1\""

-- Names all that an answer unfolds.
answer : Bytes → RawHeaders → Selection
unfolding lower all_digits int_from starts_with contains partition strip strip_left strip_right
    get_all first digits suffix_span span_from byte_span span_for join_commas quoted after_weak
    tag_at tags_from entity_tags opaque_of any_matches has_star unmodified_since is_current
    range_allowed selection_for
answer method raw = selection_for dates 10 method raw (some etag) (some 150)

a_range : answer (bytes "GET") ((bytes "Range", bytes "bytes=2-50") ∷ []) ≡ span 2 9
unfolding answer
a_range = refl

a_suffix : answer (bytes "GET") ((bytes "range", bytes "bytes=-3") ∷ []) ≡ span 7 9
unfolding answer
a_suffix = refl

beyond : answer (bytes "GET") ((bytes "range", bytes "bytes=10-") ∷ []) ≡ unsatisfiable
unfolding answer
beyond = refl

current_tag :
    answer (bytes "HEAD") ((bytes "if-none-match", bytes "\"a,b\", W/\"v1\"") ∷ []) ≡ not_modified
unfolding answer
current_tag = refl

stale_date : answer (bytes "GET") ((bytes "if-modified-since", bytes "Monday") ∷ []) ≡ whole
unfolding answer
stale_date = refl

selection_for-IsWithin_example :
    IsWithin 10 (answer (bytes "GET") ((bytes "range", bytes "bytes=2-50") ∷ []))
unfolding answer
selection_for-IsWithin_example =
    selection_for-IsWithin dates 10 (bytes "GET") ((bytes "range", bytes "bytes=2-50") ∷ [])
      (some etag) (some 150)

tags_from-enough_example :
    (tags_from 50 (bytes "\"a\", *") ≢ out_of_fuel)
    × (tags_from 50 (bytes "\"a\", *") ≡ tags_from 6 (bytes "\"a\", *"))
tags_from-enough_example = tags_from-enough 50 (bytes "\"a\", *") (omega arith)

abbrev two_tags : List EntityTag
two_tags =
    record { is_weak = true; opaque = bytes "a,b" }
    ∷ record { is_weak = false; opaque = bytes "" }
    ∷ []

entity_tags-texts_example : entity_tags (map tag_text two_tags) ≡ map tag_text two_tags
unfolding contains
entity_tags-texts_example = entity_tags-texts two_tags (refl, (refl, tt))

abbrev conditional : RawHeaders
conditional =
    (bytes "If-None-Match", bytes "broken") ∷ (bytes "If-Modified-Since", bytes "Tuesday") ∷ []

is_current-no_dates_example :
    is_current dates conditional (some etag) (some 150)
    ≡ is_current (λ b. none) conditional (some etag) none
unfolding get_all lower
is_current-no_dates_example =
    is_current-no_dates dates (λ b. none) conditional (some etag) (some 150) none (bytes "broken")
      [] refl

abbrev spliced : RawHeaders
spliced = (bytes "If-Range", bytes "W/\"v1\"") ∷ (bytes "Range", bytes "bytes=0-1") ∷ []

selection_for-weak_example :
    (selection_for dates 10 (bytes "GET") spliced (some (bytes "W/\"v1\"")) (some 150) ≡ whole)
    ⊎ (selection_for dates 10 (bytes "GET") spliced (some (bytes "W/\"v1\"")) (some 150)
        ≡ not_modified)
unfolding first lower starts_with
selection_for-weak_example =
    selection_for-weak dates 10 spliced (bytes "W/\"v1\"") (bytes "W/\"v1\"") (some 150) refl refl
      refl

get_all-replace_example :
    get_all (replace conditional (bytes "if-none-match") (bytes "x")) (bytes "IF-NONE-MATCH") ≡ (
      if lower (bytes "if-none-match") == lower (bytes "IF-NONE-MATCH")
      then bytes "x" ∷ []
      else get_all conditional (bytes "IF-NONE-MATCH"))
get_all-replace_example =
    get_all-replace conditional (bytes "if-none-match") (bytes "x") (bytes "IF-NONE-MATCH")

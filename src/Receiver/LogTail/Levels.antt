-- ===== src/Receiver/LogTail/Levels.antt =====
-- Where the level of an event comes from.
use taplytix.Prelude.{◌≡◌, ◌≢◌, refl, sym, ap, ◌∙◌, true, some, [], ◌∷◌, ◌++◌, Str, bytes, str_eq}
use taplytix.Prelude.Text.{IsFree, cut_at-append, to_lower}
use taplytix.Clock.{Time}
use taplytix.Floats.{Floats}
use taplytix.Receiver.LogTail.{
  is_one_of, tag_words, tag_of, or_else, normalize_level, find_level, plain_level, parse_plain,
  Readers, blank_event,
}
use taplytix.Receiver.LogTail.Structured.{set_field, set_fields}

find_level-tag :
    (before word after : Str)
    → IsFree b'[' before
    → IsFree b']' word
    → is_one_of (to_lower word) tag_words ≡ true
    → find_level (before ++ (b'[' ∷ (word ++ (b']' ∷ after)))) ≡ some word
unfolding find_level
find_level-tag [] word after h k w =
    ap (λ o. or_else (tag_of o) (find_level (word ++ (b']' ∷ after))))
      (cut_at-append b']' word after k)
    ∙ rw w
find_level-tag (c ∷ before) word after h k w = rw h.0 (find_level-tag before word after h.1 k w)

-- A plain line with a level in brackets, in any case and before any other bracket, becomes an event of
-- the level that the word names, with the whole line as its body.
pub parse_plain-tag :
    (now : Time) (service before word after : Str)
    → IsFree b'[' before
    → IsFree b']' word
    → is_one_of (to_lower word) tag_words ≡ true
    → let line = before ++ (b'[' ∷ (word ++ (b']' ∷ after))) in
      ((parse_plain now line service).level ≡ normalize_level word)
      × ((parse_plain now line service).body ≡ line)
unfolding parse_plain
parse_plain-tag now service before word after h k w =
    (ap plain_level (find_level-tag before word after h k w), refl)

-- Two pairs that both name the level: the one that Go's iteration over the map comes to last wins, so
-- the level of one line is not determined.
pub set_fields-order :
    {F : Type 0} (fl : Floats F) (rd : Readers F) (now : Time) (service v w : Str)
    → normalize_level v ≢ normalize_level w
    → (set_fields fl rd now
        (blank_event service)
        ((bytes "level", v) ∷ (bytes "severity", w) ∷ [])).level
      ≢ (set_fields fl rd now
          (blank_event service)
          ((bytes "severity", w) ∷ (bytes "level", v) ∷ [])).level
unfolding set_fields set_field str_eq to_lower
set_fields-order fl rd now service v w h = λ e. h (sym e)

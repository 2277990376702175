-- ===== src/Receiver/Statsd/Lines.antt =====
-- What the parser makes of a well-formed line: the name, the value, the kind, the rate and the tags.
use taplytix.Prelude.{
  ◌≡◌, refl, ap, ◌∙◌, true, Option, some, List, [], ◌∷◌, ◌++◌, map, All, Str, str_eq,
}
use taplytix.Prelude.Int.{pos}
use taplytix.Prelude.Maps.{Map, insert}
use taplytix.Prelude.Text.{join, IsFree, cut_at-append, split_on-join}
use taplytix.Clock.{Time}
use taplytix.Floats.{Floats}
use taplytix.Model.{MetricKind, MetricEvent}
use taplytix.Receiver.Statsd.{
  statsd_kind, add_tag, add_tags, parse_tags, apply_suffixes, fresh_event, with_kind, from_parts,
  from_cut, parse_line,
}

-- `key:value`
abbrev pub tag_text : Str × Str → Str
tag_text (k, v) = k ++ (b':' ∷ v)

abbrev pub insert_all : Map Str → List (Str × Str) → Map Str
insert_all m [] = m
insert_all m ((k, v) ∷ tags) = insert_all (insert k v m) tags

-- A key holds no colon, and neither part holds a comma.
abbrev pub IsTag : Str × Str → Type 0
IsTag (k, v) = IsFree b':' k × IsFree b',' (tag_text (k, v))

add_tags-texts :
    (tags : List (Str × Str)) (m : Map Str)
    → All IsTag tags
    → add_tags m (map tag_text tags) ≡ insert_all m tags
unfolding add_tags
add_tags-texts [] m h = refl
add_tags-texts ((k, v) ∷ tags) m h =
    ap (λ o. add_tags (add_tag m (tag_text (k, v)) o) (map tag_text tags))
      (cut_at-append b':' k v h.0.0)
    ∙ add_tags-texts tags (insert k v m) h.1

frees : (tags : List (Str × Str)) → All IsTag tags → All (IsFree b',') (map tag_text tags)
frees [] h = tt
frees (t ∷ tags) h = (h.0.1, frees tags h.1)

pub parse_tags-join :
    (t : Str × Str) (tags : List (Str × Str))
    → All IsTag (t ∷ tags)
    → parse_tags (join b',' (map tag_text (t ∷ tags))) ≡ insert_all [] (t ∷ tags)
unfolding parse_tags
parse_tags-join t tags h =
    ap (add_tags []) (split_on-join b',' (tag_text t) (map tag_text tags) (frees (t ∷ tags) h))
    ∙ add_tags-texts (t ∷ tags) [] h

module _ {F : Type 0} (fl : Floats F) (parse_float : Str → Option F) (now : Time)
    (source : Str) where
  -- `name:value|type`, and the suffixes behind further bars.
  abbrev pub line_text : Str → Str → Str → List Str → Str
  line_text name value typ suffixes = name ++ (b':' ∷ join b'|' (value ∷ typ ∷ suffixes))

  -- A line is read field by field: where its name holds no colon and no other field holds a bar, the
  -- line is rejected exactly when the number or the type is not readable, and otherwise the event has
  -- the name, the number, the kind of the type, and what the suffixes change, from left to right.
  pub parse_line-text :
      (name value typ : Str) (suffixes : List Str)
      → IsFree b':' name
      → All (IsFree b'|') (value ∷ typ ∷ suffixes)
      → parse_line fl parse_float now source (line_text name value typ suffixes)
        ≡ with_kind fl parse_float now source name (parse_float value) (statsd_kind typ) suffixes
  unfolding parse_line
  parse_line-text name value typ suffixes h fields =
      ap (from_cut fl parse_float now source)
        (cut_at-append b':' name (join b'|' (value ∷ typ ∷ suffixes)) h)
      ∙ ap (from_parts fl parse_float now source name)
          (split_on-join b'|' value (typ ∷ suffixes) fields)

  -- What the two suffixes make of the event, in either order.
  both_suffixes :
      (name value typ rate : Str) (t : Str × Str) (tags : List (Str × Str)) (v r : F)
      (kind : MetricKind)
      → All IsTag (t ∷ tags)
      → parse_float value ≡ some v
      → parse_float rate ≡ some r
      → statsd_kind typ ≡ some kind
      → fl.lt (fl.of_int (pos 0)) r ≡ true
      → fl.lt r (fl.of_int (pos 1)) ≡ true
      → let at_rate = b'@' ∷ rate in
        let tagged = b'#' ∷ join b',' (map tag_text (t ∷ tags)) in
        let read = with_kind fl parse_float now source name (parse_float value) (statsd_kind typ) in
        let ev : MetricEvent F =
          record (fresh_event fl parse_float now source name (fl.div v r) kind) {
            labels = insert_all [] (t ∷ tags);
          } in
        (read (at_rate ∷ tagged ∷ []) ≡ some ev) × (read (tagged ∷ at_rate ∷ []) ≡ some ev)
  unfolding apply_suffixes str_eq
  both_suffixes name value typ rate t tags v r kind good ev er ek low high = (
    simp (ev, ek, er, low, high, parse_tags-join t tags good),
    simp (ev, ek, er, low, high, parse_tags-join t tags good),
  )

  -- A line with a sample rate between 0 and 1 and with tags, in either order: the value is divided by
  -- the rate and the labels are the tags, a repeated key keeping its last value.
  pub parse_line-either_order :
      (name value typ rate : Str) (t : Str × Str) (tags : List (Str × Str)) (v r : F)
      (kind : MetricKind)
      → IsFree b':' name
      → IsFree b'|' value
      → IsFree b'|' typ
      → IsFree b'|' rate
      → IsFree b'|' (join b',' (map tag_text (t ∷ tags)))
      → All IsTag (t ∷ tags)
      → parse_float value ≡ some v
      → parse_float rate ≡ some r
      → statsd_kind typ ≡ some kind
      → fl.lt (fl.of_int (pos 0)) r ≡ true
      → fl.lt r (fl.of_int (pos 1)) ≡ true
      → let at_rate = b'@' ∷ rate in
        let tagged = b'#' ∷ join b',' (map tag_text (t ∷ tags)) in
        let ev : MetricEvent F =
          record (fresh_event fl parse_float now source name (fl.div v r) kind) {
            labels = insert_all [] (t ∷ tags);
          } in
        (parse_line fl parse_float now source (line_text name value typ (at_rate ∷ tagged ∷ []))
          ≡ some ev)
        × (parse_line fl parse_float now source (line_text name value typ (tagged ∷ at_rate ∷ []))
            ≡ some ev)
  parse_line-either_order name value typ rate t tags v r kind hn hv ht hr hs good ev er ek low
        high =
      let both = both_suffixes name value typ rate t tags v r kind good ev er ek low high in
      (
        parse_line-text name value typ (at_rate ∷ tagged ∷ []) hn
              (hv, (ht, ((refl, hr), ((refl, hs), tt))))
            ∙ both.0,
        parse_line-text name value typ (tagged ∷ at_rate ∷ []) hn
              (hv, (ht, ((refl, hs), ((refl, hr), tt))))
            ∙ both.1,
      )
    where
      at_rate : Str
      at_rate = b'@' ∷ rate

      tagged : Str
      tagged = b'#' ∷ join b',' (map tag_text (t ∷ tags))

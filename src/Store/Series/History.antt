-- ===== src/Store/Series/History.antt =====
-- What a series shows after a sequence of samples.
use taplytix.Prelude.{
  ℕ, ◌≡◌, refl, ap, ◌∙◌, List, [], ◌∷◌, map, length, take_last, if◌then◌else◌, arith, Str, ◌-◌,
  Bool-cases, inl, inr,
}
use taplytix.Prelude.Int.{ℤ, pos, pos_part, leb_ℤ}
use taplytix.Prelude.Maps.{Map}
use taplytix.Floats.{Floats}
use taplytix.Model.{MetricKind, MetricEvent}
use taplytix.Store.Ring
use taplytix.Store.Ring.{ring_cap}
use taplytix.Store.Ring.Window.{slice-history}
use taplytix.Store.Series.{
  Series, default_series_capacity, new_series, values, sparkline, push_sample,
}

unfoldable pub push_samples : {F : Type 0} → Series F → List (MetricEvent F) → Series F
push_samples s [] = s
push_samples s (e ∷ es) = push_samples (push_sample s e) es

abbrev pub event_value : {F : Type 0} → MetricEvent F → F
event_value e = e.value

abbrev pub last_or : {F : Type 0} → F → List (MetricEvent F) → F
last_or d [] = d
last_or d (e ∷ es) = last_or e.value es

ring-push_samples :
    {F : Type 0} (es : List (MetricEvent F)) (s : Series F)
    → (push_samples s es).ring ≡ Ring.push_all s.ring (map event_value es)
unfolding push_samples push_sample Ring.push_all
ring-push_samples [] s = refl
ring-push_samples (e ∷ es) s = ring-push_samples es (push_sample s e)

last-push_samples :
    {F : Type 0} (es : List (MetricEvent F)) (s : Series F)
    → (push_samples s es).last ≡ last_or s.last es
unfolding push_samples push_sample
last-push_samples [] s = refl
last-push_samples (e ∷ es) s = last-push_samples es (push_sample s e)

-- The capacity that `NewSeries` settles on.
abbrev pub series_cap : ℤ → ℕ
series_cap c = ring_cap (if leb_ℤ c (pos 0) then default_series_capacity else c)

module _ {F : Type 0} (fl : Floats F) where
  -- A series that was new holds the newest samples pushed into it, oldest first: 300 of them where
  -- the capacity asked for was not positive, otherwise as many as was asked for. `Last` is the
  -- sample that came last, or 0 if none came.
  pub series_history :
      (name : Str) (kind : MetricKind) (labels : Map Str) (c : ℤ) (es : List (MetricEvent F))
      → let s = push_samples (new_series fl name kind labels c) es in
        (values fl s ≡ take_last (if leb_ℤ c (pos 0) then 300 else pos_part c) (map event_value es))
        × (s.last ≡ last_or (fl.of_int (pos 0)) es)
  unfolding values
  series_history name kind labels c es = (
    ap (Ring.slice (fl.of_int (pos 0))) (ring-push_samples es fresh)
        ∙ unfold new_series in
          slice-history (fl.of_int (pos 0)) (if leb_ℤ c (pos 0) then default_series_capacity else c)
            (map event_value es)
          ∙ ap (λ k. take_last k (map event_value es)) cap_is,
    last-push_samples es fresh ∙ unfold new_series in refl,
  )
    where
      fresh : Series F
      fresh = new_series fl name kind labels c

      cap_is : series_cap c ≡ (if leb_ℤ c (pos 0) then 300 else pos_part c)
      cap_is = ground arith

  -- `Sparkline` returns the newest `n` samples, oldest first, and all of them if `n` is not positive
  -- or there are no more.
  pub sparkline-eq-take_last :
      (s : Series F) (n : ℤ)
      → sparkline fl s n
        ≡ (if leb_ℤ n (pos 0) then values fl s else take_last (pos_part n) (values fl s))
  unfolding sparkline
  sparkline-eq-take_last s n = elim (Bool-cases (leb_ℤ n (pos 0))) [
    | inl none_asked ↦ rw none_asked
    | inr some_asked ↦ elim (Bool-cases (leb_ℤ (pos (length (values fl s))) n)) [
      | inl short ↦
          let e : length (values fl s) - pos_part n ≡ 0 = ground arith in rw (some_asked, short, e)
      | inr long ↦ rw (some_asked, long)
    ]
  ]

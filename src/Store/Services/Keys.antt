-- ===== src/Store/Services/Keys.antt =====
-- `metricKey`: what the key forgets of the labels.
use mathlib.Core.List.{append_assoc}
use taplytix.Prelude.{◌≡◌, true, [], ◌∷◌, ◌++◌, Str, bytes, str_less, str_eq_refl, str_less_asym}
use taplytix.Prelude.Maps.{lookup}
use taplytix.Prelude.Sort.{sort_by}
use taplytix.Store.Services.{metric_key}

-- One label whose value holds the text `}{` and `=` folds to the key of two labels: different label
-- sets share a series.
pub metric_key-collides :
    (name k v j w : Str)
    → str_less k j ≡ true
    → metric_key name ((k, v ++ (bytes "}{" ++ (j ++ (bytes "=" ++ w)))) ∷ [])
      ≡ metric_key name ((k, v) ∷ (j, w) ∷ [])
unfolding metric_key sort_by lookup
metric_key-collides name k v j w below =
    let apart = str_less_asym k j below in simp (str_eq_refl, apart.0, apart.1, append_assoc)

-- ===== src/Tests/Keys.antt =====
-- Keys of the logs panel.
use taplytix.Prelude.{Bool, true, false, List, [], ◌∷◌, ◌++◌, bytes}
use taplytix.Floats.Exact.{Exact}
use taplytix.Store.Services.{Store, new_store}
use taplytix.Panels.Logs.Updates.{Msg, key, Widgets}

abbrev no_logs : Store Exact
no_logs = new_store

-- A viewport that is only at the bottom or not, and goes off it by a key; a key is typed as it is.
abbrev scroll : Widgets Bool
scroll = record {
  at_bottom = λ v. v;
  goto_bottom = λ v. true;
  set_content = λ evs v. false;
  set_height = λ h v. v;
  view_update = λ m v. false;
  type_key = λ k text. text ++ k;
}

-- The filter "u" is typed, and the viewport is scrolled.
abbrev typed : List (Store Exact × Msg)
typed =
    (no_logs, key (bytes "/"))
    ∷ (no_logs, key (bytes "u"))
    ∷ (no_logs, key (bytes "enter"))
    ∷ (no_logs, key (bytes "up"))
    ∷ []

-- ===== src/Command/Sources.antt =====
-- Which configuration cmd/taplytix/main.go starts with.
use mathlib.Core.List.{append_assoc, append-nil}
use taplytix.Prelude.{
  ◌≡◌, refl, sym, ap, ◌∙◌, true, false, List, [], ◌∷◌, ◌++◌, if◌then◌else◌, Str, str_eq, Bool-cases,
  inl, inr,
}
use taplytix.Config.{
  Config, SourceConfig, default_config, path_error, wrapped, other_error, Loaded, loaded, failed,
  load, decode_result,
}
use taplytix.Command.{
  Flags, add_source, logs_source, prom_source, statsd_source, add_flag_sources, start_config,
}

abbrev pub if_set : Str → SourceConfig → List SourceConfig
if_set flag src = if str_eq flag [] then [] else src ∷ []

-- A source for each flag that is set.
abbrev pub flag_sources : Flags → List SourceConfig
flag_sources flags =
    if_set flags.logs_path (logs_source flags.logs_path)
    ++ (if_set flags.prom_endpoint (prom_source flags.prom_endpoint)
        ++ if_set flags.statsd_addr (statsd_source flags.statsd_addr))

add_source-append :
    (flag : Str) (src : SourceConfig) (sources : List SourceConfig)
    → add_source flag src sources ≡ sources ++ if_set flag src
add_source-append flag src sources = elim (Bool-cases (str_eq flag [])) [
  | inl unset ↦ rw unset (sym (append-nil sources))
  | inr is_set ↦ rw is_set
]

module _ {F : Type 0} where
  -- The configuration with the sources of the flags behind its own.
  abbrev pub with_flags : Flags → Config F → Config F
  with_flags flags cfg = record cfg { sources = cfg.sources ++ flag_sources flags }

  add_flag_sources_lem :
      (flags : Flags) (cfg : Config F) → add_flag_sources flags cfg ≡ with_flags flags cfg
  unfolding add_flag_sources
  add_flag_sources_lem flags cfg =
      ap (λ sources. record cfg { sources = sources })
        (add_source-append flags.statsd_addr (statsd_source flags.statsd_addr) after_prom
          ∙ ap (λ l. l ++ last)
              (add_source-append flags.prom_endpoint (prom_source flags.prom_endpoint) after_logs
                ∙ ap (λ l. l ++ middle)
                    (add_source-append flags.logs_path (logs_source flags.logs_path) cfg.sources))
          ∙ append_assoc (cfg.sources ++ first) middle last
          ∙ append_assoc cfg.sources first (middle ++ last))
    where
      first : List SourceConfig
      first = if_set flags.logs_path (logs_source flags.logs_path)

      middle : List SourceConfig
      middle = if_set flags.prom_endpoint (prom_source flags.prom_endpoint)

      last : List SourceConfig
      last = if_set flags.statsd_addr (statsd_source flags.statsd_addr)

      after_logs : List SourceConfig
      after_logs = add_source flags.logs_path (logs_source flags.logs_path) cfg.sources

      after_prom : List SourceConfig
      after_prom = add_source flags.prom_endpoint (prom_source flags.prom_endpoint) after_logs

  -- `start` runs with the configuration of the file, which has none of the default sources but what the
  -- file says, or with the default one where the file does not exist; either way the sources of the
  -- flags come behind. Where the file cannot be read for another reason, or cannot be decoded, it stops
  -- with that error.
  pub start_config-load :
      (decode : Str → Config F → Loaded (Config F)) (flags : Flags) (path text why : Str)
      (cfg : Config F)
      → (start_config flags (load decode path (failed (path_error true)))
          ≡ loaded (with_flags flags default_config))
        × (start_config flags (load decode path (failed (path_error false)))
            ≡ failed (wrapped path (path_error false)))
        × (decode text (record default_config { sources = [] }) ≡ failed (other_error why)
            → start_config flags (load decode path (loaded text))
              ≡ failed (wrapped path (other_error why)))
        × (decode text (record default_config { sources = [] }) ≡ loaded cfg
            → start_config flags (load decode path (loaded text)) ≡ loaded (with_flags flags cfg))
  unfolding start_config load
  start_config-load decode flags path text why cfg = (
    ap loaded (add_flag_sources_lem flags default_config),
    refl,
    λ e. ap (λ r. start_config flags (decode_result decode path r)) e,
    λ e.
        ap (λ r. start_config flags (decode_result decode path r)) e
        ∙ ap loaded (add_flag_sources_lem flags cfg),
  )

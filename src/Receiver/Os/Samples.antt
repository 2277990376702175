-- ===== src/Receiver/Os/Samples.antt =====
-- Series of samples of internal/receiver/os.go.
use taplytix.Prelude.{
  ℕ, ◌-◌, ◌≤◌, ◌<◌, ◌≡◌, refl, sym, ap, ◌∙◌, true, false, Option, none, some, arith, ltb,
}
use taplytix.Prelude.Numerals.{word}
use taplytix.Clock.{is_zero}
use taplytix.Floats.{Floats}
use taplytix.Receiver.Outlet.{emit_to}
use taplytix.Receiver.Os.{
  OsSidecar, Reading, proc_total, read_host_jiffies, read_rss, sub_u64, sample_linux, sample_from,
  emit_cpu, emit_rss, remember, os_gauge, cpu_name, cpu_percent,
}

module _ {F : Type 0} (fl : Floats F) where
  -- A reading of the process and of the host; `none` where the line of the host cannot be read.
  pub record Reads (rd : Reading) (proc : ℕ) (host : Option ℕ) : Type 0 where
    pub of_proc : proc_total rd.proc_stat ≡ some proc
    pub of_host : read_host_jiffies rd.host_stat ≡ host
    pub no_rss : read_rss rd.status ≡ none
    pub clock : is_zero rd.now ≡ false

  sample-Reads :
      (rd : Reading) (proc : ℕ) (host : Option ℕ) (r : OsSidecar F)
      → Reads rd proc host
      → sample_linux fl rd r ≡ remember fl rd proc host (emit_cpu fl rd proc host r)
  unfolding sample_linux
  sample-Reads rd proc host r h =
      ap (λ o. sample_from fl rd o r) h.of_proc
      ∙ ap
          (λ o.
            emit_rss fl rd (read_rss rd.status) (remember fl rd proc o (emit_cpu fl rd proc o r)))
          h.of_host
      ∙ ap (λ o. emit_rss fl rd o (remember fl rd proc host (emit_cpu fl rd proc host r))) h.no_rss
      ∙ emit_nothing rd (remember fl rd proc host (emit_cpu fl rd proc host r))
    where
      emit_nothing : (rd : Reading) (r : OsSidecar F) → emit_rss fl rd none r ≡ r
      emit_nothing rd r = refl

  emit_cpu_from :
      (rd : Reading) (proc host : ℕ) (r : OsSidecar F) (d_host : ℕ)
      → is_zero r.last_time ≡ false
      → sub_u64 host r.last_total ≡ d_host
      → 0 < d_host
      → (emit_cpu fl rd proc (some host) r).out
        ≡ emit_to r.out
            (os_gauge cpu_name rd.now (cpu_percent fl (sub_u64 proc r.last_proc) d_host rd.cpus))
  unfolding emit_cpu
  emit_cpu_from rd proc host r d_host z e some_host =
      let busy : ltb 0 (sub_u64 host r.last_total) ≡ true = ground arith in rw (z, busy) (rw e refl)

  second_sample :
      (rd₁ rd₂ : Reading) (p₁ p₂ : ℕ) (h₁ : Option ℕ) (h₂ d_host : ℕ) (r : OsSidecar F)
      → Reads rd₁ p₁ h₁
      → Reads rd₂ p₂ (some h₂)
      → sub_u64 h₂ (remember fl rd₁ p₁ h₁ r).last_total ≡ d_host
      → 0 < d_host
      → (sample_linux fl rd₂ (sample_linux fl rd₁ r)).out
        ≡ emit_to
            (sample_linux fl rd₁ r).out
            (os_gauge cpu_name rd₂.now (cpu_percent fl (sub_u64 p₂ p₁) d_host rd₂.cpus))
  second_sample rd₁ rd₂ p₁ p₂ h₁ h₂ d_host r a b e busy =
      let r₁ : OsSidecar F = remember fl rd₁ p₁ h₁ (emit_cpu fl rd₁ p₁ h₁ r) in
      ap (λ r. (sample_linux fl rd₂ r).out) (sample-Reads rd₁ p₁ h₁ r a)
      ∙ ap (λ r. r.out) (sample-Reads rd₂ p₂ (some h₂) r₁ b)
      ∙ emit_cpu_from rd₂ p₂ h₂ r₁ d_host a.clock e busy
      ∙ ap
          (λ (r : OsSidecar F).
            emit_to r.out
              (os_gauge cpu_name rd₂.now (cpu_percent fl (sub_u64 p₂ p₁) d_host rd₂.cpus)))
          (sym (sample-Reads rd₁ p₁ h₁ r a))

  -- After a sample in which the host could not be read, the next one divides the ticks of the process
  -- since then by all the ticks of the host since it was booted.
  pub sample-after_failure :
      (rd₁ rd₂ : Reading) (p₁ p₂ h₂ : ℕ) (r : OsSidecar F)
      → Reads rd₁ p₁ none
      → Reads rd₂ p₂ (some h₂)
      → p₁ ≤ p₂
      → p₂ < word
      → 0 < h₂
      → h₂ < word
      → (sample_linux fl rd₂ (sample_linux fl rd₁ r)).out
        ≡ emit_to r.out (os_gauge cpu_name rd₂.now (cpu_percent fl (p₂ - p₁) h₂ rd₂.cpus))
  sample-after_failure rd₁ rd₂ p₁ p₂ h₂ r a b p q g h =
      let procs : sub_u64 p₂ p₁ ≡ p₂ - p₁ = omega arith in
      second_sample rd₁ rd₂ p₁ p₂ none h₂ h₂ r a b (omega arith) (omega arith)
      ∙ ap
          (λ n.
            emit_to (sample_linux fl rd₁ r).out
              (os_gauge cpu_name rd₂.now (cpu_percent fl n h₂ rd₂.cpus)))
          procs
      ∙ ap (λ o. emit_to o (os_gauge cpu_name rd₂.now (cpu_percent fl (p₂ - p₁) h₂ rd₂.cpus)))
          (ap (λ r. r.out) (sample-Reads rd₁ p₁ none r a) ∙ no_host rd₁ p₁ r)
    where
      no_host :
          (rd : Reading) (proc : ℕ) (r : OsSidecar F) → (emit_cpu fl rd proc none r).out ≡ r.out
      no_host rd proc r = unfold emit_cpu in ground arith

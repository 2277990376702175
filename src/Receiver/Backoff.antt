-- ===== src/Receiver/Backoff.antt =====
-- The wait between attempts in the loops of internal/receiver/prometheus.go and remote.go:
-- `if backoff < 30*time.Second { backoff *= 2 }`.
use taplytix.Prelude.{ℕ, zero, suc, ◌*◌, ◌^◌, ◌≡◌, refl, arith, if◌then◌else◌, ltb, min}
use taplytix.Clock.{second}

abbrev pub grow : ℕ → ℕ
grow backoff = if ltb backoff (30 * second) then backoff * 2 else backoff

-- The wait after `n` more failures.
unfoldable pub grow_times : ℕ → ℕ → ℕ
grow_times zero backoff = backoff
grow_times (suc n) backoff = grow_times n (grow backoff)

grow_times-32 : (n : ℕ) → grow_times n (32 * second) ≡ 32 * second
unfolding grow_times
grow_times-32 zero = refl
grow_times-32 (suc n) = grow_times-32 n

-- From one second the wait doubles five times, and stays at 32 seconds.
pub grow_times_lem : (n : ℕ) → grow_times n second ≡ second * 2 ^ min n 5
unfolding grow_times
grow_times_lem zero = refl
grow_times_lem (suc zero) = refl
grow_times_lem (suc (suc zero)) = refl
grow_times_lem (suc (suc (suc zero))) = refl
grow_times_lem (suc (suc (suc (suc zero)))) = refl
grow_times_lem (suc (suc (suc (suc (suc n))))) =
    let five : min (suc (suc (suc (suc (suc n))))) 5 ≡ 5 = omega arith in rw five (grow_times-32 n)

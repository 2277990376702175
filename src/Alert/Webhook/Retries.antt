-- ===== src/Alert/Webhook/Retries.antt =====
-- When `Notify` reports success.
use taplytix.Prelude.{ℕ, zero, suc, ◌+◌, ◌≤◌, ◌≡◌, Bool, true, false, not, List, [], ◌∷◌, length}
use taplytix.Alert.Webhook.{Answer, no_request, unreachable, status, Attempt, is_success}

-- The answer makes the loop try again.
abbrev pub is_retried : Answer → Bool
is_retried no_request = false
is_retried unreachable = true
is_retried (status code) = not (is_success code)

abbrev pub is_ok : Answer → Bool
is_ok (status code) = is_success code
is_ok no_request = false
is_ok unreachable = false

-- The attempts up to and with the one that got through: each earlier one was answered by a failure.
abbrev pub GotThrough : ℕ → List Attempt → Type 0
GotThrough n [] = ⊥
GotThrough zero (a ∷ rest) = ⊥
GotThrough (suc zero) (a ∷ rest) = is_ok a.answer ≡ true
GotThrough (suc (suc n)) (a ∷ rest) = (is_retried a.answer ≡ true) × GotThrough (suc n) rest

-- What is claimed of a run that got through.
abbrev Through : ℕ → List Attempt → ℕ → Type 0
Through sent tries total =
    (n : ℕ) × (total ≡ sent + suc n) × (suc n ≤ length tries) × GotThrough (suc n) tries

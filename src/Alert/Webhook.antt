-- ===== src/Alert/Webhook.antt =====
-- internal/alert/notifier/webhook.go: the retries. What each of the three attempts comes to is given:
-- whether the context is done while the attempt waits, and how the request ends.
pub mod Retries
use taplytix.Prelude.{
  ℕ, zero, suc, ◌+◌, ◌≤◌, ◌≡◌, ◌≢◌, ◌↔◌, ◌⊎◌, inl, inr, refl, ap, ◌∙◌, Bool, true, false, not, ◌&&◌,
  Option, none, some, List, [], ◌∷◌, length, if◌then◌else◌, ltb, leb, arith, Bool-cases, Str,
  str_eq,
}

pub data Answer : Type 0 where
  -- The request cannot be built.
  no_request : Answer
  -- The client reports an error.
  unreachable : Answer
  status : ℕ → Answer

pub data NotifyError : Type 0 where
  no_url no_body cancelled bad_request transport : NotifyError
  returned : ℕ → NotifyError

pub record Attempt : Type 0 where
  pub done_while_waiting : Bool
  pub answer : Answer

-- How `Notify` ends: the error, if any, and the number of requests sent.
abbrev pub Sent : Type 0
Sent = Option NotifyError × ℕ

abbrev pub is_success : ℕ → Bool
is_success code = leb 200 code && ltb code 300

-- The loop over the attempts that are left; `first` says that no wait comes before the next one, and
-- `last` is `lastErr`.
unfoldable pub attempts : Bool → Option NotifyError → ℕ → List Attempt → Sent
attempts first last sent [] = (last, sent)
attempts first last sent (a ∷ rest) =
    if not first && a.done_while_waiting
    then (some cancelled, sent)
    else elim a.answer as (λ _. Sent) [
      | no_request ↦ (some bad_request, sent)
      | unreachable ↦ attempts false (some transport) (sent + 1) rest
      | status code ↦
          let again = attempts false (some (returned code)) (sent + 1) rest in
          if is_success code then (none, sent + 1) else again
    ]

-- `Notify`; `encoded` says whether the payload can be marshalled.
unfoldable pub notify : Str → Bool → Attempt → Attempt → Attempt → Sent
unfolding attempts
notify url encoded a b c =
    if str_eq url []
    then (some no_url, 0)
    else if encoded
    then attempts true none 0 (a ∷ b ∷ c ∷ [])
    else (some no_body, 0)

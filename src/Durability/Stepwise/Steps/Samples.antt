-- ===== src/Durability/Stepwise/Steps/Samples.antt =====
-- Calls of a small run: the theorems at them.
use Prim.Native.String.{◌∷◌ as cons}
use text.Mathlib.Text.{starts_with}
use without.Prelude.{ℕ, ◌+◌, true, false, ◌||◌, ◌⊎◌, ◌≡◌, refl, none, some, [], ok, arith}
use without.Prelude.Eq.{string_key}
use without.Durability.InboxKey.{padded}
use without.Durability.Checkpointer.{record_step}
use without.Durability.Stepwise.{written, Run, is_in}
use without.Durability.Stepwise.Steps.{sleep}
use without.Durability.Stepwise.Extending.{Grant, extend_grant}
use without.Durability.Stepwise.Extending.Covers.{
  HeldUntil, IsBacked, IsNewest, extend_grant-HeldUntil,
}
use without.Durability.Stepwise.Outcomes.{opened}
use without.Durability.Stepwise.Steps.New.{IsNew}
use without.Durability.Stepwise.Steps.Noted.{slept, sleep_over, sleep_noted}
use without.Durability.Stepwise.Stories.{
  codec, moments, first_pass, today, Ordinary, unasked, play, passed, unanswered,
}

-- A sleep that is cancelled while its deadline is on its way to the store.
abbrev sleeper : Run ℕ Grant
sleeper = opened first_pass [] (play unanswered) unasked

sleeper-IsNew : IsNew "window" sleeper
unfolding play
sleeper-IsNew = (refl, refl)

sleeper_free : (starts_with "window" "inbox:" || is_in "window" []) ≡ false
unfolding is_in
sleeper_free = refl

moment_reads : moments.fromisoformat (moments.isoformat 15) ≡ some 15
unfolding padded
moment_reads = refl

sleep_accepted :
    (record_step codec first_pass "window"
      (written (moments.isoformat 15))
      7
      1007
      (play unanswered)).0
    ≡ ok (record { value = written (moments.isoformat 15); first = true })
unfolding passed
sleep_accepted = refl

sleep_noted_example :
    sleep codec Ordinary moments "window" 10 (today "window") true sleeper
    ≡ sleep_over codec Ordinary "window" 15
        (today "window")
        true
        (slept codec Ordinary moments "window" 15 (today "window") sleeper)
sleep_noted_example =
    sleep_noted codec Ordinary moments "window" 10 (today "window") true sleeper
      (record { value = written (moments.isoformat 15); first = true }) sleeper_free sleeper-IsNew
      (cons "s" (moments.isoformat 15), refl, refl) moment_reads sleep_accepted

-- A window of 30 that the store is asked for, its answers taking 14 at most.
claim-IsBacked : IsBacked none 0 14 "w" unasked (play unanswered)
unfolding play
claim-IsBacked = (
  record { token = 1; held_until = 60; alive_until = 30; alive = 30 },
  refl,
  omega arith,
  omega arith,
)

window_granted :
    (extend_grant {E = ℕ} none first_pass 30 (today "reserve") (play unanswered, unasked)).0
    ≡ ok true
unfolding passed
window_granted = refl

extend_grant-HeldUntil_example :
    let (_, (t, granted)) =
      extend_grant {E = ℕ} none first_pass 30 (today "reserve") (play unanswered, unasked) in
    HeldUntil none "w" (5 + 0 + 30) t
    × IsBacked none 0 14 "w" granted t
    × (((t ≡ play unanswered) × (granted ≡ unasked)) ⊎ IsNewest first_pass t)
extend_grant-HeldUntil_example =
    extend_grant-HeldUntil none first_pass 30 (today "reserve") (play unanswered) unasked 0 14
      claim-IsBacked (omega arith) (omega arith) (omega arith) window_granted

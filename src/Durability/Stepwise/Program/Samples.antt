-- ===== src/Durability/Stepwise/Program/Samples.antt =====
-- Passes of a small workflow: tests, and the theorems at them.
use without.Prelude.{ℕ, String, ◌≡◌, refl, none, [], ◌∷◌, ok, arith}
use without.Prelude.Eq.{string_key}
use without.Prelude.Dict.{Dict}
use without.Durability.Checkpointer.{Store}
use without.Durability.Checkpointer.Ops.{supplying, after}
use without.Durability.Checkpointer.Reads.{load}
use without.Durability.Checkpointer.Records.{Kept, after-Kept}
use without.Durability.Stepwise.{Object, written, put_text, set_of}
use without.Durability.Stepwise.Extending.Covers.{extend_grant-KeepsRecords}
use without.Durability.Stepwise.Program.{body_of}
use without.Durability.Stepwise.Program.Replay.{resume_again}
use without.Durability.Stepwise.Outcomes.{
  completed, blocked, deadlines_into, keys_where, stopped_at, opened, resume,
}
use without.Durability.Stepwise.Outcomes.Unwound.{resume-completed}
use without.Durability.Stepwise.Stories.{
  codec, moments, first_pass, second_pass, today, tomorrow, never, Ordinary, shipping, unasked,
  play, passed, unanswered, approved,
}

first_completes : (passed today first_pass (play approved)).0 ≡ ok (completed (written "yes"))
unfolding passed
first_completes = refl

-- Before the approval, the pass reports what it waits on.
first_blocks : (passed today first_pass (play unanswered)).0 ≡ ok (blocked ("approval" ∷ []) [])
unfolding passed stopped_at deadlines_into keys_where set_of put_text
first_blocks = refl

resume-completed_example :
    let s = play approved in
    let body = body_of codec moments Ordinary today never shipping in
    (recorded : Dict String (Object ℕ)) × (load codec "w" s ≡ ok recorded)
    × ((body (opened first_pass recorded s unasked)).0 ≡ ok (written "yes"))
    × ((body (opened first_pass recorded s unasked)).1.reached ≡ [])
unfolding passed
resume-completed_example =
    resume-completed codec first_pass (body_of codec moments Ordinary today never shipping)
      (play approved) unasked (written "yes") first_completes

-- What the first pass leaves, with a message that came after it.
abbrev messaged : Store (Object ℕ)
messaged =
    after codec (supplying "w" "more" (written "later") 1050)
      (passed today first_pass (play approved)).1.0

abbrev all_records : Dict String (Object ℕ)
all_records =
    ("approval", written "yes")
    ∷ ("reserve", written "r1")
    ∷ ("window", written "000015")
    ∷ ("more", written "later")
    ∷ []

messaged_loads : load codec "w" messaged ≡ ok all_records
unfolding passed
messaged_loads = refl

messaged_keeps : Kept (passed today first_pass (play approved)).1.0 messaged
messaged_keeps =
    after-Kept codec (supplying "w" "more" (written "later") 1050)
      (passed today first_pass (play approved)).1.0 tt

resume_again_example :
    resume codec second_pass
      (body_of codec moments Ordinary tomorrow never shipping)
      messaged
      unasked
    ≡ (ok (completed (written "yes")), (messaged, unasked))
unfolding passed
resume_again_example =
    resume_again codec moments Ordinary Ordinary today tomorrow never never shipping first_pass
      second_pass (play approved) messaged unasked unasked (written "yes") all_records
      (extend_grant-KeepsRecords ℕ none codec) (λ key. omega arith) refl first_completes
      messaged_keeps messaged_loads

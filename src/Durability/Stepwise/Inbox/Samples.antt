-- ===== src/Durability/Stepwise/Inbox/Samples.antt =====
-- Reads of a small inbox: tests, and the theorems at them.
use Prim.Native.String.{◌∷◌ as cons}
use without.Prelude.{ℕ, String, Bool, false, ◌≡◌, refl, none, List, [], ◌∷◌, ◌++◌, Result, ok}
use without.Prelude.Eq.{string_key}
use without.Prelude.Dict
use without.Prelude.Dict.{Dict}
use without.Durability.Values.{Entry}
use without.Durability.Checkpointer.{extend}
use without.Durability.Stepwise.{Object, written, Fault, Readings, Run, Extend, text_lt}
use without.Durability.Stepwise.Extending.{Grant}
use without.Durability.Stepwise.Outcomes.{opened}
use without.Durability.Stepwise.Steps.New.{IsNew}
use without.Durability.Stepwise.Inbox.{
  unread, take, delivered, up_to, last_key, parse_bound, pending,
}
use without.Durability.Stepwise.Inbox.Cursor.{Ascending}
use without.Durability.Stepwise.Inbox.Again.{pending_again}
use without.Durability.Stepwise.Stories.{
  codec, first_pass, second_pass, today, tomorrow, Ordinary, unasked, play, passed, unanswered,
  approved,
}

-- A run that has read one message, and a later one that finds another behind it.
abbrev inbox_first : String
inbox_first = "inbox:00000000000000000000"

abbrev inbox_second : String
inbox_second = "inbox:00000000000000000002"

abbrev reading : Run ℕ Grant
reading = opened first_pass ((inbox_first, written "hello") ∷ []) (play unanswered) unasked

abbrev rereading : Run ℕ Grant
rereading =
    opened second_pass
      ((inbox_first, written "hello")
        ∷ ("read", written inbox_first)
        ∷ (inbox_second, written "again")
        ∷ [])
      (play approved) unasked

abbrev hello : Entry (Object ℕ)
hello = record { key = inbox_first; value = written "hello" }

abbrev again : Entry (Object ℕ)
again = record { key = inbox_second; value = written "again" }

-- Names all that a read unfolds.
read_inbox :
    Extend ℕ Grant ℕ
    → Readings
    → Bool
    → Run ℕ Grant
    → Result (Fault ℕ) (List (Entry (Object ℕ))) × Run ℕ Grant
unfolding passed pending unread take up_to last_key parse_bound text_lt
read_inbox extend at stopped r = pending codec extend "read" none none at stopped r

reading_takes : (read_inbox Ordinary (today "read") false reading).0 ≡ ok (hello ∷ [])
unfolding read_inbox
reading_takes = refl

reading_records :
    Dict.get "read" rereading.recorded
    ≡ Dict.get "read" (read_inbox Ordinary (today "read") false reading).1.recorded
unfolding read_inbox
reading_records = refl

reading-IsNew : IsNew "read" reading
unfolding play
reading-IsNew = (refl, refl)

inbox_grows : unread none rereading.recorded ≡ unread none reading.recorded ++ (again ∷ [])
unfolding unread
inbox_grows = refl

inbox_ascends : Ascending (unread none rereading.recorded)
unfolding unread text_lt
inbox_ascends = ((refl, tt), (tt, tt))

pending_again_example :
    (hello ∷ [] ≡ delivered none none reading.recorded)
    × (pending codec Ordinary "read" none none (tomorrow "read") false rereading
        ≡ (ok (hello ∷ []), record rereading { claimed = "read" ∷ [] }))
unfolding read_inbox
pending_again_example =
    pending_again codec Ordinary Ordinary "read" none none (today "read") (tomorrow "read") false
      false reading rereading (hello ∷ []) (again ∷ []) ("n", refl, refl)
      (λ k. (cons "s" k, refl, refl)) reading-IsNew reading_takes refl reading_records inbox_grows
      inbox_ascends

-- ===== src/Durability/SplitDurable/Samples.antt =====
-- An empty pair of stores: the theorems at it.
use without.Prelude.{
  String, ◌≡◌, ◌≢◌, refl, false, none, some, [], ◌∷◌, All, length, if◌then◌else◌, err,
}
use without.Prelude.Eq.{◌==◌, string_key}
use without.Prelude.Dict
use without.Durability.Values.{Codec}
use without.Durability.Checkpointer.{start, records_of}
use without.Durability.SplitDurable.{SplitDurable, delete, claimed, not_positive, check_duration}
use without.Durability.SplitDurable.Arrivals.{delete_forgets}

abbrev texts : Codec String
texts = record { encode = λ v. if v == "" then none else some v; decode = some }

abbrev idle : SplitDurable String
idle = record {
  checkpointer = start;
  scheduler = record {
    queue = "w" ∷ [];
    sleeping = [];
    outstanding = [];
    arrived = false;
    receipts = 0;
    lease = 30;
  };
}

no_budget : (claimed "w" 0 10 5 (start {Value = String})).0 ≡ err not_positive
unfolding claimed check_duration
no_budget = refl

delete_forgets_example :
    ((delete "w" idle).0 ≡ length (records_of "w" idle.checkpointer))
    × (records_of "w" (delete "w" idle).1.checkpointer ≡ [])
    × All (λ v. v ≢ "w") (delete "w" idle).1.scheduler.queue
    × (Dict.get "w" (delete "w" idle).1.scheduler.sleeping ≡ none)
    × All (λ e. e.1.0.workflow ≢ "w") (delete "w" idle).1.scheduler.outstanding
delete_forgets_example = delete_forgets "w" idle

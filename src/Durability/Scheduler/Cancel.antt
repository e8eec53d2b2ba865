-- ===== src/Durability/Scheduler/Cancel.antt =====
-- A cancelled workflow is nowhere in the scheduler, and a pass that was running cannot put it back.
use without.Prelude.{
  ℕ, String, ◌≡◌, ◌≢◌, refl, sym, ◌∙◌, Bool-cases, none, ◌⊎◌, inl, inr, List, [], ◌∷◌, All,
  mem-cases, Memᴰ,
}
use without.Prelude.Eq.{◌==◌, nat_key, string_key}
use without.Prelude.Dict
use without.Prelude.Dict.{Dict}
use without.Durability.Scheduler.{
  Delivery, Since, Scheduler, receipts_of, remove_all, without_workflow, cancel,
}

without_workflow-All : (w : String) (q : List String) → All (λ v. v ≢ w) (without_workflow w q)
unfolding without_workflow
without_workflow-All w [] = tt
without_workflow-All w (v ∷ q) = elim (Bool-cases (v == w)) [
  | inl same ↦ rw same (without_workflow-All w q)
  | inr other ↦
      rw other ((λ e. cc (sym ((string_key.beq_iff v w).1 e) ∙ other)), without_workflow-All w q)
]

-- Every delivery is of another workflow, or about to be removed.
abbrev IsOther : String → List ℕ → ℕ × (Delivery × Since) → Type 0
IsOther w rs (r, (d, since)) = Memᴰ r rs ⊎ (d.workflow ≢ w)

receipts_of-All :
    (w : String) (o : Dict ℕ (Delivery × Since)) (rs : List ℕ)
    → ((r : ℕ) → Memᴰ r (receipts_of w o) → Memᴰ r rs)
    → All (IsOther w rs) o
unfolding receipts_of
receipts_of-All w [] rs h = tt
receipts_of-All w ((r, (d, since)) ∷ o) rs h = elim (Bool-cases (d.workflow == w)) [
  | inl same ↦ (
    inl (h r (rw same (Memᴰ.head refl))),
    receipts_of-All w o rs (λ i m. h i (rw same (Memᴰ.tail m))),
  )
  | inr other ↦ (
    inr (λ e. cc (sym ((string_key.beq_iff d.workflow w).1 e) ∙ other)),
    receipts_of-All w o rs (λ i m. h i (rw other m)),
  )
]

remove-IsOther :
    (w : String) (r : ℕ) (rs : List ℕ) (o : Dict ℕ (Delivery × Since))
    → All (IsOther w (r ∷ rs)) o
    → All (IsOther w rs) (Dict.remove r o)
unfolding Dict.remove
remove-IsOther w r rs [] h = tt
remove-IsOther w r rs ((i, (d, since)) ∷ o) (here, h) = elim (Bool-cases (i == r)) [
  | inl same ↦ rw same (remove-IsOther w r rs o h)
  | inr other ↦ rw other (
    elim here [
      | inr apart ↦ inr apart
      | inl m ↦ elim (mem-cases m) [
        | inl e ↦ absurd (cc (sym ((nat_key.beq_iff i r).1 e) ∙ other))
        | inr later ↦ inl later
      ]
    ],
    remove-IsOther w r rs o h,
  )
]

remove_all-All-IsOther :
    (w : String) (rs : List ℕ) (o : Dict ℕ (Delivery × Since))
    → All (IsOther w rs) o
    → All (IsOther w []) (remove_all rs o)
unfolding remove_all
remove_all-All-IsOther w [] o h = h
remove_all-All-IsOther w (r ∷ rs) o h =
    remove_all-All-IsOther w rs (Dict.remove r o) (remove-IsOther w r rs o h)

other-All :
    (w : String) (o : Dict ℕ (Delivery × Since))
    → All (IsOther w []) o
    → All (λ e. e.1.0.workflow ≢ w) o
other-All w [] h = tt
other-All w ((r, (d, since)) ∷ o) (here, h) =
    (elim here [ inl m ↦ elim m [ ] | inr apart ↦ apart ], other-All w o h)

cancel-outstanding :
    (w : String) (s : Scheduler) → All (λ e. e.1.0.workflow ≢ w) (cancel w s).outstanding
unfolding cancel
cancel-outstanding w s =
    let rs = receipts_of w s.outstanding in
    other-All w (remove_all rs s.outstanding)
      (remove_all-All-IsOther w rs s.outstanding (receipts_of-All w s.outstanding rs (λ r m. m)))

-- A cancelled workflow is not queued, not asleep, and out with nobody.
pub cancel_forgets :
    (w : String) (s : Scheduler)
    → All (λ v. v ≢ w) (cancel w s).queue
      × (Dict.get w (cancel w s).sleeping ≡ none)
      × All (λ e. e.1.0.workflow ≢ w) (cancel w s).outstanding
unfolding cancel
cancel_forgets w s = (
  without_workflow-All w s.queue,
  Dict.get-remove w w s.sleeping ∙ rw ((string_key.beq_iff w w).1 refl) refl,
  cancel-outstanding w s,
)

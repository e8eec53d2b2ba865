-- ===== src/Durability/Stepwise/Outcomes/Deadlines.antt =====
-- The deadlines of a pass that stopped, and the earliest.
use without.Prelude.{
  ℕ, ◌≤◌, String, ◌≡◌, refl, sym, ◌∙◌, subst, Bool, Bool-cases, Option, Option-cases, none, some,
  inl, inr, List, [], ◌∷◌, if◌then◌else◌, Memᴰ, mem-cases, All, arith,
}
use without.Prelude.Eq.{◌==◌, string_key}
use without.Prelude.Dict
use without.Prelude.Dict.{Dict}
use without.Durability.Stepwise.{Suspended, input_needed, message_needed, scheduled_wakeup, unknown}
use without.Durability.Stepwise.Outcomes.{deadlines_into, is_sooner, earliest}

-- The moment that a pass chose first for a key, if it sleeps under it.
abbrev pub first_due : String → List Suspended → Option ℕ
first_due key [] = none
first_due key (scheduled_wakeup k due ∷ rest) = if k == key then some due else first_due key rest
first_due key (input_needed k ∷ rest) = first_due key rest
first_due key (message_needed k ∷ rest) = first_due key rest
first_due key (unknown k ∷ rest) = first_due key rest

abbrev or_else : Option ℕ → Option ℕ → Option ℕ
or_else none o = o
or_else (some due) o = some due

deadlines_into-get :
    (key : String) (suspensions : List Suspended) (d : Dict String ℕ)
    → Dict.get key (deadlines_into suspensions d)
      ≡ or_else (Dict.get key d) (first_due key suspensions)
unfolding deadlines_into
deadlines_into-get key [] d = elim (Option-cases (Dict.get key d)) [
  | inl h ↦ rw h refl
  | inr (due, h) ↦ rw h refl
]
deadlines_into-get key (input_needed k ∷ rest) d = deadlines_into-get key rest d
deadlines_into-get key (message_needed k ∷ rest) d = deadlines_into-get key rest d
deadlines_into-get key (unknown k ∷ rest) d = deadlines_into-get key rest d
deadlines_into-get key (scheduled_wakeup k due ∷ rest) d = elim (Option-cases (Dict.get k d)) [
  | inl fresh ↦ rw fresh (
      deadlines_into-get key rest (Dict.put k due d)
      ∙ ground (arith, Dict.get-put k key due d, string_key.beq_iff k key, fresh))
  | inr (there, h) ↦
      rw h (deadlines_into-get key rest d ∙ ground (arith, string_key.beq_iff k key, h))
]

pub deadlines-first :
    (key : String) (suspensions : List Suspended)
    → Dict.get key (deadlines_into suspensions []) ≡ first_due key suspensions
unfolding Dict.get
deadlines-first key suspensions = deadlines_into-get key suspensions []

pub deadlines-Distinct :
    (suspensions : List Suspended) (d : Dict String ℕ)
    → Dict.Distinct d
    → Dict.Distinct (deadlines_into suspensions d)
unfolding deadlines_into
deadlines-Distinct [] d h = h
deadlines-Distinct (input_needed k ∷ rest) d h = deadlines-Distinct rest d h
deadlines-Distinct (message_needed k ∷ rest) d h = deadlines-Distinct rest d h
deadlines-Distinct (unknown k ∷ rest) d h = deadlines-Distinct rest d h
deadlines-Distinct (scheduled_wakeup k due ∷ rest) d h = elim (Option-cases (Dict.get k d)) [
  | inl fresh ↦ rw fresh (deadlines-Distinct rest (Dict.put k due d) (Dict.Distinct-put k due d h))
  | inr (there, e) ↦ rw e (deadlines-Distinct rest d h)
]

-- One of the items, and none is due before it.
abbrev pub Least : String × ℕ → String × ℕ → Dict String ℕ → Type 0
Least x best items = Memᴰ x (best ∷ items) × (x.1 ≤ best.1) × All (λ item. x.1 ≤ item.1) items

pub earliest-Least :
    (best : String × ℕ) (items : Dict String ℕ) → Least (earliest best items) best items
unfolding earliest
earliest-Least best [] = (Memᴰ.head refl, omega arith, tt)
earliest-Least (bk, bd) ((key, due) ∷ items) =
    let chosen : Bool → String × ℕ = λ b. earliest (if b then (key, due) else (bk, bd)) items in
    elim (Bool-cases (is_sooner (key, due) (bk, bd))) [
      | inl sooner ↦
          let (m, le, all) = earliest-Least (key, due) items in
          subst (λ b. Least (chosen b) (bk, bd) ((key, due) ∷ items)) (sym sooner)
            (Memᴰ.tail m, ground (arith, le, sooner), (le, all))
      | inr later ↦
          let (m, le, all) = earliest-Least (bk, bd) items in
          subst (λ b. Least (chosen b) (bk, bd) ((key, due) ∷ items)) (sym later)
            (
              elim (mem-cases m) [ inl e ↦ Memᴰ.head e | inr n ↦ Memᴰ.tail (Memᴰ.tail n) ],
              le,
              (ground (arith, le, later), all),
            )
    ]

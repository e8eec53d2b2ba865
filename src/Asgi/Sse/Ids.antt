-- ===== src/Asgi/Sse/Ids.antt =====
-- Terminators in the types and the ids that are not refused.
use without.Prelude.{
  ◌≡◌, refl, Bool, true, false, ◌||◌, ◌&&◌, Bool-cases, Option-cases, none, [], ◌∷◌, length, nat_eq,
  inl, inr, arith,
}
use without.Asgi.Sse.{Text, cr, lf, space, has_newline}
use without.Asgi.Sse.Frames.{is_control, unresumable_from, resumable_id, spellable_type}

pub unresumable-newline :
    (at_start : Bool) (value : Text)
    → unresumable_from at_start value ≡ none
    → has_newline value ≡ false
unfolding unresumable_from has_newline
unresumable-newline at_start [] h = refl
unresumable-newline at_start (c ∷ cs) h =
    elim (Bool-cases (is_control c || (nat_eq c space && (at_start || nat_eq (length cs) 0)))) [
      | inl bad ↦ absurd (cc (rw bad at h))
      | inr good ↦ ground (arith, good, unresumable-newline false cs (rw good at h))
    ]

pub resumable-none : (value : Text) → resumable_id value ≡ none → unresumable_from true value ≡ none
unfolding resumable_id
resumable-none value h = elim (Option-cases (unresumable_from true value)) [
  | inl fine ↦ fine
  | inr (c, found) ↦ elim (Bool-cases (nat_eq c cr || nat_eq c lf)) [
    | inl newline ↦ absurd (cc (rw newline at (rw (found, resumable_id) at h)))
    | inr other ↦ elim (Bool-cases (nat_eq c space)) [
      | inl blank ↦ absurd (cc (rw blank at (rw other at (rw (found, resumable_id) at h))))
      | inr control ↦ absurd (cc (rw control at (rw other at (rw (found, resumable_id) at h))))
    ]
  ]
]

pub spellable-newline : (value : Text) → spellable_type value ≡ none → has_newline value ≡ false
unfolding spellable_type
spellable-newline value h = elim (Bool-cases (has_newline value)) [
  | inl broken ↦ absurd (cc (rw broken at h))
  | inr whole ↦ whole
]

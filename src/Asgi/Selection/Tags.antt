-- ===== src/Asgi/Selection/Tags.antt =====
-- The scan of entity tags ends, and reads back the tags that a field lists.
use native.Mathlib.Decide.{dec_le}
use native.Mathlib.Nat.{le_refl}
use without.Prelude.{
  ℕ, zero, suc, ◌+◌, ◌≤◌, ◌<◌, Bool, true, false, ◌&&◌, Bool-cases, Option-cases, none, some,
  some-cancel, nat_eq, ◌≡◌, refl, sym, ap, ◌∙◌, inl, inr, List, [], ◌∷◌, ◌++◌, append_assoc,
  append-nil, map, All, length, length-append, arith,
}
use without.Asgi.Bytes.{Bytes, bytes, contains, partition}
use without.Asgi.Selection.{
  join_commas, quoted, after_weak, tag_at, TagScan, tags, malformed, out_of_fuel, with_tag,
  tags_from, entity_tags,
}
use without.Prelude.{◌≢◌, ◌||◌}

partition-length :
    (x : ℕ) (bs before after : Bytes)
    → partition x bs ≡ some (before, after)
    → length after < length bs
unfolding partition
partition-length x [] before after h = absurd (cc h)
partition-length x (b ∷ bs) before after h = elim (Bool-cases (nat_eq b x)) [
  | inl same ↦
      let e : bs ≡ after = ap (λ p. p.1) (some-cancel (rw same at h)) in omega (arith, ap length e)
  | inr other ↦ elim (Option-cases (partition x bs)) [
    | inl bad ↦ absurd (cc (rw (bad, partition) at (rw other at h)))
    | inr ((first, rest), good) ↦
        let e : rest ≡ after =
          ap (λ p. p.1) (some-cancel (rw (good, partition) at (rw other at h))) in
        omega (arith, ap length e, partition-length x bs first rest good)
  ]
]

quoted-length :
    (prefix bs tag rest : Bytes) → quoted prefix bs ≡ some (tag, rest) → length rest < length bs
unfolding quoted
quoted-length prefix [] tag rest h = absurd (cc h)
quoted-length prefix (b ∷ bs) tag rest h = elim (Bool-cases (nat_eq b 34)) [
  | inr other ↦ absurd (cc (rw other at h))
  | inl quote ↦ elim (Option-cases (partition 34 bs)) [
    | inl bad ↦ absurd (cc (rw (bad, quoted) at (rw quote at h)))
    | inr ((opaque, after), good) ↦
        let e : after ≡ rest = ap (λ p. p.1) (some-cancel (rw (good, quoted) at (rw quote at h))) in
        omega (arith, ap length e, partition-length 34 bs opaque after good)
  ]
]

after_weak-length : (bs rest : Bytes) → after_weak bs ≡ some rest → length rest < length bs
unfolding after_weak
after_weak-length [] rest h = absurd (cc h)
after_weak-length (a ∷ []) rest h = absurd (cc h)
after_weak-length (a ∷ b ∷ bs) rest h = elim (Bool-cases (nat_eq a 87 && nat_eq b 47)) [
  | inr other ↦ absurd (cc (rw other at h))
  | inl weak ↦ let e : bs ≡ rest = some-cancel (rw weak at h) in omega (arith, ap length e)
]

tag_at-length : (bs tag rest : Bytes) → tag_at bs ≡ some (tag, rest) → length rest < length bs
unfolding tag_at
tag_at-length bs tag rest h = elim (Option-cases (after_weak bs)) [
  | inl strong ↦ quoted-length [] bs tag rest (rw (strong, tag_at) at h)
  | inr (more, weak) ↦
      let shorter = quoted-length (bytes "W/") more tag rest (rw (weak, tag_at) at h) in
      omega (arith, shorter, after_weak-length bs more weak)
]

tags_from_more : (f : ℕ) (bs : Bytes) → length bs ≤ f → tags_from (suc f) bs ≡ tags_from f bs
unfolding tags_from
tags_from_more zero [] h = refl
tags_from_more (suc f) [] h = refl
tags_from_more zero (b ∷ bs) h = absurd (omega (arith, h))
tags_from_more (suc f) (b ∷ bs) h =
    rw (tags_from_more f bs (omega (arith, h))) (elim (Option-cases (tag_at (b ∷ bs))) [
      | inl bad ↦ rw (bad, tags_from) refl
      | inr ((tag, rest), good) ↦
          let shorter = tag_at-length (b ∷ bs) tag rest good in
          rw (good, tags_from) (rw (tags_from_more f rest (omega (arith, h, shorter))) refl)
    ])

with_tag-ends :
    (tag : Bytes) (scan : TagScan) → scan ≢ out_of_fuel → with_tag tag scan ≢ out_of_fuel
with_tag-ends tag (tags more) ends h = cc h
with_tag-ends tag malformed ends h = cc h
with_tag-ends tag out_of_fuel ends h = ends h

tags_from-ends : (f : ℕ) (bs : Bytes) → length bs ≤ f → tags_from f bs ≢ out_of_fuel
unfolding tags_from
tags_from-ends f [] h = λ e. cc e
tags_from-ends zero (b ∷ bs) h = absurd (omega (arith, h))
tags_from-ends (suc f) (b ∷ bs) h =
    let skipped = tags_from-ends f bs (omega (arith, h)) in
    elim (Bool-cases (nat_eq b 32 || nat_eq b 9 || nat_eq b 44)) [
      | inl space ↦ rw space skipped
      | inr more ↦ elim (Bool-cases (nat_eq b 42)) [
        | inl star ↦ rw more (rw star (with_tag-ends (42 ∷ []) (tags_from f bs) skipped))
        | inr other ↦ elim (Option-cases (tag_at (b ∷ bs))) [
          | inl bad ↦ rw more (rw other (rw (bad, tags_from) (λ e. cc e)))
          | inr ((tag, rest), good) ↦
              let shorter = tag_at-length (b ∷ bs) tag rest good in
              rw more (
                rw other (
                  rw (good, tags_from)
                    (with_tag-ends tag (tags_from f rest)
                      (tags_from-ends f rest (omega (arith, h, shorter))))))
        ]
      ]
    ]

tags_from_same :
    (fuel : ℕ) (bs : Bytes) → length bs ≤ fuel → tags_from fuel bs ≡ tags_from (length bs) bs
tags_from_same zero [] h = refl
tags_from_same zero (b ∷ bs) h = absurd (omega (arith, h))
tags_from_same (suc f) bs h = elim (dec_le (length bs) f) [
  | yes fits ↦ tags_from_more f bs fits ∙ tags_from_same f bs fits
  | no long ↦ let same : suc f ≡ length bs = omega (arith, h, long) in ap (λ n. tags_from n bs) same
]

-- The loop of the scan of entity tags ends: with as much fuel as there are bytes, or more, it does not
-- run out of it, and comes to the same as with just that much.
pub tags_from-enough :
    (fuel : ℕ) (bs : Bytes)
    → length bs ≤ fuel
    → (tags_from fuel bs ≢ out_of_fuel) × (tags_from fuel bs ≡ tags_from (length bs) bs)
tags_from-enough fuel bs h = (tags_from-ends fuel bs h, tags_from_same fuel bs h)

-- An entity tag: weak or strong, around bytes without a quote.
pub record EntityTag : Type 0 where
  pub is_weak : Bool
  pub opaque : Bytes

abbrev text_of : Bool → Bytes → Bytes
text_of true opaque = 87 ∷ 47 ∷ 34 ∷ opaque ++ 34 ∷ []
text_of false opaque = 34 ∷ opaque ++ 34 ∷ []

abbrev pub tag_text : EntityTag → Bytes
tag_text t = text_of t.is_weak t.opaque

abbrev pub IsTag : EntityTag → Type 0
IsTag t = contains 34 t.opaque ≡ false

partition-quote :
    (opaque rest : Bytes)
    → contains 34 opaque ≡ false
    → partition 34 (opaque ++ 34 ∷ rest) ≡ some (opaque, rest)
unfolding partition contains
partition-quote [] rest h = refl
partition-quote (b ∷ bs) rest h = ground (arith, partition-quote bs rest)

quoted-text :
    (prefix opaque rest : Bytes)
    → contains 34 opaque ≡ false
    → quoted prefix (34 ∷ (opaque ++ 34 ∷ []) ++ rest)
      ≡ some (prefix ++ 34 ∷ opaque ++ 34 ∷ [], rest)
unfolding quoted
quoted-text prefix opaque rest h =
    rw (append_assoc opaque (34 ∷ []) rest) (rw (partition-quote opaque rest h, quoted) refl)

after_weak-quote : (bs : Bytes) → after_weak (34 ∷ bs) ≡ none
unfolding after_weak
after_weak-quote [] = refl
after_weak-quote (b ∷ bs) = refl

tag_at-text_of :
    (w : Bool) (opaque rest : Bytes)
    → contains 34 opaque ≡ false
    → tag_at (text_of w opaque ++ rest) ≡ some (text_of w opaque, rest)
unfolding tag_at after_weak
tag_at-text_of true opaque rest h = quoted-text (bytes "W/") opaque rest h
tag_at-text_of false opaque rest h =
    rw (after_weak-quote ((opaque ++ 34 ∷ []) ++ rest), tag_at) (quoted-text [] opaque rest h)

tags_from-text_of :
    (f : ℕ) (w : Bool) (opaque rest : Bytes)
    → contains 34 opaque ≡ false
    → tags_from (suc f) (text_of w opaque ++ rest) ≡ with_tag (text_of w opaque) (tags_from f rest)
unfolding tags_from
tags_from-text_of f true opaque rest h = rw (tag_at-text_of true opaque rest h, tags_from) refl
tags_from-text_of f false opaque rest h = rw (tag_at-text_of false opaque rest h, tags_from) refl

text_of-length :
    (w : Bool) (opaque rest : Bytes) → length rest + 2 ≤ length (text_of w opaque ++ rest)
text_of-length true opaque rest =
    omega (arith, length-append (opaque ++ 34 ∷ []) rest, length-append opaque (34 ∷ []))
text_of-length false opaque rest =
    omega (arith, length-append (opaque ++ 34 ∷ []) rest, length-append opaque (34 ∷ []))

tags_from-one :
    (f : ℕ) (w : Bool) (opaque : Bytes)
    → contains 34 opaque ≡ false
    → length (text_of w opaque) ≤ f
    → tags_from f (text_of w opaque) ≡ tags (text_of w opaque ∷ [])
unfolding tags_from
tags_from-one zero w opaque own enough =
    absurd
      (omega (arith, enough, text_of-length w opaque [], ap length (append-nil (text_of w opaque))))
tags_from-one (suc zero) w opaque own enough =
    absurd
      (omega (arith, enough, text_of-length w opaque [], ap length (append-nil (text_of w opaque))))
tags_from-one (suc (suc f)) w opaque own enough =
    ap (tags_from (suc (suc f))) (sym (append-nil (text_of w opaque)))
    ∙ tags_from-text_of (suc f) w opaque [] own

tags_from-texts :
    (ts : List EntityTag) (f : ℕ)
    → All IsTag ts
    → length (join_commas (map tag_text ts)) ≤ f
    → tags_from f (join_commas (map tag_text ts)) ≡ tags (map tag_text ts)
unfolding join_commas tags_from
tags_from-texts [] zero h enough = refl
tags_from-texts [] (suc f) h enough = refl
tags_from-texts (t ∷ []) f (own, h) enough = tags_from-one f t.is_weak t.opaque own enough
tags_from-texts (t ∷ u ∷ ts) zero (own, h) enough = absurd (
    omega
      (arith, enough, text_of-length t.is_weak t.opaque (44 ∷ join_commas (map tag_text (u ∷ ts)))))
tags_from-texts (t ∷ u ∷ ts) (suc zero) (own, h) enough = absurd (
    omega
      (arith, enough, text_of-length t.is_weak t.opaque (44 ∷ join_commas (map tag_text (u ∷ ts)))))
tags_from-texts (t ∷ u ∷ ts) (suc (suc f)) (own, h) enough =
    let rest = join_commas (map tag_text (u ∷ ts)) in
    tags_from-text_of (suc f) t.is_weak t.opaque (44 ∷ rest) own
    ∙ rw
        (tags_from-texts (u ∷ ts) f h
          (omega (arith, enough, text_of-length t.is_weak t.opaque (44 ∷ rest))))
        refl

-- Field values that are one entity tag each are joined and split back into those tags, whatever bytes
-- but a quote they hold, commas included.
pub entity_tags-texts :
    (ts : List EntityTag) → All IsTag ts → entity_tags (map tag_text ts) ≡ map tag_text ts
unfolding entity_tags
entity_tags-texts ts h =
    rw (tags_from-texts ts (length (join_commas (map tag_text ts))) h (le_refl _), entity_tags) refl

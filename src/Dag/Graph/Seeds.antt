-- ===== src/Dag/Graph/Seeds.antt =====
-- What a plan and a seed hold.
use without.Prelude.{
  String, ◌≡◌, refl, sym, ap, ◌∙◌, true, Bool-cases, Option-cases, some, inl, inr, List, [], ◌∷◌,
  ◌++◌, Memᴰ, mem-cases, ok, arith,
}
use without.Prelude.Eq.{◌==◌, beq_false, string_key}
use without.Prelude.Dict
use without.Prelude.Dict.{Dict}
use without.Dag.Graph.{Node, CompiledGraph, is_in, by_key_of, plan_of, zip_seed, all_known, seed}
use without.Dag.Graph.Order.{IsOrdered, is_in-append}

is_in-last : (known : List String) (key : String) → is_in key (known ++ key ∷ []) ≡ true
unfolding is_in
is_in-last known key = ground (arith, is_in-append key known (key ∷ []), string_key.beq_iff key key)

module _ {Run : Type 0} where
  by_key_of-kept :
      (known : List String) (ns : List (Node Run)) (d : Dict String (Node Run)) (key : String)
      → IsOrdered known ns
      → is_in key known ≡ true
      → Dict.get key (by_key_of ns d) ≡ Dict.get key d
  unfolding by_key_of
  by_key_of-kept known [] d key h there = refl
  by_key_of-kept known (n ∷ ns) d key (fresh, before, h) there =
      by_key_of-kept (known ++ n.key ∷ []) ns (Dict.put n.key n d) key h
        (is_in-append key known (n.key ∷ []) ∙ rw there refl)
      ∙ Dict.get-put n.key key n d
      ∙ rw (beq_false n.key key (λ e. cc (sym fresh ∙ ap (λ k. is_in k known) e ∙ there))) refl

  by_key_of-mem :
      (known : List String) (ns : List (Node Run)) (d : Dict String (Node Run)) (n : Node Run)
      → IsOrdered known ns
      → Memᴰ n ns
      → Dict.get n.key (by_key_of ns d) ≡ some n
  unfolding by_key_of
  by_key_of-mem known [] d n h m = elim m [ ]
  by_key_of-mem known (x ∷ ns) d n (fresh, before, h) m = elim (mem-cases m) [
    | inr later ↦ by_key_of-mem (known ++ x.key ∷ []) ns (Dict.put x.key x d) n h later
    | inl e ↦ rw e (
        by_key_of-kept (known ++ x.key ∷ []) ns (Dict.put x.key x d) x.key h
          (is_in-last known x.key)
        ∙ Dict.get-put x.key x.key x d
        ∙ rw ((string_key.beq_iff x.key x.key).1 refl) refl)
  ]

  -- The plan of nodes in order holds each of them under its key: none displaces another.
  pub plan_of-get :
      (known : List String) (ns : List (Node Run)) (n : Node Run)
      → IsOrdered known ns
      → Memᴰ n ns
      → Dict.get n.key (plan_of ns).by_key ≡ some n
  unfolding plan_of
  plan_of-get known ns n h m = by_key_of-mem known ns [] n h m

  all_known-get :
      {Value : Type 0} (nodes : Dict String (Node Run)) (checkpoint : Dict String Value)
      (key : String) (v : Value)
      → all_known nodes checkpoint ≡ true
      → Dict.get key checkpoint ≡ some v
      → (n : Node Run) × (Dict.get key nodes ≡ some n)
  unfolding all_known Dict.get
  all_known-get nodes [] key v known there = absurd (cc there)
  all_known-get nodes ((k, w) ∷ checkpoint) key v known there =
      elim (Option-cases (Dict.get k nodes)) [
        | inl missing ↦ absurd (cc (rw (missing, all_known) at known))
        | inr (n, found) ↦ elim (Bool-cases (k == key)) [
          | inl same ↦
              (n, ap (λ x. Dict.get x nodes) (sym ((string_key.beq_iff k key).0 same)) ∙ found)
          | inr other ↦
              all_known-get nodes checkpoint key v (rw (found, all_known) at known)
                (rw other at there)
        ]
      ]

  -- A seed that is made names a node of the graph with every key of its checkpoint.
  pub seed-known :
      {Value : Type 0} (g : CompiledGraph Run) (values : List Value)
      (checkpoint seeded : Dict String Value) (key : String) (v : Value)
      → seed g values checkpoint ≡ ok seeded
      → Dict.get key checkpoint ≡ some v
      → (n : Node Run) × (Dict.get key g.plan.by_key ≡ some n)
  unfolding seed
  seed-known g values checkpoint seeded key v made there =
      elim (Option-cases (zip_seed g.inputs values [])) [
        | inl bad ↦ absurd (cc (rw (bad, seed) at made))
        | inr (d, good) ↦ elim (Bool-cases (all_known g.plan.by_key checkpoint)) [
          | inl known ↦ all_known-get g.plan.by_key checkpoint key v known there
          | inr unknown ↦ absurd (cc (rw unknown at (rw (good, seed) at made)))
        ]
      ]

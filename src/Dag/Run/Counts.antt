-- ===== src/Dag/Run/Counts.antt =====
-- How often the nodes of a plan read a key, and how many of those reads a list of visited keys has made.
use without.Prelude.{
  ℕ, ◌+◌, ◌≤◌, String, ◌≡◌, refl, ap, ◌∙◌, Bool-cases, none, some, inl, inr, List, [], ◌∷◌, ◌++◌,
  map, if◌then◌else◌, arith,
}
use without.Prelude.Eq.{◌==◌, string_key}
use without.Prelude.Dict
use without.Prelude.Dict.{Dict}
use without.Dag.Graph.{Node, by_key_of, count_all, consumers_of, plan_of}
use without.Dag.Sorter.{count}

pub count-append :
    (key : String) (ks ls : List String) → count key (ks ++ ls) ≡ count key ks + count key ls
count-append key [] ls = omega arith
count-append key (k ∷ ks) ls = ground (arith, count-append key ks ls)

pub count-one : (key other : String) → count key (other ∷ []) ≡ (if other == key then 1 else 0)
count-one key other = refl

-- What a `Counter` reads at a key.
abbrev pub tally : String → Dict String ℕ → ℕ
tally key d = elim (Dict.get key d) [ none ↦ 0 | some n ↦ n ]

pub tally-put :
    (k key : String) (n : ℕ) (d : Dict String ℕ)
    → tally key (Dict.put k n d) ≡ (if k == key then n else tally key d)
tally-put k key n d = ground (arith, Dict.get-put k key n d)

count_all-tally :
    (ks : List String) (d : Dict String ℕ) (key : String)
    → tally key (count_all ks d) ≡ count key ks + tally key d
unfolding count_all
count_all-tally [] d key = omega arith
count_all-tally (k ∷ ks) d key = ground (
  arith,
  count_all-tally ks (Dict.put k (elim (Dict.get k d) [ none ↦ 1 | some n ↦ n + 1 ]) d) key,
  Dict.get-put k key (elim (Dict.get k d) [ none ↦ 1 | some n ↦ n + 1 ]) d,
  string_key.beq_iff k key,
)

module _ {Op : Type 0} where
  -- How often all nodes together read the key.
  abbrev pub total : String → Dict String (Node Op) → ℕ
  total key [] = 0
  total key ((k, n) ∷ nodes) = count key n.dependencies + total key nodes

  -- How often the node of `reader`, if there is one, reads the key.
  abbrev pub reads : Dict String (Node Op) → String → String → ℕ
  reads nodes key reader = elim (Dict.get reader nodes) [
    | none ↦ 0
    | some n ↦ count key n.dependencies
  ]

  abbrev pub spent : Dict String (Node Op) → String → List String → ℕ
  spent nodes key [] = 0
  spent nodes key (reader ∷ readers) = reads nodes key reader + spent nodes key readers

  pub spent-append :
      (nodes : Dict String (Node Op)) (key : String) (ks ls : List String)
      → spent nodes key (ks ++ ls) ≡ spent nodes key ks + spent nodes key ls
  spent-append nodes key [] ls = omega arith
  spent-append nodes key (k ∷ ks) ls = omega (arith, spent-append nodes key ks ls)

  consumers_of-tally :
      (nodes : Dict String (Node Op)) (d : Dict String ℕ) (key : String)
      → tally key (consumers_of nodes d) ≡ total key nodes + tally key d
  unfolding consumers_of
  consumers_of-tally [] d key = omega arith
  consumers_of-tally ((k, n) ∷ nodes) d key = omega (
    arith,
    consumers_of-tally nodes (count_all n.dependencies d) key,
    count_all-tally n.dependencies d key,
  )

  spent-skip :
      (k : String) (n : Node Op) (nodes : Dict String (Node Op)) (key : String) (ks : List String)
      → count k ks ≡ 0
      → spent ((k, n) ∷ nodes) key ks ≡ spent nodes key ks
  unfolding Dict.get
  spent-skip k n nodes key [] h = refl
  spent-skip k n nodes key (x ∷ xs) h =
      ground (arith, spent-skip k n nodes key xs, string_key.beq_iff k x, string_key.beq_iff x k)

  -- The first node's reads apart from the others'.
  spent-cons :
      (k : String) (n : Node Op) (nodes : Dict String (Node Op)) (key : String) (ks : List String)
      → Dict.get k nodes ≡ none
      → count k ks ≤ 1
      → spent ((k, n) ∷ nodes) key ks ≤ count key n.dependencies + spent nodes key ks
  unfolding Dict.get
  spent-cons k n nodes key [] fresh once = omega arith
  spent-cons k n nodes key (x ∷ xs) fresh once = ground (
    arith,
    spent-cons k n nodes key xs fresh,
    spent-skip k n nodes key xs,
    string_key.beq_iff k x,
    string_key.beq_iff x k,
  )

  -- Keys that stand at most once have made no more reads than there are.
  pub spent-le-total :
      (nodes : Dict String (Node Op)) (key : String) (ks : List String)
      → Dict.Distinct nodes
      → ((k : String) → count k ks ≤ 1)
      → spent nodes key ks ≤ total key nodes
  unfolding Dict.get
  spent-le-total [] key [] h once = omega arith
  spent-le-total [] key (k ∷ ks) h once =
      omega (arith, spent-le-total [] key ks h (λ j. ground (arith, once j)))
  spent-le-total ((k, n) ∷ nodes) key ks (fresh, h) once =
      omega (arith, spent-cons k n nodes key ks fresh (once k), spent-le-total nodes key ks h once)

  by_key_of-Distinct :
      (ns : List (Node Op)) (d : Dict String (Node Op))
      → Dict.Distinct d
      → Dict.Distinct (by_key_of ns d)
  unfolding by_key_of
  by_key_of-Distinct [] d h = h
  by_key_of-Distinct (n ∷ ns) d h =
      by_key_of-Distinct ns (Dict.put n.key n d) (Dict.Distinct-put n.key n d h)

  dependencies-get :
      (nodes : Dict String (Node Op)) (key : String)
      → Dict.get key (map (λ e. (e.0, e.1.dependencies)) nodes)
        ≡ elim (Dict.get key nodes) [ none ↦ none | some n ↦ some n.dependencies ]
  unfolding Dict.get
  dependencies-get [] key = refl
  dependencies-get ((k, n) ∷ nodes) key = elim (Bool-cases (k == key)) [
    | inl same ↦ rw same refl
    | inr other ↦ rw other (dependencies-get nodes key)
  ]

  -- What a plan of nodes holds.
  pub plan_of-Distinct : (ns : List (Node Op)) → Dict.Distinct (plan_of ns).by_key
  unfolding plan_of
  plan_of-Distinct ns = by_key_of-Distinct ns [] tt

  pub plan_of-dependencies :
      (ns : List (Node Op)) (key : String)
      → Dict.get key (plan_of ns).dependencies
        ≡ elim (Dict.get key (plan_of ns).by_key) [ none ↦ none | some n ↦ some n.dependencies ]
  unfolding plan_of
  plan_of-dependencies ns key = dependencies-get (by_key_of ns []) key

  pub plan_of-consumers :
      (ns : List (Node Op)) (key : String)
      → tally key (plan_of ns).consumers ≡ total key (plan_of ns).by_key
  unfolding plan_of Dict.get
  plan_of-consumers ns key = omega (arith, consumers_of-tally (by_key_of ns []) [] key)

-- The keys of a list that is put together.
pub map-keys-append :
    {A : Type 0} (xs ys : List (String × A))
    → map (λ e. e.0) (xs ++ ys) ≡ map (λ e. e.0) xs ++ map (λ e. e.0) ys
map-keys-append [] ys = refl
map-keys-append (x ∷ xs) ys = ap (λ l. x.0 ∷ l) (map-keys-append xs ys)

pub count-keys-append :
    {A : Type 0} (k : String) (xs ys : List (String × A))
    → count k (map (λ e. e.0) (xs ++ ys))
      ≡ count k (map (λ e. e.0) xs) + count k (map (λ e. e.0) ys)
count-keys-append k xs ys =
    ap (count k) (map-keys-append xs ys) ∙ count-append k (map (λ e. e.0) xs) (map (λ e. e.0) ys)

pub spent-keys-append :
    {A Op : Type 0} (nodes : Dict String (Node Op)) (k : String) (xs ys : List (String × A))
    → spent nodes k (map (λ e. e.0) (xs ++ ys))
      ≡ spent nodes k (map (λ e. e.0) xs) + spent nodes k (map (λ e. e.0) ys)
spent-keys-append nodes k xs ys =
    ap (spent nodes k) (map-keys-append xs ys)
    ∙ spent-append nodes k (map (λ e. e.0) xs) (map (λ e. e.0) ys)

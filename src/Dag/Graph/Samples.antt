-- ===== src/Dag/Graph/Samples.antt =====
-- A graph of two steps over one entry: tests, and the theorems at it.
use without.Prelude.{ℕ, String, ◌≡◌, refl, none, [], ◌∷◌, err}
use without.Prelude.Eq.{string_key}
use without.Prelude.Dict.{Dict}
use without.Durability.InboxKey.{padded}
use without.Dag.Graph.{
  Node, Graph, CompiledGraph, key_taken, is_in, of, node, input_key, input_keys_from, plan_of,
}
use without.Dag.Graph.Order.{IsOrdered}

abbrev fetch : Node ℕ
fetch = record { key = "fetch"; dependencies = "input:0" ∷ []; run = 1 }

abbrev render : Node ℕ
render = record { key = "render"; dependencies = "fetch" ∷ "input:0" ∷ []; run = 2 }

abbrev two_steps : Graph ℕ
two_steps = record { nodes = fetch ∷ render ∷ []; input_keys = "input:0" ∷ [] }

first_step : Graph ℕ
unfolding of node is_in input_key input_keys_from padded
first_step = (node "fetch" 1 ("input:0" ∷ []) (of 1).0).1

builds : (node "render" 2 ("fetch" ∷ "input:0" ∷ []) first_step).1 ≡ two_steps
unfolding first_step node
builds = refl

refuses_a_key_twice : (node "render" 3 [] two_steps).0 ≡ err key_taken
unfolding node is_in
refuses_a_key_twice = refl

two_steps-IsOrdered : IsOrdered two_steps.input_keys two_steps.nodes
unfolding is_in
two_steps-IsOrdered = (refl, (refl, tt), (refl, (refl, (refl, tt)), tt))

abbrev compiled : CompiledGraph ℕ
compiled = record {
  nodes = two_steps.nodes;
  inputs = two_steps.input_keys;
  output = "render";
  limit = none;
  plan = plan_of two_steps.nodes;
}

abbrev checkpoint : Dict String ℕ
checkpoint = ("fetch", 7) ∷ []

abbrev seeded : Dict String ℕ
seeded = ("input:0", 5) ∷ ("fetch", 7) ∷ []

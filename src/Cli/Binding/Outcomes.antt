-- ===== src/Cli/Binding/Outcomes.antt =====
-- What `parse_argv` stops at.
use without.Prelude.{
  ◌≡◌, refl, ap, subst, ◌∙◌, Bool, true, false, Bool-cases, none, List, [], ◌∷◌, ◌++◌, inl, inr,
  Memᴰ, Result, Result-cases, ◌⊎◌,
}
use without.Prelude.Eq.{◌==◌}
use without.Prelude.Dict
use without.Prelude.Dict.{Dict}
use without.Asgi.Bytes.{bytes_key}
use without.Cli.{Word}
use without.Cli.Tokens.{
  Parameter, Positional, Node, node, Nodes, no_nodes, node_of, name_of, options_of, positionals_of,
  Level,
}
use without.Cli.Scan.{Message, Scanned, scanned, refused, answered, by_name_of, scan}
use without.Cli.Scan.Stops.{Stopped, scan-Stopped}
use without.Cli.Binding.{
  Outcome, bound, stopped, rejected, assigned, bind_last, parse_level, parse_child,
}

abbrev parameters_of : Node → List Parameter
parameters_of (node _ parameters _) = parameters

-- The last of the levels, or a level above where there is none.
abbrev last_level : Node → List Node → Node
last_level above [] = above
last_level above (n ∷ ns) = last_level n ns

-- An outcome that stops at a spelling stops at one to be answered, at a level that does not declare it.
abbrev pub Answers : {Action : Type 0} → List Word → Node → Outcome Action → Type 0
Answers answers above (bound action) = Unit
Answers answers above (rejected message path) = Unit
Answers answers above (stopped spelling path) =
    Memᴰ spelling answers
    × (Dict.get spelling (by_name_of (options_of (parameters_of (last_level above path))) [])
        ≡ none)

last_level-end : (above n : Node) (path : List Node) → last_level above (path ++ n ∷ []) ≡ n
last_level-end above n [] = refl
last_level-end above n (m ∷ path) = last_level-end m n path

pub Scanned-cases :
    (r : Scanned)
    → ((options : Dict Word (List Word)) × (bare : List Word) × (r ≡ scanned options bare))
      ⊎ (((message : Message) × (r ≡ refused message))
          ⊎ ((spelling : Word) × (r ≡ answered spelling)))
Scanned-cases (scanned options bare) = inl (options, bare, refl)
Scanned-cases (refused message) = inr (inl (message, refl))
Scanned-cases (answered spelling) = inr (inr (spelling, refl))

pub bare-cases :
    (bare : List Word) → (bare ≡ []) ⊎ ((word : Word) × (words : List Word) × (bare ≡ word ∷ words))
bare-cases [] = inl refl
bare-cases (word ∷ words) = inr (word, words, refl)

module _ {Action : Type 0} (resolve : List Level → Result Word Action) (env files : Dict Word Word)
    (answers : List Word) (above : Node) where
  stopped-Answers :
      (n : Node) (stop : Bool) (argv : List Word) (path : List Node) (spelling : Word)
      → scan (options_of (parameters_of n)) stop answers argv ≡ answered spelling
      → Answers {Action = Action} answers above (stopped spelling (path ++ n ∷ []))
  stopped-Answers n stop argv path spelling h =
      let (m, free) : Stopped (by_name_of (options_of (parameters_of n)) []) answers stop argv
          (answered spelling) =
        subst (Stopped (by_name_of (options_of (parameters_of n)) []) answers stop argv) h
          (scan-Stopped (options_of (parameters_of n)) stop answers argv) in
      (
        m,
        ap (λ k. Dict.get spelling (by_name_of (options_of (parameters_of k)) []))
              (last_level-end above n path)
            ∙ free,
      )

  bind_last-Answers :
      (name : Word) (options : Dict Word (List Word)) (specs : List Positional) (bare : List Word)
      (path : List Node) (levels : List Level)
      → Answers answers above
          (bind_last resolve env files answers name options specs bare path levels)
  unfolding bind_last
  bind_last-Answers name options specs bare path levels =
      elim (Result-cases (assigned specs bare)) [
        | inr (message, e) ↦ rw (e, bind_last, Answers) tt
        | inl (arguments, e) ↦
            elim (Result-cases (
              resolve (
                levels
                ++ (record {
                  name = name;
                  args = record { options = options; arguments = arguments };
                })
                  ∷ []))) [
                    | inl (action, r) ↦ rw (e, bind_last, Answers) (rw (r, bind_last, Answers) tt)
                    | inr (parameter, r) ↦
                        rw (e, bind_last, Answers) (rw (r, bind_last, Answers) tt)
                  ]
      ]

  mutual
    unfolding parse_level

    parse_level-Answers :
        (n : Node) (argv : List Word) (path : List Node) (levels : List Level)
        → Answers answers above (parse_level resolve env files answers n argv path levels)
    parse_level-Answers (node name parameters no_nodes) argv path levels =
        elim (Scanned-cases (scan (options_of parameters) false answers argv)) [
          | inl (options, bare, e) ↦
              rw (e, parse_level, Answers)
                (bind_last-Answers name _ (positionals_of parameters) bare _ levels)
          | inr (inl (message, e)) ↦ rw (e, parse_level, Answers) tt
          | inr (inr (spelling, e)) ↦
              rw (e, parse_level, Answers)
                (stopped-Answers (node name parameters no_nodes) false argv path spelling e)
        ]
    parse_level-Answers (node name parameters (node_of first more)) argv path levels =
        elim (Scanned-cases (scan (options_of parameters) true answers argv)) [
          | inl (options, bare, e) ↦ elim (bare-cases bare) [
            | inl h ↦ rw (e ∙ ap (scanned options) h, parse_level, Answers) tt
            | inr (command, remaining, h) ↦
                rw (e ∙ ap (scanned options) h, parse_level, Answers)
                  (parse_child-Answers (node_of first more) command remaining _ _)
          ]
          | inr (inl (message, e)) ↦ rw (e, parse_level, Answers) tt
          | inr (inr (spelling, e)) ↦
              rw (e, parse_level, Answers)
                (stopped-Answers (node name parameters (node_of first more)) true argv path spelling
                  e)
        ]

    parse_child-Answers :
        (ns : Nodes) (command : Word) (remaining : List Word) (path : List Node)
        (levels : List Level)
        → Answers answers above
            (parse_child resolve env files answers ns command remaining path levels)
    parse_child-Answers no_nodes command remaining path levels = tt
    parse_child-Answers (node_of child children) command remaining path levels =
        elim (Bool-cases (name_of child == command)) [
          | inl same ↦
              rw (same, parse_child, Answers) (parse_level-Answers child remaining path levels)
          | inr other ↦
              rw (other, parse_child, Answers)
                (parse_child-Answers children command remaining path levels)
        ]

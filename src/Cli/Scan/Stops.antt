-- ===== src/Cli/Scan/Stops.antt =====
-- Where a scan stops.
use without.Prelude.{
  ◌≡◌, refl, sym, ap, ◌∙◌, Bool, true, false, not, ◌||◌, Bool-cases, Option-cases, none, some, List,
  [], ◌∷◌, ◌++◌, inl, inr, Memᴰ, if◌then◌else◌, arith, append-nil, ◌⊎◌,
}
use without.Prelude.Eq.{◌==◌}
use without.Prelude.Dict
use without.Prelude.Dict.{Dict}
use without.Asgi.Bytes.{bytes, bytes_key, starts_with}
use without.Cli.{Word}
use without.Cli.Tokens.{CliOption}
use without.Cli.Scan.{
  Message, Scanned, scanned, refused, answered, by_name_of, Read, refuses, takes, read_option,
  is_answered, Kind, bare_token, end_of_options, answer, option_token, kind_of, scan_from, scan,
}

is_answered-mem :
    (by_name : Dict Word CliOption) (answers : List Word) (token : Word)
    → is_answered by_name answers token ≡ true
    → Memᴰ token answers × (Dict.get token by_name ≡ none)
unfolding is_answered
is_answered-mem by_name [] token h = absurd (cc h)
is_answered-mem by_name (spelling ∷ answers) token h =
    elim (Bool-cases (is_answered by_name answers token)) [
      | inl later ↦
          let (m, free) = is_answered-mem by_name answers token later in (Memᴰ.tail m, free)
      | inr here ↦ elim (Option-cases (Dict.get token by_name)) [
        | inr (o, taken) ↦ absurd (ground (arith, rw (taken, is_answered) at h, here))
        | inl free ↦ (
          Memᴰ.head (
              sym (
                (bytes_key.beq_iff spelling token).0
                  (ground (arith, rw (free, is_answered) at h, here)))),
          free,
        )
      ]
    ]

kind_of-answer :
    (by_name : Dict Word CliOption) (answers : List Word) (literal : Bool) (token : Word)
    → kind_of by_name answers literal token ≡ answer
    → is_answered by_name answers token ≡ true
unfolding kind_of
kind_of-answer by_name answers literal token h =
    elim (Bool-cases (literal || ((token == bytes "-") || not (starts_with (bytes "-") token)))) [
      | inl bare ↦ absurd (cc (rw bare at h))
      | inr dashed ↦ elim (Bool-cases (token == bytes "--")) [
        | inl end ↦ absurd (cc (rw end at (rw dashed at h)))
        | inr more ↦ elim (Bool-cases (is_answered by_name answers token)) [
          | inl yes_answered ↦ yes_answered
          | inr unanswered ↦ absurd (cc (rw unanswered at (rw more at (rw dashed at h))))
        ]
      ]
    ]

Kind-cases :
    (k : Kind) → ((k ≡ bare_token) ⊎ (k ≡ end_of_options)) ⊎ ((k ≡ answer) ⊎ (k ≡ option_token))
Kind-cases bare_token = inl (inl refl)
Kind-cases end_of_options = inl (inr refl)
Kind-cases answer = inr (inl refl)
Kind-cases option_token = inr (inr refl)

Read-cases :
    (r : Read)
    → ((message : Message) × (r ≡ refuses message))
      ⊎ ((options : Dict Word (List Word)) × (next : Bool) × (r ≡ takes options next))
Read-cases (refuses message) = inl (message, refl)
Read-cases (takes options next) = inr (options, next, refl)

-- How a scan ends: a spelling that it stops at is to be answered and no option's name, and where it stops at the first
-- bare token, what is bare is all that is left of the command line.
abbrev pub Stopped :
    Dict Word CliOption → List Word → (stop : Bool) → (argv : List Word) → Scanned → Type 0
Stopped by_name answers stop argv (scanned options bare) = elim stop [
  | true ↦ (front : List Word) × (argv ≡ front ++ bare)
  | false ↦ Unit
]
Stopped by_name answers stop argv (refused message) = Unit
Stopped by_name answers stop argv (answered spelling) =
    Memᴰ spelling answers × (Dict.get spelling by_name ≡ none)

module _ (by_name : Dict Word CliOption) (answers : List Word) where
  Stopped-later :
      (stop : Bool) (token : Word) (argv : List Word) (r : Scanned)
      → Stopped by_name answers stop argv r
      → Stopped by_name answers stop (token ∷ argv) r
  Stopped-later true token argv (scanned options bare) (front, e) =
      (token ∷ front, ap (λ l. token ∷ l) e)
  Stopped-later false token argv (scanned options bare) h = tt
  Stopped-later stop token argv (refused message) h = h
  Stopped-later stop token argv (answered spelling) h = h

  Stopped-whole :
      (stop : Bool) (argv : List Word) (options : Dict Word (List Word))
      → Stopped by_name answers stop argv (scanned options argv)
  Stopped-whole true argv options = ([], refl)
  Stopped-whole false argv options = tt

  -- At the end, what was bare before is empty in a scan that stops.
  Stopped-end :
      (stop : Bool) (argv : List Word) (options : Dict Word (List Word)) (bare : List Word)
      → (stop ≡ true → bare ≡ [])
      → Stopped by_name answers stop argv (scanned options bare)
  Stopped-end true argv options bare h =
      (argv, sym (append-nil argv) ∙ ap (λ l. argv ++ l) (sym (h refl)))
  Stopped-end false argv options bare h = tt

  Stopped-bare_end :
      (stop : Bool) (token : Word) (options : Dict Word (List Word)) (bare : List Word)
      → Stopped by_name answers stop
          (token ∷ [])
          (if stop then scanned options (token ∷ []) else scanned options (bare ++ token ∷ []))
  Stopped-bare_end true token options bare = ([], refl)
  Stopped-bare_end false token options bare = tt

  Stopped-bare :
      (stop : Bool) (token : Word) (argv : List Word) (options : Dict Word (List Word))
      (r : Scanned)
      → (stop ≡ false → Stopped by_name answers stop argv r)
      → Stopped by_name answers stop
          (token ∷ argv)
          (elim stop [ true ↦ scanned options (token ∷ argv) | false ↦ r ])
  Stopped-bare true token argv options r h = ([], refl)
  Stopped-bare false token argv options r h = Stopped-later false token argv r (h refl)

  scan_from-Stopped :
      (stop : Bool) (argv : List Word) (literal : Bool) (options : Dict Word (List Word))
      (bare : List Word)
      → (stop ≡ true → bare ≡ [])
      → Stopped by_name answers stop argv (scan_from by_name stop answers argv literal options bare)
  unfolding scan_from
  scan_from-Stopped stop [] literal options bare h = Stopped-end stop [] options bare h
  scan_from-Stopped stop (token ∷ []) literal options bare h =
      elim (Kind-cases (kind_of by_name answers literal token)) [
        | inl (inl k) ↦ rw (k, scan_from) (Stopped-bare_end stop token options bare)
        | inl (inr k) ↦ rw (k, scan_from) (Stopped-end stop (token ∷ []) options bare h)
        | inr (inl k) ↦
            rw (k, scan_from)
              (is_answered-mem by_name answers token
                (kind_of-answer by_name answers literal token k))
        | inr (inr k) ↦ elim (Read-cases (read_option by_name token none options)) [
          | inl (message, r) ↦ rw (k, scan_from) (rw (r, scan_from) tt)
          | inr (options', next, r) ↦
              rw (k, scan_from) (rw (r, scan_from) (Stopped-end stop (token ∷ []) options' bare h))
        ]
      ]
  scan_from-Stopped stop (token ∷ value ∷ argv) literal options bare h =
      elim (Kind-cases (kind_of by_name answers literal token)) [
        | inl (inl k) ↦
            rw (k, scan_from)
              (Stopped-bare stop token (value ∷ argv) options
                (scan_from by_name stop answers (value ∷ argv) literal options (bare ++ token ∷ []))
                (λ e.
                  scan_from-Stopped stop (value ∷ argv) literal options (bare ++ token ∷ [])
                    (λ e'. absurd (cc (sym e ∙ e')))))
        | inl (inr k) ↦
            rw (k, scan_from)
              (Stopped-later stop token (value ∷ argv) _
                (scan_from-Stopped stop (value ∷ argv) true options bare h))
        | inr (inl k) ↦
            rw (k, scan_from)
              (is_answered-mem by_name answers token
                (kind_of-answer by_name answers literal token k))
        | inr (inr k) ↦ elim (Read-cases (read_option by_name token (some value) options)) [
          | inl (message, r) ↦ rw (k, scan_from) (rw (r, scan_from) tt)
          | inr (options', next, r) ↦ elim (Bool-cases next) [
            | inl one_more ↦
                rw (k, scan_from)
                  (rw (r, scan_from)
                    (rw (one_more, scan_from)
                      (Stopped-later stop token (value ∷ argv)
                        (scan_from by_name stop answers argv literal options' bare)
                        (Stopped-later stop value argv
                          (scan_from by_name stop answers argv literal options' bare)
                          (scan_from-Stopped stop argv literal options' bare h)))))
            | inr alone ↦
                rw (k, scan_from)
                  (rw (r, scan_from)
                    (rw (alone, scan_from)
                      (Stopped-later stop token (value ∷ argv)
                        (scan_from by_name stop answers (value ∷ argv) literal options' bare)
                        (scan_from-Stopped stop (value ∷ argv) literal options' bare h))))
          ]
        ]
      ]

-- Of any command line: a spelling that a scan stops at is one to be answered and no option's name; and a
-- scan that stops at the first bare token leaves what is bare as the end of the line, as it stands.
pub scan-Stopped :
    (options : List CliOption) (stop : Bool) (answers argv : List Word)
    → Stopped (by_name_of options []) answers stop argv (scan options stop answers argv)
unfolding scan
scan-Stopped options stop answers argv =
    scan_from-Stopped (by_name_of options []) answers stop argv false [] [] (λ e. refl)

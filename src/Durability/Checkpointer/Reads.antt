-- ===== src/Durability/Checkpointer/Reads.antt =====
-- `load` and `history` of `MemoryCheckpointer`: every record of a workflow, decoded.
use without.Prelude.{
  String, ◌≡◌, sym, ap, ◌∙◌, Bool-cases, Option, Option-cases, none, some, inl, inr, [], ◌∷◌,
  Result, Result-cases, ok, err, ok-injective,
}
use without.Prelude.Eq.{◌==◌, string_key}
use without.Prelude.Dict
use without.Prelude.Dict.{Dict}
use without.Durability.Values.{Stored, Written, Raised, Codec}
use without.Durability.Checkpointer.{Store, records_of, decoded}

module _ {Value : Type 0} (codec : Codec Value) where
  unfoldable pub load_records : Dict String Stored → Result Raised (Dict String Value)
  load_records [] = ok []
  load_records ((key, held) ∷ records) = elim (decoded codec held.encoded) [
    | err e ↦ err e
    | ok v ↦ elim (load_records records) [ err e ↦ err e | ok loaded ↦ ok ((key, v) ∷ loaded) ]
  ]

  unfoldable pub load : String → Store Value → Result Raised (Dict String Value)
  load workflow s = load_records (records_of workflow s)

  unfoldable pub history_records : Dict String Stored → Result Raised (Dict String (Written Value))
  history_records [] = ok []
  history_records ((key, held) ∷ records) = elim (decoded codec held.encoded) [
    | err e ↦ err e
    | ok v ↦ elim (history_records records) [
      | err e ↦ err e
      | ok loaded ↦ ok ((key, record { value = v; at = held.at }) ∷ loaded)
    ]
  ]

  unfoldable pub history : String → Store Value → Result Raised (Dict String (Written Value))
  history workflow s = history_records (records_of workflow s)

  -- What a loaded record reads as: the text it holds, decoded, and nothing where nothing is held.
  abbrev pub read_as : Option Stored → Option Value
  read_as none = none
  read_as (some st) = codec.decode st.encoded

  load_records-get :
      (records : Dict String Stored) (key : String) {loaded : Dict String Value}
      → load_records records ≡ ok loaded
      → Dict.get key loaded ≡ read_as (Dict.get key records)
  unfolding load_records Dict.get
  load_records-get [] key h = ap (Dict.get key) (sym (ok-injective h))
  load_records-get ((k, held) ∷ records) key {loaded} h =
      elim (Option-cases (codec.decode held.encoded)) [
        | inl bad ↦ absurd (cc (rw (bad, load_records) at h))
        | inr (v, good) ↦ elim (Result-cases (load_records records)) [
          | inr (e, failed) ↦ absurd (cc (rw failed at (rw (good, load_records) at h)))
          | inl (rest, fine) ↦
              let made = ok-injective (rw fine at (rw (good, load_records) at h)) in
              elim (Bool-cases (k == key)) [
                | inl same ↦ ap (Dict.get key) (sym made) ∙ rw same (sym good)
                | inr other ↦
                    ap (Dict.get key) (sym made) ∙ rw other (load_records-get records key fine)
              ]
        ]
      ]

  -- A load that returns holds, under every key, the decoding of the text recorded there, and
  -- nothing under a key that is not recorded.
  pub load-get :
      (workflow key : String) (s : Store Value) (loaded : Dict String Value)
      → load workflow s ≡ ok loaded
      → Dict.get key loaded ≡ read_as (Dict.get key (records_of workflow s))
  unfolding load
  load-get workflow key s loaded h = load_records-get (records_of workflow s) key h

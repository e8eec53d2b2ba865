-- ===== src/Cli/Sources.antt =====
-- packages/without_cli/src/without_cli/sources.py
use without.Prelude.{ℕ, Bool, ◌||◌, ◌&&◌, none, some, List, [], ◌∷◌, leb, nat_eq, if◌then◌else◌}
use without.Prelude.Dict
use without.Prelude.Dict.{Dict}
use without.Asgi.Bytes.{bytes_key}
use without.Cli.{Word}

-- `FromEnv` and `FromFile`
pub data Source : Type 0 where
  from_env : (name : Word) → Source
  from_file : (path : Word) → (strip : Bool) → Source

-- `file_paths`
unfoldable pub file_paths : List Source → List Word
file_paths [] = []
file_paths (source ∷ sources) =
    let rest = file_paths sources in
    elim source [ from_env name ↦ rest | from_file path strip ↦ path ∷ rest ]

-- The white space of `str`.
abbrev pub is_white : ℕ → Bool
is_white c =
    (leb 9 c && leb c 13)
    || ((leb 28 c && leb c 32)
        || (nat_eq c 133
            || (nat_eq c 160
                || (nat_eq c 5760
                    || ((leb 8192 c && leb c 8202)
                        || (nat_eq c 8232
                            || (nat_eq c 8233
                                || (nat_eq c 8239 || (nat_eq c 8287 || nat_eq c 12288)))))))))

unfoldable pub strip_left : Word → Word
strip_left [] = []
strip_left (c ∷ cs) = let rest = strip_left cs in if is_white c then rest else c ∷ cs

unfoldable pub strip_right : Word → Word
strip_right [] = []
strip_right (c ∷ cs) = elim (strip_right cs) [
  | [] ↦ if is_white c then [] else c ∷ []
  | d ∷ ds ↦ c ∷ d ∷ ds
]

-- `str.strip`
abbrev pub strip_text : Word → Word
strip_text text = strip_right (strip_left text)

-- `from_sources`
unfoldable pub from_sources : List Source → Dict Word Word → Dict Word Word → List Word
from_sources [] env files = []
from_sources (from_env name ∷ sources) env files = elim (Dict.get name env) [
  | some value ↦ value ∷ []
  | none ↦ from_sources sources env files
]
from_sources (from_file path strip ∷ sources) env files = elim (Dict.get path files) [
  | some text ↦ (if strip then strip_text text else text) ∷ []
  | none ↦ from_sources sources env files
]

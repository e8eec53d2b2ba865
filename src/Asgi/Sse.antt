-- ===== src/Asgi/Sse.antt =====
-- packages/without_asgi/src/without_asgi/sse.py
--
-- A text is the list of its code points. What the UTF-8 decoder makes of the bytes is a parameter.
pub mod Frames
pub mod Parser
pub mod Served
pub mod Lines
pub mod Chunks
pub mod Retained
pub mod Decimal
pub mod Ids
pub mod Fields
pub mod Dispatch
pub mod Encoded
pub mod RoundTrip
mod Samples
use without.Prelude.{
  ℕ, ◌+◌, Bool, true, false, ◌||◌, ◌&&◌, List, [], ◌∷◌, ◌++◌, nat_eq, if◌then◌else◌,
}

abbrev pub Text : Type 0
Text = List ℕ

-- A carriage return, a line feed and a space.
abbrev pub cr : ℕ
cr = 13

abbrev pub lf : ℕ
lf = 10

abbrev pub space : ℕ
space = 32

-- The pieces of a split: all but the last, and the last.
abbrev pub Pieces : Type 0
Pieces = List Text × Text

abbrev pub on_first : ℕ → Pieces → Pieces
on_first c ([], last) = ([], c ∷ last)
on_first c (piece ∷ pieces, last) = ((c ∷ piece) ∷ pieces, last)

-- `_NEWLINE.split`, of what follows a carriage return that has ended a piece, or does not: a line
-- feed there is the rest of that terminator.
unfoldable pub split_after : Bool → Text → Pieces
split_after after [] = ([], [])
split_after after (c ∷ text) =
    let (pieces, last) = split_after (nat_eq c cr) text in
    if after && nat_eq c lf
    then (pieces, last)
    else (if nat_eq c cr || nat_eq c lf then ([] ∷ pieces, last) else on_first c (pieces, last))

abbrev pub split_lines : Text → Pieces
split_lines = split_after false

-- `_NEWLINE.search`: whether there is a terminator.
unfoldable pub has_newline : Text → Bool
has_newline [] = false
has_newline (c ∷ text) = (nat_eq c cr || nat_eq c lf) || has_newline text

-- `"".join` of texts
unfoldable pub concat : List Text → Text
concat [] = []
concat (text ∷ texts) = text ++ concat texts

-- `"\n".join`
unfoldable pub join_lf : List Text → Text
join_lf [] = []
join_lf (line ∷ lines) = elim lines [ [] ↦ line | _ ∷ _ ↦ line ++ lf ∷ join_lf lines ]

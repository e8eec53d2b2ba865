-- ===== src/Durability/InboxKey.antt =====
-- `inbox_key` of packages/without_durability/src/without_durability/interfaces.py
pub mod Order
use Prim.Native.Char.{Char}
use Prim.Native.String as Str
use without.Prelude.{ℕ, zero, suc, ◌+◌, ◌/◌, ◌%◌, ◌^◌, String, ltb, if◌then◌else◌}

-- INBOX_DIGITS
abbrev pub inbox_digits : ℕ
inbox_digits = 20

abbrev pub digit : ℕ → Char
digit zero = "0"
digit (suc zero) = "1"
digit (suc (suc zero)) = "2"
digit (suc (suc (suc zero))) = "3"
digit (suc (suc (suc (suc zero)))) = "4"
digit (suc (suc (suc (suc (suc zero))))) = "5"
digit (suc (suc (suc (suc (suc (suc zero)))))) = "6"
digit (suc (suc (suc (suc (suc (suc (suc zero))))))) = "7"
digit (suc (suc (suc (suc (suc (suc (suc (suc zero)))))))) = "8"
digit _ = "9"

-- The last `w` decimal digits of `n`.
unfoldable pub padded : ℕ → ℕ → String
padded zero n = ""
padded (suc w) n = Str.◌++◌ (padded w (n / 10)) (Str.◌∷◌ (digit (n % 10)) "")

-- A number that does not fit the width is written in full: the least width, from `w` up, that holds
-- it. `n` steps are enough, for n < 10 ^ n.
abbrev pub width_from : ℕ → ℕ → ℕ → ℕ
width_from zero w n = w
width_from (suc f) w n = let wider = width_from f (w + 1) n in if ltb n (10 ^ w) then w else wider

unfoldable pub inbox_key : ℕ → String
unfolding padded
inbox_key position = Str.◌++◌ "inbox:" (padded (width_from position inbox_digits position) position)

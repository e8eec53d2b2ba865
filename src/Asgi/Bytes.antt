-- ===== src/Asgi/Bytes.antt =====
-- Python's `bytes`, as lists of numbers below 256, and the methods of it that the package calls.
use Prim.Native.Char.{code}
use Prim.Native.String.{String, [] as nil, ◌∷◌ as cons}
use without.Prelude.{
  ℕ, ◌+◌, ◌-◌, ◌*◌, ◌≡◌, ◌↔◌, Bool, true, false, ◌||◌, ◌&&◌, Option, none, some, List, [], ◌∷◌, map,
  leb, nat_eq, if◌then◌else◌, arith,
}
use without.Prelude.Eq.{EqKey, nat_key}

abbrev pub Bytes : Type 0
Bytes = List ℕ

-- A bytes literal.
abbrev pub bytes : String → Bytes
bytes nil = []
bytes (cons c s) = code c ∷ bytes s

abbrev pub bytes_eq : Bytes → Bytes → Bool
bytes_eq [] [] = true
bytes_eq (a ∷ as') (b ∷ bs) = nat_eq a b && bytes_eq as' bs
bytes_eq _ _ = false

pub bytes_eq_iff : (a b : Bytes) → (bytes_eq a b ≡ true) ↔ (a ≡ b)
bytes_eq_iff [] [] = ground arith
bytes_eq_iff [] (b ∷ bs) = ground arith
bytes_eq_iff (a ∷ as') [] = ground arith
bytes_eq_iff (a ∷ as') (b ∷ bs) = ground (arith, bytes_eq_iff as' bs)

instance abbrev pub bytes_key : EqKey Bytes
bytes_key = record { beq = bytes_eq; beq_iff = bytes_eq_iff }

abbrev pub lower_byte : ℕ → ℕ
lower_byte b = if leb 65 b && leb b 90 then b + 32 else b

-- `lower`
unfoldable pub lower : Bytes → Bytes
lower = map lower_byte

abbrev pub is_digit : ℕ → Bool
is_digit b = leb 48 b && leb b 57

-- Every byte a digit: `isdigit`, but for the empty bytes.
unfoldable pub all_digits : Bytes → Bool
all_digits [] = true
all_digits (b ∷ bs) = is_digit b && all_digits bs

-- `int` of bytes that are digits
unfoldable pub int_from : ℕ → Bytes → ℕ
int_from n [] = n
int_from n (b ∷ bs) = int_from (n * 10 + (b - 48)) bs

unfoldable pub starts_with : Bytes → Bytes → Bool
starts_with [] bs = true
starts_with (p ∷ ps) [] = false
starts_with (p ∷ ps) (b ∷ bs) = nat_eq p b && starts_with ps bs

unfoldable pub contains : ℕ → Bytes → Bool
contains x [] = false
contains x (b ∷ bs) = nat_eq x b || contains x bs

-- `partition` at a single byte: what stands before it and after it, and `none` where it does not stand.
unfoldable pub partition : ℕ → Bytes → Option (Bytes × Bytes)
partition x [] = none
partition x (b ∷ bs) =
    let rest = partition x bs in
    if nat_eq b x
    then some ([], bs)
    else elim rest [ none ↦ none | some (before, after) ↦ some (b ∷ before, after) ]

abbrev pub is_space : ℕ → Bool
is_space b = nat_eq b 32 || (leb 9 b && leb b 13)

unfoldable pub strip_left : Bytes → Bytes
strip_left [] = []
strip_left (b ∷ bs) = let rest = strip_left bs in if is_space b then rest else b ∷ bs

unfoldable pub strip_right : Bytes → Bytes
strip_right [] = []
strip_right (b ∷ bs) = elim (strip_right bs) [
  | [] ↦ if is_space b then [] else b ∷ []
  | c ∷ cs ↦ b ∷ c ∷ cs
]

-- `strip`
unfoldable pub strip : Bytes → Bytes
strip bs = strip_right (strip_left bs)

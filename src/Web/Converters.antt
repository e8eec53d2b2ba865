-- ===== src/Web/Converters.antt =====
-- packages/without_web/src/without_web/converters.py
--
-- A Python function is compared by identity, so a converter's `parse` is a number that names the
-- function object; what the function does is a parameter of the walk. The fields `schema` and
-- `render` take no part in matching or in equality, and are left out.
use without.Prelude.{ℕ, String, ◌≡◌, ◌↔◌, Bool, true, ◌&&◌, arith}
use without.Prelude.Eq.{EqKey, ◌==◌, string_key, nat_key}

pub record Converter : Type 0 where
  pub name : String
  pub parse : ℕ

-- The number of the builtin `str`; the converters STR and PATH share it.
abbrev pub str_function : ℕ
str_function = 0

abbrev pub str : Converter
str = record { name = "str"; parse = str_function }

abbrev pub int : Converter
int = record { name = "int"; parse = 1 }

abbrev pub path : Converter
path = record { name = "path"; parse = str_function }

-- The dataclass compares `name` and `parse`.
abbrev pub converter_eq : Converter → Converter → Bool
converter_eq a b = a.name == b.name && a.parse == b.parse

pub converter_eq_iff : (a b : Converter) → (converter_eq a b ≡ true) ↔ (a ≡ b)
converter_eq_iff a b = ground (arith, string_key.beq_iff a.name b.name)

instance abbrev pub converter_key : EqKey Converter
converter_key = record { beq = converter_eq; beq_iff = converter_eq_iff }

-- ===== src/Asgi/Headers.antt =====
-- packages/without_asgi/src/without_asgi/headers.py
pub mod Laws
use without.Prelude.{
  Bool, true, false, ◌||◌, Option, none, some, List, [], ◌∷◌, ◌++◌, map, if◌then◌else◌,
}
use without.Prelude.Eq.{◌==◌}
use without.Asgi.Bytes.{Bytes, bytes_key, lower}

abbrev pub RawHeaders : Type 0
RawHeaders = List (Bytes × Bytes)

-- `get_all`
unfoldable pub get_all : RawHeaders → Bytes → List Bytes
get_all [] name = []
get_all ((key, value) ∷ headers) name =
    let rest = get_all headers name in if lower key == lower name then value ∷ rest else rest

-- `first`
unfoldable pub first : RawHeaders → Bytes → Option Bytes
first [] name = none
first ((key, value) ∷ headers) name =
    let rest = first headers name in if lower key == lower name then some value else rest

-- `add`
unfoldable pub add : RawHeaders → Bytes → Bytes → RawHeaders
add headers name value = headers ++ (lower name, value) ∷ []

-- `remove`
unfoldable pub remove : RawHeaders → Bytes → RawHeaders
remove [] name = []
remove ((key, value) ∷ headers) name =
    let rest = remove headers name in if lower key == lower name then rest else (key, value) ∷ rest

-- `replace`
unfoldable pub replace : RawHeaders → Bytes → Bytes → RawHeaders
replace headers name value = remove headers name ++ (lower name, value) ∷ []

-- `name in wanted`, of the lower-cased names.
unfoldable pub is_named : Bytes → List Bytes → Bool
is_named key [] = false
is_named key (name ∷ names) = (lower name == lower key) || is_named key names

-- `subset`
unfoldable pub subset : RawHeaders → List Bytes → RawHeaders
subset [] names = []
subset ((key, value) ∷ headers) names =
    let rest = subset headers names in if is_named key names then (key, value) ∷ rest else rest

abbrev pub names_of : RawHeaders → List Bytes
names_of = map (λ header. header.0)

unfoldable pub drop_named : List Bytes → RawHeaders → RawHeaders
drop_named names [] = []
drop_named names ((key, value) ∷ headers) =
    let rest = drop_named names headers in if is_named key names then rest else (key, value) ∷ rest

-- `merge`
unfoldable pub merge : RawHeaders → RawHeaders → RawHeaders
merge base over = drop_named (names_of over) base ++ over

-- ===== src/Asgi/Selection/Precedence.antt =====
-- Which condition of a request decides.
use without.Prelude.{
  ℕ, true, false, ◌||◌, Bool-cases, Option, Option-cases, some, ◌≡◌, refl, sym, subst, ◌⊎◌, inl,
  inr, List, [], ◌∷◌,
}
use without.Prelude.Eq.{◌==◌}
use without.Asgi.Bytes.{Bytes, bytes, bytes_key, starts_with}
use without.Asgi.Headers.{RawHeaders, first, get_all}
use without.Asgi.Selection.{whole, head, not_modified, is_current, range_allowed, selection_for}

-- Where `If-None-Match` is present no date decides whether the client's copy is current, whether or
-- not the field parses.
pub is_current-no_dates :
    (date_of date_of' : Bytes → Option ℕ) (raw : RawHeaders) (etag : Option Bytes)
    (modified modified' : Option ℕ) (c : Bytes) (cs : List Bytes)
    → get_all raw (bytes "if-none-match") ≡ c ∷ cs
    → is_current date_of raw etag modified ≡ is_current date_of' raw etag modified'
unfolding is_current
is_current-no_dates date_of date_of' raw etag modified modified' c cs there =
    rw (there, is_current) refl

-- A `HEAD` is answered with a head alone, or with 304, and with 304 exactly where a `GET` is.
pub selection_for-head :
    (date_of : Bytes → Option ℕ) (size : ℕ) (raw : RawHeaders) (etag : Option Bytes)
    (modified : Option ℕ)
    → ((selection_for date_of size (bytes "HEAD") raw etag modified ≡ head)
        × (is_current date_of raw etag modified ≡ false))
      ⊎ ((selection_for date_of size (bytes "HEAD") raw etag modified ≡ not_modified)
          × (selection_for date_of size (bytes "GET") raw etag modified ≡ not_modified))
unfolding selection_for
selection_for-head date_of size raw etag modified =
    elim (Bool-cases (is_current date_of raw etag modified)) [
      | inl current ↦ inr (rw current (refl, refl))
      | inr stale ↦ inl (rw stale refl, stale)
    ]

-- A weak validator satisfies no `If-Range` that names a tag: the range is ignored.
pub range_allowed-weak :
    (date_of : Bytes → Option ℕ) (raw : RawHeaders) (tag condition : Bytes) (modified : Option ℕ)
    → starts_with (bytes "W/") tag ≡ true
    → first raw (bytes "if-range") ≡ some condition
    → (starts_with (34 ∷ []) condition || starts_with (bytes "W/") condition) ≡ true
    → range_allowed date_of raw (some tag) modified ≡ false
unfolding range_allowed
range_allowed-weak date_of raw tag condition modified weak there is_tag =
    rw (there, range_allowed)
      (rw is_tag (elim (Bool-cases (condition == tag)) [
        | inr other ↦ rw other refl
        | inl same ↦
            let weak' =
              subst (λ t. starts_with (bytes "W/") t ≡ true)
                (sym ((bytes_key.beq_iff condition tag).0 same)) weak in
            rw same (rw weak' refl)
      ]))

-- A `GET` whose `If-Range` names a tag, of a representation whose validator is weak, is answered
-- whole or with 304, whatever range it asks for.
pub selection_for-weak :
    (date_of : Bytes → Option ℕ) (size : ℕ) (raw : RawHeaders) (tag condition : Bytes)
    (modified : Option ℕ)
    → starts_with (bytes "W/") tag ≡ true
    → first raw (bytes "if-range") ≡ some condition
    → (starts_with (34 ∷ []) condition || starts_with (bytes "W/") condition) ≡ true
    → (selection_for date_of size (bytes "GET") raw (some tag) modified ≡ whole)
      ⊎ (selection_for date_of size (bytes "GET") raw (some tag) modified ≡ not_modified)
unfolding selection_for
selection_for-weak date_of size raw tag condition modified weak there is_tag =
    elim (Bool-cases (is_current date_of raw (some tag) modified)) [
      | inl current ↦ inr (rw current refl)
      | inr stale ↦ inl (
          rw stale (elim (Option-cases (first raw (bytes "range"))) [
            | inl unasked ↦ rw (unasked, selection_for) refl
            | inr (spec, asked) ↦
                rw (asked, selection_for)
                  (rw (range_allowed-weak date_of raw tag condition modified weak there is_tag)
                    refl)
          ]))
    ]

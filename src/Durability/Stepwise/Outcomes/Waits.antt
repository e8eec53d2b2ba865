-- ===== src/Durability/Stepwise/Outcomes/Waits.antt =====
-- The waits on the outside of a pass that stopped, as sets of names.
use without.Prelude.{
  true, String, ◌≡◌, refl, sym, ap, ◌∙◌, Bool, Bool-cases, inl, inr, ◌↔◌, List, [], ◌∷◌, Memᴰ,
  mem-cases,
}
use without.Prelude.Eq.{◌==◌, string_key}
use without.Durability.Stepwise.{
  Suspended, input_needed, message_needed, scheduled_wakeup, unknown, key_of, text_lt, put_text,
  set_of,
}
use without.Durability.Stepwise.Outcomes.{is_input, is_message, keys_where}

mem-put_text :
    (x key : String) (keys : List String) → Memᴰ x (put_text key keys) ↔ Memᴰ x (key ∷ keys)
unfolding put_text
mem-put_text x key [] = (λ m. m, λ m. m)
mem-put_text x key (k ∷ keys) =
    let (left, right) = mem-put_text x key keys in
    elim (Bool-cases (key == k)) [
      | inl same ↦ rw same (
        λ m. Memᴰ.tail m,
        λ m. elim (mem-cases m) [
          | inl e ↦ Memᴰ.head (e ∙ (string_key.beq_iff key k).0 same)
          | inr n ↦ n
        ],
      )
      | inr other ↦ elim (Bool-cases (text_lt key k)) [
        | inl before ↦ rw other (rw before (λ m. m, λ m. m))
        | inr after ↦ rw other (
            rw after (
              λ m. elim (mem-cases m) [
                | inl e ↦ Memᴰ.tail (Memᴰ.head e)
                | inr n ↦ elim (mem-cases (left n)) [
                  | inl e ↦ Memᴰ.head e
                  | inr l ↦ Memᴰ.tail (Memᴰ.tail l)
                ]
              ],
              λ m. elim (mem-cases m) [
                | inl e ↦ Memᴰ.tail (right (Memᴰ.head e))
                | inr n ↦ elim (mem-cases n) [
                  | inl e ↦ Memᴰ.head e
                  | inr l ↦ Memᴰ.tail (right (Memᴰ.tail l))
                ]
              ],
            ))
      ]
    ]

mem-set_of : (x : String) (keys : List String) → Memᴰ x (set_of keys) ↔ Memᴰ x keys
unfolding set_of
mem-set_of x [] = (λ m. m, λ m. m)
mem-set_of x (key ∷ keys) =
    let (left, right) = mem-set_of x keys in
    let (of_put, to_put) = mem-put_text x key (set_of keys) in
    (
      λ m. elim (mem-cases (of_put m)) [ inl e ↦ Memᴰ.head e | inr n ↦ Memᴰ.tail (left n) ],
      λ m. to_put (elim (mem-cases m) [ inl e ↦ Memᴰ.head e | inr n ↦ Memᴰ.tail (right n) ]),
    )

-- The keys of one kind of suspension name exactly the suspensions of that kind.
mem-keys_where :
    (test : Suspended → Bool) (kind : String → Suspended)
    → ((x : Suspended) → test x ≡ true → x ≡ kind (key_of x))
    → ((k : String) → test (kind k) ≡ true)
    → ((k : String) → key_of (kind k) ≡ k)
    → (key : String) (s : List Suspended) → Memᴰ key (keys_where test s) ↔ Memᴰ (kind key) s
unfolding keys_where
mem-keys_where test kind of to named key [] = (λ m. elim m [ ], λ m. elim m [ ])
mem-keys_where test kind of to named key (x ∷ rest) =
    let (left, right) = mem-keys_where test kind of to named key rest in
    elim (Bool-cases (test x)) [
      | inl is ↦ rw is (
        λ m. elim (mem-cases m) [
          | inl e ↦ Memᴰ.head (ap kind e ∙ sym (of x is))
          | inr n ↦ Memᴰ.tail (left n)
        ],
        λ m. elim (mem-cases m) [
          | inl e ↦ Memᴰ.head (sym (named key) ∙ ap key_of e)
          | inr n ↦ Memᴰ.tail (right n)
        ],
      )
      | inr other ↦ rw other (
        λ m. Memᴰ.tail (left m),
        λ m. elim (mem-cases m) [
          | inl e ↦ absurd (cc (sym (to key) ∙ ap test e ∙ other))
          | inr n ↦ right n
        ],
      )
    ]

is_input-kind : (x : Suspended) → is_input x ≡ true → x ≡ input_needed (key_of x)
is_input-kind (input_needed k) h = refl
is_input-kind (message_needed k) h = absurd (cc h)
is_input-kind (scheduled_wakeup k due) h = absurd (cc h)
is_input-kind (unknown k) h = absurd (cc h)

is_message-kind : (x : Suspended) → is_message x ≡ true → x ≡ message_needed (key_of x)
is_message-kind (message_needed k) h = refl
is_message-kind (input_needed k) h = absurd (cc h)
is_message-kind (scheduled_wakeup k due) h = absurd (cc h)
is_message-kind (unknown k) h = absurd (cc h)

-- The names of one list that stand, under a kind of wait, in the suspensions: all of them.
abbrev pub Names : (String → Suspended) → List Suspended → List String → Type 0
Names kind s keys = (key : String) → Memᴰ key keys ↔ Memᴰ (kind key) s

pub Names-inputs : (s : List Suspended) → Names input_needed s (set_of (keys_where is_input s))
Names-inputs s key =
    let (l, r) = mem-set_of key (keys_where is_input s) in
    let (l', r') =
      mem-keys_where is_input input_needed is_input-kind (λ k. refl) (λ k. refl) key s in
    (λ m. l' (l m), λ m. r (r' m))

pub Names-messages :
    (s : List Suspended) → Names message_needed s (set_of (keys_where is_message s))
Names-messages s key =
    let (l, r) = mem-set_of key (keys_where is_message s) in
    let (l', r') =
      mem-keys_where is_message message_needed is_message-kind (λ k. refl) (λ k. refl) key s in
    (λ m. l' (l m), λ m. r (r' m))

-- ===== src/Tokens/Fields.antt =====
-- The words that `stok` leaves behind are the fields between the separators.
use study_eltex.Prelude.{
  ℕ, suc, ◌≡◌, ◌≢◌, refl, sym, ap, ap₂, ◌∙◌, List, [], ◌∷◌, ◌++◌, append_assoc, append-nil, Bytes,
  map, length, drop, drop-append_length, length-snoc, length-map, cstr, ◌==◌, if◌then◌else◌, arith,
  Bool-cases, inl, inr,
}
use study_eltex.Tokens.{walk, stok}

-- No byte of the text is `c`.
abbrev pub Lacks : ℕ → Bytes → Type 0
Lacks c [] = Unit
Lacks c (x ∷ s) = (x ≢ c) × Lacks c s

-- The text up to the first separator, and the fields behind it.
unfoldable pub first_field : ℕ → Bytes → Bytes
first_field sep [] = []
first_field sep (c ∷ s) = if c == sep then [] else c ∷ first_field sep s

unfoldable pub other_fields : ℕ → Bytes → List Bytes
other_fields sep [] = []
other_fields sep (c ∷ s) =
    if c == sep then first_field sep s ∷ other_fields sep s else other_fields sep s

-- The fields between the separators, one more than there are separators.
unfoldable pub fields : Bytes → ℕ → List Bytes
fields s sep = first_field sep s ∷ other_fields sep s

unfoldable pub blank : ℕ → Bytes → Bytes
blank sep [] = []
blank sep (c ∷ s) = (if c == sep then 0 else c) ∷ blank sep s

unfoldable pub offsets : ℕ → ℕ → Bytes → List ℕ
offsets sep pos [] = []
offsets sep pos (c ∷ s) =
    if c == sep then suc pos ∷ offsets sep (suc pos) s else offsets sep (suc pos) s

-- What the caller reads through `words[k]`.
abbrev pub word : Bytes → ℕ → Bytes
word buffer w = cstr (drop w buffer)

pub walk-blank :
    (sep pos : ℕ) (s : Bytes) (words : List ℕ) → (walk sep pos s words).buffer ≡ blank sep s
unfolding walk blank
walk-blank sep pos [] words = refl
walk-blank sep pos (c ∷ s) words =
    rw (walk-blank sep (suc pos) s (if c == sep then words ++ suc pos ∷ [] else words))

pub walk-offsets :
    (sep pos : ℕ) (s : Bytes) (words : List ℕ)
    → (walk sep pos s words).words ≡ words ++ offsets sep pos s
unfolding walk offsets
walk-offsets sep pos [] words = sym (append-nil words)
walk-offsets sep pos (c ∷ s) words = elim (Bool-cases (c == sep)) [
  | inl e ↦ rw e (walk-offsets sep (suc pos) s _ ∙ append_assoc words (suc pos ∷ []) _)
  | inr e ↦ rw e (walk-offsets sep (suc pos) s words)
]

cstr-blank : (sep : ℕ) (s : Bytes) → Lacks 0 s → cstr (blank sep s) ≡ first_field sep s
unfolding cstr blank first_field
cstr-blank sep [] h = refl
cstr-blank sep (c ∷ s) h = ground (arith, cstr-blank sep s)

-- The word behind a separator at offset `pos`.
word-first_field :
    (sep pos : ℕ) (pre : Bytes) (x : ℕ) (s : Bytes)
    → length pre ≡ pos
    → Lacks 0 s
    → word (pre ++ x ∷ blank sep s) (suc pos) ≡ first_field sep s
word-first_field sep pos pre x s e h =
    let there =
      drop-append_length (suc pos) (pre ++ x ∷ []) (blank sep s) (length-snoc pre x pos e) in
    ap cstr (rw (append_assoc pre (x ∷ []) (blank sep s)) at there) ∙ cstr-blank sep s h

word-offsets :
    (sep pos : ℕ) (pre s : Bytes)
    → length pre ≡ pos
    → Lacks 0 s
    → map (word (pre ++ blank sep s)) (offsets sep pos s) ≡ other_fields sep s
unfolding blank offsets other_fields
word-offsets sep pos pre [] e h = refl
word-offsets sep pos pre (c ∷ s) e h =
    let x : ℕ = if c == sep then 0 else c in
    let later = word-offsets sep (suc pos) (pre ++ x ∷ []) s (length-snoc pre x pos e) h.1 in
    let rest = rw (append_assoc pre (x ∷ []) (blank sep s)) at later in
    elim (Bool-cases (c == sep)) [
      | inl same ↦ rw same (ap₂ ◌∷◌ (word-first_field sep pos pre 0 s e h.1) (rw same at rest))
      | inr other ↦ rw other (rw other at rest)
    ]

-- On a string `stok` leaves a buffer in which the words, read as strings, are exactly the fields
-- between the separators, in order; the count it returns is the number of those fields.
pub stok-fields :
    (s : Bytes) (sep : ℕ)
    → Lacks 0 s
    → (map (word (stok s sep).buffer) (stok s sep).words ≡ fields s sep)
      × (length (stok s sep).words ≡ length (fields s sep))
unfolding stok fields
stok-fields s sep h =
    let read : map (word (blank sep s)) (0 ∷ offsets sep 0 s) ≡ fields s sep =
      ap₂ ◌∷◌ (cstr-blank sep s h) (word-offsets sep 0 [] s refl h) in
    let through : map (word (stok s sep).buffer) (stok s sep).words ≡ fields s sep =
      simp (walk-offsets sep 0 s (0 ∷ []), walk-blank sep 0 s (0 ∷ [])) read in
    (through, sym (length-map (stok s sep).words (word (stok s sep).buffer)) ∙ ap length through)

-- A text with no separator is one field.
pub first_field-Lacks : (sep : ℕ) (s : Bytes) → Lacks sep s → first_field sep s ≡ s
unfolding first_field
first_field-Lacks sep [] h = refl
first_field-Lacks sep (c ∷ s) h = ground (arith, first_field-Lacks sep s)

pub other_fields-Lacks : (sep : ℕ) (s : Bytes) → Lacks sep s → other_fields sep s ≡ []
unfolding other_fields
other_fields-Lacks sep [] h = refl
other_fields-Lacks sep (c ∷ s) h = ground (arith, other_fields-Lacks sep s)

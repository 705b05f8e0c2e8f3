-- ===== src/Contacts/BookFile/Lines.antt =====
-- One line of book.txt: what is written for a contact is read back as that contact.
use study_eltex.Prelude.{
  ℕ, ◌+◌, ◌-◌, ◌<◌, ◌≡◌, ◌≢◌, refl, sym, ap, ◌∙◌, true, false, some, [], ◌∷◌, ◌++◌, append_assoc,
  Bytes, length, length-append, cstr, str_eq, str_eq→eq, Bool-cases, inl, inr, lt→ltb, arith, map,
}
use study_eltex.Contacts.{field_size, Sub}
use study_eltex.Contacts.HeapBook.{ContactBook, Allocator, add_sub}
use study_eltex.Contacts.BookFile.{
  newline, space, contact_size, is_last, read_lines, make_sub, load_line, save_line,
}
use study_eltex.Tokens.{stok}
use study_eltex.Tokens.Fields.{
  word, Lacks, fields, first_field, other_fields, stok-fields, first_field-Lacks,
  other_fields-Lacks,
}

-- What `scanf("%s")` gives: no white space that matters here, no NUL, and room in the buffer.
pub record IsWord (s : Bytes) : Type 0 where
  pub no_nul : Lacks 0 s
  pub no_space : Lacks space s
  pub no_newline : Lacks newline s
  pub short : length s < field_size

-- A contact as the program makes it: two words, and a number that ends with its newline.
pub record IsClean (c : Sub) : Type 0 where
  pub name_word : IsWord c.name
  pub surename_word : IsWord c.surename
  pub digits : Bytes
  pub ended : c.number ≡ digits ++ newline ∷ []
  pub digits_word : IsWord digits
  pub number_short : length c.number < field_size

-- The line of a contact, without its newline.
abbrev pub body : Bytes → Bytes → Bytes → Bytes
body name surename digits = name ++ space ∷ (surename ++ space ∷ digits)

Lacks-append : (c : ℕ) (s t : Bytes) → Lacks c s → Lacks c t → Lacks c (s ++ t)
Lacks-append c [] t hs ht = ht
Lacks-append c (x ∷ s) t hs ht = (hs.0, Lacks-append c s t hs.1 ht)

is_last-newline : (room : ℕ) → is_last room newline ≡ true
unfolding is_last
is_last-newline room = refl

is_last_other : (room c : ℕ) → c ≢ newline → 1 < room → is_last room c ≡ false
unfolding is_last
is_last_other room c h short = ground arith

-- A line shorter than the buffer is read whole.
pub read_lines-line :
    (mass s rest : Bytes) (room : ℕ)
    → Lacks newline s
    → length s < room
    → read_lines room mass (s ++ newline ∷ rest)
      ≡ (mass ++ (s ++ newline ∷ [])) ∷ read_lines (contact_size - 1) [] rest
unfolding read_lines
read_lines-line mass [] rest room h short = rw (is_last-newline room)
read_lines-line mass (c ∷ s) rest room h short =
    let later = read_lines-line (mass ++ c ∷ []) s rest (room - 1) h.1 (omega arith) in
    rw (is_last_other room c h.0 (omega arith)) (simp append_assoc at later)

first_field-word : (s r : Bytes) → Lacks space s → first_field space (s ++ space ∷ r) ≡ s
unfolding first_field
first_field-word [] r h = refl
first_field-word (c ∷ s) r h = ground (arith, first_field-word s r h.1)

other_fields-word :
    (s r : Bytes)
    → Lacks space s
    → other_fields space (s ++ space ∷ r) ≡ first_field space r ∷ other_fields space r
unfolding other_fields
other_fields-word [] r h = refl
other_fields-word (c ∷ s) r h = ground (arith, other_fields-word s r h.1)

cstr-Lacks : (s : Bytes) → Lacks 0 s → cstr s ≡ s
unfolding cstr
cstr-Lacks [] h = refl
cstr-Lacks (c ∷ s) h = ground (arith, cstr-Lacks s h.1)

-- The three words of a line.
pub fields-line :
    (name surename number : Bytes)
    → Lacks space name
    → Lacks space surename
    → Lacks space number
    → fields (body name surename number) space ≡ name ∷ surename ∷ number ∷ []
unfolding fields
fields-line name surename number hn hs hm = rw (
  first_field-word name (surename ++ space ∷ number) hn,
  other_fields-word name (surename ++ space ∷ number) hn,
  first_field-word surename number hs,
  other_fields-word surename number hs,
  first_field-Lacks space number hm,
  other_fields-Lacks space number hm,
)

-- The line that is written for a contact.
abbrev pub line : Sub → Bytes
line c = body c.name c.surename c.number

module _ (c : Sub) (clean : IsClean c) where
  open clean use {name_word, surename_word, digits, ended, digits_word, number_short}

  Lacks-number : (x : ℕ) → Lacks x digits → newline ≢ x → Lacks x c.number
  Lacks-number x h ne = rw ended (Lacks-append x digits (newline ∷ []) h (ne, tt))

  pub line-ended : (line c) ≡ body c.name c.surename digits ++ newline ∷ []
  line-ended = rw ended (simp append_assoc)

  pub Lacks-line :
      (x : ℕ)
      → x ≢ space
      → Lacks x c.name
      → Lacks x c.surename
      → Lacks x c.number
      → Lacks x (line c)
  Lacks-line x ne hn hs hm =
      Lacks-append x c.name _ hn
        ((λ e. ne (sym e)), Lacks-append x c.surename _ hs ((λ e. ne (sym e)), hm))

  no_nul_line : Lacks 0 (line c)
  no_nul_line =
      Lacks-line 0 (omega arith) name_word.no_nul surename_word.no_nul
        (Lacks-number 0 digits_word.no_nul (omega arith))

  pub cstr-line : cstr (line c) ≡ line c
  cstr-line = cstr-Lacks (line c) no_nul_line

  pub length-line : length (line c) ≡ length c.name + length c.surename + length c.number + 2
  length-line = omega (
    arith,
    length-append c.name (space ∷ (c.surename ++ space ∷ c.number)),
    length-append c.surename (space ∷ c.number),
  )

  pub save_line_clean : save_line c ≡ some (line c)
  unfolding save_line
  save_line_clean = rw (
      lt→ltb (length (line c)) contact_size
        (omega (arith, length-line, name_word.short, surename_word.short)))

  pub line-not_newline : str_eq (line c) (newline ∷ []) ≡ false
  line-not_newline = elim (Bool-cases (str_eq (line c) (newline ∷ []))) [
    | inl e ↦ absurd (omega (arith, ap length (str_eq→eq (line c) (newline ∷ []) e), length-line))
    | inr e ↦ e
  ]

  pub words-line :
      map (word (stok (line c) space).buffer) (stok (line c) space).words
      ≡ c.name ∷ c.surename ∷ c.number ∷ []
  words-line =
      (stok-fields (line c) space no_nul_line).0
      ∙ fields-line c.name c.surename c.number name_word.no_space surename_word.no_space
          (Lacks-number space digits_word.no_space (omega arith))

  pub make_sub_clean : make_sub c.name c.surename c.number ≡ some c
  unfolding make_sub
  make_sub_clean = rw (
    lt→ltb (length c.name) field_size name_word.short,
    lt→ltb (length c.surename) field_size surename_word.short,
    lt→ltb (length c.number) field_size number_short,
  )

  pub load_line_clean : (a : Allocator) (b : ContactBook) → load_line a b (line c) ≡ add_sub a b c
  unfolding load_line
  load_line_clean a b = rw (cstr-line, line-not_newline, words-line, make_sub_clean)

  -- What fgets reads where the line of a contact begins.
  pub read_line_clean :
      (rest : Bytes)
      → read_lines (contact_size - 1) [] ((line c) ++ rest)
        ≡ (line c) ∷ read_lines (contact_size - 1) [] rest
  read_line_clean rest =
      let s = body c.name c.surename digits in
      let short : length s < contact_size - 1 = omega (
        arith,
        length-line,
        ap length line-ended,
        length-append s (newline ∷ []),
        name_word.short,
        surename_word.short,
      ) in
      let lacks = Lacks-append newline c.name _ name_word.no_newline (
        omega arith,
        Lacks-append newline c.surename _ surename_word.no_newline
            (omega arith, digits_word.no_newline),
      ) in
      let read = read_lines-line [] s rest (contact_size - 1) lacks short in
      rw (line-ended, append_assoc s) read

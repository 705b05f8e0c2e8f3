-- ===== src/Plugins/Sessions.antt =====
-- A run of lib/calc.c on libraries that are named as its usage says.
use study_eltex.Prelude.{
  ◌||◌, Bool, true, false, ℕ, zero, suc, ◌≤◌, ◌<◌, ◌≡◌, refl, ap, Option, none, some, List, [], ◌∷◌,
  ◌++◌, Bytes, codes, length, drop, map, cstr, ltb, lt→ltb, not-lt→ltb, ◌==◌, ◌&&◌, ◌-◌, get_elem?,
  Bool-cases, ◌⊎◌, inl, inr, arith, if◌then◌else◌,
}
use study_eltex.Contacts.{◌>>=◌}
use study_eltex.Plugins.{
  cut_names, Request, Answer, result, unknown, load_failed, Loader, string_at, menu, call, serve,
  calc,
}
use study_eltex.Plugins.Names.{cut_name-lib}

abbrev pub lib_of : Bytes → Bytes
lib_of name = codes "lib" ++ (name ++ codes ".so")

-- A library, and the function that is asked for there.
pub record Plugin : Type 0 where
  pub file : Bytes
  pub symbol : Bytes

-- Behind the name in its row stands what the row held, and that counts up to the first NUL.
unfoldable pub plugins : (i : ℕ) → (junk : ℕ → Bytes) → List Bytes → List Plugin
plugins i junk [] = []
plugins i junk (name ∷ names) =
    record { file = lib_of name; symbol = cstr (name ++ drop (length name) (junk i)) }
    ∷ plugins (suc i) junk names

-- The commands count from 1.
abbrev pub picked : ℕ → List Plugin → Option Plugin
picked zero ps = none
picked (suc k) ps = get_elem? ps k

-- What is printed to some requests; the command behind the last plug-in ends the program.
unfoldable pub reply : Loader → Option Plugin → Request → List Answer → List Answer
reply load none r rest = unknown ∷ rest
reply load (some p) r rest = elim (load p.file p.symbol) [
  | none ↦ load_failed ∷ []
  | some f ↦ result p.symbol (f r.x r.y) ∷ rest
]

unfoldable pub answers : Loader → List Plugin → List Request → List Answer
answers load ps [] = []
answers load ps (r ∷ requests) =
    let rest = answers load ps requests in
    if r.num == suc (length ps) then [] else reply load (picked r.num ps) r rest

-- The rows hold the symbols.
abbrev IsCut : List Bytes → List Plugin → Type 0
IsCut [] [] = Unit
IsCut [] (p ∷ ps) = ⊥
IsCut (w ∷ words) [] = ⊥
IsCut (w ∷ words) (p ∷ ps) = (string_at w ≡ some p.symbol) × IsCut words ps

unfoldable pub has_nul : Bytes → Bool
has_nul [] = false
has_nul (c ∷ s) = (c == 0) || has_nul s

-- A row ends no earlier than its name, and behind the name it held a NUL.
unfoldable pub AllFit : (i : ℕ) → (junk : ℕ → Bytes) → List Bytes → Type 0
AllFit i junk [] = Unit
AllFit i junk (name ∷ names) =
    (length name ≤ length (junk i))
    × (has_nul (drop (length name) (junk i)) ≡ true)
    × AllFit (suc i) junk names

string_at-nul : (s : Bytes) → has_nul s ≡ true → string_at s ≡ some (cstr s)
unfolding string_at has_nul cstr
string_at-nul [] h = absurd cc
string_at-nul (c ∷ s) h = elim (Bool-cases (c == 0)) [
  | inl e ↦ rw e refl
  | inr e ↦ rw (e, string_at-nul s (rw e at h)) refl
]

has_nul-append : (s t : Bytes) → has_nul t ≡ true → has_nul (s ++ t) ≡ true
unfolding has_nul
has_nul-append [] t h = h
has_nul-append (c ∷ s) t h = elim (Bool-cases (c == 0)) [
  | inl e ↦ rw e refl
  | inr e ↦ rw e (has_nul-append s t h)
]

cut_names-plugins :
    (i : ℕ) (junk : ℕ → Bytes) (names : List Bytes)
    → AllFit i junk names
    → (words : List Bytes) × (cut_names i junk (map lib_of names) ≡ some words)
      × IsCut words (plugins i junk names)
unfolding cut_names plugins AllFit
cut_names-plugins i junk [] h = ([], refl, tt)
cut_names-plugins i junk (name ∷ names) h =
    let (words, cut, good) = cut_names-plugins (suc i) junk names h.2 in
    let row = name ++ drop (length name) (junk i) in
    (
      row ∷ words,
      rw (cut_name-lib (junk i) name h.0, cut) refl,
      (string_at-nul row (has_nul-append name (drop (length name) (junk i)) h.1), good),
    )

file_of : Plugin → Bytes
file_of p = p.file

record Found (ps : List Plugin) (words : List Bytes) (k : ℕ) : Type 0 where
  plugin : Plugin
  word : Bytes
  here : get_elem? ps k ≡ some plugin
  arg : get_elem? (map file_of ps) k ≡ some (plugin.file)
  row : get_elem? words k ≡ some word
  names_it : string_at word ≡ some plugin.symbol
  inside : k < length ps

find :
    (ps : List Plugin) (words : List Bytes) (k : ℕ)
    → IsCut words ps
    → Found ps words k ⊎ ((get_elem? ps k ≡ none) × (length ps ≤ k))
unfolding file_of
find [] words k h = inr (refl, omega arith)
find (p ∷ ps) [] k h = absurd h
find (p ∷ ps) (w ∷ words) zero h = inl (record {
  plugin = p;
  word = w;
  here = refl;
  arg = refl;
  row = refl;
  names_it = h.0;
  inside = omega arith;
})
find (p ∷ ps) (w ∷ words) (suc k) h = elim (find ps words k h.1) [
  | inl f ↦ inl (record {
    plugin = f.plugin;
    word = f.word;
    here = f.here;
    arg = f.arg;
    row = f.row;
    names_it = f.names_it;
    inside = omega (arith, f.inside);
  })
  | inr e ↦ inr (e.0, omega (arith, e.1))
]

length-files : (ps : List Plugin) → length (map file_of ps) ≡ length ps
length-files [] = refl
length-files (p ∷ ps) = ap suc (length-files ps)

command-reply :
    (load : Loader) (ps : List Plugin) (words : List Bytes) (num : ℕ) (r : Request)
    (rest : List Answer)
    → IsCut words ps
    → (if ltb 0 num && ltb num (suc (length ps))
        then (get_elem? (map file_of ps) (num - 1) >>= λ arg. get_elem? words (num - 1) >>= λ word.
            string_at word >>= λ name. some (call load arg name r rest))
        else some (unknown ∷ rest))
      ≡ some (reply load (picked num ps) r rest)
unfolding reply call
command-reply load ps words zero r rest h = refl
command-reply load ps words (suc k) r rest h =
    let back : suc k - 1 ≡ k = omega arith in
    elim (find ps words k h) [
      | inl f ↦
          rw
            (
              lt→ltb 0 (suc k) (omega arith),
              lt→ltb (suc k) (suc (length ps)) (omega (arith, f.inside)),
              back,
            )
            (rw (f.arg, f.row, f.here, f.names_it) refl)
      | inr e ↦
          rw
            (
              lt→ltb 0 (suc k) (omega arith),
              not-lt→ltb (suc k) (suc (length ps)) (omega (arith, e.1)),
              e.0,
            )
            refl
    ]

symbol_of : Plugin → Bytes
symbol_of p = p.symbol

menu-symbols :
    (ps : List Plugin) (words : List Bytes) → IsCut words ps → menu words ≡ some (map symbol_of ps)
unfolding menu symbol_of
menu-symbols [] [] h = refl
menu-symbols [] (w ∷ words) h = absurd h
menu-symbols (p ∷ ps) [] h = absurd h
menu-symbols (p ∷ ps) (w ∷ words) h = rw (h.0, menu-symbols ps words h.1) refl

serve-answers :
    (load : Loader) (ps : List Plugin) (words : List Bytes) (requests : List Request)
    → IsCut words ps
    → serve load (map file_of ps) words requests ≡ some (answers load ps requests)
unfolding serve answers call
serve-answers load ps words [] h = rw (menu-symbols ps words h) refl
serve-answers load ps words (r ∷ requests) h =
    let later = serve-answers load ps words requests h in
    elim (Bool-cases (r.num == suc (length ps))) [
      | inl e ↦ rw (menu-symbols ps words h, length-files ps, e) refl
      | inr e ↦
          rw (menu-symbols ps words h, length-files ps, later, e)
            (command-reply load ps words r.num r _ h)
    ]

files-plugins :
    (i : ℕ) (junk : ℕ → Bytes) (names : List Bytes)
    → map file_of (plugins i junk names) ≡ map lib_of names
unfolding plugins file_of
files-plugins i junk [] = refl
files-plugins i junk (name ∷ names) = ap (◌∷◌ (lib_of name)) (files-plugins (suc i) junk names)

-- Where each argument is lib<name>.so with a name that is no longer than its row, and each row happened to
-- hold a NUL behind the place of the name, calc reads and writes inside the rows and answers each
-- request, up to the exit, by its command: a number of an argument calls, in that library, the
-- function of the name (with whatever the row held between it and the NUL) on the two numbers;
-- another number is unknown; a library or function that is not found ends the program.
pub calc-answers :
    (load : Loader) (junk : ℕ → Bytes) (names : List Bytes) (requests : List Request)
    → 0 < length names
    → AllFit 1 junk names
    → calc load junk (map lib_of names) requests
      ≡ some (answers load (plugins 1 junk names) requests)
unfolding calc
calc-answers load junk [] requests k h = absurd (omega arith)
calc-answers load junk (name ∷ names) requests k h =
    let (words, cut, good) = cut_names-plugins 1 junk (name ∷ names) h in
    rw (cut, ← files-plugins 1 junk (name ∷ names)) (serve-answers load _ words requests good)

-- ===== src/Examples/Books.antt =====
-- Contact books of heap/task.c with two contacts, and runs of both programs.
use study_eltex.Prelude.{
  false, str_eq, ℕ, ◌≤◌, ◌≡◌, refl, true, some, List, [], ◌∷◌, ◌++◌, Bytes, codes, take, drop,
  arith,
}
use mathlib.Core.List.{Perm}
use study_eltex.Contacts.{Sub}
use study_eltex.Contacts.Sort.{sort}
use study_eltex.Contacts.Sort.Insertion.{insertion_sort, IsSorted, named}
use study_eltex.Contacts.Sort.Loops.{sort_correct}
use study_eltex.Contacts.HeapBook.{
  ContactBook, Allocator, Deletion, done, unset, block, add_sub, del_sub,
}
use study_eltex.Contacts.HeapBook.Contents.{contents, IsValid, add_sub_done}
use study_eltex.Contacts.HeapBook.Delete.{erase_first, listed, del_sub_done}
use study_eltex.Contacts.BookFile.{newline, load_book, save_book}
use study_eltex.Contacts.BookFile.Lines.{IsWord, IsClean}
use study_eltex.Contacts.BookFile.RoundTrip.{load_book-save_book}
use study_eltex.Contacts.Menu.{Session, run_menu}
use study_eltex.Contacts.Menu.Good.{IsToken, AllTokens, IsGood}
use study_eltex.Contacts.Menu.Commands.{commands, perform, adds}
use study_eltex.Contacts.Menu.Refinement.{end_of, run_menu-perform}
use study_eltex.Contacts.BookFile.RoundTrip.{text}
use study_eltex.Contacts.Program
use study_eltex.Contacts.ArrayProgram
use study_eltex.Contacts.ArrayBook.Delete.{thin}
use study_eltex.Contacts.ArrayProgram.Sessions.{array_main-perform}
use study_eltex.Contacts.Program.Sessions.{kept, main-perform}

abbrev ann : Sub
ann = record { name = codes "Ann"; surename = codes "Lee"; number = 49 ∷ newline ∷ [] }

abbrev bob : Sub
bob = record { name = codes "Bob"; surename = codes "Ray"; number = 50 ∷ newline ∷ [] }

-- An allocator that grants every request, and one that grants none.
abbrev generous : Allocator
generous = record { grant = λ n. true; junk = ann }

abbrev two : ContactBook
two = record { size = 2; arr = block (ann ∷ bob ∷ ann ∷ []) }

abbrev mixed : List Sub
mixed = bob ∷ ann ∷ bob ∷ []

sort_correct_example :
    (l : List Sub) × (sort mixed 2 ≡ some (l ++ drop 2 mixed))
    × IsSorted l
    × Perm l (take 2 mixed)
    × ((n : Bytes) → named n l ≡ named n (take 2 mixed))
sort_correct_example = sort_correct mixed 2 (omega arith)

add_sub_done_example :
    (b' : ContactBook) × (add_sub generous two ann ≡ some (b', done))
    × IsValid b'
    × (contents b' ≡ insertion_sort (contents two ++ ann ∷ []))
    × (b'.size ≡ 3)
add_sub_done_example = add_sub_done generous two ann (omega arith) refl

del_sub_done_example :
    (d : Deletion) × (del_sub generous two bob ≡ some d)
    × (d.status ≡ done)
    × IsValid d.book
    × (contents d.book ≡ erase_first bob (contents two))
    × (d.found ≡ listed bob (contents two))
del_sub_done_example = del_sub_done generous two bob (omega arith) refl

ann_name-IsWord : IsWord (codes "Ann")
ann_name-IsWord = record {
  no_nul = (omega arith, (omega arith, (omega arith, tt)));
  no_space = (omega arith, (omega arith, (omega arith, tt)));
  no_newline = (omega arith, (omega arith, (omega arith, tt)));
  short = omega arith;
}

lee-IsWord : IsWord (codes "Lee")
lee-IsWord = record {
  no_nul = (omega arith, (omega arith, (omega arith, tt)));
  no_space = (omega arith, (omega arith, (omega arith, tt)));
  no_newline = (omega arith, (omega arith, (omega arith, tt)));
  short = omega arith;
}

one-IsWord : IsWord (codes "1")
one-IsWord = record {
  no_nul = (omega arith, tt);
  no_space = (omega arith, tt);
  no_newline = (omega arith, tt);
  short = omega arith;
}

ann-IsClean : IsClean ann
ann-IsClean = record {
  name_word = ann_name-IsWord;
  surename_word = lee-IsWord;
  digits = codes "1";
  ended = refl;
  digits_word = one-IsWord;
  number_short = omega arith;
}

abbrev single : ContactBook
single = record { size = 1; arr = block (ann ∷ bob ∷ []) }

load_book-save_book_example :
    (file : Bytes) × (save_book single ≡ some file)
    × ((b' : ContactBook) × (load_book generous (record { size = 0; arr = unset }) file
          ≡ some (b', done))
        × IsValid b'
        × (contents b' ≡ contents single))
load_book-save_book_example =
    load_book-save_book generous single (λ n. refl) (omega arith) (tt, tt) (ann-IsClean, tt)

-- A contact is added, another deleted, the book printed, and command 5 given.
abbrev typed : List Bytes
typed =
    codes "1"
    ∷ codes "Lee"
    ∷ codes "Ann"
    ∷ codes "1"
    ∷ codes "2"
    ∷ codes "Ann"
    ∷ codes "Lee"
    ∷ codes "3"
    ∷ codes "5"
    ∷ []

digit-IsToken : (c : ℕ) → 48 ≤ c → IsToken (c ∷ [])
digit-IsToken c h = record {
  word = record {
    no_nul = (omega (arith, h), tt);
    no_space = (omega (arith, h), tt);
    no_newline = (omega (arith, h), tt);
    short = omega arith;
  };
  shorter = omega arith;
}

typed-AllTokens : AllTokens typed
typed-AllTokens =
    let digit = digit-IsToken in
    let lee : IsToken (codes "Lee") = record { word = lee-IsWord; shorter = omega arith } in
    let ann_name : IsToken (codes "Ann") = record {
      word = ann_name-IsWord;
      shorter = omega arith;
    } in
    let one = digit 49 (omega arith) in
    (
      one,
      (
        lee,
        (
          ann_name,
          (
            one,
            (
              digit 50 (omega arith),
              (ann_name, (lee, (digit 51 (omega arith), (digit 53 (omega arith), tt)))),
            ),
          ),
        ),
      ),
    )

run_menu-perform_example :
    let o = perform erase_first (commands typed) (contents single) in
    (s : Session) × (run_menu generous typed single ≡ some s)
    × IsGood s.book
    × (contents s.book ≡ o.contacts)
    × (s.last ≡ end_of o.stopped)
    × (s.log ≡ o.log)
run_menu-perform_example =
    run_menu-perform generous typed single (λ n. refl) typed-AllTokens
      (record { valid = omega arith; sorted = (tt, tt); clean = (ann-IsClean, tt) })

main-perform_example :
    let o = perform erase_first (commands typed) (ann ∷ []) in
    Program.main generous typed (some (text (ann ∷ [])))
    ≡ some (record { log = o.log; last = end_of o.stopped; file = kept o })
main-perform_example =
    main-perform generous typed (ann ∷ []) (λ n. refl) typed-AllTokens (omega arith) (tt, tt)
      (ann-IsClean, tt)

adds-typed : adds (commands typed) ≡ 1
unfolding adds commands str_eq
adds-typed = refl

-- An array with three cells, whatever they hold.
array_main-perform_example :
    let o = perform (thin false) (commands typed) (ann ∷ []) in
    ArrayProgram.main mixed typed (some (text (ann ∷ [])))
    ≡ some (record { log = o.log; quit = o.stopped; file = kept o })
array_main-perform_example =
    array_main-perform mixed typed (ann ∷ []) typed-AllTokens (ann-IsClean, tt)
      (omega (arith, adds-typed))

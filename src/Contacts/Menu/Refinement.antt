-- ===== src/Contacts/Menu/Refinement.antt =====
-- The command loop of heap/task.c does what the commands say, with memory granted and words that fit.
use study_eltex.Prelude.{
  false, ℕ, zero, suc, ◌≡◌, ap, refl, Bool, true, Option, some, List, [], ◌∷◌, ◌++◌, Bytes, codes,
  length, str_eq, arith, if◌then◌else◌,
}
use study_eltex.Contacts.Sort.Insertion.{insertion_sort-IsSorted}
use study_eltex.Contacts.HeapBook.{ContactBook, Allocator}
use study_eltex.Contacts.HeapBook.Pointer.{is_set, cells-is_set, del_sub-is_set}
use study_eltex.Contacts.HeapBook.Contents.{contents, add_sub_done}
use study_eltex.Contacts.HeapBook.Delete.{erase_first, del_sub_done}
use study_eltex.Contacts.HeapBook.Report.{report_correct, matches, numbered}
use study_eltex.Contacts.Menu.{
  Report, deleted, looked_up, listing, added, unknown, End, quit, waiting, Session, continue, after,
  Next, idle, add_contact, delete_contact, find_contact, print_all, dispatch, menu, run_menu,
}
use study_eltex.Contacts.Menu.Good.{
  AllTokens, IsGood, IsSorted-erase, AllClean-erase, AllClean-insertion_sort, scanned_token,
  new_contact, make_new_contact, new_contact-IsClean,
}
use study_eltex.Contacts.Menu.Commands.{
  show, stop, mistake, asked, Parse, parse_add, parse_delete, parse_find, parse_number, parse,
  commands, Outcome, prints, perform,
}

abbrev pub end_of : (stopped : Bool) → End
end_of stopped = if stopped then quit else waiting

-- A session that ends as an outcome says.
pub record Follows (r : Option Session) (was_set : Bool) (o : Outcome) : Type 0 where
  pub session : Session
  pub returned : r ≡ some session
  pub good : IsGood session.book
  pub holds : contents session.book ≡ o.contacts
  pub ends : session.last ≡ end_of o.stopped
  pub told : session.log ≡ o.log
  pub keeps : was_set ≡ true → is_set session.book.arr ≡ true

continue-Follows :
    (r : Report) (s : Option Session) (w w' : Bool) (o : Outcome)
    → (w' ≡ true → w ≡ true)
    → Follows s w o
    → Follows (continue r s) w' (prints r o)
unfolding continue
continue-Follows r s w w' o k f = record {
  session = record f.session { log = r ∷ f.session.log };
  returned = rw f.returned refl;
  good = f.good;
  holds = f.holds;
  ends = f.ends;
  told = ap (◌∷◌ r) f.told;
  keeps = λ e. f.keeps (k e);
}

idle-Follows :
    (b : ContactBook)
    → IsGood b
    → Follows (idle b) (is_set b.arr) (perform erase_first [] (contents b))
unfolding idle perform
idle-Follows b good = record {
  session = record { book = b; last = waiting; log = [] };
  returned = refl;
  good = good;
  holds = refl;
  ends = refl;
  told = refl;
  keeps = λ e. e;
}

quit-Follows :
    (b : ContactBook)
    → IsGood b
    → Follows
        (some (record { book = b; last = quit; log = [] }))
        (is_set b.arr)
        (perform erase_first (stop ∷ []) (contents b))
unfolding perform
quit-Follows b good = record {
  session = record { book = b; last = quit; log = [] };
  returned = refl;
  good = good;
  holds = refl;
  ends = refl;
  told = refl;
  keeps = λ e. e;
}

abbrev Implements : Next → Parse → Type 0
Implements next plan =
    (tokens : List Bytes) (b : ContactBook)
    → AllTokens tokens
    → IsGood b
    → Follows (next tokens b) (is_set b.arr) (perform erase_first (plan tokens) (contents b))

either-Implements :
    (t : Bool) (n1 n2 : Next) (p1 p2 : Parse)
    → Implements n1 p1
    → Implements n2 p2
    → Implements
        (λ tokens b. if t then n1 tokens b else n2 tokens b)
        (λ tokens. if t then p1 tokens else p2 tokens)
either-Implements true n1 n2 p1 p2 h1 h2 = h1
either-Implements false n1 n2 p1 p2 h1 h2 = h2

module _ (a : Allocator) (grants_all : (n : ℕ) → a.grant n ≡ true) (next : Next) (rest : Parse)
    (h_next : Implements next rest) where
  add_contact-Implements : Implements (add_contact a next) (parse_add rest)
  unfolding add_contact parse_add perform after
  add_contact-Implements [] b h good = idle-Follows b good
  add_contact-Implements (_ ∷ []) b h good = idle-Follows b good
  add_contact-Implements (_ ∷ _ ∷ []) b h good = idle-Follows b good
  add_contact-Implements (name ∷ surename ∷ number ∷ tokens) b h good =
      let c = new_contact name surename number in
      let (b', stored, valid, holds, counted) = add_sub_done a b c good.valid (grants_all _) in
      let clean = new_contact-IsClean name surename number h.0 h.1.0 h.1.1.0 in
      let good' : IsGood b' = record {
        valid = valid;
        sorted = rw holds (insertion_sort-IsSorted (contents b ++ c ∷ []));
        clean = rw holds (AllClean-insertion_sort (contents b) c good.clean clean);
      } in
      let set : is_set b'.arr ≡ true = cells-is_set b'.arr (omega (arith, counted, valid)) in
      rw (make_new_contact name surename number h.0 h.1.0 h.1.1.0, stored, ← holds)
        (continue-Follows added (next tokens b') (is_set b'.arr) (is_set b.arr) _ (λ e. set)
          (h_next tokens b' h.1.1.1 good'))

  delete_contact-Implements : Implements (delete_contact a next) (parse_delete rest)
  unfolding delete_contact parse_delete perform after
  delete_contact-Implements [] b h good = idle-Follows b good
  delete_contact-Implements (_ ∷ []) b h good = idle-Follows b good
  delete_contact-Implements (name ∷ surename ∷ tokens) b h good =
      let sb = asked name surename in
      let (d, gone, ended, valid, holds, told) = del_sub_done a b sb good.valid (grants_all _) in
      let good' : IsGood d.book = record {
        valid = valid;
        sorted = rw holds (IsSorted-erase sb (contents b) good.sorted);
        clean = rw holds (AllClean-erase sb (contents b) good.clean);
      } in
      rw (scanned_token name h.0, scanned_token surename h.1.0, gone, ended, ← told, ← holds)
        (continue-Follows (deleted d.found) (next tokens d.book) (is_set d.book.arr) (is_set b.arr)
          _ (λ e. del_sub-is_set a b sb d gone e) (h_next tokens d.book h.1.1 good'))

  find_contact-Implements : Implements (find_contact next) (parse_find rest)
  unfolding find_contact parse_find perform
  find_contact-Implements [] b h good = idle-Follows b good
  find_contact-Implements (_ ∷ []) b h good = idle-Follows b good
  find_contact-Implements (name ∷ surename ∷ tokens) b h good =
      let sb = asked name surename in
      rw (scanned_token name h.0, scanned_token surename h.1.0, (report_correct b sb good.valid).0)
        (continue-Follows (looked_up (matches sb (contents b))) (next tokens b) (is_set b.arr)
          (is_set b.arr) _ (λ e. e) (h_next tokens b h.1.1 good))

  print_all-Follows :
      (tokens : List Bytes) (b : ContactBook)
      → AllTokens tokens
      → IsGood b
      → Follows
          (print_all next tokens b)
          (is_set b.arr)
          (perform erase_first (show ∷ rest tokens) (contents b))
  unfolding print_all perform
  print_all-Follows tokens b h good = rw ((report_correct b (asked [] []) good.valid).1) (
      continue-Follows (listing (numbered 0 (contents b))) (next tokens b) (is_set b.arr)
        (is_set b.arr) _ (λ e. e) (h_next tokens b h good))

  mistake-Follows :
      (tokens : List Bytes) (b : ContactBook)
      → AllTokens tokens
      → IsGood b
      → Follows
          (continue unknown (next tokens b))
          (is_set b.arr)
          (perform erase_first (mistake ∷ rest tokens) (contents b))
  unfolding perform
  mistake-Follows tokens b h good =
      continue-Follows unknown (next tokens b) (is_set b.arr) (is_set b.arr) _ (λ e. e)
        (h_next tokens b h good)

  dispatch-Implements : (num : Bytes) → Implements (dispatch a num next) (parse_number num rest)
  unfolding dispatch parse_number
  dispatch-Implements num =
      either-Implements (str_eq num (codes "1")) _ _ _ _ add_contact-Implements (
        either-Implements (str_eq num (codes "2")) _ _ _ _ delete_contact-Implements (
          either-Implements (str_eq num (codes "3")) _ _ _ _ print_all-Follows (
            either-Implements (str_eq num (codes "4")) _ _ _ _ find_contact-Implements (
              either-Implements (str_eq num (codes "5")) _ _ _ _
                (λ tokens b h good. quit-Follows b good) mistake-Follows))))

menu-Implements :
    (a : Allocator)
    → ((n : ℕ) → a.grant n ≡ true)
    → (fuel : ℕ) → Implements (menu a fuel) (parse fuel)
unfolding menu parse
menu-Implements a grants_all zero tokens b h good = idle-Follows b good
menu-Implements a grants_all (suc fuel) [] b h good = idle-Follows b good
menu-Implements a grants_all (suc fuel) (num ∷ tokens) b h good = rw (scanned_token num h.0) (
    dispatch-Implements a grants_all (menu a fuel) (parse fuel) (menu-Implements a grants_all fuel)
      num tokens b h.1 good)

pub run_menu-Follows :
    (a : Allocator) → ((n : ℕ) → a.grant n ≡ true) → Implements (run_menu a) commands
unfolding run_menu commands
run_menu-Follows a grants_all tokens = menu-Implements a grants_all (length tokens) tokens

-- From a good book (valid, sorted by name, every contact of two words and a number that fit), with
-- memory granted and on words of at most 18 bytes with no space, newline or NUL, the command loop
-- has no undefined behaviour, and what it prints, what the book holds at its end and whether it
-- ends by command 5 are what the commands in the words, performed on the list of contacts, give.
-- The book at the end is good again.
pub run_menu-perform :
    (a : Allocator) (tokens : List Bytes) (b : ContactBook)
    → ((n : ℕ) → a.grant n ≡ true)
    → AllTokens tokens
    → IsGood b
    → let o = perform erase_first (commands tokens) (contents b) in
      (s : Session) × (run_menu a tokens b ≡ some s)
      × IsGood s.book
      × (contents s.book ≡ o.contacts)
      × (s.last ≡ end_of o.stopped)
      × (s.log ≡ o.log)
run_menu-perform a tokens b grants_all h good =
    let f = run_menu-Follows a grants_all tokens b h good in
    (f.session, f.returned, f.good, f.holds, f.ends, f.told)

-- ===== src/Contacts/Menu/Safety.antt =====
-- A session of heap/task.c with memory granted and words that fit: no undefined behaviour, and the
-- book stays valid, sorted and ready to be written.
use study_eltex.Prelude.{ℕ, ◌≡◌, ◌≢◌, ◌∙◌, sym, true, false, Bool, some, List, Bytes}
use study_eltex.Contacts.HeapBook.{ContactBook, Allocator}
use study_eltex.Contacts.Menu.{Session, no_memory, run_menu}
use study_eltex.Contacts.Menu.Good.{AllTokens, IsGood}
use study_eltex.Contacts.Menu.Refinement.{end_of, run_menu-perform}

end_of_memory : (stopped : Bool) → end_of stopped ≢ no_memory
end_of_memory true = cc
end_of_memory false = cc

-- From a good book (valid, sorted by name, every contact of two words and a number that fit), with
-- memory granted and on words of at most 18 bytes with no space, newline or NUL, the command loop
-- runs through with no undefined behaviour and no failed allocation, and ends with a good book.
run_menu_safe :
    (a : Allocator) (tokens : List Bytes) (b : ContactBook)
    → ((n : ℕ) → a.grant n ≡ true)
    → AllTokens tokens
    → IsGood b
    → (s : Session) × (run_menu a tokens b ≡ some s) × IsGood s.book × (s.last ≢ no_memory)
run_menu_safe a tokens b grants_all h good =
    let (s, returned, kept, _, ends, _) = run_menu-perform a tokens b grants_all h good in
    (s, returned, kept, λ e. end_of_memory _ (sym ends ∙ e))

-- ===== src/Contacts/ArrayMenu/Refinement.antt =====
-- The command loop of structures/task.c does what the commands say, where the array has room for the
-- contacts that are added and the words fit.
use study_eltex.Prelude.{
  ℕ, zero, suc, ◌+◌, ◌≤◌, ◌≡◌, ap, refl, Bool, true, false, Option, some, List, [], ◌∷◌, Bytes,
  codes, length, length-take, str_eq, Bool-cases, inl, inr, arith, if◌then◌else◌,
}
use study_eltex.Contacts.{Sub}
use study_eltex.Contacts.HeapBook.{same}
use study_eltex.Contacts.HeapBook.Delete.{listed}
use study_eltex.Contacts.HeapBook.Report.{matches, numbered}
use study_eltex.Contacts.BookFile.RoundTrip.{AllClean}
use study_eltex.Contacts.Menu.{Report, deleted, looked_up, listing, added, unknown}
use study_eltex.Contacts.Menu.Good.{
  AllTokens, AllClean-insertion_sort, scanned_token, new_contact, make_new_contact,
  new_contact-IsClean,
}
use study_eltex.Contacts.Menu.Commands.{
  Command, show, stop, mistake, Parse, parse_add, parse_delete, parse_find, parse_number, parse,
  commands, Outcome, prints, perform, adds,
}
use study_eltex.Contacts.ArrayBook.{Contacts}
use study_eltex.Contacts.ArrayBook.Delete.{contents, IsValid, thin, del_sub-thin}
use study_eltex.Contacts.ArrayBook.Laws.{add_sub-insertion_sort, array_report_correct}
use study_eltex.Contacts.ArrayBook.Cells.{del_sub-cells, length-thin}
use study_eltex.Contacts.ArrayMenu.{
  Session, logged, Next, idle, add, asked, delete, print, find, dispatch, menu, run_menu,
}

AllClean-thin : (passed : Bool) (sb : Sub) (l : List Sub) → AllClean l → AllClean (thin passed sb l)
unfolding thin
AllClean-thin passed sb [] h = tt
AllClean-thin true sb (c ∷ l) h = (h.0, AllClean-thin false sb l h.1)
AllClean-thin false sb (c ∷ l) h = elim (Bool-cases (same c sb)) [
  | inl s ↦ rw s (AllClean-thin true sb l h.1)
  | inr s ↦ rw s (h.0, AllClean-thin false sb l h.1)
]

-- A book whose contacts can be written.
pub record IsReady (b : Contacts) : Type 0 where
  pub valid : IsValid b
  pub clean : AllClean (contents b)

-- A session that ends as an outcome says.
pub record Follows (r : Option Session) (o : Outcome) : Type 0 where
  pub session : Session
  pub returned : r ≡ some session
  pub ready : IsReady session.book
  pub holds : contents session.book ≡ o.contacts
  pub ends : session.quit ≡ o.stopped
  pub told : session.log ≡ o.log

logged-Follows :
    (r : Report) (s : Option Session) (o : Outcome)
    → Follows s o
    → Follows (logged r s) (prints r o)
unfolding logged
logged-Follows r s o f = record {
  session = record f.session { log = r ∷ f.session.log };
  returned = rw f.returned refl;
  ready = f.ready;
  holds = f.holds;
  ends = f.ends;
  told = ap (◌∷◌ r) f.told;
}

halted-Follows :
    (b : Contacts) (quit : Bool)
    → IsReady b
    → Follows
        (some (record { book = b; quit = quit; log = [] }))
        (record { contacts = contents b; stopped = quit; log = [] })
halted-Follows b quit ready = record {
  session = record { book = b; quit = quit; log = [] };
  returned = refl;
  ready = ready;
  holds = refl;
  ends = refl;
  told = refl;
}

-- There is room for the contacts that are added.
abbrev pub HasRoom : List Command → Contacts → Type 0
HasRoom l b = b.size + adds l ≤ length b.contacts

abbrev Implements : Next → Parse → Type 0
Implements next plan =
    (tokens : List Bytes) (b : Contacts)
    → AllTokens tokens
    → IsReady b
    → HasRoom (plan tokens) b
    → Follows (next tokens b) (perform (thin false) (plan tokens) (contents b))

idle-Follows : (b : Contacts) → IsReady b → Follows (idle b) (perform (thin false) [] (contents b))
unfolding idle perform
idle-Follows b ready = halted-Follows b false ready

length-contents : (b : Contacts) → IsValid b → length (contents b) ≡ b.size
length-contents b v = omega (arith, length-take b.size b.contacts)

either-Implements :
    (t : Bool) (n1 n2 : Next) (p1 p2 : Parse)
    → Implements n1 p1
    → Implements n2 p2
    → Implements
        (λ tokens b. if t then n1 tokens b else n2 tokens b)
        (λ tokens. if t then p1 tokens else p2 tokens)
either-Implements true n1 n2 p1 p2 h1 h2 = h1
either-Implements false n1 n2 p1 p2 h1 h2 = h2

module _ (next : Next) (rest : Parse) (h_next : Implements next rest) where
  add-Implements : Implements (add next) (parse_add rest)
  unfolding add parse_add perform adds
  add-Implements [] b h ready room = idle-Follows b ready
  add-Implements (_ ∷ []) b h ready room = idle-Follows b ready
  add-Implements (_ ∷ _ ∷ []) b h ready room = idle-Follows b ready
  add-Implements (name ∷ surename ∷ number ∷ tokens) b h ready room =
      let c = new_contact name surename number in
      let made = make_new_contact name surename number h.0 h.1.0 h.1.1.0 in
      let (b', stored, holds, counted, cells) =
        add_sub-insertion_sort b name surename number c (omega (arith, room)) made in
      let clean = new_contact-IsClean name surename number h.0 h.1.0 h.1.1.0 in
      let ready' : IsReady b' = record {
        valid = omega (arith, counted, cells, room);
        clean = rw holds (AllClean-insertion_sort (contents b) c ready.clean clean);
      } in
      rw (stored, ← holds)
        (logged-Follows added (next tokens b') _
          (h_next tokens b' h.1.1.1 ready' (omega (arith, counted, cells, room))))

  delete-Implements : Implements (delete next) (parse_delete rest)
  unfolding delete asked parse_delete perform adds
  delete-Implements [] b h ready room = idle-Follows b ready
  delete-Implements (_ ∷ []) b h ready room = idle-Follows b ready
  delete-Implements (name ∷ surename ∷ tokens) b h ready room =
      let sb : Sub = record { name = name; surename = surename; number = [] } in
      let (b', gone, holds, valid) = del_sub-thin b sb ready.valid in
      let ready' : IsReady b' = record {
        valid = valid;
        clean = rw holds (AllClean-thin false sb (contents b) ready.clean);
      } in
      let cells = del_sub-cells b sb _ gone in
      let fewer : b'.size ≤ b.size = omega (
        arith,
        length-thin false sb (contents b),
        ap length holds,
        length-contents b ready.valid,
        length-contents b' valid,
      ) in
      rw (scanned_token name h.0, scanned_token surename h.1.0, gone, ← holds)
        (logged-Follows (deleted (listed sb (contents b))) (next tokens b') _
          (h_next tokens b' h.1.1 ready' (omega (arith, fewer, cells, room))))

  find-Implements : Implements (find next) (parse_find rest)
  unfolding find asked parse_find perform adds
  find-Implements [] b h ready room = idle-Follows b ready
  find-Implements (_ ∷ []) b h ready room = idle-Follows b ready
  find-Implements (name ∷ surename ∷ tokens) b h ready room =
      let sb : Sub = record { name = name; surename = surename; number = [] } in
      rw
        (
          scanned_token name h.0,
          scanned_token surename h.1.0,
          (array_report_correct b sb ready.valid).0,
        )
        (logged-Follows (looked_up (matches sb (contents b))) (next tokens b) _
          (h_next tokens b h.1.1 ready room))

  print-Implements : Implements (print next) (λ tokens. show ∷ rest tokens)
  unfolding print perform adds
  print-Implements tokens b h ready room =
      let sb : Sub = record { name = []; surename = []; number = [] } in
      rw ((array_report_correct b sb ready.valid).1) (
        logged-Follows (listing (numbered 0 (contents b))) (next tokens b) _
          (h_next tokens b h ready room))

  unknown-Implements :
      Implements (λ tokens b. logged unknown (next tokens b)) (λ tokens. mistake ∷ rest tokens)
  unfolding perform adds
  unknown-Implements tokens b h ready room =
      logged-Follows unknown (next tokens b) _ (h_next tokens b h ready room)

  stop-Implements :
      Implements
        (λ tokens b. some (record { book = b; quit = true; log = [] }))
        (λ tokens. stop ∷ [])
  unfolding perform
  stop-Implements tokens b h ready room = halted-Follows b true ready

  dispatch-Implements : (num : Bytes) → Implements (dispatch num next) (parse_number num rest)
  unfolding dispatch parse_number
  dispatch-Implements num = either-Implements (str_eq num (codes "1")) _ _ _ _ add-Implements (
      either-Implements (str_eq num (codes "2")) _ _ _ _ delete-Implements (
        either-Implements (str_eq num (codes "3")) _ _ _ _ print-Implements (
          either-Implements (str_eq num (codes "4")) _ _ _ _ find-Implements (
            either-Implements (str_eq num (codes "5")) _ _ _ _ stop-Implements
              unknown-Implements))))

menu-Implements : (fuel : ℕ) → Implements (menu fuel) (parse fuel)
unfolding menu parse
menu-Implements zero tokens b h ready room = idle-Follows b ready
menu-Implements (suc fuel) [] b h ready room = idle-Follows b ready
menu-Implements (suc fuel) (num ∷ tokens) b h ready room = rw (scanned_token num h.0) (
    dispatch-Implements (menu fuel) (parse fuel) (menu-Implements fuel) num tokens b h.1 ready room)

pub run_menu-Follows : Implements run_menu commands
unfolding run_menu commands
run_menu-Follows tokens = menu-Implements (length tokens) tokens

-- ===== src/Examples/Arrays.antt =====
-- Contact books of structures/task.c, with neighbours of one name.
use study_eltex.Prelude.{◌≡◌, false, some, [], ◌∷◌, codes, arith}
use study_eltex.Contacts.{Sub}
use study_eltex.Contacts.HeapBook.Delete.{listed}
use study_eltex.Contacts.BookFile.{newline}
use study_eltex.Contacts.ArrayBook.{Contacts, del_sub}
use study_eltex.Contacts.ArrayBook.Delete.{contents, IsValid, thin, del_sub-thin}

abbrev ann : Sub
ann = record { name = codes "Ann"; surename = codes "Lee"; number = 49 ∷ newline ∷ [] }

abbrev bob : Sub
bob = record { name = codes "Bob"; surename = codes "Ray"; number = 50 ∷ newline ∷ [] }

-- Ann stands twice, side by side; one cell is free.
abbrev doubled : Contacts
doubled = record { contacts = ann ∷ ann ∷ bob ∷ bob ∷ []; size = 3 }

del_sub-thin_example :
    (b' : Contacts) × (del_sub doubled ann
      ≡ some (record { book = b'; found = listed ann (contents doubled) }))
    × (contents b' ≡ thin false ann (contents doubled))
    × IsValid b'
del_sub-thin_example = del_sub-thin doubled ann (omega arith)

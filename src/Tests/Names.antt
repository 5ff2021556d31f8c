-- ===== src/Tests/Names.antt =====
-- opcional2/kernel/kifs.c at concrete entries.
use dso_fifo.Prelude.{
  ◌++◌, ◌+◌, ◌-◌, take, ◌<◌, ◌*◌, ℕ, ◌≡◌, ◌⊎◌, refl, true, false, none, some, List, [], ◌∷◌, arith,
  length,
}
use dso_fifo.Allocator.{remove}
use dso_fifo.Kifs.{
  list_size, sys_find, sys_answer, strncmp_equal, list_kifs, listed, enospc, Kifs, find, list_name,
  clipboard_name, create_kifs_entry, remove_kifs_entry, sys_kifs, sys_switch, init_kifs_entry_set,
}
use dso_fifo.Kifs.Entries.{
  IsValid, CreatedEntry, create_kifs_entry_lem, remove_kifs_entry_lem, entry_of,
}
use dso_fifo.Kifs.Calls.{Call, create, remove_entry, run_calls, entries_consistent}
use dso_fifo.Kifs.Listing.{lines, list_kifs_lem}
use dso_fifo.Kifs.Kept.{Spares}
use dso_fifo.Kifs.Stale.{answer_after_calls, stale_entry_answers}
use dso_fifo.Kifs.Dispatch.{Request, Answer, failed, invalid, Kernel}
use dso_fifo.Tests.Lists.{address_lists}

-- the entries after the initialisation
abbrev loaded : Kifs address_lists
loaded = init_kifs_entry_set address_lists 11 12 13

loaded-IsValid : IsValid address_lists loaded
unfolding run_calls
loaded-IsValid = entries_consistent address_lists 11 12 13 []

-- "ab"
abbrev ab : List ℕ
ab = b'a' ∷ b'b' ∷ []

entries_consistent_example : IsValid address_lists (
    run_calls address_lists
      (create ab (some 5) none 0 ∷ remove_entry list_name ∷ create ab none none 1 ∷ [])
      (init_kifs_entry_set address_lists 11 12 13))
entries_consistent_example =
    entries_consistent address_lists 11 12 13
      (create ab (some 5) none 0 ∷ remove_entry list_name ∷ create ab none none 1 ∷ [])

create_kifs_entry_example :
    CreatedEntry address_lists ab
      (some 5)
      none
      0
      loaded
      (create_kifs_entry address_lists ab (some 5) none 0 loaded)
    × IsValid address_lists (create_kifs_entry address_lists ab (some 5) none 0 loaded).1
create_kifs_entry_example =
    create_kifs_entry_lem address_lists ab (some 5) none 0 loaded loaded-IsValid

remove_kifs_entry_example :
    IsValid address_lists (remove_kifs_entry address_lists list_name loaded).1
    × ((find loaded.entry_buff loaded.entry_list list_name ≡ none)
          × (remove_kifs_entry address_lists list_name loaded ≡ (false, loaded))
        ⊎ (p : ℕ) × (find loaded.entry_buff loaded.entry_list list_name ≡ some p)
          × ((remove_kifs_entry address_lists list_name loaded).0 ≡ true)
          × ((remove_kifs_entry address_lists list_name loaded).1.entry_list
              ≡ remove p loaded.entry_list)
          × (find loaded.entry_buff (remove p loaded.entry_list) list_name ≡ none))
remove_kifs_entry_example = remove_kifs_entry_lem address_lists list_name loaded loaded-IsValid

-- "list" is removed, and "ab" comes and goes.
abbrev calls : List Call
calls =
    create ab (some 5) none 0
    ∷ remove_entry list_name
    ∷ remove_entry ab
    ∷ create ab none none 1
    ∷ []

calls-Spares : Spares clipboard_name calls
unfolding strncmp_equal
calls-Spares = (refl, (refl, tt))

answer_after_calls_example :
    sys_answer address_lists
      (sys_find address_lists clipboard_name loaded)
      1
      (run_calls address_lists calls loaded)
    ≡ sys_kifs address_lists clipboard_name 1 loaded
answer_after_calls_example =
    answer_after_calls address_lists clipboard_name 1 calls loaded loaded-IsValid calls-Spares

abbrev write_ab : Request
write_ab = record { maxchars = 0; user = ab; allocated = true; missed = 0 }

abbrev read_ten : Request
read_ten = record { maxchars = 10; user = []; allocated = true; missed = 0 }

-- a callback of other code that fails
abbrev refuse : ℕ → ℕ → Request → Kernel address_lists → Answer × Kernel address_lists
refuse f data_ptr req s = (failed invalid, s)

-- one entry, "ab"
abbrev one_entry : Kifs address_lists
one_entry = record {
  entry_buff = λ q. record { entryname = ab; read_kifs = none; write_kifs = none; data_ptr = 0 };
  entry_list = 3 ∷ [];
  free_list = 0 ∷ 1 ∷ 2 ∷ 4 ∷ 5 ∷ 6 ∷ 7 ∷ 8 ∷ 9 ∷ [];
  num_entry = 1;
}

one_entry-IsValid : IsValid address_lists one_entry
unfolding find
one_entry-IsValid = record {
  places = λ q. ground arith;
  total = refl;
  counted = refl;
  unique = (refl, tt);
}

list_kifs_example :
    ((60 < 52 * 1) ⊎ (1 < 1))
      × (list_kifs address_lists (list_size address_lists 60 one_entry) 0 true one_entry ≡ enospc)
    ⊎ (list_kifs address_lists (list_size address_lists 60 one_entry) 0 true one_entry
        ≡ listed (
            take
              (length (lines one_entry.entry_buff (3 ∷ [])) + 1 - 0)
              (lines one_entry.entry_buff (3 ∷ []) ++ 0 ∷ [])))
list_kifs_example =
    list_kifs_lem address_lists 60 0 one_entry one_entry one_entry-IsValid (omega arith)
      (omega arith)

-- "ab" is removed after it was found, and "list" takes its element.
stale_entry_example :
    sys_answer address_lists
      (sys_find address_lists ab one_entry)
      0
      (create_kifs_entry address_lists list_name
        (some 5)
        none
        0
        (remove_kifs_entry address_lists ab one_entry).1).1
    ≡ sys_switch 0 (entry_of list_name (some 5) none 0)
unfolding find strncmp_equal
stale_entry_example =
    stale_entry_answers address_lists ab list_name 0 (some 5) none 0 3 one_entry refl refl

-- ===== src/Tests/Lists.antt =====
-- opcional1/modlist.c at concrete lists.
use dso_fifo.Prelude.{
  IsText, ℕ, ◌+◌, ◌≡◌, ◌≤◌, ◌<◌, ◌⊎◌, ◌↔◌, refl, true, none, some, List, [], ◌∷◌, ◌==◌,
  if◌then◌else◌, arith, leb, ltb, sign, length, min,
}
use dso_fifo.Allocator.{remove}
use dso_fifo.KernelList.{KernelList}
use dso_fifo.Modlist.{
  move_nodes, Modlist, command_of, line_of, streq, cleanup_text, sizeof_list_item_t, procfile_write,
  procfile_read, values_of, values, read_loop,
}
use dso_fifo.Modlist.Streq.{IsPrefix, streq_iff}
use dso_fifo.Modlist.Proc.{Prints, printed, procfile_read_lem}
use dso_fifo.Modlist.Calls.{write_is_run}
use dso_fifo.Modlist.Values.{Owns, run_values}
use dso_fifo.Tests.Arena.{arena, take_block, above}
use dso_fifo.Modlist.Shared.{outside, linking, clearing, Move, System, pick, Run, here, next}

-- lists of addresses
abbrev pub address_lists : KernelList
address_lists = record {
  Head = List ℕ;
  nodes = λ h. h;
  list_head = [];
  list_add = λ p h. p ∷ h;
  list_del = remove;
  list_move = λ p h k. (remove p h, p ∷ k);
  nodes-list_head = refl;
  nodes-list_add = λ p h. refl;
  nodes-list_del = λ p h. refl;
  moved_from = λ p h k. refl;
  moved_to = λ p h k. refl;
}

-- 7 and 5, with room for one more block
abbrev pub two_items : Modlist arena address_lists
two_items = record {
  mylist = 4 ∷ 2 ∷ [];
  item = λ q. if q == 4 then 7 else 5;
  heap = record { room = 1; taken = 4 ∷ 2 ∷ 9 ∷ []; newest = 0 };
}

-- `sscanf` that reads one digit after the word of a length
abbrev scan_word : List ℕ → List ℕ → ℕ × ℕ
scan_word [] (d ∷ rest) = (1, d)
scan_word [] [] = (0, 0)
scan_word (x ∷ word) [] = (0, 0)
scan_word (x ∷ word) (y ∷ line) = if x == y then scan_word word line else (0, 0)

abbrev scan_add : List ℕ → ℕ × ℕ
scan_add = scan_word (b'a' ∷ b'd' ∷ b'd' ∷ b' ' ∷ [])

abbrev scan_remove : List ℕ → ℕ × ℕ
scan_remove = scan_word (b'r' ∷ b'e' ∷ b'm' ∷ b' ' ∷ [])

abbrev remove_5 : List ℕ
remove_5 = b'r' ∷ b'e' ∷ b'm' ∷ b' ' ∷ 5 ∷ []

cleanup_IsText : IsText (b'c' ∷ b'l' ∷ b'e' ∷ b'a' ∷ b'n' ∷ b'u' ∷ b'p' ∷ [])
cleanup_IsText = (
  omega arith,
  (omega arith, (omega arith, (omega arith, (omega arith, (omega arith, (omega arith, tt)))))),
)

-- "c" clears the list.
streq_example : (streq (b'c' ∷ 0 ∷ []) cleanup_text ≡ true) ↔ (
    IsPrefix (b'c' ∷ []) (b'c' ∷ b'l' ∷ b'e' ∷ b'a' ∷ b'n' ∷ b'u' ∷ b'p' ∷ [])
    ⊎ IsPrefix (b'c' ∷ b'l' ∷ b'e' ∷ b'a' ∷ b'n' ∷ b'u' ∷ b'p' ∷ []) (b'c' ∷ []))
streq_example =
    streq_iff (b'c' ∷ []) (b'c' ∷ b'l' ∷ b'e' ∷ b'a' ∷ b'n' ∷ b'u' ∷ b'p' ∷ []) [] []
      (omega arith, tt) cleanup_IsText

-- `snprintf` of the integers below 100
abbrev pub print_small : ℕ → ℕ → ℕ
print_small room v = if leb sign room then 0 else if ltb v 10 then 2 else 3

print_small-Prints : Prints print_small
print_small-Prints = record {
  whole = λ room v h. ground arith;
  rejects = λ room v h. ground arith;
  at_least = λ v. ground arith;
  at_most = λ v. ground arith;
}

-- Three bytes of room for four bytes: the read reports four.
procfile_read_example :
    (printed print_small (values arena address_lists two_items) ≤ 3)
      × (procfile_read arena address_lists print_small 3 two_items
          ≡ printed print_small (values arena address_lists two_items))
    ⊎ (3 < printed print_small (values arena address_lists two_items))
      × (3 ≤ procfile_read arena address_lists print_small 3 two_items)
      × (procfile_read arena address_lists print_small 3 two_items < 3 + 12)
procfile_read_example =
    procfile_read_lem arena address_lists print_small 3 two_items print_small-Prints (omega arith)

read_reports_more : procfile_read arena address_lists print_small 3 two_items ≡ 4
unfolding procfile_read values values_of read_loop
read_reports_more = refl

-- One process makes an item while another clears the list, and has freed one of its two items.
two_processes : System arena address_lists
two_processes = record { state = two_items; pcs = outside ∷ outside ∷ [] }

record Shares : Type 0 where
  last : System arena address_lists
  run : Run arena address_lists two_processes last

half_cleared : Shares
unfolding two_processes take_block above move_nodes
half_cleared = record {
  last = _;
  run =
      next (next (next here (pick 0 refl (Move.make 3 16 refl))) (pick 1 refl Move.clear))
        (pick 1 refl (Move.free (2 ∷ 4 ∷ []) 2 (4 ∷ []) refl));
}

half_cleared_result : half_cleared.last.pcs ≡ linking 16 ∷ clearing (4 ∷ []) ∷ []
unfolding half_cleared remove
half_cleared_result = refl

-- The write that removes the item with 5, by the first of the two.
write_is_run_example :
    ((arena.vmalloc two_items.heap sizeof_list_item_t).0 ≡ none)
      × (procfile_write arena address_lists scan_add scan_remove remove_5 two_items ≡ none)
    ⊎ (s' : Modlist arena address_lists) × (procfile_write arena address_lists scan_add scan_remove
          remove_5 two_items
        ≡ some (min (length remove_5) 24, s'))
      × (values arena address_lists s'
          ≡ run_values
              (command_of scan_add scan_remove (line_of remove_5))
              (values arena address_lists two_items))
      × Owns arena address_lists (9 ∷ []) s'
      × Run arena address_lists
          (record { state = two_items; pcs = outside ∷ outside ∷ [] })
          (record { state = s'; pcs = outside ∷ outside ∷ [] })
write_is_run_example =
    write_is_run arena address_lists scan_add scan_remove remove_5 two_items (9 ∷ [])
      (outside ∷ outside ∷ []) 0 refl refl

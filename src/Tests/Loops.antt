-- ===== src/Tests/Loops.antt =====
-- parteA/modlist.c and opcional1/modlist.c with sections under way.
use dso_fifo.Prelude.{
  ℕ, ◌+◌, ◌≡◌, ◌≤◌, refl, true, none, some, List, [], ◌∷◌, arith, ==_iff, total, ◌==◌,
}
use dso_fifo.Allocator.{count, remove}
use dso_fifo.Modlist.{procfile_read}
use dso_fifo.Modlist.Shared
use dso_fifo.Modlist.Sections.{
  SectionLock, idle, waiting_to_add, moving, reading, Move, System, Run, pick, here, next, writes,
  next_node,
}
use dso_fifo.Modlist.Sections.Matching.{settle}
use dso_fifo.Modlist.Sections.Simulation.{IsStart}
use dso_fifo.Modlist.Sections.Atomic.{sections_are_atomic, reader_returns}
use dso_fifo.Modlist.Sections.Ends.{ComesOut, section_ends}
use dso_fifo.Modlist.Sections.Accounts.{in_hands, blocks_accounted}
use dso_fifo.Tests.Arena.{arena, take_block, above}
use dso_fifo.Tests.Lists.{address_lists, two_items, print_small}

no_part : (r w : ℕ) → (r + w == 0) ≡ true → w ≡ 0
no_part r w e = ground arith

abbrev rwlock : SectionLock
rwlock = record {
  lets_read = λ r w. w == 0;
  lets_write = λ r w. r + w == 0;
  no_writer = λ r w e. (==_iff w 0).0 e;
  alone = λ r w e. (==_iff (r + w) 0).0 e;
}

abbrev spinlock : SectionLock
spinlock = record {
  lets_read = λ r w. r + w == 0;
  lets_write = λ r w. r + w == 0;
  no_writer = no_part;
  alone = λ r w e. (==_iff (r + w) 0).0 e;
}

abbrev three_processes : (lock : SectionLock) → System lock print_small arena address_lists
three_processes lock = record { state = two_items; pcs = idle ∷ idle ∷ idle ∷ [] }

three_processes-IsStart : (lock : SectionLock) → IsStart (9 ∷ []) (three_processes lock)
three_processes-IsStart lock = record {
  processes = 3;
  all_idle = refl;
  blocks = λ q. omega arith;
  clean = record { once = λ q. ground arith; not_null = refl };
}

record Reached (lock : SectionLock) : Type 0 where
  last : System lock print_small arena address_lists
  run : Run lock print_small arena address_lists (three_processes lock) last

-- Two processes read at once, and one of them stands at the second node. The third has made an item.
two_readers : Reached rwlock
unfolding total take_block above next_node
two_readers = record {
  last = _;
  run =
      next
        (next
          (next (next here (pick 2 refl (Move.make 3 16 refl)))
            (pick 0 refl (Move.enter_reading 10 refl)))
          (pick 1 refl (Move.enter_reading 1 refl)))
        (pick 0 refl (Move.read 10 0 4 refl));
}

two_readers_result :
    two_readers.last.pcs ≡ reading 10 2 (some 2) ∷ reading 1 0 (some 4) ∷ waiting_to_add 16 ∷ []
unfolding two_readers
two_readers_result = refl

-- The first has read both nodes.
all_read : Reached rwlock
unfolding two_readers next_node total
all_read = record { last = _; run = next two_readers.run (pick 0 refl (Move.read 10 2 2 refl)) }

reader_returns_example : 4 ≡ procfile_read arena address_lists print_small 10 all_read.last.state
unfolding all_read two_readers
reader_returns_example =
    reader_returns 0 10 4 (three_processes-IsStart rwlock) all_read.run refl
      (Move.leave_reading 10 4)

-- A process removes the items with 5: it has passed the first node, and moved the second.
one_moved : Reached spinlock
unfolding total next_node remove take_block above
one_moved = record {
  last = _;
  run =
      next
        (next
          (next (next here (pick 2 refl (Move.make 3 16 refl)))
            (pick 1 refl (Move.enter_moving (some 5) refl)))
          (pick 1 refl (Move.move (some 5) 4 [])))
        (pick 1 refl (Move.move (some 5) 2 []));
}

one_moved_result :
    one_moved.last.pcs ≡ idle ∷ moving (some 5) none (2 ∷ []) ∷ waiting_to_add 16 ∷ []
unfolding one_moved
one_moved_result = refl

sections_are_atomic_example :
    (list : List ℕ) × Shared.Run arena address_lists
      (settle (4 ∷ 2 ∷ []) (three_processes spinlock))
      (settle list one_moved.last)
    × (total (writes spinlock print_small arena address_lists) one_moved.last.pcs ≡ 0
        → one_moved.last.state.mylist ≡ list)
sections_are_atomic_example = sections_are_atomic (three_processes-IsStart spinlock) one_moved.run

blocks_accounted_example :
    (count 2 (arena.owned one_moved.last.state.heap)
      ≡ count 2 one_moved.last.state.mylist
        + total (in_hands 2) one_moved.last.pcs
        + count 2 (9 ∷ []))
    × (count 2 (arena.owned one_moved.last.state.heap) ≤ 1)
blocks_accounted_example = blocks_accounted (three_processes-IsStart spinlock) one_moved.run 2

section_ends_example : ComesOut 0 two_readers.last
unfolding two_readers
section_ends_example =
    section_ends 0 (reading 10 2 (some 2)) (three_processes-IsStart rwlock) two_readers.run refl
      (omega arith)

-- ===== src/Tests/Items.antt =====
-- A run of prodcons1.c with two processes, and the theorems at its states.
use mathlib.Core.List.{map}
use dso_fifo.Prelude.{
  ℕ, ◌+◌, ◌≡◌, refl, true, some, [], ◌∷◌, ◌++◌, List, arith, replicate, get_elem?, set, total,
}
use dso_fifo.Allocator.{IsClean, count}
use dso_fifo.Tests.Arena.{Arena, arena, take_block, above}
use dso_fifo.ItemBuffer.{ItemBuffer, insert_cbuffer_t, head_cbuffer_t, remove_cbuffer_t}
use dso_fifo.ItemBuffer.Single.{queued}
use dso_fifo.Cbuffer.Window.{contents, window}
use dso_fifo.ProdCons1.{
  ProdCons, Turn, Pc, idle, entering_write, write_backed_out, max_items_cbuf, write_entry, new_item,
  write_item, write_end, read_entry, read_item,
}
use dso_fifo.ProdCons1.Moves.{Move, System, pick, Run, here, next}
use dso_fifo.ProdCons1.Balance.{space_of, element_of}
use dso_fifo.ProdCons1.Safety.{IsLoaded, IsStart, spaces_and_elements}
use dso_fifo.ProdCons1.Memory.{carries}
use dso_fifo.ProdCons1.Ownership.{places, item_in_one_place, interrupted_write_loses_item}
use dso_fifo.ProdCons1.Values.{all_put, all_got, integers_in_order}

-- a `sscanf` that reads 7
abbrev pub scan_7 : List ℕ → ℕ × ℕ
scan_7 s = (1, 7)

abbrev pub no_items : ItemBuffer
no_items = record { items = replicate 5 0; head = 0; size = 0; max_size = 5 }

abbrev pub ten_blocks : Arena
ten_blocks = record { room = 10; taken = []; newest = 0 }

pub ten_blocks-IsClean : IsClean arena ten_blocks
ten_blocks-IsClean = record { once = λ q. omega arith; not_null = refl }

abbrev just_loaded : ProdCons arena
just_loaded = record {
  cbuf = no_items;
  elementos = 0;
  huecos = 5;
  mtx = 1;
  cell = λ q. 0;
  heap = ten_blocks;
}

abbrev first : System arena scan_7
first = record { state = just_loaded; pcs = idle ∷ idle ∷ [] }

just_loaded-IsLoaded : IsLoaded just_loaded
unfolding queued contents window
just_loaded-IsLoaded = record {
  queue = omega arith;
  capacity = refl;
  empty = refl;
  no_elements = refl;
  all_spaces = refl;
  unlocked = refl;
}

first-IsStart : IsStart first
first-IsStart = record { loaded = just_loaded-IsLoaded; processes = 2; outside = refl }

record Going : Type 0 where
  last : System arena scan_7
  run : Run arena scan_7 first last

abbrev step :
    (g : Going) (i : ℕ) {p : Pc} {t : Turn arena}
    → get_elem? g.last.pcs i ≡ some p
    → Move arena scan_7 g.last.state p t
    → Going
step g i at mv = record { last = _; run = next g.run (pick i at mv) }

-- The first process writes the text "7", and has a space for its item.
with_item : Going
unfolding write_entry new_item take_block above
with_item =
    let g0 : Going = record { last = first; run = here } in
    let g1 : Going = step g0 0 refl (Move.start_write true (55 ∷ []) refl) in
    step g1 0 refl (Move.take_hueco 4 refl)

with_item_result :
    (with_item.last.state.cell 1 ≡ 7) × (with_item.last.pcs ≡ entering_write 1 1 ∷ idle ∷ [])
unfolding with_item
with_item_result = (refl, refl)

-- It puts the item into the buffer, and the second process takes it out.
item_taken : Going
unfolding with_item write_item insert_cbuffer_t write_end read_entry read_item head_cbuffer_t
    remove_cbuffer_t
item_taken =
    let g1 : Going = step with_item 0 refl (Move.lock_write 0 refl) in
    let g2 : Going = step g1 0 refl (Move.insert refl) in
    let g3 : Going = step g2 0 refl Move.count_element in
    let g4 : Going = step g3 1 refl (Move.start_read 0) in
    let g5 : Going = step g4 1 refl (Move.take_element 0 refl) in
    let g6 : Going = step g5 1 refl (Move.lock_read 0 refl) in
    step g6 1 refl (Move.remove_item refl)

item_taken_result : (all_put item_taken.run ≡ 7 ∷ []) × (all_got item_taken.run ≡ 7 ∷ [])
unfolding item_taken all_put all_got
item_taken_result = (refl, refl)

spaces_and_elements_example :
    (with_item.last.state.huecos
        + with_item.last.state.cbuf.size
        + total space_of with_item.last.pcs
      ≡ max_items_cbuf)
    × (with_item.last.state.elementos + total element_of with_item.last.pcs
        ≡ with_item.last.state.cbuf.size)
spaces_and_elements_example = spaces_and_elements first-IsStart with_item.run

integers_in_order_example :
    all_put item_taken.run
    ≡ all_got item_taken.run ++ map item_taken.last.state.cell (queued item_taken.last.state.cbuf)
integers_in_order_example = integers_in_order first-IsStart ten_blocks-IsClean item_taken.run

item_in_one_place_example :
    (count 1 with_item.last.state.heap.taken ≡ 1)
    × (count 1 (queued with_item.last.state.cbuf) ≡ 0)
    × (carries 1 idle ≡ 0)
unfolding with_item
item_in_one_place_example =
    item_in_one_place first-IsStart ten_blocks-IsClean with_item.run 1 0 1 refl refl (omega arith)
      refl

interrupted_write_example :
    (count 1 with_item.last.state.heap.taken ≡ 1)
    × (places {scan = scan_7} 1 (record {
      state = write_backed_out arena with_item.last.state;
      pcs = set with_item.last.pcs 0 idle;
    })
        ≡ 0)
unfolding with_item write_backed_out
interrupted_write_example =
    interrupted_write_loses_item first-IsStart ten_blocks-IsClean with_item.run 0 refl here

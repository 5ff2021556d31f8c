-- ===== src/Tests/Waiters.antt =====
-- A run of prodcons2.c with two readers and a writer, and the theorems at its states.
use dso_fifo.Prelude.{
  ℕ, ◌+◌, ◌-◌, ◌<◌, ◌≤◌, ◌≡◌, ◌↔◌, ◌⊎◌, refl, Bool, true, false, some, [], ◌∷◌, arith, get_elem?,
  total, lt_int,
}
use dso_fifo.Tests.Arena.{arena, take_block, above}
use dso_fifo.Tests.Items.{scan_7, no_items, ten_blocks}
use dso_fifo.ItemBuffer.{insert_cbuffer_t, is_full_cbuffer_t, size_cbuffer_t}
use dso_fifo.ItemBuffer.Single.{queued}
use dso_fifo.Cbuffer.Window.{contents, window}
use dso_fifo.ProdCons2.{
  ProdCons, Turn, Pc, idle, asleep, woken, read_call, write_entry, new_item, wait, wake_cons,
  write_test, read_entry, read_test, run_test,
}
use dso_fifo.ProdCons2.Moves.{Move, System, Step, pick, Run, here, next}
use dso_fifo.ProdCons2.Balance.{is_read, is_write, waiting}
use dso_fifo.ProdCons2.Safety.{IsLoaded, IsStart, counts_say_who_waits}
use dso_fifo.ProdCons2.Wakeups.{awake}
use dso_fifo.ProdCons2.Sleepers.{sleepers_are_served, interrupted_relock_strands_item}

abbrev just_loaded : ProdCons arena
just_loaded = record {
  cbuf = no_items;
  prod_queue = 0;
  cons_queue = 0;
  mtx = 1;
  nr_prod_waiting = 0;
  nr_cons_waiting = 0;
  cell = λ q. 0;
  heap = ten_blocks;
}

abbrev first : (patient : Bool) → System arena scan_7 patient
first patient = record { state = just_loaded; pcs = idle ∷ idle ∷ idle ∷ [] }

just_loaded-IsLoaded : IsLoaded just_loaded
unfolding queued contents window
just_loaded-IsLoaded = record {
  queue = omega arith;
  capacity = refl;
  empty = refl;
  no_prods = refl;
  no_conss = refl;
  unlocked = refl;
  no_prod_waits = refl;
  no_cons_waits = refl;
}

first-IsStart : (patient : Bool) → IsStart (first patient)
first-IsStart patient = record {
  loaded = just_loaded-IsLoaded;
  processes = 3;
  outside = refl;
  few = omega arith;
}

record Going (patient : Bool) : Type 0 where
  last : System arena scan_7 patient
  run : Run arena scan_7 patient (first patient) last

abbrev step :
    {patient : Bool} (g : Going patient) (i : ℕ) {p : Pc} {t : Turn arena}
    → get_elem? g.last.pcs i ≡ some p
    → Move arena scan_7 patient g.last.state p t
    → Going patient
step g i at mv = record { last = _; run = next g.run (pick i at mv) }

-- Two readers find the buffer empty and sleep.
both_asleep : (patient : Bool) → Going patient
unfolding read_entry run_test read_test size_cbuffer_t wait
both_asleep patient =
    let g0 : Going patient = record { last = first patient; run = here } in
    let g1 : Going patient = step g0 0 refl (Move.start_read 0) in
    let g2 : Going patient = step g1 0 refl (Move.lock 0 refl) in
    let g3 : Going patient = step g2 0 refl (Move.run_running refl) in
    let g4 : Going patient = step g3 1 refl (Move.start_read 0) in
    let g5 : Going patient = step g4 1 refl (Move.lock 0 refl) in
    step g5 1 refl (Move.run_running refl)

-- A writer puts an item into the buffer and wakes one of them up.
one_woken : (patient : Bool) → Going patient
unfolding both_asleep write_entry new_item take_block above run_test write_test is_full_cbuffer_t
    insert_cbuffer_t wake_cons
one_woken patient =
    let g1 : Going patient =
      step (both_asleep patient) 2 refl (Move.start_write true (55 ∷ []) refl) in
    let g2 : Going patient = step g1 2 refl (Move.lock 0 refl) in
    let g3 : Going patient = step g2 2 refl (Move.run_running refl) in
    step g3 0 refl (Move.take_token 0 refl)

one_woken_result :
    ((one_woken false).last.pcs ≡ woken read_call ∷ asleep read_call ∷ idle ∷ [])
    × ((one_woken false).last.state.cbuf.size ≡ 1)
unfolding one_woken
one_woken_result = (refl, refl)

counts_say_who_waits_example :
    ((lt_int 0 (both_asleep false).last.state.nr_cons_waiting ≡ true) ↔ (
      (both_asleep false).last.state.cons_queue
      < total (waiting is_read) (both_asleep false).last.pcs))
    × ((lt_int 0 (both_asleep false).last.state.nr_prod_waiting ≡ true) ↔ (
        (both_asleep false).last.state.prod_queue
        < total (waiting is_write) (both_asleep false).last.pcs))
counts_say_who_waits_example = counts_say_who_waits (first-IsStart false) (both_asleep false).run

sleepers_are_served_example :
    ((total (waiting is_read) (one_woken true).last.pcs ≤ (one_woken true).last.state.cons_queue)
      ⊎ ((one_woken true).last.state.cbuf.size
          ≤ (one_woken true).last.state.cons_queue
            + total (awake is_read) (one_woken true).last.pcs))
    × ((total (waiting is_write) (one_woken true).last.pcs ≤ (one_woken true).last.state.prod_queue)
        ⊎ ((one_woken true).last.state.cbuf.max_size - (one_woken true).last.state.cbuf.size
            ≤ (one_woken true).last.state.prod_queue
              + total (awake is_write) (one_woken true).last.pcs))
sleepers_are_served_example = sleepers_are_served (first-IsStart true) (one_woken true).run

interrupted_relock_example :
    (t : Turn arena) × (u : System arena scan_7 false) × Step arena scan_7 false
      (one_woken false).last
      t
      u
    × (u.state.cons_queue < total (waiting is_read) u.pcs)
    × (u.state.cons_queue + total (awake is_read) u.pcs < u.state.cbuf.size)
unfolding one_woken total
interrupted_relock_example =
    interrupted_relock_strands_item {s = (one_woken false).last} 0 refl (omega arith) refl
      (omega arith) (omega arith)

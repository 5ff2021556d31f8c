-- ===== src/Tests/Pipes.antt =====
-- A run of the FIFO device with one consumer and one producer, and the theorems at its states.
use dso_fifo.Prelude.{
  total, ℕ, ◌-◌, ◌≤◌, ◌≡◌, refl, true, some, [], ◌∷◌, ◌++◌, arith, replicate, get_elem?, word,
}
use dso_fifo.Cbuffer.{
  Cbuffer, splice, size_cbuffer_t, nr_gaps_cbuffer_t, is_empty_cbuffer_t, insert_items_cbuffer_t,
  insert_first, insert_second, insert_update, remove_items_cbuffer_t, remove_first, remove_second,
}
use dso_fifo.Cbuffer.Window.{contents, contents-empty, window}
use dso_fifo.Fifo.{
  Fifo, consumer, producer, value, replies, up_mutex, fifo_release, open_call, read_call, Pc,
  closed, opened, asleep, entered, Turn, wake, wake_prods, wake_conss, cond_wait, open_test,
  fifo_open, read_entry, read_test, fifo_read, write_entry, write_test, fifo_write,
}
use dso_fifo.Fifo.Moves.{Move, enter, resume}
use dso_fifo.Fifo.Balance.{holds, counted, waiting}
use dso_fifo.Fifo.Calls.{IsPipe, ReadResult, WriteResult, fifo_read_lem, write_test_lem}
use dso_fifo.Fifo.Safety.{mutual_exclusion, open_counts_exact, no_lost_wakeup}
use dso_fifo.Fifo.Progress.{holder_releases}
use dso_fifo.Fifo.History.{Replays, log, given, taken, run_refines_pipe, first_in_first_out}
use dso_fifo.Fifo.Races.{Steps, interrupt_underflows, last_producer_wakes_no_reader}
use dso_fifo.Fifo.System.{System, Step, pick, Reach, start, later, fresh}

abbrev zeros : Cbuffer
zeros = record { bytes = replicate 512 0; head = 0; size = 0; max_size = 512 }

record Run : Type 0 where
  last : System
  reach : Reach zeros 2 last

abbrev next :
    (r : Run) (i : ℕ) {p : Pc} {t : Turn}
    → get_elem? r.last.pcs i ≡ some p
    → Move r.last.fifo p t
    → Run
next r i at mv = record { last = _; reach = later r.reach (pick i at mv) }

-- The consumer opens first, and sleeps until there is a producer.
waiting_open : Run
unfolding enter fifo_open open_test wake_prods wake_conss wake cond_wait
waiting_open =
    let r0 : Run = record { last = _; reach = start } in
    let r1 : Run = next r0 0 refl (Move.start_open consumer) in
    let r2 : Run = next r1 0 refl (Move.lock 0 refl) in next r2 0 refl (Move.run_entered 0 refl)

waiting_open_result :
    (waiting_open.last.fifo.num_bloq_cons ≡ 1)
    × (waiting_open.last.pcs ≡ asleep consumer open_call ∷ closed ∷ [])
unfolding waiting_open
waiting_open_result = (refl, refl)

-- The producer opens and wakes it, and both have the device open.
both_open : Run
unfolding waiting_open resume
both_open =
    let r1 : Run = next waiting_open 1 refl (Move.start_open producer) in
    let r2 : Run = next r1 1 refl (Move.lock 0 refl) in
    let r3 : Run = next r2 1 refl (Move.run_entered 0 refl) in
    let r4 : Run = next r3 0 refl (Move.take_token 0 refl) in
    let r5 : Run = next r4 0 refl (Move.relock 0 refl) in next r5 0 refl (Move.run_resumed 0 refl)

both_open_result :
    (both_open.last.fifo.num_cons ≡ 1)
    × (both_open.last.pcs ≡ opened consumer ∷ opened producer ∷ [])
unfolding both_open
both_open_result = (refl, refl)

-- The producer has the mutex and is about to write three bytes.
about_to_write : Run
unfolding both_open write_entry
about_to_write =
    let r1 : Run = next both_open 1 refl (Move.start_write true 0 (1 ∷ 2 ∷ 3 ∷ [])) in
    next r1 1 refl (Move.lock 0 refl)

-- It writes them, and the consumer reads two.
two_read : Run
unfolding about_to_write fifo_write write_test nr_gaps_cbuffer_t insert_items_cbuffer_t insert_first
    insert_second insert_update splice read_entry fifo_read read_test is_empty_cbuffer_t
    size_cbuffer_t remove_items_cbuffer_t remove_first remove_second
two_read =
    let r1 : Run = next about_to_write 1 refl (Move.run_entered 0 refl) in
    let r2 : Run = next r1 0 refl (Move.start_read true 2) in
    let r3 : Run = next r2 0 refl (Move.lock 0 refl) in next r3 0 refl (Move.run_entered 0 refl)

two_read_result :
    (contents two_read.last.fifo.cbuffer ≡ 3 ∷ []) × (taken (log two_read.reach) ≡ 1 ∷ 2 ∷ [])
unfolding two_read contents window taken log
two_read_result = (refl, refl)

zeros-IsPipe : IsPipe zeros
zeros-IsPipe = omega arith

zeros-empty : contents zeros ≡ []
zeros-empty = contents-empty zeros refl

first_in_first_out_example :
    given (log two_read.reach) ≡ taken (log two_read.reach) ++ contents two_read.last.fifo.cbuffer
first_in_first_out_example =
    first_in_first_out zeros-IsPipe zeros-empty (omega arith) two_read.reach

run_refines_pipe_example : Replays (log two_read.reach) (contents two_read.last.fifo.cbuffer)
run_refines_pipe_example = run_refines_pipe zeros-IsPipe zeros-empty (omega arith) two_read.reach

mutual_exclusion_example : (about_to_write.last.fifo.mutex ≡ 0) × (holds (opened consumer) ≡ 0)
unfolding about_to_write
mutual_exclusion_example = mutual_exclusion about_to_write.reach 1 0 refl refl (omega arith) refl

open_counts_exact_example :
    (both_open.last.fifo.num_cons ≡ total (counted consumer) both_open.last.pcs)
    × (both_open.last.fifo.num_prod ≡ total (counted producer) both_open.last.pcs)
open_counts_exact_example = open_counts_exact (omega arith) both_open.reach

no_lost_wakeup_example :
    total (waiting producer) waiting_open.last.pcs ≤ waiting_open.last.fifo.cola_prod
unfolding waiting_open
no_lost_wakeup_example = no_lost_wakeup (omega arith) waiting_open.reach producer refl

holder_releases_example :
    (t : Turn) × (u : System) × Step about_to_write.last t u
    × (get_elem? u.pcs 1 ≡ some t.pc)
    × (holds t.pc ≡ 0)
    × (u.fifo.mutex ≡ 1)
unfolding about_to_write
holder_releases_example =
    holder_releases zeros-IsPipe (omega arith) about_to_write.reach 1 refl refl

-- five bytes in the pipe, one producer asleep
abbrev busy : Fifo
busy = record (fresh zeros) {
  cbuffer = record {
    bytes = 1 ∷ 2 ∷ 3 ∷ 4 ∷ 5 ∷ replicate 507 0;
    head = 0;
    size = 5;
    max_size = 512;
  };
  num_prod = 1;
  num_cons = 1;
  num_bloq_prod = 1;
  mutex = 0;
}

fifo_read_example : ReadResult 0 consumer 3 busy (fifo_read 0 consumer 3 busy)
fifo_read_example = fifo_read_lem 0 consumer 3 busy (omega arith)

write_test_example : WriteResult producer (7 ∷ 8 ∷ []) busy (write_test producer (7 ∷ 8 ∷ []) busy)
write_test_example = write_test_lem producer (7 ∷ 8 ∷ []) busy (omega arith) (omega arith)

-- A consumer sleeps on an empty pipe, and the last producer is about to close.
abbrev stranded : Fifo
stranded = record (fresh zeros) { num_prod = 1; num_cons = 1; num_bloq_cons = 1; mutex = 0 }

last_producer_example :
    let g = (fifo_release producer stranded).fifo in
    (fifo_read 0 consumer 4 g ≡ some (replies (up_mutex g) (opened consumer) (value 0)))
    × (g.num_bloq_cons ≡ 1)
    × (g.cola_cons ≡ 0)
last_producer_example =
    last_producer_wakes_no_reader stranded 0 4 consumer refl (omega arith)
      (contents-empty stranded.cbuffer refl)

-- A consumer asleep in a read, and a second producer that has the mutex in its call of open.
abbrev meeting : System
meeting = record {
  fifo = stranded;
  pcs = asleep consumer (read_call 4) ∷ entered producer open_call ∷ [];
}

interrupt_underflows_example : (u : System) × Steps meeting u × (u.fifo.num_bloq_cons ≡ word - 1)
interrupt_underflows_example = interrupt_underflows meeting 0 1 4 refl refl (omega arith) refl

-- ===== src/ProdCons2/Balance.antt =====
-- What every step of a process in prodcons2.c keeps in balance: the mutex, the counts of the queues,
-- and the queue of items.
use mathlib.Core.Path.{subst}
use dso_fifo.Prelude.{
  ℕ, ◌+◌, ◌%◌, ◌<◌, ◌≤◌, ◌≡◌, ◌⊎◌, inl, inr, refl, sym, ◌∙◌, Bool, true, Bool-cases, List, [], ◌∷◌,
  ◌++◌, length, Option-cases, some, none, arith, eq_of_some, ◌>>=◌, word, lt_int, ◌==◌, ==_iff,
  if◌then◌else◌,
}
use dso_fifo.Allocator.{Allocator}
use dso_fifo.ItemBuffer.{ItemBuffer, is_full_cbuffer_t, size_cbuffer_t}
use dso_fifo.ItemBuffer.Single.{IsQueue, queued, insert_room, remove_some}
use dso_fifo.ProdCons2.{
  ProdCons, Turn, Call, write_call, read_call, Pc, idle, running, asleep, hit, leaving, printing,
  new_item, write_entry, stop_waiting, run_test, read_entry, read_end, wait, wake_cons, wake_prod,
  write_test, read_test, Effect, no_effect, gave, took, sizeof_int, Reply, replies, wrote, up_mtx,
}
use dso_fifo.ProdCons2.Moves.{Move}

-- the processes that hold `mtx`
abbrev pub holds : Pc → ℕ
holds (running c) = 1
holds (leaving c) = 1
holds _ = 0

abbrev pub is_read : Call → ℕ
is_read read_call = 1
is_read (write_call n p) = 0

abbrev pub is_write : Call → ℕ
is_write read_call = 0
is_write (write_call n p) = 1

-- The processes in a queue, with a signal or without; `which` says in which of the two.
abbrev pub waiting : (Call → ℕ) → Pc → ℕ
waiting which (asleep c) = which c
waiting which (hit c) = which c
waiting which (leaving c) = which c
waiting which _ = 0

-- What a step does to the queue of items.
abbrev pub Queues : List ℕ → Effect → List ℕ → Type 0
Queues q no_effect q' = q' ≡ q
Queues q (gave p) q' = q' ≡ q ++ p ∷ []
Queues q (took p) q' = q ≡ p ∷ q'

module _ (a : Allocator) where
  pub record Balanced (s : ProdCons a) (p : Pc) (t : Turn a) : Type 0 where
    pub mutex_kept : t.next.mtx + holds t.pc ≡ s.mtx + holds p
    pub cons_kept :
        (t.next.nr_cons_waiting + t.next.cons_queue + waiting is_read p) % word
        ≡ (s.nr_cons_waiting + s.cons_queue + waiting is_read t.pc) % word
    pub prod_kept :
        (t.next.nr_prod_waiting + t.next.prod_queue + waiting is_write p) % word
        ≡ (s.nr_prod_waiting + s.prod_queue + waiting is_write t.pc) % word
    pub cons_word : (t.next.nr_cons_waiting ≡ s.nr_cons_waiting) ⊎ (t.next.nr_cons_waiting < word)
    pub prod_word : (t.next.nr_prod_waiting ≡ s.nr_prod_waiting) ⊎ (t.next.nr_prod_waiting < word)
    pub cons_tokens :
        (t.next.cons_queue ≤ s.cons_queue)
        ⊎ (lt_int 0 s.nr_cons_waiting ≡ true) × (t.next.cons_queue ≡ s.cons_queue + 1)
    pub prod_tokens :
        (t.next.prod_queue ≤ s.prod_queue)
        ⊎ (lt_int 0 s.nr_prod_waiting ≡ true) × (t.next.prod_queue ≡ s.prod_queue + 1)
    pub strict : IsQueue t.next.cbuf
    pub capacity : t.next.cbuf.max_size ≡ s.cbuf.max_size
    pub moved : Queues (queued s.cbuf) t.effect (queued t.next.cbuf)

  not_some : {t : Turn a} → none ≡ some t → ⊥
  not_some h = cc

  new_item-Balanced :
      (n v : ℕ) (s : ProdCons a) {t : Turn a}
      → IsQueue s.cbuf
      → new_item a n v s ≡ some t
      → Balanced s idle t
  unfolding new_item
  new_item-Balanced n v s q e = elim (Option-cases ((a.vmalloc s.heap sizeof_int).0)) [
    | inl failed ↦ absurd (not_some (rw (failed, new_item) at e))
    | inr (p, got) ↦
        subst (λ t. Balanced s idle t) (eq_of_some (rw (got, new_item) at e)) (ground (arith, q))
  ]

  write_entry-Balanced :
      (scan : List ℕ → ℕ × ℕ) (copied : Bool) (user : List ℕ) (s : ProdCons a) {t : Turn a}
      → IsQueue s.cbuf
      → write_entry a scan copied user s ≡ some t
      → Balanced s idle t
  unfolding write_entry
  write_entry-Balanced scan copied user s {t} q e =
      ground (arith, new_item-Balanced (length user) (scan (user ++ 0 ∷ [])).1 s {t = t} q)

  wait-Balanced : (c : Call) (s : ProdCons a) → IsQueue s.cbuf → Balanced s (running c) (wait a c s)
  unfolding wait
  wait-Balanced (write_call n p) s q = ground arith
  wait-Balanced read_call s q = ground arith

  stop_waiting-Balanced :
      (c : Call) (s : ProdCons a) {r : Reply}
      → IsQueue s.cbuf
      → Balanced s (leaving c) (replies a (stop_waiting a c s) r)
  unfolding stop_waiting
  stop_waiting-Balanced (write_call n p) s q = ground arith
  stop_waiting-Balanced read_call s q = ground arith

  -- what a writer and a reader leave, with the buffer after them
  abbrev pub after_write : ℕ → ℕ → ProdCons a → ItemBuffer → Turn a
  after_write n p s b = record {
    next = up_mtx a (wake_cons a (record s { cbuf = b }));
    pc = idle;
    effect = gave p;
    reply = some (wrote n);
  }

  abbrev pub after_read : ℕ → ProdCons a → ItemBuffer → Turn a
  after_read p s b = record {
    next = up_mtx a (wake_prod a (record s { cbuf = b }));
    pc = printing p;
    effect = took p;
    reply = none;
  }

  -- The outcomes of a call that has `mtx`: it waits, or it moves an item.
  pub data Outcome (s : ProdCons a) : Call → Turn a → Type 0 where
    write_waits :
        {n p : ℕ}
        → s.cbuf.size ≡ s.cbuf.max_size
        → Outcome s (write_call n p) (wait a (write_call n p) s)
    writes :
        {n p : ℕ} (b : ItemBuffer)
        → s.cbuf.size < s.cbuf.max_size
        → IsQueue b
        → b.max_size ≡ s.cbuf.max_size
        → queued b ≡ queued s.cbuf ++ p ∷ []
        → Outcome s (write_call n p) (after_write n p s b)
    read_waits : s.cbuf.size ≡ 0 → Outcome s read_call (wait a read_call s)
    reads :
        (p : ℕ) (b : ItemBuffer)
        → IsQueue b
        → b.max_size ≡ s.cbuf.max_size
        → queued s.cbuf ≡ p ∷ queued b
        → Outcome s read_call (after_read p s b)

  -- A call that has `mtx` does not fault.
  pub run_test_lem :
      (c : Call) (s : ProdCons a)
      → IsQueue s.cbuf
      → (t : Turn a) × (run_test a c s ≡ some t) × Outcome s c t
  unfolding run_test write_test read_test is_full_cbuffer_t size_cbuffer_t
  run_test_lem (write_call n p) s q = elim (Bool-cases (s.cbuf.size == s.cbuf.max_size)) [
    | inl full ↦ (_, rw (full, if◌then◌else◌) refl, write_waits ((==_iff _ _).0 full))
    | inr open_space ↦
        let room : s.cbuf.size < s.cbuf.max_size = ground (arith, q.valid.size_in) in
        let (b, runs, strict, same, held) = insert_room s.cbuf p q room in
        (
          after_write n p s b,
          rw (open_space, if◌then◌else◌, runs, ◌>>=◌) refl,
          writes b room strict same held,
        )
  ]
  run_test_lem read_call s q = elim (Bool-cases (s.cbuf.size == 0)) [
    | inl empty ↦ (_, rw (empty, if◌then◌else◌) refl, read_waits ((==_iff _ _).0 empty))
    | inr more ↦
        let (p, b, gives, runs, strict, same, held) = remove_some s.cbuf q (ground arith) in
        (
          after_read p s b,
          rw (more, if◌then◌else◌, gives, runs, ◌>>=◌) refl,
          reads p b strict same held,
        )
  ]

  Outcome-Balanced :
      (c : Call) (s : ProdCons a) {t : Turn a}
      → IsQueue s.cbuf
      → Outcome s c t
      → Balanced s (running c) t
  unfolding wake_cons wake_prod
  Outcome-Balanced (write_call n p) s q (write_waits full) = wait-Balanced (write_call n p) s q
  Outcome-Balanced (write_call n p) s q (writes b room strict same held) = ground (arith, strict)
  Outcome-Balanced read_call s q (read_waits empty) = wait-Balanced read_call s q
  Outcome-Balanced read_call s q (reads p b strict same held) = ground (arith, strict)

  -- What a call that has `mtx` does is one of the outcomes.
  pub run_test-Outcome :
      (c : Call) (s : ProdCons a) {t : Turn a}
      → IsQueue s.cbuf
      → run_test a c s ≡ some t
      → Outcome s c t
  run_test-Outcome c s q e =
      let (t', runs, o) = run_test_lem c s q in
      subst (λ t. Outcome s c t) (eq_of_some (sym runs ∙ e)) o

  pub Move-Balanced :
      {scan : List ℕ → ℕ × ℕ} {patient : Bool} {s : ProdCons a} {p : Pc} {t : Turn a}
      → IsQueue s.cbuf
      → Move a scan patient s p t
      → Balanced s p t
  unfolding read_entry read_end
  Move-Balanced {scan} {s = s} q (Move.start_write copied user e) =
      write_entry-Balanced scan copied user s q e
  Move-Balanced q (Move.start_read offset) = ground (arith, q)
  Move-Balanced q (Move.lock m e) = ground (arith, q)
  Move-Balanced q Move.lock_interrupted = ground (arith, q)
  Move-Balanced {s = s} q (Move.run_running {c} e) =
      Outcome-Balanced c s q (run_test-Outcome c s q e)
  Move-Balanced q (Move.take_token {c = write_call n p} k e) = ground (arith, q)
  Move-Balanced q (Move.take_token {c = read_call} k e) = ground (arith, q)
  Move-Balanced q Move.interrupt = ground (arith, q)
  Move-Balanced q (Move.relock m e) = ground (arith, q)
  Move-Balanced q (Move.relock_interrupted late) = ground (arith, q)
  Move-Balanced q (Move.hit_lock m e) = ground (arith, q)
  Move-Balanced {s = s} q (Move.leave {c}) = stop_waiting-Balanced c s q
  Move-Balanced q (Move.print e) = ground (arith, q)

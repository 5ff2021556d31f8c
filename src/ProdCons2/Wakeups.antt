-- ===== src/ProdCons2/Wakeups.antt =====
-- In prodcons2.c, who sleeps while there is an item or a space.
use mathlib.Core.Path.{subst}
use dso_fifo.Prelude.{
  ℕ, ◌+◌, ◌-◌, ◌≤◌, ◌≡◌, inl, inr, refl, ap, Bool, true, false, Bool-cases, List, [], ◌∷◌, ◌++◌,
  length, some, none, Option-cases, eq_of_some, arith, if◌then◌else◌, lt_int,
}
use dso_fifo.Allocator.{Allocator}
use dso_fifo.ItemBuffer.Single.{IsQueue, size-grown, size-shrunk}
use dso_fifo.ProdCons2.{
  ProdCons, Turn, Call, write_call, read_call, Pc, idle, running, woken, printing, new_item,
  write_entry, stop_waiting, read_entry, read_end, wait, wake_cons, wake_prod, sizeof_int,
}
use dso_fifo.ProdCons2.Moves.{Move}
use dso_fifo.ProdCons2.Balance.{
  is_read, is_write, waiting, Outcome, write_waits, writes, read_waits, reads, run_test-Outcome,
}

-- the processes that have been woken up, or are at the test of the loop
abbrev pub awake : (Call → ℕ) → Pc → ℕ
awake which (woken c) = which c
awake which (running c) = which c
awake which _ = 0

-- How a step can change the items, the tokens, and the processes that wait for items (or the spaces,
-- and those that wait for spaces): nothing is left, or there is a token or an awake process for all
-- that is new, or there is nobody to be woken up.
pub data Served (stuff stuff' tokens tokens' : ℕ) (p q : Pc) (which : Call → ℕ) (positive : Bool)
    : Type 0 where
  nothing_left : stuff' ≡ 0 → Served stuff stuff' tokens tokens' p q which positive
  served :
      stuff' + tokens + awake which p ≤ stuff + tokens' + awake which q
      → tokens + waiting which q ≤ tokens' + waiting which p
      → Served stuff stuff' tokens tokens' p q which positive
  nobody :
      positive ≡ false
      → tokens' ≡ tokens
      → waiting which q ≡ waiting which p
      → Served stuff stuff' tokens tokens' p q which positive

never : true ≡ false → ⊥
never h = cc

module _ (a : Allocator) where
  abbrev pub ReadersServed : ProdCons a → Pc → Turn a → Type 0
  ReadersServed s p t =
      Served s.cbuf.size t.next.cbuf.size s.cons_queue t.next.cons_queue p t.pc is_read
        (lt_int 0 s.nr_cons_waiting)

  abbrev pub WritersServed : ProdCons a → Pc → Turn a → Type 0
  WritersServed s p t =
      Served (s.cbuf.max_size - s.cbuf.size) (t.next.cbuf.max_size - t.next.cbuf.size) s.prod_queue
        t.next.prod_queue p t.pc is_write (lt_int 0 s.nr_prod_waiting)

  Outcome-ReadersServed :
      (c : Call) (s : ProdCons a) {t : Turn a} → Outcome a s c t → ReadersServed s (running c) t
  unfolding wait wake_cons wake_prod
  Outcome-ReadersServed (write_call n p) s (write_waits full) = served (omega arith) (omega arith)
  Outcome-ReadersServed (write_call n p) s (writes b room strict same held) =
      elim (Bool-cases (lt_int 0 s.nr_cons_waiting)) [
        | inl some_wait ↦
            rw (some_wait, if◌then◌else◌)
              (served (omega (arith, size-grown s.cbuf b p held)) (omega arith))
        | inr none_waits ↦ rw (none_waits, if◌then◌else◌) (nobody refl refl refl)
      ]
  Outcome-ReadersServed read_call s (read_waits empty) = nothing_left empty
  Outcome-ReadersServed read_call s (reads p b strict same held) =
      elim (Bool-cases (lt_int 0 s.nr_prod_waiting)) [
        | inl some_wait ↦
            rw (some_wait, if◌then◌else◌)
              (served (omega (arith, size-shrunk s.cbuf b p held)) (omega arith))
        | inr none_waits ↦
            rw (none_waits, if◌then◌else◌)
              (served (omega (arith, size-shrunk s.cbuf b p held)) (omega arith))
      ]

  Outcome-WritersServed :
      (c : Call) (s : ProdCons a) {t : Turn a}
      → s.cbuf.size ≤ s.cbuf.max_size
      → Outcome a s c t
      → WritersServed s (running c) t
  unfolding wait wake_cons wake_prod
  Outcome-WritersServed (write_call n p) s fits (write_waits full) = nothing_left (omega arith)
  Outcome-WritersServed (write_call n p) s fits (writes b room strict same held) =
      elim (Bool-cases (lt_int 0 s.nr_cons_waiting)) [
        | inl some_wait ↦
            rw (some_wait, if◌then◌else◌)
              (served (omega (arith, size-grown s.cbuf b p held)) (omega arith))
        | inr none_waits ↦
            rw (none_waits, if◌then◌else◌)
              (served (omega (arith, size-grown s.cbuf b p held)) (omega arith))
      ]
  Outcome-WritersServed read_call s fits (read_waits empty) = served (omega arith) (omega arith)
  Outcome-WritersServed read_call s fits (reads p b strict same held) =
      elim (Bool-cases (lt_int 0 s.nr_prod_waiting)) [
        | inl some_wait ↦
            rw (some_wait, if◌then◌else◌)
              (served (omega (arith, size-shrunk s.cbuf b p held)) (omega arith))
        | inr none_waits ↦ rw (none_waits, if◌then◌else◌) (nobody refl refl refl)
      ]

  -- A step of a process that touches neither the buffer nor a queue.
  record IsApart (s : ProdCons a) (t : Turn a) : Type 0 where
    buffer : t.next.cbuf ≡ s.cbuf
    conss : t.next.cons_queue ≡ s.cons_queue
    prods : t.next.prod_queue ≡ s.prod_queue
    not_in_queue : (which : Call → ℕ) → waiting which t.pc ≡ 0
    not_awake : (which : Call → ℕ) → awake which t.pc ≡ 0

  not_some : {t : Turn a} → none ≡ some t → ⊥
  not_some h = cc

  new_item-IsApart :
      (n v : ℕ) (s : ProdCons a) {t : Turn a} → new_item a n v s ≡ some t → IsApart s t
  unfolding new_item
  new_item-IsApart n v s e = elim (Option-cases ((a.vmalloc s.heap sizeof_int).0)) [
    | inl failed ↦ absurd (not_some (rw (failed, new_item) at e))
    | inr (p, got) ↦ subst (λ t. IsApart s t) (eq_of_some (rw (got, new_item) at e)) (ground arith)
  ]

  write_entry-IsApart :
      (scan : List ℕ → ℕ × ℕ) (copied : Bool) (user : List ℕ) (s : ProdCons a) {t : Turn a}
      → write_entry a scan copied user s ≡ some t
      → IsApart s t
  unfolding write_entry
  write_entry-IsApart scan copied user s {t} e =
      ground (arith, new_item-IsApart (length user) (scan (user ++ 0 ∷ [])).1 s {t = t})

  read_end-IsApart : (p : ℕ) (s : ProdCons a) {t : Turn a} → read_end a p s ≡ some t → IsApart s t
  unfolding read_end
  read_end-IsApart p s e = ground arith

  apart-ReadersServed :
      (s : ProdCons a) {t : Turn a} (p : Pc)
      → IsApart s t
      → ((which : Call → ℕ) → (waiting which p ≡ 0) × (awake which p ≡ 0))
      → ReadersServed s p t
  apart-ReadersServed s p i out =
      served (omega (arith, ap (λ b. b.size) i.buffer, i.conss, i.not_awake is_read, out is_read))
        (omega (arith, i.conss, i.not_in_queue is_read))

  apart-WritersServed :
      (s : ProdCons a) {t : Turn a} (p : Pc)
      → IsApart s t
      → ((which : Call → ℕ) → (waiting which p ≡ 0) × (awake which p ≡ 0))
      → WritersServed s p t
  apart-WritersServed s p i out =
      served
        (omega (
          arith,
          ap (λ b. b.size) i.buffer,
          ap (λ b. b.max_size) i.buffer,
          i.prods,
          i.not_awake is_write,
          out is_write,
        ))
        (omega (arith, i.prods, i.not_in_queue is_write))

  pub Move-ReadersServed :
      {scan : List ℕ → ℕ × ℕ} {s : ProdCons a} {p : Pc} {t : Turn a}
      → IsQueue s.cbuf
      → Move a scan true s p t
      → ReadersServed s p t
  unfolding read_entry stop_waiting
  Move-ReadersServed {scan} {s} q (Move.start_write copied user e) =
      apart-ReadersServed s idle (write_entry-IsApart scan copied user s e) (λ w. (refl, refl))
  Move-ReadersServed {s = s} q (Move.start_read offset) = served (ground arith) (ground arith)
  Move-ReadersServed q (Move.lock m e) = served (omega arith) (omega arith)
  Move-ReadersServed q Move.lock_interrupted = served (omega arith) (omega arith)
  Move-ReadersServed {s = s} q (Move.run_running {c} e) =
      Outcome-ReadersServed c s (run_test-Outcome a c s q e)
  Move-ReadersServed q (Move.take_token {c = write_call n p} k e) =
      served (omega arith) (omega arith)
  Move-ReadersServed q (Move.take_token {c = read_call} k e) = served (omega arith) (omega arith)
  Move-ReadersServed q Move.interrupt = served (omega arith) (omega arith)
  Move-ReadersServed q (Move.relock m e) = served (omega arith) (omega arith)
  Move-ReadersServed q (Move.relock_interrupted late) = absurd (never late)
  Move-ReadersServed q (Move.hit_lock m e) = served (omega arith) (omega arith)
  Move-ReadersServed q (Move.leave {c = write_call n p}) = served (omega arith) (omega arith)
  Move-ReadersServed q (Move.leave {c = read_call}) = served (omega arith) (omega arith)
  Move-ReadersServed {s = s} q (Move.print {p} e) =
      apart-ReadersServed s (printing p) (read_end-IsApart p s e) (λ w. (refl, refl))

  pub Move-WritersServed :
      {scan : List ℕ → ℕ × ℕ} {s : ProdCons a} {p : Pc} {t : Turn a}
      → IsQueue s.cbuf
      → Move a scan true s p t
      → WritersServed s p t
  unfolding read_entry stop_waiting
  Move-WritersServed {scan} {s} q (Move.start_write copied user e) =
      apart-WritersServed s idle (write_entry-IsApart scan copied user s e) (λ w. (refl, refl))
  Move-WritersServed {s = s} q (Move.start_read offset) = served (ground arith) (ground arith)
  Move-WritersServed q (Move.lock m e) = served (omega arith) (omega arith)
  Move-WritersServed q Move.lock_interrupted = served (omega arith) (omega arith)
  Move-WritersServed {s = s} q (Move.run_running {c} e) =
      Outcome-WritersServed c s q.valid.size_in (run_test-Outcome a c s q e)
  Move-WritersServed q (Move.take_token {c = write_call n p} k e) =
      served (omega arith) (omega arith)
  Move-WritersServed q (Move.take_token {c = read_call} k e) = served (omega arith) (omega arith)
  Move-WritersServed q Move.interrupt = served (omega arith) (omega arith)
  Move-WritersServed q (Move.relock m e) = served (omega arith) (omega arith)
  Move-WritersServed q (Move.relock_interrupted late) = absurd (never late)
  Move-WritersServed q (Move.hit_lock m e) = served (omega arith) (omega arith)
  Move-WritersServed q (Move.leave {c = write_call n p}) = served (omega arith) (omega arith)
  Move-WritersServed q (Move.leave {c = read_call}) = served (omega arith) (omega arith)
  Move-WritersServed {s = s} q (Move.print {p} e) =
      apart-WritersServed s (printing p) (read_end-IsApart p s e) (λ w. (refl, refl))

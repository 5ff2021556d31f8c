-- ===== src/ProdCons1/Memory.antt =====
-- Who owns the blocks of the items in prodcons1.c.
use mathlib.Core.Path.{subst}
use dso_fifo.Prelude.{
  ℕ, ◌+◌, ◌≤◌, ◌≡◌, inl, inr, refl, sym, ap, ◌∙◌, Bool, Bool-cases, List, [], ◌∷◌, ◌++◌, length,
  Option-cases, some, none, arith, ◌==◌, if◌then◌else◌, eq_of_some,
}
use dso_fifo.Allocator.{Allocator, count, count-remove, count-append, count-Absent}
use dso_fifo.ItemBuffer
use dso_fifo.ItemBuffer.Single.{queued}
use dso_fifo.ProdCons1.{
  ProdCons, Turn, Pc, idle, filling, entering_write, writing, written, reading, taken, printing,
  new_item, write_entry, write_undone, write_backed_out, write_item, write_end, read_entry,
  read_backed_out, read_item, read_counted, read_end, sizeof_int, Reply, replies, gave, took,
}
use dso_fifo.ProdCons1.Moves.{Move}
use dso_fifo.ProdCons1.Balance.{Queues, Balanced}

-- 1 where the process has the item at `q` in its hands
abbrev pub carries : ℕ → Pc → ℕ
carries q (filling n p) = if p == q then 1 else 0
carries q (entering_write n p) = if p == q then 1 else 0
carries q (writing n p) = if p == q then 1 else 0
carries q (taken p) = if p == q then 1 else 0
carries q (printing p) = if p == q then 1 else 0
carries q _ = 0

one_hand : (p : ℕ) → ◌≡◌ {A = ℕ} (if p == p then 1 else 0) 1
one_hand p = ground arith

module _ {a : Allocator} where
  open a use {Heap, owned, vmalloc, vfree}

  pub not_some : {t : Turn a} → none ≡ some t → ⊥
  not_some h = cc

  -- What a step does to the blocks, seen from the block at `q`.
  pub record Kept (q : ℕ) (s : ProdCons a) (p : Pc) (t : Turn a) : Type 0 where
    pub used :
        count q (queued t.next.cbuf) + carries q t.pc + count q (owned s.heap)
        ≤ count q (owned t.next.heap) + count q (queued s.cbuf) + carries q p
    pub single : count q (owned t.next.heap) ≤ 1
    pub null : q ≡ 0 → count q (owned t.next.heap) ≡ 0
    pub stable : 1 ≤ count q (owned s.heap) → t.next.cell q ≡ s.cell q

  -- what it needs: no block is there twice, none is at NULL, and the process has a block of the heap
  pub record Has (q : ℕ) (s : ProdCons a) (p : Pc) : Type 0 where
    pub once : count q (owned s.heap) ≤ 1
    pub not_null : q ≡ 0 → count q (owned s.heap) ≡ 0
    pub mine : (r : ℕ) → carries r p ≤ count r (owned s.heap)

  new_item-Kept :
      (q n v : ℕ) (s : ProdCons a) {t : Turn a}
      → Has q s idle
      → new_item a n v s ≡ some t
      → Kept q s idle t
  unfolding new_item
  new_item-Kept q n v s has e = elim (Option-cases ((vmalloc s.heap sizeof_int).0)) [
    | inl failed ↦ absurd (not_some (sym (rw (failed, new_item) refl) ∙ e))
    | inr (p, got) ↦
        let own : count q (owned (vmalloc s.heap sizeof_int).1)
            ≡ (if p == q then 1 else 0) + count q (owned s.heap) =
          ap (count q) (a.vmalloc_gives s.heap sizeof_int p got) in
        let fresh : count p (owned s.heap) ≡ 0 =
          count-Absent p (owned s.heap) (a.vmalloc_fresh s.heap sizeof_int p got) in
        let nonnull = a.vmalloc_nonnull s.heap sizeof_int p got in
        subst (λ t. Kept q s idle t) (eq_of_some (rw (got, new_item) at e))
          (record {
            used = omega (arith, own);
            single = ground (arith, own, fresh, has);
            null = λ z. ground (arith, own, nonnull, has.not_null z);
            stable = λ here. ground (arith, fresh);
          })
  ]

  write_entry-Kept :
      (q : ℕ) (scan : List ℕ → ℕ × ℕ) (copied : Bool) (user : List ℕ) (s : ProdCons a) {t : Turn a}
      → Has q s idle
      → write_entry a scan copied user s ≡ some t
      → Kept q s idle t
  unfolding write_entry
  write_entry-Kept q scan copied user s {t} has e =
      ground (arith, has, new_item-Kept q (length user) (scan (user ++ 0 ∷ [])).1 s {t = t} has)

  -- freeing a block that the process has in its hands
  freed :
      (q p : ℕ) (s : ProdCons a)
      → 1 ≤ count p (owned s.heap)
      → (if p == q then 1 else 0) + count q (owned (vfree s.heap p)) ≡ count q (owned s.heap)
  freed q p s h = rw (a.vfree_owned s.heap p) (count-remove q p (owned s.heap) h)

  free-Kept :
      (q p : ℕ) (pc : Pc) (s : ProdCons a) (r : Reply)
      → ((r : ℕ) → carries r pc ≡ (if p == r then 1 else 0))
      → Has q s pc
      → Kept q s pc (replies a (record s { heap = vfree s.heap p }) r)
  free-Kept q p pc s r holds has =
      let gone = freed q p s (omega (arith, has.mine p, holds p, one_hand p)) in
      record {
        used = omega (arith, gone, holds q);
        single = omega (arith, gone, has.once);
        null = λ z. omega (arith, gone, has.not_null z);
        stable = λ here. refl;
      }

  read_end-Kept :
      (q p : ℕ) (s : ProdCons a) {t : Turn a}
      → Has q s (printing p)
      → read_end a p s ≡ some t
      → Kept q s (printing p) t
  unfolding read_end
  read_end-Kept q p s has e = elim (Bool-cases (p == 0)) [
    | inl null ↦ absurd (not_some (rw (null, if◌then◌else◌) at e))
    | inr some_item ↦
        subst (λ t. Kept q s (printing p) t) (eq_of_some (rw (some_item, if◌then◌else◌) at e))
          (free-Kept q p (printing p) s _ (λ r. refl) has)
  ]

  -- what inserting and removing leave alone
  pub write_item-parts :
      (n p : ℕ) (s : ProdCons a) {t : Turn a}
      → write_item a n p s ≡ some t
      → (t.pc ≡ written n) × (t.effect ≡ gave p) × (t.next.heap ≡ s.heap) × (t.next.cell ≡ s.cell)
  unfolding write_item
  write_item-parts n p s e = elim (Option-cases (ItemBuffer.insert_cbuffer_t s.cbuf p)) [
    | inl fault ↦ absurd (not_some (rw (fault, write_item) at e))
    | inr (b, runs) ↦
        let same = eq_of_some (rw (runs, write_item) at e) in
        (
          sym (ap (λ t. t.pc) same),
          sym (ap (λ t. t.effect) same),
          sym (ap (λ t. t.next.heap) same),
          sym (ap (λ t. t.next.cell) same),
        )
  ]

  pub read_item-parts :
      (s : ProdCons a) {t : Turn a}
      → read_item a s ≡ some t
      → (p : ℕ) × (t.pc ≡ taken p)
        × (t.effect ≡ took p)
        × (t.next.heap ≡ s.heap)
        × (t.next.cell ≡ s.cell)
  unfolding read_item
  read_item-parts s e = elim (Option-cases (ItemBuffer.head_cbuffer_t s.cbuf)) [
    | inl fault ↦ absurd (not_some (rw (fault, read_item) at e))
    | inr (p, gives) ↦ elim (Option-cases (ItemBuffer.remove_cbuffer_t s.cbuf)) [
      | inl fault ↦ absurd (not_some (rw (gives, fault, read_item) at e))
      | inr (b, runs) ↦
          let same = eq_of_some (rw (gives, runs, read_item) at e) in
          (
            p,
            sym (ap (λ t. t.pc) same),
            sym (ap (λ t. t.effect) same),
            sym (ap (λ t. t.next.heap) same),
            sym (ap (λ t. t.next.cell) same),
          )
    ]
  ]

  -- An item that only changes hands with the buffer.
  insert-Kept :
      (q n p : ℕ) (s : ProdCons a) {t : Turn a}
      → Has q s (writing n p)
      → Balanced a s (writing n p) t
      → write_item a n p s ≡ some t
      → Kept q s (writing n p) t
  insert-Kept q n p s {t} has b e =
      let (pc, eff, heap, cell) = write_item-parts n p s e in
      let moved : queued t.next.cbuf ≡ queued s.cbuf ++ p ∷ [] =
        subst (λ e. Queues (queued s.cbuf) e (queued t.next.cbuf)) eff b.moved in
      let own = ap (λ h. count q (owned h)) heap in
      record {
        used = omega (
          arith,
          own,
          ap (count q) moved,
          count-append q (queued s.cbuf) (p ∷ []),
          ap (carries q) pc,
        );
        single = omega (arith, own, has.once);
        null = λ z. omega (arith, own, has.not_null z);
        stable = λ here. ap (λ c. c q) cell;
      }

  remove-Kept :
      (q : ℕ) (s : ProdCons a) {t : Turn a}
      → Has q s reading
      → Balanced a s reading t
      → read_item a s ≡ some t
      → Kept q s reading t
  remove-Kept q s {t} has b e =
      let (p, pc, eff, heap, cell) = read_item-parts s e in
      let moved : queued s.cbuf ≡ p ∷ queued t.next.cbuf =
        subst (λ e. Queues (queued s.cbuf) e (queued t.next.cbuf)) eff b.moved in
      let own = ap (λ h. count q (owned h)) heap in
      record {
        used = omega (arith, own, ap (count q) moved, ap (carries q) pc);
        single = omega (arith, own, has.once);
        null = λ z. omega (arith, own, has.not_null z);
        stable = λ here. ap (λ c. c q) cell;
      }

  pub Move-Kept :
      {scan : List ℕ → ℕ × ℕ} {s : ProdCons a} {p : Pc} {t : Turn a} (q : ℕ)
      → Has q s p
      → Balanced a s p t
      → Move a scan s p t
      → Kept q s p t
  unfolding write_undone write_backed_out write_end read_entry read_backed_out read_counted
  Move-Kept {scan} {s} q has b (Move.start_write copied user e) =
      write_entry-Kept q scan copied user s has e
  Move-Kept q has b (Move.take_hueco m e) = ground (arith, has)
  Move-Kept {s = s} q has b (Move.hueco_interrupted {n} {p}) =
      free-Kept q p (filling n p) s _ (λ r. refl) has
  Move-Kept q has b (Move.lock_write m e) = ground (arith, has)
  Move-Kept q has b Move.lock_write_interrupted = ground (arith, has)
  Move-Kept {s = s} q has b (Move.insert {n} {p} e) = insert-Kept q n p s has b e
  Move-Kept q has b Move.count_element = ground (arith, has)
  Move-Kept q has b (Move.start_read offset) = ground (arith, has)
  Move-Kept q has b (Move.take_element m e) = ground (arith, has)
  Move-Kept q has b Move.element_interrupted = ground (arith, has)
  Move-Kept q has b (Move.lock_read m e) = ground (arith, has)
  Move-Kept q has b Move.lock_read_interrupted = ground (arith, has)
  Move-Kept {s = s} q has b (Move.remove_item e) = remove-Kept q s has b e
  Move-Kept q has b Move.count_hueco = ground (arith, has)
  Move-Kept {s = s} q has b (Move.print {p} e) = read_end-Kept q p s has e

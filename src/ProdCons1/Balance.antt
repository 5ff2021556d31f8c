-- ===== src/ProdCons1/Balance.antt =====
-- What every step of a process keeps in balance: the mutex, the spaces and the elements.
use dso_fifo.Prelude.{
  ℕ, ◌+◌, ◌<◌, ◌≡◌, inl, inr, refl, List, [], ◌∷◌, ◌++◌, length, some, arith, eq_of_some, sym, ◌∙◌,
  none, Option-cases, Bool,
}
use mathlib.Core.Path.{subst}
use dso_fifo.Allocator.{Allocator}
use dso_fifo.ItemBuffer.{ItemBuffer}
use dso_fifo.ItemBuffer.Single.{IsQueue, queued, size-grown, size-shrunk, insert_room, remove_some}
use dso_fifo.ProdCons1.{
  ProdCons, Turn, Pc, idle, entering_write, writing, written, entering_read, reading, taken,
  new_item, write_entry, write_undone, write_backed_out, write_item, write_end, read_entry,
  read_backed_out, read_item, read_counted, read_end, sizeof_int, Effect, gave, took, no_effect,
}
use dso_fifo.ProdCons1.Moves.{Move}

-- the processes that hold `mtx`
abbrev pub holds : Pc → ℕ
holds (writing n p) = 1
holds reading = 1
holds _ = 0

-- those with a space that neither `huecos` nor the size of the buffer counts
abbrev pub space_of : Pc → ℕ
space_of (entering_write n p) = 1
space_of (writing n p) = 1
space_of (taken p) = 1
space_of _ = 0

-- those with an element of the buffer that `elementos` does not count
abbrev pub element_of : Pc → ℕ
element_of (written n) = 1
element_of entering_read = 1
element_of reading = 1
element_of _ = 0

-- What a step does to the queue of items.
abbrev pub Queues : List ℕ → Effect → List ℕ → Type 0
Queues q no_effect q' = q' ≡ q
Queues q (gave p) q' = q' ≡ q ++ p ∷ []
Queues q (took p) q' = q ≡ p ∷ q'

-- What a process with the mutex relies on.
abbrev pub Ready : ItemBuffer → Pc → Type 0
Ready b (writing n p) = b.size < b.max_size
Ready b reading = 0 < b.size
Ready b _ = Unit {0}

module _ (a : Allocator) where
  pub record Balanced (s : ProdCons a) (p : Pc) (t : Turn a) : Type 0 where
    pub mutex_kept : t.next.mtx + holds t.pc ≡ s.mtx + holds p
    pub spaces_kept :
        t.next.huecos + t.next.cbuf.size + space_of t.pc ≡ s.huecos + s.cbuf.size + space_of p
    pub elements_kept :
        t.next.elementos + element_of t.pc + s.cbuf.size
        ≡ s.elementos + element_of p + t.next.cbuf.size
    pub strict : IsQueue t.next.cbuf
    pub capacity : t.next.cbuf.max_size ≡ s.cbuf.max_size
    pub moved : Queues (queued s.cbuf) t.effect (queued t.next.cbuf)

  new_item-Balanced :
      (n v : ℕ) (s : ProdCons a) {t : Turn a}
      → IsQueue s.cbuf
      → new_item a n v s ≡ some t
      → Balanced s idle t
  unfolding new_item
  new_item-Balanced n v s q e = elim (Option-cases ((a.vmalloc s.heap sizeof_int).0)) [
    | inl failed ↦ absurd (not_some (sym (rw (failed, new_item) refl) ∙ e))
    | inr (p, got) ↦
        subst (λ t. Balanced s idle t) (eq_of_some (rw (got, new_item) at e))
          (record {
            mutex_kept = refl;
            spaces_kept = refl;
            elements_kept = refl;
            strict = q;
            capacity = refl;
            moved = refl;
          })
  ]
    where
      not_some : {t : Turn a} → none ≡ some t → ⊥
      not_some h = cc

  write_entry-Balanced :
      (scan : List ℕ → ℕ × ℕ) (copied : Bool) (user : List ℕ) (s : ProdCons a) {t : Turn a}
      → IsQueue s.cbuf
      → write_entry a scan copied user s ≡ some t
      → Balanced s idle t
  unfolding write_entry
  write_entry-Balanced scan copied user s {t} q e =
      ground (arith, new_item-Balanced (length user) (scan (user ++ 0 ∷ [])).1 s {t = t} q)

  write_item-Balanced :
      (n p : ℕ) (s : ProdCons a) {t : Turn a}
      → IsQueue s.cbuf
      → s.cbuf.size < s.cbuf.max_size
      → write_item a n p s ≡ some t
      → Balanced s (writing n p) t
  unfolding write_item
  write_item-Balanced n p s q room e =
      let (c, runs, strict, same, held) = insert_room s.cbuf p q room in
      let grown = size-grown s.cbuf c p held in
      subst (λ t. Balanced s (writing n p) t) (eq_of_some (rw (runs, write_item) at e))
        (record {
          mutex_kept = omega arith;
          spaces_kept = omega (arith, grown);
          elements_kept = omega (arith, grown);
          strict = strict;
          capacity = same;
          moved = held;
        })

  read_item-Balanced :
      (s : ProdCons a) {t : Turn a}
      → IsQueue s.cbuf
      → 0 < s.cbuf.size
      → read_item a s ≡ some t
      → Balanced s reading t
  unfolding read_item
  read_item-Balanced s q some_size e =
      let (x, c, gives, runs, strict, same, held) = remove_some s.cbuf q some_size in
      let shrunk = size-shrunk s.cbuf c x held in
      subst (λ t. Balanced s reading t) (eq_of_some (rw (gives, runs, read_item) at e))
        (record {
          mutex_kept = omega arith;
          spaces_kept = omega (arith, shrunk);
          elements_kept = omega (arith, shrunk);
          strict = strict;
          capacity = same;
          moved = held;
        })

  pub Move-Balanced :
      {scan : List ℕ → ℕ × ℕ} {s : ProdCons a} {p : Pc} {t : Turn a}
      → IsQueue s.cbuf
      → Ready s.cbuf p
      → Move a scan s p t
      → Balanced s p t
  unfolding write_undone write_backed_out write_end read_entry read_backed_out read_counted read_end
  Move-Balanced {scan} {s} q ready (Move.start_write copied user e) =
      write_entry-Balanced scan copied user s q e
  Move-Balanced q ready (Move.take_hueco m e) = ground arith
  Move-Balanced q ready Move.hueco_interrupted = ground arith
  Move-Balanced q ready (Move.lock_write m e) = ground arith
  Move-Balanced q ready Move.lock_write_interrupted = ground arith
  Move-Balanced {s = s} q ready (Move.insert {n} {p} e) = write_item-Balanced n p s q ready e
  Move-Balanced q ready Move.count_element = ground arith
  Move-Balanced q ready (Move.start_read offset) = ground arith
  Move-Balanced q ready (Move.take_element m e) = ground arith
  Move-Balanced q ready Move.element_interrupted = ground arith
  Move-Balanced q ready (Move.lock_read m e) = ground arith
  Move-Balanced q ready Move.lock_read_interrupted = ground arith
  Move-Balanced {s = s} q ready (Move.remove_item e) = read_item-Balanced s q ready e
  Move-Balanced q ready Move.count_hueco = ground arith
  Move-Balanced q ready (Move.print e) = ground arith

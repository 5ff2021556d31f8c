-- ===== src/ProdCons1/Safety.antt =====
-- What holds in every reachable state of prodcons1.c, whatever the scheduler and the signals do.
use dso_fifo.Prelude.{
  ℕ, ◌+◌, ◌≡◌, ◌≢◌, refl, ap, ◌∙◌, List, [], ◌∷◌, ◌++◌, length, some, none, arith, get_elem?,
  replicate, total, total-set, total-replicate, le-total, le-total_two,
}
use dso_fifo.Allocator.{Allocator}
use dso_fifo.ItemBuffer.Single.{IsQueue, queued, length-queued, insert_room, remove_some}
use dso_fifo.ProdCons1.{
  ProdCons, Turn, Pc, idle, filling, entering_write, writing, written, emptying, entering_read,
  reading, taken, printing, gave, took, write_item, read_item, max_items_cbuf,
}
use dso_fifo.ProdCons1.Moves.{System, Step, pick, Run, here, next}
use dso_fifo.ProdCons1.Balance.{holds, space_of, element_of, Ready, Move-Balanced}

-- the globals as `init_prodcons_module` leaves them, with an empty buffer
pub record IsLoaded {a : Allocator} (s : ProdCons a) : Type 0 where
  pub queue : IsQueue s.cbuf
  pub capacity : s.cbuf.max_size ≡ max_items_cbuf
  pub empty : queued s.cbuf ≡ []
  pub no_elements : s.elementos ≡ 0
  pub all_spaces : s.huecos ≡ max_items_cbuf
  pub unlocked : s.mtx ≡ 1

module _ {a : Allocator} {scan : List ℕ → ℕ × ℕ} where
  pub record Inv (s : System a scan) : Type 0 where
    pub lock : s.state.mtx + total holds s.pcs ≡ 1
    pub spaces : s.state.huecos + s.state.cbuf.size + total space_of s.pcs ≡ max_items_cbuf
    pub elements : s.state.elementos + total element_of s.pcs ≡ s.state.cbuf.size
    pub queue : IsQueue s.state.cbuf
    pub capacity : s.state.cbuf.max_size ≡ max_items_cbuf

  -- the module just loaded, with processes outside any call
  pub record IsStart (s : System a scan) : Type 0 where
    pub loaded : IsLoaded s.state
    pub processes : ℕ
    pub outside : s.pcs ≡ replicate processes idle

  pub total-start : (w : Pc → ℕ) {s : System a scan} → IsStart s → w idle ≡ 0 → total w s.pcs ≡ 0
  total-start w f e = ap (total w) f.outside ∙ total-replicate w idle f.processes e

  Inv-start : {s : System a scan} → IsStart s → Inv s
  Inv-start {s} f = omega (
    arith,
    f.loaded,
    ap length f.loaded.empty,
    length-queued s.state.cbuf,
    total-start holds f refl,
    total-start space_of f refl,
    total-start element_of f refl,
  )

  -- What a process with the mutex relies on holds where the accounts do.
  pub Inv-Ready :
      {s : System a scan} (i : ℕ) (p : Pc)
      → Inv s
      → get_elem? s.pcs i ≡ some p
      → Ready s.state.cbuf p
  Inv-Ready {s} i (writing n p) v at =
      omega (arith, v.spaces, v.capacity, le-total space_of s.pcs i (writing n p) at)
  Inv-Ready {s} i reading v at = omega (arith, v.elements, le-total element_of s.pcs i reading at)
  Inv-Ready i idle v at = tt
  Inv-Ready i (filling n p) v at = tt
  Inv-Ready i (entering_write n p) v at = tt
  Inv-Ready i (written n) v at = tt
  Inv-Ready i emptying v at = tt
  Inv-Ready i entering_read v at = tt
  Inv-Ready i (taken p) v at = tt
  Inv-Ready i (printing p) v at = tt

  pub Step-Inv : {s u : System a scan} {t : Turn a} → Step a scan s t u → Inv s → Inv u
  Step-Inv {s} (pick i {p} {t} at mv) v =
      let b = Move-Balanced a v.queue (Inv-Ready i p v at) mv in
      record {
        lock = omega (arith, v.lock, b.mutex_kept, total-set holds s.pcs i p t.pc at);
        spaces = omega (arith, v.spaces, b.spaces_kept, total-set space_of s.pcs i p t.pc at);
        elements =
            omega (arith, v.elements, b.elements_kept, total-set element_of s.pcs i p t.pc at);
        queue = b.strict;
        capacity = b.capacity ∙ v.capacity;
      }

  pub Run-Inv : {s u : System a scan} → Run a scan s u → Inv s → Inv u
  Run-Inv here v = v
  Run-Inv (next r st) v = Step-Inv st (Run-Inv r v)

  pub reached-Inv : {s u : System a scan} → IsStart s → Run a scan s u → Inv u
  reached-Inv f r = Run-Inv r (Inv-start f)

  -- In every state reached from the module just loaded the five spaces of the buffer are accounted
  -- for: those that `huecos` counts, those with an item, those that a writer has taken and not
  -- filled, and those that a reader has emptied and not given back. And the items in the buffer
  -- are those that `elementos` counts, those that a writer has not yet counted, and those that a
  -- reader has claimed.
  pub spaces_and_elements :
      {first s : System a scan}
      → IsStart first
      → Run a scan first s
      → (s.state.huecos + s.state.cbuf.size + total space_of s.pcs ≡ max_items_cbuf)
        × (s.state.elementos + total element_of s.pcs ≡ s.state.cbuf.size)
  spaces_and_elements f r = ((reached-Inv f r).spaces, (reached-Inv f r).elements)

  -- Two different processes never hold `mtx` at once, and while one holds it its count is 0.
  pub one_holder :
      {first s : System a scan} {p q : Pc}
      → IsStart first
      → Run a scan first s
      → (i j : ℕ) → get_elem? s.pcs i ≡ some p
      → get_elem? s.pcs j ≡ some q
      → i ≢ j
      → holds p ≡ 1
      → (s.state.mtx ≡ 0) × (holds q ≡ 0)
  one_holder {s = s} {p} {q} f r i j hi hj ne h =
      omega (arith, (reached-Inv f r).lock, le-total_two holds s.pcs i j p q hi hj ne)

  -- A writer that holds `mtx` finds room: its step does not fault, and puts the item behind all items
  -- of the buffer, of which none is overwritten.
  pub writer_finds_room :
      {first s : System a scan} {n p : ℕ}
      → IsStart first
      → Run a scan first s
      → (i : ℕ) → get_elem? s.pcs i ≡ some (writing n p)
      → (t : Turn a) × (write_item a n p s.state ≡ some t)
        × (t.pc ≡ written n)
        × (queued t.next.cbuf ≡ queued s.state.cbuf ++ p ∷ [])
  unfolding write_item
  writer_finds_room {s = s} {n} {p} f r i at =
      let v = reached-Inv f r in
      let (c, runs, strict, same, held) =
        insert_room s.state.cbuf p v.queue (Inv-Ready i (writing n p) v at) in
      (
        record {
          next = record (s.state) { cbuf = c; mtx = s.state.mtx + 1 };
          pc = written n;
          effect = gave p;
          reply = none;
        },
        rw (runs, write_item) refl,
        refl,
        held,
      )

  -- A reader that holds `mtx` finds an item: its step does not fault, and takes the oldest item of
  -- the buffer out.
  pub reader_finds_item :
      {first s : System a scan}
      → IsStart first
      → Run a scan first s
      → (i : ℕ) → get_elem? s.pcs i ≡ some reading
      → (t : Turn a) × (p : ℕ) × (read_item a s.state ≡ some t)
        × (t.pc ≡ taken p)
        × (queued s.state.cbuf ≡ p ∷ queued t.next.cbuf)
  unfolding read_item
  reader_finds_item {s = s} f r i at =
      let v = reached-Inv f r in
      let (p, c, gives, runs, strict, same, held) =
        remove_some s.state.cbuf v.queue (Inv-Ready i reading v at) in
      (
        record {
          next = record (s.state) { cbuf = c; mtx = s.state.mtx + 1 };
          pc = taken p;
          effect = took p;
          reply = none;
        },
        p,
        rw (gives, runs, read_item) refl,
        refl,
        held,
      )

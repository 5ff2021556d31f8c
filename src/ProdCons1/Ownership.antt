-- ===== src/ProdCons1/Ownership.antt =====
-- In every run of prodcons1.c each item belongs to one process, or to the buffer, or is lost.
use dso_fifo.Prelude.{
  ℕ, ◌+◌, ◌≤◌, ◌≡◌, ◌≢◌, inl, inr, refl, ap, ◌∙◌, Bool-cases, List, some, arith, get_elem?, set,
  ◌==◌, if◌then◌else◌, total, total-set, le-total, le-total_two,
}
use dso_fifo.Allocator.{Allocator, IsClean, count}
use dso_fifo.ItemBuffer.Single.{queued}
use dso_fifo.ProdCons1.{
  Turn, Pc, idle, entering_write, printing, printed, write_backed_out, read_end, replies,
}
use dso_fifo.ProdCons1.Moves.{Move, System, Step, pick, Run, here, next}
use dso_fifo.ProdCons1.Balance.{Move-Balanced}
use dso_fifo.ProdCons1.Safety.{IsStart, total-start, Inv, Inv-Ready, Step-Inv, reached-Inv}
use dso_fifo.ProdCons1.Memory.{carries, Has, Kept, Move-Kept}

module _ {a : Allocator} {scan : List ℕ → ℕ × ℕ} where
  open a use {owned}

  -- the processes that have the item at `q` in their hands, and the places in the buffer with it
  abbrev pub places : ℕ → System a scan → ℕ
  places q s = count q (queued s.state.cbuf) + total (carries q) s.pcs

  pub record Owns (s : System a scan) : Type 0 where
    pub inv : Inv s
    pub clean : IsClean a s.state.heap
    pub used : (q : ℕ) → places q s ≤ count q (owned s.state.heap)

  Owns-Has :
      {s : System a scan} (q i : ℕ) (p : Pc) → Owns s → get_elem? s.pcs i ≡ some p → Has q s.state p
  Owns-Has {s} q i p o at = record {
    once = o.clean.once q;
    not_null = λ z. ap (λ r. count r (owned s.state.heap)) z ∙ o.clean.not_null;
    mine = λ r. omega (arith, o.used r, le-total (carries r) s.pcs i p at);
  }

  pub Step-Kept :
      {s : System a scan} {t : Turn a} (q i : ℕ) (p : Pc)
      → Owns s
      → get_elem? s.pcs i ≡ some p
      → Move a scan s.state p t
      → Kept q s.state p t
  Step-Kept q i p o at mv =
      Move-Kept q (Owns-Has q i p o at) (Move-Balanced a o.inv.queue (Inv-Ready i p o.inv at) mv) mv

  Step-Owns : {s u : System a scan} {t : Turn a} → Step a scan s t u → Owns s → Owns u
  Step-Owns {s} (pick i {p} {t} at mv) o = record {
    inv = Step-Inv (pick i at mv) o.inv;
    clean = record {
      once = λ q. (Step-Kept q i p o at mv).single;
      not_null = (Step-Kept 0 i p o at mv).null refl;
    };
    used = λ q.
        omega (
          arith,
          o.used q,
          (Step-Kept q i p o at mv).used,
          total-set (carries q) s.pcs i p t.pc at,
        );
  }

  pub Run-Owns : {s u : System a scan} → Run a scan s u → Owns s → Owns u
  Run-Owns here o = o
  Run-Owns (next r st) o = Step-Owns st (Run-Owns r o)

  pub Owns-start : {s : System a scan} → IsStart s → IsClean a s.state.heap → Owns s
  Owns-start {s} f c = record {
    inv = reached-Inv f here;
    clean = c;
    used = λ q. omega (arith, total-start (carries q) f refl, ap (count q) f.loaded.empty);
  }

  -- In every state reached from the module just loaded, on a heap that has no block twice and none
  -- at NULL, an item that a process has in its hands is an allocated block, which is neither in
  -- the buffer nor in the hands of another process.
  pub item_in_one_place :
      {first s : System a scan} {p p' : Pc}
      → IsStart first
      → IsClean a first.state.heap
      → Run a scan first s
      → (q i j : ℕ) → get_elem? s.pcs i ≡ some p
      → get_elem? s.pcs j ≡ some p'
      → i ≢ j
      → carries q p ≡ 1
      → (count q (owned s.state.heap) ≡ 1)
        × (count q (queued s.state.cbuf) ≡ 0)
        × (carries q p' ≡ 0)
  item_in_one_place {s = s} {p} {p'} f c r q i j hi hj ne mine =
      let o = Run-Owns r (Owns-start f c) in
      omega (arith, o.used q, o.clean.once q, le-total_two (carries q) s.pcs i j p p' hi hj ne)

  -- No step changes the integer of an item that is in the buffer or in the hands of a process.
  pub items_keep_their_value :
      {first s u : System a scan} {t : Turn a}
      → IsStart first
      → IsClean a first.state.heap
      → Run a scan first s
      → Step a scan s t u
      → (q : ℕ) → 1 ≤ places q s
      → u.state.cell q ≡ s.state.cell q
  items_keep_their_value {s = s} f c r (pick i {p} at mv) q h =
      let o = Run-Owns r (Owns-start f c) in
      (Step-Kept q i p o at mv).stable (omega (arith, o.used q))

  -- A reader prints the integer of its item: it is not at NULL.
  pub read_end_lem :
      {first s : System a scan} {p : ℕ}
      → IsStart first
      → IsClean a first.state.heap
      → Run a scan first s
      → (i : ℕ) → get_elem? s.pcs i ≡ some (printing p)
      → (t : Turn a) × (read_end a p s.state ≡ some t)
        × (t.reply ≡ some (printed (s.state.cell p)))
        × (t.next.heap ≡ a.vfree s.state.heap p)
  unfolding read_end
  read_end_lem {s = s} {p} f c r i at = elim (Bool-cases (p == 0)) [
    | inl null ↦
        let o = Run-Owns r (Owns-start f c) in
        absurd
          (ground (arith, le-total (carries 0) s.pcs i (printing p) at, o.used 0, o.clean.not_null))
    | inr item ↦ (
      replies a (record (s.state) { heap = a.vfree s.state.heap p }) (printed (s.state.cell p)),
      rw (item, if◌then◌else◌) refl,
      refl,
      refl,
    )
  ]

  -- the item at `q` is allocated, and nobody can reach it
  pub record IsLost (q : ℕ) (s : System a scan) : Type 0 where
    pub allocated : count q (owned s.state.heap) ≡ 1
    pub nowhere : places q s ≡ 0

  Step-IsLost :
      {s u : System a scan} {t : Turn a} (q : ℕ)
      → Step a scan s t u
      → Owns s
      → IsLost q s
      → IsLost q u
  Step-IsLost {s} q (pick i {p} {t} at mv) o lost =
      let k = Step-Kept q i p o at mv in
      let few = le-total (carries q) s.pcs i p at in
      record {
        allocated = omega (arith, k.used, k.single, lost.allocated, lost.nowhere, few);
        nowhere = omega (
          arith,
          k.used,
          k.single,
          lost.allocated,
          lost.nowhere,
          few,
          total-set (carries q) s.pcs i p t.pc at,
        );
      }

  Run-IsLost : {s u : System a scan} (q : ℕ) → Run a scan s u → Owns s → IsLost q s → IsLost q u
  Run-IsLost q here o lost = lost
  Run-IsLost q (next r st) o lost = Step-IsLost q st (Run-Owns r o) (Run-IsLost q r o lost)

  -- From the module just loaded, on a heap that has no block twice and none at NULL: a writer that
  -- a signal interrupts while it waits for `mtx` loses its item. The block stays allocated in all
  -- that follows, and neither the buffer nor any process has its address.
  pub interrupted_write_loses_item :
      {first s u : System a scan} {n p : ℕ}
      → IsStart first
      → IsClean a first.state.heap
      → Run a scan first s
      → (i : ℕ) → get_elem? s.pcs i ≡ some (entering_write n p)
      → Run a scan (record { state = write_backed_out a s.state; pcs = set s.pcs i idle }) u
      → (count p (owned u.state.heap) ≡ 1) × (places p u ≡ 0)
  unfolding write_backed_out
  interrupted_write_loses_item {s = s} {n = n} {p} f c r i at later =
      let o = Run-Owns r (Owns-start f c) in
      let mine : carries p (entering_write n p) ≡ 1 = ground arith in
      let st = pick i at Move.lock_write_interrupted in
      let lost = Run-IsLost p later (Step-Owns st o) (record {
        allocated = omega (
          arith,
          o.used p,
          o.clean.once p,
          mine,
          le-total (carries p) s.pcs i (entering_write n p) at,
        );
        nowhere = omega (
          arith,
          o.used p,
          o.clean.once p,
          mine,
          total-set (carries p) s.pcs i (entering_write n p) idle at,
        );
      }) in
      (lost.allocated, lost.nowhere)

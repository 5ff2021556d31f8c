-- ===== src/ProdCons2.antt =====
-- FicherosP3/Ejemplos/ProdCons2/prodcons2.c: /proc/prodcons as a bounded buffer of integers, guarded
-- by one mutex and two queues of waiting processes with their counts. This file has its state, the
-- points where a process can stand inside a call, and what a call does while it has `mtx`.
pub mod Moves
pub mod Balance
pub mod Safety
pub mod Wakeups
pub mod Sleepers
pub mod Module
use dso_fifo.Prelude.{
  ℕ, ◌+◌, Bool, true, false, Option, none, some, List, [], ◌∷◌, ◌++◌, ltb, ◌==◌, if◌then◌else◌,
  ◌>>=◌, length, not, add32, sub32, lt_int,
}
use dso_fifo.Allocator.{Allocator}
use dso_fifo.ItemBuffer.{ItemBuffer, is_full_cbuffer_t, size_cbuffer_t}
use dso_fifo.ItemBuffer

abbrev pub max_items_cbuf : ℕ
max_items_cbuf = 5

abbrev pub max_chars_kbuf : ℕ
max_chars_kbuf = 10

-- `sizeof(int)` on 32-bit x86
abbrev pub sizeof_int : ℕ
sizeof_int = 4

pub data Errno : Type 0 where
  enospc efault einval eintr enomem : Errno

-- `wrote` is the result `longitud`; `printed` is the text "%i\n" of an integer, of which `sprintf`
-- gives the length.
pub data Reply : Type 0 where
  wrote : ℕ → Reply
  printed : ℕ → Reply
  at_end : Reply
  error : Errno → Reply

-- a call with what is live in it: `longitud` and the address `item` of a write
pub data Call : Type 0 where
  write_call : ℕ → ℕ → Call
  read_call : Call

pub data Pc : Type 0 where
  idle : Pc
  entering : Call → Pc  -- at the first `down_interruptible(&mtx)`
  running : Call → Pc  -- has `mtx`, at the test of the loop
  asleep : Call → Pc  -- at `down_interruptible` of the queue
  woken : Call → Pc  -- at the second `down_interruptible(&mtx)`
  hit : Call → Pc  -- interrupted in the queue, at `down(&mtx)`
  leaving : Call → Pc  -- has `mtx`, before the decrement of the count
  printing : ℕ → Pc  -- at `sprintf`

-- What a step does to the queue of items.
pub data Effect : Type 0 where
  no_effect : Effect
  gave : ℕ → Effect
  took : ℕ → Effect

module _ (a : Allocator) where
  open a use {Heap, vmalloc, vfree}

  -- The globals, the counts as 32-bit patterns, a semaphore as its count; the `int` at each address;
  -- the heap.
  pub record ProdCons : Type 0 where
    pub cbuf : ItemBuffer
    pub prod_queue : ℕ
    pub cons_queue : ℕ
    pub mtx : ℕ
    pub nr_prod_waiting : ℕ
    pub nr_cons_waiting : ℕ
    pub cell : ℕ → ℕ
    pub heap : Heap

  pub record Turn : Type 0 where
    pub next : ProdCons
    pub pc : Pc
    pub effect : Effect
    pub reply : Option Reply

  abbrev pub quiet : ProdCons → Pc → Turn
  quiet s p = record { next = s; pc = p; effect = no_effect; reply = none }

  abbrev pub replies : ProdCons → Reply → Turn
  replies s r = record { next = s; pc = idle; effect = no_effect; reply = some r }

  -- `item=vmalloc(sizeof(int)); (*item)=val;`, a fault where there is no memory
  unfoldable pub new_item : ℕ → ℕ → ProdCons → Option Turn
  new_item longitud val s =
      let got = vmalloc s.heap sizeof_int in
      elim (got.0) [
        | none ↦ none
        | some p ↦ some (
            quiet (record s { cell = λ q. if q == p then val else s.cell q; heap = got.1 })
              (entering (write_call longitud p)))
      ]

  -- `prodcons_write` before its first semaphore, on the user's bytes. `copied` is the success of
  -- `copy_from_user`, and `scan` is `sscanf` with "%i" on the text: its result, and `val` after it.
  unfoldable pub write_entry : (List ℕ → ℕ × ℕ) → Bool → List ℕ → ProdCons → Option Turn
  write_entry scan copied user s =
      if ltb max_chars_kbuf (length user)
      then some (replies s (error enospc))
      else if not copied
      then some (replies s (error efault))
      else if not ((scan (user ++ 0 ∷ [])).0 == 1)
      then some (replies s (error einval))
      else new_item (length user) ((scan (user ++ 0 ∷ [])).1) s

  -- `nr_prod_waiting++; up(&mtx);` or `nr_cons_waiting++; up(&mtx);`
  unfoldable pub wait : Call → ProdCons → Turn
  wait (write_call n p) s =
      quiet (record s { nr_prod_waiting = add32 s.nr_prod_waiting 1; mtx = s.mtx + 1 })
        (asleep (write_call n p))
  wait read_call s =
      quiet (record s { nr_cons_waiting = add32 s.nr_cons_waiting 1; mtx = s.mtx + 1 })
        (asleep read_call)

  -- `nr_prod_waiting--; up(&mtx);` or `nr_cons_waiting--; up(&mtx);` after an interrupt in the queue
  unfoldable pub stop_waiting : Call → ProdCons → ProdCons
  stop_waiting (write_call n p) s = record s {
    nr_prod_waiting = sub32 s.nr_prod_waiting 1;
    mtx = s.mtx + 1;
  }
  stop_waiting read_call s = record s {
    nr_cons_waiting = sub32 s.nr_cons_waiting 1;
    mtx = s.mtx + 1;
  }

  -- `if (nr_cons_waiting>0) { up(&cons_queue); nr_cons_waiting--; }`
  unfoldable pub wake_cons : ProdCons → ProdCons
  wake_cons s =
      if lt_int 0 s.nr_cons_waiting
      then record s { cons_queue = s.cons_queue + 1; nr_cons_waiting = sub32 s.nr_cons_waiting 1 }
      else s

  -- `if (nr_prod_waiting>0) { up(&prod_queue); nr_prod_waiting--; }`
  unfoldable pub wake_prod : ProdCons → ProdCons
  wake_prod s =
      if lt_int 0 s.nr_prod_waiting
      then record s { prod_queue = s.prod_queue + 1; nr_prod_waiting = sub32 s.nr_prod_waiting 1 }
      else s

  abbrev pub up_mtx : ProdCons → ProdCons
  up_mtx s = record s { mtx = s.mtx + 1 }

  -- `prodcons_write` from the test of its loop on
  unfoldable pub write_test : ℕ → ℕ → ProdCons → Option Turn
  write_test longitud item s =
      if is_full_cbuffer_t s.cbuf then some (wait (write_call longitud item) s) else (do
        b ← ItemBuffer.insert_cbuffer_t s.cbuf item
        some (record {
          next = up_mtx (wake_cons (record s { cbuf = b }));
          pc = idle;
          effect = gave item;
          reply = some (wrote longitud);
        }))

  -- `prodcons_read` before its first semaphore
  unfoldable pub read_entry : ℕ → ProdCons → Turn
  read_entry offset s = if ltb 0 offset then replies s at_end else quiet s (entering read_call)

  -- `prodcons_read` from the test of its loop on, up to `up(&mtx)`
  unfoldable pub read_test : ProdCons → Option Turn
  read_test s = if size_cbuffer_t s.cbuf == 0 then some (wait read_call s) else (do
    item ← ItemBuffer.head_cbuffer_t s.cbuf
    b ← ItemBuffer.remove_cbuffer_t s.cbuf
    some (record {
      next = up_mtx (wake_prod (record s { cbuf = b }));
      pc = printing item;
      effect = took item;
      reply = none;
    }))

  -- a call while it has `mtx`
  unfoldable pub run_test : Call → ProdCons → Option Turn
  run_test (write_call n p) s = write_test n p s
  run_test read_call s = read_test s

  -- `sprintf(buffer,"%i\n",*item); vfree(item);`, a fault at NULL
  unfoldable pub read_end : ℕ → ProdCons → Option Turn
  read_end item s =
      if item == 0
      then none
      else some (replies (record s { heap = vfree s.heap item }) (printed (s.cell item)))

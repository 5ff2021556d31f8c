-- ===== src/ProdCons1.antt =====
-- FicherosP3/Ejemplos/ProdCons1/prodcons1.c: /proc/prodcons as a bounded buffer of integers, guarded
-- by two counting semaphores. This file has its state, the points where a process can stand inside a
-- call, and what a call does from one semaphore operation to the next.
pub mod Moves
pub mod Balance
pub mod Safety
pub mod Memory
pub mod Effects
pub mod Ownership
pub mod Values
pub mod Module
use dso_fifo.Prelude.{
  ℕ, ◌+◌, Bool, true, false, Option, none, some, List, [], ◌∷◌, ◌++◌, ltb, ◌==◌, if◌then◌else◌,
  ◌>>=◌, length, not,
}
use dso_fifo.Allocator.{Allocator}
use dso_fifo.ItemBuffer.{ItemBuffer}
use dso_fifo.ItemBuffer

abbrev pub max_items_cbuf : ℕ
max_items_cbuf = 5

abbrev pub max_chars_kbuf : ℕ
max_chars_kbuf = 10

-- `sizeof(int)` on 32-bit x86
abbrev pub sizeof_int : ℕ
sizeof_int = 4

pub data Errno : Type 0 where
  enospc efault einval eintr enomem : Errno

-- `wrote` is the result `longitud`; `printed` is the text "%i\n" of an integer, of which `sprintf`
-- gives the length.
pub data Reply : Type 0 where
  wrote : ℕ → Reply
  printed : ℕ → Reply
  at_end : Reply
  error : Errno → Reply

-- Where a process stands: `longitud` and the address `item` of a write, `item` of a read.
pub data Pc : Type 0 where
  idle : Pc
  filling : ℕ → ℕ → Pc  -- at `down_interruptible(&huecos)`
  entering_write : ℕ → ℕ → Pc  -- at `down_interruptible(&mtx)`
  writing : ℕ → ℕ → Pc  -- has `mtx`
  written : ℕ → Pc  -- at `up(&elementos)`
  emptying : Pc  -- at `down_interruptible(&elementos)`
  entering_read : Pc  -- at `down_interruptible(&mtx)`
  reading : Pc  -- has `mtx`
  taken : ℕ → Pc  -- at `up(&huecos)`
  printing : ℕ → Pc  -- at `sprintf`

-- What a step does to the queue of items.
pub data Effect : Type 0 where
  no_effect : Effect
  gave : ℕ → Effect
  took : ℕ → Effect

module _ (a : Allocator) where
  open a use {Heap, vmalloc, vfree}

  -- The globals, a semaphore as its count; the `int` at each address; the heap.
  pub record ProdCons : Type 0 where
    pub cbuf : ItemBuffer
    pub elementos : ℕ
    pub huecos : ℕ
    pub mtx : ℕ
    pub cell : ℕ → ℕ
    pub heap : Heap

  pub record Turn : Type 0 where
    pub next : ProdCons
    pub pc : Pc
    pub effect : Effect
    pub reply : Option Reply

  abbrev pub quiet : ProdCons → Pc → Turn
  quiet s p = record { next = s; pc = p; effect = no_effect; reply = none }

  abbrev pub replies : ProdCons → Reply → Turn
  replies s r = record { next = s; pc = idle; effect = no_effect; reply = some r }

  -- `item=vmalloc(sizeof(int)); (*item)=val;`, a fault where there is no memory
  unfoldable pub new_item : ℕ → ℕ → ProdCons → Option Turn
  new_item longitud val s =
      let got = vmalloc s.heap sizeof_int in
      elim (got.0) [
        | none ↦ none
        | some p ↦ some (
            quiet (record s { cell = λ q. if q == p then val else s.cell q; heap = got.1 })
              (filling longitud p))
      ]

  -- `prodcons_write` before its first semaphore, on the user's bytes. `copied` is the success of
  -- `copy_from_user`, and `scan` is `sscanf` with "%i" on the text: its result, and `val` after it.
  unfoldable pub write_entry : (List ℕ → ℕ × ℕ) → Bool → List ℕ → ProdCons → Option Turn
  write_entry scan copied user s =
      if ltb max_chars_kbuf (length user)
      then some (replies s (error enospc))
      else if not copied
      then some (replies s (error efault))
      else if not ((scan (user ++ 0 ∷ [])).0 == 1)
      then some (replies s (error einval))
      else new_item (length user) ((scan (user ++ 0 ∷ [])).1) s

  -- interrupted at `huecos`
  unfoldable pub write_undone : ℕ → ProdCons → ProdCons
  write_undone item s = record s { heap = vfree s.heap item }

  -- interrupted at `mtx`
  unfoldable pub write_backed_out : ProdCons → ProdCons
  write_backed_out s = record s { huecos = s.huecos + 1 }

  -- `insert_cbuffer_t(cbuf,item); up(&mtx);`
  unfoldable pub write_item : ℕ → ℕ → ProdCons → Option Turn
  write_item longitud item s = do
    b ← ItemBuffer.insert_cbuffer_t s.cbuf item
    some (record {
      next = record s { cbuf = b; mtx = s.mtx + 1 };
      pc = written longitud;
      effect = gave item;
      reply = none;
    })

  -- `up(&elementos); return longitud;`
  unfoldable pub write_end : ℕ → ProdCons → Turn
  write_end longitud s = replies (record s { elementos = s.elementos + 1 }) (wrote longitud)

  -- `prodcons_read` before its first semaphore
  unfoldable pub read_entry : ℕ → ProdCons → Turn
  read_entry offset s = if ltb 0 offset then replies s at_end else quiet s emptying

  -- interrupted at `mtx`
  unfoldable pub read_backed_out : ProdCons → ProdCons
  read_backed_out s = record s { elementos = s.elementos + 1 }

  -- `item=head_cbuffer_t(cbuf); remove_cbuffer_t(cbuf); up(&mtx);`
  unfoldable pub read_item : ProdCons → Option Turn
  read_item s = do
    item ← ItemBuffer.head_cbuffer_t s.cbuf
    b ← ItemBuffer.remove_cbuffer_t s.cbuf
    some (record {
      next = record s { cbuf = b; mtx = s.mtx + 1 };
      pc = taken item;
      effect = took item;
      reply = none;
    })

  -- `up(&huecos);`
  unfoldable pub read_counted : ℕ → ProdCons → Turn
  read_counted item s = quiet (record s { huecos = s.huecos + 1 }) (printing item)

  -- `sprintf(buffer,"%i\n",*item); vfree(item);`, a fault at NULL
  unfoldable pub read_end : ℕ → ProdCons → Option Turn
  read_end item s =
      if item == 0
      then none
      else some (replies (record s { heap = vfree s.heap item }) (printed (s.cell item)))

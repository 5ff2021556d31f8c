-- ===== src/Fifo.antt =====
-- parteB/fifo.c: the FIFO device. This file has its state, the points where a process can stand
-- inside a call, and what each call does while it holds `mutex`, from one semaphore operation to
-- the next. `Fifo/Moves.antt` puts these together into the steps of a process.
pub mod Wake
pub mod Moves
pub mod System
pub mod Balance
pub mod Pipe
pub mod Safety
pub mod History
pub mod Progress
pub mod Calls
pub mod Races
pub mod Device
use dso_fifo.Prelude.{
  ℕ, zero, suc, ◌+◌, ◌-◌, Bool, true, false, ◌&&◌, ◌||◌, not, Option, none, some, List, ltb, ◌==◌,
  if◌then◌else◌, ◌>>=◌, add32, sub32, lt_int, length, take,
}
use dso_fifo.Cbuffer.{
  Cbuffer, size_cbuffer_t, nr_gaps_cbuffer_t, is_empty_cbuffer_t, insert_items_cbuffer_t,
  remove_items_cbuffer_t,
}

abbrev pub buf_len : ℕ
buf_len = 512

-- The globals of fifo.c. The counters are `int`s, as 32-bit patterns; a semaphore is its count.
pub record Fifo : Type 0 where
  pub cbuffer : Cbuffer
  pub num_prod : ℕ
  pub num_cons : ℕ
  pub num_bloq_prod : ℕ
  pub num_bloq_cons : ℕ
  pub mutex : ℕ
  pub cola_prod : ℕ
  pub cola_cons : ℕ

-- `is_cons` of `fifo_open`, and `file->f_mode & FMODE_READ` of `fifo_release`
pub data Role : Type 0 where
  consumer producer : Role

pub data Errno : Type 0 where
  einval enomem eintr epipe : Errno

pub data Reply : Type 0 where
  value : ℕ → Reply
  error : Errno → Reply

-- A call with the locals that are live in it: `length` of a read; of a write the bytes of `kbuff`
-- that `copy_from_user` has filled.
pub data Call : Type 0 where
  open_call : Call
  read_call : ℕ → Call
  write_call : List ℕ → Call

-- Where a process stands with one open file.
pub data Pc : Type 0 where
  closed : Pc
  opened : Role → Pc
  locking : Role → Call → Pc  -- at `down_interruptible(&mutex)`
  entered : Role → Call → Pc  -- has the mutex for the first time in the call
  asleep : Role → Call → Pc  -- at `down_interruptible(cond)` of `cond_wait`
  woken : Role → Call → Pc  -- at `down_interruptible(mtx)` of `cond_wait`
  resumed : Role → Call → Pc  -- has the mutex after `cond_wait`
  hit : Role → Call → Pc  -- interrupted in the queue, at `down(mtx)`
  uncounting : Role → Call → Pc  -- has the mutex, before `count--`
  undoing : Role → Pc  -- at `down(&mutex)` of the handler of `fifo_open`
  undone : Role → Pc  -- has the mutex, before the handler's decrement
  closing : Role → Pc  -- at `down_interruptible(&mutex)` of `fifo_release`
  released : Role → Pc  -- has the mutex in `fifo_release`
  leaked : Role → Pc  -- `fifo_release` was interrupted: the file is gone and stays counted

-- What a step does to the bytes in the pipe.
pub data Effect : Type 0 where
  no_effect : Effect
  gave : List ℕ → Effect
  took : List ℕ → Effect
  reset : Effect

-- The outcome of a step: the new globals, where the process stands, the effect, and what the call
-- returns if it returns.
pub record Turn : Type 0 where
  pub fifo : Fifo
  pub pc : Pc
  pub effect : Effect
  pub reply : Option Reply

abbrev pub quiet : Fifo → Pc → Turn
quiet f p = record { fifo = f; pc = p; effect = no_effect; reply = none }

abbrev pub replies : Fifo → Pc → Reply → Turn
replies f p r = record { fifo = f; pc = p; effect = no_effect; reply = some r }

abbrev pub up_mutex : Fifo → Fifo
up_mutex f = record f { mutex = f.mutex + 1 }

-- `while (count) { count--; up(&cola); }`: the count and the semaphore after it
unfoldable pub wake : ℕ → ℕ → ℕ × ℕ
wake zero cola = (0, cola)
wake (suc count) cola = wake count (cola + 1)

unfoldable pub wake_prods : Fifo → Fifo
wake_prods f =
    let woke = wake f.num_bloq_prod f.cola_prod in
    record f { num_bloq_prod = woke.0; cola_prod = woke.1 }

unfoldable pub wake_conss : Fifo → Fifo
wake_conss f =
    let woke = wake f.num_bloq_cons f.cola_cons in
    record f { num_bloq_cons = woke.0; cola_cons = woke.1 }

-- the queue in which a call sleeps
abbrev pub waits_on : Role → Call → Role
waits_on r open_call = r
waits_on r (read_call n) = consumer
waits_on r (write_call bytes) = producer

-- `count++; up(mtx);` of `cond_wait`
unfoldable pub cond_wait : Role → Fifo → Fifo
cond_wait consumer f = up_mutex (record f { num_bloq_cons = add32 f.num_bloq_cons 1 })
cond_wait producer f = up_mutex (record f { num_bloq_prod = add32 f.num_bloq_prod 1 })

-- `count--; up(mtx);` of `cond_wait`, after an interrupt
unfoldable pub cond_interrupted : Role → Fifo → Fifo
cond_interrupted consumer f = up_mutex (record f { num_bloq_cons = sub32 f.num_bloq_cons 1 })
cond_interrupted producer f = up_mutex (record f { num_bloq_prod = sub32 f.num_bloq_prod 1 })

abbrev pub sleeps : Role → Call → Fifo → Turn
sleeps r c f = quiet (cond_wait (waits_on r c) f) (asleep r c)

-- the test of the loops of `fifo_open`, and its end
unfoldable pub open_test : Role → Fifo → Turn
open_test consumer f =
    if f.num_prod == 0
    then sleeps consumer open_call f
    else replies (up_mutex f) (opened consumer) (value 0)
open_test producer f =
    if f.num_cons == 0
    then sleeps producer open_call f
    else replies (up_mutex f) (opened producer) (value 0)

unfoldable pub fifo_open : Role → Fifo → Turn
fifo_open consumer f = open_test consumer (wake_prods (record f { num_cons = add32 f.num_cons 1 }))
fifo_open producer f = open_test producer (wake_conss (record f { num_prod = add32 f.num_prod 1 }))

-- the handler that `fifo_open` gives to `cond_wait`
unfoldable pub open_undo : Role → Fifo → Fifo
open_undo consumer f = up_mutex (record f { num_cons = sub32 f.num_cons 1 })
open_undo producer f = up_mutex (record f { num_prod = sub32 f.num_prod 1 })

-- the last `if` of `fifo_release`
unfoldable pub release_reset : Fifo → Turn
release_reset f =
    if not (f.num_prod == 0) || not (f.num_cons == 0)
    then replies (up_mutex f) closed (value 0)
    else record {
      fifo = up_mutex (record f { cbuffer = record (f.cbuffer) { size = 0 } });
      pc = closed;
      effect = reset;
      reply = some (value 0);
    }

unfoldable pub fifo_release : Role → Fifo → Turn
fifo_release consumer f =
    let g = record f { num_cons = sub32 f.num_cons 1 } in
    release_reset (if g.num_cons == 0 then wake_prods g else g)
fifo_release producer f = release_reset (record f { num_prod = sub32 f.num_prod 1 })

-- `fifo_read` before it takes the mutex; `alloc` is the success of `vmalloc`
unfoldable pub read_entry : Bool → Role → ℕ → Fifo → Turn
read_entry alloc r n f =
    if ltb buf_len n
    then replies f (opened r) (error einval)
    else if alloc
    then quiet f (locking r (read_call n))
    else replies f (opened r) (error enomem)

-- the loop test of `fifo_read` and what follows the loop; `left` is the result of `copy_to_user`
unfoldable pub read_test : ℕ → Role → ℕ → Fifo → Option Turn
read_test left r n f =
    if ltb (size_cbuffer_t f.cbuffer) n then some (sleeps r (read_call n) f) else (do
      got ← remove_items_cbuffer_t f.cbuffer n
      some (record {
        fifo = up_mutex (wake_prods (record f { cbuffer = got.1 }));
        pc = opened r;
        effect = took got.0;
        reply = some (value (n - left));
      }))

-- The test for the end of the pipe stands before the loop and again after each `cond_wait`.
unfoldable pub fifo_read : ℕ → Role → ℕ → Fifo → Option Turn
fifo_read left r n f =
    if f.num_prod == 0 && is_empty_cbuffer_t f.cbuffer
    then some (replies (up_mutex f) (opened r) (value 0))
    else read_test left r n f

-- `fifo_write` before it takes the mutex; `left` is the result of `copy_from_user`
unfoldable pub write_entry : Bool → ℕ → Role → List ℕ → Fifo → Turn
write_entry alloc left r user f =
    if ltb buf_len (length user)
    then replies f (opened r) (error einval)
    else if alloc
    then quiet f (locking r (write_call (take (length user - left) user)))
    else replies f (opened r) (error enomem)

-- `fifo_write` from the test of its loop on, where it goes on after `cond_wait`
unfoldable pub write_test : Role → List ℕ → Fifo → Option Turn
write_test r kbuff f =
    if lt_int 0 f.num_cons && ltb (nr_gaps_cbuffer_t f.cbuffer) (length kbuff)
    then some (sleeps r (write_call kbuff) f)
    else if f.num_cons == 0
    then some (replies (up_mutex f) (opened r) (error epipe))
    else (do
      b ← insert_items_cbuffer_t f.cbuffer kbuff (length kbuff)
      some (record {
        fifo = up_mutex (wake_conss (record f { cbuffer = b }));
        pc = opened r;
        effect = gave kbuff;
        reply = some (value (length kbuff));
      }))

unfoldable pub fifo_write : Role → List ℕ → Fifo → Option Turn
fifo_write r kbuff f =
    if f.num_cons == 0
    then some (replies (up_mutex f) (opened r) (error epipe))
    else write_test r kbuff f

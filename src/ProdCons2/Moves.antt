-- ===== src/ProdCons2/Moves.antt =====
-- The steps of a process in a call of prodcons2.c, and of any number of processes.
use dso_fifo.Prelude.{ℕ, suc, ◌≡◌, Bool, false, some, List, get_elem?, set}
use dso_fifo.Allocator.{Allocator}
use dso_fifo.ProdCons2.{
  ProdCons, Turn, Call, write_call, read_call, Pc, idle, entering, running, asleep, woken, hit,
  leaving, printing, error, eintr, quiet, replies, write_entry, stop_waiting, run_test, read_entry,
  read_end,
}

module _ (a : Allocator) where
  -- the semaphore in which a call sleeps
  abbrev pub queue_of : Call → ProdCons a → ℕ
  queue_of (write_call n p) s = s.prod_queue
  queue_of read_call s = s.cons_queue

  abbrev pub set_queue : Call → ℕ → ProdCons a → ProdCons a
  set_queue (write_call n p) q s = record s { prod_queue = q }
  set_queue read_call q s = record s { cons_queue = q }

module _ (a : Allocator) (scan : List ℕ → ℕ × ℕ) (patient : Bool) where
  -- `down` needs a token; `down_interruptible` may also return because of a signal. Where `patient`
  -- is true no signal comes between the wake-up of a process and its turn with `mtx`.
  pub data Move (s : ProdCons a) : Pc → Turn a → Type 0 where
    start_write :
        {t : Turn a} (copied : Bool) (user : List ℕ)
        → write_entry a scan copied user s ≡ some t
        → Move s idle t
    start_read : (offset : ℕ) → Move s idle (read_entry a offset s)
    lock :
        {c : Call} (m : ℕ)
        → s.mtx ≡ suc m
        → Move s (entering c) (quiet a (record s { mtx = m }) (running c))
    lock_interrupted : {c : Call} → Move s (entering c) (replies a s (error eintr))
    run_running : {c : Call} {t : Turn a} → run_test a c s ≡ some t → Move s (running c) t
    take_token :
        {c : Call} (q : ℕ)
        → queue_of a c s ≡ suc q
        → Move s (asleep c) (quiet a (set_queue a c q s) (woken c))
    interrupt : {c : Call} → Move s (asleep c) (quiet a s (hit c))
    relock :
        {c : Call} (m : ℕ)
        → s.mtx ≡ suc m
        → Move s (woken c) (quiet a (record s { mtx = m }) (running c))
    relock_interrupted : {c : Call} → patient ≡ false → Move s (woken c) (replies a s (error eintr))
    hit_lock :
        {c : Call} (m : ℕ)
        → s.mtx ≡ suc m
        → Move s (hit c) (quiet a (record s { mtx = m }) (leaving c))
    leave : {c : Call} → Move s (leaving c) (replies a (stop_waiting a c s) (error eintr))
    print : {p : ℕ} {t : Turn a} → read_end a p s ≡ some t → Move s (printing p) t

  pub record System : Type 0 where
    pub state : ProdCons a
    pub pcs : List Pc

  pub data Step (s : System) : Turn a → System → Type 0 where
    pick :
        (i : ℕ) {p : Pc} {t : Turn a}
        → get_elem? s.pcs i ≡ some p
        → Move s.state p t
        → Step s t (record { state = t.next; pcs = set s.pcs i t.pc })

  -- any number of steps, in any order of the processes
  pub data Run (s : System) : System → Type 0 where
    here : Run s s
    next : {u v : System} {t : Turn a} → Run s u → Step u t v → Run s v

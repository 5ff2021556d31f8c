-- ===== src/ProdCons1/Moves.antt =====
-- The steps of a process in a call of prodcons1.c, and of any number of processes.
use dso_fifo.Prelude.{ℕ, suc, ◌≡◌, Bool, some, List, get_elem?, set}
use dso_fifo.Allocator.{Allocator}
use dso_fifo.ProdCons1.{
  ProdCons, Turn, Pc, idle, filling, entering_write, writing, written, emptying, entering_read,
  reading, taken, printing, error, eintr, quiet, replies, write_entry, write_undone,
  write_backed_out, write_item, write_end, read_entry, read_backed_out, read_item, read_counted,
  read_end,
}

module _ (a : Allocator) (scan : List ℕ → ℕ × ℕ) where
  -- `down` needs a token; `down_interruptible` may also return because of a signal.
  pub data Move (s : ProdCons a) : Pc → Turn a → Type 0 where
    start_write :
        {t : Turn a} (copied : Bool) (user : List ℕ)
        → write_entry a scan copied user s ≡ some t
        → Move s idle t
    take_hueco :
        {n p : ℕ} (m : ℕ)
        → s.huecos ≡ suc m
        → Move s (filling n p) (quiet a (record s { huecos = m }) (entering_write n p))
    hueco_interrupted :
        {n p : ℕ} → Move s (filling n p) (replies a (write_undone a p s) (error eintr))
    lock_write :
        {n p : ℕ} (m : ℕ)
        → s.mtx ≡ suc m
        → Move s (entering_write n p) (quiet a (record s { mtx = m }) (writing n p))
    lock_write_interrupted :
        {n p : ℕ} → Move s (entering_write n p) (replies a (write_backed_out a s) (error eintr))
    insert : {n p : ℕ} {t : Turn a} → write_item a n p s ≡ some t → Move s (writing n p) t
    count_element : {n : ℕ} → Move s (written n) (write_end a n s)
    start_read : (offset : ℕ) → Move s idle (read_entry a offset s)
    take_element :
        (m : ℕ)
        → s.elementos ≡ suc m
        → Move s emptying (quiet a (record s { elementos = m }) entering_read)
    element_interrupted : Move s emptying (replies a s (error eintr))
    lock_read :
        (m : ℕ) → s.mtx ≡ suc m → Move s entering_read (quiet a (record s { mtx = m }) reading)
    lock_read_interrupted : Move s entering_read (replies a (read_backed_out a s) (error eintr))
    remove_item : {t : Turn a} → read_item a s ≡ some t → Move s reading t
    count_hueco : {p : ℕ} → Move s (taken p) (read_counted a p s)
    print : {p : ℕ} {t : Turn a} → read_end a p s ≡ some t → Move s (printing p) t

  pub record System : Type 0 where
    pub state : ProdCons a
    pub pcs : List Pc

  pub data Step (s : System) : Turn a → System → Type 0 where
    pick :
        (i : ℕ) {p : Pc} {t : Turn a}
        → get_elem? s.pcs i ≡ some p
        → Move s.state p t
        → Step s t (record { state = t.next; pcs = set s.pcs i t.pc })

  -- any number of steps, in any order of the processes
  pub data Run (s : System) : System → Type 0 where
    here : Run s s
    next : {u v : System} {t : Turn a} → Run s u → Step u t v → Run s v

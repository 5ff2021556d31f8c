-- ===== src/Fifo/Moves.antt =====
-- The steps of one process with one open file of the FIFO. Between two semaphore operations a
-- process holds the mutex, so what it does there is one step.
use dso_fifo.Prelude.{ℕ, suc, ◌≡◌, Bool, Option, some, List}
use dso_fifo.Fifo.{
  Fifo, Role, consumer, producer, eintr, error, Call, open_call, read_call, write_call, Pc, closed,
  opened, locking, entered, asleep, woken, resumed, hit, uncounting, undoing, undone, closing,
  released, leaked, Turn, quiet, replies, waits_on, cond_interrupted, open_test, fifo_open,
  open_undo, fifo_release, read_entry, fifo_read, write_entry, write_test, fifo_write,
}

-- where a process is left by a call that returns `-EINTR`
abbrev pub before : Role → Call → Pc
before r open_call = closed
before r (read_call n) = opened r
before r (write_call kbuff) = opened r

-- Interrupted inside `cond_wait`: the handler of `fifo_open` takes the mutex once more; those of
-- `fifo_read` and `fifo_write` only free `kbuff`.
abbrev pub interrupted : Role → Call → Fifo → Turn
interrupted r open_call f = quiet f (undoing r)
interrupted r (read_call n) f = replies f (opened r) (error eintr)
interrupted r (write_call kbuff) f = replies f (opened r) (error eintr)

-- a call from where it first has the mutex
unfoldable pub enter : ℕ → Role → Call → Fifo → Option Turn
enter left r open_call f = some (fifo_open r f)
enter left r (read_call n) f = fifo_read left r n f
enter left r (write_call kbuff) f = fifo_write r kbuff f

-- a call from where it has the mutex again after `cond_wait`
unfoldable pub resume : ℕ → Role → Call → Fifo → Option Turn
resume left r open_call f = some (open_test r f)
resume left r (read_call n) f = fifo_read left r n f
resume left r (write_call kbuff) f = write_test r kbuff f

abbrev pub cola : Role → Fifo → ℕ
cola consumer f = f.cola_cons
cola producer f = f.cola_prod

abbrev pub set_cola : Role → ℕ → Fifo → Fifo
set_cola consumer q f = record f { cola_cons = q }
set_cola producer q f = record f { cola_prod = q }

-- `down` needs a token; `down_interruptible` may also return because of a signal.
pub data Move (f : Fifo) : Pc → Turn → Type 0 where
  start_open : (r : Role) → Move f closed (quiet f (locking r open_call))
  start_read : (alloc : Bool) (n : ℕ) → Move f (opened consumer) (read_entry alloc consumer n f)
  start_write :
      (alloc : Bool) (left : ℕ) {r : Role} (user : List ℕ)
      → Move f (opened r) (write_entry alloc left r user f)
  lock :
      {r : Role} {c : Call} (m : ℕ)
      → f.mutex ≡ suc m
      → Move f (locking r c) (quiet (record f { mutex = m }) (entered r c))
  lock_interrupted :
      {r : Role} {c : Call} → Move f (locking r c) (replies f (before r c) (error eintr))
  run_entered :
      {r : Role} {c : Call} {t : Turn} (left : ℕ)
      → enter left r c f ≡ some t
      → Move f (entered r c) t
  take_token :
      {r : Role} {c : Call} (q : ℕ)
      → cola (waits_on r c) f ≡ suc q
      → Move f (asleep r c) (quiet (set_cola (waits_on r c) q f) (woken r c))
  interrupt : {r : Role} {c : Call} → Move f (asleep r c) (quiet f (hit r c))
  relock :
      {r : Role} {c : Call} (m : ℕ)
      → f.mutex ≡ suc m
      → Move f (woken r c) (quiet (record f { mutex = m }) (resumed r c))
  relock_interrupted : {r : Role} {c : Call} → Move f (woken r c) (interrupted r c f)
  run_resumed :
      {r : Role} {c : Call} {t : Turn} (left : ℕ)
      → resume left r c f ≡ some t
      → Move f (resumed r c) t
  hit_lock :
      {r : Role} {c : Call} (m : ℕ)
      → f.mutex ≡ suc m
      → Move f (hit r c) (quiet (record f { mutex = m }) (uncounting r c))
  uncount :
      {r : Role} {c : Call}
      → Move f (uncounting r c) (interrupted r c (cond_interrupted (waits_on r c) f))
  undo_lock :
      {r : Role} (m : ℕ)
      → f.mutex ≡ suc m
      → Move f (undoing r) (quiet (record f { mutex = m }) (undone r))
  undo : {r : Role} → Move f (undone r) (replies (open_undo r f) closed (error eintr))
  start_release : {r : Role} → Move f (opened r) (quiet f (closing r))
  release_lock :
      {r : Role} (m : ℕ)
      → f.mutex ≡ suc m
      → Move f (closing r) (quiet (record f { mutex = m }) (released r))
  release_interrupted : {r : Role} → Move f (closing r) (replies f (leaked r) (error eintr))
  release : {r : Role} → Move f (released r) (fifo_release r f)

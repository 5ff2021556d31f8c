-- ===== src/Fifo/Safety.antt =====
-- What holds in every reachable state of the FIFO device, whatever the scheduler and the signals do.
use dso_fifo.Prelude.{
  total, total-set, total-replicate, total-le, le-total_two, ℕ, ◌+◌, ◌%◌, ◌≤◌, ◌<◌, ◌≡◌, ◌≢◌, refl,
  some, arith, word, get_elem?, length, replicate, length-set, length-replicate,
}
use dso_fifo.Cbuffer.{Cbuffer}
use dso_fifo.Fifo.{Role, consumer, producer, Pc, Turn}
use dso_fifo.Fifo.Moves.{cola}
use dso_fifo.Fifo.System.{System, Step, pick, Reach, start, later, fresh}
use dso_fifo.Fifo.Balance.{holds, counted, waiting, bloq, Move-Balanced}

pub record Inv (s : System) : Type 0 where
  pub lock : s.fifo.mutex + total holds s.pcs ≡ 1
  pub cons : s.fifo.num_cons % word ≡ total (counted consumer) s.pcs % word
  pub prods : s.fifo.num_prod % word ≡ total (counted producer) s.pcs % word
  pub cons_queue :
      (s.fifo.num_bloq_cons + s.fifo.cola_cons) % word ≡ total (waiting consumer) s.pcs % word
  pub prods_queue :
      (s.fifo.num_bloq_prod + s.fifo.cola_prod) % word ≡ total (waiting producer) s.pcs % word
  pub cons_word : s.fifo.num_cons < word
  pub prods_word : s.fifo.num_prod < word

Inv-start : (b : Cbuffer) (n : ℕ) → Inv (record { fifo = fresh b; pcs = replicate n Pc.closed })
Inv-start b n = omega (
  arith,
  total-replicate holds Pc.closed n refl,
  total-replicate (counted consumer) Pc.closed n refl,
  total-replicate (counted producer) Pc.closed n refl,
  total-replicate (waiting consumer) Pc.closed n refl,
  total-replicate (waiting producer) Pc.closed n refl,
)

pub Step-Inv : {s u : System} {t : Turn} → Step s t u → Inv s → Inv u
Step-Inv {s} (pick i {p} {t} at mv) inv = ground (
  arith,
  Move-Balanced mv,
  total-set holds s.pcs i p t.pc at,
  total-set (counted consumer) s.pcs i p t.pc at,
  total-set (counted producer) s.pcs i p t.pc at,
  total-set (waiting consumer) s.pcs i p t.pc at,
  total-set (waiting producer) s.pcs i p t.pc at,
)

-- The invariant holds in every reachable state.
pub Reach-Inv : {b : Cbuffer} {n : ℕ} {s : System} → Reach b n s → Inv s
Reach-Inv {b} {n} start = Inv-start b n
Reach-Inv (later r st) = Step-Inv st (Reach-Inv r)

pub length-pcs : {b : Cbuffer} {n : ℕ} {s : System} → Reach b n s → length s.pcs ≡ n
length-pcs {n = n} start = length-replicate n Pc.closed
length-pcs (later {s} r (pick i {p} {t} at mv)) =
    omega (arith, length-set s.pcs i t.pc, length-pcs r)

pub counted-le_one : (k : Role) (p : Pc) → counted k p ≤ 1
counted-le_one k p = ground arith

pub waiting-le_one : (k : Role) (p : Pc) → waiting k p ≤ 1
waiting-le_one k p = ground arith

-- Two different processes never hold the mutex at once, and while one holds it its count is 0.
pub mutual_exclusion :
    {b : Cbuffer} {n : ℕ} {s : System} {p q : Pc}
    → Reach b n s
    → (i j : ℕ) → get_elem? s.pcs i ≡ some p
    → get_elem? s.pcs j ≡ some q
    → i ≢ j
    → holds p ≡ 1
    → (s.fifo.mutex ≡ 0) × (holds q ≡ 0)
mutual_exclusion {s = s} {p} {q} r i j hi hj ne h =
    omega (arith, lock, le-total_two holds s.pcs i j p q hi hj ne)
  where
    open (Reach-Inv r) use {lock}

-- With fewer than 2 ^ 32 processes, `num_cons` and `num_prod` are the numbers of processes whose
-- file is open, or being opened or closed, as consumer and as producer, together with those files
-- whose release was interrupted.
pub open_counts_exact :
    {b : Cbuffer} {n : ℕ} {s : System}
    → n < word
    → Reach b n s
    → (s.fifo.num_cons ≡ total (counted consumer) s.pcs)
      × (s.fifo.num_prod ≡ total (counted producer) s.pcs)
open_counts_exact {s = s} few r = omega (
  arith,
  cons,
  prods,
  cons_word,
  prods_word,
  length-pcs r,
  total-le (counted consumer) s.pcs (counted-le_one consumer),
  total-le (counted producer) s.pcs (counted-le_one producer),
)
  where
    open (Reach-Inv r) use {cons, prods, cons_word, prods_word}

-- With fewer than 2 ^ 32 processes, where a queue's count is 0 every process that sleeps in that
-- queue has a token in its semaphore: no wake-up is lost.
pub no_lost_wakeup :
    {b : Cbuffer} {n : ℕ} {s : System}
    → n < word
    → Reach b n s
    → (k : Role) → bloq k s.fifo ≡ 0
    → total (waiting k) s.pcs ≤ cola k s.fifo
no_lost_wakeup {s = s} few r consumer none_counted =
    omega
      (arith, cons_queue, length-pcs r, total-le (waiting consumer) s.pcs (waiting-le_one consumer))
  where
    open (Reach-Inv r) use {cons_queue}
no_lost_wakeup {s = s} few r producer none_counted =
    omega (
      arith,
      prods_queue,
      length-pcs r,
      total-le (waiting producer) s.pcs (waiting-le_one producer),
    )
  where
    open (Reach-Inv r) use {prods_queue}

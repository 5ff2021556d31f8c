-- ===== src/Fifo/System.antt =====
-- Any number of processes, each with one open file of the FIFO, interleaved in any order.
use dso_fifo.Prelude.{ℕ, ◌≡◌, some, List, get_elem?, set, replicate}
use dso_fifo.Cbuffer.{Cbuffer}
use dso_fifo.Fifo.{Fifo, Pc, closed, Turn}
use dso_fifo.Fifo.Moves.{Move}

pub record System : Type 0 where
  pub fifo : Fifo
  pub pcs : List Pc

-- A step, with its outcome.
pub data Step (s : System) : Turn → System → Type 0 where
  pick :
      (i : ℕ) {p : Pc} {t : Turn}
      → get_elem? s.pcs i ≡ some p
      → Move s.fifo p t
      → Step s t (record { fifo = t.fifo; pcs = set s.pcs i t.pc })

-- The globals as their definitions and `init_module` leave them, with `b` the new buffer. `mutex` is
-- a DEFINE_SEMAPHORE, so its count is 1.
abbrev pub fresh : Cbuffer → Fifo
fresh b = record {
  cbuffer = b;
  num_prod = 0;
  num_cons = 0;
  num_bloq_prod = 0;
  num_bloq_cons = 0;
  mutex = 1;
  cola_prod = 0;
  cola_cons = 0;
}

-- Reachable from a module just loaded, with `n` processes that have not opened the device.
pub data Reach (b : Cbuffer) (n : ℕ) : System → Type 0 where
  start : Reach b n (record { fifo = fresh b; pcs = replicate n closed })
  later : {s u : System} {t : Turn} → Reach b n s → Step s t u → Reach b n u

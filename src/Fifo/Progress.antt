-- ===== src/Fifo/Progress.antt =====
-- A process that holds the mutex can always go on, and gives the mutex back with its next step.
use dso_fifo.Prelude.{
  le-total, ℕ, ◌≡◌, ◌<◌, refl, ◌∙◌, some, List, arith, sign, get_elem?, get_elem?-set_self,
}
use dso_fifo.Cbuffer.{Cbuffer}
use dso_fifo.Fifo.{
  Fifo, Role, consumer, producer, Call, open_call, read_call, write_call, Pc, entered, resumed,
  uncounting, undone, released, Turn, open_test, fifo_open, fifo_release, release_reset, fifo_read,
  write_test,
}
use dso_fifo.Fifo.Moves.{interrupted, enter, resume, Move}
use dso_fifo.Fifo.System.{System, Step, pick, Reach}
use dso_fifo.Fifo.Balance.{holds, Move-Balanced}
use dso_fifo.Fifo.Calls.{
  IsPipe, ReadResult, WriteResult, fifo_read_lem, write_test_lem, fifo_write-eq-write_test,
}
use dso_fifo.Fifo.Safety.{Reach-Inv}
use dso_fifo.Fifo.History.{Reach-IsPipe, few_consumers}

read_returns :
    (left : ℕ) (r : Role) (n : ℕ) (f : Fifo)
    → IsPipe f.cbuffer
    → (t : Turn) × (fifo_read left r n f ≡ some t) × (holds t.pc ≡ 0)
read_returns left r n f v = elim (fifo_read_lem left r n f v) [
  | ReadResult.at_end alone empty res ↦ (_, res, refl)
  | ReadResult.blocks some_prod short res ↦ (_, res, refl)
  | ReadResult.reads b' enough v' held res ↦ (_, res, refl)
]

write_returns :
    (r : Role) (kbuff : List ℕ) (f : Fifo)
    → IsPipe f.cbuffer
    → f.num_cons < sign
    → (t : Turn) × (write_test r kbuff f ≡ some t) × (holds t.pc ≡ 0)
write_returns r kbuff f v pos = elim (write_test_lem r kbuff f v pos) [
  | WriteResult.broken alone res ↦ (_, res, refl)
  | WriteResult.blocks some_cons full res ↦ (_, res, refl)
  | WriteResult.writes b' some_cons room v' held res ↦ (_, res, refl)
]

open_test-holds : (r : Role) (f : Fifo) → holds (open_test r f).pc ≡ 0
unfolding open_test
open_test-holds consumer f = ground arith
open_test-holds producer f = ground arith

fifo_open-holds : (r : Role) (f : Fifo) → holds (fifo_open r f).pc ≡ 0
unfolding fifo_open
fifo_open-holds consumer f = open_test-holds consumer _
fifo_open-holds producer f = open_test-holds producer _

interrupted-holds : (r : Role) (c : Call) (f : Fifo) → holds (interrupted r c f).pc ≡ 0
interrupted-holds r open_call f = refl
interrupted-holds r (read_call n) f = refl
interrupted-holds r (write_call kbuff) f = refl

fifo_release-holds : (r : Role) (f : Fifo) → holds (fifo_release r f).pc ≡ 0
unfolding fifo_release release_reset
fifo_release-holds consumer f = ground arith
fifo_release-holds producer f = ground arith

-- a step that gives the mutex back
abbrev Releases : Fifo → Pc → Type 0
Releases f p = (t : Turn) × Move f p t × (holds t.pc ≡ 0)

enter-Releases :
    (r : Role) (c : Call) (f : Fifo)
    → IsPipe f.cbuffer
    → f.num_cons < sign
    → Releases f (entered r c)
unfolding enter
enter-Releases r open_call f v pos = (_, Move.run_entered 0 refl, fifo_open-holds r f)
enter-Releases r (read_call n) f v pos =
    let (t, res, out) = read_returns 0 r n f v in (t, Move.run_entered 0 res, out)
enter-Releases r (write_call kbuff) f v pos =
    let (t, res, out) = write_returns r kbuff f v pos in
    (t, Move.run_entered 0 (fifo_write-eq-write_test r kbuff f ∙ res), out)

resume-Releases :
    (r : Role) (c : Call) (f : Fifo)
    → IsPipe f.cbuffer
    → f.num_cons < sign
    → Releases f (resumed r c)
unfolding resume
resume-Releases r open_call f v pos = (_, Move.run_resumed 0 refl, open_test-holds r f)
resume-Releases r (read_call n) f v pos =
    let (t, res, out) = read_returns 0 r n f v in (t, Move.run_resumed 0 res, out)
resume-Releases r (write_call kbuff) f v pos =
    let (t, res, out) = write_returns r kbuff f v pos in (t, Move.run_resumed 0 res, out)

holder-Releases :
    (p : Pc) (f : Fifo) → IsPipe f.cbuffer → f.num_cons < sign → holds p ≡ 1 → Releases f p
holder-Releases (entered r c) f v pos h = enter-Releases r c f v pos
holder-Releases (resumed r c) f v pos h = resume-Releases r c f v pos
holder-Releases (uncounting r c) f v pos h = (_, Move.uncount, interrupted-holds r c _)
holder-Releases (undone r) f v pos h = (_, Move.undo, refl)
holder-Releases (released r) f v pos h = (_, Move.release, fifo_release-holds r f)
holder-Releases _ f v pos h = absurd (omega arith)

-- With fewer than 2 ^ 31 processes, in every reachable state a process that holds the mutex has a
-- step, after which it does not hold the mutex and the mutex is free: no call faults, and none keeps
-- the mutex.
pub holder_releases :
    {b : Cbuffer} {n : ℕ} {s : System} {p : Pc}
    → IsPipe b
    → n < sign
    → Reach b n s
    → (i : ℕ) → get_elem? s.pcs i ≡ some p
    → holds p ≡ 1
    → (t : Turn) × (u : System) × Step s t u
      × (get_elem? u.pcs i ≡ some t.pc)
      × (holds t.pc ≡ 0)
      × (u.fifo.mutex ≡ 1)
holder_releases {s = s} {p} e few r i at h =
    let (t, mv, out) = holder-Releases p s.fifo (Reach-IsPipe e few r) (few_consumers few r) h in
    (
      t,
      _,
      pick i at mv,
      get_elem?-set_self s.pcs i at,
      out,
      omega (arith, Move-Balanced mv, (Reach-Inv r).lock, le-total holds s.pcs i p at),
    )

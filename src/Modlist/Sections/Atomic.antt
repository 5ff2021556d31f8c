-- ===== src/Modlist/Sections/Atomic.antt =====
-- parteA/modlist.c and opcional1/modlist.c: the sections behind the lock have the effect of single steps.
use dso_fifo.Prelude.{ℕ, ◌≡◌, some, List, arith, get_elem?, total}
use dso_fifo.Allocator.{Allocator, count}
use dso_fifo.KernelList.{KernelList}
use dso_fifo.Modlist.{Modlist, values, procfile_read}
use dso_fifo.Modlist.Shared
use dso_fifo.Modlist.Sections.{SectionLock, Pc, answering, Move, System, Run, reads, writes}
use dso_fifo.Modlist.Sections.Matching.{stands_at, Fits-listed, settle}
use dso_fifo.Modlist.Sections.Loops.{IsReading-end, IsReading-full}
use dso_fifo.Modlist.Sections.Simulation.{IsStart, reached-Sim, IsStart-shared}

module _ {lock : SectionLock} {print : ℕ → ℕ → ℕ} {a : Allocator} {l : KernelList} where
  open a use {owned}
  open l use {Head, nodes}

  -- From a state in which all processes are outside the handlers and no block is there twice,
  -- whatever the order of the processes: a run in which the sections behind the lock go node by node
  -- has a run in which each section of a writer is one step, with the same heap and items, every
  -- process where it is but for the sections under way, and the same list where no writer is behind
  -- the lock.
  pub sections_are_atomic :
      {rest : List ℕ} {first s : System lock print a l}
      → IsStart rest first
      → Run lock print a l first s
      → (list : Head) × Shared.Run a l (settle first.state.mylist first) (settle list s)
        × (total (writes lock print a l) s.pcs ≡ 0 → s.state.mylist ≡ list)
  sections_are_atomic b r = let v = reached-Sim b r in (v.list, v.run, v.still)

  -- From a state in which all processes are outside the handlers and no block is there twice,
  -- whatever the order of the processes: what a reader returns is what a read of the whole list at once would return at
  -- that moment.
  pub reader_returns :
      {rest : List ℕ} {first s : System lock print a l} {m : Modlist a l} {p : Pc lock print a l}
      (i b used : ℕ)
      → IsStart rest first
      → Run lock print a l first s
      → get_elem? s.pcs i ≡ some p
      → Move lock print a l
          (total (reads lock print a l) s.pcs)
          (total (writes lock print a l) s.pcs)
          s.state
          p
          m
          (answering b used)
      → used ≡ procfile_read a l print b s.state
  unfolding procfile_read values
  reader_returns {s = s} i b used st r at (Move.leave_full _ _ q e) =
      IsReading-full lock print a l _ s.state.mylist s.state.item b used q
        ((reached-Sim st r).fits i _ at) e
  reader_returns {s = s} i b used st r at (Move.leave_reading _ _) =
      IsReading-end lock print a l _ s.state.mylist s.state.item b used
        ((reached-Sim st r).fits i _ at)

  -- From the same states, whatever the order of the processes: the node at which a reader or a
  -- writer stands is in the list once, and its block is allocated once.
  pub node_is_allocated :
      {rest : List ℕ} {first s : System lock print a l} (i : ℕ) (p : Pc lock print a l) (q : ℕ)
      → IsStart rest first
      → Run lock print a l first s
      → get_elem? s.pcs i ≡ some p
      → stands_at p ≡ some q
      → (count q (nodes s.state.mylist) ≡ 1) × (count q (owned s.state.heap) ≡ 1)
  node_is_allocated {s = s} i p q st r at e =
      let v = reached-Sim st r in
      let c = Shared.Run-Inv a l v.run (Shared.Inv-start a l (IsStart-shared st)) in
      let (there, among) = Fits-listed v.list s.state.mylist s.state.item q p e (v.fits i p at) in
      (
        omega (arith, there, among, c.accounted q, c.once q),
        omega (arith, there, among, c.accounted q, c.once q),
      )

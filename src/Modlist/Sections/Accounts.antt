-- ===== src/Modlist/Sections/Accounts.antt =====
-- parteA/modlist.c and opcional1/modlist.c: where each item is while sections are under way.
use mathlib.Core.List.{map}
use dso_fifo.Prelude.{
  ℕ, ◌+◌, ◌≡◌, ◌≤◌, inl, inr, refl, ap, List, [], ◌∷◌, arith, ◌==◌, if◌then◌else◌, total,
  total-none, total-single,
}
use dso_fifo.Allocator.{Allocator, count}
use dso_fifo.KernelList.{KernelList}
use dso_fifo.Modlist.Shared
use dso_fifo.Modlist.Sections.{
  SectionLock, Pc, idle, waiting_to_add, adding, moving, freeing, reading, answering, System, Run,
  writes,
}
use dso_fifo.Modlist.Sections.Matching.{forget, Fits}
use dso_fifo.Modlist.Sections.Simulation.{IsStart, IsStart-shared, reached-Sim}
use dso_fifo.Modlist.Sections.Steps.{Sim}

module _ {lock : SectionLock} {print : ℕ → ℕ → ℕ} {a : Allocator} {l : KernelList} where
  open a use {owned}
  open l use {Head, nodes}

  -- how often the item at `q` is in a writer's local list behind the lock
  abbrev in_bin : ℕ → Pc lock print a l → ℕ
  in_bin q (moving target elem bin) = count q (nodes bin)
  in_bin q _ = 0

  -- how often a process has the item at `q` in its hands
  abbrev pub in_hands : ℕ → Pc lock print a l → ℕ
  in_hands q (waiting_to_add p) = if p == q then 1 else 0
  in_hands q (adding p) = if p == q then 1 else 0
  in_hands q (moving target elem bin) = count q (nodes bin)
  in_hands q (freeing bin) = count q (nodes bin)
  in_hands q _ = 0

  in_hands-forget :
      (q : ℕ) (p : Pc lock print a l) → in_hands q p ≡ Shared.in_hand a l q (forget p) + in_bin q p
  in_hands-forget q idle = omega arith
  in_hands-forget q (waiting_to_add p) = omega arith
  in_hands-forget q (adding p) = omega arith
  in_hands-forget q (moving target elem bin) = omega arith
  in_hands-forget q (freeing bin) = omega arith
  in_hands-forget q (reading b used elem) = omega arith
  in_hands-forget q (answering b used) = omega arith

  total-in_hands :
      (q : ℕ) (ps : List (Pc lock print a l))
      → total (in_hands q) ps ≡ total (Shared.in_hand a l q) (map forget ps) + total (in_bin q) ps
  unfolding total
  total-in_hands q [] = refl
  total-in_hands q (p ∷ ps) = omega (arith, in_hands-forget q p, total-in_hands q ps)

  only_writers : (q : ℕ) (p : Pc lock print a l) → writes lock print a l p ≡ 0 → in_bin q p ≡ 0
  only_writers q idle h = refl
  only_writers q (waiting_to_add p) h = refl
  only_writers q (adding p) h = refl
  only_writers q (moving target elem bin) h = absurd (omega (arith, h))
  only_writers q (freeing bin) h = refl
  only_writers q (reading b used elem) h = refl
  only_writers q (answering b used) h = refl

  writer_holds :
      (list mylist : Head) (item : ℕ → ℕ) (q : ℕ) (p : Pc lock print a l)
      → writes lock print a l p ≡ 1
      → Fits list mylist item p
      → count q (nodes mylist) + in_bin q p ≡ count q (nodes list)
  writer_holds list mylist item q idle h f = absurd (omega (arith, h))
  writer_holds list mylist item q (waiting_to_add p) h f = absurd (omega (arith, h))
  writer_holds list mylist item q (adding p) h f = omega (arith, ap (λ k. count q (nodes k)) f)
  writer_holds list mylist item q (moving target elem bin) h f = f.counted q
  writer_holds list mylist item q (freeing bin) h f = absurd (omega (arith, h))
  writer_holds list mylist item q (reading b used elem) h f = absurd (omega (arith, h))
  writer_holds list mylist item q (answering b used) h f = absurd (omega (arith, h))

  bins-accounted :
      {first : Shared.System a l} {s : System lock print a l} (q : ℕ) (v : Sim first s)
      → count q (nodes s.state.mylist) + total (in_bin q) s.pcs ≡ count q (nodes v.list)
  bins-accounted {s = s} q v = elim v.apart [
    | inl nobody ↦ omega (
      arith,
      total-none (writes lock print a l) (in_bin q) s.pcs (only_writers q) nobody,
      ap (λ k. count q (nodes k)) (v.still nobody),
    )
    | inr (one, no_reader) ↦
        let (i, p, at, writer, all) =
          total-single (writes lock print a l) (in_bin q) s.pcs (only_writers q) one in
        omega
          (arith, all, writer_holds v.list s.state.mylist s.state.item q p writer (v.fits i p at))
  ]

  -- From a state in which all processes are outside the handlers and no block is there twice,
  -- whatever the order of the processes, also in the midst of the sections behind the lock: each
  -- allocated block is, exactly once, an item of the list, an item that one process is about to
  -- link, has moved to its local list, or is about to free, or a block that was there before.
  pub blocks_accounted :
      {rest : List ℕ} {first s : System lock print a l}
      → IsStart rest first
      → Run lock print a l first s
      → (q : ℕ)
      → (count q (owned s.state.heap)
          ≡ count q (nodes s.state.mylist) + total (in_hands q) s.pcs + count q rest)
        × (count q (owned s.state.heap) ≤ 1)
  blocks_accounted {s = s} st r q =
      let v = reached-Sim st r in
      let c = Shared.Run-Inv a l v.run (Shared.Inv-start a l (IsStart-shared st)) in
      (omega (arith, c.accounted q, bins-accounted q v, total-in_hands q s.pcs), c.once q)

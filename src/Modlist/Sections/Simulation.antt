-- ===== src/Modlist/Sections/Simulation.antt =====
-- parteA/modlist.c and opcional1/modlist.c: a run, where the sections go node by node, against the run in
-- which each section of a writer is one step.
use mathlib.Core.List.{map}
use mathlib.Core.Path.{subst}
use dso_fifo.Prelude.{
  ℕ, ◌+◌, ◌≡◌, inl, refl, sym, ap, ◌∙◌, List, arith, total, le-total, map-set, map-replicate,
  replicate, total-replicate,
}
use dso_fifo.Allocator.{IsClean, Allocator, count}
use dso_fifo.KernelList.{KernelList}
use dso_fifo.Modlist.Shared
use dso_fifo.Modlist.Sections.{
  SectionLock, idle, System, Step, pick, Run, here, next, reads, writes,
}
use dso_fifo.Modlist.Sections.Apart.{Move-AreApart}
use dso_fifo.Modlist.Sections.Matching.{forget, settle, Fits-outside}
use dso_fifo.Modlist.Sections.Steps.{Sim, After-Fits, Move-After}

module _ {lock : SectionLock} {print : ℕ → ℕ → ℕ} {a : Allocator} {l : KernelList} where
  open a use {owned}
  open l use {nodes}

  pub Step-Sim :
      {rest : List ℕ} {first : Shared.System a l} {s u : System lock print a l}
      → Shared.IsStart a l rest first
      → Step lock print a l s u
      → Sim first s
      → Sim first u
  Step-Sim {first = first} {s} b (pick i {p} {q} {m} at mv) v =
      let t = Move-After i v (Shared.Run-Inv a l v.run (Shared.Inv-start a l b)) at mv in
      record {
        list = t.list';
        run =
            subst
              (λ ps.
                Shared.Run a l first (record { state = record m { mylist = t.list' }; pcs = ps }))
              (sym (map-set forget s.pcs i q)) t.run;
        apart = Move-AreApart s.pcs i at v.apart mv;
        still = t.still;
        fits = After-Fits v i at t;
      }

  Run-Sim :
      {rest : List ℕ} {first : Shared.System a l} {s u : System lock print a l}
      → Shared.IsStart a l rest first
      → Run lock print a l s u
      → Sim first s
      → Sim first u
  Run-Sim b here v = v
  Run-Sim b (next r st) v = Step-Sim b st (Run-Sim b r v)

  -- The processes are outside any handler, and no block is there twice.
  pub record IsStart (rest : List ℕ) (s : System lock print a l) : Type 0 where
    pub processes : ℕ
    pub all_idle : s.pcs ≡ replicate processes idle
    pub blocks :
        (q : ℕ) → count q (owned s.state.heap) ≡ count q (nodes s.state.mylist) + count q rest
    pub clean : IsClean a s.state.heap

  pub IsStart-shared :
      {rest : List ℕ} {s : System lock print a l}
      → IsStart rest s
      → Shared.IsStart a l rest (settle s.state.mylist s)
  IsStart-shared b = record {
    processes = b.processes;
    all_outside = ap (map forget) b.all_idle ∙ map-replicate forget b.processes idle;
    blocks = b.blocks;
    clean = b.clean;
  }

  Sim-start :
      {rest : List ℕ} {s : System lock print a l} → IsStart rest s → Sim (settle s.state.mylist s) s
  Sim-start {s = s} b =
      let nobody_reads =
        ap (total (reads lock print a l)) b.all_idle ∙ total-replicate _ idle b.processes refl in
      let nobody_writes =
        ap (total (writes lock print a l)) b.all_idle ∙ total-replicate _ idle b.processes refl in
      record {
        list = s.state.mylist;
        run = Shared.here;
        apart = inl nobody_writes;
        still = λ z. refl;
        fits = λ i p at.
            Fits-outside _ _ _ p
              (omega (arith, nobody_reads, le-total (reads lock print a l) s.pcs i p at))
              (omega (arith, nobody_writes, le-total (writes lock print a l) s.pcs i p at));
      }

  pub reached-Sim :
      {rest : List ℕ} {first s : System lock print a l}
      → IsStart rest first
      → Run lock print a l first s
      → Sim (settle first.state.mylist first) s
  reached-Sim b r = Run-Sim (IsStart-shared b) r (Sim-start b)

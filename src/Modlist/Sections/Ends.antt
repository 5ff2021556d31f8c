-- ===== src/Modlist/Sections/Ends.antt =====
-- parteA/modlist.c and opcional1/modlist.c: a process that is behind the lock comes out of it.
use dso_fifo.Prelude.{
  ℕ, zero, suc, ◌+◌, ◌≡◌, ◌≤◌, inl, inr, refl, ap, Option, none, some, List, arith, ◌==◌, get_elem?,
  set, total, sub32, length, get_elem?-set_self, Bool-cases,
}
use dso_fifo.Allocator.{Allocator}
use dso_fifo.KernelList.{KernelList}
use dso_fifo.Modlist.{Modlist}
use dso_fifo.Modlist.Shared
use dso_fifo.Modlist.Sections.{
  SectionLock, chosen, Pc, idle, waiting_to_add, adding, moving, freeing, reading, answering, Move,
  System, pick, Run, reads, writes,
}
use dso_fifo.Modlist.Sections.Walk.{Walk, first_node-some}
use dso_fifo.Modlist.Sections.Matching.{Fits, settle}
use dso_fifo.Modlist.Sections.Loops.{Walk-stays, Walk-move_node}
use dso_fifo.Modlist.Sections.Simulation.{IsStart, IsStart-shared, reached-Sim, Step-Sim}
use dso_fifo.Modlist.Sections.Steps.{Sim, once_in_reading, once_in_moving}

module _ {lock : SectionLock} {print : ℕ → ℕ → ℕ} {a : Allocator} {l : KernelList} where
  open l use {Head, nodes, moved_from}

  abbrev pub is_behind : Pc lock print a l → ℕ
  is_behind p = reads lock print a l p + writes lock print a l p

  -- steps of one process alone, to the state `final`
  pub data Solo (i : ℕ) (final : System lock print a l) : System lock print a l → Type 0 where
    rests : Solo i final final
    steps :
        {s : System lock print a l} {p q : Pc lock print a l} {m : Modlist a l}
        → get_elem? s.pcs i ≡ some p
        → Move lock print a l
            (total (reads lock print a l) s.pcs)
            (total (writes lock print a l) s.pcs)
            s.state
            p
            m
            q
        → Solo i final (record { state = m; pcs = set s.pcs i q })
        → Solo i final s

  -- By its own steps the process comes out of the lock.
  pub record ComesOut (i : ℕ) (s : System lock print a l) : Type 0 where
    pub final : System lock print a l
    pub pc : Pc lock print a l
    pub solo : Solo i final s
    pub at : get_elem? final.pcs i ≡ some pc
    pub outside_lock : is_behind pc ≡ 0

  ends_now :
      {s : System lock print a l} {m : Modlist a l} {p : Pc lock print a l} (i : ℕ)
      (q : Pc lock print a l)
      → get_elem? s.pcs i ≡ some p
      → is_behind q ≡ 0
      → Move lock print a l
          (total (reads lock print a l) s.pcs)
          (total (writes lock print a l) s.pcs)
          s.state
          p
          m
          q
      → ComesOut i s
  ends_now {s} i q at out mv = record {
    final = _;
    pc = q;
    solo = steps at mv rests;
    at = get_elem?-set_self s.pcs i at;
    outside_lock = out;
  }

  ends_later :
      {s : System lock print a l} {m : Modlist a l} {p q : Pc lock print a l} (i : ℕ)
      → get_elem? s.pcs i ≡ some p
      → Move lock print a l
          (total (reads lock print a l) s.pcs)
          (total (writes lock print a l) s.pcs)
          s.state
          p
          m
          q
      → ComesOut i (record { state = m; pcs = set s.pcs i q })
      → ComesOut i s
  ends_later i at mv e = record {
    final = e.final;
    pc = e.pc;
    solo = steps at mv e.solo;
    at = e.at;
    outside_lock = e.outside_lock;
  }

  module _ {rest : List ℕ} {first : Shared.System a l} (b : Shared.IsStart a l rest first) where
    sound : {s : System lock print a l} → (v : Sim first s) → Shared.Inv a l rest (settle v.list s)
    sound v = Shared.Run-Inv a l v.run (Shared.Inv-start a l b)

    -- `n` bounds the nodes that are left.
    reading_ends :
        (n : ℕ) {s : System lock print a l} (i buffer_len used : ℕ) (elem : Option ℕ)
        → Sim first s
        → get_elem? s.pcs i ≡ some (reading buffer_len used elem)
        → (w : Walk elem (nodes s.state.mylist)) → length w.left ≤ n
        → ComesOut i s
    reading_ends n i buffer_len used none v at w h =
        ends_now i _ at refl (Move.leave_reading buffer_len used)
    reading_ends zero i buffer_len used (some p) v at w h =
        absurd (omega (arith, h, ap length (first_node-some w.left w.at).1))
    reading_ends (suc n) {s} i buffer_len used (some p) v at w h =
        let once = once_in_reading i v (sound v) (v.fits i _ at) in
        let (w', nearer) = Walk-stays w once in
        elim (Bool-cases (sub32 buffer_len used == 0)) [
          | inl full ↦ ends_now i _ at refl (Move.leave_full buffer_len used p full)
          | inr room ↦ ends_later i at (Move.read buffer_len used p room) (
              reading_ends n i buffer_len _ _
                (Step-Sim b (pick i at (Move.read buffer_len used p room)) v)
                (get_elem?-set_self s.pcs i at) w' (omega (arith, h, nearer)))
        ]

    moving_ends :
        (n : ℕ) {s : System lock print a l} (i : ℕ) (target elem : Option ℕ) (bin : Head)
        → Sim first s
        → get_elem? s.pcs i ≡ some (moving target elem bin)
        → (w : Walk elem (nodes s.state.mylist)) → length w.left ≤ n
        → ComesOut i s
    moving_ends n i target none bin v at w h = ends_now i _ at refl (Move.leave_moving target bin)
    moving_ends zero i target (some p) bin v at w h =
        absurd (omega (arith, h, ap length (first_node-some w.left w.at).1))
    moving_ends (suc n) {s} i target (some p) bin v at w h =
        let once = once_in_moving i v (sound v) (v.fits i _ at) in
        let (w', nearer) =
          Walk-move_node lock print a l (chosen target s.state.item) p s.state.mylist bin w once in
        ends_later i at (Move.move target p bin) (
          moving_ends n i target _ _ (Step-Sim b (pick i at (Move.move target p bin)) v)
            (get_elem?-set_self s.pcs i at) w' (omega (arith, h, nearer)))

    behind_ends :
        {s : System lock print a l} (i : ℕ) (p : Pc lock print a l)
        → (v : Sim first s) → get_elem? s.pcs i ≡ some p
        → Fits v.list s.state.mylist s.state.item p
        → 1 ≤ is_behind p
        → ComesOut i s
    behind_ends i idle v at f h = absurd (omega (arith, h))
    behind_ends i (waiting_to_add p) v at f h = absurd (omega (arith, h))
    behind_ends i (adding p) v at f h = ends_now i idle at refl (Move.add p)
    behind_ends i (moving target elem bin) v at f h =
        moving_ends (length f.walk.left) i target elem bin v at f.walk (omega arith)
    behind_ends i (freeing bin) v at f h = absurd (omega (arith, h))
    behind_ends i (reading buffer_len used elem) v at f h =
        reading_ends (length f.walk.left) i buffer_len used elem v at f.walk (omega arith)
    behind_ends i (answering buffer_len used) v at f h = absurd (omega (arith, h))

  -- From a state in which all processes are outside the handlers and no block is there twice,
  -- whatever the order of the processes: each process that is behind the lock comes out of it by
  -- its own steps, which wait for no other process.
  pub section_ends :
      {rest : List ℕ} {first s : System lock print a l} (i : ℕ) (p : Pc lock print a l)
      → IsStart rest first
      → Run lock print a l first s
      → get_elem? s.pcs i ≡ some p
      → 1 ≤ is_behind p
      → ComesOut i s
  section_ends i p st r at h =
      let v = reached-Sim st r in behind_ends (IsStart-shared st) i p v at (v.fits i p at) h

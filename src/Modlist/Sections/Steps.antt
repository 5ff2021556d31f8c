-- ===== src/Modlist/Sections/Steps.antt =====
-- parteA/modlist.c and opcional1/modlist.c: each step of a run, where the sections go node by node, against
-- the run in which each section of a writer is one step.
use mathlib.Core.List.{map}
use mathlib.Core.Path.{subst}
use dso_fifo.Prelude.{
  ℕ, ◌≡◌, ◌≤◌, ◌≢◌, inl, inr, refl, sym, ap, ◌∙◌, Option, none, some, List, arith, ◌==◌, get_elem?,
  set, total, total-set, le-total, get_elem?-map, set-same, get_elem?-set_self, get_elem?-set_ne,
  Bool-cases, ==_iff, eq_of_some,
}
use dso_fifo.Allocator.{Allocator, count, count-Absent}
use dso_fifo.KernelList.{KernelList}
use dso_fifo.Modlist.{sizeof_list_item_t, Modlist, move_nodes}
use dso_fifo.Modlist.Shared
use dso_fifo.Modlist.Sections.{
  SectionLock, first_node, chosen, Pc, waiting_to_add, adding, moving, freeing, reading, Move,
  System, reads, writes,
}
use dso_fifo.Modlist.Sections.Apart.{AreApart, others_outside}
use dso_fifo.Modlist.Sections.Matching.{
  IsMoving, IsReading, forget, settle, Fits, Fits-outside, Fits-make,
}
use dso_fifo.Modlist.Sections.Loops.{
  IsReading-start, IsReading-next, IsMoving-start, IsMoving-next, IsMoving-end,
}

module _ {lock : SectionLock} {print : ℕ → ℕ → ℕ} {a : Allocator} {l : KernelList} where
  open a use {owned}
  open l use {Head, nodes, list_add}

  -- The state is one of a run in which the sections of the writers are single steps, with `list` for
  -- the list where a writer is in its loop.
  pub record Sim (first : Shared.System a l) (s : System lock print a l) : Type 0 where
    pub list : Head
    pub run : Shared.Run a l first (settle list s)
    pub apart : AreApart (total (reads lock print a l) s.pcs) (total (writes lock print a l) s.pcs)
    pub still : total (writes lock print a l) s.pcs ≡ 0 → s.state.mylist ≡ list
    pub fits :
        (i : ℕ) (p : Pc lock print a l)
        → get_elem? s.pcs i ≡ some p
        → Fits list s.state.mylist s.state.item p

  -- what one process leaves behind when it goes from `p` to `q`
  pub record After (first : Shared.System a l) (list : Head) (s : System lock print a l) (i : ℕ)
      (p : Pc lock print a l) (m : Modlist a l) (q : Pc lock print a l) : Type 0 where
    pub list' : Head
    pub run :
        Shared.Run a l first (record {
          state = record m { mylist = list' };
          pcs = set (map forget s.pcs) i (forget q);
        })
    pub still : total (writes lock print a l) (set s.pcs i q) ≡ 0 → m.mylist ≡ list'
    pub own : Fits list' m.mylist m.item q
    pub others :
        (r : Pc lock print a l)
        → (writes lock print a l p ≡ 1
            → (reads lock print a l r ≡ 0) × (writes lock print a l r ≡ 0))
        → Fits list s.state.mylist s.state.item r
        → Fits list' m.mylist m.item r

  -- A step that no other process sees, and that the settled run does not have.
  After-quiet :
      {first : Shared.System a l} {s : System lock print a l} (v : Sim first s) (i : ℕ)
      (p q : Pc lock print a l)
      → get_elem? s.pcs i ≡ some p
      → forget p ≡ forget q
      → writes lock print a l p ≤ writes lock print a l q
      → Fits v.list s.state.mylist s.state.item q
      → After first v.list s i p s.state q
  After-quiet {first} {s} v i p q at e more own = record {
    list' = v.list;
    run =
        subst
          (λ ps.
            Shared.Run a l first (record { state = record s.state { mylist = v.list }; pcs = ps }))
          (sym (set-same (map forget s.pcs) i (get_elem?-map forget s.pcs i at ∙ ap some e))) v.run;
    still = λ z. v.still (omega (arith, z, more, total-set (writes lock print a l) s.pcs i p q at));
    own = own;
    others = λ r out f. f;
  }

  -- A step that the settled run has too, of a process that is not behind the lock.
  After-shared :
      {first : Shared.System a l} {s : System lock print a l} (v : Sim first s) (i : ℕ)
      (p q : Pc lock print a l) (h : a.Heap)
      → get_elem? s.pcs i ≡ some p
      → (writes lock print a l q ≡ writes lock print a l p)
      → Shared.Move a l
          (record s.state { mylist = v.list })
          (forget p)
          (record s.state { mylist = v.list; heap = h })
          (forget q)
      → Fits v.list s.state.mylist s.state.item q
      → After first v.list s i p (record s.state { heap = h }) q
  After-shared {s = s} v i p q h at e mv own = record {
    list' = v.list;
    run = Shared.next v.run (Shared.pick i (get_elem?-map forget s.pcs i at) mv);
    still = λ z. v.still (omega (arith, z, e, total-set (writes lock print a l) s.pcs i p q at));
    own = own;
    others = λ r out f. f;
  }

  After-leave :
      {first : Shared.System a l} {s : System lock print a l} (v : Sim first s) (i : ℕ)
      (target : Option ℕ) (bin : Head)
      → get_elem? s.pcs i ≡ some (moving target none bin)
      → After first v.list s i (moving target none bin) s.state (freeing bin)
  After-leave {first} {s} v i target bin at = record {
    list' = s.state.mylist;
    run =
        subst settled
          (IsMoving-end lock print a l v.list s.state.mylist s.state.item target bin
            (v.fits i _ at))
          (Shared.next v.run (Shared.pick i (get_elem?-map forget s.pcs i at) (taken target)));
    still = λ z. refl;
    own = tt;
    others = λ r out f. Fits-outside _ _ _ r (out refl).0 (out refl).1;
  }
    where
      settled : Head × Head → Type 0
      settled t = Shared.Run a l first (record {
        state = record s.state { mylist = t.0 };
        pcs = set (map forget s.pcs) i (Shared.clearing t.1);
      })

      moved : Option ℕ → Head × Head
      moved target = move_nodes a l (chosen target s.state.item) (nodes v.list) v.list l.list_head

      taken :
          (target : Option ℕ)
          → Shared.Move a l
              (record s.state { mylist = v.list })
              Shared.outside
              (record s.state { mylist = (moved target).0 })
              (Shared.clearing (moved target).1)
      taken none = Shared.Move.clear
      taken (some n) = Shared.Move.pick_out n

  module _ {rest : List ℕ} {first : Shared.System a l} {s : System lock print a l} (i : ℕ) where
    -- A node that a reader or a writer comes to is there once.
    pub once_in_reading :
        (v : Sim first s) {b used p : ℕ}
        → Shared.Inv a l rest (settle v.list s)
        → IsReading print l v.list s.state.mylist s.state.item b used (some p)
        → count p (nodes s.state.mylist) ≤ 1
    once_in_reading v {p = p} c f =
        omega (arith, c.once p, c.accounted p, ap (λ h. count p (nodes h)) f.still)

    pub once_in_moving :
        (v : Sim first s) {target : Option ℕ} {p : ℕ} {bin : Head}
        → Shared.Inv a l rest (settle v.list s)
        → IsMoving a l v.list s.state.mylist s.state.item target (some p) bin
        → count p (nodes s.state.mylist) ≤ 1
    once_in_moving v {p = p} c f = omega (arith, c.once p, c.accounted p, f.counted p)

    pub Move-After :
        {m : Modlist a l} {p q : Pc lock print a l} (v : Sim first s)
        → Shared.Inv a l rest (settle v.list s)
        → get_elem? s.pcs i ≡ some p
        → Move lock print a l
            (total (reads lock print a l) s.pcs)
            (total (writes lock print a l) s.pcs)
            s.state
            p
            m
            q
        → After first v.list s i p m q
    Move-After v c at (Move.make n p e) =
        let fresh =
          count-Absent p (owned s.state.heap)
            (a.vmalloc_fresh s.state.heap sizeof_list_item_t p e) in
        record {
          list' = v.list;
          run =
              Shared.next v.run
                (Shared.pick i (get_elem?-map forget s.pcs i at) (Shared.Move.make n p e));
          still = λ z.
              v.still (
                omega
                  (arith, z, total-set (writes lock print a l) s.pcs i _ (waiting_to_add p) at));
          own = tt;
          others = λ r out f. Fits-make _ _ _ n p (omega (arith, fresh, c.accounted p)) r f;
        }
    Move-After v c at (Move.enter_add p e) =
        After-quiet v i _ (adding p) at refl (omega arith)
          (v.still (omega (arith, lock.alone _ _ e)))
    Move-After v c at (Move.add p) = record {
      list' = list_add p v.list;
      run =
          Shared.next v.run (Shared.pick i (get_elem?-map forget s.pcs i at) (Shared.Move.link p));
      still = λ z. ap (list_add p) (v.fits i _ at);
      own = tt;
      others = λ r out f. Fits-outside _ _ _ r (out refl).0 (out refl).1;
    }
    Move-After v c at (Move.enter_moving target e) =
        After-quiet v i _ (moving target (first_node (nodes s.state.mylist)) l.list_head) at refl
          (omega arith)
          (IsMoving-start lock print a l v.list s.state.mylist s.state.item target
            (v.still (omega (arith, lock.alone _ _ e))))
    Move-After v c at (Move.move target p bin) = record {
      list' = v.list;
      run =
          subst
            (λ ps.
              Shared.Run a l first
                (record { state = record s.state { mylist = v.list }; pcs = ps }))
            (sym (set-same (map forget s.pcs) i (get_elem?-map forget s.pcs i at))) v.run;
      still = λ z. absurd (
          omega (
            arith,
            z,
            le-total (writes lock print a l) s.pcs i _ at,
            total-set (writes lock print a l) s.pcs i _ _ at,
          ));
      own =
          IsMoving-next lock print a l v.list s.state.mylist s.state.item target p bin
            (v.fits i _ at) (once_in_moving v c (v.fits i _ at));
      others = λ r out f. Fits-outside _ _ _ r (out refl).0 (out refl).1;
    }
    Move-After v c at (Move.leave_moving target bin) = After-leave v i target bin at
    Move-After v c at (Move.free bin p ps e) =
        After-shared v i _ _ _ at refl (Shared.Move.free bin p ps e) tt
    Move-After v c at (Move.done bin e) = After-shared v i _ _ _ at refl (Shared.Move.done bin e) tt
    Move-After v c at (Move.enter_reading b e) =
        After-quiet v i _ (reading b 0 (first_node (nodes s.state.mylist))) at refl (omega arith) (
          IsReading-start lock print a l v.list s.state.mylist s.state.item b
            (v.still (lock.no_writer _ _ e)))
    Move-After v c at (Move.read b used p e) = After-quiet v i _ _ at refl (omega arith) (
        IsReading-next lock print a l v.list s.state.mylist s.state.item b used p (v.fits i _ at)
          (once_in_reading v c (v.fits i _ at)) e)
    Move-After v c at (Move.leave_full b used p e) = After-quiet v i _ _ at refl (omega arith) tt
    Move-After v c at (Move.leave_reading b used) = After-quiet v i _ _ at refl (omega arith) tt
    Move-After v c at (Move.answer b used) = After-quiet v i _ _ at refl (omega arith) tt

  pub After-Fits :
      {first : Shared.System a l} {s : System lock print a l} {m : Modlist a l}
      {p q : Pc lock print a l} (v : Sim first s) (i : ℕ)
      → get_elem? s.pcs i ≡ some p
      → (t : After first v.list s i p m q) → (j : ℕ) (r : Pc lock print a l)
      → get_elem? (set s.pcs i q) j ≡ some r
      → Fits t.list' m.mylist m.item r
  After-Fits {s = s} {m} {p} {q} v i at t j r ej = elim (Bool-cases (i == j)) [
    | inl same ↦
        let there = ap (λ k. get_elem? (set s.pcs i q) k) ((==_iff i j).0 same) ∙ ej in
        subst (λ c. Fits t.list' m.mylist m.item c)
          (eq_of_some (sym (get_elem?-set_self s.pcs i at) ∙ there)) t.own
    | inr other ↦
        let ne : i ≢ j = λ e. ground arith in
        let there = sym (get_elem?-set_ne s.pcs i j q ne) ∙ ej in
        t.others r (λ w. others_outside s.pcs i j p r v.apart w at there ne) (v.fits j r there)
  ]

-- ===== src/Modlist/Sections/Matching.antt =====
-- parteA/modlist.c and opcional1/modlist.c: a state with sections under way against the state in which
-- each section of a writer is one step at its end.
use mathlib.Core.List.{map}
use mathlib.Core.Path.{subst}
use dso_fifo.Prelude.{
  ℕ, ◌+◌, ◌≡◌, ◌≤◌, refl, sym, ap, ◌∙◌, Option, none, some, arith, ◌==◌, if◌then◌else◌,
}
use dso_fifo.Allocator.{Allocator, count, count-append}
use dso_fifo.KernelList.{KernelList}
use dso_fifo.Modlist.{read_loop, values_of, move_nodes}
use dso_fifo.Modlist.Shared
use dso_fifo.Modlist.Sections.{
  SectionLock, chosen, Pc, idle, waiting_to_add, adding, moving, freeing, reading, answering,
  System, reads, writes,
}
use dso_fifo.Modlist.Sections.Walk.{Walk, Walk-count, values_of-agree, move_nodes-agree}

module _ (a : Allocator) (l : KernelList) where
  open l use {Head, nodes, list_head}

  -- a writer in its loop, against the list as it was when the writer came in
  pub record IsMoving (list mylist : Head) (item : ℕ → ℕ) (target elem : Option ℕ) (bin : Head)
      : Type 0 where
    pub walk : Walk elem (nodes mylist)
    pub rest :
        move_nodes a l (chosen target item) walk.left mylist bin
        ≡ move_nodes a l (chosen target item) (nodes list) list list_head
    pub counted : (q : ℕ) → count q (nodes mylist) + count q (nodes bin) ≡ count q (nodes list)

module _ (print : ℕ → ℕ → ℕ) (l : KernelList) where
  open l use {Head, nodes}

  -- a reader in its loop: what is left gives what the whole list gives
  pub record IsReading (list mylist : Head) (item : ℕ → ℕ) (b used : ℕ) (elem : Option ℕ)
      : Type 0 where
    pub still : mylist ≡ list
    pub walk : Walk elem (nodes mylist)
    pub rest :
        read_loop print b used (values_of item walk.left)
        ≡ read_loop print b 0 (values_of item (nodes mylist))

module _ {lock : SectionLock} {print : ℕ → ℕ → ℕ} {a : Allocator} {l : KernelList} where
  open l use {Head, nodes, list_head}

  -- A writer behind the lock counts as one that has not begun.
  abbrev pub forget : Pc lock print a l → Shared.Pc a l
  forget idle = Shared.outside
  forget (waiting_to_add p) = Shared.linking p
  forget (adding p) = Shared.linking p
  forget (moving target elem bin) = Shared.outside
  forget (freeing bin) = Shared.clearing bin
  forget (reading b used elem) = Shared.outside
  forget (answering b used) = Shared.outside

  abbrev pub settle : Head → System lock print a l → Shared.System a l
  settle list s = record { state = record s.state { mylist = list }; pcs = map forget s.pcs }

  abbrev pub Fits : Head → Head → (ℕ → ℕ) → Pc lock print a l → Type 0
  Fits list mylist item idle = Unit
  Fits list mylist item (waiting_to_add p) = Unit
  Fits list mylist item (adding p) = mylist ≡ list
  Fits list mylist item (moving target elem bin) = IsMoving a l list mylist item target elem bin
  Fits list mylist item (freeing bin) = Unit
  Fits list mylist item (reading b used elem) = IsReading print l list mylist item b used elem
  Fits list mylist item (answering b used) = Unit

  -- A process that is not behind the lock fits any list.
  pub Fits-outside :
      (list mylist : Head) (item : ℕ → ℕ) (p : Pc lock print a l)
      → reads lock print a l p ≡ 0
      → writes lock print a l p ≡ 0
      → Fits list mylist item p
  Fits-outside list mylist item idle r w = tt
  Fits-outside list mylist item (waiting_to_add p) r w = tt
  Fits-outside list mylist item (adding p) r w = absurd (omega (arith, w))
  Fits-outside list mylist item (moving target elem bin) r w = absurd (omega (arith, w))
  Fits-outside list mylist item (freeing bin) r w = tt
  Fits-outside list mylist item (reading b used elem) r w = absurd (omega (arith, r))
  Fits-outside list mylist item (answering b used) r w = tt

  -- An item at an address that is in no list may change.
  pub Fits-make :
      (list mylist : Head) (item : ℕ → ℕ) (n p : ℕ)
      → count p (nodes list) ≡ 0
      → (r : Pc lock print a l) → Fits list mylist item r
      → Fits list mylist (λ q. if q == p then n else item q) r
  Fits-make list mylist item n p absent idle f = tt
  Fits-make list mylist item n p absent (waiting_to_add q) f = tt
  Fits-make list mylist item n p absent (adding q) f = f
  Fits-make list mylist item n p absent (moving target elem bin) f = record {
    walk = f.walk;
    rest =
        move_nodes-agree a l _ _ f.walk.left mylist bin (λ q c. same q target (
          omega (
            arith,
            c,
            f.counted q,
            ap (count q) f.walk.split,
            count-append q f.walk.front f.walk.left,
          )))
        ∙ f.rest
        ∙ move_nodes-agree a l _ _ (nodes list) list list_head (λ q c. sym (same q target c));
    counted = f.counted;
  }
    where
      same :
          (q : ℕ) (target : Option ℕ)
          → 1 ≤ count q (nodes list)
          → chosen target (λ q. if q == p then n else item q) q ≡ chosen target item q
      same q none c = refl
      same q (some v) c = ground (arith, absent)
  Fits-make list mylist item n p absent (freeing bin) f = tt
  Fits-make list mylist item n p absent (reading b used elem) f = record {
    still = f.still;
    walk = f.walk;
    rest =
        ap (read_loop print b used) (
          values_of-agree _ item f.walk.left (λ q c. same q (
            omega (
              arith,
              c,
              ap (λ h. count q (nodes h)) f.still,
              ap (count q) f.walk.split,
              count-append q f.walk.front f.walk.left,
            ))))
        ∙ f.rest
        ∙ ap (read_loop print b 0) (
            values_of-agree item _ (nodes mylist)
              (λ q c. sym (same q (omega (arith, c, ap (λ h. count q (nodes h)) f.still)))));
  }
    where
      same : (q : ℕ) → 1 ≤ count q (nodes list) → (if q == p then n else item q) ≡ item q
      same q c = ground (arith, absent)
  Fits-make list mylist item n p absent (answering b used) f = tt

  -- the node at which a loop behind the lock stands
  abbrev pub stands_at : Pc lock print a l → Option ℕ
  stands_at (moving target elem bin) = elem
  stands_at (reading b used elem) = elem
  stands_at _ = none

  pub Fits-listed :
      (list mylist : Head) (item : ℕ → ℕ) (q : ℕ) (p : Pc lock print a l)
      → stands_at p ≡ some q
      → Fits list mylist item p
      → (1 ≤ count q (nodes mylist)) × (count q (nodes mylist) ≤ count q (nodes list))
  Fits-listed list mylist item q idle e f = cc
  Fits-listed list mylist item q (waiting_to_add p) e f = cc
  Fits-listed list mylist item q (adding p) e f = cc
  Fits-listed list mylist item q (moving target elem bin) e f =
      (Walk-count (subst (λ o. Walk o (nodes mylist)) e f.walk), omega (arith, f.counted q))
  Fits-listed list mylist item q (freeing bin) e f = cc
  Fits-listed list mylist item q (reading b used elem) e f = (
    Walk-count (subst (λ o. Walk o (nodes mylist)) e f.walk),
    omega (arith, ap (λ h. count q (nodes h)) f.still),
  )
  Fits-listed list mylist item q (answering b used) e f = cc

-- ===== src/Modlist/Sections/Loops.antt =====
-- parteA/modlist.c and opcional1/modlist.c: one turn of each loop behind the lock keeps what its
-- process relies on.
use mathlib.Core.List.{append_assoc}
use dso_fifo.Prelude.{
  ℕ, ◌≡◌, ◌≤◌, inl, inr, refl, sym, ap, ◌∙◌, Bool, true, false, Option, none, some, List, [], ◌∷◌,
  ◌++◌, arith, ◌==◌, Bool-cases, add32, sub32, length, suc,
}
use dso_fifo.Allocator.{Allocator, count, count-append, count-remove, remove}
use dso_fifo.KernelList.{KernelList}
use dso_fifo.Modlist.{read_loop, values_of, move_nodes}
use dso_fifo.Modlist.Sections.{SectionLock, chosen, first_node, next_node, move_node}
use dso_fifo.Modlist.Sections.Walk.{
  Walk, first_node-some, first_node-none, count-front, next_node-middle, remove_middle,
}
use dso_fifo.Modlist.Sections.Matching.{IsMoving, IsReading}

-- The loop stands at a node of the list, and the next node is the one beyond it.
record IsAt (p : ℕ) (ps : List ℕ) (left : List ℕ) : Type 0 where
  front : List ℕ
  beyond : List ℕ
  split : ps ≡ front ++ p ∷ beyond
  here : left ≡ p ∷ beyond
  unseen : count p front ≡ 0
  next : next_node p ps ≡ first_node beyond

Walk-IsAt : {p : ℕ} {ps : List ℕ} (w : Walk (some p) ps) → count p ps ≤ 1 → IsAt p ps w.left
Walk-IsAt {p} {ps} w once =
    let (beyond, e) = first_node-some w.left w.at in
    let split = w.split ∙ ap (λ qs. w.front ++ qs) e in
    let unseen = count-front p w.front beyond (omega (arith, once, ap (count p) split)) in
    record {
      front = w.front;
      beyond = beyond;
      split = split;
      here = e;
      unseen = unseen;
      next = ap (next_node p) split ∙ next_node-middle p w.front beyond unseen;
    }

abbrev Walk-next : {p : ℕ} {ps left : List ℕ} → IsAt p ps left → Walk (next_node p ps) ps
Walk-next {p} t = record {
  front = t.front ++ p ∷ [];
  left = t.beyond;
  split = t.split ∙ sym (append_assoc t.front (p ∷ []) t.beyond);
  at = sym t.next;
}

-- A turn brings the loop one node nearer to the end.
pub Walk-stays :
    {p : ℕ} {ps : List ℕ} (w : Walk (some p) ps)
    → count p ps ≤ 1
    → (v : Walk (next_node p ps) ps) × (suc (length v.left) ≡ length w.left)
Walk-stays w once = let t = Walk-IsAt w once in (Walk-next t, sym (ap length t.here))

abbrev Walk-moved :
    {p : ℕ} {ps qs left : List ℕ} → IsAt p ps left → qs ≡ remove p ps → Walk (next_node p ps) qs
Walk-moved {p} t e = record {
  front = t.front;
  left = t.beyond;
  split = e ∙ ap (remove p) t.split ∙ remove_middle p t.front t.beyond t.unseen;
  at = sym t.next;
}

module _ (lock : SectionLock) (print : ℕ → ℕ → ℕ) (a : Allocator) (l : KernelList) where
  open l use {Head, nodes, list_head, list_move, moved_from, moved_to}

  pub Walk-move_node :
      (picked : ℕ → Bool) (p : ℕ) (mylist bin : Head) (w : Walk (some p) (nodes mylist))
      → count p (nodes mylist) ≤ 1
      → (v : Walk
          (next_node p (nodes mylist))
          (nodes (move_node lock print a l picked p mylist bin).0))
        × (suc (length v.left) ≡ length w.left)
  Walk-move_node picked p mylist bin w once = elim (Bool-cases (picked p)) [
    | inl e ↦ rw e (
      Walk-moved (Walk-IsAt w once) (moved_from p mylist bin),
      sym (ap length (Walk-IsAt w once).here),
    )
    | inr e ↦ rw e (Walk-stays w once)
  ]

  pub IsReading-start :
      (list mylist : Head) (item : ℕ → ℕ) (b : ℕ)
      → mylist ≡ list
      → IsReading print l list mylist item b 0 (first_node (nodes mylist))
  IsReading-start list mylist item b e = record {
    still = e;
    walk = record { front = []; left = nodes mylist; split = refl; at = refl };
    rest = refl;
  }

  pub IsReading-next :
      (list mylist : Head) (item : ℕ → ℕ) (b used p : ℕ)
      → IsReading print l list mylist item b used (some p)
      → count p (nodes mylist) ≤ 1
      → (sub32 b used == 0) ≡ false
      → IsReading print l list mylist item b
          (add32 used (print (sub32 b used) (item p)))
          (next_node p (nodes mylist))
  unfolding read_loop values_of
  IsReading-next list mylist item b used p f once room =
      let t = Walk-IsAt f.walk once in
      record {
        still = f.still;
        walk = Walk-next t;
        rest =
            sym (rw room refl)
            ∙ ap (λ qs. read_loop print b used (values_of item qs)) (sym t.here)
            ∙ f.rest;
      }

  -- The loop ends at the end of the list, or where no room is left.
  pub IsReading-end :
      (list mylist : Head) (item : ℕ → ℕ) (b used : ℕ)
      → IsReading print l list mylist item b used none
      → used ≡ read_loop print b 0 (values_of item (nodes mylist))
  unfolding read_loop values_of
  IsReading-end list mylist item b used f =
      ap (λ qs. read_loop print b used (values_of item qs))
        (sym (first_node-none f.walk.left f.walk.at))
      ∙ f.rest

  pub IsReading-full :
      (list mylist : Head) (item : ℕ → ℕ) (b used p : ℕ)
      → IsReading print l list mylist item b used (some p)
      → (sub32 b used == 0) ≡ true
      → used ≡ read_loop print b 0 (values_of item (nodes mylist))
  unfolding read_loop values_of
  IsReading-full list mylist item b used p f full =
      let (beyond, e) = first_node-some f.walk.left f.walk.at in
      sym (rw full refl) ∙ ap (λ qs. read_loop print b used (values_of item qs)) (sym e) ∙ f.rest

  pub IsMoving-start :
      (list mylist : Head) (item : ℕ → ℕ) (target : Option ℕ)
      → mylist ≡ list
      → IsMoving a l list mylist item target (first_node (nodes mylist)) list_head
  IsMoving-start list mylist item target e = record {
    walk = record { front = []; left = nodes mylist; split = refl; at = refl };
    rest = ap (λ h. move_nodes a l (chosen target item) (nodes h) h list_head) e;
    counted = λ q. omega (arith, ap (λ h. count q (nodes h)) e, ap (count q) l.nodes-list_head);
  }

  pub IsMoving-next :
      (list mylist : Head) (item : ℕ → ℕ) (target : Option ℕ) (p : ℕ) (bin : Head)
      → IsMoving a l list mylist item target (some p) bin
      → count p (nodes mylist) ≤ 1
      → IsMoving a l list
          (move_node lock print a l (chosen target item) p mylist bin).0
          item
          target
          (next_node p (nodes mylist))
          (move_node lock print a l (chosen target item) p mylist bin).1
  unfolding move_nodes
  IsMoving-next list mylist item target p bin f once =
      let t = Walk-IsAt f.walk once in
      elim (Bool-cases (chosen target item p)) [
        | inl e ↦ rw e (record {
          walk = Walk-moved t (moved_from p mylist bin);
          rest = sym (rw (e, move_nodes) refl) ∙ unmoved t.here ∙ f.rest;
          counted = λ q. omega (
            arith,
            f.counted q,
            ap (count q) (moved_from p mylist bin),
            ap (count q) (moved_to p mylist bin),
            count-remove q p (nodes mylist)
                (ground (arith, ap (count p) t.split, count-append p t.front (p ∷ t.beyond))),
          );
        })
        | inr e ↦ rw e (record {
          walk = Walk-next t;
          rest = sym (rw (e, move_nodes) refl) ∙ unmoved t.here ∙ f.rest;
          counted = f.counted;
        })
      ]
    where
      unmoved :
          {qs : List ℕ}
          → f.walk.left ≡ qs
          → move_nodes a l (chosen target item) qs mylist bin
            ≡ move_nodes a l (chosen target item) f.walk.left mylist bin
      unmoved e = ap (λ qs. move_nodes a l (chosen target item) qs mylist bin) (sym e)

  -- what the loop has done at its end
  pub IsMoving-end :
      (list mylist : Head) (item : ℕ → ℕ) (target : Option ℕ) (bin : Head)
      → IsMoving a l list mylist item target none bin
      → move_nodes a l (chosen target item) (nodes list) list list_head ≡ (mylist, bin)
  unfolding move_nodes
  IsMoving-end list mylist item target bin f =
      sym f.rest
      ∙ ap (λ qs. move_nodes a l (chosen target item) qs mylist bin)
          (first_node-none f.walk.left f.walk.at)

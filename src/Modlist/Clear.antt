-- ===== src/Modlist/Clear.antt =====
-- Moving chosen nodes to a local list and freeing them: what is left of the list and of the heap.
use mathlib.Core.List.{append_assoc}
use dso_fifo.Prelude.{
  arith, ◌+◌, ℕ, ◌≡◌, refl, sym, ap, ◌∙◌, inl, inr, Bool, true, false, List, [], ◌∷◌, ◌++◌,
  if◌then◌else◌, Bool-cases,
}
use dso_fifo.Allocator.{Allocator, count, remove, remove-cons, remove-cons_ne, remove_comm}
use dso_fifo.KernelList.{KernelList}
use dso_fifo.Modlist.{Modlist, clear_nodes, unsafe_clear_list, move_nodes, discard}

module _ (chosen : ℕ → Bool) where
  abbrev Unchosen : List ℕ → Type 0
  Unchosen [] = Unit {0}
  Unchosen (x ∷ xs) = (chosen x ≡ false) × Unchosen xs

  -- the nodes that are not chosen
  unfoldable pub reject : List ℕ → List ℕ
  reject [] = []
  reject (x ∷ xs) = if chosen x then reject xs else x ∷ reject xs

  -- the chosen nodes, the last first, in front of `acc`
  select_onto : List ℕ → List ℕ → List ℕ
  select_onto [] acc = acc
  select_onto (x ∷ xs) acc = select_onto xs (if chosen x then x ∷ acc else acc)

  remove_chosen : List ℕ → List ℕ → List ℕ
  remove_chosen [] ys = ys
  remove_chosen (x ∷ xs) ys = remove_chosen xs (if chosen x then remove x ys else ys)

  Unchosen-snoc :
      (kept : List ℕ) (x : ℕ) → Unchosen kept → chosen x ≡ false → Unchosen (kept ++ x ∷ [])
  Unchosen-snoc [] x u e = (e, tt)
  Unchosen-snoc (y ∷ kept) x u e = (u.0, Unchosen-snoc kept x u.1 e)

  remove-middle :
      (kept : List ℕ) (x : ℕ) (ys : List ℕ)
      → Unchosen kept
      → chosen x ≡ true
      → remove x (kept ++ x ∷ ys) ≡ kept ++ ys
  remove-middle [] x ys u e = remove-cons x ys
  remove-middle (y ∷ kept) x ys u e =
      remove-cons_ne x y (kept ++ x ∷ ys) (λ same. cc (ap chosen same))
      ∙ ap (λ l. y ∷ l) (remove-middle kept x ys u.1 e)

  remove_chosen-append :
      (xs kept rest : List ℕ)
      → Unchosen kept
      → remove_chosen xs (kept ++ (xs ++ rest)) ≡ kept ++ (reject xs ++ rest)
  unfolding remove_chosen reject
  remove_chosen-append [] kept rest u = refl
  remove_chosen-append (x ∷ xs) kept rest u = elim (Bool-cases (chosen x)) [
    | inl e ↦
        rw (e) (rw (remove-middle kept x (xs ++ rest) u e) (remove_chosen-append xs kept rest u))
    | inr e ↦ rw (e) (
        ap (remove_chosen xs) (sym (append_assoc kept (x ∷ []) (xs ++ rest)))
        ∙ remove_chosen-append xs (kept ++ x ∷ []) rest (Unchosen-snoc kept x u e)
        ∙ append_assoc kept (x ∷ []) (reject xs ++ rest))
  ]

  remove_chosen-remove :
      (xs : List ℕ) (y : ℕ) (ys : List ℕ)
      → remove_chosen xs (remove y ys) ≡ remove y (remove_chosen xs ys)
  unfolding remove_chosen
  remove_chosen-remove [] y ys = refl
  remove_chosen-remove (x ∷ xs) y ys = elim (Bool-cases (chosen x)) [
    | inl e ↦
        rw e (ap (remove_chosen xs) (remove_comm x y ys) ∙ remove_chosen-remove xs y (remove x ys))
    | inr e ↦ rw e (remove_chosen-remove xs y ys)
  ]

  -- the blocks of the nodes `ps` freed, one after the other
  remove_all : List ℕ → List ℕ → List ℕ
  remove_all [] ys = ys
  remove_all (p ∷ ps) ys = remove_all ps (remove p ys)

  remove_all-select_onto :
      (xs acc ys : List ℕ)
      → remove_all (select_onto xs acc) ys ≡ remove_all acc (remove_chosen xs ys)
  unfolding remove_all select_onto remove_chosen
  remove_all-select_onto [] acc ys = refl
  remove_all-select_onto (x ∷ xs) acc ys = elim (Bool-cases (chosen x)) [
    | inl e ↦ rw e (
        remove_all-select_onto xs (x ∷ acc) ys
        ∙ ap (remove_all acc) (sym (remove_chosen-remove xs x ys)))
    | inr e ↦ rw e (remove_all-select_onto xs acc ys)
  ]

  count-split :
      (q : ℕ) (xs acc : List ℕ)
      → count q (reject xs) + count q (select_onto xs acc) ≡ count q xs + count q acc
  unfolding reject select_onto
  count-split q [] acc = omega arith
  count-split q (x ∷ xs) acc = elim (Bool-cases (chosen x)) [
    | inl e ↦ rw e (omega (arith, count-split q xs (x ∷ acc)))
    | inr e ↦ rw e (omega (arith, count-split q xs acc))
  ]

  module _ (a : Allocator) (l : KernelList) where
    open a use {Heap, owned}
    open l use {Head, nodes, list_head, list_move, moved_from, moved_to}

    clear_nodes-owned :
        (ps : List ℕ) (list : Head) (h : Heap)
        → owned (clear_nodes a l ps list h).1 ≡ remove_all ps (owned h)
    unfolding clear_nodes remove_all
    clear_nodes-owned [] list h = refl
    clear_nodes-owned (p ∷ ps) list h =
        clear_nodes-owned ps _ _ ∙ ap (remove_all ps) (a.vfree_owned h p)

    move_nodes-nodes :
        (ps kept : List ℕ) (list bin : Head)
        → Unchosen kept
        → nodes list ≡ kept ++ ps
        → (nodes (move_nodes a l chosen ps list bin).0 ≡ kept ++ reject ps)
          × (nodes (move_nodes a l chosen ps list bin).1 ≡ select_onto ps (nodes bin))
    unfolding move_nodes reject select_onto
    move_nodes-nodes [] kept list bin u e = (e, refl)
    move_nodes-nodes (p ∷ ps) kept list bin u e = elim (Bool-cases (chosen p)) [
      | inl c ↦
          let (left, out) =
            move_nodes-nodes ps kept (list_move p list bin).0 (list_move p list bin).1 u
              (moved_from p list bin ∙ ap (remove p) e ∙ remove-middle kept p ps u c) in
          rw (c, move_nodes) (left, out ∙ ap (select_onto ps) (moved_to p list bin))
      | inr c ↦
          let (left, out) =
            move_nodes-nodes ps (kept ++ p ∷ []) list bin (Unchosen-snoc kept p u c)
              (e ∙ sym (append_assoc kept (p ∷ []) ps)) in
          rw (c, move_nodes) (left ∙ append_assoc kept (p ∷ []) (reject ps), out)
    ]

    -- No node is lost or made between the two lists.
    pub move_nodes-count :
        (q : ℕ) (list : Head)
        → count q (nodes (move_nodes a l chosen (nodes list) list list_head).0)
            + count q (nodes (move_nodes a l chosen (nodes list) list list_head).1)
          ≡ count q (nodes list)
    move_nodes-count q list =
        let (left, out) = move_nodes-nodes (nodes list) [] list list_head tt refl in
        omega (
          arith,
          ap (count q) left,
          ap (count q) out,
          ap (λ ns. count q (select_onto (nodes list) ns)) l.nodes-list_head,
          count-split q (nodes list) [],
        )

    -- The nodes that are not chosen stay in order, and the blocks of the chosen ones are freed.
    pub discard_lem :
        (s : Modlist a l) (rest : List ℕ)
        → owned s.heap ≡ nodes s.mylist ++ rest
        → (nodes (discard a l chosen s).mylist ≡ reject (nodes s.mylist))
          × (owned (discard a l chosen s).heap ≡ reject (nodes s.mylist) ++ rest)
    unfolding discard unsafe_clear_list remove_all
    discard_lem s rest e =
        let (left, out) = move_nodes-nodes (nodes s.mylist) [] s.mylist list_head tt refl in
        (
          left,
          clear_nodes-owned (nodes bin) bin s.heap
              ∙ ap (λ ps. remove_all ps (owned s.heap))
                  (out ∙ ap (select_onto (nodes s.mylist)) l.nodes-list_head)
              ∙ ap (remove_all (select_onto (nodes s.mylist) [])) e
              ∙ remove_all-select_onto (nodes s.mylist) [] (nodes s.mylist ++ rest)
              ∙ remove_chosen-append (nodes s.mylist) [] rest tt,
        )
      where
        bin : Head
        bin = (move_nodes a l chosen (nodes s.mylist) s.mylist list_head).1

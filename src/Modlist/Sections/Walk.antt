-- ===== src/Modlist/Sections/Walk.antt =====
-- parteA/modlist.c and opcional1/modlist.c: following the links of a list, node by node, against the
-- loops over all the nodes.
use dso_fifo.Prelude.{ℕ, ◌≡◌, ◌≤◌, ap, refl, Bool, Option, none, some, List, [], ◌∷◌, ◌++◌, arith}
use dso_fifo.Allocator.{Allocator, count, count-append, remove}
use dso_fifo.KernelList.{KernelList}
use dso_fifo.Modlist.{values_of, move_nodes}
use dso_fifo.Modlist.Sections.{first_node, next_node}

-- `elem` is the first of the nodes `left` that the loop has not come to.
pub record Walk (elem : Option ℕ) (ps : List ℕ) : Type 0 where
  pub front : List ℕ
  pub left : List ℕ
  pub split : ps ≡ front ++ left
  pub at : first_node left ≡ elem

pub first_node-some : (ps : List ℕ) {p : ℕ} → first_node ps ≡ some p → (qs : List ℕ) × (ps ≡ p ∷ qs)
first_node-some [] h = cc
first_node-some (x ∷ ps) h = (ps, cc)

pub first_node-none : (ps : List ℕ) → first_node ps ≡ none → ps ≡ []
first_node-none [] h = refl
first_node-none (x ∷ ps) h = cc

pub count-front : (p : ℕ) (front qs : List ℕ) → count p (front ++ p ∷ qs) ≤ 1 → count p front ≡ 0
count-front p front qs h = ground (arith, count-append p front (p ∷ qs))

pub next_node-middle :
    (p : ℕ) (front qs : List ℕ) → count p front ≡ 0 → next_node p (front ++ p ∷ qs) ≡ first_node qs
unfolding next_node
next_node-middle p [] qs h = ground arith
next_node-middle p (x ∷ front) qs h = ground (arith, next_node-middle p front qs)

pub remove_middle :
    (p : ℕ) (front qs : List ℕ) → count p front ≡ 0 → remove p (front ++ p ∷ qs) ≡ front ++ qs
unfolding remove
remove_middle p [] qs h = ground arith
remove_middle p (x ∷ front) qs h = ground (arith, remove_middle p front qs)

pub Walk-count : {p : ℕ} {ps : List ℕ} → Walk (some p) ps → 1 ≤ count p ps
Walk-count {p} w =
    let (after, e) = first_node-some w.left w.at in
    ground (arith, ap (count p) w.split, ap (count p) e, count-append p w.front w.left)

-- The loops see an item only through the nodes of their list.
pub values_of-agree :
    (f g : ℕ → ℕ) (ps : List ℕ)
    → ((q : ℕ) → 1 ≤ count q ps → f q ≡ g q)
    → values_of f ps ≡ values_of g ps
unfolding values_of
values_of-agree f g [] h = refl
values_of-agree f g (p ∷ ps) h =
    cc (h p (ground arith), values_of-agree f g ps (λ q c. h q (ground arith)))

module _ (a : Allocator) (l : KernelList) where
  open l use {Head}

  pub move_nodes-agree :
      (f g : ℕ → Bool) (ps : List ℕ) (list bin : Head)
      → ((q : ℕ) → 1 ≤ count q ps → f q ≡ g q)
      → move_nodes a l f ps list bin ≡ move_nodes a l g ps list bin
  unfolding move_nodes
  move_nodes-agree f g [] list bin h = refl
  move_nodes-agree f g (p ∷ ps) list bin h =
      rw (h p (ground arith)) (move_nodes-agree f g ps _ _ (λ q c. h q (ground arith)))

-- ===== src/KernelList.antt =====
-- The doubly linked lists of linux/list.h, as an interface: what a client may rely on.
use dso_fifo.Prelude.{ℕ, ◌≡◌, List, [], ◌∷◌}
use dso_fifo.Allocator.{remove}

-- A list head with the addresses of its nodes, from `next` on. `list_move` takes a node out of the
-- list that holds it and adds it at the front of another.
pub record KernelList : Type 1 where
  pub Head : Type 0
  pub nodes : Head → List ℕ
  pub list_head : Head
  pub list_add : ℕ → Head → Head
  pub list_del : ℕ → Head → Head
  pub list_move : ℕ → Head → Head → Head × Head
  pub nodes-list_head : nodes list_head ≡ []
  pub nodes-list_add : (p : ℕ) (h : Head) → nodes (list_add p h) ≡ p ∷ nodes h
  pub nodes-list_del : (p : ℕ) (h : Head) → nodes (list_del p h) ≡ remove p (nodes h)
  pub moved_from : (p : ℕ) (h k : Head) → nodes (list_move p h k).0 ≡ remove p (nodes h)
  pub moved_to : (p : ℕ) (h k : Head) → nodes (list_move p h k).1 ≡ p ∷ nodes k

-- ===== src/Modlist/Shared.antt =====
-- parteA/modlist.c: the handlers of any number of processes, which share the list under a spin lock.
-- Moving items to a local list is one step under the lock; allocating an item and freeing the items of
-- a local list are steps of their own, outside the lock.
use dso_fifo.Prelude.{
  ℕ, ◌+◌, ◌≤◌, ◌≡◌, refl, ap, true, some, List, [], ◌∷◌, arith, get_elem?, set, replicate, total,
  total-set, total-replicate, le-total, ◌==◌, if◌then◌else◌,
}
use dso_fifo.Allocator.{Allocator, IsClean, count, count-remove, count-Absent}
use dso_fifo.KernelList.{KernelList}
use dso_fifo.Modlist.{Modlist, sizeof_list_item_t, move_nodes}
use dso_fifo.Modlist.Clear.{move_nodes-count}

module _ (a : Allocator) (l : KernelList) where
  open a use {Heap, owned, vmalloc, vfree}
  open l use {Head, nodes, list_head, list_add, list_del}

  -- Where a process stands: outside, before the lock in `add_item_list` with its item, or behind the
  -- lock in `safe_clear_list` or `remove_items_list` with its local list.
  pub data Pc : Type 0 where
    outside : Pc
    linking : ℕ → Pc
    clearing : Head → Pc

  -- A process for whose item there is no memory faults, and has no further step.
  pub data Move (s : Modlist a l) : Pc → Modlist a l → Pc → Type 0 where
    make :
        (n p : ℕ)
        → (vmalloc s.heap sizeof_list_item_t).0 ≡ some p
        → Move s outside
            (record s {
              item = λ q. if q == p then n else s.item q;
              heap = (vmalloc s.heap sizeof_list_item_t).1;
            })
            (linking p)
    link : (p : ℕ) → Move s (linking p) (record s { mylist = list_add p s.mylist }) outside
    clear :
        Move s outside
          (record s { mylist = (move_nodes a l (λ _. true) (nodes s.mylist) s.mylist list_head).0 })
          (clearing (move_nodes a l (λ _. true) (nodes s.mylist) s.mylist list_head).1)
    pick_out :
        (n : ℕ)
        → Move s outside
            (record s {
              mylist = (move_nodes a l (λ p. s.item p == n) (nodes s.mylist) s.mylist list_head).0;
            })
            (clearing (move_nodes a l (λ p. s.item p == n) (nodes s.mylist) s.mylist list_head).1)
    free :
        (bin : Head) (p : ℕ) (ps : List ℕ)
        → nodes bin ≡ p ∷ ps
        → Move s (clearing bin) (record s { heap = vfree s.heap p }) (clearing (list_del p bin))
    done : (bin : Head) → nodes bin ≡ [] → Move s (clearing bin) s outside

  pub record System : Type 0 where
    pub state : Modlist a l
    pub pcs : List Pc

  pub data Step (s : System) : System → Type 0 where
    pick :
        (i : ℕ) {p q : Pc} {m : Modlist a l}
        → get_elem? s.pcs i ≡ some p
        → Move s.state p m q
        → Step s (record { state = m; pcs = set s.pcs i q })

  pub data Run (s : System) : System → Type 0 where
    here : Run s s
    next : {u v : System} → Run s u → Step u v → Run s v

  -- how often a process has the item at `q` in its hands
  abbrev pub in_hand : ℕ → Pc → ℕ
  in_hand q outside = 0
  in_hand q (linking p) = if p == q then 1 else 0
  in_hand q (clearing bin) = count q (nodes bin)

  -- what a step does to the blocks, seen from the block at `q`
  record Kept (q : ℕ) (s : Modlist a l) (p : Pc) (m : Modlist a l) (p' : Pc) : Type 0 where
    places :
        count q (nodes m.mylist) + in_hand q p' + count q (owned s.heap)
        ≡ count q (nodes s.mylist) + in_hand q p + count q (owned m.heap)
    once : count q (owned m.heap) ≤ 1

  Move-Kept :
      {s m : Modlist a l} {p p' : Pc} (q : ℕ)
      → ((r : ℕ) → in_hand r p ≤ count r (owned s.heap))
      → count q (owned s.heap) ≤ 1
      → Move s p m p'
      → Kept q s p m p'
  Move-Kept {s} q mine once (Move.make n p e) =
      let own = ap (count q) (a.vmalloc_gives s.heap sizeof_list_item_t p e) in
      let fresh = count-Absent p (owned s.heap) (a.vmalloc_fresh s.heap sizeof_list_item_t p e) in
      record { places = omega (arith, own); once = ground (arith, own, fresh, once) }
  Move-Kept {s} q mine once (Move.link p) = record {
    places = omega (arith, ap (count q) (l.nodes-list_add p s.mylist));
    once = once;
  }
  Move-Kept {s} q mine once Move.clear = record {
    places = omega (arith, move_nodes-count (λ _. true) a l q s.mylist);
    once = once;
  }
  Move-Kept {s} q mine once (Move.pick_out n) = record {
    places = omega (arith, move_nodes-count (λ p. s.item p == n) a l q s.mylist);
    once = once;
  }
  Move-Kept {s} q mine once (Move.free bin p ps e) =
      let in_bin : 1 ≤ count p (nodes bin) = ground (arith, ap (count p) e) in
      let gone = ap (count q) (a.vfree_owned s.heap p) in
      let left = ap (count q) (l.nodes-list_del p bin) in
      let fewer = count-remove q p (owned s.heap) (omega (arith, in_bin, mine p)) in
      record {
        places = omega (arith, gone, left, fewer, count-remove q p (nodes bin) in_bin);
        once = omega (arith, gone, fewer, once);
      }
  Move-Kept {s} q mine once (Move.done bin e) = record {
    places = omega (arith, ap (count q) e);
    once = once;
  }

  -- The blocks are those of the list, those in the hands of a process, and the blocks `rest` of others.
  pub record Inv (rest : List ℕ) (s : System) : Type 0 where
    pub accounted :
        (q : ℕ)
        → count q (owned s.state.heap)
          ≡ count q (nodes s.state.mylist) + total (in_hand q) s.pcs + count q rest
    pub once : (q : ℕ) → count q (owned s.state.heap) ≤ 1

  -- The processes are outside any handler, and no block is there twice.
  pub record IsStart (rest : List ℕ) (s : System) : Type 0 where
    pub processes : ℕ
    pub all_outside : s.pcs ≡ replicate processes outside
    pub blocks :
        (q : ℕ) → count q (owned s.state.heap) ≡ count q (nodes s.state.mylist) + count q rest
    pub clean : IsClean a s.state.heap

  pub Inv-start : {rest : List ℕ} {s : System} → IsStart rest s → Inv rest s
  Inv-start f = record {
    accounted = λ q. omega (
      arith,
      f.blocks q,
      ap (total (in_hand q)) f.all_outside,
      total-replicate (in_hand q) outside f.processes refl,
    );
    once = f.clean.once;
  }

  Step-Inv : {rest : List ℕ} {s u : System} → Step s u → Inv rest s → Inv rest u
  Step-Inv {s = s} (pick i {p} {q = p'} {m} at mv) v =
      let mine : ((r : ℕ) → in_hand r p ≤ count r (owned s.state.heap)) =
        λ r. omega (arith, v.accounted r, le-total (in_hand r) s.pcs i p at) in
      record {
        accounted = λ q. omega (
          arith,
          v.accounted q,
          (Move-Kept q mine (v.once q) mv).places,
          total-set (in_hand q) s.pcs i p p' at,
        );
        once = λ q. (Move-Kept q mine (v.once q) mv).once;
      }

  pub Run-Inv : {rest : List ℕ} {s u : System} → Run s u → Inv rest s → Inv rest u
  Run-Inv here v = v
  Run-Inv (next r st) v = Step-Inv st (Run-Inv r v)

  -- From a state in which all processes are outside the handlers and no block is there twice,
  -- whatever the order of the processes: each allocated block is, exactly once, an item of the
  -- list, an item that one process is about to link or to free, or a block that was there before.
  -- So no item is lost, none is freed twice, and none is freed while it is in the list.
  pub items_accounted :
      {rest : List ℕ} {first s : System}
      → IsStart rest first
      → Run first s
      → (q : ℕ)
      → (count q (owned s.state.heap)
          ≡ count q (nodes s.state.mylist) + total (in_hand q) s.pcs + count q rest)
        × (count q (owned s.state.heap) ≤ 1)
  items_accounted f r q = let v = Run-Inv r (Inv-start f) in (v.accounted q, v.once q)

-- ===== src/Modlist/Sections.antt =====
-- parteA/modlist.c and opcional1/modlist.c: the sections behind the lock of the list, node by node, for
-- any number of processes. A reader follows the links of the list and prints; a writer adds an
-- item, or moves items to its local list.
pub mod Walk
pub mod Apart
pub mod Matching
pub mod Loops
pub mod Steps
pub mod Simulation
pub mod Atomic
pub mod Ends
pub mod Accounts
use dso_fifo.Prelude.{
  ℕ, ◌+◌, ◌≡◌, Bool, true, false, Option, none, some, List, [], ◌∷◌, ◌==◌, if◌then◌else◌, add32,
  sub32, get_elem?, set, total,
}
use dso_fifo.Allocator.{Allocator}
use dso_fifo.KernelList.{KernelList}
use dso_fifo.Modlist.{Modlist, sizeof_list_item_t}

-- The lock, as an interface: whether a process that asks is let in while so many processes read and
-- so many write. Nobody reads beside a writer, and a writer is alone. With a spin lock all
-- sections are alone.
pub record SectionLock : Type 0 where
  pub lets_read : ℕ → ℕ → Bool
  pub lets_write : ℕ → ℕ → Bool
  pub no_writer : (r w : ℕ) → lets_read r w ≡ true → w ≡ 0
  pub alone : (r w : ℕ) → lets_write r w ≡ true → r + w ≡ 0

-- the node behind the head of the list, if there is one
abbrev pub first_node : List ℕ → Option ℕ
first_node [] = none
first_node (p ∷ ps) = some p

-- the node behind `p`; none where that is the head
unfoldable pub next_node : ℕ → List ℕ → Option ℕ
next_node p [] = none
next_node p (q ∷ qs) = if q == p then first_node qs else next_node p qs

-- the items that a writer moves: all of them, or those with a value
abbrev pub chosen : Option ℕ → (ℕ → ℕ) → ℕ → Bool
chosen none item p = true
chosen (some n) item p = item p == n

module _ (lock : SectionLock) (print : ℕ → ℕ → ℕ) (a : Allocator) (l : KernelList) where
  open a use {Heap, vmalloc, vfree}
  open l use {Head, nodes, list_head, list_add, list_del, list_move}

  -- one turn of the loop behind the lock in `safe_clear_list` or `remove_items_list`
  abbrev pub move_node : (ℕ → Bool) → ℕ → Head → Head → Head × Head
  move_node picked p list bin = if picked p then list_move p list bin else (list, bin)

  -- Where a process stands: outside the handlers; with an item before the lock in `add_item_list`, and
  -- behind it; behind the lock in a loop that moves items, with the value asked for, `elem` and the
  -- local list; with its local list after the lock; behind the lock in `procfile_read`, with
  -- `buffer_len`, `used` and `elem`; with what it returns.
  pub data Pc : Type 0 where
    idle : Pc
    waiting_to_add : ℕ → Pc
    adding : ℕ → Pc
    moving : Option ℕ → Option ℕ → Head → Pc
    freeing : Head → Pc
    reading : ℕ → ℕ → Option ℕ → Pc
    answering : ℕ → ℕ → Pc

  -- One step of a process, where `r` processes read and `w` write. The loop that moves items reads
  -- the next node before it moves a node.
  pub data Move (r w : ℕ) (s : Modlist a l) : Pc → Modlist a l → Pc → Type 0 where
    make :
        (n p : ℕ)
        → (vmalloc s.heap sizeof_list_item_t).0 ≡ some p
        → Move r w s idle
            (record s {
              item = λ q. if q == p then n else s.item q;
              heap = (vmalloc s.heap sizeof_list_item_t).1;
            })
            (waiting_to_add p)
    enter_add : (p : ℕ) → lock.lets_write r w ≡ true → Move r w s (waiting_to_add p) s (adding p)
    add : (p : ℕ) → Move r w s (adding p) (record s { mylist = list_add p s.mylist }) idle
    enter_moving :
        (target : Option ℕ)
        → lock.lets_write r w ≡ true
        → Move r w s idle s (moving target (first_node (nodes s.mylist)) list_head)
    move :
        (target : Option ℕ) (p : ℕ) (bin : Head)
        → Move r w s
            (moving target (some p) bin)
            (record s { mylist = (move_node (chosen target s.item) p s.mylist bin).0 })
            (moving target
              (next_node p (nodes s.mylist))
              (move_node (chosen target s.item) p s.mylist bin).1)
    leave_moving :
        (target : Option ℕ) (bin : Head) → Move r w s (moving target none bin) s (freeing bin)
    free :
        (bin : Head) (p : ℕ) (ps : List ℕ)
        → nodes bin ≡ p ∷ ps
        → Move r w s (freeing bin) (record s { heap = vfree s.heap p }) (freeing (list_del p bin))
    done : (bin : Head) → nodes bin ≡ [] → Move r w s (freeing bin) s idle
    enter_reading :
        (b : ℕ)
        → lock.lets_read r w ≡ true
        → Move r w s idle s (reading b 0 (first_node (nodes s.mylist)))
    read :
        (b used p : ℕ)
        → (sub32 b used == 0) ≡ false
        → Move r w s (reading b used (some p)) s (
            reading b (add32 used (print (sub32 b used) (s.item p))) (next_node p (nodes s.mylist)))
    leave_full :
        (b used p : ℕ)
        → (sub32 b used == 0) ≡ true
        → Move r w s (reading b used (some p)) s (answering b used)
    leave_reading : (b used : ℕ) → Move r w s (reading b used none) s (answering b used)
    answer : (b used : ℕ) → Move r w s (answering b used) s idle

  pub record System : Type 0 where
    pub state : Modlist a l
    pub pcs : List Pc

  abbrev pub reads : Pc → ℕ
  reads (reading b used elem) = 1
  reads _ = 0

  abbrev pub writes : Pc → ℕ
  writes (adding p) = 1
  writes (moving target elem bin) = 1
  writes _ = 0

  pub data Step (s : System) : System → Type 0 where
    pick :
        (i : ℕ) {p q : Pc} {m : Modlist a l}
        → get_elem? s.pcs i ≡ some p
        → Move (total reads s.pcs) (total writes s.pcs) s.state p m q
        → Step s (record { state = m; pcs = set s.pcs i q })

  pub data Run (s : System) : System → Type 0 where
    here : Run s s
    next : {u v : System} → Run s u → Step u v → Run s v

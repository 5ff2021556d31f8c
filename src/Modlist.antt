-- ===== src/Modlist.antt =====
-- opcional1/modlist.c, the list of integers behind /proc/modlist (parteA/modlist.c differs only in
-- the kind of lock): each call as a whole, with nothing in between.
pub mod Clear
pub mod Values
pub mod Streq
pub mod Proc
pub mod Shared
pub mod Sections
pub mod Calls
use dso_fifo.Prelude.{
  ℕ, ◌+◌, Bool, true, false, not, ◌&&◌, Option, none, some, List, [], ◌∷◌, ◌++◌, ltb, ◌==◌,
  if◌then◌else◌, ◌>>=◌, take, add32, sub32, length, replicate, ◌-◌, min,
}
use dso_fifo.Allocator.{Allocator}
use dso_fifo.KernelList.{KernelList}

-- `sizeof(list_item_t)` on 32-bit x86
abbrev pub sizeof_list_item_t : ℕ
sizeof_list_item_t = 12

-- `streq`: the loop goes on while both characters are equal and not NUL. The end of a list is
-- memory behind a string that has no NUL; no string with one reaches it.
unfoldable pub streq : List ℕ → List ℕ → Bool
streq [] b = true
streq (x ∷ a) [] = true
streq (x ∷ a) (y ∷ b) =
    if not (x == 0) && not (y == 0) && x == y then streq a b else not (not (x == 0) && not (y == 0))

-- What the write handler asks for.
pub data Command : Type 0 where
  add_item : ℕ → Command
  remove_items : ℕ → Command
  cleanup : Command
  nothing : Command

-- "cleanup", with its terminator
abbrev pub cleanup_text : List ℕ
cleanup_text = b'c' ∷ b'l' ∷ b'e' ∷ b'a' ∷ b'n' ∷ b'u' ∷ b'p' ∷ 0 ∷ []

-- The `if` ladder of `procfile_write` on the line. `scan_add` and `scan_remove` are `sscanf` with
-- the two formats: its result, and `num` after it.
unfoldable pub command_of : (List ℕ → ℕ × ℕ) → (List ℕ → ℕ × ℕ) → List ℕ → Command
command_of scan_add scan_remove line =
    if not ((scan_add line).0 == 0)
    then add_item (scan_add line).1
    else if not ((scan_remove line).0 == 0)
    then remove_items (scan_remove line).1
    else if streq line cleanup_text
    then cleanup
    else nothing

-- the first `min(count, 24)` bytes, with the terminator
unfoldable pub line_of : List ℕ → List ℕ
line_of user = take 24 user ++ 0 ∷ []

-- The loop of `procfile_read` on the items: `used` at its end. `print` is the result of `snprintf`
-- with "%d\n", given the size and the item.
unfoldable pub read_loop : (ℕ → ℕ → ℕ) → ℕ → ℕ → List ℕ → ℕ
read_loop print buffer_len used [] = used
read_loop print buffer_len used (v ∷ vs) =
    let rest = read_loop print buffer_len (add32 used (print (sub32 buffer_len used) v)) vs in
    if sub32 buffer_len used == 0 then used else rest

-- the integers in the list, the latest first
unfoldable pub values_of : (ℕ → ℕ) → List ℕ → List ℕ
values_of item [] = []
values_of item (p ∷ ps) = item p ∷ values_of item ps

module _ (a : Allocator) (l : KernelList) where
  open a use {Heap, vmalloc, vfree}
  open l use {Head, nodes, list_head, list_add, list_del, list_move}

  -- `mylist`, the field `data` of the items by address, and the heap.
  pub record Modlist : Type 0 where
    pub mylist : Head
    pub item : ℕ → ℕ
    pub heap : Heap

  -- the loop of `_unsafe_clear_list`, over the nodes that are left
  clear_nodes : List ℕ → Head → Heap → Head × Heap
  clear_nodes [] list h = (list, h)
  clear_nodes (p ∷ ps) list h = clear_nodes ps (list_del p list) (vfree h p)

  pub unsafe_clear_list : Head → Heap → Head × Heap
  unsafe_clear_list list h = clear_nodes (nodes list) list h

  -- The loops that move nodes to `bin`: all of them, or those with `data`. The next node is read
  -- before a node is moved.
  unfoldable pub move_nodes : (ℕ → Bool) → List ℕ → Head → Head → Head × Head
  move_nodes chosen [] list bin = (list, bin)
  move_nodes chosen (p ∷ ps) list bin =
      let moved = if chosen p then list_move p list bin else (list, bin) in
      move_nodes chosen ps moved.0 moved.1

  -- move to a local list under the lock, and free it after the lock
  pub discard : (ℕ → Bool) → Modlist → Modlist
  discard chosen s =
      let moved = move_nodes chosen (nodes s.mylist) s.mylist list_head in
      record s { mylist = moved.0; heap = (unsafe_clear_list moved.1 s.heap).1 }

  pub safe_clear_list : Modlist → Modlist
  unfolding discard
  safe_clear_list s = discard (λ _. true) s

  -- `item->data = data` is a fault where `vmalloc` gives NULL.
  pub add_item_list : ℕ → Modlist → Option Modlist
  add_item_list n s =
      let got = vmalloc s.heap sizeof_list_item_t in
      elim (got.0) [
        | none ↦ none
        | some p ↦ some (record {
          mylist = list_add p s.mylist;
          item = λ q. if q == p then n else s.item q;
          heap = got.1;
        })
      ]

  pub remove_items_list : ℕ → Modlist → Modlist
  unfolding discard
  remove_items_list n s = discard (λ p. s.item p == n) s

  pub run_command : Command → Modlist → Option Modlist
  run_command (add_item n) s = add_item_list n s
  run_command (remove_items n) s = some (remove_items_list n s)
  run_command cleanup s = some (safe_clear_list s)
  run_command nothing s = some s

  -- what the write handler returns, and the module after it
  pub procfile_write : (List ℕ → ℕ × ℕ) → (List ℕ → ℕ × ℕ) → List ℕ → Modlist → Option (ℕ × Modlist)
  procfile_write scan_add scan_remove user s =
      run_command (command_of scan_add scan_remove (line_of user)) s >>= λ s'.
      some (min (length user) 24, s')

  unfoldable pub values : Modlist → List ℕ
  unfolding values_of
  values s = values_of s.item (nodes s.mylist)

  unfoldable pub procfile_read : (ℕ → ℕ → ℕ) → ℕ → Modlist → ℕ
  procfile_read print buffer_len s = read_loop print buffer_len 0 (values s)

  -- `create_proc_entry` gives an entry or NULL, and its fields are set without a test.
  unfoldable pub modlist_init : Bool → Option ℕ
  modlist_init entry = if entry then some 0 else none

  unfoldable pub modlist_clean : Modlist → Modlist
  modlist_clean s = safe_clear_list s

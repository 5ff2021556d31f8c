-- ===== src/Kifs.antt =====
-- opcional2/kernel/kifs.c: the entries that the kifs system call finds by name. Each section under
-- the spin lock is one step.
pub mod Names
pub mod Slots
pub mod Entries
pub mod Calls
pub mod Clipboard
pub mod Listing
pub mod Kept
pub mod Stale
pub mod Dispatch
pub mod Sessions
use dso_fifo.Prelude.{
  ◌+◌, ◌*◌, min, leb, ltb, length, take, drop, ◌++◌, ℕ, suc, zero, ◌≡◌, Bool, true, false, Option,
  none, some, List, [], ◌∷◌, ◌==◌, if◌then◌else◌, get_or, set, add32, sub32, replicate, ◌-◌,
}
use dso_fifo.KernelList.{KernelList}

-- A C string is the list of its characters, up to a NUL or the end of the list: the first one, and
-- the others.
unfoldable pub first_char : List ℕ → ℕ
first_char [] = 0
first_char (c ∷ s) = c

unfoldable pub next_chars : List ℕ → List ℕ
next_chars [] = []
next_chars (c ∷ s) = s

-- `strncmp(a, b, n) == 0`
unfoldable pub strncmp_equal : ℕ → List ℕ → List ℕ → Bool
unfolding first_char next_chars
strncmp_equal zero a b = true
strncmp_equal (suc n) a b =
    let rest = strncmp_equal n (next_chars a) (next_chars b) in
    if first_char a == first_char b then (if first_char a == 0 then true else rest) else false

-- `strncpy` to `n` bytes: the string, and NULs behind it
unfoldable pub strncpy : ℕ → List ℕ → List ℕ
unfolding first_char next_chars
strncpy zero s = []
strncpy (suc n) s =
    let rest = strncpy n (next_chars s) in
    if first_char s == 0 then replicate (suc n) 0 else first_char s ∷ rest

abbrev pub max_kifs_entry : ℕ
max_kifs_entry = 10

abbrev pub max_kifs_entry_name_size : ℕ
max_kifs_entry_name_size = 50

-- A callback is its address, `none` for NULL; `data` is an address.
pub record KifsEntry : Type 0 where
  pub entryname : List ℕ
  pub read_kifs : Option ℕ
  pub write_kifs : Option ℕ
  pub data_ptr : ℕ

-- What a system call comes to: an error, or the call of a callback with its data.
pub data Outcome : Type 0 where
  eperm : Outcome
  einval : Outcome
  callback : ℕ → ℕ → Outcome

unfoldable pub call_of : Option ℕ → ℕ → Outcome
call_of none data_ptr = eperm
call_of (some f) data_ptr = callback f data_ptr

-- the `switch` of `sys_kifs`: KIFS_READ_OP is 0 and KIFS_WRITE_OP is 1
unfoldable pub sys_switch : ℕ → KifsEntry → Outcome
unfolding call_of
sys_switch op_mode e =
    if op_mode == 0
    then call_of e.read_kifs e.data_ptr
    else if op_mode == 1
    then call_of e.write_kifs e.data_ptr
    else einval

-- The loops over the entries: the first one with the name.
unfoldable pub find : (ℕ → KifsEntry) → List ℕ → List ℕ → Option ℕ
find entry [] name = none
find entry (p ∷ ps) name =
    let rest = find entry ps name in
    if strncmp_equal max_kifs_entry_name_size (entry p).entryname name then some p else rest

-- What `sprintf` with "%.50s\n" prints: the characters of the name, at most `n`, and a newline.
unfoldable pub text_of : ℕ → List ℕ → List ℕ
unfolding first_char next_chars
text_of zero s = []
text_of (suc n) s =
    let rest = text_of n (next_chars s) in if first_char s == 0 then [] else first_char s ∷ rest

unfoldable pub entry_line : KifsEntry → List ℕ
unfolding text_of
entry_line e = text_of max_kifs_entry_name_size e.entryname ++ b'\n' ∷ []

-- How the loop of `list_kifs` ends: at its guard, by a write behind the end of `kbuff`, or with what
-- it has written.
pub data LoopEnd : Type 0 where
  out_of_room : LoopEnd
  past_end : LoopEnd
  wrote : List ℕ → LoopEnd

-- The loop of `list_kifs` on the entries, with what is written in the `buffsize` bytes of `kbuff`. The
-- `sprintf` of a line writes the line and a NUL.
unfoldable pub list_lines : (ℕ → KifsEntry) → ℕ → List ℕ → List ℕ → LoopEnd
unfolding entry_line
list_lines entry buffsize [] kbuff = wrote kbuff
list_lines entry buffsize (p ∷ ps) kbuff =
    let rest = list_lines entry buffsize ps (kbuff ++ entry_line (entry p)) in
    if ltb buffsize (length kbuff + max_kifs_entry_name_size + 2)
    then out_of_room
    else if ltb buffsize (length kbuff + length (entry_line (entry p)) + 1)
    then past_end
    else rest

-- An error, the bytes copied to the user, or a write behind the end of `kbuff`.
pub data Listed : Type 0 where
  enomem : Listed
  enospc : Listed
  listed : List ℕ → Listed
  overrun : Listed

-- The NUL that `list_kifs` stores behind the lines, and the copy to the user, of which the last
-- `missed` bytes fail.
unfoldable pub list_end : ℕ → ℕ → LoopEnd → Listed
list_end buffsize missed out_of_room = enospc
list_end buffsize missed past_end = overrun
list_end buffsize missed (wrote kbuff) =
    if ltb (length kbuff) buffsize
    then listed (take (length kbuff + 1 - missed) (kbuff ++ 0 ∷ []))
    else overrun

-- "list"
abbrev pub list_name : List ℕ
list_name = b'l' ∷ b'i' ∷ b's' ∷ b't' ∷ []

-- "clipboard"
abbrev pub clipboard_name : List ℕ
clipboard_name = b'c' ∷ b'l' ∷ b'i' ∷ b'p' ∷ b'b' ∷ b'o' ∷ b'a' ∷ b'r' ∷ b'd' ∷ []

abbrev pub clip_size : ℕ
clip_size = 50

unfoldable pub strlen : List ℕ → ℕ
strlen [] = 0
strlen (c ∷ s) = let rest = strlen s in if c == 0 then 0 else suc rest

-- `none` is -ENOSPC; else the bytes copied to the user, all but the last `missed`.
unfoldable pub clipboard_kifs_read : ℕ → ℕ → List ℕ → Option (List ℕ)
unfolding strlen
clipboard_kifs_read maxchars missed clipboard =
    if leb (strlen clipboard) maxchars
    then some (take (strlen clipboard - missed) clipboard)
    else none

-- `copy_from_user` of the bytes `user`, of which it does not get the last `missed`: it writes zeros
-- for them.
unfoldable pub copy_in : List ℕ → ℕ → List ℕ → List ℕ
copy_in user missed to =
    take (length user - missed) user
    ++ (replicate (length user - (length user - missed)) 0 ++ drop (length user) to)

-- `none` is -ENOSPC; else the result and the clipboard after the copy of the user's `maxchars` bytes.
unfoldable pub clipboard_kifs_write : List ℕ → ℕ → List ℕ → Option (ℕ × List ℕ)
unfolding copy_in
clipboard_kifs_write user missed clipboard =
    if ltb (length user) clip_size
    then some (length user - missed, set (copy_in user missed clipboard) (length user - missed) 0)
    else none

module _ (l : KernelList) where
  open l use {Head, nodes, list_head, list_add, list_del, list_move}

  -- `entry_buff` by index, the two lists of its elements, and `num_entry`.
  pub record Kifs : Type 0 where
    pub entry_buff : ℕ → KifsEntry
    pub entry_list : Head
    pub free_list : Head
    pub num_entry : ℕ

  -- The part of `create_kifs_entry` after its tests, for the element `free_list.next`.
  pub take_entry : ℕ → List ℕ → Option ℕ → Option ℕ → ℕ → Kifs → Option ℕ × Kifs
  take_entry next entryname read_kifs write_kifs data_ptr k =
      let moved = list_move next k.free_list k.entry_list in
      let ret = get_or (nodes moved.1) 0 0 in
      (
        some ret,
        record {
          entry_buff = λ q.
              if q == ret
              then record {
                entryname = strncpy max_kifs_entry_name_size entryname;
                read_kifs = read_kifs;
                write_kifs = write_kifs;
                data_ptr = data_ptr;
              }
              else k.entry_buff q;
          entry_list = moved.1;
          free_list = moved.0;
          num_entry = add32 k.num_entry 1;
        },
      )

  pub create_kifs_entry : List ℕ → Option ℕ → Option ℕ → ℕ → Kifs → Option ℕ × Kifs
  create_kifs_entry entryname read_kifs write_kifs data_ptr k = elim (nodes k.free_list) [
    | [] ↦ (none, k)
    | next ∷ others ↦ elim (find k.entry_buff (nodes k.entry_list) entryname) [
      | some p ↦ (none, k)
      | none ↦ take_entry next entryname read_kifs write_kifs data_ptr k
    ]
  ]

  -- `true` is the result 0, `false` is -EINVAL.
  pub remove_kifs_entry : List ℕ → Kifs → Bool × Kifs
  remove_kifs_entry entry_name k = elim (find k.entry_buff (nodes k.entry_list) entry_name) [
    | none ↦ (false, k)
    | some p ↦ (
      true,
      record k {
        entry_list = list_del p k.entry_list;
        free_list = list_add p k.free_list;
        num_entry = sub32 k.num_entry 1;
      },
    )
  ]

  -- `sys_kifs` under the lock: the element with the name
  unfoldable pub sys_find : List ℕ → Kifs → Option ℕ
  sys_find entry_name k =
      find k.entry_buff (nodes k.entry_list) (strncpy max_kifs_entry_name_size entry_name)

  -- and behind it, where the element is read again
  unfoldable pub sys_answer : Option ℕ → ℕ → Kifs → Outcome
  sys_answer none op_mode k = einval
  sys_answer (some p) op_mode k = sys_switch op_mode (k.entry_buff p)

  pub sys_kifs : List ℕ → ℕ → Kifs → Outcome
  unfolding sys_find sys_answer
  sys_kifs entry_name op_mode k = sys_answer (sys_find entry_name k) op_mode k

  -- `buffsize` of `list_kifs`, read without the lock
  unfoldable pub list_size : ℕ → Kifs → ℕ
  list_size maxchars k = min maxchars ((max_kifs_entry_name_size + 2) * k.num_entry)

  -- The rest of `list_kifs`. `allocated` says whether `vmalloc` has found `buffsize` bytes.
  unfoldable pub list_kifs : ℕ → ℕ → Bool → Kifs → Listed
  unfolding list_lines list_end
  list_kifs buffsize missed allocated k =
      if allocated
      then list_end buffsize missed (list_lines k.entry_buff buffsize (nodes k.entry_list) [])
      else enomem

  -- the loop of `init_kifs_entry_set`, for the indices from `i` on
  pub free_all : ℕ → ℕ → Head → Head
  free_all zero i h = h
  free_all (suc left) i h = free_all left (suc i) (list_add i h)

  -- `init_kifs_entry_set` before its two calls: the array is zeroed, and all its elements are free.
  pub cleared : Kifs
  unfolding free_all
  cleared = record {
    entry_buff = λ q. record {
      entryname = replicate max_kifs_entry_name_size 0;
      read_kifs = none;
      write_kifs = none;
      data_ptr = 0;
    };
    entry_list = list_head;
    free_list = free_all max_kifs_entry 0 list_head;
    num_entry = 0;
  }

  -- The callbacks are the addresses of `list_kifs` and of the two functions of the clipboard.
  module _ (list_kifs clipboard_read clipboard_write : ℕ) where
    pub init_kifs_entry_set : Kifs
    init_kifs_entry_set =
        let with_list = (create_kifs_entry list_name (some list_kifs) none 0 cleared).1 in
        (create_kifs_entry clipboard_name (some clipboard_read) (some clipboard_write) 0
          with_list).1

-- ===== src/Cbuffer.antt =====
-- The circular byte buffer of parteB/cbuffer.c and parteB/cbuffer.h (FicherosP3/cbuffer.c is the
-- same text). A `cbuffer_t *` that is updated is a new record; `none` is a fault: an access outside
-- the allocated bytes or a division by zero. `char`s are only moved, so a byte is any number.
pub mod Valid
pub mod Window
pub mod Written
pub mod Insert
pub mod Remove
pub mod Single
pub mod Refine
pub mod Alloc
use dso_fifo.Prelude.{
  ℕ, ◌+◌, ◌%◌, Bool, true, false, not, ◌&&◌, Option, none, some, List, [], ◌++◌, ltb, leb, ◌==◌,
  if◌then◌else◌, ◌>>=◌, add32, sub32, le_int, length, get_or, set, take, drop,
}

-- `cbuffer_t`; `bytes` are the bytes behind the pointer `data`.
pub record Cbuffer : Type 0 where
  pub bytes : List ℕ
  pub head : ℕ
  pub size : ℕ
  pub max_size : ℕ

-- `mem[i]` and `mem[i] = v`
abbrev pub load : List ℕ → ℕ → Option ℕ
load mem i = if ltb i (length mem) then some (get_or mem i 0) else none

abbrev pub store : List ℕ → ℕ → ℕ → Option (List ℕ)
store mem i v = if ltb i (length mem) then some (set mem i v) else none

-- the bytes of `mem` with `xs` written from index `off` on
unfoldable pub splice : List ℕ → ℕ → List ℕ → List ℕ
splice mem off xs = take off mem ++ (xs ++ drop (off + length xs) mem)

-- `memcpy(&mem[off], src, n)`
abbrev pub memcpy_to : List ℕ → ℕ → List ℕ → ℕ → Option (List ℕ)
memcpy_to mem off src n =
    if leb (off + n) (length mem) && leb n (length src)
    then some (splice mem off (take n src))
    else none

-- `memcpy(dst, &mem[off], n)`: the bytes that go to `dst`
abbrev pub memcpy_from : List ℕ → ℕ → ℕ → Option (List ℕ)
memcpy_from mem off n = if leb (off + n) (length mem) then some (take n (drop off mem)) else none

unfoldable pub size_cbuffer_t : Cbuffer → ℕ
size_cbuffer_t b = b.size

unfoldable pub nr_gaps_cbuffer_t : Cbuffer → ℕ
nr_gaps_cbuffer_t b = sub32 b.max_size b.size

unfoldable pub is_full_cbuffer_t : Cbuffer → Bool
is_full_cbuffer_t b = b.size == b.max_size

unfoldable pub is_empty_cbuffer_t : Cbuffer → Bool
is_empty_cbuffer_t b = b.size == 0

unfoldable pub insert_cbuffer_t : Cbuffer → ℕ → Option Cbuffer
insert_cbuffer_t b new_item =
    if b.size == b.max_size
    then (do
      mem ← store b.bytes b.head new_item
      some (record b {
        bytes = mem;
        head = if b.size == 0 then b.head else add32 b.head 1 % b.max_size;
      }))
    else (do
      mem ← store b.bytes (if b.max_size == 0 then 0 else add32 b.head b.size % b.max_size) new_item
      some (record b { bytes = mem; size = add32 b.size 1 }))

-- The local variables of `insert_items_cbuffer_t` and `remove_items_cbuffer_t` that change between
-- the two copies: the bytes of the destination so far, the index in the ring, `nr_items_left`, and
-- what is left of the source.
pub record Copying : Type 0 where
  pub dest : List ℕ
  pub index : ℕ
  pub left : ℕ
  pub source : List ℕ

-- the first copy, made when the items do not fit behind `whead`
unfoldable pub insert_first : Cbuffer → List ℕ → ℕ → ℕ → Option Copying
insert_first b items whead n =
    if ltb b.max_size (add32 whead n)
    then (do
      let copied = sub32 b.max_size whead
      mem ← memcpy_to b.bytes whead items copied
      some (record { dest = mem; index = 0; left = sub32 n copied; source = drop copied items }))
    else some (record { dest = b.bytes; index = whead; left = n; source = items })

-- the second copy, made when something is left
unfoldable pub insert_second : Copying → Option (List ℕ)
insert_second c = if c.left == 0 then some c.dest else memcpy_to c.dest c.index c.source c.left

-- "Update size and head"
unfoldable pub insert_update : Cbuffer → ℕ → List ℕ → Cbuffer
insert_update b n mem =
    if le_int n gaps then record b { bytes = mem; size = add32 b.size n } else record b {
      bytes = mem;
      size = b.max_size;
      head = add32 b.head (sub32 n gaps) % b.max_size;
    }
  where
    gaps : ℕ
    gaps = sub32 b.max_size b.size

-- `whead` is computed, with its division, before the restriction on `nr_items` is tested.
unfoldable pub insert_items_cbuffer_t : Cbuffer → List ℕ → ℕ → Option Cbuffer
insert_items_cbuffer_t b items n =
    if b.max_size == 0 then none else if ltb b.max_size n then some b else (do
      c ← insert_first b items (add32 b.head b.size % b.max_size) n
      mem ← insert_second c
      some (insert_update b n mem))

-- The first copy of a removal, and the head after it. `source` is not used here.
unfoldable pub remove_first : Cbuffer → ℕ → Option Copying
remove_first b n =
    if ltb b.max_size (add32 b.head n)
    then (do
      let copied = sub32 b.max_size b.head
      out ← memcpy_from b.bytes b.head copied
      some (record { dest = out; index = 0; left = sub32 n copied; source = [] }))
    else some (record { dest = []; index = b.head; left = n; source = [] })

unfoldable pub remove_second : Cbuffer → Copying → Option Copying
remove_second b c = if c.left == 0 then some c else (do
  out ← memcpy_from b.bytes c.index c.left
  some (record c { dest = c.dest ++ out; index = add32 c.index c.left }))

-- The list is what was copied to `items`.
unfoldable pub remove_items_cbuffer_t : Cbuffer → ℕ → Option (List ℕ × Cbuffer)
remove_items_cbuffer_t b n = if ltb b.size n then some ([], b) else (do
  c ← remove_first b n
  c' ← remove_second b c
  some (c'.dest, record b { head = c'.index; size = sub32 b.size n }))

unfoldable pub remove_cbuffer_t : Cbuffer → Option (ℕ × Cbuffer)
remove_cbuffer_t b = if b.size == 0 then some (0, b) else (do
  ret ← load b.bytes b.head
  some (ret, record b { head = add32 b.head 1 % b.max_size; size = sub32 b.size 1 }))

-- the index that the returned pointer points to; `none` is NULL
unfoldable pub head_cbuffer_t : Cbuffer → Option ℕ
head_cbuffer_t b = if b.size == 0 then none else some b.head

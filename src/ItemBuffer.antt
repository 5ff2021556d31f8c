-- ===== src/ItemBuffer.antt =====
-- The circular buffer of pointers of FicherosP3/Ejemplos/ProdCons1/cbuffer.c and cbuffer.h; those of
-- ProdCons2 are the same text. An item is its address, and NULL is 0; `none` is a fault: an access
-- outside the allocated words or a division by zero.
pub mod Single
pub mod Alloc
use dso_fifo.Prelude.{
  ℕ, ◌+◌, ◌*◌, ◌%◌, Bool, true, false, Option, none, some, List, [], ◌∷◌, ltb, ◌==◌, if◌then◌else◌,
  ◌>>=◌, add32, sub32, word, length, get_or, set,
}
use dso_fifo.Cbuffer.{Cbuffer, load, store}
use dso_fifo.Allocator.{Allocator}

-- `cbuffer_t`; `items` are the words behind the pointer `data`.
pub record ItemBuffer : Type 0 where
  pub items : List ℕ
  pub head : ℕ
  pub size : ℕ
  pub max_size : ℕ

unfoldable pub size_cbuffer_t : ItemBuffer → ℕ
size_cbuffer_t b = b.size

unfoldable pub is_full_cbuffer_t : ItemBuffer → Bool
is_full_cbuffer_t b = b.size == b.max_size

unfoldable pub is_empty_cbuffer_t : ItemBuffer → Bool
is_empty_cbuffer_t b = b.size == 0

unfoldable pub insert_cbuffer_t : ItemBuffer → ℕ → Option ItemBuffer
insert_cbuffer_t b new_item =
    if b.size == b.max_size
    then (do
      mem ← store b.items b.head new_item
      some (record b {
        items = mem;
        head = if b.size == 0 then b.head else add32 b.head 1 % b.max_size;
      }))
    else (do
      mem ← store b.items (if b.max_size == 0 then 0 else add32 b.head b.size % b.max_size) new_item
      some (record b { items = mem; size = add32 b.size 1 }))

unfoldable pub remove_cbuffer_t : ItemBuffer → Option ItemBuffer
remove_cbuffer_t b =
    if b.size == 0
    then some b
    else if b.max_size == 0
    then none
    else some (record b { head = add32 b.head 1 % b.max_size; size = sub32 b.size 1 })

unfoldable pub head_cbuffer_t : ItemBuffer → Option ℕ
head_cbuffer_t b = if b.size == 0 then some 0 else load b.items b.head

-- the words of 32 bits that bytes make up, the lowest byte first
unfoldable pub words : List ℕ → List ℕ
words (b0 ∷ b1 ∷ b2 ∷ b3 ∷ rest) = (b0 + 256 * b1 + 65536 * b2 + 16777216 * b3) ∷ words rest
words _ = []

-- A `cbuffer_t *`: the address of the record, the pointer `data`, and what they hold.
pub record ItemHandle : Type 0 where
  pub self : ℕ
  pub data_ptr : ℕ
  pub buffer : ItemBuffer

-- `sizeof(cbuffer_t)` and `sizeof(void*)` on 32-bit x86
abbrev pub sizeof_cbuffer_t : ℕ
sizeof_cbuffer_t = 16

abbrev pub sizeof_pointer : ℕ
sizeof_pointer = 4

module _ (a : Allocator) where
  open a use {Heap, vmalloc, bytes, vfree}

  -- the second half, with the record allocated at `self`; `vfree(NULL)` does nothing
  unfoldable pub create_data : Heap → ℕ → ℕ → Option ItemHandle × Heap
  unfolding words
  create_data h self max_size =
      let got = vmalloc h (max_size * sizeof_pointer % word) in
      elim (got.0) [
        | none ↦ (none, got.1)
        | some p ↦ (
          some (record {
            self = self;
            data_ptr = p;
            buffer = record {
              items = words (bytes (got.1) p);
              head = 0;
              size = 0;
              max_size = max_size;
            };
          }),
          got.1,
        )
      ]

  unfoldable pub create_cbuffer_t : Heap → ℕ → Option ItemHandle × Heap
  create_cbuffer_t h max_size =
      let got = vmalloc h sizeof_cbuffer_t in
      elim (got.0) [ none ↦ (none, got.1) | some self ↦ create_data (got.1) self max_size ]

  unfoldable pub destroy_cbuffer_t : Heap → ItemHandle → Heap
  destroy_cbuffer_t h b = vfree (vfree h b.data_ptr) b.self

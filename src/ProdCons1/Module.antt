-- ===== src/ProdCons1/Module.antt =====
-- Loading and unloading prodcons1.c.
use dso_fifo.Prelude.{
  ℕ, ◌≡◌, inl, inr, refl, Bool, Bool-cases, Option, none, some, ◌∷◌, arith, if◌then◌else◌,
}
use dso_fifo.Allocator.{Allocator, IsClean}
use dso_fifo.ItemBuffer.{ItemHandle, create_cbuffer_t, destroy_cbuffer_t}
use dso_fifo.ItemBuffer.Alloc.{
  no_record, no_data, created, create_items_lem, create-IsClean, destroy-owned,
}
use dso_fifo.ProdCons1.{ProdCons, max_items_cbuf}
use dso_fifo.ProdCons1.Safety.{IsLoaded}

module _ (a : Allocator) where
  open a use {Heap, owned}

  -- the globals after the semaphores are initialised
  pub first_state : ItemHandle → (ℕ → ℕ) → Heap → ProdCons a
  first_state b cell h = record {
    cbuf = b.buffer;
    elementos = 0;
    huecos = max_items_cbuf;
    mtx = 1;
    cell = cell;
    heap = h;
  }

  -- `entry` is the success of `create_proc_entry`. The result is the loaded module, or none for
  -- -ENOMEM, and the heap. The semaphores of a module that is not loaded are not there.
  unfoldable pub init_prodcons_module :
      Bool → (ℕ → ℕ) → Heap → Option (ItemHandle × ProdCons a) × Heap
  unfolding first_state
  init_prodcons_module entry cell h =
      let made = create_cbuffer_t a h max_items_cbuf in
      elim (made.0) [
        | none ↦ (none, made.1)
        | some b ↦
            if entry
            then (some (b, first_state b cell made.1), made.1)
            else (none, destroy_cbuffer_t a made.1 b)
      ]

  -- The entry is removed and the buffer is freed; the items in it are not.
  unfoldable pub exit_prodcons_module : ItemHandle → ProdCons a → Heap
  exit_prodcons_module b s = destroy_cbuffer_t a s.heap b

  -- The outcomes of loading: loaded; not loaded, with the blocks as they were; not loaded, with the
  -- block of the buffer's record lost.
  pub data Loaded (h : Heap) (res : Option (ItemHandle × ProdCons a) × Heap) : Type 0 where
    loaded :
        (b : ItemHandle) (s : ProdCons a)
        → res.0 ≡ some (b, s)
        → IsLoaded s
        → IsClean a s.heap
        → owned s.heap ≡ b.data_ptr ∷ b.self ∷ owned h
        → owned (exit_prodcons_module b s) ≡ owned h
        → Loaded h res
    refused : res.0 ≡ none → owned res.1 ≡ owned h → Loaded h res
    lost_record : (self : ℕ) → res.0 ≡ none → owned res.1 ≡ self ∷ owned h → Loaded h res

  -- Loading gives a module in its start state, on a heap where no block is there twice, and unloading
  -- it at once gives back the blocks that there were. It gives -ENOMEM where there is no memory or no
  -- entry in /proc, with the blocks as they were, but for the record of the buffer where only its
  -- words find no memory.
  pub init_prodcons_lem :
      (entry : Bool) (cell : ℕ → ℕ) (h : Heap)
      → IsClean a h
      → Loaded h (init_prodcons_module entry cell h)
  unfolding init_prodcons_module exit_prodcons_module
  init_prodcons_lem entry cell h c =
      elim (create_items_lem a h max_items_cbuf (omega arith) (omega arith)) [
        | no_record failed same ↦
            refused (rw (failed, init_prodcons_module) refl)
              (rw (failed, init_prodcons_module) same)
        | no_data self failed leak ↦
            lost_record self (rw (failed, init_prodcons_module) refl)
              (rw (failed, init_prodcons_module) leak)
        | created b got two strict cap empty ↦ elim (Bool-cases entry) [
          | inl yes_entry ↦
              loaded b (first_state b cell (create_cbuffer_t a h max_items_cbuf).1)
                (rw (got, init_prodcons_module, yes_entry, if◌then◌else◌) refl)
                (record {
                  queue = strict;
                  capacity = cap;
                  empty = empty;
                  no_elements = refl;
                  all_spaces = refl;
                  unlocked = refl;
                })
                (create-IsClean a h max_items_cbuf c) two (destroy-owned a _ b (owned h) two)
          | inr no_entry ↦ refused (rw (got, init_prodcons_module, no_entry, if◌then◌else◌) refl) (
              rw (got, init_prodcons_module, no_entry, if◌then◌else◌)
                (destroy-owned a _ b (owned h) two))
        ]
      ]

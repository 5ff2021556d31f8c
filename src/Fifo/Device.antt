-- ===== src/Fifo/Device.antt =====
-- `init_module` and `cleanup_module` of parteB/fifo.c.
use dso_fifo.Prelude.{
  ℕ, ◌≡◌, refl, ◌⊎◌, inl, inr, Bool, true, false, Option, Option-cases, Bool-cases, none, some, [],
  ◌∷◌, arith, if◌then◌else◌, lt_int,
}
use dso_fifo.Allocator.{Allocator}
use dso_fifo.Cbuffer.Alloc.{
  Handle, Created, create_cbuffer_t, destroy_cbuffer_t, create_lem, destroy-create,
}
use dso_fifo.Cbuffer.Window.{contents}
use dso_fifo.Fifo.{Fifo, buf_len, Errno, enomem}
use dso_fifo.Fifo.System.{fresh}
use dso_fifo.Fifo.Calls.{IsPipe}

-- what `init_module` returns: the error that `register_chrdev` gave, one of its own, or 0
pub data InitReply : Type 0 where
  failed_with : ℕ → InitReply
  failed : Errno → InitReply
  loaded : InitReply

module _ (a : Allocator) where
  open a use {Heap, owned}

  -- The module: whether the device number is registered, the heap, and the buffer and the other
  -- globals once they are set.
  pub record Device : Type 0 where
    pub registered : Bool
    pub heap : Heap
    pub handle : Option Handle
    pub globals : Option Fifo

  -- the part after the registration
  unfoldable pub init_buffer : Heap → InitReply × Device
  init_buffer h =
      let got = create_cbuffer_t a h buf_len in
      elim (got.0) [
        | none ↦ (
          failed enomem,
          record { registered = true; heap = got.1; handle = none; globals = none },
        )
        | some b ↦ (
          loaded,
          record {
            registered = true;
            heap = got.1;
            handle = some b;
            globals = some (fresh b.buffer);
          },
        )
      ]

  -- `major` is what `register_chrdev` returns.
  unfoldable pub init_module : ℕ → Heap → InitReply × Device
  init_module major h =
      if lt_int major 0
      then (
        failed_with major,
        record { registered = false; heap = h; handle = none; globals = none },
      )
      else init_buffer h

  pub cleanup_module : Device → Handle → Device
  cleanup_module d b = record {
    registered = false;
    heap = destroy_cbuffer_t a d.heap b;
    handle = none;
    globals = none;
  }

  -- the outcomes of `init_module`
  pub data Loading (major : ℕ) (h : Heap) (res : InitReply × Device) : Type 0 where
    no_number :
        lt_int major 0 ≡ true
        → res.0 ≡ failed_with major
        → res.1.registered ≡ false
        → owned res.1.heap ≡ owned h
        → Loading major h res
    no_memory :
        lt_int major 0 ≡ false
        → res.0 ≡ failed enomem
        → res.1.registered ≡ true
        → res.1.globals ≡ none
        → (owned res.1.heap ≡ owned h) ⊎ ((p : ℕ) × (owned res.1.heap ≡ p ∷ owned h))
        → Loading major h res
    ready :
        (b : Handle)
        → lt_int major 0 ≡ false
        → res.0 ≡ loaded
        → res.1.registered ≡ true
        → res.1.handle ≡ some b
        → res.1.globals ≡ some (fresh b.buffer)
        → IsPipe b.buffer
        → contents b.buffer ≡ []
        → owned res.1.heap ≡ b.data_ptr ∷ b.self ∷ owned h
        → Loading major h res

  init_buffer-Loading :
      (major : ℕ) (h : Heap) → lt_int major 0 ≡ false → Loading major h (init_buffer h)
  unfolding init_buffer
  init_buffer-Loading major h num = elim (create_lem a h buf_len (omega arith) (omega arith)) [
    | Created.no_record none_made same ↦
        rw (none_made, init_buffer) (no_memory num refl refl refl (inl same))
    | Created.no_data p none_made leak ↦
        rw (none_made, init_buffer) (no_memory num refl refl refl (inr (p, leak)))
    | Created.created b made two strict cap empty ↦
        rw (made, init_buffer)
          (ready b num refl refl refl refl (record { valid = strict.valid; capacity = cap }) empty
            two)
  ]

  -- `init_module` passes on the error of the registration and allocates nothing then. Where the
  -- buffer cannot be created it returns -ENOMEM, with the number still registered and at most the
  -- block of the buffer's record kept. Otherwise it returns 0, with an empty buffer of `buf_len`
  -- bytes, no open file, a free mutex and empty queues.
  pub init_module_lem : (major : ℕ) (h : Heap) → Loading major h (init_module major h)
  unfolding init_module
  init_module_lem major h = elim (Bool-cases (lt_int major 0)) [
    | inl negative ↦ rw negative (no_number negative refl refl refl)
    | inr num ↦ rw num (init_buffer-Loading major h num)
  ]

  created-handle :
      (h : Heap) (b : Handle)
      → (init_buffer h).1.handle ≡ some b
      → ((create_cbuffer_t a h buf_len).0 ≡ some b)
        × ((init_buffer h).1.heap ≡ (create_cbuffer_t a h buf_len).1)
  unfolding init_buffer
  created-handle h b e = elim (Option-cases ((create_cbuffer_t a h buf_len).0)) [
    | inl no_buffer ↦ ground (arith)
    | inr (c, made) ↦ ground arith
  ]

  -- Unloading a module that was loaded frees its number and every block that loading took.
  pub cleanup-init :
      (major : ℕ) (h : Heap) (b : Handle)
      → lt_int major 0 ≡ false
      → (init_module major h).1.handle ≡ some b
      → let d = cleanup_module (init_module major h).1 b in
        (d.registered ≡ false) × (owned d.heap ≡ owned h)
  unfolding init_module cleanup_module
  cleanup-init major h b num e =
      let (made, same) = created-handle h b (rw num at e) in
      (refl, rw (num, same) (destroy-create a h buf_len (omega arith) (omega arith) made))

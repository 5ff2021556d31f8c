-- ===== src/Cbuffer/Alloc.antt =====
-- `create_cbuffer_t` and `destroy_cbuffer_t` of parteB/cbuffer.c, over the kernel's allocator.
use mathlib.Core.Path.{subst}
use dso_fifo.Prelude.{
  eq_of_some, ℕ, ◌<◌, ◌≡◌, refl, sym, ap, ◌∙◌, Option, Option-cases, none, some, [], ◌∷◌, inl, inr,
  arith, sign,
}
use dso_fifo.Allocator.{Allocator, remove, remove-cons}
use dso_fifo.Cbuffer.{Cbuffer}
use dso_fifo.Cbuffer.Valid.{IsStrict}
use dso_fifo.Cbuffer.Window.{contents, contents-empty}

-- A `cbuffer_t *`: the address of the record, the pointer `data`, and what they hold.
pub record Handle : Type 0 where
  pub self : ℕ
  pub data_ptr : ℕ
  pub buffer : Cbuffer

-- `sizeof(cbuffer_t)` on 32-bit x86
abbrev pub sizeof_cbuffer_t : ℕ
sizeof_cbuffer_t = 16

module _ (a : Allocator) where
  open a use {Heap, owned, vmalloc, bytes, vfree}

  -- the second half, with the record allocated at `self`; `vfree(NULL)` does nothing
  unfoldable pub create_data : Heap → ℕ → ℕ → Option Handle × Heap
  create_data h self max_size =
      let got = vmalloc h max_size in
      elim (got.0) [
        | none ↦ (none, got.1)
        | some p ↦ (
          some (record {
            self = self;
            data_ptr = p;
            buffer = record { bytes = bytes (got.1) p; head = 0; size = 0; max_size = max_size };
          }),
          got.1,
        )
      ]

  unfoldable pub create_cbuffer_t : Heap → ℕ → Option Handle × Heap
  create_cbuffer_t h max_size =
      let got = vmalloc h sizeof_cbuffer_t in
      elim (got.0) [ none ↦ (none, got.1) | some self ↦ create_data (got.1) self max_size ]

  pub destroy_cbuffer_t : Heap → Handle → Heap
  destroy_cbuffer_t h b = vfree (vfree h b.data_ptr) b.self

  -- the outcomes of `create_cbuffer_t`
  pub data Created (h : Heap) (max_size : ℕ) (res : Option Handle × Heap) : Type 0 where
    no_record : res.0 ≡ none → owned res.1 ≡ owned h → Created h max_size res
    no_data : (self : ℕ) → res.0 ≡ none → owned res.1 ≡ self ∷ owned h → Created h max_size res
    created :
        (b : Handle)
        → res.0 ≡ some b
        → owned res.1 ≡ b.data_ptr ∷ b.self ∷ owned h
        → IsStrict b.buffer
        → b.buffer.max_size ≡ max_size
        → contents b.buffer ≡ []
        → Created h max_size res

  create_data-Created :
      (h0 h : Heap) (self max_size : ℕ)
      → 0 < max_size
      → max_size < sign
      → owned h ≡ self ∷ owned h0
      → Created h0 max_size (create_data h self max_size)
  unfolding create_data
  create_data-Created h0 h self max_size pos small e =
      elim (Option-cases ((vmalloc h max_size).0)) [
        | inl failed ↦
            rw (failed, create_data) (no_data self refl (a.vmalloc_fails h max_size failed ∙ e))
        | inr (p, got) ↦
            rw (got, create_data)
              (created _ refl (a.vmalloc_gives h max_size p got ∙ ap (λ l. p ∷ l) e)
                (omega (arith, a.length_bytes h max_size p got)) refl (contents-empty _ refl))
      ]

  -- Without memory for the record, or for the bytes, the call returns NULL; otherwise it returns an
  -- empty buffer of the capacity asked for, in two new blocks. Where only the bytes fail, the block
  -- of the record stays allocated.
  pub create_lem :
      (h : Heap) (max_size : ℕ)
      → 0 < max_size
      → max_size < sign
      → Created h max_size (create_cbuffer_t h max_size)
  unfolding create_cbuffer_t
  create_lem h max_size pos small = elim (Option-cases ((vmalloc h sizeof_cbuffer_t).0)) [
    | inl failed ↦
        rw (failed, create_cbuffer_t) (no_record refl (a.vmalloc_fails h sizeof_cbuffer_t failed))
    | inr (p, got) ↦
        rw (got, create_cbuffer_t)
          (create_data-Created h _ p max_size pos small (a.vmalloc_gives h sizeof_cbuffer_t p got))
  ]

  -- Destroying what a call has created leaves the blocks that there were before the call.
  pub destroy-create :
      (h : Heap) (max_size : ℕ) {b : Handle}
      → 0 < max_size
      → max_size < sign
      → (create_cbuffer_t h max_size).0 ≡ some b
      → owned (destroy_cbuffer_t (create_cbuffer_t h max_size).1 b) ≡ owned h
  unfolding destroy_cbuffer_t
  destroy-create h max_size {b} pos small e = elim (create_lem h max_size pos small) [
    | no_record failed same ↦ cc
    | no_data self failed leak ↦ cc
    | created c got two strict cap empty ↦
        subst (λ d. owned (vfree (vfree res.1 d.data_ptr) d.self) ≡ owned h)
          (eq_of_some (sym got ∙ e))
          (a.vfree_owned _ c.self
            ∙ ap (remove c.self) (
                a.vfree_owned res.1 c.data_ptr
                ∙ ap (remove c.data_ptr) two
                ∙ remove-cons c.data_ptr _)
            ∙ remove-cons c.self _)
  ]
    where
      res : Option Handle × Heap
      res = create_cbuffer_t h max_size

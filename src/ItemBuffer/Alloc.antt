-- ===== src/ItemBuffer/Alloc.antt =====
-- Creating and destroying the buffer of pointers.
use dso_fifo.Prelude.{
  ℕ, suc, zero, ◌*◌, ◌%◌, ◌<◌, ◌≡◌, refl, ap, ◌∙◌, Option, Option-cases, none, some, List, [], ◌∷◌,
  inl, inr, arith, word, length,
}
use dso_fifo.Allocator.{IsClean, vmalloc-IsClean, Allocator, remove, remove-cons}
use dso_fifo.Cbuffer.Window.{contents-empty}
use dso_fifo.ItemBuffer.{
  ItemHandle, words, sizeof_cbuffer_t, sizeof_pointer, create_data, create_cbuffer_t,
  destroy_cbuffer_t,
}
use dso_fifo.ItemBuffer.Single.{IsQueue, queued}

length-words : (n : ℕ) (bs : List ℕ) → length bs ≡ n * 4 → length (words bs) ≡ n
unfolding words
length-words zero [] h = refl
length-words zero (b ∷ bs) h = absurd (omega arith)
length-words (suc n) (b0 ∷ b1 ∷ b2 ∷ b3 ∷ bs) h = ap suc (length-words n bs (omega arith))
length-words (suc n) _ h = absurd (omega arith)

module _ (a : Allocator) where
  open a use {Heap, owned, vmalloc, bytes, vfree}

  -- the outcomes of `create_cbuffer_t`
  pub data ItemsCreated (h : Heap) (max_size : ℕ) (res : Option ItemHandle × Heap) : Type 0 where
    no_record : res.0 ≡ none → owned res.1 ≡ owned h → ItemsCreated h max_size res
    no_data : (self : ℕ) → res.0 ≡ none → owned res.1 ≡ self ∷ owned h → ItemsCreated h max_size res
    created :
        (b : ItemHandle)
        → res.0 ≡ some b
        → owned res.1 ≡ b.data_ptr ∷ b.self ∷ owned h
        → IsQueue b.buffer
        → b.buffer.max_size ≡ max_size
        → queued b.buffer ≡ []
        → ItemsCreated h max_size res

  create_data-ItemsCreated :
      (h0 h : Heap) (self max_size : ℕ)
      → 0 < max_size
      → max_size * sizeof_pointer < word
      → owned h ≡ self ∷ owned h0
      → ItemsCreated h0 max_size (create_data a h self max_size)
  unfolding create_data queued
  create_data-ItemsCreated h0 h self max_size pos small e = elim (Option-cases ((vmalloc h n).0)) [
    | inl failed ↦ rw (failed, create_data) (no_data self refl (a.vmalloc_fails h n failed ∙ e))
    | inr (p, got) ↦
        rw (got, create_data)
          (created _ refl (a.vmalloc_gives h n p got ∙ ap (λ l. p ∷ l) e)
            (omega
              (arith, length-words max_size (bytes (vmalloc h n).1 p), a.length_bytes h n p got))
            refl (contents-empty _ refl))
  ]
    where
      n : ℕ
      n = max_size * sizeof_pointer % word

  pub create_items_lem :
      (h : Heap) (max_size : ℕ)
      → 0 < max_size
      → max_size * sizeof_pointer < word
      → ItemsCreated h max_size (create_cbuffer_t a h max_size)
  unfolding create_cbuffer_t
  create_items_lem h max_size pos small = elim (Option-cases ((vmalloc h sizeof_cbuffer_t).0)) [
    | inl failed ↦
        rw (failed, create_cbuffer_t) (no_record refl (a.vmalloc_fails h sizeof_cbuffer_t failed))
    | inr (p, got) ↦
        rw (got, create_cbuffer_t)
          (create_data-ItemsCreated h _ p max_size pos small
            (a.vmalloc_gives h sizeof_cbuffer_t p got))
  ]

  -- Destroying a buffer whose blocks are the last two frees just these.
  pub destroy-owned :
      (h : Heap) (b : ItemHandle) (rest : List ℕ)
      → owned h ≡ b.data_ptr ∷ b.self ∷ rest
      → owned (destroy_cbuffer_t a h b) ≡ rest
  unfolding destroy_cbuffer_t
  destroy-owned h b rest two =
      a.vfree_owned _ b.self
      ∙ ap (remove b.self)
          (a.vfree_owned h b.data_ptr ∙ ap (remove b.data_ptr) two ∙ remove-cons b.data_ptr _)
      ∙ remove-cons b.self _

  pub create-IsClean :
      (h : Heap) (max_size : ℕ) → IsClean a h → IsClean a (create_cbuffer_t a h max_size).1
  unfolding create_cbuffer_t create_data
  create-IsClean h max_size c = elim (Option-cases ((vmalloc h sizeof_cbuffer_t).0)) [
    | inl failed ↦ rw (failed, create_cbuffer_t) first
    | inr (self, got) ↦ elim (Option-cases ((vmalloc (vmalloc h sizeof_cbuffer_t).1 n).0)) [
      | inl failed ↦ rw (got, create_cbuffer_t, failed, create_data) second
      | inr (p, both) ↦ rw (got, create_cbuffer_t, both, create_data) second
    ]
  ]
    where
      n : ℕ
      n = max_size * sizeof_pointer % word

      first : IsClean a (vmalloc h sizeof_cbuffer_t).1
      first = vmalloc-IsClean a h sizeof_cbuffer_t c

      second : IsClean a (vmalloc (vmalloc h sizeof_cbuffer_t).1 n).1
      second = vmalloc-IsClean a (vmalloc h sizeof_cbuffer_t).1 n first

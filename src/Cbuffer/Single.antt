-- ===== src/Cbuffer/Single.antt =====
-- The operations on one byte, `insert_cbuffer_t`, `remove_cbuffer_t` and `head_cbuffer_t`, on
-- buffers whose head lies inside the bytes, and what they do where it does not.
use native.Mathlib.Numerals.{towards_suc}
use dso_fifo.Prelude.{
  ℕ, zero, suc, ◌+◌, ◌-◌, ◌%◌, ◌≤◌, ◌<◌, ◌≡◌, refl, sym, ap, ◌∙◌, inl, inr, none, some, List, [],
  ◌∷◌, arith, ◌==◌, ◌>>=◌, length, get_or, set, drop, Bool-cases, ==_iff, get_or-drop, length-drop,
  list_ext,
}
use dso_fifo.Cbuffer.{
  Cbuffer, splice, insert_cbuffer_t, insert_items_cbuffer_t, remove_items_cbuffer_t,
  remove_cbuffer_t,
}
use dso_fifo.Cbuffer.Valid.{IsValid, IsStrict}
use dso_fifo.Cbuffer.Window.{
  contents, length-contents, get_or-contents, mod-below, mod-above, mod-shift,
}
use dso_fifo.Cbuffer.Written.{whead_of}
use dso_fifo.Cbuffer.Insert.{insert_items-inserted, inserted, inserted-IsValid}
use dso_fifo.Cbuffer.Remove.{remove_items-removed, shrunk, shrunk-IsValid}

set-eq-splice : (mem : List ℕ) (i x : ℕ) → i < length mem → splice mem i (x ∷ []) ≡ set mem i x
unfolding splice
set-eq-splice [] i x h = absurd (omega arith)
set-eq-splice (y ∷ mem) zero x h = refl
set-eq-splice (y ∷ mem) (suc i) x h =
    simp towards_suc (ap (λ r. y ∷ r) (simp towards_suc at (set-eq-splice mem i x (omega arith))))

insert-inserted :
    (b : Cbuffer) (x : ℕ) → IsStrict b → insert_cbuffer_t b x ≡ some (inserted b (x ∷ []) 1)
unfolding insert_cbuffer_t
insert-inserted b x s =
    ground (arith, set-eq-splice b.bytes (whead_of b) x, mod-above (b.head + b.max_size) b.max_size)

-- With the head inside the bytes, inserting one byte is inserting one item in bulk: on a full
-- buffer it takes the place of the oldest byte.
pub insert-eq-insert_items :
    (b : Cbuffer) (x : ℕ) → IsStrict b → insert_cbuffer_t b x ≡ insert_items_cbuffer_t b (x ∷ []) 1
insert-eq-insert_items b x s =
    insert-inserted b x s
    ∙ sym (insert_items-inserted b (x ∷ []) 1 s.valid (omega arith) (omega arith))

drop-empty : (xs : List ℕ) → length xs ≡ 0 → (get_or xs 0 0 ≡ 0) × (xs ≡ drop 1 xs)
drop-empty [] h = (refl, refl)
drop-empty (x ∷ xs) h = absurd (omega arith)

abbrev advanced : Cbuffer → Cbuffer
advanced b = record b { head = (b.head + 1) % b.max_size; size = b.size - 1 }

remove-advanced :
    (b : Cbuffer)
    → IsStrict b
    → 0 < b.size
    → remove_cbuffer_t b ≡ some (get_or (contents b) 0 0, advanced b)
unfolding remove_cbuffer_t
remove-advanced b s h = ground (arith, get_or-contents b 0 h, mod-below b.head b.max_size)

contents-advanced : (b : Cbuffer) → 0 < b.size → contents (advanced b) ≡ drop 1 (contents b)
contents-advanced b h =
    list_ext _ _ 0
      (omega (arith, length-contents (advanced b), length-drop 1 (contents b), length-contents b))
      (λ i lt. same i (omega (arith, length-contents (advanced b))))
  where
    same :
        (i : ℕ)
        → i < b.size - 1
        → get_or (contents (advanced b)) i 0 ≡ get_or (drop 1 (contents b)) i 0
    same i lt =
        get_or-contents (advanced b) i lt
        ∙ ap (λ k. get_or b.bytes k 0)
            (mod-shift (b.head + 1) i b.head (1 + i) b.max_size (omega arith))
        ∙ sym (get_or-drop 1 (contents b) i 0 ∙ get_or-contents b (1 + i) (omega arith))

-- On a buffer with its head inside the bytes, the call gives the oldest byte and leaves the
-- others, and the head inside; on an empty one it gives 0 and leaves it empty.
pub remove_lem :
    (b : Cbuffer)
    → IsStrict b
    → (b' : Cbuffer) × (remove_cbuffer_t b ≡ some (get_or (contents b) 0 0, b'))
      × IsStrict b'
      × (contents b' ≡ drop 1 (contents b))
unfolding remove_cbuffer_t
remove_lem b s = elim (Bool-cases (b.size == 0)) [
  | inl zero_size ↦
      let (first, rest) =
        drop-empty (contents b) (omega (arith, length-contents b, (==_iff b.size 0).0 zero_size)) in
      (b, rw (zero_size, first), s, rest)
  | inr some_size ↦ (
    advanced b,
    remove-advanced b s (ground arith),
    ground arith,
    contents-advanced b (ground arith),
  )
]

insert-at_end :
    (c : Cbuffer) (x : ℕ)
    → IsValid c
    → c.size ≡ c.max_size
    → c.head ≡ c.max_size
    → insert_cbuffer_t c x ≡ none
unfolding insert_cbuffer_t
insert-at_end c x v full at_end = ground arith

-- After a bulk removal that ends exactly at the end of the bytes, and a bulk insertion that fills
-- the buffer, inserting one byte writes outside the allocated bytes.
pub bulk_then_insert_faults :
    (b : Cbuffer) (n : ℕ) (items : List ℕ) (x : ℕ)
    → IsValid b
    → n ≤ b.size
    → b.head + n ≡ b.max_size
    → b.size - n + length items ≡ b.max_size
    → (remove_items_cbuffer_t b n >>= λ r.
        insert_items_cbuffer_t r.1 items (length items) >>= λ full. insert_cbuffer_t full x)
      ≡ none
bulk_then_insert_faults b n items x v fits at_end fills = rw (remove_items-removed b n v fits) (
    rw
      (insert_items-inserted c items (length items) (shrunk-IsValid b n v fits) (omega arith)
        (omega arith))
      (insert-at_end full x
        (inserted-IsValid c items (length items) (shrunk-IsValid b n v fits) (omega arith)
          (omega arith))
        (ground arith) (ground arith)))
  where
    c : Cbuffer
    c = shrunk b n

    full : Cbuffer
    full = inserted c items (length items)

-- ===== src/Allocator.antt =====
-- `vmalloc` and `vfree` of the kernel, as an interface: what a client may rely on.
use dso_fifo.Prelude.{
  ap, ◌∙◌, inl, inr, Option-cases, ◌++◌, ◌+◌, ◌≤◌, suc, refl, ==_false, ◌≢◌, ℕ, ◌≡◌, Option, none,
  some, List, [], ◌∷◌, ◌==◌, if◌then◌else◌, length, arith,
}

-- the list without its first `p`
unfoldable pub remove : ℕ → List ℕ → List ℕ
remove p [] = []
remove p (q ∷ qs) = if q == p then qs else q ∷ remove p qs

pub remove-cons : (p : ℕ) (qs : List ℕ) → remove p (p ∷ qs) ≡ qs
unfolding remove
remove-cons p qs = ground arith

pub remove-cons_ne : (p q : ℕ) (qs : List ℕ) → q ≢ p → remove p (q ∷ qs) ≡ q ∷ remove p qs
unfolding remove
remove-cons_ne p q qs h = rw (==_false q p h)

pub remove_comm : (p q : ℕ) (xs : List ℕ) → remove p (remove q xs) ≡ remove q (remove p xs)
unfolding remove
remove_comm p q [] = refl
remove_comm p q (x ∷ xs) = ground (arith, remove_comm p q xs)

-- `p` is not in the list.
abbrev pub Absent : ℕ → List ℕ → Type 0
Absent p [] = Unit
Absent p (q ∷ qs) = (q ≢ p) × Absent p qs

-- how often `q` is in the list
abbrev pub count : ℕ → List ℕ → ℕ
count q [] = 0
count q (p ∷ ps) = (if p == q then 1 else 0) + count q ps

pub count-remove :
    (q p : ℕ) (ps : List ℕ)
    → 1 ≤ count p ps
    → (if p == q then 1 else 0) + count q (remove p ps) ≡ count q ps
unfolding remove
count-remove q p [] h = ground arith
count-remove q p (x ∷ ps) h = ground (arith, count-remove q p ps)

pub length-remove : (p : ℕ) (ps : List ℕ) → 1 ≤ count p ps → suc (length (remove p ps)) ≡ length ps
unfolding remove
length-remove p [] h = ground arith
length-remove p (x ∷ ps) h = ground (arith, length-remove p ps)

pub Absent-count : (p : ℕ) (ps : List ℕ) → count p ps ≡ 0 → Absent p ps
Absent-count p [] h = tt
Absent-count p (x ∷ ps) h = (λ same. ground arith, Absent-count p ps (ground arith))

pub count-Absent : (p : ℕ) (ps : List ℕ) → Absent p ps → count p ps ≡ 0
count-Absent p [] h = refl
count-Absent p (x ∷ ps) h = ground (arith, count-Absent p ps h.1)

pub count-append : (q : ℕ) (xs ys : List ℕ) → count q (xs ++ ys) ≡ count q xs + count q ys
count-append q [] ys = omega arith
count-append q (x ∷ xs) ys = omega (arith, count-append q xs ys)

-- `owned` lists the addresses of the blocks that are allocated and not freed. `vmalloc` may fail;
-- a new block has an address
-- of its own, and its contents are whatever they are, of the length asked for.
pub record Allocator : Type 1 where
  pub Heap : Type 0
  pub owned : Heap → List ℕ
  pub vmalloc : Heap → ℕ → Option ℕ × Heap
  pub bytes : Heap → ℕ → List ℕ
  pub vfree : Heap → ℕ → Heap
  pub vmalloc_fails : (h : Heap) (n : ℕ) → (vmalloc h n).0 ≡ none → owned (vmalloc h n).1 ≡ owned h
  pub vmalloc_gives :
      (h : Heap) (n p : ℕ) → (vmalloc h n).0 ≡ some p → owned (vmalloc h n).1 ≡ p ∷ owned h
  pub length_bytes :
      (h : Heap) (n p : ℕ) → (vmalloc h n).0 ≡ some p → length (bytes (vmalloc h n).1 p) ≡ n
  pub vfree_owned : (h : Heap) (p : ℕ) → owned (vfree h p) ≡ remove p (owned h)
  pub vmalloc_fresh : (h : Heap) (n p : ℕ) → (vmalloc h n).0 ≡ some p → Absent p (owned h)
  pub vmalloc_nonnull : (h : Heap) (n p : ℕ) → (vmalloc h n).0 ≡ some p → p ≢ 0

module _ (a : Allocator) where
  open a use {Heap, owned, vmalloc}

  -- No block is there twice, and none is at NULL.
  pub record IsClean (h : Heap) : Type 0 where
    pub once : (q : ℕ) → count q (owned h) ≤ 1
    pub not_null : count 0 (owned h) ≡ 0

  pub vmalloc-IsClean : (h : Heap) (n : ℕ) → IsClean h → IsClean (vmalloc h n).1
  vmalloc-IsClean h n c = elim (Option-cases ((vmalloc h n).0)) [
    | inl failed ↦ record {
      once = λ q. omega (arith, ap (count q) (a.vmalloc_fails h n failed), c.once q);
      not_null = ap (count 0) (a.vmalloc_fails h n failed) ∙ c.not_null;
    }
    | inr (p, got) ↦
        let fresh = count-Absent p (owned h) (a.vmalloc_fresh h n p got) in
        let nonnull = a.vmalloc_nonnull h n p got in
        record {
          once = λ q. ground (arith, ap (count q) (a.vmalloc_gives h n p got), c.once q, fresh);
          not_null = ground (arith, ap (count 0) (a.vmalloc_gives h n p got), c.not_null, nonnull);
        }
  ]

-- ===== src/Tests/Arena.antt =====
-- An instance of the allocator interface.
use dso_fifo.Prelude.{
  ◌≢◌, ◌<◌, ◌≤◌, ℕ, ◌+◌, ◌-◌, ◌≡◌, refl, Option, none, some, List, [], ◌∷◌, ◌==◌, if◌then◌else◌,
  arith, length, replicate, length-replicate,
}
use dso_fifo.Allocator.{Allocator, Absent, remove}

-- An allocator that gives blocks while there is room, zeroed, each at an address above all others.
pub record Arena : Type 0 where
  pub room : ℕ
  pub taken : List ℕ
  pub newest : ℕ  -- the size of the block given last

unfoldable pub above : List ℕ → ℕ
above [] = 1
above (p ∷ ps) = p + above ps

unfoldable pub take_block : Arena → ℕ → Option ℕ × Arena
take_block h n = if h.room == 0 then (none, h) else (
  some (above h.taken),
  record { room = h.room - 1; taken = above h.taken ∷ h.taken; newest = n },
)

lt-above : (ps : List ℕ) → 0 < above ps
unfolding above
lt-above [] = omega arith
lt-above (p ∷ ps) = omega (arith, lt-above ps)

Absent-above : (ps : List ℕ) (k : ℕ) → above ps ≤ k → Absent k ps
unfolding above
Absent-above [] k h = tt
Absent-above (p ∷ ps) k h = (omega (arith, lt-above ps), Absent-above ps k (omega arith))

pub take_block-fresh : (h : Arena) (n p : ℕ) → (take_block h n).0 ≡ some p → Absent p h.taken
unfolding take_block
take_block-fresh h n p e = Absent-above h.taken p (ground arith)

pub take_block-nonnull : (h : Arena) (n p : ℕ) → (take_block h n).0 ≡ some p → p ≢ 0
unfolding take_block
take_block-nonnull h n p e = ground (arith, lt-above h.taken)

pub take_block-fails :
    (h : Arena) (n : ℕ) → (take_block h n).0 ≡ none → (take_block h n).1.taken ≡ h.taken
unfolding take_block
take_block-fails h n e = ground arith

pub take_block-gives :
    (h : Arena) (n p : ℕ) → (take_block h n).0 ≡ some p → (take_block h n).1.taken ≡ p ∷ h.taken
unfolding take_block
take_block-gives h n p e = ground arith

pub take_block-size :
    (h : Arena) (n p : ℕ)
    → (take_block h n).0 ≡ some p
    → length {A = ℕ} (replicate (take_block h n).1.newest 0) ≡ n
unfolding take_block
take_block-size h n p e = ground (arith, length-replicate {A = ℕ} n 0)

abbrev pub arena : Allocator
arena = record {
  Heap = Arena;
  owned = λ h. h.taken;
  vmalloc = take_block;
  bytes = λ h p. replicate h.newest 0;
  vfree = λ h p. record h { taken = remove p h.taken };
  vmalloc_fails = take_block-fails;
  vmalloc_gives = take_block-gives;
  length_bytes = take_block-size;
  vfree_owned = λ h p. refl;
  vmalloc_fresh = take_block-fresh;
  vmalloc_nonnull = take_block-nonnull;
}

-- ===== src/Cbuffer/Window.antt =====
-- The bytes that a buffer holds, oldest first: the abstract view of `cbuffer_t`.
use native.Mathlib.Nat.{mod-eq_of_lt, mod-eq-sub-mod, mod-add-mod, add-mod_right}
use dso_fifo.Prelude.{
  ℕ, zero, suc, ◌+◌, ◌-◌, ◌%◌, ◌≤◌, ◌<◌, ◌≡◌, refl, ap, ◌∙◌, List, [], ◌∷◌, ◌++◌, arith, ltb, leb,
  ◌&&◌, if◌then◌else◌, length, get_or, take, drop, length-append, length-take, length-drop,
  get_or-append, get_or-take, get_or-drop,
}
use dso_fifo.Cbuffer.{Cbuffer, splice}

module _ (mem : List ℕ) (max : ℕ) where
  -- the `n` bytes from index `h` on, going round at `max`
  unfoldable pub window : ℕ → ℕ → List ℕ
  window h zero = []
  window h (suc n) = get_or mem (h % max) 0 ∷ window (h + 1) n

  pub length-window : (h n : ℕ) → length (window h n) ≡ n
  unfolding window
  length-window h zero = refl
  length-window h (suc n) = ap suc (length-window (h + 1) n)

  pub get_or-window : (h n k : ℕ) → k < n → get_or (window h n) k 0 ≡ get_or mem ((h + k) % max) 0
  unfolding window
  get_or-window h zero k lt = absurd (omega arith)
  get_or-window h (suc n) zero lt = ap (λ i. get_or mem (i % max) 0) (omega arith)
  get_or-window h (suc n) (suc k) lt =
      get_or-window (h + 1) n k (omega arith) ∙ ap (λ i. get_or mem (i % max) 0) (omega arith)

unfoldable pub contents : Cbuffer → List ℕ
contents b = window b.bytes b.max_size b.head b.size

pub length-contents : (b : Cbuffer) → length (contents b) ≡ b.size
unfolding contents
length-contents b = length-window b.bytes b.max_size b.head b.size

pub get_or-contents :
    (b : Cbuffer) (k : ℕ)
    → k < b.size
    → get_or (contents b) k 0 ≡ get_or b.bytes ((b.head + k) % b.max_size) 0
unfolding contents
get_or-contents b k lt = get_or-window b.bytes b.max_size b.head b.size k lt

-- Below twice the capacity the remainder is at most one subtraction.
pub mod-below : (i max : ℕ) → i < max → i % max ≡ i
mod-below i max h = mod-eq_of_lt h

pub mod-above : (i max : ℕ) → max ≤ i → i < max + max → i % max ≡ i - max
mod-above i max le lt =
    omega (
      arith,
      mod-eq-sub-mod {n = i} {m = max} le,
      mod-eq_of_lt {n = i - max} {m = max} (omega arith),
    )

-- how many steps index `j` lies behind `w`, going round
abbrev pub behind : ℕ → ℕ → ℕ → ℕ
behind max w j = if leb w j then j - w else j + max - w

pub length-splice :
    (mem : List ℕ) (off : ℕ) (xs : List ℕ)
    → off + length xs ≤ length mem
    → length (splice mem off xs) ≡ length mem
unfolding splice
length-splice mem off xs h = omega (
  arith,
  length-append (take off mem) (xs ++ drop (off + length xs) mem),
  length-append xs (drop (off + length xs) mem),
  length-take off mem,
  length-drop (off + length xs) mem,
)

pub get_or-splice :
    (mem : List ℕ) (off : ℕ) (xs : List ℕ) (i : ℕ)
    → off + length xs ≤ length mem
    → get_or (splice mem off xs) i 0
      ≡ (if leb off i && ltb i (off + length xs) then get_or xs (i - off) 0 else get_or mem i 0)
unfolding splice
get_or-splice mem off xs i h = ground (
  arith,
  get_or-append (take off mem) (xs ++ drop (off + length xs) mem) i 0,
  get_or-append xs (drop (off + length xs) mem) (i - off) 0,
  length-take off mem,
  get_or-take off mem i 0,
  get_or-drop (off + length xs) mem (i - off - length xs) 0,
)

-- The index `d` steps behind `w` lies `d` steps behind it.
pub behind-add-mod : (max w d : ℕ) → w < max → d < max → behind max w ((w + d) % max) ≡ d
behind-add-mod max w d hw hd = ground (arith, mod-below (w + d) max, mod-above (w + d) max)

-- Going round from a reduced start is going round from the start.
pub mod-shift : (a b c e max : ℕ) → a + b ≡ c + e → (a % max + b) % max ≡ (c + e) % max
mod-shift a b c e max h = mod-add-mod a max b ∙ ap (λ k. k % max) h

pub mod-shift_round : (a b c e max : ℕ) → a + b ≡ c + e + max → (a % max + b) % max ≡ (c + e) % max
mod-shift_round a b c e max h =
    mod-add-mod a max b ∙ ap (λ k. k % max) h ∙ add-mod_right (c + e) max

list_empty : (xs : List ℕ) → length xs ≡ 0 → xs ≡ []
list_empty [] h = refl
list_empty (x ∷ xs) h = absurd (omega arith)

pub contents-empty : (b : Cbuffer) → b.size ≡ 0 → contents b ≡ []
contents-empty b h = list_empty (contents b) (length-contents b ∙ h)

-- ===== src/Cbuffer/Remove.antt =====
-- `remove_items_cbuffer_t`: what it copies out and what it leaves.
use native.Mathlib.Nat.{add-mod_right}
use dso_fifo.Prelude.{
  ℕ, ◌+◌, ◌-◌, ◌%◌, ◌≤◌, ◌<◌, ◌≡◌, refl, sym, ap, ◌∙◌, inl, inr, some, List, [], ◌++◌, arith, ltb,
  if◌then◌else◌, length, get_or, take, drop, Bool-cases, ltb→lt, length-append, length-take,
  length-drop, get_or-append, get_or-take, get_or-drop, list_ext,
}
use dso_fifo.Cbuffer.{Cbuffer, remove_first, remove_second, remove_items_cbuffer_t}
use dso_fifo.Cbuffer.Valid.{IsValid}
use dso_fifo.Cbuffer.Window.{contents, length-contents, get_or-contents, mod-below, mod-above}

-- What the two copies put into `items`, and the head that they leave.
abbrev pub removed : Cbuffer → ℕ → List ℕ
removed b n =
    if ltb b.max_size (b.head + n)
    then take (b.max_size - b.head) (drop b.head b.bytes)
      ++ take (n - (b.max_size - b.head)) b.bytes
    else take n (drop b.head b.bytes)

abbrev pub head_after : Cbuffer → ℕ → ℕ
head_after b n = if ltb b.max_size (b.head + n) then b.head + n - b.max_size else b.head + n

abbrev pub shrunk : Cbuffer → ℕ → Cbuffer
shrunk b n = record b { head = head_after b n; size = b.size - n }

module _ (b : Cbuffer) (n : ℕ) (v : IsValid b) (fits : n ≤ b.size) where
  open v use {storage, nonempty, small, head_in, size_in}

  pub remove_items-removed : remove_items_cbuffer_t b n ≡ some (removed b n, shrunk b n)
  unfolding remove_items_cbuffer_t remove_first remove_second
  remove_items-removed = ground arith

  length-front : length (drop b.head b.bytes) ≡ b.max_size - b.head
  length-front = omega (arith, length-drop b.head b.bytes)

  length-removed : length (removed b n) ≡ n
  length-removed = ground (
    arith,
    length-front,
    length-take n (drop b.head b.bytes),
    length-take (b.max_size - b.head) (drop b.head b.bytes),
    length-take (n - (b.max_size - b.head)) b.bytes,
    length-append (take (b.max_size - b.head) (drop b.head b.bytes))
        (take (n - (b.max_size - b.head)) b.bytes),
  )

  get_or-removed :
      (i : ℕ) → i < n → get_or (removed b n) i 0 ≡ get_or b.bytes ((b.head + i) % b.max_size) 0
  get_or-removed i lt = ground (
    arith,
    length-front,
    mod-below (b.head + i) b.max_size,
    mod-above (b.head + i) b.max_size,
    length-take (b.max_size - b.head) (drop b.head b.bytes),
    get_or-append (take (b.max_size - b.head) (drop b.head b.bytes))
        (take (n - (b.max_size - b.head)) b.bytes) i 0,
    get_or-take n (drop b.head b.bytes) i 0,
    get_or-take (b.max_size - b.head) (drop b.head b.bytes) i 0,
    get_or-take (n - (b.max_size - b.head)) b.bytes (i - (b.max_size - b.head)) 0,
    get_or-drop b.head b.bytes i 0,
  )

  removed-eq-take : removed b n ≡ take n (contents b)
  removed-eq-take =
      list_ext _ _ 0 (omega (arith, length-removed, length-take n (contents b), length-contents b))
        (λ i lt. same i (omega (arith, length-removed)))
    where
      same : (i : ℕ) → i < n → get_or (removed b n) i 0 ≡ get_or (take n (contents b)) i 0
      same i lt =
          get_or-removed i lt
          ∙ sym (get_or-take n (contents b) i 0 lt ∙ get_or-contents b i (omega arith))

  slot-shrunk : (i : ℕ) → (head_after b n + i) % b.max_size ≡ (b.head + (n + i)) % b.max_size
  slot-shrunk i = elim (Bool-cases (ltb b.max_size (b.head + n))) [
    | inl over ↦ rw over (round (omega (arith, ltb→lt _ _ over)))
    | inr room ↦ rw room (ap (λ k. k % b.max_size) (omega arith))
  ]
    where
      round :
          b.max_size ≤ b.head + n
          → (b.head + n - b.max_size + i) % b.max_size ≡ (b.head + (n + i)) % b.max_size
      round le =
          sym (add-mod_right (b.head + n - b.max_size + i) b.max_size)
          ∙ ap (λ k. k % b.max_size) (omega arith)

  contents-shrunk : contents (shrunk b n) ≡ drop n (contents b)
  contents-shrunk =
      list_ext _ _ 0
        (omega (arith, length-contents (shrunk b n), length-drop n (contents b), length-contents b))
        (λ i lt. same i (omega (arith, length-contents (shrunk b n))))
    where
      same :
          (i : ℕ)
          → i < b.size - n
          → get_or (contents (shrunk b n)) i 0 ≡ get_or (drop n (contents b)) i 0
      same i lt =
          get_or-contents (shrunk b n) i lt
          ∙ ap (λ k. get_or b.bytes k 0) (slot-shrunk i)
          ∙ sym (get_or-drop n (contents b) i 0 ∙ get_or-contents b (n + i) (omega arith))

  pub shrunk-IsValid : IsValid (shrunk b n)
  shrunk-IsValid = ground arith

-- On a valid buffer that holds at least `n` bytes the call does not fault, copies the `n` oldest
-- bytes out in order, keeps the invariant and the capacity, and leaves the other bytes.
pub remove_items_lem :
    (b : Cbuffer) (n : ℕ)
    → IsValid b
    → n ≤ b.size
    → (b' : Cbuffer) × (remove_items_cbuffer_t b n ≡ some (take n (contents b), b'))
      × IsValid b'
      × (b'.max_size ≡ b.max_size)
      × (b'.head ≡ head_after b n)
      × (contents b' ≡ drop n (contents b))
remove_items_lem b n v fits = (
  shrunk b n,
  remove_items-removed b n v fits ∙ ap (λ out. some (out, shrunk b n)) (removed-eq-take b n v fits),
  shrunk-IsValid b n v fits,
  refl,
  refl,
  contents-shrunk b n v fits,
)

-- A request for more than the buffer holds copies nothing and changes nothing.
pub remove_items-too_many :
    (b : Cbuffer) (n : ℕ) → b.size < n → remove_items_cbuffer_t b n ≡ some ([], b)
unfolding remove_items_cbuffer_t
remove_items-too_many b n h = ground arith

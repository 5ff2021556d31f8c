-- ===== src/Cbuffer/Written.antt =====
-- `insert_items_cbuffer_t`: the bytes that its two copies write, in closed form.
use dso_fifo.Prelude.{
  ℕ, ◌+◌, ◌-◌, ◌%◌, ◌≤◌, ◌<◌, ◌≡◌, ap, ◌∙◌, some, List, [], ◌++◌, arith, ltb, leb, if◌then◌else◌,
  ◌>>=◌, length, get_or, take, drop, add32, ==_false, le→ltb_false, >>=-eq-some, take-append-drop,
  length-take, length-drop, get_or-take, get_or-drop,
}
use dso_fifo.Cbuffer.{
  Cbuffer, splice, insert_first, insert_second, insert_update, insert_items_cbuffer_t,
}
use dso_fifo.Cbuffer.Valid.{IsValid}
use dso_fifo.Cbuffer.Window.{behind, length-splice, get_or-splice}

-- What the two copies leave of the bytes `mem`, in closed form.
abbrev pub written : List ℕ → ℕ → ℕ → List ℕ → ℕ → List ℕ
written mem max whead items n =
    if ltb max (whead + n)
    then splice (splice mem whead (take (max - whead) items)) 0
        (take (n - (max - whead)) (drop (max - whead) items))
    else splice mem whead (take n items)

module _ (mem : List ℕ) (max whead : ℕ) (items : List ℕ) (n : ℕ) (size : length mem ≡ max)
    (whead_in : whead < max) (fits : n ≤ max) (given : n ≤ length items) where
  length-first : length (take (max - whead) items) ≤ max - whead
  length-first = omega (arith, length-take (max - whead) items)

  length-rest :
      max < whead + n
      → length (take (n - (max - whead)) (drop (max - whead) items)) ≡ n - (max - whead)
  length-rest h = omega (
    arith,
    length-take (n - (max - whead)) (drop (max - whead) items),
    length-drop (max - whead) items,
  )

  length-mid : length (splice mem whead (take (max - whead) items)) ≡ max
  length-mid =
      omega
        (arith, length-splice mem whead (take (max - whead) items) (omega (arith, length-first)))

  pub length-written : length (written mem max whead items n) ≡ max
  length-written = ground (
    arith,
    length-rest,
    length-mid,
    length-take n items,
    length-splice mem whead (take n items),
    length-splice (splice mem whead (take (max - whead) items)) 0
        (take (n - (max - whead)) (drop (max - whead) items)),
  )

  pub get_or-written :
      (j : ℕ)
      → j < max
      → get_or (written mem max whead items n) j 0 ≡ (
          if ltb (behind max whead j) n
          then get_or items (behind max whead j) 0
          else get_or mem j 0)
  get_or-written j lt = ground (
    arith,
    length-rest,
    length-mid,
    length-take n items,
    length-take (max - whead) items,
    get_or-splice mem whead (take n items) j,
    get_or-splice mem whead (take (max - whead) items) j,
    get_or-splice (splice mem whead (take (max - whead) items)) 0
        (take (n - (max - whead)) (drop (max - whead) items)) j,
    get_or-take n items (j - whead) 0,
    get_or-take (max - whead) items (j - whead) 0,
    get_or-take (n - (max - whead)) (drop (max - whead) items) j 0,
    get_or-drop (max - whead) items j 0,
  )

splice-nil : (mem : List ℕ) (off : ℕ) → splice mem off [] ≡ mem
unfolding splice
splice-nil mem off = ap (λ k. take off mem ++ drop k mem) (omega arith) ∙ take-append-drop off mem

abbrev pub whead_of : Cbuffer → ℕ
whead_of b = (b.head + b.size) % b.max_size

module _ (b : Cbuffer) (items : List ℕ) (n whead : ℕ) (v : IsValid b)
    (whead_in : whead < b.max_size) (fits : n ≤ b.max_size) (given : n ≤ length items) where
  copies-written :
      (insert_first b items whead n >>= insert_second)
      ≡ some (written b.bytes b.max_size whead items n)
  unfolding insert_first insert_second
  copies-written = ground (
    arith,
    splice-nil b.bytes whead,
    length-mid b.bytes b.max_size whead items n v.storage whead_in fits given,
    length-drop (b.max_size - whead) items,
  )

-- On a valid buffer the function does not fault, and its bytes are those of the closed form.
pub insert_items-written :
    (b : Cbuffer) (items : List ℕ) (n : ℕ)
    → IsValid b
    → n ≤ b.max_size
    → n ≤ length items
    → insert_items_cbuffer_t b items n
      ≡ some (insert_update b n (written b.bytes b.max_size (whead_of b) items n))
unfolding insert_items_cbuffer_t
insert_items-written b items n v fits given =
    let w : add32 b.head b.size % b.max_size ≡ whead_of b =
      ap (λ k. k % b.max_size) (omega arith) in
    rw (==_false b.max_size 0 (omega arith), le→ltb_false b.max_size n fits, w)
      (>>=-eq-some (insert_first b items (whead_of b) n) insert_second
        (λ mem. some (insert_update b n mem))
        (copies-written b items n (whead_of b) v (omega arith) fits given))

-- the head after the update
abbrev pub head_after : Cbuffer → ℕ → ℕ
head_after b n =
    if leb n (b.max_size - b.size)
    then b.head
    else (b.head + (n - (b.max_size - b.size))) % b.max_size

abbrev pub size_after : Cbuffer → ℕ → ℕ
size_after b n = if leb n (b.max_size - b.size) then b.size + n else b.max_size

pub insert_update_lem :
    (b : Cbuffer) (n : ℕ) (mem : List ℕ)
    → IsValid b
    → n ≤ b.max_size
    → insert_update b n mem ≡ record b { bytes = mem; head = head_after b n; size = size_after b n }
unfolding insert_update
insert_update_lem b n mem v fits = ground arith

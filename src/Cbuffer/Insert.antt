-- ===== src/Cbuffer/Insert.antt =====
-- `insert_items_cbuffer_t`: what it leaves in the buffer.
use dso_fifo.Prelude.{
  ℕ, ◌+◌, ◌-◌, ◌%◌, ◌≤◌, ◌<◌, ◌≡◌, refl, sym, ap, ◌∙◌, inl, inr, some, List, ◌++◌, arith, ltb, leb,
  if◌then◌else◌, length, get_or, take, drop, Bool-cases, leb→le, ltb→lt, ltb_false→le, le→ltb_false,
  lt→ltb, take-all, length-append, length-take, length-drop, get_or-append, get_or-take,
  get_or-drop, list_ext,
}
use dso_fifo.Cbuffer.{Cbuffer, insert_items_cbuffer_t}
use dso_fifo.Cbuffer.Valid.{IsValid}
use dso_fifo.Cbuffer.Window.{
  contents, length-contents, get_or-contents, behind, behind-add-mod, mod-shift, mod-shift_round,
}
use dso_fifo.Cbuffer.Written.{
  written, length-written, get_or-written, whead_of, insert_items-written, head_after, size_after,
  insert_update_lem,
}

-- what `contents` holds of the old bytes and the items, oldest first; the rest is overwritten
abbrev overwritten : Cbuffer → ℕ → ℕ
overwritten b n = b.size + n - b.max_size

module _ (b : Cbuffer) (n : ℕ) (v : IsValid b) (fits : n ≤ b.max_size) (i : ℕ)
    (lt : i < size_after b n) where
  -- the place of the `i`-th byte, counted from the old head
  abbrev place : ℕ
  place = overwritten b n + i

  place-head : (head_after b n + i) % b.max_size ≡ (b.head + place) % b.max_size
  place-head = elim (Bool-cases (leb n (b.max_size - b.size))) [
    | inl room ↦ ground (arith, ap (λ k. (b.head + k) % b.max_size) (none_lost (leb→le _ _ room)))
    | inr over ↦
        ground (arith, mod-shift (b.head + (n - (b.max_size - b.size))) i b.head place b.max_size)
  ]
    where
      none_lost : n ≤ b.max_size - b.size → place ≡ i
      none_lost h = omega arith

  place-old :
      place < b.size
      → (whead_of b + (place + b.max_size - b.size)) % b.max_size ≡ (b.head + place) % b.max_size
  place-old h =
      mod-shift_round (b.head + b.size) (place + b.max_size - b.size) b.head place b.max_size
        (omega arith)

  place-new :
      b.size ≤ place → (whead_of b + (place - b.size)) % b.max_size ≡ (b.head + place) % b.max_size
  place-new h = mod-shift (b.head + b.size) (place - b.size) b.head place b.max_size (omega arith)

  place_lt : place < b.size + n
  place_lt = ground arith

  abbrev slot : ℕ
  slot = (b.head + place) % b.max_size

  slot_lt : slot < b.max_size
  slot_lt = omega arith

  behind-old : place < b.size → behind b.max_size (whead_of b) slot ≡ place + b.max_size - b.size
  behind-old h = rw (← place-old h) (
      behind-add-mod b.max_size (whead_of b) (place + b.max_size - b.size) (omega arith)
        (omega arith))

  behind-new : b.size ≤ place → behind b.max_size (whead_of b) slot ≡ place - b.size
  behind-new h = rw (← place-new h) (
      behind-add-mod b.max_size (whead_of b) (place - b.size) (omega arith)
        (omega (arith, place_lt)))

  -- The byte at the slot after the call is the byte or item at its place.
  get_or-slot :
      (items : List ℕ)
      → n ≤ length items
      → get_or (written b.bytes b.max_size (whead_of b) items n) slot 0
        ≡ (if ltb place b.size then get_or b.bytes slot 0 else get_or items (place - b.size) 0)
  get_or-slot items given =
      get_or-written b.bytes b.max_size (whead_of b) items n v.storage (omega arith) fits given slot
        slot_lt
      ∙ pick
    where
      pick :
          (if ltb (behind b.max_size (whead_of b) slot) n
            then get_or items (behind b.max_size (whead_of b) slot) 0
            else get_or b.bytes slot 0)
          ≡ (if ltb place b.size then get_or b.bytes slot 0 else get_or items (place - b.size) 0)
      pick = elim (Bool-cases (ltb place b.size)) [
        | inl old ↦ rw (
          old,
          behind-old (ltb→lt _ _ old),
          le→ltb_false (place + b.max_size - b.size) n (omega (arith, ltb→lt _ _ old)),
        )
        | inr new ↦ rw (
          new,
          behind-new (ltb_false→le _ _ new),
          lt→ltb (place - b.size) n (omega (arith, place_lt, ltb_false→le _ _ new)),
        )
      ]

-- the last `max` bytes of `xs`
abbrev pub keep_last : ℕ → List ℕ → List ℕ
keep_last max xs = drop (length xs - max) xs

-- the buffer after a call with `n` items
abbrev pub inserted : Cbuffer → List ℕ → ℕ → Cbuffer
inserted b items n = record b {
  bytes = written b.bytes b.max_size (whead_of b) items n;
  head = head_after b n;
  size = size_after b n;
}

module _ (b : Cbuffer) (items : List ℕ) (n : ℕ) (v : IsValid b) (fits : n ≤ b.max_size)
    (given : n ≤ length items) where
  pub inserted-IsValid : IsValid (inserted b items n)
  inserted-IsValid = record {
    storage =
        length-written b.bytes b.max_size (whead_of b) items n v.storage (omega arith) fits given;
    nonempty = v.nonempty;
    small = v.small;
    head_in = ground arith;
    size_in = ground arith;
  }

  length-queue : length (contents b ++ take n items) ≡ b.size + n
  length-queue =
      omega
        (arith, length-append (contents b) (take n items), length-contents b, length-take n items)

  -- the abstract side, read at the same place
  get_or-queue :
      (i : ℕ)
      → i < size_after b n
      → get_or (keep_last b.max_size (contents b ++ take n items)) i 0 ≡ (
          if ltb (overwritten b n + i) b.size
          then get_or b.bytes ((b.head + (overwritten b n + i)) % b.max_size) 0
          else get_or items (overwritten b n + i - b.size) 0)
  get_or-queue i lt =
      rw (length-queue, get_or-drop, get_or-append, length-contents)
        (elim (Bool-cases (ltb (overwritten b n + i) b.size)) [
          | inl old ↦ rw old (get_or-contents b (overwritten b n + i) (ltb→lt _ _ old))
          | inr new ↦ rw new (
              get_or-take n items (overwritten b n + i - b.size) 0
                (omega (arith, place_lt b n v fits i lt, ltb_false→le _ _ new)))
        ])

  contents-inserted :
      contents (inserted b items n) ≡ keep_last b.max_size (contents b ++ take n items)
  contents-inserted =
      list_ext _ _ 0
        (ground (
          arith,
          length-contents (inserted b items n),
          length-queue,
          length-drop (b.size + n - b.max_size) (contents b ++ take n items),
        ))
        (λ i lt. same i (omega (arith, length-contents (inserted b items n))))
    where
      same :
          (i : ℕ)
          → i < size_after b n
          → get_or (contents (inserted b items n)) i 0
            ≡ get_or (keep_last b.max_size (contents b ++ take n items)) i 0
      same i lt =
          get_or-contents (inserted b items n) i lt
          ∙ ap (λ k. get_or (written b.bytes b.max_size (whead_of b) items n) k 0)
              (place-head b n v fits i lt)
          ∙ get_or-slot b n v fits i lt items given
          ∙ sym (get_or-queue i lt)

pub insert_items-inserted :
    (b : Cbuffer) (items : List ℕ) (n : ℕ)
    → IsValid b
    → n ≤ b.max_size
    → n ≤ length items
    → insert_items_cbuffer_t b items n ≡ some (inserted b items n)
insert_items-inserted b items n v fits given =
    insert_items-written b items n v fits given
    ∙ ap some (insert_update_lem b n (written b.bytes b.max_size (whead_of b) items n) v fits)

-- On a valid buffer, with at most `max_size` items given, the call does not fault, keeps the
-- invariant and the capacity, and leaves the last `max_size` bytes of the old contents followed by
-- the items.
pub insert_items_lem :
    (b : Cbuffer) (items : List ℕ) (n : ℕ)
    → IsValid b
    → n ≤ b.max_size
    → n ≤ length items
    → (b' : Cbuffer) × (insert_items_cbuffer_t b items n ≡ some b')
      × IsValid b'
      × (b'.max_size ≡ b.max_size)
      × (contents b' ≡ keep_last b.max_size (contents b ++ take n items))
insert_items_lem b items n v fits given = (
  inserted b items n,
  insert_items-inserted b items n v fits given,
  inserted-IsValid b items n v fits given,
  refl,
  contents-inserted b items n v fits given,
)

-- Where there is room for all of the items, nothing is overwritten: they follow the old contents.
pub insert_items-room :
    (b : Cbuffer) (items : List ℕ)
    → IsValid b
    → b.size + length items ≤ b.max_size
    → (b' : Cbuffer) × (insert_items_cbuffer_t b items (length items) ≡ some b')
      × IsValid b'
      × (b'.max_size ≡ b.max_size)
      × (contents b' ≡ contents b ++ items)
insert_items-room b items v room =
    let (b', runs, v', same, held) =
      insert_items_lem b items (length items) v (omega arith) (omega arith) in
    (b', runs, v', same, held ∙ rw (take-all items) (rw none_lost))
  where
    none_lost : length (contents b ++ items) - b.max_size ≡ 0
    none_lost = omega (arith, length-append (contents b) items, length-contents b)

-- ===== src/ItemBuffer/Single.antt =====
-- What the calls on the buffer of pointers do to its contents, oldest first.
use dso_fifo.Prelude.{
  ℕ, ◌+◌, ◌<◌, ◌≡◌, refl, sym, ap, ◌∙◌, some, List, [], ◌∷◌, ◌++◌, arith, length, get_or, drop,
  length-append,
}
use dso_fifo.Cbuffer.{Cbuffer}
use dso_fifo.Cbuffer.Valid.{IsStrict}
use dso_fifo.Cbuffer.Window.{contents, length-contents}
use dso_fifo.Cbuffer.Insert.{insert_items-room}
use dso_fifo.Cbuffer.Single.{insert-eq-insert_items, remove_lem}
use dso_fifo.Cbuffer
use dso_fifo.ItemBuffer.{ItemBuffer, insert_cbuffer_t, remove_cbuffer_t, head_cbuffer_t}

-- The same buffer with its words as the bytes of parteB/cbuffer.c.
abbrev pub as_bytes : ItemBuffer → Cbuffer
as_bytes b = record { bytes = b.items; head = b.head; size = b.size; max_size = b.max_size }

abbrev pub of_bytes : Cbuffer → ItemBuffer
of_bytes b = record { items = b.bytes; head = b.head; size = b.size; max_size = b.max_size }

-- the items in the buffer, oldest first
unfoldable pub queued : ItemBuffer → List ℕ
queued b = contents (as_bytes b)

pub length-queued : (b : ItemBuffer) → length (queued b) ≡ b.size
unfolding queued
length-queued b = length-contents (as_bytes b)

-- the invariant of the header's comments
abbrev pub IsQueue : ItemBuffer → Type 0
IsQueue b = IsStrict (as_bytes b)

insert-as_bytes :
    (b : ItemBuffer) (x : ℕ) {c : Cbuffer}
    → Cbuffer.insert_cbuffer_t (as_bytes b) x ≡ some c
    → insert_cbuffer_t b x ≡ some (of_bytes c)
unfolding insert_cbuffer_t Cbuffer.insert_cbuffer_t
insert-as_bytes b x e = ground arith

insert-head :
    (b : ItemBuffer) (x : ℕ) {c : ItemBuffer}
    → b.size < b.max_size
    → insert_cbuffer_t b x ≡ some c
    → c.head ≡ b.head
unfolding insert_cbuffer_t
insert-head b x room e = ground arith

-- Where there is room, the item goes to the end.
pub insert_room :
    (b : ItemBuffer) (x : ℕ)
    → IsQueue b
    → b.size < b.max_size
    → (c : ItemBuffer) × (insert_cbuffer_t b x ≡ some c)
      × IsQueue c
      × (c.max_size ≡ b.max_size)
      × (queued c ≡ queued b ++ x ∷ [])
unfolding queued
insert_room b x q room =
    let (c, runs, v, same, held) = insert_items-room (as_bytes b) (x ∷ []) q.valid (omega arith) in
    let e = insert-as_bytes b x (insert-eq-insert_items (as_bytes b) x q ∙ runs) in
    (
      of_bytes c,
      e,
      record { valid = v; head_lt = omega (arith, q.head_lt, same, insert-head b x room e) },
      same,
      held,
    )

-- the list cut behind its first element
cut : (xs : List ℕ) → 0 < length xs → (x : ℕ) × (rest : List ℕ) × (xs ≡ x ∷ rest)
cut [] h = absurd (omega arith)
cut (x ∷ xs) h = (x, xs, refl)

remove-as_bytes :
    (b : ItemBuffer) {r : ℕ × Cbuffer}
    → 0 < b.size
    → IsQueue b
    → Cbuffer.remove_cbuffer_t (as_bytes b) ≡ some r
    → (head_cbuffer_t b ≡ some r.0) × (remove_cbuffer_t b ≡ some (of_bytes r.1))
unfolding head_cbuffer_t remove_cbuffer_t Cbuffer.remove_cbuffer_t
remove-as_bytes b some_size q e = ground arith

remove-max_size :
    (b : ItemBuffer) {c : ItemBuffer} → remove_cbuffer_t b ≡ some c → c.max_size ≡ b.max_size
unfolding remove_cbuffer_t
remove-max_size b e = ground arith

-- From a buffer that is not empty the calls give and take out the oldest item.
pub remove_some :
    (b : ItemBuffer)
    → IsQueue b
    → 0 < b.size
    → (x : ℕ) × (c : ItemBuffer) × (head_cbuffer_t b ≡ some x)
      × (remove_cbuffer_t b ≡ some c)
      × IsQueue c
      × (c.max_size ≡ b.max_size)
      × (queued b ≡ x ∷ queued c)
unfolding queued
remove_some b q some_size =
    let (c, runs, strict, held) = remove_lem (as_bytes b) q in
    let (x, rest, e) = cut (contents (as_bytes b)) (omega (arith, length-contents (as_bytes b))) in
    let (gives, takes) = remove-as_bytes b some_size q runs in
    (
      x,
      of_bytes c,
      gives ∙ ap (λ (l : List ℕ). some (get_or l 0 0)) e,
      takes,
      strict,
      remove-max_size b takes,
      e ∙ ap (λ l. x ∷ l) (sym (held ∙ ap (drop 1) e)),
    )

pub size-grown : (b c : ItemBuffer) (x : ℕ) → queued c ≡ queued b ++ x ∷ [] → c.size ≡ b.size + 1
size-grown b c x held =
    omega
      (arith, ap length held, length-queued c, length-queued b, length-append (queued b) (x ∷ []))

pub size-shrunk : (b c : ItemBuffer) (x : ℕ) → queued b ≡ x ∷ queued c → b.size ≡ c.size + 1
size-shrunk b c x held = omega (arith, ap length held, length-queued c, length-queued b)

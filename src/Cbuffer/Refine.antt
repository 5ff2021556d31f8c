-- ===== src/Cbuffer/Refine.antt =====
-- A sequence of bulk calls on a buffer, as the FIFO makes them, against a bounded queue of bytes.
use dso_fifo.Prelude.{
  ℕ, ◌<◌, ◌≡◌, refl, ap, ◌∙◌, inl, inr, Option, some, List, [], ◌∷◌, ◌++◌, arith, leb,
  if◌then◌else◌, ◌>>=◌, length, take, drop, Bool-cases, leb→le, leb_false→lt, take-all,
}
use dso_fifo.Cbuffer.{Cbuffer, insert_items_cbuffer_t, remove_items_cbuffer_t}
use dso_fifo.Cbuffer.Valid.{IsValid}
use dso_fifo.Cbuffer.Window.{contents, length-contents}
use dso_fifo.Cbuffer.Insert.{keep_last, insert_items_lem}
use dso_fifo.Cbuffer.Remove.{remove_items_lem, remove_items-too_many}

pub data Op : Type 0 where
  put : List ℕ → Op
  get : ℕ → Op

-- what a call copies out, and the buffer after it
pub step : Cbuffer → Op → Option (List ℕ × Cbuffer)
step b (put xs) = insert_items_cbuffer_t b xs (length xs) >>= λ b'. some ([], b')
step b (get n) = remove_items_cbuffer_t b n

pub run : Cbuffer → List Op → Option (List (List ℕ) × Cbuffer)
run b [] = some ([], b)
run b (op ∷ ops) = step b op >>= λ r. run r.1 ops >>= λ rs. some (r.0 ∷ rs.0, rs.1)

-- A queue that keeps the newest `max` bytes, and refuses what it cannot serve whole.
pub queue_step : ℕ → List ℕ → Op → List ℕ × List ℕ
queue_step max q (put xs) = if leb (length xs) max then ([], keep_last max (q ++ xs)) else ([], q)
queue_step max q (get n) = if leb n (length q) then (take n q, drop n q) else ([], q)

pub queue_run : ℕ → List ℕ → List Op → List (List ℕ) × List ℕ
queue_run max q [] = ([], q)
queue_run max q (op ∷ ops) =
    let r = queue_step max q op in let rs = queue_run max r.1 ops in (r.0 ∷ rs.0, rs.1)

-- what one call leaves, against the queue
abbrev Refines : Cbuffer → (Option (List ℕ × Cbuffer)) → List ℕ × List ℕ → Type 0
Refines b res spec =
    (b' : Cbuffer) × (res ≡ some (spec.0, b'))
    × IsValid b'
    × (b'.max_size ≡ b.max_size)
    × (contents b' ≡ spec.1)

insert_items-too_many :
    (b : Cbuffer) (items : List ℕ) (n : ℕ)
    → IsValid b
    → b.max_size < n
    → insert_items_cbuffer_t b items n ≡ some b
unfolding insert_items_cbuffer_t
insert_items-too_many b items n v h = ground arith

step-Refines :
    (b : Cbuffer) (op : Op)
    → IsValid b
    → Refines b (step b op) (queue_step b.max_size (contents b) op)
unfolding step queue_step
step-Refines b (put xs) v = elim (Bool-cases (leb (length xs) b.max_size)) [
  | inl fits ↦
      let (b', runs, v', same, held) =
        insert_items_lem b xs (length xs) v (leb→le _ _ fits) (omega arith) in
      rw fits (
        b',
        rw runs,
        v',
        same,
        held ∙ ap (λ ys. keep_last b.max_size (contents b ++ ys)) (take-all xs),
      )
  | inr over ↦
      rw over
        (b, rw (insert_items-too_many b xs (length xs) v (leb_false→lt _ _ over)), v, refl, refl)
]
step-Refines b (get n) v = elim (Bool-cases (leb n (length (contents b)))) [
  | inl fits ↦
      let (b', runs, v', same, head, held) =
        remove_items_lem b n v (omega (arith, length-contents b, leb→le _ _ fits)) in
      rw fits (b', runs, v', same, held)
  | inr over ↦ rw over (
    b,
    remove_items-too_many b n (omega (arith, length-contents b, leb_false→lt _ _ over)),
    v,
    refl,
    refl,
  )
]

-- On a valid buffer no sequence of bulk calls faults, and it copies out, and leaves, what the
-- bounded queue of the buffer's contents gives and leaves.
pub run_refines :
    (b : Cbuffer) (ops : List Op)
    → IsValid b
    → (b' : Cbuffer) × (run b ops ≡ some ((queue_run b.max_size (contents b) ops).0, b'))
      × IsValid b'
      × (contents b' ≡ (queue_run b.max_size (contents b) ops).1)
unfolding run queue_run
run_refines b [] v = (b, refl, v, refl)
run_refines b (op ∷ ops) v =
    let (b', runs, v', same, held) = step-Refines b op v in
    let (b'', rest, v'', left) = run_refines b' ops v' in
    (b'', rw (runs, ◌>>=◌) (rw (rest, same, held)), v'', rw (same, held) at left)

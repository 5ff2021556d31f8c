-- ===== src/Fifo/Calls.antt =====
-- What `fifo_read` and `fifo_write` do while they hold the mutex, on every branch.
use dso_fifo.Prelude.{
  ℕ, ◌+◌, ◌-◌, ◌≤◌, ◌<◌, ◌≡◌, ◌≢◌, sym, ap, ◌∙◌, ◌⊎◌, inl, inr, true, false, ◌&&◌, Option, some,
  List, [], ◌++◌, arith, ◌==◌, ◌>>=◌, sign, sub32, length, take, drop, Bool-cases, lt→ltb,
  le→ltb_false, ==_false,
}
use dso_fifo.Cbuffer.{Cbuffer, size_cbuffer_t, nr_gaps_cbuffer_t, is_empty_cbuffer_t}
use dso_fifo.Cbuffer.Valid.{IsValid}
use native.Mathlib.Decide.{dec_le, ℕ_discrete}
use dso_fifo.Cbuffer.Window.{contents, length-contents, contents-empty}
use dso_fifo.Cbuffer.Insert.{insert_items-room}
use dso_fifo.Cbuffer.Remove.{remove_items_lem}
use dso_fifo.Fifo.{
  Fifo, buf_len, Role, epipe, value, error, read_call, write_call, opened, gave, took, Turn,
  replies, up_mutex, sleeps, read_test, fifo_read, write_test, fifo_write,
}
use dso_fifo.Fifo.Wake.{wake_prods_lem, wake_conss_lem}

-- the buffer of the device: valid, and of the capacity that `init_module` asks for
pub record IsPipe (b : Cbuffer) : Type 0 where
  pub valid : IsValid b
  pub capacity : b.max_size ≡ buf_len

-- A read that succeeds: the bytes come out, the mutex is free again, and every producer that was
-- counted in the queue has a token.
abbrev pub read_done : ℕ → Role → ℕ → Fifo → Cbuffer → Turn
read_done left r n f b' = record {
  fifo = record f {
    cbuffer = b';
    num_bloq_prod = 0;
    cola_prod = f.cola_prod + f.num_bloq_prod;
    mutex = f.mutex + 1;
  };
  pc = opened r;
  effect = took (take n (contents f.cbuffer));
  reply = some (value (n - left));
}

abbrev pub write_done : Role → List ℕ → Fifo → Cbuffer → Turn
write_done r kbuff f b' = record {
  fifo = record f {
    cbuffer = b';
    num_bloq_cons = 0;
    cola_cons = f.cola_cons + f.num_bloq_cons;
    mutex = f.mutex + 1;
  };
  pc = opened r;
  effect = gave kbuff;
  reply = some (value (length kbuff));
}

pub read_test-enough :
    (left : ℕ) (r : Role) (n : ℕ) (f : Fifo)
    → IsPipe f.cbuffer
    → n ≤ length (contents f.cbuffer)
    → (b' : Cbuffer) × (read_test left r n f ≡ some (read_done left r n f b'))
      × IsPipe b'
      × (contents b' ≡ drop n (contents f.cbuffer))
unfolding read_test size_cbuffer_t
read_test-enough left r n f v enough =
    let (b', runs, v', same, head, held) =
      remove_items_lem f.cbuffer n v.valid (omega (arith, length-contents f.cbuffer)) in
    (
      b',
      rw (le→ltb_false f.cbuffer.size n (omega (arith, length-contents f.cbuffer)))
          (rw (runs, ◌>>=◌) (rw (wake_prods_lem (record f { cbuffer = b' })))),
      record { valid = v'; capacity = same ∙ v.capacity },
      held,
    )

pub read_test-short :
    (left : ℕ) (r : Role) (n : ℕ) (f : Fifo)
    → length (contents f.cbuffer) < n
    → read_test left r n f ≡ some (sleeps r (read_call n) f)
unfolding read_test size_cbuffer_t
read_test-short left r n f short =
    rw (lt→ltb f.cbuffer.size n (omega (arith, length-contents f.cbuffer)))

pub write_test-room :
    (r : Role) (kbuff : List ℕ) (f : Fifo)
    → IsPipe f.cbuffer
    → f.num_cons ≢ 0
    → length (contents f.cbuffer) + length kbuff ≤ buf_len
    → (b' : Cbuffer) × (write_test r kbuff f ≡ some (write_done r kbuff f b'))
      × IsPipe b'
      × (contents b' ≡ contents f.cbuffer ++ kbuff)
unfolding write_test nr_gaps_cbuffer_t
write_test-room r kbuff f v some_cons room =
    let (b', runs, v', same, held) =
      insert_items-room f.cbuffer kbuff v.valid
        (omega (arith, v.capacity, length-contents f.cbuffer)) in
    (
      b',
      rw
          (le→ltb_false (sub32 f.cbuffer.max_size f.cbuffer.size) (length kbuff)
            (omega (arith, v.capacity, v.valid, length-contents f.cbuffer)))
          (ground (arith, runs, wake_conss_lem (record f { cbuffer = b' }))),
      record { valid = v'; capacity = same ∙ v.capacity },
      held,
    )

pub write_test-full :
    (r : Role) (kbuff : List ℕ) (f : Fifo)
    → IsPipe f.cbuffer
    → f.num_cons ≢ 0
    → f.num_cons < sign
    → buf_len < length (contents f.cbuffer) + length kbuff
    → write_test r kbuff f ≡ some (sleeps r (write_call kbuff) f)
unfolding write_test nr_gaps_cbuffer_t
write_test-full r kbuff f v some_cons pos full = ground (arith, length-contents f.cbuffer)

pub write_test-alone :
    (r : Role) (kbuff : List ℕ) (f : Fifo)
    → f.num_cons ≡ 0
    → write_test r kbuff f ≡ some (replies (up_mutex f) (opened r) (error epipe))
unfolding write_test
write_test-alone r kbuff f alone = ground arith

-- the branches of `fifo_read`
pub data ReadResult (left : ℕ) (r : Role) (n : ℕ) (f : Fifo) (res : Option Turn) : Type 0 where
  at_end :
      f.num_prod ≡ 0
      → contents f.cbuffer ≡ []
      → res ≡ some (replies (up_mutex f) (opened r) (value 0))
      → ReadResult left r n f res
  blocks :
      (f.num_prod ≢ 0) ⊎ (contents f.cbuffer ≢ [])
      → length (contents f.cbuffer) < n
      → res ≡ some (sleeps r (read_call n) f)
      → ReadResult left r n f res
  reads :
      (b' : Cbuffer)
      → n ≤ length (contents f.cbuffer)
      → IsPipe b'
      → contents b' ≡ drop n (contents f.cbuffer)
      → res ≡ some (read_done left r n f b')
      → ReadResult left r n f res

read_test-ReadResult :
    (left : ℕ) (r : Role) (n : ℕ) (f : Fifo)
    → IsPipe f.cbuffer
    → (f.num_prod ≢ 0) ⊎ (contents f.cbuffer ≢ [])
    → ReadResult left r n f (read_test left r n f)
read_test-ReadResult left r n f v open_ = elim (dec_le n (length (contents f.cbuffer))) [
  | yes enough ↦
      let (b', runs, v', held) = read_test-enough left r n f v enough in
      reads b' enough v' held runs
  | no short ↦ blocks open_ (omega arith) (read_test-short left r n f (omega arith))
]

not_at_end :
    (f : Fifo)
    → (f.num_prod == 0 && is_empty_cbuffer_t f.cbuffer) ≡ false
    → (f.num_prod ≢ 0) ⊎ (f.cbuffer.size ≢ 0)
unfolding is_empty_cbuffer_t
not_at_end f h = ground arith

at_end_parts :
    (f : Fifo)
    → (f.num_prod == 0 && is_empty_cbuffer_t f.cbuffer) ≡ true
    → (f.num_prod ≡ 0) × (f.cbuffer.size ≡ 0)
unfolding is_empty_cbuffer_t
at_end_parts f h = ground arith

-- On the buffer of the device `fifo_read` never faults. It returns 0 where the pipe is empty and
-- has no producer; otherwise it goes to sleep where the pipe holds fewer bytes than asked for, and
-- takes exactly the oldest `n` bytes where it holds enough, waking every producer counted as
-- waiting and returning `n` less what `copy_to_user` could not copy.
pub fifo_read_lem :
    (left : ℕ) (r : Role) (n : ℕ) (f : Fifo)
    → IsPipe f.cbuffer
    → ReadResult left r n f (fifo_read left r n f)
unfolding fifo_read
fifo_read_lem left r n f v = elim (Bool-cases (f.num_prod == 0 && is_empty_cbuffer_t f.cbuffer)) [
  | inl over ↦
      let (alone, empty) = at_end_parts f over in
      at_end alone (contents-empty f.cbuffer empty) (rw over)
  | inr more ↦ rw more (read_test-ReadResult left r n f v (held_or_open (not_at_end f more)))
]
  where
    held_or_open :
        (f.num_prod ≢ 0) ⊎ (f.cbuffer.size ≢ 0) → (f.num_prod ≢ 0) ⊎ (contents f.cbuffer ≢ [])
    held_or_open (inl h) = inl h
    held_or_open (inr h) = inr (λ e. h (sym (length-contents f.cbuffer) ∙ ap length e))

-- the branches of `fifo_write`
pub data WriteResult (r : Role) (kbuff : List ℕ) (f : Fifo) (res : Option Turn) : Type 0 where
  broken :
      f.num_cons ≡ 0
      → res ≡ some (replies (up_mutex f) (opened r) (error epipe))
      → WriteResult r kbuff f res
  blocks :
      f.num_cons ≢ 0
      → buf_len < length (contents f.cbuffer) + length kbuff
      → res ≡ some (sleeps r (write_call kbuff) f)
      → WriteResult r kbuff f res
  writes :
      (b' : Cbuffer)
      → f.num_cons ≢ 0
      → length (contents f.cbuffer) + length kbuff ≤ buf_len
      → IsPipe b'
      → contents b' ≡ contents f.cbuffer ++ kbuff
      → res ≡ some (write_done r kbuff f b')
      → WriteResult r kbuff f res

-- From its loop on, where it also goes on after a sleep, `fifo_write` never faults on the buffer of
-- the device, while fewer than 2 ^ 31 consumers are counted. It returns -EPIPE where there is no
-- consumer; otherwise it goes to sleep where the bytes do not fit, and appends them all where they
-- do, overwriting none, waking every consumer counted as waiting and returning their number.
pub write_test_lem :
    (r : Role) (kbuff : List ℕ) (f : Fifo)
    → IsPipe f.cbuffer
    → f.num_cons < sign
    → WriteResult r kbuff f (write_test r kbuff f)
write_test_lem r kbuff f v pos = elim (ℕ_discrete f.num_cons 0) [
  | yes alone ↦ broken alone (write_test-alone r kbuff f alone)
  | no some_cons ↦ elim (dec_le (length (contents f.cbuffer) + length kbuff) buf_len) [
    | yes room ↦
        let (b', runs, v', held) = write_test-room r kbuff f v some_cons room in
        writes b' some_cons room v' held runs
    | no full ↦
        blocks some_cons (omega arith) (write_test-full r kbuff f v some_cons pos (omega arith))
  ]
]

-- The test that `fifo_write` makes once before its loop changes none of this.
pub fifo_write-eq-write_test :
    (r : Role) (kbuff : List ℕ) (f : Fifo) → fifo_write r kbuff f ≡ write_test r kbuff f
unfolding fifo_write
fifo_write-eq-write_test r kbuff f = elim (ℕ_discrete f.num_cons 0) [
  | yes alone ↦ ground (arith, write_test-alone r kbuff f alone)
  | no more ↦ rw (==_false f.num_cons 0 more)
]

-- ===== src/ProdCons2/Safety.antt =====
-- What holds in every reachable state of prodcons2.c, whatever the scheduler and the signals do.
use dso_fifo.Prelude.{
  ℕ, ◌+◌, ◌%◌, ◌<◌, ◌≤◌, ◌≡◌, ◌↔◌, refl, ap, ◌∙◌, inl, inr, Bool, true, List, [], length,
  length-set, arith, replicate, total, total-set, total-replicate, total-le, word, sign, lt_int,
  ltb→lt, lt→ltb,
}
use dso_fifo.Allocator.{Allocator}
use dso_fifo.ItemBuffer.Single.{IsQueue, queued}
use dso_fifo.ProdCons2.{ProdCons, Turn, Call, Pc, idle, asleep, hit, leaving, max_items_cbuf}
use dso_fifo.ProdCons2.Moves.{System, Step, pick, Run, here, next}
use dso_fifo.ProdCons2.Balance.{holds, is_read, is_write, waiting, Move-Balanced}

-- the globals as `init_prodcons_module` leaves them, with an empty buffer
pub record IsLoaded {a : Allocator} (s : ProdCons a) : Type 0 where
  pub queue : IsQueue s.cbuf
  pub capacity : s.cbuf.max_size ≡ max_items_cbuf
  pub empty : queued s.cbuf ≡ []
  pub no_prods : s.prod_queue ≡ 0
  pub no_conss : s.cons_queue ≡ 0
  pub unlocked : s.mtx ≡ 1
  pub no_prod_waits : s.nr_prod_waiting ≡ 0
  pub no_cons_waits : s.nr_cons_waiting ≡ 0

waiting-le : (which : Call → ℕ) → ((c : Call) → which c ≤ 1) → (p : Pc) → waiting which p ≤ 1
waiting-le which h (asleep c) = h c
waiting-le which h (hit c) = h c
waiting-le which h (leaving c) = h c
waiting-le which h _ = omega arith

is_read-le : (c : Call) → is_read c ≤ 1
is_read-le c = ground arith

is_write-le : (c : Call) → is_write c ≤ 1
is_write-le c = ground arith

-- Where nothing wraps, the count is positive when there are more processes in the queue than tokens.
pub positive_iff :
    (nr tokens inside : ℕ)
    → nr < word
    → (nr + tokens) % word ≡ inside % word
    → tokens < sign
    → inside < sign
    → (lt_int 0 nr ≡ true) ↔ (tokens < inside)
positive_iff nr tokens inside w e few few' =
    (λ h. omega (arith, ltb→lt _ _ h), λ h. lt→ltb _ _ (omega arith))

module _ {a : Allocator} {scan : List ℕ → ℕ × ℕ} {patient : Bool} where
  pub record Inv (s : System a scan patient) : Type 0 where
    pub lock : s.state.mtx + total holds s.pcs ≡ 1
    pub cons :
        (s.state.nr_cons_waiting + s.state.cons_queue) % word ≡ total (waiting is_read) s.pcs % word
    pub prod :
        (s.state.nr_prod_waiting + s.state.prod_queue) % word
        ≡ total (waiting is_write) s.pcs % word
    pub cons_word : s.state.nr_cons_waiting < word
    pub prod_word : s.state.nr_prod_waiting < word
    pub cons_bound : s.state.cons_queue ≤ length s.pcs
    pub prod_bound : s.state.prod_queue ≤ length s.pcs
    pub few : length s.pcs < sign
    pub queue : IsQueue s.state.cbuf
    pub capacity : s.state.cbuf.max_size ≡ max_items_cbuf

  -- the module just loaded, with fewer than 2 ^ 31 processes outside any call
  pub record IsStart (s : System a scan patient) : Type 0 where
    pub loaded : IsLoaded s.state
    pub processes : ℕ
    pub outside : s.pcs ≡ replicate processes idle
    pub few : length s.pcs < sign

  pub total-start :
      (w : Pc → ℕ) {s : System a scan patient} → IsStart s → w idle ≡ 0 → total w s.pcs ≡ 0
  total-start w f e = ap (total w) f.outside ∙ total-replicate w idle f.processes e

  Inv-start : {s : System a scan patient} → IsStart s → Inv s
  Inv-start {s} f = omega (
    arith,
    f.loaded,
    f.few,
    total-start holds f refl,
    total-start (waiting is_read) f refl,
    total-start (waiting is_write) f refl,
  )

  pub readers_inside : (s : System a scan patient) → total (waiting is_read) s.pcs ≤ length s.pcs
  readers_inside s = total-le (waiting is_read) s.pcs (waiting-le is_read is_read-le)

  pub writers_inside : (s : System a scan patient) → total (waiting is_write) s.pcs ≤ length s.pcs
  writers_inside s = total-le (waiting is_write) s.pcs (waiting-le is_write is_write-le)

  -- `nr_cons_waiting` and `nr_prod_waiting` are positive, as `int`s, when there are more processes in
  -- the queue than tokens for them.
  pub cons_positive :
      {s : System a scan patient}
      → Inv s
      → (lt_int 0 s.state.nr_cons_waiting ≡ true)
        ↔ (s.state.cons_queue < total (waiting is_read) s.pcs)
  cons_positive {s} v =
      positive_iff _ _ _ v.cons_word v.cons (omega (arith, v.cons_bound, v.few))
        (omega (arith, readers_inside s, v.few))

  pub prod_positive :
      {s : System a scan patient}
      → Inv s
      → (lt_int 0 s.state.nr_prod_waiting ≡ true)
        ↔ (s.state.prod_queue < total (waiting is_write) s.pcs)
  prod_positive {s} v =
      positive_iff _ _ _ v.prod_word v.prod (omega (arith, v.prod_bound, v.few))
        (omega (arith, writers_inside s, v.few))

  pub Step-Inv :
      {s u : System a scan patient} {t : Turn a} → Step a scan patient s t u → Inv s → Inv u
  Step-Inv {s} (pick i {p} {t} at mv) v =
      let b = Move-Balanced a v.queue mv in
      let same = length-set s.pcs i t.pc in
      record {
        lock = omega (arith, v.lock, b.mutex_kept, total-set holds s.pcs i p t.pc at);
        cons = omega (arith, v.cons, b.cons_kept, total-set (waiting is_read) s.pcs i p t.pc at);
        prod = omega (arith, v.prod, b.prod_kept, total-set (waiting is_write) s.pcs i p t.pc at);
        cons_word = omega (arith, v.cons_word, b.cons_word);
        prod_word = omega (arith, v.prod_word, b.prod_word);
        cons_bound = elim b.cons_tokens [
          | inl fewer ↦ omega (arith, v.cons_bound, same)
          | inr (positive, one_more) ↦
              omega (arith, (cons_positive v).0 positive, readers_inside s, same)
        ];
        prod_bound = elim b.prod_tokens [
          | inl fewer ↦ omega (arith, v.prod_bound, same)
          | inr (positive, one_more) ↦
              omega (arith, (prod_positive v).0 positive, writers_inside s, same)
        ];
        few = omega (arith, v.few, same);
        queue = b.strict;
        capacity = b.capacity ∙ v.capacity;
      }

  pub Run-Inv : {s u : System a scan patient} → Run a scan patient s u → Inv s → Inv u
  Run-Inv here v = v
  Run-Inv (next r st) v = Step-Inv st (Run-Inv r v)

  pub reached-Inv :
      {first s : System a scan patient} → IsStart first → Run a scan patient first s → Inv s
  reached-Inv f r = Run-Inv r (Inv-start f)

  -- With fewer than 2 ^ 31 processes, in every state reached from the module just loaded the count
  -- of a queue is positive, as an `int`, exactly when more processes wait in the queue than its
  -- semaphore has tokens: where a call sees no need to wake anybody up, everybody in the queue has
  -- a token.
  pub counts_say_who_waits :
      {first s : System a scan patient}
      → IsStart first
      → Run a scan patient first s
      → ((lt_int 0 s.state.nr_cons_waiting ≡ true)
          ↔ (s.state.cons_queue < total (waiting is_read) s.pcs))
        × ((lt_int 0 s.state.nr_prod_waiting ≡ true)
            ↔ (s.state.prod_queue < total (waiting is_write) s.pcs))
  counts_say_who_waits f r = (cons_positive (reached-Inv f r), prod_positive (reached-Inv f r))

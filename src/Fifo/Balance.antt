-- ===== src/Fifo/Balance.antt =====
-- What every step of a process keeps in balance: the mutex, the counts of open files, and the
-- counts of the two queues.
use mathlib.Core.Path.{subst}
use dso_fifo.Prelude.{
  Bool-cases, eq_of_some, ℕ, ◌+◌, ◌%◌, ◌<◌, ◌≡◌, ◌⊎◌, inl, inr, ◌&&◌, Option-cases, some, List,
  arith, ◌==◌, word, add32, sub32, length,
}
use dso_fifo.Cbuffer.{insert_items_cbuffer_t, remove_items_cbuffer_t, is_empty_cbuffer_t}
use dso_fifo.Fifo.{
  Fifo, Role, consumer, producer, Call, open_call, read_call, write_call, Pc, closed, opened,
  locking, entered, asleep, woken, resumed, hit, uncounting, undoing, undone, closing, released,
  leaked, Turn, waits_on, cond_wait, cond_interrupted, open_test, fifo_open, open_undo,
  release_reset, fifo_release, read_entry, read_test, fifo_read, write_entry, write_test,
  fifo_write,
}
use dso_fifo.Fifo.Wake.{wake_prods_lem, wake_conss_lem}
use dso_fifo.Fifo.Moves.{interrupted, enter, resume, Move}

-- the processes that hold the mutex
abbrev pub holds : Pc → ℕ
holds (entered r c) = 1
holds (resumed r c) = 1
holds (uncounting r c) = 1
holds (undone r) = 1
holds (released r) = 1
holds _ = 0

abbrev pub is_role : Role → Role → ℕ
is_role consumer consumer = 1
is_role producer producer = 1
is_role _ _ = 0

-- those whose file is counted in `num_cons`, or in `num_prod`
abbrev pub counted : Role → Pc → ℕ
counted k closed = 0
counted k (locking r open_call) = 0
counted k (entered r open_call) = 0
counted k (locking r (read_call n)) = is_role k r
counted k (entered r (read_call n)) = is_role k r
counted k (locking r (write_call kbuff)) = is_role k r
counted k (entered r (write_call kbuff)) = is_role k r
counted k (opened r) = is_role k r
counted k (asleep r c) = is_role k r
counted k (woken r c) = is_role k r
counted k (resumed r c) = is_role k r
counted k (hit r c) = is_role k r
counted k (uncounting r c) = is_role k r
counted k (undoing r) = is_role k r
counted k (undone r) = is_role k r
counted k (closing r) = is_role k r
counted k (released r) = is_role k r
counted k (leaked r) = is_role k r

-- those in the queue `cola_cons`, or `cola_prod`, with a signal or without
abbrev pub waiting : Role → Pc → ℕ
waiting k (asleep r c) = is_role k (waits_on r c)
waiting k (hit r c) = is_role k (waits_on r c)
waiting k (uncounting r c) = is_role k (waits_on r c)
waiting k _ = 0

abbrev pub opens : Role → Fifo → ℕ
opens consumer f = f.num_cons
opens producer f = f.num_prod

abbrev pub bloq : Role → Fifo → ℕ
bloq consumer f = f.num_bloq_cons
bloq producer f = f.num_bloq_prod

pub record Balanced (f g : Fifo) (p q : Pc) : Type 0 where
  pub mutex_kept : g.mutex + holds q ≡ f.mutex + holds p
  pub cons_kept :
      (g.num_cons + counted consumer p) % word ≡ (f.num_cons + counted consumer q) % word
  pub prods_kept :
      (g.num_prod + counted producer p) % word ≡ (f.num_prod + counted producer q) % word
  pub cons_queue :
      (g.num_bloq_cons + g.cola_cons + waiting consumer p) % word
      ≡ (f.num_bloq_cons + f.cola_cons + waiting consumer q) % word
  pub prods_queue :
      (g.num_bloq_prod + g.cola_prod + waiting producer p) % word
      ≡ (f.num_bloq_prod + f.cola_prod + waiting producer q) % word
  pub cons_word : (g.num_cons ≡ f.num_cons) ⊎ (g.num_cons < word)
  pub prods_word : (g.num_prod ≡ f.num_prod) ⊎ (g.num_prod < word)

open_test-Balanced :
    (r : Role) (f : Fifo) → let t = open_test r f in Balanced f t.fifo (resumed r open_call) t.pc
unfolding open_test cond_wait
open_test-Balanced consumer f = ground arith
open_test-Balanced producer f = ground arith

fifo_open-Balanced :
    (r : Role) (f : Fifo) → let t = fifo_open r f in Balanced f t.fifo (entered r open_call) t.pc
unfolding fifo_open open_test cond_wait
fifo_open-Balanced consumer f =
    rw (wake_prods_lem (record f { num_cons = add32 f.num_cons 1 })) (ground arith)
fifo_open-Balanced producer f =
    rw (wake_conss_lem (record f { num_prod = add32 f.num_prod 1 })) (ground arith)

fifo_release-Balanced :
    (r : Role) (f : Fifo) → let t = fifo_release r f in Balanced f t.fifo (released r) t.pc
unfolding fifo_release release_reset
fifo_release-Balanced consumer f =
    ground (arith, wake_prods_lem (record f { num_cons = sub32 f.num_cons 1 }))
fifo_release-Balanced producer f = ground arith

-- What the places have in common from which `fifo_read` and `fifo_write` run.
record Running (r : Role) (p : Pc) : Type 0 where
  holding : holds p ≡ 1
  counts_cons : counted consumer p ≡ is_role consumer r
  counts_prods : counted producer p ≡ is_role producer r
  out_cons : waiting consumer p ≡ 0
  out_prods : waiting producer p ≡ 0

module _ {r : Role} {p : Pc} (run : Running r p) where
  read_test-Balanced :
      (left n : ℕ) (f : Fifo) {t : Turn} → read_test left r n f ≡ some t → Balanced f t.fifo p t.pc
  unfolding read_test cond_wait
  read_test-Balanced left n f e = elim (Option-cases (remove_items_cbuffer_t f.cbuffer n)) [
    | inl fault ↦ ground (arith, run)
    | inr (got, done) ↦ ground (arith, run, wake_prods_lem (record f { cbuffer = got.1 }))
  ]

  fifo_read-Balanced :
      (left n : ℕ) (f : Fifo) {t : Turn} → fifo_read left r n f ≡ some t → Balanced f t.fifo p t.pc
  unfolding fifo_read
  fifo_read-Balanced left n f e =
      elim (Bool-cases (f.num_prod == 0 && is_empty_cbuffer_t f.cbuffer)) [
        | inl at_end ↦ ground (arith, run)
        | inr more ↦ read_test-Balanced left n f (rw more at e)
      ]

  write_test-Balanced :
      (kbuff : List ℕ) (f : Fifo) {t : Turn}
      → write_test r kbuff f ≡ some t
      → Balanced f t.fifo p t.pc
  unfolding write_test cond_wait
  write_test-Balanced kbuff f e =
      elim (Option-cases (insert_items_cbuffer_t f.cbuffer kbuff (length kbuff))) [
        | inl fault ↦ ground (arith, run)
        | inr (b, done) ↦ ground (arith, run, wake_conss_lem (record f { cbuffer = b }))
      ]

  fifo_write-Balanced :
      (kbuff : List ℕ) (f : Fifo) {t : Turn}
      → fifo_write r kbuff f ≡ some t
      → Balanced f t.fifo p t.pc
  unfolding fifo_write
  fifo_write-Balanced kbuff f e = elim (Bool-cases (f.num_cons == 0)) [
    | inl alone ↦ ground (arith, run)
    | inr more ↦ write_test-Balanced kbuff f (rw more at e)
  ]

run_entered-Balanced :
    (left : ℕ) (r : Role) (c : Call) (f : Fifo) {t : Turn}
    → enter left r c f ≡ some t
    → Balanced f t.fifo (entered r c) t.pc
unfolding enter
run_entered-Balanced left r open_call f e =
    subst (λ t. Balanced f t.fifo (entered r open_call) t.pc) (eq_of_some e)
      (fifo_open-Balanced r f)
run_entered-Balanced left r (read_call n) f e = fifo_read-Balanced (omega arith) left n f e
run_entered-Balanced left r (write_call kbuff) f e = fifo_write-Balanced (omega arith) kbuff f e

run_resumed-Balanced :
    (left : ℕ) (r : Role) (c : Call) (f : Fifo) {t : Turn}
    → resume left r c f ≡ some t
    → Balanced f t.fifo (resumed r c) t.pc
unfolding resume
run_resumed-Balanced left r open_call f e =
    subst (λ t. Balanced f t.fifo (resumed r open_call) t.pc) (eq_of_some e)
      (open_test-Balanced r f)
run_resumed-Balanced left r (read_call n) f e = fifo_read-Balanced (omega arith) left n f e
run_resumed-Balanced left r (write_call kbuff) f e = write_test-Balanced (omega arith) kbuff f e

uncount-Balanced :
    (r : Role) (c : Call) (f : Fifo)
    → let t = interrupted r c (cond_interrupted (waits_on r c) f) in
      Balanced f t.fifo (uncounting r c) t.pc
unfolding cond_interrupted
uncount-Balanced consumer open_call f = ground arith
uncount-Balanced producer open_call f = ground arith
uncount-Balanced r (read_call n) f = ground arith
uncount-Balanced r (write_call kbuff) f = ground arith

-- Every step of a process keeps the balance.
pub Move-Balanced : {f : Fifo} {p : Pc} {t : Turn} → Move f p t → Balanced f t.fifo p t.pc
unfolding read_entry write_entry open_undo
Move-Balanced (Move.start_open r) = ground arith
Move-Balanced (Move.start_read alloc n) = ground arith
Move-Balanced (Move.start_write alloc left user) = ground arith
Move-Balanced (Move.lock {c = open_call} m e) = ground arith
Move-Balanced (Move.lock {c = read_call n} m e) = ground arith
Move-Balanced (Move.lock {c = write_call kbuff} m e) = ground arith
Move-Balanced (Move.lock_interrupted {c = open_call}) = ground arith
Move-Balanced (Move.lock_interrupted {c = read_call n}) = ground arith
Move-Balanced (Move.lock_interrupted {c = write_call kbuff}) = ground arith
Move-Balanced (Move.run_entered {r} {c} left e) = run_entered-Balanced left r c _ e
Move-Balanced (Move.take_token q e) = ground arith
Move-Balanced Move.interrupt = ground arith
Move-Balanced (Move.relock m e) = ground arith
Move-Balanced (Move.relock_interrupted {c = open_call}) = ground arith
Move-Balanced (Move.relock_interrupted {c = read_call n}) = ground arith
Move-Balanced (Move.relock_interrupted {c = write_call kbuff}) = ground arith
Move-Balanced (Move.run_resumed {r} {c} left e) = run_resumed-Balanced left r c _ e
Move-Balanced (Move.hit_lock m e) = ground arith
Move-Balanced (Move.uncount {r} {c}) = uncount-Balanced r c _
Move-Balanced (Move.undo_lock m e) = ground arith
Move-Balanced (Move.undo {r}) = ground arith
Move-Balanced Move.start_release = ground arith
Move-Balanced (Move.release_lock m e) = ground arith
Move-Balanced Move.release_interrupted = ground arith
Move-Balanced (Move.release {r}) = fifo_release-Balanced r _

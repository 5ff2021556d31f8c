-- ===== src/Fifo/Pipe.antt =====
-- The bytes in the FIFO: every step of a process acts on the buffer as on a bounded pipe.
use dso_fifo.Prelude.{
  ℕ, ◌≤◌, ◌<◌, ◌≡◌, refl, sym, ap, ◌∙◌, inl, inr, ◌||◌, not, some, List, [], ◌++◌, arith, ◌==◌,
  sign, add32, sub32, length, take, Bool-cases, eq_of_some, take-append-drop, length-append,
}
use mathlib.Core.Path.{subst}
use dso_fifo.Cbuffer.{Cbuffer}
use dso_fifo.Cbuffer.Window.{contents, contents-empty}
use dso_fifo.Fifo.{
  Fifo, buf_len, Role, consumer, producer, Call, open_call, read_call, write_call, Pc, Effect,
  no_effect, gave, took, reset, Turn, cond_wait, cond_interrupted, open_test, fifo_open, open_undo,
  release_reset, fifo_release, read_entry, fifo_read, write_entry, write_test,
}
use dso_fifo.Fifo.Calls.{
  IsPipe, ReadResult, WriteResult, fifo_read_lem, write_test_lem, fifo_write-eq-write_test,
}
use dso_fifo.Fifo.Wake.{wake_prods_lem, wake_conss_lem}
use dso_fifo.Fifo.Moves.{interrupted, enter, resume, Move}

-- What an effect does to the bytes in a pipe of `buf_len` bytes.
abbrev pub PipeStep : List ℕ → Effect → List ℕ → Type 0
PipeStep q no_effect q' = q' ≡ q
PipeStep q (gave xs) q' = (q' ≡ q ++ xs) × (length q' ≤ buf_len)
PipeStep q (took xs) q' = q ≡ xs ++ q'
PipeStep q reset q' = q' ≡ []

-- a step from the buffer `b`
pub record Pumps (b : Cbuffer) (t : Turn) : Type 0 where
  pub pipe : IsPipe t.fifo.cbuffer
  pub pumped : PipeStep (contents b) t.effect (contents t.fifo.cbuffer)

-- a step that leaves the buffer alone
still : {b : Cbuffer} {t : Turn} → IsPipe b → t.fifo.cbuffer ≡ b → t.effect ≡ no_effect → Pumps b t
still {b} {t} v same none_done = record {
  pipe = subst IsPipe (sym same) v;
  pumped = rw (none_done) (ap contents same);
}

fifo_read-Pumps :
    (left : ℕ) (r : Role) (n : ℕ) (f : Fifo) {t : Turn}
    → IsPipe f.cbuffer
    → fifo_read left r n f ≡ some t
    → Pumps f.cbuffer t
unfolding cond_wait
fifo_read-Pumps left r n f {t} v e = elim (fifo_read_lem left r n f v) [
  | ReadResult.at_end alone empty res ↦ out (still v refl refl) (sym res ∙ e)
  | ReadResult.blocks some_prod short res ↦ out (still v refl refl) (sym res ∙ e)
  | ReadResult.reads b' enough v' held res ↦
      out
        (record {
          pipe = v';
          pumped =
              sym (take-append-drop n (contents f.cbuffer))
              ∙ ap (λ q. take n (contents f.cbuffer) ++ q) (sym held);
        })
        (sym res ∙ e)
]
  where
    out : {u : Turn} → Pumps f.cbuffer u → some u ≡ some t → Pumps f.cbuffer t
    out h q = subst (Pumps f.cbuffer) (eq_of_some q) h

write_test-Pumps :
    (r : Role) (kbuff : List ℕ) (f : Fifo) {t : Turn}
    → IsPipe f.cbuffer
    → f.num_cons < sign
    → write_test r kbuff f ≡ some t
    → Pumps f.cbuffer t
unfolding cond_wait
write_test-Pumps r kbuff f {t} v pos e = elim (write_test_lem r kbuff f v pos) [
  | WriteResult.broken alone res ↦ out (still v refl refl) (sym res ∙ e)
  | WriteResult.blocks some_cons full res ↦ out (still v refl refl) (sym res ∙ e)
  | WriteResult.writes b' some_cons room v' held res ↦
      out
        (record {
          pipe = v';
          pumped = (held, omega (arith, ap length held, length-append (contents f.cbuffer) kbuff));
        })
        (sym res ∙ e)
]
  where
    out : {u : Turn} → Pumps f.cbuffer u → some u ≡ some t → Pumps f.cbuffer t
    out h q = subst (Pumps f.cbuffer) (eq_of_some q) h

open_test-Pumps : (r : Role) (f : Fifo) → IsPipe f.cbuffer → Pumps f.cbuffer (open_test r f)
unfolding open_test cond_wait
open_test-Pumps consumer f v = still v (ground arith) (ground arith)
open_test-Pumps producer f v = still v (ground arith) (ground arith)

fifo_open-Pumps : (r : Role) (f : Fifo) → IsPipe f.cbuffer → Pumps f.cbuffer (fifo_open r f)
unfolding fifo_open
fifo_open-Pumps consumer f v =
    rw (wake_prods_lem (record f { num_cons = add32 f.num_cons 1 })) (open_test-Pumps consumer _ v)
fifo_open-Pumps producer f v =
    rw (wake_conss_lem (record f { num_prod = add32 f.num_prod 1 })) (open_test-Pumps producer _ v)

emptied : (b : Cbuffer) → IsPipe b → IsPipe (record b { size = 0 })
emptied b v = record { valid = ground arith; capacity = v.capacity }

release_reset-Pumps : (f : Fifo) → IsPipe f.cbuffer → Pumps f.cbuffer (release_reset f)
unfolding release_reset
release_reset-Pumps f v = elim (Bool-cases (not (f.num_prod == 0) || not (f.num_cons == 0))) [
  | inl in_use ↦ rw in_use (still v refl refl)
  | inr unused ↦ rw unused (record { pipe = emptied f.cbuffer v; pumped = contents-empty _ refl })
]

fifo_release-Pumps : (r : Role) (f : Fifo) → IsPipe f.cbuffer → Pumps f.cbuffer (fifo_release r f)
unfolding fifo_release
fifo_release-Pumps producer f v = release_reset-Pumps _ v
fifo_release-Pumps consumer f v = elim (Bool-cases (sub32 f.num_cons 1 == 0)) [
  | inl last ↦
      rw last
        (rw (wake_prods_lem (record f { num_cons = sub32 f.num_cons 1 })) (release_reset-Pumps _ v))
  | inr others ↦ rw others (release_reset-Pumps _ v)
]

interrupted-Pumps :
    (r : Role) (c : Call) (f : Fifo) → IsPipe f.cbuffer → Pumps f.cbuffer (interrupted r c f)
interrupted-Pumps r open_call f v = still v refl refl
interrupted-Pumps r (read_call n) f v = still v refl refl
interrupted-Pumps r (write_call kbuff) f v = still v refl refl

enter-Pumps :
    (left : ℕ) (r : Role) (c : Call) (f : Fifo) {t : Turn}
    → IsPipe f.cbuffer
    → f.num_cons < sign
    → enter left r c f ≡ some t
    → Pumps f.cbuffer t
unfolding enter
enter-Pumps left r open_call f v pos e =
    subst (Pumps f.cbuffer) (eq_of_some e) (fifo_open-Pumps r f v)
enter-Pumps left r (read_call n) f v pos e = fifo_read-Pumps left r n f v e
enter-Pumps left r (write_call kbuff) f v pos e =
    write_test-Pumps r kbuff f v pos (sym (fifo_write-eq-write_test r kbuff f) ∙ e)

resume-Pumps :
    (left : ℕ) (r : Role) (c : Call) (f : Fifo) {t : Turn}
    → IsPipe f.cbuffer
    → f.num_cons < sign
    → resume left r c f ≡ some t
    → Pumps f.cbuffer t
unfolding resume
resume-Pumps left r open_call f v pos e =
    subst (Pumps f.cbuffer) (eq_of_some e) (open_test-Pumps r f v)
resume-Pumps left r (read_call n) f v pos e = fifo_read-Pumps left r n f v e
resume-Pumps left r (write_call kbuff) f v pos e = write_test-Pumps r kbuff f v pos e

-- Every step of a process, while fewer than 2 ^ 31 consumers are counted.
pub Move-Pumps :
    {f : Fifo} {p : Pc} {t : Turn}
    → IsPipe f.cbuffer
    → f.num_cons < sign
    → Move f p t
    → Pumps f.cbuffer t
unfolding read_entry write_entry cond_interrupted open_undo
Move-Pumps v pos (Move.start_open r) = still v refl refl
Move-Pumps v pos (Move.start_read alloc n) = still v (ground arith) (ground arith)
Move-Pumps v pos (Move.start_write alloc left user) = still v (ground arith) (ground arith)
Move-Pumps v pos (Move.lock m e) = still v refl refl
Move-Pumps v pos Move.lock_interrupted = still v refl refl
Move-Pumps v pos (Move.run_entered {r} {c} left e) = enter-Pumps left r c _ v pos e
Move-Pumps v pos (Move.take_token {r} {c} q e) = still v (ground arith) refl
Move-Pumps v pos Move.interrupt = still v refl refl
Move-Pumps v pos (Move.relock m e) = still v refl refl
Move-Pumps v pos (Move.relock_interrupted {r} {c}) = interrupted-Pumps r c _ v
Move-Pumps v pos (Move.run_resumed {r} {c} left e) = resume-Pumps left r c _ v pos e
Move-Pumps v pos (Move.hit_lock m e) = still v refl refl
Move-Pumps {f} v pos (Move.uncount {r} {c}) = still v (ground arith) (ground arith)
Move-Pumps v pos (Move.undo_lock m e) = still v refl refl
Move-Pumps v pos (Move.undo {r}) = still v (ground arith) refl
Move-Pumps v pos Move.start_release = still v refl refl
Move-Pumps v pos (Move.release_lock m e) = still v refl refl
Move-Pumps v pos Move.release_interrupted = still v refl refl
Move-Pumps v pos (Move.release {r}) = fifo_release-Pumps r _ v

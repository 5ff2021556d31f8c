-- ===== src/Fifo/Races.antt =====
-- Two places where parteB/fifo.c departs from what its header says: a signal that meets a wake-up,
-- and the release of the last producer.
use dso_fifo.Prelude.{
  ℕ, ◌+◌, ◌-◌, ◌≡◌, ◌≢◌, refl, sym, ap, length, ◌∙◌, some, List, [], arith, word, sub32, add32,
  get_elem?, set, get_elem?-set_self, get_elem?-set_ne,
}
use dso_fifo.Cbuffer.{is_empty_cbuffer_t}
use dso_fifo.Cbuffer.Window.{contents, length-contents}
use dso_fifo.Fifo.{
  Fifo, Role, consumer, producer, value, error, epipe, write_test, Call, open_call, read_call,
  write_call, Pc, opened, asleep, hit, entered, Turn, replies, up_mutex, cond_wait,
  cond_interrupted, open_test, fifo_open, fifo_read, release_reset, fifo_release,
}
use dso_fifo.Fifo.Wake.{wake_conss_lem, wake_prods_lem}
use dso_fifo.Fifo.Moves.{enter, interrupted, Move}
use dso_fifo.Fifo.System.{System, Step, pick}

-- any number of steps
pub data Steps (s : System) : System → Type 0 where
  stay : Steps s s
  more : {t : Turn} {u v : System} → Steps s u → Step u t v → Steps s v

open_producer_lem :
    (f : Fifo)
    → let t = fifo_open producer f in
      (t.fifo.mutex ≡ f.mutex + 1)
      × (t.fifo.num_bloq_cons ≡ 0)
      × (t.fifo.cola_cons ≡ f.cola_cons + f.num_bloq_cons)
unfolding fifo_open open_test cond_wait
open_producer_lem f =
    rw (wake_conss_lem (record f { num_prod = add32 f.num_prod 1 })) (ground arith)

interrupted_fifo : (r : Role) (c : Call) (f : Fifo) → (interrupted r c f).fifo ≡ f
interrupted_fifo r open_call f = refl
interrupted_fifo r (read_call n) f = refl
interrupted_fifo r (write_call kbuff) f = refl

-- A signal that reaches a sleeping consumer just before a producer that opens the device wakes the
-- queue: the producer resets the count to 0, the interrupted process still decrements it, and
-- `num_bloq_cons` is left at -1, from any state in which both stand there and the producer has the
-- mutex.
pub interrupt_underflows :
    (s : System) (i j n : ℕ) {r : Role}
    → get_elem? s.pcs i ≡ some (asleep r (read_call n))
    → get_elem? s.pcs j ≡ some (entered producer open_call)
    → i ≢ j
    → s.fifo.mutex ≡ 0
    → (u : System) × Steps s u × (u.fifo.num_bloq_cons ≡ word - 1)
unfolding enter cond_interrupted
interrupt_underflows s i j n {r} hi hj ne free = (
  _,
  more
      (more
        (more (more stay (pick i hi Move.interrupt))
          (pick j (get_elem?-set_ne s.pcs i j _ ne ∙ hj) (Move.run_entered 0 entered_runs)))
        (pick i
          (get_elem?-set_ne (set s.pcs i (hit r (read_call n))) j i _ (λ e. ne (sym e))
            ∙ get_elem?-set_self s.pcs i hi)
          (Move.hit_lock 0 one)))
      (pick i
        (get_elem?-set_self (set (set s.pcs i (hit r (read_call n))) j opened_pc) i (
          get_elem?-set_ne (set s.pcs i (hit r (read_call n))) j i _ (λ e. ne (sym e))
          ∙ get_elem?-set_self s.pcs i hi))
        Move.uncount),
  last,
)
  where
    opened_pc : Pc
    opened_pc = (fifo_open producer s.fifo).pc

    entered_runs : enter 0 producer open_call s.fifo ≡ some (fifo_open producer s.fifo)
    entered_runs = refl

    one : (fifo_open producer s.fifo).fifo.mutex ≡ 1
    one = omega (arith, open_producer_lem s.fifo)

    last :
        (cond_interrupted consumer
          (record ((fifo_open producer s.fifo).fifo) { mutex = 0 })).num_bloq_cons
        ≡ word - 1
    last = omega (arith, open_producer_lem s.fifo)

-- When the last producer closes an empty pipe that still has a consumer, a read that is asleep
-- should end: resumed in the new state, with any request, it returns 0. But the release gives no
-- token to the consumers' queue and leaves its count as it was.
pub last_producer_wakes_no_reader :
    (f : Fifo) (left n : ℕ) (r : Role)
    → f.num_prod ≡ 1
    → f.num_cons ≢ 0
    → contents f.cbuffer ≡ []
    → let g = (fifo_release producer f).fifo in
      (fifo_read left r n g ≡ some (replies (up_mutex g) (opened r) (value 0)))
      × (g.num_bloq_cons ≡ f.num_bloq_cons)
      × (g.cola_cons ≡ f.cola_cons)
unfolding fifo_release release_reset fifo_read is_empty_cbuffer_t
last_producer_wakes_no_reader f left n r last open_ empty =
    ground (arith, length-contents f.cbuffer, ap length empty)

-- When the last consumer closes, every producer counted as waiting gets a token, and a write that
-- goes on from its sleep in the new state returns -EPIPE.
pub last_consumer_breaks_pipe :
    (f : Fifo) (r : Role) (kbuff : List ℕ)
    → f.num_cons ≡ 1
    → let g = (fifo_release consumer f).fifo in
      (write_test r kbuff g ≡ some (replies (up_mutex g) (opened r) (error epipe)))
      × (g.num_bloq_prod ≡ 0)
      × (g.cola_prod ≡ f.cola_prod + f.num_bloq_prod)
unfolding fifo_release release_reset write_test
last_consumer_breaks_pipe f r kbuff last =
    ground (arith, wake_prods_lem (record f { num_cons = sub32 f.num_cons 1 }))

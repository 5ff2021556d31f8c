-- ===== src/Fifo/Wake.antt =====
-- The loops that wake every process counted in a queue.
use dso_fifo.Prelude.{ℕ, zero, suc, ◌+◌, ◌≡◌, ap, ◌∙◌, arith}
use dso_fifo.Fifo.{Fifo, wake, wake_prods, wake_conss}

-- The loop ends, with the count at 0 and one token more for each that was counted.
pub wake_lem : (count cola : ℕ) → wake count cola ≡ (0, cola + count)
unfolding wake
wake_lem zero cola = ap (λ (k : ℕ). (0, k)) (omega arith)
wake_lem (suc count) cola = wake_lem count (cola + 1) ∙ ap (λ (k : ℕ). (0, k)) (omega arith)

pub wake_prods_lem :
    (f : Fifo)
    → wake_prods f ≡ record f { num_bloq_prod = 0; cola_prod = f.cola_prod + f.num_bloq_prod }
unfolding wake_prods
wake_prods_lem f = rw (wake_lem f.num_bloq_prod f.cola_prod)

pub wake_conss_lem :
    (f : Fifo)
    → wake_conss f ≡ record f { num_bloq_cons = 0; cola_cons = f.cola_cons + f.num_bloq_cons }
unfolding wake_conss
wake_conss_lem f = rw (wake_lem f.num_bloq_cons f.cola_cons)

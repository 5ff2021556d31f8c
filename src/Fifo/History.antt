-- ===== src/Fifo/History.antt =====
-- The bytes that went through the FIFO since the module was loaded, in every run of the system.
use dso_fifo.Prelude.{total-le, ℕ, ◌<◌, ◌≡◌, sym, ap, ◌∙◌, List, [], ◌∷◌, ◌++◌, arith, sign}
use mathlib.Core.List.{append_assoc}
use dso_fifo.Cbuffer.Window.{contents}
use dso_fifo.Cbuffer.{Cbuffer}
use dso_fifo.Fifo.{consumer, Effect, no_effect, gave, took, reset}
use dso_fifo.Fifo.System.{System, pick, Reach, start, later}
use dso_fifo.Fifo.Balance.{counted}
use dso_fifo.Fifo.Calls.{IsPipe}
use dso_fifo.Fifo.Pipe.{PipeStep, Move-Pumps}
use dso_fifo.Fifo.Safety.{open_counts_exact, length-pcs, counted-le_one}

-- the effects of a run, the latest first
unfoldable pub log : {b : Cbuffer} {n : ℕ} {s : System} → Reach b n s → List Effect
log start = []
log (later {t = t} r st) = t.effect ∷ log r

-- The effects take an empty pipe of `buf_len` bytes to one that holds `q`.
abbrev pub Replays : List Effect → List ℕ → Type 0
Replays [] q = q ≡ []
Replays (e ∷ es) q = (before : List ℕ) × Replays es before × PipeStep before e q

pub few_consumers :
    {b : Cbuffer} {n : ℕ} {s : System} → n < sign → Reach b n s → s.fifo.num_cons < sign
few_consumers {s = s} few r = omega (
  arith,
  open_counts_exact (omega arith) r,
  length-pcs r,
  total-le (counted consumer) s.pcs (counted-le_one consumer),
)

pub Reach-IsPipe :
    {b : Cbuffer} {n : ℕ} {s : System} → IsPipe b → n < sign → Reach b n s → IsPipe s.fifo.cbuffer
Reach-IsPipe e few start = e
Reach-IsPipe e few (later r (pick i at mv)) =
    (Move-Pumps (Reach-IsPipe e few r) (few_consumers few r) mv).pipe

-- Refinement: with fewer than 2 ^ 31 processes, what the buffer holds after any run is what a
-- bounded pipe holds after the same effects, each of which the pipe allows: bytes are added at the
-- end and only where they fit, and taken from the front.
pub run_refines_pipe :
    {b : Cbuffer} {n : ℕ} {s : System}
    → IsPipe b
    → contents b ≡ []
    → n < sign
    → (r : Reach b n s) → Replays (log r) (contents s.fifo.cbuffer)
unfolding log
run_refines_pipe e empty few start = empty
run_refines_pipe e empty few (later {s} r (pick i at mv)) = (
  contents s.fifo.cbuffer,
  run_refines_pipe e empty few r,
  (Move-Pumps (Reach-IsPipe e few r) (few_consumers few r) mv).pumped,
)

-- All that was written, and all that was read, since the pipe was last emptied by a release.
unfoldable pub given : List Effect → List ℕ
given [] = []
given (no_effect ∷ es) = given es
given (gave xs ∷ es) = given es ++ xs
given (took xs ∷ es) = given es
given (reset ∷ es) = []

unfoldable pub taken : List Effect → List ℕ
taken [] = []
taken (no_effect ∷ es) = taken es
taken (gave xs ∷ es) = taken es
taken (took xs ∷ es) = taken es ++ xs
taken (reset ∷ es) = []

Replays-order : (es : List Effect) (q : List ℕ) → Replays es q → given es ≡ taken es ++ q
unfolding given taken
Replays-order [] q h = sym h
Replays-order (no_effect ∷ es) q (before, h, st) =
    Replays-order es before h ∙ ap (λ k. taken es ++ k) (sym st)
Replays-order (gave xs ∷ es) q (before, h, st) =
    ap (λ k. k ++ xs) (Replays-order es before h)
    ∙ append_assoc (taken es) before xs
    ∙ ap (λ k. taken es ++ k) (sym st.0)
Replays-order (took xs ∷ es) q (before, h, st) =
    Replays-order es before h ∙ ap (λ k. taken es ++ k) st ∙ sym (append_assoc (taken es) xs q)
Replays-order (reset ∷ es) q (before, h, st) = sym st

-- First in, first out: with fewer than 2 ^ 31 processes, all bytes written since the pipe was last
-- emptied are, in order, the bytes read since then followed by the bytes in the buffer.
pub first_in_first_out :
    {b : Cbuffer} {n : ℕ} {s : System}
    → IsPipe b
    → contents b ≡ []
    → n < sign
    → (r : Reach b n s) → given (log r) ≡ taken (log r) ++ contents s.fifo.cbuffer
first_in_first_out e empty few r = Replays-order (log r) _ (run_refines_pipe e empty few r)

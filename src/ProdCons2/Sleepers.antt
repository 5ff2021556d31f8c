-- ===== src/ProdCons2/Sleepers.antt =====
-- In prodcons2.c, in all runs: who sleeps while there is an item or a space.
use dso_fifo.Prelude.{
  ℕ, ◌+◌, ◌-◌, ◌<◌, ◌≤◌, ◌≡◌, ◌⊎◌, inl, inr, refl, Bool, true, false, Bool-cases, ltb, ltb_false→le,
  ltb→lt, List, some, arith, get_elem?, set, total, total-set,
}
use dso_fifo.Allocator.{Allocator}
use dso_fifo.ProdCons2.{Turn, Call, read_call, Pc, idle, woken, error, eintr, replies}
use dso_fifo.ProdCons2.Moves.{Move, System, Step, pick, Run, here, next}
use dso_fifo.ProdCons2.Balance.{is_read, is_write, waiting}
use dso_fifo.ProdCons2.Safety.{
  IsStart, total-start, Inv, Step-Inv, reached-Inv, cons_positive, prod_positive,
}
use dso_fifo.ProdCons2.Wakeups.{
  awake, Served, nothing_left, served, nobody, Move-ReadersServed, Move-WritersServed,
}

-- Everybody in the queue has a token, or there is a token or an awake process for all the items.
abbrev AllServed : (Call → ℕ) → ℕ → ℕ → List Pc → Type 0
AllServed which stuff tokens pcs =
    (total (waiting which) pcs ≤ tokens) ⊎ (stuff ≤ tokens + total (awake which) pcs)

Served-all :
    {stuff stuff' tokens tokens' : ℕ} {p q : Pc} {positive : Bool} (which : Call → ℕ)
    (pcs : List Pc) (i : ℕ)
    → get_elem? pcs i ≡ some p
    → (positive ≡ false → total (waiting which) pcs ≤ tokens)
    → Served stuff stuff' tokens tokens' p q which positive
    → AllServed which stuff tokens pcs
    → AllServed which stuff' tokens' (set pcs i q)
Served-all which pcs i at quiet (nothing_left e) before = inr (omega arith)
Served-all {p = p} {q} which pcs i at quiet (served more fewer) before = elim before [
  | inl all ↦ inl (omega (arith, total-set (waiting which) pcs i p q at))
  | inr some_left ↦ inr (omega (arith, total-set (awake which) pcs i p q at))
]
Served-all {p = p} {q} which pcs i at quiet (nobody none_waits same still) before =
    inl (omega (arith, quiet none_waits, total-set (waiting which) pcs i p q at))

none_needed :
    {positive : Bool} (tokens inside : ℕ)
    → (tokens < inside → positive ≡ true)
    → positive ≡ false
    → inside ≤ tokens
none_needed tokens inside h e = elim (Bool-cases (ltb tokens inside)) [
  | inl less ↦ absurd (clash (h (ltb→lt tokens inside less)) e)
  | inr enough ↦ ltb_false→le tokens inside enough
]
  where
    clash : {b : Bool} → b ≡ true → b ≡ false → ⊥
    clash x y = cc

module _ {a : Allocator} {scan : List ℕ → ℕ × ℕ} where
  record Served-here (s : System a scan true) : Type 0 where
    inv : Inv s
    readers : AllServed is_read s.state.cbuf.size s.state.cons_queue s.pcs
    writers :
        AllServed is_write (s.state.cbuf.max_size - s.state.cbuf.size) s.state.prod_queue s.pcs

  Step-served :
      {s u : System a scan true} {t : Turn a}
      → Step a scan true s t u
      → Served-here s
      → Served-here u
  Step-served {s} (pick i {p} {t} at mv) h = record {
    inv = Step-Inv (pick i at mv) h.inv;
    readers =
        Served-all is_read s.pcs i at
          (none_needed s.state.cons_queue (total (waiting is_read) s.pcs) (cons_positive h.inv).1)
          (Move-ReadersServed a h.inv.queue mv) h.readers;
    writers =
        Served-all is_write s.pcs i at
          (none_needed s.state.prod_queue (total (waiting is_write) s.pcs) (prod_positive h.inv).1)
          (Move-WritersServed a h.inv.queue mv) h.writers;
  }

  Run-served :
      {first s : System a scan true} → IsStart first → Run a scan true first s → Served-here s
  Run-served {s = s} f here = record {
    inv = reached-Inv f here;
    readers = inl (omega (arith, total-start (waiting is_read) f refl));
    writers = inl (omega (arith, total-start (waiting is_write) f refl));
  }
  Run-served f (next r st) = Step-served st (Run-served f r)

  -- With fewer than 2 ^ 31 processes, in every state reached from the module just loaded, as long
  -- as no signal comes between a wake-up and the turn with `mtx`: where a reader waits without a
  -- token for it, the items in the buffer are no more than the tokens and the readers that are
  -- awake, so no reader sleeps while an item is left over. In the same way no writer sleeps while
  -- a space is left over.
  pub sleepers_are_served :
      {first s : System a scan true}
      → IsStart first
      → Run a scan true first s
      → ((total (waiting is_read) s.pcs ≤ s.state.cons_queue)
          ⊎ (s.state.cbuf.size ≤ s.state.cons_queue + total (awake is_read) s.pcs))
        × ((total (waiting is_write) s.pcs ≤ s.state.prod_queue)
            ⊎ (s.state.cbuf.max_size - s.state.cbuf.size
                ≤ s.state.prod_queue + total (awake is_write) s.pcs))
  sleepers_are_served f r = ((Run-served f r).readers, (Run-served f r).writers)

-- With signals, a reader that is interrupted between its wake-up and its turn with `mtx` takes the
-- token with it. Where it was the only one awake for the items in the buffer, another reader then
-- sleeps with no token and nobody awake, while the buffer has an item.
pub interrupted_relock_strands_item :
    {a : Allocator} {scan : List ℕ → ℕ × ℕ} {s : System a scan false}
    → (i : ℕ) → get_elem? s.pcs i ≡ some (woken read_call)
    → total (awake is_read) s.pcs ≡ 1
    → s.state.cons_queue ≡ 0
    → 0 < total (waiting is_read) s.pcs
    → 0 < s.state.cbuf.size
    → (t : Turn a) × (u : System a scan false) × Step a scan false s t u
      × (u.state.cons_queue < total (waiting is_read) u.pcs)
      × (u.state.cons_queue + total (awake is_read) u.pcs < u.state.cbuf.size)
interrupted_relock_strands_item {a} {scan} {s} i at one no_token sleeping item = (
  replies a s.state (error eintr),
  record { state = s.state; pcs = set s.pcs i idle },
  pick i at (Move.relock_interrupted refl),
  omega (arith, total-set (waiting is_read) s.pcs i (woken read_call) idle at),
  omega (arith, total-set (awake is_read) s.pcs i (woken read_call) idle at),
)

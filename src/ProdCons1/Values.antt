-- ===== src/ProdCons1/Values.antt =====
-- The integers that went through the buffer of prodcons1.c in a run.
use mathlib.Core.Path.{subst}
use mathlib.Core.List.{map, map-append, append_assoc, append-nil}
use dso_fifo.Prelude.{
  ℕ, ◌≤◌, ◌≡◌, inl, inr, refl, sym, ap, ◌∙◌, List, [], ◌∷◌, ◌++◌, some, arith, get_elem?,
}
use dso_fifo.Allocator.{Allocator, IsClean, count}
use dso_fifo.ItemBuffer.Single.{queued}
use dso_fifo.ProdCons1.{Turn, Pc, Effect, no_effect, gave, took}
use dso_fifo.ProdCons1.Moves.{Move, System, pick, Run, here, next}
use dso_fifo.ProdCons1.Balance.{Queues, Move-Balanced}
use dso_fifo.ProdCons1.Safety.{IsStart, Inv-Ready}
use dso_fifo.ProdCons1.Effects.{Move-cell}
use dso_fifo.ProdCons1.Ownership.{Owns, Step-Kept, Run-Owns, Owns-start}

-- the integer that a step puts into the buffer, and the one that it takes out
abbrev pub put : Effect → (ℕ → ℕ) → List ℕ
put (gave p) cell = cell p ∷ []
put _ cell = []

abbrev pub got : Effect → (ℕ → ℕ) → List ℕ
got (took p) cell = cell p ∷ []
got _ cell = []

map-same :
    (f g : ℕ → ℕ) (xs : List ℕ) → ((x : ℕ) → 1 ≤ count x xs → f x ≡ g x) → map f xs ≡ map g xs
map-same f g [] h = refl
map-same f g (x ∷ xs) h =
    rw (h x (ground arith)) (ap (λ l. g x ∷ l) (map-same f g xs (λ y m. h y (omega arith))))

Queues-values :
    (q : List ℕ) (e : Effect) (q' : List ℕ) (cell : ℕ → ℕ)
    → Queues q e q'
    → map cell q ++ put e cell ≡ got e cell ++ map cell q'
Queues-values q no_effect q' cell h = append-nil (map cell q) ∙ sym (ap (map cell) h)
Queues-values q (gave p) q' cell h = sym (ap (map cell) h ∙ map-append cell q (p ∷ []))
Queues-values q (took p) q' cell h = append-nil (map cell q) ∙ ap (map cell) h

module _ {a : Allocator} {scan : List ℕ → ℕ × ℕ} where
  -- the integers put into the buffer in a run, in order, and those taken out
  unfoldable pub all_put : {s u : System a scan} → Run a scan s u → List ℕ
  all_put here = []
  all_put (next {u} {t = t} r st) = all_put r ++ put t.effect u.state.cell

  unfoldable pub all_got : {s u : System a scan} → Run a scan s u → List ℕ
  all_got here = []
  all_got (next {u} {t = t} r st) = all_got r ++ got t.effect u.state.cell

  same_values :
      {s : System a scan} {t : Turn a} (i : ℕ) (p : Pc)
      → Owns s
      → get_elem? s.pcs i ≡ some p
      → Move a scan s.state p t
      → Queues (queued s.state.cbuf) t.effect (queued t.next.cbuf)
      → map t.next.cell (queued t.next.cbuf) ≡ map s.state.cell (queued t.next.cbuf)
  same_values {s} {t} i p o at mv moved = elim (Move-cell mv) [
    | inr same ↦ ap (λ c. map c (queued t.next.cbuf)) same
    | inl quiet ↦
        let kept = subst (λ e. Queues (queued s.state.cbuf) e (queued t.next.cbuf)) quiet moved in
        map-same t.next.cell s.state.cell (queued t.next.cbuf)
          (λ x m. (Step-Kept x i p o at mv).stable (omega (arith, o.used x, ap (count x) kept)))
  ]

  -- First in, first out, for the integers themselves: in every run from the module just loaded, on
  -- a heap that has no block twice and none at NULL, all integers put into the buffer are, in
  -- order, those taken out, followed by those that the items in the buffer still have.
  pub integers_in_order :
      {first s : System a scan}
      → IsStart first
      → IsClean a first.state.heap
      → (r : Run a scan first s) → all_put r ≡ all_got r ++ map s.state.cell (queued s.state.cbuf)
  unfolding all_put all_got
  integers_in_order f c here = sym (ap (map _) f.loaded.empty)
  integers_in_order {s = s} f c (next {u} {t = t} r (pick i {p} at mv)) =
      let o = Run-Owns r (Owns-start f c) in
      let moved = (Move-Balanced a o.inv.queue (Inv-Ready i p o.inv at) mv).moved in
      let cell = u.state.cell in
      ap (λ l. l ++ put t.effect cell) (integers_in_order f c r)
      ∙ append_assoc (all_got r) (map cell (queued u.state.cbuf)) (put t.effect cell)
      ∙ ap (λ l. all_got r ++ l)
          (Queues-values (queued u.state.cbuf) t.effect (queued t.next.cbuf) cell moved)
      ∙ sym (append_assoc (all_got r) (got t.effect cell) (map cell (queued t.next.cbuf)))
      ∙ ap (λ l. (all_got r ++ got t.effect cell) ++ l) (sym (same_values i p o at mv moved))

-- ===== src/ProdCons1/Effects.antt =====
-- Which steps of prodcons1.c touch the buffer, and which write an integer.
use dso_fifo.Prelude.{
  ℕ, ◌≡◌, ◌⊎◌, inl, inr, refl, sym, ap, Bool, List, [], ◌∷◌, ◌++◌, length, Option-cases, some,
  arith, eq_of_some,
}
use dso_fifo.Allocator.{Allocator}
use dso_fifo.ProdCons1.{
  ProdCons, Turn, Pc, new_item, write_entry, write_undone, write_backed_out, write_end, read_entry,
  read_backed_out, read_counted, read_end, sizeof_int, no_effect,
}
use dso_fifo.ProdCons1.Moves.{Move}
use dso_fifo.ProdCons1.Memory.{not_some, write_item-parts, read_item-parts}

module _ {a : Allocator} where
  open a use {vmalloc}

  new_item-effect :
      (n v : ℕ) (s : ProdCons a) {t : Turn a} → new_item a n v s ≡ some t → t.effect ≡ no_effect
  unfolding new_item
  new_item-effect n v s e = elim (Option-cases ((vmalloc s.heap sizeof_int).0)) [
    | inl failed ↦ absurd (not_some (rw (failed, new_item) at e))
    | inr (p, got) ↦ sym (ap (λ t. t.effect) (eq_of_some (rw (got, new_item) at e)))
  ]

  write_entry-effect :
      (scan : List ℕ → ℕ × ℕ) (copied : Bool) (user : List ℕ) (s : ProdCons a) {t : Turn a}
      → write_entry a scan copied user s ≡ some t
      → t.effect ≡ no_effect
  unfolding write_entry
  write_entry-effect scan copied user s {t} e =
      ground (arith, new_item-effect (length user) (scan (user ++ 0 ∷ [])).1 s {t = t})

  -- A step that touches the buffer writes no integer.
  pub Move-cell :
      {scan : List ℕ → ℕ × ℕ} {s : ProdCons a} {p : Pc} {t : Turn a}
      → Move a scan s p t
      → (t.effect ≡ no_effect) ⊎ (t.next.cell ≡ s.cell)
  unfolding write_undone write_backed_out write_end read_entry read_backed_out read_counted read_end
  Move-cell {scan} {s} (Move.start_write copied user e) =
      inl (write_entry-effect scan copied user s e)
  Move-cell (Move.take_hueco m e) = inl refl
  Move-cell Move.hueco_interrupted = inl refl
  Move-cell (Move.lock_write m e) = inl refl
  Move-cell Move.lock_write_interrupted = inl refl
  Move-cell {s = s} (Move.insert {n} {p} e) = inr ((write_item-parts n p s e).3)
  Move-cell Move.count_element = inl refl
  Move-cell (Move.start_read offset) = inl (ground arith)
  Move-cell (Move.take_element m e) = inl refl
  Move-cell Move.element_interrupted = inl refl
  Move-cell (Move.lock_read m e) = inl refl
  Move-cell Move.lock_read_interrupted = inl refl
  Move-cell {s = s} (Move.remove_item e) = inr ((read_item-parts s e).4)
  Move-cell Move.count_hueco = inl refl
  Move-cell (Move.print e) = inl (ground arith)

-- ===== src/Modlist/Sections/Apart.antt =====
-- parteA/modlist.c and opcional1/modlist.c: who is behind the lock at a time.
use dso_fifo.Prelude.{
  ℕ, ◌+◌, ◌≡◌, ◌≢◌, ◌⊎◌, inl, inr, List, some, arith, get_elem?, set, total, total-set, le-total,
  le-total_two,
}
use dso_fifo.Allocator.{Allocator}
use dso_fifo.KernelList.{KernelList}
use dso_fifo.Modlist.{Modlist}
use dso_fifo.Modlist.Sections.{SectionLock, Pc, Move, reads, writes}

-- `r` processes read, and `w` write: nobody reads beside a writer, and there is at most one writer.
abbrev pub AreApart : ℕ → ℕ → Type 0
AreApart r w = (w ≡ 0) ⊎ (w ≡ 1) × (r ≡ 0)

module _ {lock : SectionLock} {print : ℕ → ℕ → ℕ} {a : Allocator} {l : KernelList} where
  -- beside a writer all others are outside the lock
  pub others_outside :
      (pcs : List (Pc lock print a l)) (i j : ℕ) (p q : Pc lock print a l)
      → AreApart (total (reads lock print a l) pcs) (total (writes lock print a l) pcs)
      → writes lock print a l p ≡ 1
      → get_elem? pcs i ≡ some p
      → get_elem? pcs j ≡ some q
      → i ≢ j
      → (reads lock print a l q ≡ 0) × (writes lock print a l q ≡ 0)
  others_outside pcs i j p q h w ei ej ne =
      let two = le-total_two (writes lock print a l) pcs i j p q ei ej ne in
      let one = le-total (reads lock print a l) pcs j q ej in
      elim h [
        | inl none_writes ↦ absurd (omega (arith, two, w, none_writes))
        | inr (one_writes, none_reads) ↦
            (omega (arith, one, none_reads), omega (arith, two, w, one_writes))
      ]

  -- A step keeps the processes apart, by what it adds and takes away.
  turn-AreApart :
      {r w : ℕ} {s m : Modlist a l} {p q : Pc lock print a l} (r' w' : ℕ)
      → r' + reads lock print a l p ≡ r + reads lock print a l q
      → w' + writes lock print a l p ≡ w + writes lock print a l q
      → Move lock print a l r w s p m q
      → AreApart r w
      → AreApart r' w'
  turn-AreApart {r} {w} r' w' hr hw (Move.make n p e) h = ground (arith, h, hr, hw)
  turn-AreApart {r} {w} r' w' hr hw (Move.enter_add p e) h =
      ground (arith, h, hr, hw, lock.alone r w e)
  turn-AreApart {r} {w} r' w' hr hw (Move.add p) h = ground (arith, h, hr, hw)
  turn-AreApart {r} {w} r' w' hr hw (Move.enter_moving target e) h =
      ground (arith, h, hr, hw, lock.alone r w e)
  turn-AreApart {r} {w} r' w' hr hw (Move.move target p bin) h = ground (arith, h, hr, hw)
  turn-AreApart {r} {w} r' w' hr hw (Move.leave_moving target bin) h = ground (arith, h, hr, hw)
  turn-AreApart {r} {w} r' w' hr hw (Move.free bin p ps e) h = ground (arith, h, hr, hw)
  turn-AreApart {r} {w} r' w' hr hw (Move.done bin e) h = ground (arith, h, hr, hw)
  turn-AreApart {r} {w} r' w' hr hw (Move.enter_reading b e) h =
      ground (arith, h, hr, hw, lock.no_writer r w e)
  turn-AreApart {r} {w} r' w' hr hw (Move.read b used p e) h = ground (arith, h, hr, hw)
  turn-AreApart {r} {w} r' w' hr hw (Move.leave_full b used p e) h = ground (arith, h, hr, hw)
  turn-AreApart {r} {w} r' w' hr hw (Move.leave_reading b used) h = ground (arith, h, hr, hw)
  turn-AreApart {r} {w} r' w' hr hw (Move.answer b used) h = ground (arith, h, hr, hw)

  pub Move-AreApart :
      {s m : Modlist a l} {p q : Pc lock print a l} (pcs : List (Pc lock print a l)) (i : ℕ)
      → get_elem? pcs i ≡ some p
      → AreApart (total (reads lock print a l) pcs) (total (writes lock print a l) pcs)
      → Move lock print a l
          (total (reads lock print a l) pcs)
          (total (writes lock print a l) pcs)
          s
          p
          m
          q
      → AreApart
          (total (reads lock print a l) (set pcs i q))
          (total (writes lock print a l) (set pcs i q))
  Move-AreApart {p = p} {q} pcs i at h mv =
      turn-AreApart _ _ (total-set (reads lock print a l) pcs i p q at)
        (total-set (writes lock print a l) pcs i p q at) mv h

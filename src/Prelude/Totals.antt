-- ===== src/Prelude/Totals.antt =====
-- Sums over a list of processes, and how one step of one process changes them.
use Prim.Native.Nat.{ℕ, zero, suc, ◌+◌, ◌≤◌}
use mathlib.Core.Path.{◌≡◌, refl, ap}
use mathlib.Core.Logic.{◌≢◌, inl, inr}
use mathlib.Core.List.{List, [], ◌∷◌}
use mathlib.Core.Option.{some}
use native.Mathlib.Omega.{arith}
use dso_fifo.Prelude.Tests.{Bool-cases, ==_iff, ◌==◌}
use dso_fifo.Prelude.Lists.{get_elem?, set, replicate, length}

module _ {A : Type 0} where
  -- what the processes of a list weigh together: how many they are where `w` counts 1
  unfoldable pub total : (A → ℕ) → List A → ℕ
  total w [] = 0
  total w (p ∷ ps) = w p + total w ps

  -- When one process goes from `p` to `q`, the total changes by what the two weigh.
  pub total-set :
      (w : A → ℕ) (ps : List A) (i : ℕ) (p q : A)
      → get_elem? ps i ≡ some p
      → total w (set ps i q) + w p ≡ total w ps + w q
  unfolding total
  total-set w [] i p q h = cc
  total-set w (x ∷ ps) zero p q h = ground arith
  total-set w (x ∷ ps) (suc i) p q h = omega (arith, total-set w ps i p q h)

  pub total-replicate : (w : A → ℕ) (p : A) (n : ℕ) → w p ≡ 0 → total w (replicate n p) ≡ 0
  unfolding total
  total-replicate w p zero h = refl
  total-replicate w p (suc n) h = omega (arith, total-replicate w p n h)

  -- One process weighs no more than all.
  pub le-total :
      (w : A → ℕ) (ps : List A) (i : ℕ) (p : A) → get_elem? ps i ≡ some p → w p ≤ total w ps
  unfolding total
  le-total w [] i p h = cc
  le-total w (x ∷ ps) zero p h = ground arith
  le-total w (x ∷ ps) (suc i) p h = omega (arith, le-total w ps i p h)

  -- So do two different ones.
  pub le-total_two :
      (w : A → ℕ) (ps : List A) (i j : ℕ) (p q : A)
      → get_elem? ps i ≡ some p
      → get_elem? ps j ≡ some q
      → i ≢ j
      → w p + w q ≤ total w ps
  unfolding total
  le-total_two w [] i j p q hi hj ne = cc
  le-total_two w (x ∷ ps) zero zero p q hi hj ne = absurd (ne refl)
  le-total_two w (x ∷ ps) zero (suc j) p q hi hj ne = ground (arith, le-total w ps j q)
  le-total_two w (x ∷ ps) (suc i) zero p q hi hj ne = ground (arith, le-total w ps i p)
  le-total_two w (x ∷ ps) (suc i) (suc j) p q hi hj ne =
      omega (arith, le-total_two w ps i j p q hi hj (λ e. ne (ap suc e)))

  -- Nor more than one each.
  pub total-le : (w : A → ℕ) (ps : List A) → ((p : A) → w p ≤ 1) → total w ps ≤ length ps
  unfolding total
  total-le w [] h = omega arith
  total-le w (p ∷ ps) h = omega (arith, h p, total-le w ps h)

  -- What only the processes that `w` counts weigh: nothing where there are none.
  pub total-none :
      (w f : A → ℕ) (ps : List A) → ((p : A) → w p ≡ 0 → f p ≡ 0) → total w ps ≡ 0 → total f ps ≡ 0
  unfolding total
  total-none w f [] only h = refl
  total-none w f (p ∷ ps) only h =
      omega (arith, only p (omega (arith, h)), total-none w f ps only (omega (arith, h)))

  -- And what the one weighs where there is one.
  pub total-single :
      (w f : A → ℕ) (ps : List A)
      → ((p : A) → w p ≡ 0 → f p ≡ 0)
      → total w ps ≡ 1
      → (i : ℕ) × (p : A) × (get_elem? ps i ≡ some p) × (w p ≡ 1) × (total f ps ≡ f p)
  unfolding total
  total-single w f [] only h = absurd (omega (arith, h))
  total-single w f (p ∷ ps) only h = elim (Bool-cases (w p == 0)) [
    | inl e ↦
        let z = (==_iff (w p) 0).0 e in
        let (i, q, at, one, all) = total-single w f ps only (omega (arith, h, z)) in
        (suc i, q, at, one, omega (arith, all, only p z))
    | inr e ↦
        let one : w p ≡ 1 = ground (arith, h, e) in
        (0, p, refl, one, omega (arith, total-none w f ps only (omega (arith, h, one))))
  ]

-- ===== src/Modlist/Proc.antt =====
-- The read of /proc/modlist: how many bytes it reports.
use dso_fifo.Prelude.{
  ℕ, ◌+◌, ◌^◌, ◌≡◌, ◌≤◌, ◌<◌, ◌⊎◌, ◌∙◌, refl, inl, inr, false, List, [], ◌∷◌, ◌==◌, if◌then◌else◌,
  arith, add32, sub32, Bool-cases, ==_iff, sign, ltb, ltb→lt, ltb_false→le,
}
use dso_fifo.Allocator.{Allocator}
use dso_fifo.KernelList.{KernelList}
use dso_fifo.Modlist.{read_loop, Modlist, values, procfile_read}

-- What `snprintf` with "%d\n" returns: the length of the whole line, whatever the room is, and 0
-- where the room is negative as an `int`.
pub record Prints (print : ℕ → ℕ → ℕ) : Type 0 where
  pub whole : (room v : ℕ) → room < sign → print room v ≡ print 0 v
  pub rejects : (room v : ℕ) → sign ≤ room → print room v ≡ 0
  pub at_least : (v : ℕ) → 2 ≤ print 0 v
  pub at_most : (v : ℕ) → print 0 v ≤ 12

-- the bytes of all the lines
pub printed : (ℕ → ℕ → ℕ) → List ℕ → ℕ
printed print [] = 0
printed print (v ∷ vs) = print 0 v + printed print vs

module _ (print : ℕ → ℕ → ℕ) (p : Prints print) (buffer_len : ℕ) (w : buffer_len < 2 ^ 30) where
  room_left :
      (used : ℕ) → used ≤ buffer_len → (sub32 buffer_len used == 0) ≡ false → used < buffer_len
  room_left used h e = ground arith

  read_loop-past :
      (used : ℕ) (vs : List ℕ)
      → buffer_len < used
      → used < buffer_len + 12
      → read_loop print buffer_len used vs ≡ used
  unfolding read_loop
  read_loop-past used [] lo hi = refl
  read_loop-past used (v ∷ vs) lo hi =
      rw (p.rejects (sub32 buffer_len used) v (omega arith), same)
        (ground (arith, read_loop-past used vs lo hi))
    where
      same : add32 used 0 ≡ used
      same = omega arith

  Reported : ℕ → List ℕ → ℕ → Type 0
  Reported used vs n =
      (used + printed print vs ≤ buffer_len) × (n ≡ used + printed print vs)
      ⊎ (buffer_len < used + printed print vs) × (buffer_len ≤ n) × (n < buffer_len + 12)

  read_loop_lem :
      (used : ℕ) (vs : List ℕ)
      → used ≤ buffer_len
      → Reported used vs (read_loop print buffer_len used vs)
  unfolding read_loop Reported printed
  read_loop_lem used [] h = inl (omega arith, omega arith)
  read_loop_lem used (v ∷ vs) h = elim (Bool-cases (sub32 buffer_len used == 0)) [
    | inl full ↦
        let same = (==_iff (sub32 buffer_len used) 0).0 full in
        rw (full, if◌then◌else◌)
          (inr (omega (arith, p.at_least v, same), omega (arith, same), omega (arith, same)))
    | inr room ↦
        rw (room, p.whole (sub32 buffer_len used) v (omega arith), fits)
          (elim (Bool-cases (ltb buffer_len (used + print 0 v))) [
            | inl over ↦
                rw
                  (read_loop-past (used + print 0 v) vs (ltb→lt _ _ over)
                    (omega (arith, p.at_most v, room_left used h room)))
                  (inr (
                    omega (arith, ltb→lt _ _ over),
                    omega (arith, ltb→lt _ _ over),
                    omega (arith, p.at_most v, room_left used h room),
                  ))
            | inr under ↦ elim (read_loop_lem (used + print 0 v) vs (ltb_false→le _ _ under)) [
              | inl (le, e) ↦ inl (omega arith, omega arith)
              | inr (lt, lo, hi) ↦ inr (omega arith, lo, hi)
            ]
          ])
  ]
    where
      fits : add32 used (print 0 v) ≡ used + print 0 v
      fits = omega (arith, p.at_most v)

-- A read with fewer than 2 ^ 30 bytes of room reports the bytes of all the lines where they fit.
-- Where they do not fit, it reports at least the room, and fewer than 12 bytes more.
pub procfile_read_lem :
    (a : Allocator) (l : KernelList) (print : ℕ → ℕ → ℕ) (buffer_len : ℕ) (s : Modlist a l)
    → Prints print
    → buffer_len < 2 ^ 30
    → (printed print (values a l s) ≤ buffer_len)
        × (procfile_read a l print buffer_len s ≡ printed print (values a l s))
      ⊎ (buffer_len < printed print (values a l s))
        × (buffer_len ≤ procfile_read a l print buffer_len s)
        × (procfile_read a l print buffer_len s < buffer_len + 12)
unfolding procfile_read Reported
procfile_read_lem a l print buffer_len s p w =
    elim (read_loop_lem print p buffer_len w 0 (values a l s) (omega arith)) [
      | inl (le, e) ↦ inl (omega arith, e ∙ omega arith)
      | inr (lt, lo, hi) ↦ inr (omega arith, lo, hi)
    ]

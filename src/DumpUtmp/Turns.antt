-- ===== src/DumpUtmp/Turns.antt =====
-- What a turn of the loops of dump_utmp.c does.
use dso_fifo.Prelude.{
  ℕ, ◌<◌, ◌≡◌, inl, inr, refl, sym, ap, true, false, Option-cases, none, some, eq_of_some, List, [],
  ◌∷◌, ◌++◌, length, take, drop, arith, lt_int, word, if◌then◌else◌, ◌==◌, ==_iff, ==_false, ltb→lt,
  Bool-cases, ◌>>=◌,
}
use dso_fifo.DumpUtmp.{Library, prints, exits, send_turn, receive_turn, entry_line, entry_lines}

pub take-front : (q r : List ℕ) → take (length q) (q ++ r) ≡ q
take-front [] r = refl
take-front (x ∷ q) r = ap (λ l. x ∷ l) (take-front q r)

pub drop-front : (q r : List ℕ) → drop (length q) (q ++ r) ≡ r
drop-front [] r = refl
drop-front (x ∷ q) r = drop-front q r

pub not_some {ℓ} : {A : Type ℓ} {x : A} → none ≡ some x → ⊥
not_some h = cc

module _ (lib : Library) where
  open lib use {size}

  pub entry_lines-cons :
      (e : List ℕ) (es : List (List ℕ)) (text : List ℕ)
      → entry_lines lib (e ∷ es) ≡ some text
      → (l rest : List ℕ) × (entry_line lib e ≡ some l)
        × (entry_lines lib es ≡ some rest)
        × (text ≡ l ++ rest)
  unfolding entry_lines
  entry_lines-cons e es text h = elim (Option-cases (entry_line lib e)) [
    | inl none_e ↦ absurd (not_some (rw (none_e, entry_lines) at h))
    | inr (l, got) ↦ elim (Option-cases (entry_lines lib es)) [
      | inl none_es ↦ absurd (not_some (rw (got, none_es, entry_lines) at h))
      | inr (rest, more) ↦ (l, rest, got, more, sym (eq_of_some (rw (got, more, entry_lines) at h)))
    ]
  ]

  pub send-whole : send_turn lib size ≡ none
  unfolding send_turn
  send-whole = ground (arith, lib.size_fits)

  pub send-fails : (bytes : ℕ) → lt_int bytes 0 ≡ true → send_turn lib bytes ≡ some 1
  unfolding send_turn
  send-fails bytes h = ground (arith, h)

  pub receive-whole :
      (bytes : ℕ) (e l : List ℕ)
      → bytes ≡ size
      → entry_line lib e ≡ some l
      → receive_turn lib bytes e ≡ some (prints l)
  unfolding receive_turn
  receive-whole bytes e l same h = rw ((==_iff bytes size).1 same, h, if◌then◌else◌, ◌>>=◌) refl

  pub receive-end : receive_turn lib 0 [] ≡ some (exits 0)
  unfolding receive_turn
  receive-end = rw (==_false 0 size (λ z. omega (arith, lib.size_fits)), if◌then◌else◌) refl

  pub receive-fails :
      (bytes : ℕ)
      → lt_int bytes 0 ≡ true
      → bytes < word
      → receive_turn lib bytes [] ≡ some (exits 1)
  unfolding receive_turn
  receive-fails bytes h w =
      let other : (bytes == size) ≡ false =
        ==_false bytes size (λ z. omega (arith, lib.size_fits, ltb→lt _ _ h)) in
      rw (other, h, if◌then◌else◌)
        (elim (Bool-cases (lt_int 0 bytes)) [ inl e ↦ rw e refl | inr e ↦ rw e refl ])

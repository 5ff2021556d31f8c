-- ===== src/Kifs/Clipboard.antt =====
-- The clipboard of kifs: what is written is what is read.
use dso_fifo.Prelude.{
  IsText, ℕ, suc, ◌≡◌, ◌<◌, ap, refl, Option, none, some, List, [], ◌∷◌, ◌++◌, if◌then◌else◌, leb,
  length, inl, inr, zero, ◌-◌, ◌≤◌, set, sym, ◌∙◌, replicate, take, drop, arith, length-append,
  length-drop, length-take, length-set, length-replicate, ltb, ltb→lt, Bool-cases, eq_of_some,
  lt→ltb, ==_false,
}
use dso_fifo.Kifs.{clip_size, strlen, copy_in, clipboard_kifs_read, clipboard_kifs_write}

strlen-text : (s rest : List ℕ) → IsText s → strlen (s ++ 0 ∷ rest) ≡ length s
unfolding strlen
strlen-text [] rest t = refl
strlen-text (c ∷ s) rest t = rw (==_false c 0 t.0, if◌then◌else◌) (ap suc (strlen-text s rest t.1))

take-text : (s rest : List ℕ) → take (length s) (s ++ rest) ≡ s
take-text [] rest = refl
take-text (c ∷ s) rest = ap (λ l. c ∷ l) (take-text s rest)

set-append :
    (xs : List ℕ) (y : ℕ) (ys : List ℕ) (v : ℕ) → set (xs ++ y ∷ ys) (length xs) v ≡ xs ++ v ∷ ys
set-append [] y ys v = refl
set-append (x ∷ xs) y ys v = ap (λ l. x ∷ l) (set-append xs y ys v)

IsText-take : (n : ℕ) (s : List ℕ) → IsText s → IsText (take n s)
IsText-take zero s t = tt
IsText-take (suc n) [] t = tt
IsText-take (suc n) (c ∷ s) t = (t.0, IsText-take n s t.1)

take-append_front : (n : ℕ) (s rest : List ℕ) → n ≤ length s → take n (s ++ rest) ≡ take n s
take-append_front zero s rest h = refl
take-append_front (suc n) [] rest h = absurd (omega arith)
take-append_front (suc n) (c ∷ s) rest h =
    ap (λ l. c ∷ l) (take-append_front n s rest (omega arith))

take-take : (m n : ℕ) (s : List ℕ) → m ≤ n → take m (take n s) ≡ take m s
take-take zero n s h = refl
take-take (suc m) zero s h = absurd (omega arith)
take-take (suc m) (suc n) [] h = refl
take-take (suc m) (suc n) (c ∷ s) h = ap (λ l. c ∷ l) (take-take m n s (omega arith))

-- a list that is longer than an index, from there on
drop-cons : (n : ℕ) (s : List ℕ) → n < length s → (y : ℕ) × (ys : List ℕ) × (drop n s ≡ y ∷ ys)
drop-cons zero [] h = absurd (omega arith)
drop-cons zero (y ∷ ys) h = (y, ys, refl)
drop-cons (suc n) [] h = absurd (omega arith)
drop-cons (suc n) (x ∷ s) h = drop-cons n s (omega arith)

padded-cons :
    (n y : ℕ) (ys d : List ℕ) → d ≡ y ∷ ys → (z : ℕ) × (zs : List ℕ) × (replicate n 0 ++ d ≡ z ∷ zs)
padded-cons zero y ys d e = (y, ys, e)
padded-cons (suc n) y ys d e = (0, replicate n 0 ++ d, refl)

-- `used` bytes of the user are in front, and there is room for a NUL behind them.
copy_in-cons :
    (user to : List ℕ) (missed : ℕ)
    → length user < length to
    → (y : ℕ) × (ys : List ℕ) × (copy_in user missed to
        ≡ take (length user - missed) user ++ y ∷ ys)
unfolding copy_in
copy_in-cons user to missed h =
    let (y, ys, e) = drop-cons (length user) to h in
    let (z, zs, e') =
      padded-cons (length user - (length user - missed)) y ys (drop (length user) to) e in
    (z, zs, ap (λ l. take (length user - missed) user ++ l) e')

pub clipboard_written :
    (user clipboard : List ℕ) (missed : ℕ)
    → length user < clip_size
    → length clipboard ≡ clip_size
    → (rest : List ℕ) × (clipboard_kifs_write user missed clipboard
        ≡ some (length user - missed, take (length user - missed) user ++ 0 ∷ rest))
unfolding clipboard_kifs_write
clipboard_written user clipboard missed short size =
    let used = length user - missed in
    let (y, ys, e) = copy_in-cons user clipboard missed (omega (arith, short, size)) in
    let place : length (take used user) ≡ used = omega (arith, length-take used user) in
    (
      ys,
      rw (lt→ltb (length user) clip_size short, if◌then◌else◌)
          (ap (λ c. some (used, c))
            (ap (λ l. set l used 0) e
              ∙ ap (λ n. set (take used user ++ y ∷ ys) n 0) (sym place)
              ∙ set-append (take used user) y ys 0)),
    )

length-copy_in :
    (user to : List ℕ) (missed : ℕ)
    → length user ≤ length to
    → length (copy_in user missed to) ≡ length to
unfolding copy_in
length-copy_in user to missed h = omega (
  arith,
  length-append (take (length user - missed) user)
      (replicate (length user - (length user - missed)) 0 ++ drop (length user) to),
  length-append (replicate (length user - (length user - missed)) 0) (drop (length user) to),
  length-replicate {A = ℕ} (length user - (length user - missed)) 0,
  length-take (length user - missed) user,
  length-drop (length user) to,
)

-- The clipboard keeps its size, whatever is written.
pub length-clipboard :
    (user clipboard clipboard' : List ℕ) (missed result : ℕ)
    → length clipboard ≡ clip_size
    → clipboard_kifs_write user missed clipboard ≡ some (result, clipboard')
    → length clipboard' ≡ clip_size
unfolding clipboard_kifs_write
length-clipboard user clipboard clipboard' missed result size e =
    elim (Bool-cases (ltb (length user) clip_size)) [
      | inr long ↦ absurd (none_written (rw (long, if◌then◌else◌) at e))
      | inl short ↦
          let copied = set (copy_in user missed clipboard) (length user - missed) 0 in
          let same : ◌≡◌ {A = Option (ℕ × List ℕ)} (some (length user - missed, copied))
              (some (result, clipboard')) =
            rw (short, if◌then◌else◌) at e in
          let stored : copied ≡ clipboard' = ap (λ (r : ℕ × List ℕ). r.1) (eq_of_some same) in
          omega (
            arith,
            ap length stored,
            length-set (copy_in user missed clipboard) (length user - missed) 0,
            length-copy_in user clipboard missed (omega (arith, ltb→lt _ _ short)),
          )
    ]
  where
    none_written : ◌≡◌ {A = Option (ℕ × List ℕ)} none (some (result, clipboard')) → ⊥
    none_written h = cc

-- A read of a clipboard that holds a text.
pub clipboard_read :
    (s rest : List ℕ) (maxchars missed : ℕ)
    → IsText s
    → clipboard_kifs_read maxchars missed (s ++ 0 ∷ rest)
      ≡ (if leb (length s) maxchars then some (take (length s - missed) s) else none)
unfolding clipboard_kifs_read
clipboard_read s rest maxchars missed t =
    rw (strlen-text s rest t, take-append_front (length s - missed) s (0 ∷ rest) (omega arith)) refl

-- A text of fewer than 50 characters that is written to the clipboard is what a read with room for
-- it gives, but for the last bytes that could not be copied in or out, and a read with less room
-- fails. The clipboard keeps its size.
pub clipboard_roundtrip :
    (user clipboard : List ℕ) (maxchars missed missed' : ℕ)
    → IsText user
    → length user < clip_size
    → length clipboard ≡ clip_size
    → (clipboard' : List ℕ) × (clipboard_kifs_write user missed clipboard
        ≡ some (length user - missed, clipboard'))
      × (length clipboard' ≡ clip_size)
      × (clipboard_kifs_read maxchars missed' clipboard' ≡ (
          if leb (length user - missed) maxchars
          then some (take (length user - missed - missed') user)
          else none))
clipboard_roundtrip user clipboard maxchars missed missed' t short size =
    let used = length user - missed in
    let (rest, e) = clipboard_written user clipboard missed short size in
    let place : length (take used user) ≡ used = omega (arith, length-take used user) in
    (
      take used user ++ 0 ∷ rest,
      e,
      length-clipboard user clipboard _ missed used size e,
      clipboard_read (take used user) rest maxchars missed' (IsText-take used user t)
          ∙ ap (λ n. if leb n maxchars then some (take (n - missed') (take used user)) else none)
              place
          ∙ ap (λ l. if leb used maxchars then some l else none)
              (take-take (used - missed') used user (omega arith)),
    )

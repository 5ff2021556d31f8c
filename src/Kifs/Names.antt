-- ===== src/Kifs/Names.antt =====
-- `strncmp` and `strncpy` on the names of the entries.
use dso_fifo.Prelude.{
  ℕ, suc, zero, ◌≡◌, ◌↔◌, refl, inl, inr, true, List, ◌==◌, if◌then◌else◌, arith, Bool-cases,
  ==_iff,
}
use dso_fifo.Kifs.{first_char, next_chars, strncmp_equal, strncpy}

-- A comparison with a copy of the name is one with the name.
pub strncmp_equal-strncpy :
    (n : ℕ) (a b : List ℕ) → strncmp_equal n a (strncpy n b) ≡ strncmp_equal n a b
unfolding strncmp_equal strncpy first_char next_chars
strncmp_equal-strncpy zero a b = refl
strncmp_equal-strncpy (suc n) a b = elim (Bool-cases (first_char b == 0)) [
  | inl e ↦ let same = (==_iff (first_char b) 0).0 e in rw (e, same, if◌then◌else◌) (ground arith)
  | inr e ↦ rw (e, if◌then◌else◌, strncmp_equal-strncpy n (next_chars a) (next_chars b)) refl
]

-- Two strings compare equal on `n` characters where their copies in `n` bytes are the same.
pub strncmp_equal_iff :
    (n : ℕ) (a b : List ℕ) → (strncmp_equal n a b ≡ true) ↔ (strncpy n a ≡ strncpy n b)
unfolding strncmp_equal strncpy
strncmp_equal_iff zero a b = (λ _. refl, λ _. refl)
strncmp_equal_iff (suc n) a b =
    let (to, from) = strncmp_equal_iff n (next_chars a) (next_chars b) in
    (λ h. grind (arith, to), λ h. grind (arith, from))

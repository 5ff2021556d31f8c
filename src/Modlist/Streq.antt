-- ===== src/Modlist/Streq.antt =====
-- `streq`, the comparison with the word that clears the list.
use mathlib.Core.Path.{subst}
use dso_fifo.Prelude.{
  IsText, ℕ, ◌≡◌, ◌≢◌, ◌↔◌, ◌⊎◌, ◌∙◌, sym, ap, refl, inl, inr, true, false, List, [], ◌∷◌, ◌++◌,
  ◌==◌, Bool, arith, Bool-cases, ==_iff,
}
use dso_fifo.Modlist.{streq}

-- `b` begins with `a`.
abbrev pub IsPrefix : List ℕ → List ℕ → Type 0
IsPrefix a b = (c : List ℕ) × (a ++ c ≡ b)

clash : {b : Bool} → b ≡ true → b ≡ false → ⊥
clash h k = cc

streq-same : (p : ℕ) (u v : List ℕ) → p ≢ 0 → streq (p ∷ u) (p ∷ v) ≡ streq u v
unfolding streq
streq-same p u v h = ground arith

streq-differ : (p q : ℕ) (u v : List ℕ) → p ≢ 0 → q ≢ 0 → p ≢ q → streq (p ∷ u) (q ∷ v) ≡ false
unfolding streq
streq-differ p q u v hp hq h = ground arith

head_eq : (p q : ℕ) (u v : List ℕ) → p ∷ u ≡ q ∷ v → p ≡ q
head_eq p q u v h = cc

IsPrefix-tail : (p q : ℕ) (a b : List ℕ) → IsPrefix (p ∷ a) (q ∷ b) → IsPrefix a b
IsPrefix-tail p q a b (c, e) = (c, cc)

IsPrefix-cons : (p : ℕ) (a b : List ℕ) → IsPrefix a b → IsPrefix (p ∷ a) (p ∷ b)
IsPrefix-cons p a b (c, e) = (c, ap (λ l. p ∷ l) e)

OneBegins : List ℕ → List ℕ → Type 0
OneBegins a b = IsPrefix a b ⊎ IsPrefix b a

OneBegins-head : (p q : ℕ) (a b : List ℕ) → OneBegins (p ∷ a) (q ∷ b) → p ≡ q
unfolding OneBegins
OneBegins-head p q a b (inl (c, e)) = head_eq p q _ _ e
OneBegins-head p q a b (inr (c, e)) = sym (head_eq q p _ _ e)

OneBegins-cons : (p : ℕ) (a b : List ℕ) → OneBegins (p ∷ a) (p ∷ b) ↔ OneBegins a b
unfolding OneBegins
OneBegins-cons p a b = (
  λ h. elim h [ inl k ↦ inl (IsPrefix-tail p p a b k) | inr k ↦ inr (IsPrefix-tail p p b a k) ],
  λ h. elim h [ inl k ↦ inl (IsPrefix-cons p a b k) | inr k ↦ inr (IsPrefix-cons p b a k) ],
)

-- `streq` on two strings says whether one of them begins with the other, whatever stands behind
-- their terminators. The empty string is equal to all strings.
pub streq_iff :
    (a b x y : List ℕ)
    → IsText a
    → IsText b
    → (streq (a ++ 0 ∷ x) (b ++ 0 ∷ y) ≡ true) ↔ (IsPrefix a b ⊎ IsPrefix b a)
unfolding streq OneBegins
streq_iff [] [] x y s t = (λ _. inl ([], refl), λ _. refl)
streq_iff [] (q ∷ b) x y s t = (λ _. inl (q ∷ b, refl), λ _. refl)
streq_iff (p ∷ a) [] x y s t = (λ _. inr (p ∷ a, refl), λ _. ground arith)
streq_iff (p ∷ a) (q ∷ b) x y s t = elim (Bool-cases (p == q)) [
  | inl e ↦
      let (to, from) = streq_iff a b x y s.1 t.1 in
      let same = streq-same p (a ++ 0 ∷ x) (b ++ 0 ∷ y) s.0 in
      let (inner, outer) = OneBegins-cons p a b in
      subst (λ r. (streq (p ∷ (a ++ 0 ∷ x)) (r ∷ (b ++ 0 ∷ y)) ≡ true) ↔ OneBegins (p ∷ a) (r ∷ b))
        ((==_iff p q).0 e) (λ h. outer (to (sym same ∙ h)), λ h. same ∙ from (inner h))
  | inr e ↦
      let apart = λ (h : p ≡ q). clash ((==_iff p q).1 h) e in
      let no = streq-differ p q (a ++ 0 ∷ x) (b ++ 0 ∷ y) s.0 t.0 apart in
      (λ h. absurd (clash h no), λ h. absurd (apart (OneBegins-head p q a b h)))
]

-- ===== src/Kifs/Slots.antt =====
-- The places of an element in the two lists, and what `find` gives.
use mathlib.Core.Path.{subst}
use dso_fifo.Prelude.{
  eq_of_some, ℕ, ◌≡◌, ◌≤◌, ◌∙◌, sym, ap, refl, inl, inr, Bool, true, false, none, some, List, [],
  ◌∷◌, ◌==◌, if◌then◌else◌, arith, Bool-cases, ==_iff, ==_false,
}
use dso_fifo.Allocator.{remove, Absent, count}
use dso_fifo.Kifs.{KifsEntry, find, strncmp_equal, strncpy, max_kifs_entry_name_size}
use dso_fifo.Kifs.Names.{strncmp_equal-strncpy, strncmp_equal_iff}

not_found : {x : ℕ} → some x ≡ none → ⊥
not_found h = cc

pub find-here :
    (entry : ℕ → KifsEntry) (x : ℕ) (ps name : List ℕ)
    → strncmp_equal max_kifs_entry_name_size (entry x).entryname name ≡ true
    → find entry (x ∷ ps) name ≡ some x
unfolding find
find-here entry x ps name e = rw e refl

pub find-later :
    (entry : ℕ → KifsEntry) (x : ℕ) (ps name : List ℕ)
    → strncmp_equal max_kifs_entry_name_size (entry x).entryname name ≡ false
    → find entry (x ∷ ps) name ≡ find entry ps name
unfolding find
find-later entry x ps name e = rw e refl

-- the entry found is in the list, and has the name
pub find-some :
    (entry : ℕ → KifsEntry) (ps name : List ℕ) (p : ℕ)
    → find entry ps name ≡ some p
    → (1 ≤ count p ps) × (strncmp_equal max_kifs_entry_name_size (entry p).entryname name ≡ true)
unfolding find
find-some entry [] name p h = absurd cc
find-some entry (x ∷ ps) name p h =
    elim (Bool-cases (strncmp_equal max_kifs_entry_name_size (entry x).entryname name)) [
      | inl e ↦
          let same = eq_of_some (sym (find-here entry x ps name e) ∙ h) in
          (
            ground (arith, same),
            subst (λ r. strncmp_equal max_kifs_entry_name_size (entry r).entryname name ≡ true) same
                e,
          )
      | inr e ↦
          let (here, equal) = find-some entry ps name p (sym (find-later entry x ps name e) ∙ h) in
          (omega (arith, here), equal)
    ]

-- A copy of a name finds the same entry.
pub find-strncpy :
    (entry : ℕ → KifsEntry) (ps name : List ℕ)
    → find entry ps (strncpy max_kifs_entry_name_size name) ≡ find entry ps name
unfolding find
find-strncpy entry [] name = refl
find-strncpy entry (x ∷ ps) name =
    rw
      (
        strncmp_equal-strncpy max_kifs_entry_name_size (entry x).entryname name,
        find-strncpy entry ps name,
      )
      refl

-- A change to an entry that is not in the list changes nothing for `find`.
pub find-fresh :
    (entry : ℕ → KifsEntry) (p : ℕ) (e : KifsEntry) (ps name : List ℕ)
    → Absent p ps
    → find (λ q. if q == p then e else entry q) ps name ≡ find entry ps name
unfolding find
find-fresh entry p e [] name h = refl
find-fresh entry p e (x ∷ ps) name h = rw (==_false x p h.0, find-fresh entry p e ps name h.1) refl

-- No two elements of the list have the same name.
abbrev pub Unique : (ℕ → KifsEntry) → List ℕ → Type 0
Unique entry [] = Unit
Unique entry (p ∷ ps) = (find entry ps (entry p).entryname ≡ none) × Unique entry ps

Unique-fresh :
    (entry : ℕ → KifsEntry) (p : ℕ) (e : KifsEntry) (ps : List ℕ)
    → Absent p ps
    → Unique entry ps
    → Unique (λ q. if q == p then e else entry q) ps
Unique-fresh entry p e [] h u = tt
Unique-fresh entry p e (x ∷ ps) h u = (
  rw (==_false x p h.0) (find-fresh entry p e ps (entry x).entryname h.1 ∙ u.0),
  Unique-fresh entry p e ps h.1 u.1,
)

pub find-remove :
    (entry : ℕ → KifsEntry) (p : ℕ) (ps name : List ℕ)
    → find entry ps name ≡ none
    → find entry (remove p ps) name ≡ none
unfolding find remove
find-remove entry p [] name h = refl
find-remove entry p (x ∷ ps) name h =
    elim (Bool-cases (strncmp_equal max_kifs_entry_name_size (entry x).entryname name)) [
      | inl e ↦ absurd (not_found (sym (find-here entry x ps name e) ∙ h))
      | inr e ↦ elim (Bool-cases (x == p)) [
        | inl same ↦ rw (same, if◌then◌else◌) (sym (find-later entry x ps name e) ∙ h)
        | inr apart ↦
            rw (apart, if◌then◌else◌)
              (find-later entry x (remove p ps) name e
                ∙ find-remove entry p ps name (sym (find-later entry x ps name e) ∙ h))
      ]
    ]

pub Unique-remove :
    (entry : ℕ → KifsEntry) (p : ℕ) (ps : List ℕ) → Unique entry ps → Unique entry (remove p ps)
unfolding remove
Unique-remove entry p [] u = tt
Unique-remove entry p (x ∷ ps) u = elim (Bool-cases (x == p)) [
  | inl e ↦ rw (e, if◌then◌else◌) u.1
  | inr e ↦
      rw (e, if◌then◌else◌)
        (find-remove entry p ps (entry x).entryname u.0, Unique-remove entry p ps u.1)
]

==_refl : (p : ℕ) → (p == p) ≡ true
==_refl p = ground arith

-- a new element in front, with a name that no element of the list has
pub Unique-cons :
    (entry : ℕ → KifsEntry) (p : ℕ) (e : KifsEntry) (ps : List ℕ)
    → Absent p ps
    → Unique entry ps
    → find entry ps e.entryname ≡ none
    → Unique (λ q. if q == p then e else entry q) (p ∷ ps)
Unique-cons entry p e ps h u fresh = (
  rw (==_refl p, if◌then◌else◌) (find-fresh entry p e ps e.entryname h ∙ fresh),
  Unique-fresh entry p e ps h u,
)

-- Names that compare equal find the same entry.
pub find-equal :
    (entry : ℕ → KifsEntry) (ps a b : List ℕ)
    → strncmp_equal max_kifs_entry_name_size a b ≡ true
    → find entry ps a ≡ find entry ps b
find-equal entry ps a b e =
    sym (find-strncpy entry ps a)
    ∙ ap (find entry ps) ((strncmp_equal_iff max_kifs_entry_name_size a b).0 e)
    ∙ find-strncpy entry ps b

pub clash : {b : Bool} → b ≡ true → b ≡ false → ⊥
clash h k = cc

-- Without the entry found, there is none with the name.
pub find-removed :
    (entry : ℕ → KifsEntry) (ps name : List ℕ) (p : ℕ)
    → Unique entry ps
    → find entry ps name ≡ some p
    → find entry (remove p ps) name ≡ none
unfolding remove find
find-removed entry [] name p u h = refl
find-removed entry (x ∷ ps) name p u h =
    elim (Bool-cases (strncmp_equal max_kifs_entry_name_size (entry x).entryname name)) [
      | inl e ↦
          let same = eq_of_some (sym (find-here entry x ps name e) ∙ h) in
          rw ((==_iff x p).1 same, if◌then◌else◌)
            (sym (find-equal entry ps (entry x).entryname name e) ∙ u.0)
      | inr e ↦
          let later = sym (find-later entry x ps name e) ∙ h in
          let equal = (find-some entry ps name p later).1 in
          rw
            (
              ==_false x p (λ same.
                  clash
                    (subst
                      (λ r. strncmp_equal max_kifs_entry_name_size (entry r).entryname name ≡ true)
                      (sym same) equal)
                    e),
              if◌then◌else◌,
            )
            (find-later entry x (remove p ps) name e ∙ find-removed entry ps name p u.1 later)
    ]

-- ===== src/Kifs/Kept.antt =====
-- An entry stays with its name and its callbacks while other entries come and go.
use mathlib.Core.Path.{subst}
use dso_fifo.Prelude.{
  ℕ, ◌≡◌, ◌≢◌, ◌∙◌, sym, ap, refl, inl, inr, Bool, true, false, Option, none, some, List, [], ◌∷◌,
  ◌==◌, if◌then◌else◌, arith, Bool-cases, ==_iff, ==_false, eq_of_some,
}
use dso_fifo.Allocator.{count, remove, Absent-count}
use dso_fifo.KernelList.{KernelList}
use dso_fifo.Kifs.{
  KifsEntry, Kifs, find, strncmp_equal, strncpy, max_kifs_entry_name_size, create_kifs_entry,
  remove_kifs_entry,
}
use dso_fifo.Kifs.Names.{strncmp_equal_iff}
use dso_fifo.Kifs.Slots.{
  find-some, find-strncpy, find-fresh, find-equal, find-later, find-here, clash,
}
use dso_fifo.Kifs.Entries.{IsValid, entry_of, create_kifs_entry_lem, remove_kifs_entry_lem}
use dso_fifo.Kifs.Calls.{Call, create, remove_entry, run_calls}

abbrev pub same_name : List ℕ → List ℕ → Bool
same_name a b = strncmp_equal max_kifs_entry_name_size a b

-- Taking another element out does not change what a name finds.
find-remove_other :
    (entry : ℕ → KifsEntry) (p q : ℕ) (ps name : List ℕ)
    → p ≢ q
    → find entry ps name ≡ some p
    → find entry (remove q ps) name ≡ some p
unfolding find remove
find-remove_other entry p q [] name ne h = h
find-remove_other entry p q (x ∷ ps) name ne h =
    elim (Bool-cases (same_name (entry x).entryname name)) [
      | inl e ↦
          let here = eq_of_some (sym (find-here entry x ps name e) ∙ h) in
          rw (==_false x q (λ z. ne (sym here ∙ z)), if◌then◌else◌)
            (find-here entry x (remove q ps) name e ∙ ap some here)
      | inr e ↦
          let later = sym (find-later entry x ps name e) ∙ h in
          elim (Bool-cases (x == q)) [
            | inl gone ↦ rw (gone, if◌then◌else◌) later
            | inr stays ↦
                rw (stays, if◌then◌else◌)
                  (find-later entry x (remove q ps) name e
                    ∙ find-remove_other entry p q ps name ne later)
          ]
    ]

not_none : {p : ℕ} → none ≡ some p → ⊥
not_none h = cc

-- Two names that one entry has are the same.
names_of_one : (s a b : List ℕ) → same_name s a ≡ true → same_name s b ≡ true → same_name a b ≡ true
names_of_one s a b h k = (strncmp_equal_iff max_kifs_entry_name_size a b).1 (
    sym ((strncmp_equal_iff max_kifs_entry_name_size s a).0 h)
    ∙ (strncmp_equal_iff max_kifs_entry_name_size s b).0 k)

-- None of the calls removes the entry with the name.
abbrev pub Spares : List ℕ → List Call → Type 0
Spares name [] = Unit {0}
Spares name (create new r w d ∷ calls) = Spares name calls
Spares name (remove_entry gone ∷ calls) = (same_name gone name ≡ false) × Spares name calls

module _ (l : KernelList) where
  open l use {nodes}

  -- the element `p` has the name, and is the entry `e`
  pub record Holds (name : List ℕ) (p : ℕ) (e : KifsEntry) (k : Kifs l) : Type 0 where
    pub found : find k.entry_buff (nodes k.entry_list) name ≡ some p
    pub is_entry : k.entry_buff p ≡ e

  new-Holds :
      (name new : List ℕ) (r w : Option ℕ) (d p q : ℕ) (e : KifsEntry) (k k' : Kifs l)
      → IsValid l k'
      → Holds name p e k
      → find k.entry_buff (nodes k.entry_list) new ≡ none
      → nodes k'.entry_list ≡ q ∷ nodes k.entry_list
      → k'.entry_buff ≡ (λ x. if x == q then entry_of new r w d else k.entry_buff x)
      → Holds name p e k'
  new-Holds name new r w d p q e k k' v h none_new list buff =
      let inside = (find-some k.entry_buff (nodes k.entry_list) name p h.found).0 in
      let alone : count q (nodes k.entry_list) ≡ 0 =
        ground (arith, v.places q, ap (count q) list) in
      let apart : p ≢ q =
        λ z. ground (arith, ap (λ x. count x (nodes k.entry_list)) z, inside, alone) in
      let other : same_name (strncpy max_kifs_entry_name_size new) name ≡ false =
        elim (Bool-cases (same_name (strncpy max_kifs_entry_name_size new) name)) [
          | inr differ ↦ differ
          | inl same ↦ absurd (
              not_none (
                sym none_new
                ∙ sym (find-strncpy k.entry_buff (nodes k.entry_list) new)
                ∙ find-equal k.entry_buff (nodes k.entry_list)
                    (strncpy max_kifs_entry_name_size new) name same
                ∙ h.found))
        ] in
      let changed : ℕ → KifsEntry = λ x. if x == q then entry_of new r w d else k.entry_buff x in
      let q_is : (q == q) ≡ true = (==_iff q q).1 refl in
      record {
        found =
            ap (λ f. find f (nodes k'.entry_list) name) buff
            ∙ ap (λ ns. find changed ns name) list
            ∙ find-later changed q (nodes k.entry_list) name (rw (q_is, if◌then◌else◌) other)
            ∙ find-fresh k.entry_buff q (entry_of new r w d) (nodes k.entry_list) name
                (Absent-count q (nodes k.entry_list) alone)
            ∙ h.found;
        is_entry = ap (λ f. f p) buff ∙ rw (==_false p q apart, if◌then◌else◌) h.is_entry;
      }

  pub create-Holds :
      (name new : List ℕ) (r w : Option ℕ) (d p : ℕ) (e : KifsEntry) (k : Kifs l)
      → IsValid l k
      → Holds name p e k
      → Holds name p e (create_kifs_entry l new r w d k).1
  create-Holds name new r w d p e k v h =
      let (made, v') = create_kifs_entry_lem l new r w d k v in
      elim made [
        | inl (no_room, failed, same) ↦ subst (Holds name p e) (sym same) h
        | inr (inl (q, taken, failed, same)) ↦ subst (Holds name p e) (sym same) h
        | inr (inr (q, none_new, result, list, buff)) ↦
            new-Holds name new r w d p q e k _ v' h none_new list buff
      ]

  remove-buff :
      (name : List ℕ) (k : Kifs l) → (remove_kifs_entry l name k).1.entry_buff ≡ k.entry_buff
  unfolding remove_kifs_entry
  remove-buff name k = ground arith

  remove-Holds :
      (name gone : List ℕ) (p : ℕ) (e : KifsEntry) (k : Kifs l)
      → IsValid l k
      → same_name gone name ≡ false
      → Holds name p e k
      → Holds name p e (remove_kifs_entry l gone k).1
  remove-Holds name gone p e k v differ h =
      let (v', removed) = remove_kifs_entry_lem l gone k v in
      elim removed [
        | inl (none_gone, same) ↦ subst (λ r. Holds name p e r.1) (sym same) h
        | inr (q, found, done, list, no_more) ↦
            let named = find-some k.entry_buff (nodes k.entry_list) gone q found in
            let mine = find-some k.entry_buff (nodes k.entry_list) name p h.found in
            let apart : p ≢ q = λ z.
              clash
                (names_of_one (k.entry_buff q).entryname gone name named.1
                  (subst (λ x. same_name (k.entry_buff x).entryname name ≡ true) z mine.1))
                differ in
            record {
              found =
                  ap (λ f. find f (nodes (remove_kifs_entry l gone k).1.entry_list) name)
                    (remove-buff gone k)
                  ∙ ap (λ ns. find k.entry_buff ns name) list
                  ∙ find-remove_other k.entry_buff p q (nodes k.entry_list) name apart h.found;
              is_entry = ap (λ f. f p) (remove-buff gone k) ∙ h.is_entry;
            }
      ]

  pub run_calls-Holds :
      (name : List ℕ) (p : ℕ) (e : KifsEntry) (calls : List Call) (k : Kifs l)
      → IsValid l k
      → Spares name calls
      → Holds name p e k
      → Holds name p e (run_calls l calls k)
  unfolding run_calls
  run_calls-Holds name p e [] k v spares h = h
  run_calls-Holds name p e (create new r w d ∷ calls) k v spares h =
      run_calls-Holds name p e calls _ (create_kifs_entry_lem l new r w d k v).1 spares
        (create-Holds name new r w d p e k v h)
  run_calls-Holds name p e (remove_entry gone ∷ calls) k v spares h =
      run_calls-Holds name p e calls _ (remove_kifs_entry_lem l gone k v).0 spares.1
        (remove-Holds name gone p e k v spares.0 h)

-- ===== src/Kifs/Entries.antt =====
-- Creating, removing and calling an entry: the invariant of the two lists, and the results.
use mathlib.Core.Path.{subst}
use dso_fifo.Prelude.{
  ℕ, ◌+◌, ◌≡◌, ◌⊎◌, ◌∙◌, sym, ap, refl, inl, inr, true, false, Option, Option-cases, none, some,
  List, [], ◌∷◌, ◌==◌, if◌then◌else◌, length, arith, ltb, add32, get_or,
}
use dso_fifo.Allocator.{
  count, count-remove, length-remove, Absent-count, remove, remove-cons, Absent,
}
use dso_fifo.KernelList.{KernelList}
use dso_fifo.Kifs.{
  KifsEntry, Kifs, find, strncpy, max_kifs_entry, max_kifs_entry_name_size, take_entry,
  create_kifs_entry, remove_kifs_entry, sys_kifs, sys_find, sys_answer, sys_switch, einval,
}
use dso_fifo.Kifs.Slots.{find-some, find-strncpy, find-removed, Unique, Unique-cons, Unique-remove}

-- what `create_kifs_entry` stores
abbrev pub entry_of : List ℕ → Option ℕ → Option ℕ → ℕ → KifsEntry
entry_of name read_kifs write_kifs data_ptr = record {
  entryname = strncpy max_kifs_entry_name_size name;
  read_kifs = read_kifs;
  write_kifs = write_kifs;
  data_ptr = data_ptr;
}

list_cases : (xs : List ℕ) → (xs ≡ []) ⊎ ((x : ℕ) × (ys : List ℕ) × (xs ≡ x ∷ ys))
list_cases [] = inl refl
list_cases (x ∷ xs) = inr (x, xs, refl)

module _ (l : KernelList) where
  open l use {Head, nodes, moved_from, moved_to}

  -- Each element of the array is in exactly one list, once; `num_entry` counts the entries, and no
  -- two of them have the same name.
  pub record IsValid (k : Kifs l) : Type 0 where
    pub places :
        (q : ℕ)
        → count q (nodes k.entry_list) + count q (nodes k.free_list)
          ≡ (if ltb q max_kifs_entry then 1 else 0)
    pub total : length (nodes k.entry_list) + length (nodes k.free_list) ≡ max_kifs_entry
    pub counted : k.num_entry ≡ length (nodes k.entry_list)
    pub unique : Unique k.entry_buff (nodes k.entry_list)

  module _ (name : List ℕ) (read_kifs write_kifs : Option ℕ) (data_ptr : ℕ) (k : Kifs l) where
    made : ℕ → Kifs l
    made next = (take_entry l next name read_kifs write_kifs data_ptr k).1

    made-nodes :
        (next : ℕ) (others : List ℕ)
        → nodes k.free_list ≡ next ∷ others
        → (nodes (made next).entry_list ≡ next ∷ nodes k.entry_list)
          × (nodes (made next).free_list ≡ others)
    unfolding made take_entry
    made-nodes next others e = (
      moved_to next k.free_list k.entry_list,
      moved_from next k.free_list k.entry_list ∙ ap (remove next) e ∙ remove-cons next others,
    )

    made-entry :
        (next : ℕ)
        → (made next).entry_buff
          ≡ (λ q. if q == next then entry_of name read_kifs write_kifs data_ptr else k.entry_buff q)
    unfolding made take_entry
    made-entry next =
        ap
          (λ (ns : List ℕ). λ q.
            if q == get_or ns 0 0
            then entry_of name read_kifs write_kifs data_ptr
            else k.entry_buff q)
          (moved_to next k.free_list k.entry_list)

    made-num_entry : (next : ℕ) → (made next).num_entry ≡ add32 k.num_entry 1
    unfolding made take_entry
    made-num_entry next = refl

    made-result :
        (next : ℕ) → (take_entry l next name read_kifs write_kifs data_ptr k).0 ≡ some next
    unfolding take_entry
    made-result next =
        ap (λ (ns : List ℕ). some (get_or ns 0 0)) (moved_to next k.free_list k.entry_list)

    Absent-next :
        (next : ℕ) (others : List ℕ)
        → IsValid k
        → nodes k.free_list ≡ next ∷ others
        → Absent next (nodes k.entry_list)
    Absent-next next others v e =
        Absent-count next (nodes k.entry_list) (ground (arith, v.places next, ap (count next) e))

    made-IsValid :
        (next : ℕ) (others : List ℕ)
        → IsValid k
        → nodes k.free_list ≡ next ∷ others
        → find k.entry_buff (nodes k.entry_list) name ≡ none
        → IsValid (made next)
    made-IsValid next others v e none_found =
        let (left, right) = made-nodes next others e in
        let fresh = Absent-next next others v e in
        record {
          places = λ q. rw (left, right) (ground (arith, v.places q, ap (count q) e));
          total = rw (left, right) (omega (arith, v.total, ap length e));
          counted = rw (left, made-num_entry next) (omega (arith, v.total, v.counted, ap length e));
          unique = rw left (
              subst (λ entry. Unique entry (next ∷ nodes k.entry_list)) (sym (made-entry next))
                (Unique-cons k.entry_buff next (entry_of name read_kifs write_kifs data_ptr)
                  (nodes k.entry_list) fresh v.unique
                  (find-strncpy k.entry_buff (nodes k.entry_list) name ∙ none_found)));
        }

    -- The new entry goes into the first free element.
    pub create-next :
        (next : ℕ) (others : List ℕ)
        → nodes k.free_list ≡ next ∷ others
        → find k.entry_buff (nodes k.entry_list) name ≡ none
        → (create_kifs_entry l name read_kifs write_kifs data_ptr k).1.entry_buff
          ≡ (λ q. if q == next then entry_of name read_kifs write_kifs data_ptr else k.entry_buff q)
    unfolding create_kifs_entry made
    create-next next others e f = rw (e, f, create_kifs_entry) (made-entry next)

    -- What `create_kifs_entry` comes to: no free element, a name that is taken, or a new entry.
    abbrev pub CreatedEntry : Option ℕ × Kifs l → Type 0
    CreatedEntry (ret, k') =
        (nodes k.free_list ≡ []) × (ret ≡ none) × (k' ≡ k)
        ⊎ ((p : ℕ) × (find k.entry_buff (nodes k.entry_list) name ≡ some p)
            × (ret ≡ none)
            × (k' ≡ k))
        ⊎ (p : ℕ) × (find k.entry_buff (nodes k.entry_list) name ≡ none)
          × (ret ≡ some p)
          × (nodes k'.entry_list ≡ p ∷ nodes k.entry_list)
          × (k'.entry_buff ≡ (λ q.
              if q == p then entry_of name read_kifs write_kifs data_ptr else k.entry_buff q))

    -- `create_kifs_entry` fails, and changes nothing, exactly where no element is free or the name is
    -- taken. Else it puts an element in front of the entries, with the first 50 characters of the
    -- name and the callbacks, changes no other element, and returns it. Names stay unique, and each
    -- element stays in exactly one list.
    pub create_kifs_entry_lem :
        IsValid k
        → CreatedEntry (create_kifs_entry l name read_kifs write_kifs data_ptr k)
          × IsValid (create_kifs_entry l name read_kifs write_kifs data_ptr k).1
    unfolding create_kifs_entry made
    create_kifs_entry_lem v = elim (list_cases (nodes k.free_list)) [
      | inl e ↦ rw (e, create_kifs_entry) (inl (refl, refl, refl), v)
      | inr (next, others, e) ↦ elim (Option-cases (find k.entry_buff (nodes k.entry_list) name)) [
        | inl f ↦
            rw (e, f, create_kifs_entry)
              (
                inr (
                    inr (
                      next,
                      refl,
                      made-result next,
                      (made-nodes next others e).0,
                      made-entry next,
                    )),
                made-IsValid next others v e f,
              )
        | inr (p, f) ↦ rw (e, f, create_kifs_entry) (inr (inl (p, refl, refl, refl)), v)
      ]
    ]

  -- `remove_kifs_entry` fails, and changes nothing, where no entry has the name. Else it takes the
  -- entry with that name out of the entries, and no entry has the name any more.
  pub remove_kifs_entry_lem :
      (name : List ℕ) (k : Kifs l)
      → IsValid k
      → IsValid (remove_kifs_entry l name k).1
        × ((find k.entry_buff (nodes k.entry_list) name ≡ none)
              × (remove_kifs_entry l name k ≡ (false, k))
            ⊎ (p : ℕ) × (find k.entry_buff (nodes k.entry_list) name ≡ some p)
              × ((remove_kifs_entry l name k).0 ≡ true)
              × (nodes (remove_kifs_entry l name k).1.entry_list ≡ remove p (nodes k.entry_list))
              × (find k.entry_buff (remove p (nodes k.entry_list)) name ≡ none))
  unfolding remove_kifs_entry
  remove_kifs_entry_lem name k v =
      elim (Option-cases (find k.entry_buff (nodes k.entry_list) name)) [
        | inl f ↦ rw (f, remove_kifs_entry) (v, inl (refl, refl))
        | inr (p, f) ↦
            let (here, equal) = find-some k.entry_buff (nodes k.entry_list) name p f in
            rw (f, remove_kifs_entry)
              (
                record {
                  places = λ q.
                      rw (l.nodes-list_del p k.entry_list, l.nodes-list_add p k.free_list)
                        (omega (arith, v.places q, count-remove q p (nodes k.entry_list) here));
                  total =
                      rw (l.nodes-list_del p k.entry_list, l.nodes-list_add p k.free_list)
                        (omega (arith, v.total, length-remove p (nodes k.entry_list) here));
                  counted = rw (l.nodes-list_del p k.entry_list) (
                      omega (arith, v.total, v.counted, length-remove p (nodes k.entry_list) here));
                  unique =
                      rw (l.nodes-list_del p k.entry_list)
                        (Unique-remove k.entry_buff p (nodes k.entry_list) v.unique);
                },
                inr (
                  p,
                  refl,
                  refl,
                  l.nodes-list_del p k.entry_list,
                  find-removed k.entry_buff (nodes k.entry_list) name p v.unique f,
                ),
              )
      ]

  -- The system call answers for the entry with the name, and a name that no entry has is -EINVAL.
  -- Only the first 50 characters of the name count.
  pub sys_kifs_lem :
      (name : List ℕ) (op_mode : ℕ) (k : Kifs l)
      → (find k.entry_buff (nodes k.entry_list) name ≡ none) × (sys_kifs l name op_mode k ≡ einval)
        ⊎ (p : ℕ) × (find k.entry_buff (nodes k.entry_list) name ≡ some p)
          × (sys_kifs l name op_mode k ≡ sys_switch op_mode (k.entry_buff p))
  unfolding sys_kifs
  sys_kifs_lem name op_mode k =
      let same = find-strncpy k.entry_buff (nodes k.entry_list) name in
      elim (Option-cases (find k.entry_buff (nodes k.entry_list) name)) [
        | inl f ↦ inl (f, rw (same, f, sys_kifs, sys_find, sys_answer) refl)
        | inr (p, f) ↦ inr (p, f, rw (same, f, sys_kifs, sys_find, sys_answer) refl)
      ]

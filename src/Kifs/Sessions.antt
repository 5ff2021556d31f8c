-- ===== src/Kifs/Sessions.antt =====
-- What a process gets through the system call, with calls of other code in between.
use dso_fifo.Prelude.{
  ℕ, ◌≡◌, ◌≢◌, ◌∙◌, sym, ap, refl, inl, inr, true, false, Option, none, some, List, [], ◌∷◌,
  if◌then◌else◌, ==_iff, length, arith,
}
use dso_fifo.KernelList.{KernelList}
use dso_fifo.Kifs.{
  KifsEntry, Kifs, list_name, clipboard_name, find, create_kifs_entry, cleared, init_kifs_entry_set,
  strncmp_equal, strncpy, max_kifs_entry_name_size,
}
use dso_fifo.Kifs.Entries.{IsValid, entry_of, create_kifs_entry_lem}
use dso_fifo.Kifs.Names.{strncmp_equal-strncpy, strncmp_equal_iff}
use dso_fifo.Kifs.Slots.{find-here, find-later}
use dso_fifo.Kifs.Calls.{
  Call, entries_consistent, run_calls, cleared-IsValid, cleared-entries, cleared-free,
}
use dso_fifo.Kifs.Kept.{same_name, Holds, Spares, run_calls-Holds, create-Holds}
use dso_fifo.Kifs.Dispatch.{Answer, Request, Kernel, system_call}

not_empty : {x : ℕ} {xs : List ℕ} → x ∷ xs ≡ [] → ⊥
not_empty h = cc

not_none : {p : ℕ} → none ≡ some p → ⊥
not_none h = cc

-- The copy of a name that `create_kifs_entry` makes compares equal to the name.
copy_same : (name : List ℕ) → same_name (strncpy max_kifs_entry_name_size name) name ≡ true
copy_same name =
    let n = max_kifs_entry_name_size in
    let (to, from) = strncmp_equal_iff n name (strncpy n name) in
    let equal = strncmp_equal-strncpy n name name ∙ (strncmp_equal_iff n name name).1 refl in
    (strncmp_equal_iff n (strncpy n name) name).1 (sym (to equal))

names_differ : same_name (strncpy max_kifs_entry_name_size list_name) clipboard_name ≡ false
unfolding strncmp_equal strncpy
names_differ = refl

find-nil : (entry : ℕ → KifsEntry) (name : List ℕ) → find entry [] name ≡ none
unfolding find
find-nil entry name = refl

module _ (l : KernelList) where
  open l use {nodes}

  -- A new entry under a name that is free, where there is a free element.
  created-Holds :
      (name : List ℕ) (r w : Option ℕ) (d : ℕ) (k : Kifs l)
      → IsValid l k
      → nodes k.free_list ≢ []
      → find k.entry_buff (nodes k.entry_list) name ≡ none
      → (p : ℕ) × Holds l name p (entry_of name r w d) (create_kifs_entry l name r w d k).1
        × (nodes (create_kifs_entry l name r w d k).1.entry_list ≡ p ∷ nodes k.entry_list)
  created-Holds name r w d k v room none_there = elim (create_kifs_entry_lem l name r w d k v).0 [
    | inl (no_room, _, _) ↦ absurd (room no_room)
    | inr (inl (q, there, _, _)) ↦ absurd (not_none (sym none_there ∙ there))
    | inr (inr (p, _, _, list, buff)) ↦
        let k' = (create_kifs_entry l name r w d k).1 in
        let entry : k'.entry_buff p ≡ entry_of name r w d =
          ap (λ f. f p) buff ∙ rw ((==_iff p p).1 refl, if◌then◌else◌) refl in
        (
          p,
          record {
            found =
                ap (λ ns. find k'.entry_buff ns name) list
                ∙ find-here k'.entry_buff p (nodes k.entry_list) name
                    (ap (λ e. same_name e.entryname name) entry ∙ copy_same name);
            is_entry = entry;
          },
          list,
        )
  ]

  module _ (list_at read_at write_at : ℕ) where
    list_entry : KifsEntry
    list_entry = entry_of list_name (some list_at) none 0

    clipboard_entry : KifsEntry
    clipboard_entry = entry_of clipboard_name (some read_at) (some write_at) 0

    -- the entries as `init_kifs_entry_set` leaves them
    abbrev first : Kifs l
    first = init_kifs_entry_set l list_at read_at write_at

    first-IsValid : IsValid l first
    unfolding run_calls
    first-IsValid = entries_consistent l list_at read_at write_at []

    first-Holds :
        (p q : ℕ) × Holds l list_name p list_entry first
        × Holds l clipboard_name q clipboard_entry first
    unfolding init_kifs_entry_set list_entry clipboard_entry
    first-Holds =
        let made =
          create_kifs_entry_lem l list_name (some list_at) none 0 (cleared l) (cleared-IsValid l) in
        let k1 = (create_kifs_entry l list_name (some list_at) none 0 (cleared l)).1 in
        let (p, holds, list) =
          created-Holds list_name (some list_at) none 0 (cleared l) (cleared-IsValid l)
            (λ z. not_empty (sym (cleared-free l) ∙ z))
            (ap (λ ns. find (cleared l).entry_buff ns list_name) (cleared-entries l)
              ∙ find-nil _ _) in
        let alone : nodes k1.entry_list ≡ p ∷ [] = list ∙ ap (λ ns. p ∷ ns) (cleared-entries l) in
        let (q, holds', list') =
          created-Holds clipboard_name (some read_at) (some write_at) 0 k1 made.1
            (λ z. absurd (omega (arith, made.1.total, ap length z, ap length alone)))
            (ap (λ ns. find k1.entry_buff ns clipboard_name) alone
              ∙ find-later k1.entry_buff p [] clipboard_name
                  (ap (λ e. same_name e.entryname clipboard_name) holds.is_entry ∙ names_differ)
              ∙ find-nil _ _) in
        (
          p,
          q,
          create-Holds l list_name clipboard_name (some read_at) (some write_at) 0 p _ k1 made.1
              holds,
          holds',
        )

    -- after calls of other code that spare the entry
    kept_list :
        (calls : List Call)
        → Spares list_name calls
        → (p : ℕ) × Holds l list_name p list_entry (run_calls l calls first)
    kept_list calls spares =
        let (p, q, holds, holds') = first-Holds in
        (p, run_calls-Holds l list_name p list_entry calls first first-IsValid spares holds)

    -- The three callbacks are three functions.
    pub record Distinct : Type 0 where
      pub read_list : read_at ≢ list_at
      pub write_list : write_at ≢ list_at
      pub write_read : write_at ≢ read_at

    module _ (other : ℕ → ℕ → Request → Kernel l → Answer × Kernel l) where
      abbrev pub call : List ℕ → ℕ → Request → Kernel l → Answer × Kernel l
      call = system_call l list_at read_at write_at other

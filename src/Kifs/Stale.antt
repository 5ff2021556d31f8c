-- ===== src/Kifs/Stale.antt =====
-- `sys_kifs` gives the lock back before it reads the element that it has found: what other calls in
-- between do to its answer.
use dso_fifo.Prelude.{
  ℕ, ◌≡◌, ◌∙◌, ap, refl, inl, inr, Option, Option-cases, none, some, List, ◌∷◌, if◌then◌else◌,
  ==_iff,
}
use dso_fifo.Allocator.{remove}
use dso_fifo.KernelList.{KernelList}
use dso_fifo.Kifs.{
  KifsEntry, Kifs, find, create_kifs_entry, remove_kifs_entry, sys_kifs, sys_find, sys_answer,
  sys_switch,
}
use dso_fifo.Kifs.Slots.{find-strncpy, find-remove}
use dso_fifo.Kifs.Entries.{IsValid, entry_of, create-next}
use dso_fifo.Kifs.Calls.{Call, run_calls}
use dso_fifo.Kifs.Kept.{Holds, Spares, run_calls-Holds}

module _ (l : KernelList) where
  open l use {nodes}

  sys_find-find :
      (name : List ℕ) (k : Kifs l) → sys_find l name k ≡ find k.entry_buff (nodes k.entry_list) name
  unfolding sys_find
  sys_find-find name k = find-strncpy k.entry_buff (nodes k.entry_list) name

  -- The system call under a name that an entry has.
  pub sys_kifs-Holds :
      (name : List ℕ) (op_mode p : ℕ) (e : KifsEntry) (k : Kifs l)
      → Holds l name p e k
      → sys_kifs l name op_mode k ≡ sys_switch op_mode e
  unfolding sys_kifs sys_answer
  sys_kifs-Holds name op_mode p e k h =
      ap (λ o. sys_answer l o op_mode k) (sys_find-find name k ∙ h.found)
      ∙ ap (sys_switch op_mode) h.is_entry

  -- As long as nobody removes the entry with the name, it makes no difference that other entries are
  -- created and removed between the search under the lock and the answer: it is that of the entry
  -- found, or -EINVAL where none was found.
  pub answer_after_calls :
      (name : List ℕ) (op_mode : ℕ) (calls : List Call) (k : Kifs l)
      → IsValid l k
      → Spares name calls
      → sys_answer l (sys_find l name k) op_mode (run_calls l calls k) ≡ sys_kifs l name op_mode k
  unfolding sys_kifs sys_answer
  answer_after_calls name op_mode calls k v spares =
      elim (Option-cases (find k.entry_buff (nodes k.entry_list) name)) [
        | inl f ↦ rw (sys_find-find name k ∙ f, sys_answer) refl
        | inr (p, f) ↦
            let kept =
              run_calls-Holds l name p (k.entry_buff p) calls k v spares
                (record { found = f; is_entry = refl }) in
            rw (sys_find-find name k ∙ f, sys_answer) (ap (sys_switch op_mode) kept.is_entry)
      ]

  removed-parts :
      (name : List ℕ) (p : ℕ) (k : Kifs l)
      → find k.entry_buff (nodes k.entry_list) name ≡ some p
      → (nodes (remove_kifs_entry l name k).1.free_list ≡ p ∷ nodes k.free_list)
        × (nodes (remove_kifs_entry l name k).1.entry_list ≡ remove p (nodes k.entry_list))
        × ((remove_kifs_entry l name k).1.entry_buff ≡ k.entry_buff)
  unfolding remove_kifs_entry
  removed-parts name p k f =
      rw (f, remove_kifs_entry)
        (l.nodes-list_add p k.free_list, l.nodes-list_del p k.entry_list, refl)

  -- Removing an entry and creating one under a new name puts the new one into the same element.
  replaced :
      (name new : List ℕ) (r w : Option ℕ) (d p : ℕ) (k : Kifs l)
      → find k.entry_buff (nodes k.entry_list) name ≡ some p
      → find k.entry_buff (nodes k.entry_list) new ≡ none
      → (create_kifs_entry l new r w d (remove_kifs_entry l name k).1).1.entry_buff p
        ≡ entry_of new r w d
  replaced name new r w d p k f none_new =
      let (free, list, buff) = removed-parts name p k f in
      let still_none =
        ap (λ ns. find (remove_kifs_entry l name k).1.entry_buff ns new) list
        ∙ ap (λ b. find b (remove p (nodes k.entry_list)) new) buff
        ∙ find-remove k.entry_buff p (nodes k.entry_list) new none_new in
      ap (λ b. b p)
        (create-next l new r w d (remove_kifs_entry l name k).1 p (nodes k.free_list) free
          still_none)
      ∙ rw ((==_iff p p).1 refl, if◌then◌else◌) refl

  -- Where an entry is removed between the search and the answer, and another one is created under a
  -- name that no entry had, the system call under the first name answers with the callbacks and the
  -- data of the second one.
  pub stale_entry_answers :
      (name new : List ℕ) (op_mode : ℕ) (r w : Option ℕ) (d p : ℕ) (k : Kifs l)
      → find k.entry_buff (nodes k.entry_list) name ≡ some p
      → find k.entry_buff (nodes k.entry_list) new ≡ none
      → sys_answer l
          (sys_find l name k)
          op_mode
          (create_kifs_entry l new r w d (remove_kifs_entry l name k).1).1
        ≡ sys_switch op_mode (entry_of new r w d)
  unfolding sys_answer
  stale_entry_answers name new op_mode r w d p k f none_new =
      rw (sys_find-find name k ∙ f, sys_answer)
        (ap (sys_switch op_mode) (replaced name new r w d p k f none_new))

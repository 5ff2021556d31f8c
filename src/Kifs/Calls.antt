-- ===== src/Kifs/Calls.antt =====
-- Any calls of other code after the initialisation.
use dso_fifo.Prelude.{ℕ, suc, zero, ◌≡◌, ◌∙◌, ap, refl, Option, none, some, List, [], ◌∷◌, arith}
use dso_fifo.KernelList.{KernelList}
use dso_fifo.Kifs.{
  Kifs, create_kifs_entry, remove_kifs_entry, free_all, cleared, init_kifs_entry_set,
}
use dso_fifo.Kifs.Entries.{IsValid, create_kifs_entry_lem, remove_kifs_entry_lem}

pub data Call : Type 0 where
  create : List ℕ → Option ℕ → Option ℕ → ℕ → Call
  remove_entry : List ℕ → Call

module _ (l : KernelList) where
  open l use {Head, nodes}

  unfoldable pub run_calls : List Call → Kifs l → Kifs l
  run_calls [] k = k
  run_calls (create name read_kifs write_kifs data_ptr ∷ calls) k =
      run_calls calls (create_kifs_entry l name read_kifs write_kifs data_ptr k).1
  run_calls (remove_entry name ∷ calls) k = run_calls calls (remove_kifs_entry l name k).1

  pub run_calls-IsValid :
      (calls : List Call) (k : Kifs l) → IsValid l k → IsValid l (run_calls calls k)
  unfolding run_calls
  run_calls-IsValid [] k v = v
  run_calls-IsValid (create name r w d ∷ calls) k v =
      run_calls-IsValid calls _ (create_kifs_entry_lem l name r w d k v).1
  run_calls-IsValid (remove_entry name ∷ calls) k v =
      run_calls-IsValid calls _ (remove_kifs_entry_lem l name k v).0

  -- `left` indices from `i` on, the last first, in front of `acc`
  abbrev indices : ℕ → ℕ → List ℕ → List ℕ
  indices zero i acc = acc
  indices (suc left) i acc = indices left (suc i) (i ∷ acc)

  free_all-nodes : (left i : ℕ) (h : Head) → nodes (free_all l left i h) ≡ indices left i (nodes h)
  unfolding free_all
  free_all-nodes zero i h = refl
  free_all-nodes (suc left) i h =
      free_all-nodes left (suc i) (l.list_add i h)
      ∙ ap (indices left (suc i)) (l.nodes-list_add i h)

  pub cleared-entries : nodes (cleared l).entry_list ≡ []
  unfolding cleared
  cleared-entries = l.nodes-list_head

  pub cleared-free : nodes (cleared l).free_list ≡ 9 ∷ 8 ∷ 7 ∷ 6 ∷ 5 ∷ 4 ∷ 3 ∷ 2 ∷ 1 ∷ 0 ∷ []
  unfolding cleared
  cleared-free = free_all-nodes 10 0 l.list_head ∙ ap (indices 10 0) l.nodes-list_head

  cleared-num_entry : (cleared l).num_entry ≡ 0
  unfolding cleared
  cleared-num_entry = refl

  pub cleared-IsValid : IsValid l (cleared l)
  cleared-IsValid = record {
    places = λ q. rw (cleared-entries, cleared-free) (ground arith);
    total = rw (cleared-entries, cleared-free) refl;
    counted = rw (cleared-entries) cleared-num_entry;
    unique = rw (cleared-entries) tt;
  }

  -- After `init_kifs_entry_set` and any calls of `create_kifs_entry` and `remove_kifs_entry`, each of
  -- the ten elements is in exactly one of the two lists, once, `num_entry` is the number of entries,
  -- and no two entries have the same name.
  pub entries_consistent :
      (list_kifs clipboard_read clipboard_write : ℕ) (calls : List Call)
      → IsValid l (run_calls calls (init_kifs_entry_set l list_kifs clipboard_read clipboard_write))
  unfolding init_kifs_entry_set
  entries_consistent list_kifs clipboard_read clipboard_write calls =
      run_calls-IsValid calls _
        (create_kifs_entry_lem l _ (some clipboard_read) (some clipboard_write) 0 _
          (create_kifs_entry_lem l _ (some list_kifs) none 0 (cleared l) cleared-IsValid).1).1

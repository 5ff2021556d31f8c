-- ===== src/Modlist/Values.antt =====
-- The list as a list of integers: what each operation does to it, and to the heap.
use mathlib.Core.Path.{subst}
use dso_fifo.Prelude.{
  ℕ, ◌≡◌, refl, sym, ap, ◌∙◌, ◌⊎◌, inl, inr, Bool, true, Option, Option-cases, none, some, List, [],
  ◌∷◌, ◌++◌, ◌==◌, if◌then◌else◌, arith, ==_false, length, min,
}
use dso_fifo.Allocator.{Allocator, Absent}
use dso_fifo.KernelList.{KernelList}
use dso_fifo.Modlist.{
  Modlist, Command, add_item, remove_items, cleanup, nothing, command_of, line_of,
  sizeof_list_item_t, discard, safe_clear_list, add_item_list, remove_items_list, run_command,
  procfile_write, values_of, values,
}
use dso_fifo.Modlist.Clear.{reject, discard_lem}

-- the list without the integers equal to `n`
pub without : ℕ → List ℕ → List ℕ
without n [] = []
without n (v ∷ vs) = if v == n then without n vs else v ∷ without n vs

values_of-reject :
    (item : ℕ → ℕ) (n : ℕ) (ps : List ℕ)
    → values_of item (reject (λ p. item p == n) ps) ≡ without n (values_of item ps)
unfolding values_of reject without
values_of-reject item n [] = refl
values_of-reject item n (p ∷ ps) = ground (arith, values_of-reject item n ps)

reject-all : (ps : List ℕ) → reject (λ _. true) ps ≡ []
unfolding reject
reject-all [] = refl
reject-all (p ∷ ps) = reject-all ps

-- Writing to an address that is not in the list changes none of its integers.
values_of-fresh :
    (item : ℕ → ℕ) (p n : ℕ) (ps : List ℕ)
    → Absent p ps
    → values_of (λ q. if q == p then n else item q) ps ≡ values_of item ps
unfolding values_of
values_of-fresh item p n [] h = refl
values_of-fresh item p n (q ∷ ps) h =
    rw (==_false q p h.0) (ap (λ vs. item q ∷ vs) (values_of-fresh item p n ps h.1))

Absent-front : (p : ℕ) (ps rest : List ℕ) → Absent p (ps ++ rest) → Absent p ps
Absent-front p [] rest h = tt
Absent-front p (q ∷ ps) rest h = (h.0, Absent-front p ps rest h.1)

==_refl : (p : ℕ) → (p == p) ≡ true
==_refl p = ground arith

-- What a command does to the integers.
pub run_values : Command → List ℕ → List ℕ
run_values (add_item n) vs = n ∷ vs
run_values (remove_items n) vs = without n vs
run_values cleanup vs = []
run_values nothing vs = vs

module _ (a : Allocator) (l : KernelList) where
  open a use {owned, vmalloc}
  open l use {nodes}

  -- The blocks of the heap are those of the nodes, and the blocks `rest` of others.
  abbrev pub Owns : List ℕ → Modlist a l → Type 0
  Owns rest s = owned s.heap ≡ nodes s.mylist ++ rest

  discard-Owns :
      (chosen : ℕ → Bool) (s : Modlist a l) (rest : List ℕ)
      → Owns rest s
      → Owns rest (discard a l chosen s)
  discard-Owns chosen s rest h =
      let (left, freed) = discard_lem chosen a l s rest h in
      freed ∙ ap (λ ns. ns ++ rest) (sym left)

  item-discard : (chosen : ℕ → Bool) (s : Modlist a l) → (discard a l chosen s).item ≡ s.item
  unfolding discard
  item-discard chosen s = refl

  -- `remove_items_list` takes every item with the given integer out, keeps the others in order, and
  -- frees exactly the blocks of those that it takes out.
  pub remove_items_list_lem :
      (n : ℕ) (s : Modlist a l) (rest : List ℕ)
      → Owns rest s
      → (values a l (remove_items_list a l n s) ≡ without n (values a l s))
        × Owns rest (remove_items_list a l n s)
  unfolding remove_items_list values
  remove_items_list_lem n s rest h =
      let (left, freed) = discard_lem (λ p. s.item p == n) a l s rest h in
      (
        ap (values_of s.item) left ∙ values_of-reject s.item n (nodes s.mylist),
        discard-Owns (λ p. s.item p == n) s rest h,
      )

  -- `safe_clear_list` empties the list, and frees the blocks of all its items.
  pub safe_clear_list_lem :
      (s : Modlist a l) (rest : List ℕ)
      → Owns rest s
      → (values a l (safe_clear_list a l s) ≡ []) × (owned (safe_clear_list a l s).heap ≡ rest)
  unfolding safe_clear_list values values_of
  safe_clear_list_lem s rest h =
      let (left, freed) = discard_lem (λ _. true) a l s rest h in
      (
        ap (values_of s.item) (left ∙ reject-all (nodes s.mylist)),
        freed ∙ ap (λ ns. ns ++ rest) (reject-all (nodes s.mylist)),
      )

  -- `add_item_list` puts the integer in front, in a new block of its own: the other items stay as
  -- they are. It is a fault exactly where `vmalloc` has no memory.
  pub add_item_list_lem :
      (n : ℕ) (s : Modlist a l) (rest : List ℕ)
      → Owns rest s
      → ((vmalloc s.heap sizeof_list_item_t).0 ≡ none) × (add_item_list a l n s ≡ none)
        ⊎ (s' : Modlist a l) × (add_item_list a l n s ≡ some s')
          × (values a l s' ≡ n ∷ values a l s)
          × Owns rest s'
  unfolding add_item_list values values_of
  add_item_list_lem n s rest h = elim (Option-cases (vmalloc s.heap sizeof_list_item_t).0) [
    | inl e ↦ inl (e, rw (e, add_item_list) refl)
    | inr (p, e) ↦ inr (_, rw (e, add_item_list) refl, added p e, owns p e)
  ]
    where
      added :
          (p : ℕ)
          → (vmalloc s.heap sizeof_list_item_t).0 ≡ some p
          → values_of (λ q. if q == p then n else s.item q) (nodes (l.list_add p s.mylist))
            ≡ n ∷ values_of s.item (nodes s.mylist)
      added p e =
          ap (values_of (λ q. if q == p then n else s.item q)) (l.nodes-list_add p s.mylist)
          ∙ rw (==_refl p, values_of)
              (ap (λ vs. n ∷ vs)
                (values_of-fresh s.item p n (nodes s.mylist) (
                  Absent-front p (nodes s.mylist) rest
                    (subst (Absent p) h (a.vmalloc_fresh s.heap sizeof_list_item_t p e)))))

      owns :
          (p : ℕ)
          → (vmalloc s.heap sizeof_list_item_t).0 ≡ some p
          → owned (vmalloc s.heap sizeof_list_item_t).1 ≡ nodes (l.list_add p s.mylist) ++ rest
      owns p e =
          a.vmalloc_gives s.heap sizeof_list_item_t p e
          ∙ ap (λ ps. p ∷ ps) h
          ∙ sym (ap (λ ps. ps ++ rest) (l.nodes-list_add p s.mylist))

  -- A command that needs no memory, or that finds it, has succeeded with the integers `vs`.
  abbrev pub Ran : Command → List ℕ → Modlist a l → Option (Modlist a l) → Type 0
  Ran c rest s r =
      ((vmalloc s.heap sizeof_list_item_t).0 ≡ none) × (r ≡ none)
      ⊎ (s' : Modlist a l) × (r ≡ some s')
        × (values a l s' ≡ run_values c (values a l s))
        × Owns rest s'

  run_command_lem :
      (c : Command) (s : Modlist a l) (rest : List ℕ)
      → Owns rest s
      → Ran c rest s (run_command a l c s)
  unfolding run_command run_values safe_clear_list
  run_command_lem (add_item n) s rest h = add_item_list_lem n s rest h
  run_command_lem (remove_items n) s rest h =
      let (vs, o) = remove_items_list_lem n s rest h in inr (_, refl, vs, o)
  run_command_lem cleanup s rest h =
      let (empty, freed) = safe_clear_list_lem s rest h in
      inr (safe_clear_list a l s, refl, empty, discard-Owns (λ _. true) s rest h)
  run_command_lem nothing s rest h = inr (s, refl, refl, h)

  -- A write to /proc/modlist takes the first 24 bytes as one line, does what the line asks for to the
  -- list of integers, keeps every other block of the heap, and returns the number of bytes taken,
  -- whether it knows the command or not. It is a fault only where `vmalloc` has no memory.
  pub procfile_write_lem :
      (scan_add scan_remove : List ℕ → ℕ × ℕ) (user : List ℕ) (s : Modlist a l) (rest : List ℕ)
      → Owns rest s
      → ((vmalloc s.heap sizeof_list_item_t).0 ≡ none)
          × (procfile_write a l scan_add scan_remove user s ≡ none)
        ⊎ (s' : Modlist a l) × (procfile_write a l scan_add scan_remove user s
            ≡ some (min (length user) 24, s'))
          × (values a l s'
              ≡ run_values (command_of scan_add scan_remove (line_of user)) (values a l s))
          × Owns rest s'
  unfolding procfile_write
  procfile_write_lem scan_add scan_remove user s rest h =
      elim (run_command_lem (command_of scan_add scan_remove (line_of user)) s rest h) [
        | inl (e, fault) ↦ inl (e, rw (fault, procfile_write) refl)
        | inr (s', e, vs, o) ↦ inr (s', rw (e, procfile_write) refl, vs, o)
      ]

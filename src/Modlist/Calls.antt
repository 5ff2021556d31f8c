-- ===== src/Modlist/Calls.antt =====
-- opcional1/modlist.c and parteA/modlist.c: a write that nobody interrupts, against the steps of its
-- process.
use dso_fifo.Prelude.{
  ℕ, zero, suc, ◌≡◌, ◌⊎◌, ◌∙◌, inl, inr, refl, sym, ap, Bool, true, none, some, List, [], ◌∷◌,
  get_elem?, set, min, length, ◌==◌, if◌then◌else◌, Option-cases, eq_of_some, get_elem?-set_self,
  set-same,
}
use mathlib.Core.Path.{subst}
use dso_fifo.Allocator.{Allocator, remove, remove-cons}
use dso_fifo.KernelList.{KernelList}
use dso_fifo.Modlist.{
  values, Modlist, sizeof_list_item_t, Command, add_item, remove_items, cleanup, nothing,
  command_of, line_of, clear_nodes, unsafe_clear_list, move_nodes, discard, add_item_list,
  remove_items_list, safe_clear_list, run_command, procfile_write,
}
use dso_fifo.Modlist.Values.{Owns, run_values, procfile_write_lem}
use dso_fifo.Modlist.Shared.{Pc, outside, clearing, Move, System, pick, Run, here, next}

set-twice : {A : Type 0} (xs : List A) (i : ℕ) (v w : A) → set (set xs i v) i w ≡ set xs i w
set-twice [] i v w = refl
set-twice (x ∷ xs) zero v w = refl
set-twice (x ∷ xs) (suc i) v w = ap (λ ys. x ∷ ys) (set-twice xs i v w)

module _ (a : Allocator) (l : KernelList) where
  open a use {Heap, vmalloc}
  open l use {Head, nodes, list_head, list_add, list_del, nodes-list_del}

  abbrev at_pc : Modlist a l → List (Pc a l) → System a l
  at_pc s pcs = record { state = s; pcs = pcs }

  -- the loop of `_unsafe_clear_list`, a block a step
  clear_nodes-runs :
      {first : System a l} (ps : List ℕ) (bin : Head) (s : Modlist a l) (pcs : List (Pc a l))
      (i : ℕ)
      → nodes bin ≡ ps
      → get_elem? pcs i ≡ some (clearing bin)
      → Run a l first (at_pc s pcs)
      → Run a l first
          (at_pc (record s { heap = (clear_nodes a l ps bin s.heap).1 }) (set pcs i outside))
  unfolding clear_nodes
  clear_nodes-runs [] bin s pcs i e at r = next r (pick i at (Move.done bin e))
  clear_nodes-runs {first} (p ∷ ps) bin s pcs i e at r =
      subst
        (λ qs.
          Run a l first (at_pc (record s { heap = (clear_nodes a l (p ∷ ps) bin s.heap).1 }) qs))
        (set-twice pcs i _ outside)
        (clear_nodes-runs ps (list_del p bin) _ (set pcs i (clearing (list_del p bin))) i
          (nodes-list_del p bin ∙ ap (remove p) e ∙ remove-cons p ps) (get_elem?-set_self pcs i at)
          (next r (pick i at (Move.free bin p ps e))))

  -- A process does all the steps of a call, and is outside again.
  discard-runs :
      (picked : ℕ → Bool) (s : Modlist a l) (pcs : List (Pc a l)) (i : ℕ)
      → get_elem? pcs i ≡ some outside
      → Move a l s outside
          (record s { mylist = (move_nodes a l picked (nodes s.mylist) s.mylist list_head).0 })
          (clearing (move_nodes a l picked (nodes s.mylist) s.mylist list_head).1)
      → Run a l (at_pc s pcs) (at_pc (discard a l picked s) pcs)
  unfolding discard unsafe_clear_list
  discard-runs picked s pcs i at mv =
      subst (λ qs. Run a l (at_pc s pcs) (at_pc (discard a l picked s) qs))
        (set-twice pcs i _ outside ∙ set-same pcs i at)
        (clear_nodes-runs _ _ _ (set pcs i _) i refl (get_elem?-set_self pcs i at)
          (next here (pick i at mv)))

  abbrev added : ℕ → ℕ → Modlist a l → Modlist a l
  added n p s = record {
    mylist = list_add p s.mylist;
    item = λ q. if q == p then n else s.item q;
    heap = (vmalloc s.heap sizeof_list_item_t).1;
  }

  run_command-runs :
      (c : Command) (s : Modlist a l) (pcs : List (Pc a l)) (i : ℕ)
      → get_elem? pcs i ≡ some outside
      → ((vmalloc s.heap sizeof_list_item_t).0 ≡ none) × (run_command a l c s ≡ none)
        ⊎ (s' : Modlist a l) × (run_command a l c s ≡ some s')
          × Run a l (at_pc s pcs) (at_pc s' pcs)
  unfolding run_command add_item_list remove_items_list safe_clear_list
  run_command-runs (add_item n) s pcs i at =
      elim (Option-cases (vmalloc s.heap sizeof_list_item_t).0) [
        | inl e ↦ inl (e, rw (e, run_command, add_item_list) refl)
        | inr (p, e) ↦ inr (
          added n p s,
          rw (e, run_command, add_item_list) refl,
          subst (λ qs. Run a l (at_pc s pcs) (at_pc (added n p s) qs))
              (set-twice pcs i _ outside ∙ set-same pcs i at)
              (next (next here (pick i at (Move.make n p e)))
                (pick i (get_elem?-set_self pcs i at) (Move.link p))),
        )
      ]
  run_command-runs (remove_items n) s pcs i at =
      inr (_, refl, discard-runs (λ p. s.item p == n) s pcs i at (Move.pick_out n))
  run_command-runs cleanup s pcs i at =
      inr (_, refl, discard-runs (λ _. true) s pcs i at Move.clear)
  run_command-runs nothing s pcs i at = inr (s, refl, here)

  procfile_write-runs :
      (scan_add scan_remove : List ℕ → ℕ × ℕ) (user : List ℕ) (s : Modlist a l)
      (pcs : List (Pc a l)) (i : ℕ)
      → get_elem? pcs i ≡ some outside
      → ((vmalloc s.heap sizeof_list_item_t).0 ≡ none)
          × (procfile_write a l scan_add scan_remove user s ≡ none)
        ⊎ (s' : Modlist a l) × (procfile_write a l scan_add scan_remove user s
            ≡ some (min (length user) 24, s'))
          × Run a l (at_pc s pcs) (at_pc s' pcs)
  unfolding procfile_write
  procfile_write-runs scan_add scan_remove user s pcs i at =
      elim (run_command-runs (command_of scan_add scan_remove (line_of user)) s pcs i at) [
        | inl (full, e) ↦ inl (full, rw (e, procfile_write) refl)
        | inr (s', e, r) ↦ inr (s', rw (e, procfile_write) refl, r)
      ]

  -- A write to /proc/modlist takes the first 24 bytes as one line, does what the line asks for to the
  -- list of integers, keeps every other block of the heap, and returns the number of bytes taken,
  -- whether it knows the command or not. It is a fault only where `vmalloc` has no memory.
  -- Otherwise a process that is outside can do the same step by step, among any others, and is
  -- outside again at the end.
  pub write_is_run :
      (scan_add scan_remove : List ℕ → ℕ × ℕ) (user : List ℕ) (s : Modlist a l) (rest : List ℕ)
      (pcs : List (Pc a l)) (i : ℕ)
      → Owns a l rest s
      → get_elem? pcs i ≡ some outside
      → ((vmalloc s.heap sizeof_list_item_t).0 ≡ none)
          × (procfile_write a l scan_add scan_remove user s ≡ none)
        ⊎ (s' : Modlist a l) × (procfile_write a l scan_add scan_remove user s
            ≡ some (min (length user) 24, s'))
          × (values a l s'
              ≡ run_values (command_of scan_add scan_remove (line_of user)) (values a l s))
          × Owns a l rest s'
          × Run a l (at_pc s pcs) (at_pc s' pcs)
  write_is_run scan_add scan_remove user s rest pcs i h at =
      elim (procfile_write-runs scan_add scan_remove user s pcs i at) [
        | inl (full, e) ↦ inl (full, e)
        | inr (s', e, r) ↦ elim (procfile_write_lem a l scan_add scan_remove user s rest h) [
          | inl (full, fault) ↦ cc (e, fault)
          | inr (t, e', vs, o) ↦ inr (
            t,
            e',
            vs,
            o,
            subst (λ u. Run a l (at_pc s pcs) (at_pc u pcs))
                (ap (λ (v : ℕ × Modlist a l). v.1) (eq_of_some (sym e ∙ e'))) r,
          )
        ]
      ]

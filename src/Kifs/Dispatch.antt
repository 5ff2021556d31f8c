-- ===== src/Kifs/Dispatch.antt =====
-- The system call with the callbacks that `init_kifs_entry_set` registers: what a process gets.
use dso_fifo.Prelude.{ℕ, Bool, Option, none, some, List, ◌==◌, if◌then◌else◌, replicate}
use dso_fifo.KernelList.{KernelList}
use dso_fifo.Kifs.{
  Kifs, eperm, einval, callback, Listed, enomem, enospc, listed, overrun, list_size, list_kifs,
  clip_size, clipboard_kifs_read, clipboard_kifs_write, sys_kifs, init_kifs_entry_set,
}
use dso_fifo.Kifs.Calls.{Call, run_calls}

pub data Errno : Type 0 where
  not_permitted invalid no_space no_memory : Errno

-- An error, the bytes copied to the user, or the number of bytes taken from the user; or a write
-- outside the allocated bytes.
pub data Answer : Type 0 where
  failed : Errno → Answer
  given : List ℕ → Answer
  taken : ℕ → Answer
  fault : Answer

-- `maxchars` of a read, the bytes of a write, how `vmalloc` ends, and the bytes that a copy misses.
pub record Request : Type 0 where
  pub maxchars : ℕ
  pub user : List ℕ
  pub allocated : Bool
  pub missed : ℕ

unfoldable pub list_answer : Listed → Answer
list_answer enomem = failed no_memory
list_answer enospc = failed no_space
list_answer (listed bytes) = given bytes
list_answer overrun = fault

unfoldable pub read_answer : Option (List ℕ) → Answer
read_answer none = failed no_space
read_answer (some bytes) = given bytes

module _ (l : KernelList) where
  -- the globals of kifs.c
  pub record Kernel : Type 0 where
    pub kifs : Kifs l
    pub clipboard : List ℕ

  unfoldable pub write_answer : Option (ℕ × List ℕ) → Kernel → Answer × Kernel
  write_answer none s = (failed no_space, s)
  write_answer (some (n, clipboard)) s = (taken n, record s { clipboard = clipboard })

  -- The addresses of the three callbacks, and what the callbacks of other code do.
  module _ (list_at read_at write_at : ℕ) (other : ℕ → ℕ → Request → Kernel → Answer × Kernel) where
    unfoldable pub run_callback : ℕ → ℕ → Request → Kernel → Answer × Kernel
    run_callback f data_ptr req s =
        if f == list_at
        then (
          list_answer
              (list_kifs l (list_size l req.maxchars s.kifs) req.missed req.allocated s.kifs),
          s,
        )
        else if f == read_at
        then (read_answer (clipboard_kifs_read req.maxchars req.missed s.clipboard), s)
        else if f == write_at
        then write_answer (clipboard_kifs_write req.user req.missed s.clipboard) s
        else other f data_ptr req s

    -- `sys_kifs` to its end
    unfoldable pub system_call : List ℕ → ℕ → Request → Kernel → Answer × Kernel
    unfolding run_callback
    system_call entry_name op_mode req s = elim (sys_kifs l entry_name op_mode s.kifs) [
      | eperm ↦ (failed not_permitted, s)
      | einval ↦ (failed invalid, s)
      | callback f data_ptr ↦ run_callback f data_ptr req s
    ]

  -- the globals after `init_kifs_entry_set`
  unfoldable pub start : ℕ → ℕ → ℕ → Kernel
  start list_at read_at write_at = record {
    kifs = init_kifs_entry_set l list_at read_at write_at;
    clipboard = replicate clip_size 0;
  }

  -- calls of other code in between
  unfoldable pub after_calls : List Call → Kernel → Kernel
  after_calls calls s = record s { kifs = run_calls l calls s.kifs }

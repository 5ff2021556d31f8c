-- ===== src/DumpUtmp/Ends.antt =====
-- How the transfer of the entries ends.
use dso_fifo.Prelude.{
  ℕ, ◌+◌, ◌*◌, true, false, ◌≡◌, ◌≢◌, Bool, Option, none, some, List, [], ◌∷◌, length,
}
use dso_fifo.DumpUtmp.{Library}
use dso_fifo.DumpUtmp.Transfer.{Channel, System, Step}

-- 1 for a process that runs
abbrev running : Option ℕ → ℕ
running none = 1
running (some status) = 0

abbrev awake_now : Bool → ℕ
awake_now true = 0
awake_now false = 1

-- the bytes that are to be written, and two steps for each entry
unfoldable pub to_write : List (List ℕ) → ℕ
to_write [] = 0
to_write (e ∷ es) = length e + 2 + to_write es

abbrev to_do : System → ℕ
to_do s =
    to_write s.left + length s.pipe + 2 * running s.sender + running s.receiver + awake_now s.asleep

module _ (lib : Library) (ch : Channel) where
  open lib use {size}

  -- Where a transfer can stand: it goes on, one of the two has failed, both have ended and the
  -- receiver has printed `all`, or the sender has ended and the receiver, which has printed `all`,
  -- sleeps until its `read` fails.
  pub data Outcome (all : List ℕ) (s : System) : Type 0 where
    goes_on : (u : System) → Step lib ch s u → Outcome all s
    send_failed : (status : ℕ) → s.sender ≡ some status → status ≢ 0 → Outcome all s
    receive_failed : (status : ℕ) → s.receiver ≡ some status → status ≢ 0 → Outcome all s
    delivered : s.sender ≡ some 0 → s.receiver ≡ some 0 → s.output ≡ all → Outcome all s
    stranded :
        ch.closing_wakes ≡ false
        → s.sender ≡ some 0
        → s.asleep ≡ true
        → s.output ≡ all
        → ((u : System) → Step lib ch s u → u.receiver ≡ some 1)
        → Outcome all s

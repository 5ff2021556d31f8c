-- ===== src/DumpUtmp/Transfer.antt =====
-- The FIFO between the sender and the receiver of dump_utmp.c, as both find it after their `open`: the
-- bytes come out in the order in which they went in, a `write` of a `struct utmp` goes in whole or
-- fails, and waits where there is no room for it, and a `read` of an empty FIFO waits while the
-- write end is open. PATH_FIFO is a FIFO of the kernel, or the device of parteB/fifo.c, and these differ
-- in what becomes of a receiver that sleeps when the write end is closed.
use dso_fifo.Prelude.{
  ℕ, suc, ◌+◌, ◌<◌, ◌≤◌, ◌≡◌, ◌≢◌, Bool, true, false, if◌then◌else◌, Option, none, some, List, [],
  ◌∷◌, ◌++◌, length, take, drop, lt_int, min, word,
}
use dso_fifo.DumpUtmp.{Library, ReadTurn, prints, exits, header, send_turn, receive_turn}

-- The bytes that the FIFO has room for, and whether closing the write end wakes a receiver that sleeps
-- in its `read`: a FIFO of the kernel does, parteB/fifo.c does not.
pub record Channel : Type 0 where
  pub capacity : ℕ
  pub closing_wakes : Bool

-- The entries not yet written, what the receiver has printed, and the exit status of each of the two,
-- none while it runs. The write end is closed when the sender has ended. `asleep` says whether the
-- receiver sleeps in its `read`.
pub record System : Type 0 where
  pub left : List (List ℕ)
  pub pipe : List ℕ
  pub output : List ℕ
  pub sender : Option ℕ
  pub receiver : Option ℕ
  pub asleep : Bool

unfoldable pub after : ReadTurn → System → System
after (prints line) s = record s { output = s.output ++ line }
after (exits status) s = record s { receiver = some status }

-- a sender that ends, and with it the write end
abbrev pub close_write_end : Channel → Option ℕ → System → System
close_write_end ch status s = record s {
  sender = status;
  asleep = if ch.closing_wakes then false else s.asleep;
}

module _ (lib : Library) (ch : Channel) where
  open lib use {size}

  -- both at their loops, with the header printed
  abbrev pub start : Bool → List (List ℕ) → System
  start incluye_cabecera entries = record {
    left = entries;
    pipe = [];
    output = header incluye_cabecera;
    sender = none;
    receiver = none;
    asleep = false;
  }

  pub data Step (s : System) : System → Type 0 where
    write :
        (e : List ℕ) (es : List (List ℕ))
        → s.sender ≡ none
        → s.receiver ≡ none
        → s.left ≡ e ∷ es
        → length s.pipe + size ≤ ch.capacity
        → Step s (record s {
          left = es;
          pipe = s.pipe ++ e;
          sender = send_turn lib size;
          asleep = false;
        })
    write_fails :
        (bytes : ℕ)
        → s.sender ≡ none
        → s.left ≢ []
        → lt_int bytes 0 ≡ true
        → Step s (close_write_end ch (send_turn lib bytes) s)
    send_end : s.sender ≡ none → s.left ≡ [] → Step s (close_write_end ch (some 0) s)
    sleep :
        s.receiver ≡ none
        → s.asleep ≡ false
        → s.sender ≡ none
        → s.pipe ≡ []
        → Step s (record s { asleep = true })
    read :
        {t : ReadTurn}
        → s.receiver ≡ none
        → s.asleep ≡ false
        → 0 < length s.pipe
        → receive_turn lib (min size (length s.pipe)) (take size s.pipe) ≡ some t
        → Step s (after t (record s { pipe = drop size s.pipe }))
    read_end :
        {t : ReadTurn} (status : ℕ)
        → s.receiver ≡ none
        → s.asleep ≡ false
        → s.sender ≡ some status
        → s.pipe ≡ []
        → receive_turn lib 0 [] ≡ some t
        → Step s (after t s)
    read_fails :
        {t : ReadTurn} (bytes : ℕ)
        → s.receiver ≡ none
        → lt_int bytes 0 ≡ true
        → bytes < word
        → receive_turn lib bytes [] ≡ some t
        → Step s (after t s)

  pub data Run (s : System) : System → Type 0 where
    here : Run s s
    next : {u v : System} → Run s u → Step u v → Run s v

  unfoldable pub steps : {s u : System} → Run s u → ℕ
  steps here = 0
  steps (next r st) = suc (steps r)

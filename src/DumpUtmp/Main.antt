-- ===== src/DumpUtmp/Main.antt =====
-- The options of dump_utmp.c and what they ask for.
use dso_fifo.Prelude.{
  ℕ, Bool, true, false, Option, none, some, List, [], ◌∷◌, ◌==◌, if◌then◌else◌, ◌⊎◌, inl, inr,
}

-- What the options of `main` ask for: its globals and the local `receive`, and what it does then.
pub record Options : Type 0 where
  pub receive : Bool
  pub incluye_cabecera : Bool
  pub just_print : Bool

pub data Action : Type 0 where
  uso : ℕ → Action  -- with its exit status
  receives : Options → Action
  sends : Options → Option (List ℕ) → Action  -- the named file, or none for UTMP_FILE

-- the `switch` over an option; `uso` ends the program with a status
unfoldable pub set_option : ℕ → Options → Options ⊎ ℕ
set_option optc o =
    if optc == b'H'
    then inl (record o { incluye_cabecera = true })
    else if optc == b'h'
    then inr 0
    else if optc == b'r'
    then inl (record o { receive = true })
    else if optc == b's'
    then inl (record o { receive = false })
    else if optc == b'p'
    then inl (record o { just_print = true })
    else inr 1

-- the loop over the options that `getopt` gives
unfoldable pub options : Options → List ℕ → Options ⊎ ℕ
options o [] = inl o
options o (optc ∷ more) = elim (set_option optc o) [
  | inl o' ↦ options o' more
  | inr status ↦ inr status
]

-- `args` is what is left of `argv` behind the options.
unfoldable pub run_options : Options → List (List ℕ) → Action
run_options o args = if o.receive then receives o else elim args [
  | [] ↦ sends o none
  | file ∷ more ↦ elim more [ [] ↦ sends o (some file) | second ∷ others ↦ uso 1 ]
]

abbrev pub no_options : Options
no_options = record { receive = false; incluye_cabecera = false; just_print = false }

unfoldable pub main : List ℕ → List (List ℕ) → Action
main opts args = elim (options no_options opts) [
  | inr status ↦ uso status
  | inl o ↦ run_options o args
]

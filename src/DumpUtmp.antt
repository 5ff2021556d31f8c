-- ===== src/DumpUtmp.antt =====
-- FicherosP3/Ejemplos/DumpUTMP/dump_utmp.c: the entries of a utmp file as lines of text, and a sender
-- and a receiver that pass them through a FIFO. `none` is a fault where nothing else is said.
pub mod Main
pub mod Turns
pub mod Transfer
pub mod Delivery
pub mod Ends
use Prim.Native.Char.{code}
use Prim.Native.String.{String}
use dso_fifo.DumpUtmp.Main.{Options}
use dso_fifo.Prelude.{
  ℕ, zero, suc, ◌+◌, ◌-◌, ◌/◌, ◌%◌, ◌<◌, Bool, true, false, Option, none, some, List, [], ◌∷◌, ◌++◌,
  ltb, ◌==◌, if◌then◌else◌, ◌>>=◌, ◌&&◌, ◌⊎◌, inl, inr, length, take, drop, get_elem?, lt_int, not,
  word, sign,
}

-- the bytes of an ASCII literal
abbrev pub codes : String → List ℕ
codes String.[] = []
codes (String.◌∷◌ c s) = code c ∷ codes s

-- the values of `ut_type` that the code names, or another one
pub data UtType : Type 0 where
  unknown run_lvl boot_time new_time old_time init_process : UtType
  login_process user_process dead_process accounting other : UtType

-- What the code uses of utmp.h and of the C library. An entry is the bytes of its `struct utmp`; a
-- character array of it is the bytes of the entry from there on. `decimal` is "%i" of an `int`.
pub record Library : Type 0 where
  pub size : ℕ
  pub ut_type : List ℕ → UtType
  pub ut_time : List ℕ → ℕ
  pub ut_user : List ℕ → List ℕ
  pub ut_line : List ℕ → List ℕ
  pub ut_id : List ℕ → List ℕ
  pub ut_host : List ℕ → List ℕ
  pub e_termination : List ℕ → ℕ
  pub e_exit : List ℕ → ℕ
  pub ctime : ℕ → Option (List ℕ)
  pub decimal : ℕ → List ℕ
  pub size_fits : (0 < size) × (size < sign)

-- the characters before the NUL
unfoldable pub c_string : List ℕ → Option (List ℕ)
c_string [] = none
c_string (c ∷ s) = let rest = c_string s in if c == 0 then some [] else rest >>= λ r. some (c ∷ r)

unfoldable pub utmptype2str : UtType → List ℕ
utmptype2str unknown = codes "UT_UNKNOWN"
utmptype2str run_lvl = codes "RUN_LVL"
utmptype2str boot_time = codes "BOOT_TIME"
utmptype2str new_time = codes "NEW_TIME"
utmptype2str old_time = codes "OLD_TIME"
utmptype2str init_process = codes "INIT_PROCESS"
utmptype2str login_process = codes "LOGIN_PROCESS"
utmptype2str user_process = codes "USER_PROCESS"
utmptype2str dead_process = codes "DEAD_PROCESS"
utmptype2str accounting = codes "ACCOUNTING"
utmptype2str other = codes "OTHER"

-- The number of characters of `strtime`.
abbrev pub strtime_size : ℕ
strtime_size = 100

abbrev first_line : List ℕ
first_line = codes "TIPO\t\tNOMBRE\t\tLINEA\tTIEMPO\t\t\t\tID.\tHOST\tSALIDA\n"

abbrev second_line : List ℕ
second_line =
    codes
      "-----------------------------------------------------------------------------------------\n"

unfoldable pub print_header : List ℕ
print_header = first_line ++ second_line

unfoldable pub print_entry :
    List ℕ → List ℕ → List ℕ → List ℕ → List ℕ → List ℕ → List ℕ → Option (List ℕ)
print_entry type usuario linea strtiempo idlinea host str_salida = do
  u ← c_string usuario
  l ← c_string linea
  i ← get_elem? idlinea 0
  j ← get_elem? idlinea 1
  h ← c_string host
  some (
      codes "("
      ++ (type
          ++ (codes ")\t"
              ++ (u
                  ++ (codes "\t\t"
                      ++ (l
                          ++ (codes "\t"
                              ++ (strtiempo
                                  ++ (codes "\t"
                                      ++ (i
                                          ∷ j
                                          ∷ (codes "\t"
                                              ++ (h
                                                  ++ (codes "\t"
                                                      ++ (str_salida ++ codes "\n"))))))))))))))

-- how `opendir` ends
pub data Opendir : Type 0 where
  is_directory not_directory other_error : Opendir

-- none is `exit(-1)`, here and in `real_path`
unfoldable pub isdir_path : Opendir → Option Bool
isdir_path is_directory = some true
isdir_path not_directory = some false
isdir_path other_error = none

-- the file that `utmp_send` reads
unfoldable pub real_path : Opendir → List ℕ → Option (List ℕ)
real_path dir fichero = do
  is_dir ← isdir_path dir
  some (if is_dir then fichero ++ codes "/utmp" else fichero)

-- the first `n` blocks of `size` bytes
unfoldable pub blocks : ℕ → ℕ → List ℕ → List (List ℕ)
blocks size zero bytes = []
blocks size (suc n) bytes = take size bytes ∷ blocks size n (drop size bytes)

-- What a turn of the loop of `utmp_receive` does: a line is printed, or the loop ends, with the exit
-- status of the program.
pub data ReadTurn : Type 0 where
  prints : List ℕ → ReadTurn
  exits : ℕ → ReadTurn

unfoldable pub header : Bool → List ℕ
header incluye_cabecera = if incluye_cabecera then print_header else []

-- What `utmp_send` comes to: an exit status, a text on the screen, or entries for its loop.
pub data Sending : Type 0 where
  ended : ℕ → Sending
  printed : List ℕ → Sending
  transfers : List (List ℕ) → Sending

module _ (lib : Library) where
  open lib use {size, ctime, decimal}

  -- The bytes of the file, or none where `open` fails; the success of `fstat`, `malloc` and `fread`.
  -- The result is none for `exit(-1)`.
  unfoldable pub read_utmp : Option (List ℕ) → Bool → Bool → Bool → Option (List (List ℕ))
  read_utmp file stat memory read = do
    bytes ← file
    if stat && (memory && read) then some (blocks size (length bytes % word / size) bytes) else none

  -- a copy to `strtime` and the cut of the new line, a fault where the one does not fit or the
  -- other is not there
  unfoldable pub string_tiempo : List ℕ → Option (List ℕ)
  string_tiempo utmp_ent = do
    text ← ctime (lib.ut_time utmp_ent)
    if ltb 0 (length text) && ltb (length text) strtime_size
        then some (take (length text - 1) text)
        else none

  unfoldable pub exit_text : List ℕ → List ℕ
  exit_text e =
      codes "("
      ++ (decimal (lib.e_termination e) ++ (codes "," ++ (decimal (lib.e_exit e) ++ codes ")")))

  -- the body of the loops over the entries
  unfoldable pub entry_line : List ℕ → Option (List ℕ)
  entry_line e = do
    strtime ← string_tiempo e
    print_entry (utmptype2str (lib.ut_type e)) (lib.ut_user e) (lib.ut_line e) strtime (lib.ut_id e)
        (lib.ut_host e) (exit_text e)

  unfoldable pub entry_lines : List (List ℕ) → Option (List ℕ)
  entry_lines [] = some []
  entry_lines (e ∷ es) = do line ← entry_line e; rest ← entry_lines es; some (line ++ rest)

  unfoldable pub print_utmp_entries : Bool → List (List ℕ) → Option (List ℕ)
  print_utmp_entries incluye_cabecera entries = do
    lines ← entry_lines entries
    some (header incluye_cabecera ++ lines)

  -- After a `write` with the result `bytes`, a 32-bit pattern: the exit status, or none to go on.
  unfoldable pub send_turn : ℕ → Option ℕ
  send_turn bytes =
      if lt_int 0 bytes && not (bytes == size)
      then some 1
      else if lt_int bytes 0
      then some 1
      else none

  -- After a `read` with the result `bytes`.
  unfoldable pub receive_turn : ℕ → List ℕ → Option ReadTurn
  receive_turn bytes received =
      if bytes == size
      then (entry_line received >>= λ line. some (prints line))
      else if lt_int 0 bytes
      then some (exits 1)
      else if lt_int bytes 0
      then some (exits 1)
      else some (exits 0)

  -- `utmp_send` up to its loop; `opendir` and `file` are the file system, and `fifo` is the success
  -- of opening the FIFO. The status 255 is that of `exit(-1)`.
  unfoldable pub utmp_send :
      Options
      → (List ℕ → Opendir)
      → (List ℕ → Option (List ℕ))
      → Bool
      → Bool
      → Bool
      → Bool
      → List ℕ
      → Option Sending
  utmp_send o opendir file stat memory read fifo fichero =
      elim (real_path (opendir fichero) fichero) [
        | none ↦ some (ended 255)
        | some path ↦ elim (read_utmp (file path) stat memory read) [
          | none ↦ some (ended 255)
          | some entries ↦
              if o.just_print
              then (print_utmp_entries o.incluye_cabecera entries >>= λ text. some (printed text))
              else if fifo
              then some (transfers entries)
              else some (ended 1)
        ]
      ]

-- ===== src/Tests/Entries.antt =====
-- One entry that goes through the FIFO of dump_utmp.c.
use dso_fifo.Prelude.{ℕ, ◌≡◌, refl, true, false, none, some, [], ◌∷◌, List, arith, drop}
use dso_fifo.DumpUtmp.{
  Library, user_process, codes, entry_line, string_tiempo, exit_text, print_entry, c_string,
  utmptype2str, header, send_turn, receive_turn,
}
use dso_fifo.DumpUtmp.Main.{sends, uso, main, run_options, options, set_option}
use dso_fifo.DumpUtmp.Transfer.{Channel, System, after, start, Step, Run, here, next, steps}

-- a C library with entries of four bytes, a name of one letter and an identifier
abbrev library : Library
library = record {
  size = 4;
  ut_type = λ e. user_process;
  ut_time = λ e. 0;
  ut_user = λ e. e;
  ut_line = λ e. e;
  ut_id = λ e. drop 2 e;
  ut_host = λ e. e;
  e_termination = λ e. 0;
  e_exit = λ e. 0;
  ctime = λ t. some (codes "noon\n");
  decimal = λ n. codes "0";
  size_fits = (omega arith, omega arith);
}

abbrev one_entry : List (List ℕ)
one_entry = (b'a' ∷ 0 ∷ b'i' ∷ b'j' ∷ []) ∷ []

abbrev one_line : List ℕ
one_line = codes "(USER_PROCESS)\ta\t\ta\tnoon\tij\ta\t(0,0)\n"

-- a FIFO of the kernel, and the device of parteB/fifo.c with its 512 bytes
abbrev kernel_fifo : Channel
kernel_fifo = record { capacity = 65536; closing_wakes = true }

abbrev device_fifo : Channel
device_fifo = record { capacity = 512; closing_wakes = false }

-- both at their ends after six steps: the receiver sleeps first, and again before the end
both_ended : System
both_ended = record {
  left = [];
  pipe = [];
  output = one_line;
  sender = some 0;
  receiver = some 0;
  asleep = false;
}

whole_run : Run library kernel_fifo (start library kernel_fifo false one_entry) both_ended
unfolding both_ended entry_line string_tiempo exit_text print_entry c_string utmptype2str header
    send_turn receive_turn after
whole_run =
    next
      (next
        (next
          (next
            (next (next here (Step.sleep refl refl refl refl))
              (Step.write (b'a' ∷ 0 ∷ b'i' ∷ b'j' ∷ []) [] refl refl refl (omega arith)))
            (Step.read refl refl (omega arith) refl))
          (Step.sleep refl refl refl refl))
        (Step.send_end refl refl))
      (Step.read_end 0 refl refl refl refl refl)

whole_run_length : steps library kernel_fifo whole_run ≡ 6
unfolding whole_run steps
whole_run_length = refl

-- The same through the device: the receiver has printed the entry, and sleeps on.
left_asleep : System
left_asleep = record {
  left = [];
  pipe = [];
  output = one_line;
  sender = some 0;
  receiver = none;
  asleep = true;
}

-- -r is taken back by -s, and a second file is refused.
main_test :
    (main (b'r' ∷ b'p' ∷ b's' ∷ []) ((b'f' ∷ []) ∷ [])
      ≡ sends
          (record { receive = false; incluye_cabecera = false; just_print = true })
          (some (b'f' ∷ [])))
    × (main [] ([] ∷ [] ∷ []) ≡ uso 1)
unfolding main run_options options set_option
main_test = (refl, refl)

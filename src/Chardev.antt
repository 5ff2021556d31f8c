-- ===== src/Chardev.antt =====
-- FicherosP3/Ejemplos/Chardev/chardev.c: a device that one process at a time opens, and whose message
-- says how often it was opened.
pub mod Message
pub mod Race
use dso_fifo.Prelude.{
  ℕ, zero, suc, ◌+◌, Bool, true, false, Option, none, some, List, [], ◌∷◌, ◌++◌, ltb, ◌==◌,
  if◌then◌else◌, ◌>>=◌, length, drop, get_elem?, add32, sub32, lt_int, not,
}

abbrev pub buf_len : ℕ
buf_len = 80

-- What the code uses of the kernel and the C library: "%d" of a 32-bit pattern, and the use count of
-- the module with its two functions, of which `try_module_get` may fail unseen.
pub record Kernel : Type 1 where
  pub Uses : Type 0
  pub try_module_get : Uses → Uses
  pub module_put : Uses → Uses
  pub decimal : ℕ → List ℕ

pub data Errno : Type 0 where
  ebusy eperm : Errno

pub data Reply : Type 0 where
  success : Reply
  error : Errno → Reply

-- The text before the number and the text behind it.
abbrev pub told_you : List ℕ
told_you =
    b'I' ∷ b' ' ∷ b'a' ∷ b'l' ∷ b'r' ∷ b'e' ∷ b'a' ∷ b'd' ∷ b'y' ∷ b' ' ∷ b't' ∷ b'o' ∷ b'l' ∷ b'd'
    ∷ b' ' ∷ b'y' ∷ b'o' ∷ b'u' ∷ b' ' ∷ []

abbrev pub times_hello : List ℕ
times_hello =
    b' ' ∷ b't' ∷ b'i' ∷ b'm' ∷ b'e' ∷ b's' ∷ b' ' ∷ b'H' ∷ b'e' ∷ b'l' ∷ b'l' ∷ b'o' ∷ b' ' ∷ b'w'
    ∷ b'o' ∷ b'r' ∷ b'l' ∷ b'd' ∷ b'!' ∷ 10 ∷ []

-- `while (length && *msg_Ptr)`: the bytes that go to the user, and the pointer after the loop; a fault
-- behind the end of `msg`.
unfoldable pub read_loop : List ℕ → ℕ → ℕ → Option (List ℕ × ℕ)
read_loop msg i zero = some ([], i)
read_loop msg i (suc len) =
    let rest = read_loop msg (i + 1) len in
    elim (get_elem? msg i) [
      | none ↦ none
      | some c ↦ if c == 0 then some ([], i) else rest >>= λ r. some (c ∷ r.0, r.1)
    ]

-- `major` is the result of `register_chrdev`, a 32-bit pattern: a negative one is returned, and 0
-- after a success. The other part says whether the device is registered.
unfoldable pub init_module : ℕ → ℕ × Bool
init_module major = if lt_int major 0 then (major, false) else (0, true)

unfoldable pub cleanup_module : Bool → Bool
cleanup_module registered = false

module _ (k : Kernel) where
  open k use {Uses, try_module_get, module_put, decimal}

  -- The globals: `Device_Open` and the static `counter` of `device_open` as 32-bit patterns, the
  -- bytes of `msg`, the offset of `msg_Ptr` in it, or none for NULL, and the use count.
  pub record Chardev : Type 0 where
    pub device_opens : ℕ
    pub counter : ℕ
    pub msg : List ℕ
    pub msg_ptr : Option ℕ
    pub uses : Uses

  abbrev pub message : ℕ → List ℕ
  message n = told_you ++ (decimal n ++ times_hello)

  -- `sprintf(msg, …, counter++); msg_Ptr = msg;`, a fault where the text and its NUL do not fit
  unfoldable pub print_message : Chardev → Option Chardev
  print_message d =
      if ltb (length (message d.counter)) buf_len
      then some (record d {
        msg = message d.counter ++ 0 ∷ drop (length (message d.counter) + 1) d.msg;
        counter = add32 d.counter 1;
        msg_ptr = some 0;
      })
      else none

  -- behind the test of `device_open`
  unfoldable pub device_enter : Chardev → Option (Reply × Chardev)
  device_enter d = do
    d' ← print_message (record d { device_opens = add32 d.device_opens 1 })
    some (success, record d' { uses = try_module_get d'.uses })

  unfoldable pub device_open : Chardev → Option (Reply × Chardev)
  unfolding device_enter
  device_open d = if not (d.device_opens == 0) then some (error ebusy, d) else device_enter d

  unfoldable pub device_release : Chardev → Reply × Chardev
  device_release d =
      (success, record d { device_opens = sub32 d.device_opens 1; uses = module_put d.uses })

  -- The bytes given to the user, whose number is the result.
  unfoldable pub device_read : ℕ → Chardev → Option (List ℕ × Chardev)
  device_read len d = do
    i ← d.msg_ptr
    c ← get_elem? d.msg i
    r ← if c == 0 then some ([], i) else read_loop d.msg i len
    some (r.0, record d { msg_ptr = some r.1 })

  unfoldable pub device_write : List ℕ → Chardev → Reply × Chardev
  device_write user d = (error eperm, d)

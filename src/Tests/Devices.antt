-- ===== src/Tests/Devices.antt =====
-- The message of chardev.c at its first opening, and the theorem about it.
use dso_fifo.Prelude.{
  ℕ, ◌+◌, ◌≡◌, refl, some, none, get_elem?, [], ◌∷◌, arith, take, add32, replicate,
}
use dso_fifo.Chardev.{Kernel, Chardev, success, error, ebusy, message, device_open, device_release}
use dso_fifo.Chardev.Message.{reads, sum, reads_give_message}
use dso_fifo.Chardev.Race.{without, holding, System, Run, two_openers}

-- a kernel that counts the uses, and a `%d` that knows one digit
abbrev kernel : Kernel
kernel = record {
  Uses = ℕ;
  try_module_get = λ n. n + 1;
  module_put = λ n. n;
  decimal = λ n. (48 + n) ∷ [];
}

abbrev closed : Chardev kernel
closed = record { device_opens = 0; counter = 0; msg = replicate 80 0; msg_ptr = none; uses = 0 }

reads_give_message_example :
    (d' e : Chardev kernel) × (device_open kernel closed ≡ some (success, d'))
    × (reads kernel (7 ∷ 100 ∷ []) d' ≡ some (take (sum (7 ∷ 100 ∷ [])) (message kernel 0), e))
    × (device_open kernel e ≡ some (error ebusy, e))
    × ((device_release kernel e).1.device_opens ≡ 0)
    × ((device_release kernel e).1.counter ≡ add32 0 1)
reads_give_message_example =
    reads_give_message kernel closed (7 ∷ 100 ∷ []) (omega arith) (omega arith) refl

abbrev two_without : System kernel
two_without = record { state = closed; pcs = without ∷ without ∷ [] }

two_openers_example :
    (u : System kernel) × Run kernel two_without u
    × (get_elem? u.pcs 0 ≡ some holding)
    × (get_elem? u.pcs 1 ≡ some holding)
    × (u.state.device_opens ≡ 2)
two_openers_example =
    two_openers two_without 0 1 (omega arith) refl refl refl (omega arith) (omega arith)

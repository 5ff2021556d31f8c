-- ===== src/Cbuffer/Valid.antt =====
-- The representation invariant of `cbuffer_t`.
use dso_fifo.Prelude.{◌≤◌, ◌<◌, ◌≡◌, sign, length}
use dso_fifo.Cbuffer.{Cbuffer}

-- `head` may equal `max_size`: `remove_items_cbuffer_t` leaves it there. The bulk operations need
-- no more than this.
pub record IsValid (b : Cbuffer) : Type 0 where
  pub storage : length b.bytes ≡ b.max_size
  pub nonempty : 0 < b.max_size
  pub small : b.max_size < sign
  pub head_in : b.head ≤ b.max_size
  pub size_in : b.size ≤ b.max_size

-- The invariant that the comment of the header states, with the head inside the bytes.
pub record IsStrict (b : Cbuffer) : Type 0 where
  pub valid : IsValid b
  pub head_lt : b.head < b.max_size

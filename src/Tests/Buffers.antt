-- ===== src/Tests/Buffers.antt =====
-- parteB/cbuffer.c at concrete buffers.
use dso_fifo.Prelude.{
  false, ◌≡◌, refl, none, some, [], ◌∷◌, ◌++◌, ◌>>=◌, arith, take, drop, replicate,
}
use dso_fifo.Tests.Arena.{Arena, above, take_block, arena}
use dso_fifo.Cbuffer.{
  Cbuffer, splice, insert_cbuffer_t, insert_items_cbuffer_t, insert_first, insert_second,
  insert_update, remove_items_cbuffer_t, remove_first, remove_second,
}
use dso_fifo.Cbuffer.Valid.{IsValid}
use dso_fifo.Cbuffer.Window.{contents, window}
use dso_fifo.Cbuffer.Insert.{keep_last, insert_items_lem}
use dso_fifo.Cbuffer.Remove.{remove_items_lem, head_after}
use dso_fifo.Cbuffer.Single.{bulk_then_insert_faults}
use dso_fifo.Cbuffer.Refine.{put, get, run, queue_run, run_refines}
use dso_fifo.Fifo.Device.{
  Loading, init_module, init_buffer, cleanup_module, init_module_lem, cleanup-init,
}
use dso_fifo.Cbuffer.Alloc.{Handle, create_data, create_cbuffer_t}

-- 8 and 9, round the end of three bytes
abbrev wrapped : Cbuffer
wrapped = record { bytes = 9 ∷ 7 ∷ 8 ∷ []; head = 2; size = 2; max_size = 3 }

contents-wrapped : contents wrapped ≡ 8 ∷ 9 ∷ []
unfolding contents window
contents-wrapped = refl

insert_overwrites :
    insert_items_cbuffer_t wrapped (4 ∷ 5 ∷ []) 2
    ≡ some (record { bytes = 9 ∷ 4 ∷ 5 ∷ []; head = 0; size = 3; max_size = 3 })
unfolding insert_items_cbuffer_t insert_first insert_second insert_update splice
insert_overwrites = refl

remove_goes_round :
    remove_items_cbuffer_t wrapped 2
    ≡ some (8 ∷ 9 ∷ [], record { bytes = 9 ∷ 7 ∷ 8 ∷ []; head = 1; size = 0; max_size = 3 })
unfolding remove_items_cbuffer_t remove_first remove_second
remove_goes_round = refl

-- The head is left behind the last byte.
remove_to_end :
    remove_items_cbuffer_t wrapped 1
    ≡ some (8 ∷ [], record { bytes = 9 ∷ 7 ∷ 8 ∷ []; head = 3; size = 1; max_size = 3 })
unfolding remove_items_cbuffer_t remove_first remove_second
remove_to_end = refl

run_refines_example :
    (b' : Cbuffer) × (run wrapped (put (1 ∷ []) ∷ get 3 ∷ [])
      ≡ some ((queue_run 3 (contents wrapped) (put (1 ∷ []) ∷ get 3 ∷ [])).0, b'))
    × IsValid b'
    × (contents b' ≡ (queue_run 3 (contents wrapped) (put (1 ∷ []) ∷ get 3 ∷ [])).1)
run_refines_example = run_refines wrapped (put (1 ∷ []) ∷ get 3 ∷ []) (omega arith)

insert_items_example :
    (b' : Cbuffer) × (insert_items_cbuffer_t wrapped (4 ∷ 5 ∷ []) 2 ≡ some b')
    × IsValid b'
    × (b'.max_size ≡ 3)
    × (contents b' ≡ keep_last 3 (contents wrapped ++ 4 ∷ 5 ∷ []))
insert_items_example =
    insert_items_lem wrapped (4 ∷ 5 ∷ []) 2 (omega arith) (omega arith) (omega arith)

remove_items_example :
    (b' : Cbuffer) × (remove_items_cbuffer_t wrapped 2 ≡ some (take 2 (contents wrapped), b'))
    × IsValid b'
    × (b'.max_size ≡ 3)
    × (b'.head ≡ head_after wrapped 2)
    × (contents b' ≡ drop 2 (contents wrapped))
remove_items_example = remove_items_lem wrapped 2 (omega arith) (omega arith)

bulk_then_insert_faults_example :
    (remove_items_cbuffer_t wrapped 1 >>= λ r.
    insert_items_cbuffer_t r.1 (1 ∷ 2 ∷ []) 2 >>= λ full. insert_cbuffer_t full 3)
    ≡ none
bulk_then_insert_faults_example =
    bulk_then_insert_faults wrapped 1 (1 ∷ 2 ∷ []) 3 (omega arith) (omega arith) refl refl

abbrev two_blocks : Arena
two_blocks = record { room = 2; taken = []; newest = 0 }

-- There is memory for the record and not for the bytes.
abbrev one_block : Arena
one_block = record { room = 1; taken = []; newest = 0 }

leak : (create_cbuffer_t arena one_block 3).1.taken ≡ 1 ∷ []
unfolding create_cbuffer_t create_data take_block above
leak = refl

-- The module loads where the registration gives a number and there are two blocks.
init_module_example : Loading arena 250 two_blocks (init_module arena 250 two_blocks)
init_module_example = init_module_lem arena 250 two_blocks

-- The buffer that it gets.
abbrev device_buffer : Handle
device_buffer = record {
  self = 1;
  data_ptr = 2;
  buffer = record { bytes = replicate 512 0; head = 0; size = 0; max_size = 512 };
}

cleanup-init_example :
    let d = cleanup_module arena (init_module arena 250 two_blocks).1 device_buffer in
    (d.registered ≡ false) × (d.heap.taken ≡ [])
unfolding init_module init_buffer create_cbuffer_t create_data take_block above
cleanup-init_example = cleanup-init arena 250 two_blocks device_buffer refl refl

-- ===== src/Lib.antt =====
-- Verification of dso-fifo: circular buffers, a FIFO character device, and other modules of the
-- Linux kernel.
--
-- The parts of the program, and the files that model them:
--
--   parteB/cbuffer.c, parteB/cbuffer.h   Cbuffer.antt and its children. `cbuffer_t` is the record
--     `Cbuffer`, and each function has its name here. `Cbuffer/Valid` has the invariant,
--     `Cbuffer/Window` the abstract view `contents` (the bytes held, oldest first), `Cbuffer/Written`
--     and `Cbuffer/Insert` are about `insert_items_cbuffer_t`, `Cbuffer/Remove` about
--     `remove_items_cbuffer_t`, `Cbuffer/Single` about the calls on one byte, `Cbuffer/Refine` about
--     sequences of calls, `Cbuffer/Alloc` about `create_cbuffer_t` and `destroy_cbuffer_t`.
--     FicherosP3/cbuffer.c is the same text.
--   parteB/fifo.c   Fifo.antt and its children. The globals are the record `Fifo`. What a call does
--     between two semaphore operations, with the mutex held, is one function: `fifo_open`,
--     `fifo_read`, `fifo_write` and `fifo_release` from where the mutex is first taken, `open_test`
--     and `write_test` from the loop test where a call goes on after `cond_wait` (`fifo_read` makes
--     the same tests again there, so it serves twice), `read_entry` and `write_entry` before the
--     mutex. `Fifo/Moves` is the step relation of one process, `Fifo/System` that of any number of
--     processes in any order; signals may interrupt every `down_interruptible`. `Fifo/Wake` has the
--     wake-up loops, `Fifo/Balance` what each step keeps in balance, `Fifo/Safety` the invariant,
--     `Fifo/Calls` the branches of reads and writes, `Fifo/Pipe` and `Fifo/History` the bytes,
--     `Fifo/Progress` the absence of faults, `Fifo/Races` two behaviours that the header of fifo.c
--     does not expect, `Fifo/Device` `init_module` and `cleanup_module`.
--   opcional1/modlist.c, parteA/modlist.c   Modlist.antt and its children. The two are one text but for
--     the kind of lock. The list is a head of the linked lists with the integer at each address
--     (`Modlist`). Modlist.antt has each call as a whole: `Modlist/Clear` is about moving items to a
--     local list and freeing them, `Modlist/Values` about the write handler, `Modlist/Proc` about the
--     read handler, `Modlist/Streq` about `streq`. `Modlist/Shared` has the calls that change the list
--     in the hands of any number of processes, each section under the lock as one step, and
--     `Modlist/Calls` a write as a run of these steps.
--     `Modlist/Sections` has the sections node by node: readers that follow the links and print,
--     writers that add an item or move items to a local list, and the lock as the interface
--     `SectionLock`, which a read-write lock (opcional1) and a spin lock (parteA) meet. Of its
--     children, `Walk` and `Loops` are about the loops, `Apart` about who is behind the lock,
--     `Matching`, `Steps` and `Simulation` about a run of `Sections` against one of `Shared`; `Atomic`,
--     `Accounts` and `Ends` have what follows. `sscanf` and `snprintf` are parameters, and
--     `copy_from_user` is taken to copy everything.
--   opcional2/kernel/kifs.c, opcional2/include/linux/kifs.h   Kifs.antt and its children. The elements
--     of `entry_buff` are their indices, and the two lists hold indices (`Kifs`); each section under
--     the lock is one step. `find` is the loop over the entries that stops at a name. `Kifs/Names` is
--     about names of at most 50 characters, `Kifs/Slots` about the places of the elements,
--     `Kifs/Entries` about single calls, `Kifs/Calls` about sequences of calls, `Kifs/Kept` about an
--     entry that stays while others come and go, `Kifs/Stale` about calls between the search of
--     `sys_kifs` and its answer, `Kifs/Clipboard` about the clipboard, `Kifs/Listing` about
--     `list_kifs`, whose `vmalloc` finds memory or not. A callback is its address; `Kifs/Dispatch` is
--     the system call with the three callbacks of kifs.c, those of other code being a parameter, and
--     `Kifs/Sessions` is about what a process gets. A C string ends at its first NUL or at the end of
--     its list.
--   FicherosP3/Ejemplos/ProdCons1/cbuffer.c, cbuffer.h   ItemBuffer.antt and its children: the circular
--     buffer of pointers, an item being its address. ProdCons2 has the same text.
--     `ItemBuffer/Single` has the abstract view `queued` and takes the theorems over from `Cbuffer`,
--     `ItemBuffer/Alloc` is about creating and destroying.
--   FicherosP3/Ejemplos/ProdCons1/prodcons1.c   ProdCons1.antt and its children. The globals, the
--     integers behind the items and the heap are the record `ProdCons`. What a call does between two
--     semaphore operations is one function; `ProdCons1/Moves` is the step relation of one process and
--     of any number of them, where a signal may interrupt every `down_interruptible`.
--     `ProdCons1/Balance` has what each step keeps in balance, `ProdCons1/Safety` the invariant,
--     `ProdCons1/Memory` and `ProdCons1/Ownership` who owns the items, `ProdCons1/Effects` and
--     `ProdCons1/Values` the integers, `ProdCons1/Module` loading and unloading. `sscanf` is a parameter.
--   FicherosP3/Ejemplos/ProdCons2/prodcons2.c   ProdCons2.antt and its children, in the same way.
--     `ProdCons2/Wakeups` and `ProdCons2/Sleepers` are about processes that sleep. The parameter
--     `patient` says whether a signal may come between the wake-up of a process and its turn.
--   FicherosP3/Ejemplos/Chardev/chardev.c   Chardev.antt, with `Chardev/Message` about the readers, one
--     call being one step, and `Chardev/Race` about any number of processes, where the test of
--     `device_open` and what follows it are two steps. "%d" and the use count of the module are the
--     interface `Kernel`.
--   FicherosP3/Ejemplos/DumpUTMP/dump_utmp.c   DumpUtmp.antt and its children. An entry is the bytes of
--     its `struct utmp`; utmp.h and the C library are the interface `Library`. `DumpUtmp/Main` has the
--     options, `DumpUtmp/Turns` the branches after a `write` and a `read`. `DumpUtmp/Transfer` is
--     the step relation of the loops of `utmp_send` and `utmp_receive` with the FIFO between them, which
--     has a capacity, and may or may not wake a receiver asleep when the sender closes (`Channel`):
--     /var/tmp/fifo is a FIFO of the kernel, or the device of parteB/fifo.c, which does not.
--     `DumpUtmp/Delivery` and `DumpUtmp/Ends` are about it. `getopt` gives the list of options.
--   KernelList.antt is the interface of linux/list.h; Allocator.antt is that of `vmalloc` and `vfree`;
--     Prelude.antt has the shared helpers;
--     Tests.antt has runs at concrete inputs and an instance of each result that has hypotheses.
--
-- How C is read. An `unsigned int` or `int` is a number below 2 ^ 32 with its wrap-around written
-- out; `int`s are compared with the sign bit flipped. `size_t` has 32 bits, as on the 32-bit x86 of
-- the sources. A `char` is any number, since bytes are only moved. An access outside the allocated
-- bytes and a division by zero are the result `none`. A semaphore is its count: `down` waits for a
-- token and takes it, `up` adds one. This allows more interleavings than the first-come order of the
-- kernel. The number of processes is a parameter; the bounds 2 ^ 31 and 2 ^ 32 on it are those of the
-- `int` counters. One open file makes one call at a time. No definition takes fuel: the wake-up loop
-- recurs on its counter, the loops over lists and strings on the list or on the length that bounds
-- them, and the loops that sleep are cut into steps at the sleep.
--
-- What is not modelled: calls of other processes while a callback of kifs.c runs, or in the middle of
-- a call of chardev.c but for the test of `device_open`; the texts that dump_utmp.c prints on errors and
-- for its use; the signal with which the kernel stops a sender whose receiver has ended; the order in
-- which the two come through `open`; the debug output; the scheduler of
-- opcional2/kernel, which is a copy of the kernel's, and its tables and build files.
pub mod Prelude
pub mod Allocator
pub mod KernelList
pub mod Cbuffer
pub mod Fifo
pub mod Modlist
pub mod Kifs
pub mod ItemBuffer
pub mod ProdCons1
pub mod ProdCons2
pub mod Chardev
pub mod DumpUtmp
pub mod Tests

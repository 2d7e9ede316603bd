-- ===== src/Lib.antt =====
-- NRE, the user-level runtime environment of the NOVA microhypervisor: how a program manages its
-- resources and its children, with its printing and its devices.
--
-- Root and every parent of a subsystem manage memory, ports and capability selectors for their
-- children; the services use the same library for their timers and for the data they share with
-- their clients. The parts modelled, each in a module of its own with child modules for its proofs:
--
-- - Math (nre/include/util/Math.h): rounding, ranges, powers of two and scaled division, which all
--   other parts call.
-- - Date (nre/include/util/Date.h): the seconds since 1970 of a date, and the date of the seconds.
-- - QuickSort (nre/include/collection/QuickSort.h): the sorting of an array.
-- - Dma (nre/include/util/DMA.h): the pieces of a dataspace that a transfer of a storage device takes or fills.
-- - Region (nre/include/region/RegionManager.h): the list of free regions behind the physical
--   memory, the virtual memory and the ports. `free` is the scan for neighbours (`scan`) and the
--   update (`merge`); `alloc_at` is the loop `alloc_at_loop`, with the restart of its iterator.
-- - Port (nre/include/region/PortManager.h): the ports of root and of each child, on a Region list.
-- - Treap (nre/include/collection/Treap.h): the search tree of the dataspace and of other managers.
-- - TimeoutList (nre/include/util/TimeoutList.h): the queue of timeouts of the timer service and of the
--   virtual machines: one array of entries that are linked both ways and sorted.
-- - Ring (nre/include/ipc/Producer.h, nre/include/ipc/Consumer.h): the ring buffer in shared memory
--   between a service and its client.
-- - Child (nre/include/subsystem/ChildMemory.h, with nre/include/mem/DataSpaceDesc.h and
--   nre/include/collection/SortedSList.h): the address space of a child.
-- - Spaces (nre/include/mem/DataSpaceManager.h): the reference counts of the dataspaces that a parent
--   holds for its children, on the Treap.
-- - CapSel (nre/include/cap/CapSelSpace.h): the selectors of a program's capabilities.
-- - Stream (nre/libs/libstdc++/stream/OStream.cc, nre/include/util/Digits.h): `writef` and the
--   printing of numbers, pointers and texts; what prints floating point numbers is a parameter. Stream/Input
--   (nre/include/stream/IStream.h and IStringStream.h) is the reading of numbers from a text.
-- - Keyboard (nre/services/keyboard/HostKeyboard.cc, nre/include/services/Keyboard.h,
--   nre/include/services/Mouse.h): the driver that makes packets of the bytes of the keyboard and the
--   mouse, which it sends to its clients through a ring buffer.
-- - Pic (nre/apps/vancouver/model/pic8259.cc): the interrupt controller that the virtual machine
--   monitor emulates, with its ports in Pic/Ports.
-- - Registry (nre/include/subsystem/ServiceRegistry.h): the services that the children of a program
--   register, and what nre/include/subsystem/ChildManager.h does with them.
-- - Arguments (`prepare_stack` of nre/libs/libstdc++/subsystem/ChildManager.cc): the command line of a
--   child, cut into the words that its `main` gets.
-- - Bits (nre/include/bits/BitField.h, nre/include/bits/MaskField.h): fields of bits, and of masks of
--   four bits, in 64-bit words; Child has a list of masks in place of the words.
-- - Utcb (nre/include/utcb/UtcbBase.h, UtcbHead.h, UtcbCopy.h and UtcbFrame.h, nre/include/Desc.h): the
--   page through which threads send messages, the frames that are saved on it, and what is put into a
--   frame and taken out of it; a page is a function from the index of a word to the word.
-- - Subsystem (nre/libs/libstdc++/subsystem/ChildManager.cc and Child.cc, nre/include/subsystem/Child.h):
--   what a parent does for a child, on Child, Spaces, Port and Registry: page faults (Faults, with
--   `limit_to` of nre/libs/libstdc++/cap/CapRange.cc), memory (Dataspaces), interrupts and ports
--   (Devices), the slots of the children with their portals (Slots), and the segments of the program that
--   a child is loaded from (Segments).
-- - Base: the helpers they share, among them machine words (`add64`, `sub64`) and lists.
--
-- Machine words are natural numbers with the wrap-around written out: `size_t` and `uintptr_t` have
-- 64 bits, as on x86_64, and `unsigned` and `capsel_t` have 32. A pointer into an array or an intrusive
-- list is an index; a tree of linked nodes is a tree. An exception is `none` or a constructor of the
-- function's outcome type.
--
-- Loops that the source bounds by a list or a tree recurse on it. Nine run on fuel:
-- `alloc_at_loop`, for which more fuel than regions is enough where no region is removed before
-- the loop ends, and `seek` of the timeout list, for which more fuel than queued entries is
-- enough, since the head's timeout is the greatest there is; `print_digits`, for which 64 digits
-- are enough for a 64-bit number in any base; `vwritef_from`, for which more fuel than the format
-- has characters is enough; `remove_from` of the registry, for which more fuel than services is
-- enough; `range_crds`, for which as many rounds as selectors are enough; `skip_from` of
-- Stream/Input, for which as many rounds as characters in front of a number are enough;
-- `sort_range`, for which as many nested calls as items are enough; and `limit_from`, whose fuel
-- is the number of rounds that the source allows itself. The loops of the interrupt controller
-- make eight rounds.
--
-- Not modelled: the kernel objects and their system calls, semaphores and spin locks (each
-- operation is one step, but for the ring buffer, whose steps interleave), the allocation of
-- memory for the objects, logging, the commands that the keyboard's driver sends to its devices,
-- the rest of what is done when a child is loaded, the portals that start and stop its threads,
-- the variant of the message page with a stack, which is not built, and the other programs built
-- on the library.
pub mod Base
pub mod Math
pub mod Date
pub mod QuickSort
pub mod Dma
pub mod Region
pub mod Treap
pub mod TimeoutList
pub mod Port
pub mod Ring
pub mod Child
pub mod CapSel
pub mod Spaces
pub mod Stream
pub mod Keyboard
pub mod Pic
pub mod Registry
pub mod Arguments
pub mod Bits
pub mod Utcb
pub mod Subsystem

-- ===== src/Lib.antt =====
-- A model of the parts of clean_os that keep its memory and its threads: bitmaps, the page
-- allocators and page tables built on them, the packet buffers of its network stack, its ARP
-- cache and Internet protocol, its lists and queues, the scheduler, the file system FAT16, and the
-- strings and dates of its library.
--
-- Parts, and the files that model them:
--   Base: tests, lists over native numbers, and laws of bit operations that the parts share.
--   Bitmap: common/lib/bitmap.c. `Bitmap` is `bitmap_t`; each function keeps its name without
--     the prefix `bitmap_`. The result -1 is `none`.
--   Paging: kernel/memory/paging.c, with the accessors of common/cpu/mmu.h and `find_pte` of
--     common/cpu/mem_page.c. `Memory` is the static data of paging.c and the words of physical
--     memory that hold page directories and tables; every function takes the `Memory` it starts
--     from and returns the one it leaves. Paging/Alloc has one allocator, Paging/Memory the
--     allocators by zone, Paging/Table the walks and the mappings, Paging/Process what the
--     kernel calls.
--   Pktbuf: kernel/net/pktbuf.c with pktbuf.h, and the lists of kernel/net/nlist.c and
--     kernel/net/mblock.c that it uses. `Pool` is `block_buffer` with the free lists, `Buf` is
--     `pktbuf_t`. Pktbuf/Content says which bytes a packet holds; the other files with theorems
--     say what the operations do to these bytes.
--   BlockQueue: common/lib/block_queue.c. `Queue` is `block_queue`; the function pointers are
--     arguments.
--   Segment, Fixq: kernel/thread/schedule/segment.c and kernel/net/fixq.c. `Segment` is
--     `segment_t` with the ids of the threads that wait, `Fixq` is `fixq_t`. A call runs until
--     it returns or its thread blocks.
--   Thread: kernel/thread/thread.c, with the searches of kernel/thread/process.c. `Sched` is the
--     lists of threads and the thread whose stack the processor is on; `change_status` is
--     `_set_thread_status` up to its call of `schedule`. Thread/Inv says what a valid state is,
--     Thread/Reach has the calls as steps, Thread/Search the searches, Thread/Files the table of
--     open files.
--   DateTime: `mktime64` and `mkdatetime` of common/tool/datetime.h.
--   Links: common/lib/list.c on a store of pointers. Links/Refine says which sequence of nodes
--     a list holds.
--   Arp: kernel/net/arp.c. `Arp` is its static data with what has been sent, freed and asked;
--     `Ether` is what the Ethernet layer below returns. Arp/Cache says what holds of the cache.
--   Ip: kernel/net/ip.c with ip.h. Ip/Header has the header and its bytes, Ip/Fragment the entries
--     for fragments (`Frags` is `frag_list` with the free blocks of `frag_mblock`), Ip/Input
--     `ipv4_in`, Ip/Output the routes and `ipv4_out`. A packet is its bytes. Ip/Pieces says how
--     a packet is cut, Ip/Train and Ip/Order how its fragments are put together, Ip/Arrivals and
--     Ip/Served what packets that come in leave.
--   Fat: kernel/fs/fat16fs.c. `Fat` is the disk with the sector buffer of `bpb_t`, `Bpb` the
--     sizes in it. Fat/Disk has the buffer and the directory entries, Fat/Names the names,
--     Fat/Table the clusters, Fat/File reads, writes and seeks.
--   Strings: common/lib/string.c on a byte memory, with the powers of common/tool/math.h.
--     Strings/Text says which string stands at an address; Strings/Edit overwrites, Strings/Token
--     takes words, Strings/Number converts numbers.
--
-- How they interact: the allocators of Paging scan and set the bits of Bitmap, one bit a page,
-- and the page table walks allocate page tables from them. Fixq waits and wakes through Segment,
-- and takes its error codes from Pktbuf. Thread keeps its lists as sequences of threads, which is
-- what Links shows of lists of nodes that are in one list each. Arp takes its
-- error codes from Pktbuf and names packets by numbers. Ip takes
-- the checksum and the error codes from Pktbuf, and works on the bytes of a packet, which is what
-- Pktbuf shows of the chain of blocks. Fat rounds sizes up by `up2` of Paging. BlockQueue, DateTime
-- and Strings stand alone.
--
-- Conventions. A machine word is a natural number with its wrap-around written as `% 2 ^ 32`;
-- counts and sizes that the source keeps in an `int` are not negative where the callers' are not.
-- Memory behind a pointer is a function of the offset, so that reads past an array's end have a
-- meaning. A linked list of packet blocks is the list of their indices in order. A fault, that is
-- a null block followed or a place behind the data of its block, is `none`.
--
-- `frag_alloc` of ip.c ends without a `return`. The model answers what the code compiled with the flags
-- of CMakeLists.txt, `-O0` among them, leaves in the register: the new entry where a block was free,
-- and a null pointer where none was. What is said of packets that come in rests on that.
--
-- Loops and fuel. Loops over a count recurse on it. `alloc_loop` of Pktbuf/Chain recurses on the
-- size asked for: each round takes at least one byte off it. The loops of `wait_while` in
-- BlockQueue count the calls of the wait function; `none` is a thread that still waits. The loops
-- of reads, writes and seeks recurse on `rounds`, the bytes asked for plus the blocks of the
-- packet plus one: each round moves a byte or leaves a block. That these rounds suffice is part
-- of what is proved of reads and seeks, whose results are never `none`. `skip_full` recurses on the bytes
-- of the bitmap and `first_clear` on the eight bits of a byte. A loop of Strings that runs up to a zero
-- byte takes fuel, more than the string has bytes; the theorems give it. `index` and `list_find` of
-- Links look at one node more than the list has. The loop over the years of `mkdatetime` takes at most
-- four rounds. `ipv4_frag_out` of Ip takes a round for each byte at most, and this is shown to be enough.
-- The loops of Fat over a size take a round for each byte; those along a chain of clusters take fuel,
-- since a chain may be a circle.
--
-- Not modelled: the set-up of paging from linker symbols and the boot page table, register and
-- port access, assembly; the locks around the packet pools; preemption inside a call; the stacks,
-- page directories and pids of threads and what happens at their end; formatted printing; ext2,
-- the opening and closing of files, drivers, the console, the protocols above
-- the Internet protocol, sockets, and the applications.
pub mod Arp
pub mod Base
pub mod Bitmap
pub mod BlockQueue
pub mod DateTime
pub mod Fat
pub mod Fixq
pub mod Ip
pub mod Links
pub mod Paging
pub mod Pktbuf
pub mod Segment
pub mod Strings
pub mod Thread

-- ===== src/Lib.antt =====
-- A model of rkt-io, a runtime that runs Linux programs inside an SGX enclave, with user-level
-- threads and its own memory management.
--
-- Parts and files (paths from the repository's root):
--
-- - Mem: src/sgx/enclave_mem.c, the page allocator of the enclave's heap. Mem/Layout is the arithmetic
--   between addresses and page indices, Mem/Search the two loops over the page bitmap, Mem/Alloc the
--   operations (enclave_mman_init, enclave_mmap, enclave_munmap, enclave_mremap) and Mem/Syscalls the
--   system calls that choose between the heap and the host. A record holds the file's static
--   variables; an operation takes and returns it. The bitmap routines of src/include/bitops.h, a
--   copy of a BSD header, are the interface Mem/Bitops: their documented effect on bits, for sizes
--   that fit an int. Mem/BoolMap meets it. size_t and pointer arithmetic wraps at 2^64. The loops run
--   on fuel, the size of the map for the search and the size of the region for the count; a theorem
--   for each says that this is enough. The operations are modelled as they run with mmaplock held.
--   Mem/Syscalls/Mmap is syscall_SYS_mmap with the flags test; its loop over read runs on fuel, and more
--   fuel than the length is enough where read meets no error. Left out: mprotect, and the tracing of
--   debug builds.
-- - Futex: src/sched/futex.c, the futex system call. Futex is the queue with wake, requeue and the
--   timeout tick, Futex/Syscall the waiting side and the dispatch, Futex/System any sequence of
--   calls and ticks. Threads are numbers; the queue of the scheduler is the list of threads that were
--   handed to it. Times, the word read at the address and the answer of the trylock are arguments.
--   A call that goes to sleep ends at its yield; what it returns later is a function of its own.
--
-- - Lthread: src/sched/lthread.c, user-level threads. Lthread/State holds the structs, Lthread/Sched the
--   scheduler's resume and the calls that change state bits, Lthread/Free what is given back, Lthread/Join
--   joining, Lthread/Keys thread-specific data. A thread's own code between two switches is an argument.
--   The calls run one after the other; a lock bit that is set is the outcome `spins`, a freed struct that
--   is used the outcome `dangling`. Lthread/Create is lthread_create, with the answers of calloc, mmap and libc
--   as an argument; Lthread/Run is lthread_run, joined to the resume and to futex_tick: it has no end, and
--   run_turns is what it does in a list of turns of its inner loop, each with what it meets. The queues are
--   lists there. Left out: _lthread_resume_expired, the machine switch with the stack and TLS registers,
--   arenas, names and cores of threads, the stdio locks of libc, and the counter schedqueuelen.
--
-- - Mpmc: src/shared/mpmc_queue.c, the bounded queue behind the scheduler. As a sequential object: Mpmc/Fifo
--   says what it means that a queue holds a list; loops run on fuel, and more fuel than there are spurious
--   failures of the weak compare-and-exchange is enough. With any number of threads: Mpmc/System has a step
--   for each access to shared memory, in any order, for calls of mpmc_enqueue and mpmc_dequeue; Pc says
--   where in the code a thread stands. The invariant is in Mpmc/System/Order and Inv, the thread that holds
--   each place in Somebody; Writes, Frees, Claims, Exchanges, Looks, Kept and Held are about one access each;
--   Solo and SoloOut are about a call that no other thread interrupts. Bound: fewer
--   than 2^63 values are put in, so that no position wraps. Memory is sequentially consistent: what the
--   acquire, release and relaxed orders allow beyond it is left out.
--
-- - TicketLock: src/include/ticketlock.h, the lock of the futex queue, as a step relation: the steps of
--   all threads in any order, with fewer than 2^32 threads at the lock at a time, which is what the 32-bit
--   numbers allow.
--
-- - WireGuard: src/wireguard/wireguard_util.c, the peers of the enclave's WireGuard device. The C library
--   and the WireGuard library are an argument (Host). Fuel: two more than the bytes of the allowed
--   addresses, and 12 calls of the resolver. Allocation does not fail. Left out: wgu_list_devices.
--
-- - Disk: the block devices. Disk/Plain is src/lkl/disk.c, requests on a file, Disk/Memory is
--   src/lkl/disk_mem.c, requests on a disk that is mapped into memory. What the host's calls answer is an
--   argument; the loop over the calls for one buffer runs on fuel, and more fuel than the bytes of the
--   buffer is enough.
--
-- - Util: src/shared/sgxlkl_util.c, numbers, flags and bytes from strings. The C library's strtoull,
--   strtoul and getenv are arguments.
--
-- - Json: src/shared/json_util.c, the walk over the entries of a JSON object, with json-c's parser as an
--   argument. What json-c leaves undefined is an outcome of its own. Json/File reads the text from a file,
--   on fuel; one more than the bytes of the file is enough. Where its int offset overflows, at 2^31
--   bytes, that too is an outcome of its own.
--
-- - AppConfig: src/sgx/sgxlkl_app_config.c, the application's configuration. AppConfig/Entry and
--   AppConfig/Read are the callbacks and the whole, AppConfig/Sound what every entry keeps,
--   AppConfig/Written how a configuration is written as JSON. Memory does not run out.
--
-- - Launcher: src/main/sgxlkl_config.c, the launcher's options. The table is an argument; Launcher/Walk
--   follows one option through a configuration, Launcher/Priority says where its value comes from.
--
-- - Affinity: parse_cpu_affinity_params of src/main/sgxlkl_run.c, with strtol as an argument. The loop runs
--   on fuel, and more fuel than the string has bytes is enough.
--
-- - Virtio: src/lkl/virtio_queue.c, the gathering of the requests on a virtio queue. The loop over descriptors
--   needs no fuel; that over requests has fuel, since the device says how far it goes. Left out: the
--   locking of queues, and virtio_set_avail_event, which is not called.
--
-- The other parts are not modelled: the rest of the start-up on the host, enclave creation and signing, attestation, network and storage glue.
pub mod Common
pub mod Mem
pub mod Futex
pub mod Lthread
pub mod Mpmc
pub mod TicketLock
pub mod WireGuard
pub mod Disk
pub mod Util
pub mod Json
pub mod AppConfig
pub mod Launcher
pub mod Affinity
pub mod Virtio

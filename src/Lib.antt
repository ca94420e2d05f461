-- ===== src/Lib.antt =====
-- KarteOS: parts of the kernel in kernel/src, with theorems on what they do.
--
-- The kernel is a set of modules over global tables behind locks. A function here takes the state
-- that the lock guards and returns the new one, with what the source returns; `none` or `false` is
-- an `Err` or a `None`. A `usize` or `u64` is a natural number whose sums and products are reduced
-- modulo 2 ^ 64, as in a release build; outside the scheduler, waking a task is part of a result.
--
-- Base          helpers: lists, rings, words, bits, bytes, integers, sorted maps, byte strings, user
--               memory as a function from addresses.
-- Mm.Bitmap     the bitmap words of kernel/src/mm/pmm.rs: one bit for each frame.
-- Mm.Pmm        kernel/src/mm/pmm.rs, `FrameAllocator`: new, alloc, alloc_contiguous, dealloc,
--               is_ram_frame, debug_stats. Children: Alloc, Contiguous, Dealloc, Layout.
-- Mm.Vma        kernel/src/mm/vma.rs, the regions of one address space: vma_check, vma_query,
--               vma_overlaps, vma_add, vma_remove_range, vma_update_prot and others. Children:
--               Coverage, Split, Query, Check; Reserve has reserve_mmap_addr.
-- Mm.VmaRegistry  the registry VM_STATES of the same file: a list of slots, one for each address
--               space, through which system calls reach Mm.Vma. Child: Map.
-- Driver.Pipe   kernel/src/driver/pipe.rs, `Pipe`: read, write, close_read, close_write. Children:
--               Ring, Stream.
-- Driver.PipeTable  PIPE_TABLE and PIPE_REFS of the same file: slots of pipes and the counts of
--               their open descriptors. Children: Counts, Slots, Duplicate.
-- Driver.FdTable  kernel/src/driver/fs.rs, `FdTable`: the descriptors of one process and the files
--               in memory behind some of them. Children: Places, Content.
-- Driver.RecordLocks  the byte-range locks of the same file, fcntl_lock_op. Children: Sharing,
--               Query, Encoding.
-- Sched.Class   kernel/src/sched/class.rs: scheduling classes, the priorities that they push with.
-- Sched.ReadyQueue  kernel/src/sched/ready_queue.rs: 32 levels and a bitmap. Children: Bitmap,
--               Order, Removal, Starvation, Counts.
-- Sched.Core    kernel/src/sched/mod.rs and task.rs: State (the table of tasks, processes to slots),
--               Switching (schedule, schedule_block, schedule_exit, wake_task and others), Tasks
--               (the sleep queue, new tasks, classes).
-- Sched.Invariant  the scheduler as a system of steps. Children: Table, Consistent, Turns, Waking,
--               Slots, Spawning, Reach.
-- Sched.Sleep   sleep_until and tick_sleep_queue together. Child: Effects.
-- Sync.Blocking  kernel/src/sync/mutex.rs, `BlockingMutex`: one step for each access to a cell.
--               Children: Safety, Wakeups.
-- Sync.Swap     kernel/src/sync/spinlock.rs and `YieldMutex` of mutex.rs. Child: Serial.
-- Sync.Interrupts  kernel/src/sync/int_spinlock.rs: the interrupt flag across nested guards.
-- Syscall.Epoll  kernel/src/syscall/epoll/mod.rs: instances, waiters, one look at the descriptors;
--               Calls has epoll_ctl and epoll_wait. Children: Events, Control, Waiters,
--               Wakeups.
-- Fabric.Arbiter  kernel/src/arbiter.rs: the election of a leading brain. Children: Votes, Lease.
-- Fabric.Drt    kernel/src/drt.rs: the device registry table. Children: Table, Timeouts.
-- Fabric.Tokens kernel/src/capauth.rs: capability tokens and signed manifests. Children: Ids, Gates.
-- Syscall.Eventfd  kernel/src/syscall/epoll/eventfd.rs: event counters. Child: Flow.
-- Ipc.TokenPipe  kernel/src/tokpipe.rs: the ring of tokens. Children: Ring, Stream, View.
-- Ipc.KernelLog  kernel/src/kernel_log.rs: the log ring and the levels. Child: Stream.
-- Messaging.Mqtt  kernel/src/mqtt.rs: packets of MQTT 3.1.1. Children: Length, RoundTrip.
-- Storage.RamFs  kernel/src/driver/ramfs.rs: the file system in memory, its operations by inode.
--               Children: Shape, Lookup, Names, Tree, Rooted (the tree), Runs, Content, Reading, and Paths
--               (operations by path, the global file system) with Creating and RoundTrip.
-- Tests         runs at concrete inputs.
--
-- Fuel: the `loop` of reserve_mmap_addr takes one round for each region descriptor and one more.
-- A round that goes on passes a region for good, where regions end within user space. The `loop` of
-- encode_remaining_len takes ten rounds, enough for 64 bits: encode_loop_enough in
-- Messaging.Mqtt.Length. All other loops are structural.
--
-- Not modelled: the locks around each operation, outside Sync. An operation is one step from start to
-- end, also where the source lets go of a lock on the way, as fcntl_lock_op does between
-- find_conflict and add_lock; for the scheduler, Sched.Invariant.Reach and Sched.Sleep have the parts
-- between which the timer may run as steps. epoll_wait is cut where its task sleeps: a look at the
-- descriptors and the sleep after it are one step, and one reading of the clock stands for both that
-- lie between two sleeps. Also not modelled: the
-- order in which a processor's memory accesses become visible, console output, the switch of
-- registers and page tables, hardware, the drivers, the file systems on disks, the network, and the
-- system calls that reach these parts. The linker symbol `_ekernel`, the memory size, the clock and
-- whether a `try_lock` succeeds are arguments.
pub mod Base
pub mod Mm
pub mod Driver
pub mod Storage
pub mod Sched
pub mod Fabric
pub mod Sync
pub mod Syscall
pub mod Ipc
pub mod Messaging
pub mod Tests

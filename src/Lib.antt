-- ===== src/Lib.antt =====
-- xv6 for RISC-V with a mirrored disk, access modes and symbolic links: a model of the kernel and
-- what holds of it.
--
-- The parts, from the bottom up:
--   Prelude    shared names, lists, `Outcome` (a routine returns, panics or sleeps), integers
--   Param      kernel/param.h and kernel/fs.h: the sizes
--   Words      32-bit words in the bytes of a block, as pointers into `b->data` read and write them
--   Virtio     kernel/virtio_disk.c: the descriptors and the chain of `virtio_disk_rw`;
--              Virtio/Descriptors, Virtio/Request prove
--   Bio        kernel/bio.c: `bget`, `bread`, `bwrite`, `brelse`, `bpin`, `bunpin` on the buffers,
--              the LRU list, the disk and the hooks `force_read_error_pbn` and `force_disk_fail_id`
--              (kernel/proc.c); Bio/Raid, Bio/Race, Bio/Steps prove
--   Log        kernel/log.c: every function, over Bio; Log/Head, Log/HeadBlock, Log/Reserve and
--              Log/Faults prove, and on a crash in `commit` Log/Good, Log/Store, Log/Pins, Log/Rounds, Log/Stages, Log/Idle,
--              Log/InstallRuns, Log/IdleRounds, Log/RecoverRuns, Log/Recover, Log/CrashStates and
--              Log/Crash, where a crash falls between two transfers, those
--              of one `bwrite` to the two disks too
--   Proc       kernel/proc.c: the process table with fork, exit, wait, sleep, wakeup, kill, yield and the
--              scheduler; Proc/Loops, Proc/Family, Proc/Exit, Proc/Quiet, Proc/Calls, Proc/Steps and
--              Proc/Kill prove
--   Files      kernel/file.c with the descriptors of kernel/sysfile.c and the loops of `fork` and `exit`;
--              Files/Count, Files/Counts, Files/Fork, Files/Exit prove
--   Fs         kernel/fs.c: `balloc`, `bfree`, `bzero`; Fs/Content has the inode on disk, `ialloc`,
--              `iupdate`, `bmap`, `itrunc` and `stati`, Fs/ReadWrite `readi` and `writei`, and
--              Fs/Trans the blocks that `writei` adds to the log; Fs/Bits,
--              Fs/Bitmap, Fs/StoreCore, Fs/Dinode, Fs/Layout, Fs/Extend, Fs/Room, Fs/Gets,
--              Fs/Bmap, Fs/LogRoom, Fs/LogRound, Fs/ByteAt, Fs/Write, Fs/Writei and Fs/Read
--              prove
--   FileIo     kernel/file.c: `fileread`, `filewrite`, `filestat`, over Pipe and Fs; FileIo/Pieces,
--              FileIo/Transfer and FileIo/Fault prove; FileIo/User is
--              `either_copyin` of kernel/proc.c, over Vm
--   Dir        kernel/fs.c: `dirlookup` and `dirlink`, and `isdirempty` of kernel/sysfile.c, over `readi`
--              and `writei` of Fs; Dir/Entries, Dir/Lookup, Dir/Slot, Dir/Link, Dir/RoundTrip and
--              Dir/Empty prove
--   Inode      kernel/fs.c: `iget`, `idup`, `ilock`, `iunlock`, `iput`; Inode/Path has `skipelem`,
--              `dirlookup`, `namex`, `namei`; Inode/Elements, Inode/Cache, Inode/Leaks, Inode/Lookups prove
--   Open       `sys_open_internal` of kernel/sysfile.c from the permission checks on, over Files,
--              Inode and Log; Open/Branches, Open/Permission, Open/Counted prove
--   Hooks      the hooks of kernel/sysproc.c, and `sys_raw_read` and `sys_raw_write` of
--              kernel/sysfile.c, over Bio; Hooks/Force, Hooks/Raw prove
--   Pipe       kernel/pipe.c; Pipe/Queue, Pipe/Transfer prove
--   Kalloc     kernel/kalloc.c; Kalloc/FreeList proves
--   Vm         kernel/vm.c, over Kalloc and Str: `walk` to `uvmunmap`; Vm/Space has `uvmcreate` to
--              `uvmclear` and `kvminit`, Vm/Copy `copyout`, `copyin` and `copyinstr`; Vm/Tree, Vm/Grown,
--              Vm/Walk, Vm/Leaf, Vm/Lookup, Vm/MapPage, Vm/Mapping, Vm/UnmapPage, Vm/Unmap,
--              Vm/Range, Vm/Transfer and Vm/Receive prove
--   Spin       kernel/spinlock.c; Spin/Nesting proves
--   Str        kernel/string.c; Str/Move, Str/Names prove
--
-- Log and Hooks are clients of Bio, Dir of Fs, FileIo of Fs and Vm, Open of Files, Inode and Log,
-- Vm of Kalloc and Str. Files and Proc share the index of a process in `proc`.
--
-- A routine takes the state and returns `Outcome` of its result and the new state. `panic` ends the
-- machine. `asleep` is a call of `sleep` that has to wait: a caller that goes on after a wakeup is a
-- later call in the model. A buffer is its index in `bcache.buf`, and the list from `head.next` to
-- `head.prev` is a list of indices. `uint` counts wrap, with `% 2 ^ 32` written out.
-- `Bio.disk_rw` is what a call of `virtio_disk_rw` comes to: one transfer between `b->data` and the
-- block `b->blockno` of the disk.
--
-- In `writei` and `dirlink` the log is `Trans`: the numbers of the blocks that it holds and how
-- many it takes, so that `log_write` panics there where it does in the code; in `filewrite`, `begin
-- i` is the log when the `begin_op` of the round at `i` returns. The `log_write` in `readi`,
-- `bfree`, `itrunc` and `ialloc` is left out. The copies `either_copyin` and `either_copyout` of Fs
-- and FileIo are parameters, so that theirs may be a user or a kernel address, and their failures
-- are results; FileIo/User shows what `copyin` is as such a copy. In Open the contents that
-- `itrunc` frees have no blocks.
--
-- In Vm a page is a table, bytes or a free page, one at a time: `memset` shows in all of them, a store
-- through a pointer in the one it is made for. That the tables, the pages that are mapped and the free
-- ones are different pages is part of what the theorems show or assume.
--
-- Loops recur on the rounds left, and need no fuel, with a few exceptions. `mappages` has a unit for each
-- page below MAXVA, where `walk` panics. `copyout`, `copyin`, `copyinstr`, `readi`, `writei` and
-- `filewrite` move at least one byte in a round and have as many units as bytes. `strlen` takes fuel above the
-- offset of the NUL, which is enough. `free_chain` takes NUM rounds, and a chain of a request has three
-- descriptors. `namex` and `namei` take one unit for each element and each symbolic link: links that
-- lead to each other make the code recurse for ever, and the model `asleep`.
--
-- In Proc the locks of the processes do not appear: each definition is a stretch that the code runs
-- under the locks of what it touches. The trapframe, `cwd` and the memory of a process are left out.
-- Fs and Inode see a block as a transaction does, as its contents; that the buffer cache and the log
-- provide that is not shown, and while disk 0 is failed they do not. In Inode a directory is the list
-- of its entries and a symbolic link its bytes.
--
-- Not modelled: exec, traps, the console and the other devices, system call arguments, `create`, `link`,
-- `unlink`, mkfs and the user programs.
-- The header's array `lh.block` is a function: an index past LOGSIZE, which the code would write
-- outside the array, is not caught, and the theorems on the header name the entries below the count.
pub mod Prelude
pub mod Param
pub mod Words
pub mod Str
pub mod Virtio
pub mod Bio
pub mod Log
pub mod Hooks
pub mod Proc
pub mod Files
pub mod Pipe
pub mod Kalloc
pub mod Fs
pub mod Inode
pub mod Open
pub mod Spin
pub mod Vm
pub mod Dir
pub mod FileIo

-- ===== src/Lib.antt =====
-- MOFS is a small block file system in C. On the device lie, in this order, the superblock, the inode
-- bitmap, the data bitmap, the inode table and the data region; the blocks of a file are named by a chain of
-- list nodes in the data region. The core (src/core) reads and writes whole blocks; with
-- MOFS_BUFFER_CACHE_ENABLE they go through a write-back cache with least-recently-used eviction. Paths are
-- resolved through directories, with the permissions of the caller. Files and directories are read and written
-- through handles, and the calls on paths create, remove and rename them.
--
-- Calls are functions from a state to a `Run`: 0 with results, or an error number, with the state after
-- it, which keeps the changes made before the error (Base.Run). The device, the allocator, the mutex and
-- the clock are the interface `Platform`, whose laws state what src/port/include documents: a read gives the
-- bytes at the offset and perhaps fewer than asked for, a write changes no byte outside its range, and any
-- call may fail.
--
-- Which file models which part:
-- - Base and its children: C arrays, 32-bit words, bits, loops and outcomes.
-- - Errno: the error numbers of include/mofs_errno.h. Core: include/mofs_core.h under src/core.
-- - Platform: src/port/include. RawIo: the raw transfers of src/core/modules/mofs_block.c.
-- - Buffer: src/core/modules/mofs_buffer.c. View says what readers see (the cached copy of a block, else the
--   device's) and gives the invariant; Steps, Evict, Load, Transfer, Patch, Flush and Life follow the
--   operations; Implements shows that the cache is a `Store`.
-- - Store: what mofs_block.c and mofs_inode.c ask of read_continuous_blocks, write_continuous_blocks and the
--   mofs_bcache_* calls. Those modules are over any such store.
-- - SplitPool, SplitBuffer: src/core/modules/mofs_buffer_split.c, the cache in two pools, one for the blocks
--   before the data region. Parted, Calls and Routes say how the pools are kept apart.
-- - Bitmap: the data bitmap of mofs_block.c and the inode bitmap of mofs_inode.c, whose code is the same.
-- - Codec and Inode: the 64 bytes of mofs_inode_t, and src/core/modules/mofs_inode.c.
-- - BlockList: the list nodes of mofs_block.c. Chain and Files give a chain as the list of its blocks.
-- - Perm: src/core/modules/mofs_perm.c. Verdict gives the table that it implements.
-- - Path: src/core/modules/mofs_path.c, over an interface for the directory search, the inode read and the
--   platform's users. Follow walks the tree of names.
-- - Pool: handle pools beside the volume. Caller: the calling process as src/port/include gives it.
-- - File: src/core/modules/mofs_file.c over the block lists. Handles has the pool of file handles, reads and
--   writes; Pooled and Limits say what these do to the pool; Spans, Reads and Contents say which bytes a read
--   gives, Writes which blocks a write changes.
-- - Dir: the entries of src/core/modules/mofs_dir.c, with the entry `..` in Dotdot. Search and Ancestors give
--   them by what the blocks hold, Errors says which errors a read of one may end with.
-- - Tree: the calls of both files that take a path, with directories in Directories and their listing in
--   Listing. Resolved joins the path resolution with the directories.
-- - Device, Format, Mount: format and mount of src/core/modules/mofs_format.c and mofs_core.c over the platform.
--   Regions is about the layout, Ready about the mount.
-- - Posix: src/posix/posix.c over the core calls and `mofs_errno`. Volume has the calls that change sizes and
--   names; Seek is about `mofs_lseek`.
-- - Examples: a device in memory, a volume with one file and a tree, at which the theorems are applied.
--
-- Blocks and buffers are lists of bytes; NULL pointers, negative descriptors and negative inode numbers,
-- which the code refuses first, are not represented. Arithmetic on unsigned int is modulo 2 ^ 32. Freeing a
-- buffer is left out, except in the cache's start and end. A call under the core lock or the cache mutex is
-- one step. A walk along a chain of list nodes is on fuel; one more than the number of its nodes is enough,
-- and without enough the walk has an outcome of its own, `no_end`, which is no error number. A read past
-- the end of an array that the code may come to has one too, `out_of_bounds`.
--
-- A device may give fewer bytes than asked for. The theorems that say which bytes a read of a file or a
-- directory brings assume that no read of a block of the volume is cut short (`WholeReads`); Buffer.Whole
-- shows that the cache over a device with whole blocks is so. The place of an inode is a product of ints;
-- the theorems on inodes and files are on volumes of at most 2 ^ 25 inodes, whose places an int can hold. The
-- theorems on transfers are on one block, which is what the callers modelled here ask for.
--
-- Not modelled: the services of src/os, which are the platform; the tools and tests.
pub mod Base
pub mod Errno
pub mod Core
pub mod Platform
pub mod RawIo
pub mod Store
pub mod Buffer
pub mod SplitPool
pub mod SplitBuffer
pub mod Codec
pub mod Caller
pub mod Bitmap
pub mod Inode
pub mod BlockList
pub mod Pool
pub mod File
pub mod Dir
pub mod Perm
pub mod Path
pub mod Tree
pub mod Device
pub mod Format
pub mod Mount
pub mod Posix
pub mod Examples

-- ===== src/Lib.antt =====
-- Drivers of the ATS_LDD repository: the FAT32 file system driver in ATS/myfat and the scull
-- character devices in ATS/scull, their C parts and the ATS functions that reading and writing a
-- bare device call, modelled as functions on explicit state.
--
-- Parts, and the files that model them:
--   * Fat: ATS/myfat. A `Volume` is what changes of `struct fat_sb_info` and of the buffers of the
--     disk, a `Geometry` what does not, and a `Device` what the kernel's block layer answers.
--     - Fat/Volume: sb_mgr.h, `fat_fs_error` and `fat_sync_bhs` of fat_misc.c.
--     - Fat/Entry, Fat/Mirror: the entries of the table and its copies, fat_entry.c and fat_entry.h;
--       Fat/Entry/Table reads the buffers as a function from entries to values, which the other
--       files state their results with, and Fat/Mirror/Copies is about `fat_mirror_bhs`.
--     - Fat/Chain: chains of clusters in such a function; Fat/Chain/Grow makes them longer.
--     - Fat/Free, Fat/Alloc: `fat_free_clusters` and `fat_alloc_clusters` of fat_entry.c, which call
--       the entries and the copies; allocation frees its clusters again when it fails.
--     - Fat/Cluster: fat_cache.c and fat_cache.h, from sectors of a file to blocks of the disk.
--     - Fat/Extend: `fat_chain_add` and `fat_clusters_flush` of fat_misc.c.
--     - Fat/Dir: fat_dir.c, the walks over the entries of a directory, on a `Disk`, which is a volume
--       with the bytes of its data area. Fat/Dir/Slots numbers the entries, Fat/Dir/First has the
--       searches by number that Fat/Dir/Search compares the walks with.
--     - Fat/Unlink: `fat_remove_entries`; Wipe and Removed are about the bytes that it writes, Gone
--       about a search after it.
--     - Fat/Fresh: `fat_zeroed_cluster`, `fat_alloc_new_dir` and `fat_add_new_entries`, which call the
--       allocation and give the clusters back on errors.
--     - Fat/Link: `fat_add_entries`, which calls Fat/Fresh and Fat/Extend when a directory is full.
--   * Inode: the attributes of fat_inode.h (Attr), the table of inodes (Find and Reached), the filling
--     of an inode (Fill), which uses the clusters of Fat/Cluster and the walks of Fat/Dir, writing it
--     out (Write) and building it (Build), of fat_inode.c.
--   * Name: `msdos_format_name` of ATS/myfat/msdos_misc.h.
--   * Lookup: `msdos_find` and `msdos_lookup` of ATS/myfat/msdos_inode.c, which call Name, Fat/Dir and
--     Inode/Build, and ATS/myfat/msdos_dentry.c.
--   * Time: the time stamps of ATS/myfat/fat_misc.c.
--   * Pipe: ATS/scull/pipe.c. Pipe/Queue reads the circular buffer as a list, Pipe/Fifo and
--     Pipe/Stream say what operations do to the list.
--   * Mount: ATS/myfat/sb_mgr.c. Options and Early are `parse_options`, Ready and Layout what
--     `fat_fill_super` accepts, Root the root directory, which Inode/Fill reads.
--   * Scull: ATS/scull/main.c. Ioctl and Seek are the commands and positions; Transfer is reading and
--     writing, with ATS/scull/ATS/scull.dats and ATS/scull/ATS/scull_data.dats. Contents
--     reads the list of sets as the bytes of a file, Grown and Stored say what writing does to them,
--     File states reading and writing with them; Session is about a device in use.
--   * Access: ATS/scull/access.c. Single is the single-open device with its atomic steps interleaved,
--     Owner the devices of a user, Clone those of a terminal.
--   * Base: names of the library, tests and lists over native numbers, and results.
--
-- A C function that returns a negative errno, or does not return (`BUG_ON`, panic, a NULL pointer),
-- is one into `Result`; so is one that calls a function of ATS against its type, divides by zero, or
-- goes beyond the memory of the buffer of a pipe. Integers that wrap in the source wrap in the model,
-- also the `int` that `fat_ent_blocknr` computes. A process that sleeps gets a list of turns: what it
-- finds when it is woken, or a signal.
--
-- Loops: `fat_free_clusters` runs on `max_cluster + 1` rounds, and each makes an entry free;
-- `fat_alloc_clusters` on as many, and each counts an entry; the month loop on eleven; the walks over
-- a directory on as many as it has entries, and one more. Other loops go over a list or a number
-- that the source counts.
--
-- Locks are not modelled: an operation runs whole under the mutex of the table or the semaphore of
-- the device, and what others do comes in where it sleeps. Reference counts of buffers, messages to
-- the log, /proc output and module set-up are left out. So are reading a directory out with its long
-- names, creation of files, the root of FAT12 and FAT16, and remounting. What writing out the inode
-- of a directory answers while a file grows is an argument. What the kernel's `hash_32`, `igrab`,
-- `get_seconds`, `CURRENT_TIME_SEC`, `match_token`, `match_int`, `is_power_of_2`, `ffs` and
-- `fat_valid_media` answer are arguments too, and so are its memory and its copies to and from a
-- process.
pub mod Base
pub mod Fat
pub mod Inode
pub mod Lookup
pub mod Mount
pub mod Name
pub mod Time
pub mod Pipe
pub mod Scull
pub mod Access

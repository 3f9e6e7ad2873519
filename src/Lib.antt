-- ===== src/Lib.antt =====
-- A model of JOS, the teaching kernel in lab/, with its file system server and its user library.
--
-- Layout. Base holds the names that the modules share: Boolean tests, list helpers over the native
-- numbers, laws of the bit operations (Base/Bits, Base/TestBit) and arrays written in place
-- (Base/Cells).
--
-- Kern models lab/kern. Pages is the physical page allocator of lab/kern/pmap.c: the record Phys
-- holds `pages`, `page_free_list`, `npages` and the words of the page frames; page_init,
-- page_alloc, page_free and page_decref stand under their names. Pages/FreeList says when the free
-- list is valid: it is a list of different pages inside the memory, none of them referred to.
-- PageTable has the walks pml4e_walk, pdpe_walk and pgdir_walk, which are three instances of one
-- level (walk_level), and page_lookup, page_insert and page_remove; a table is its frame number
-- and a pointer to an entry is a frame and an index. Env is lab/kern/env.c: the record Kernel adds
-- `envs`, `env_free_list`, the current environment and CPU number to Phys. Sched is sched_yield of
-- lab/kern/sched.c; how it ends is a value of Choice. Sched/Fairness follows it through the calls
-- of several environments. Env/Free is the end of an environment, env_free and env_destroy, and
-- region_alloc; Sched/Destroy has what the scheduler does after it. Syscall has the environment,
-- memory and IPC calls of lab/kern/syscall.c, which call Env and PageTable as the code does.
-- UserMem is user_mem_check of lab/kern/pmap.c. Kdebug is lab/kern/kdebug.c: stab_binsearch, whose
-- indices that can be -1 are kept one higher, and in Kdebug/Info debuginfo_rip on tables that are
-- its arguments. Spinlock is lab/kern/spinlock.c, where a step is one access of a CPU to the lock
-- and a schedule is the list of the CPUs whose steps come one after the other; memory accesses are
-- sequentially consistent there. Its client takes and releases the lock in turn.
--
-- Fs models the block layer of lab/fs/fs.c: the free block bitmap, file_block_walk,
-- file_get_block, freeing, truncation and resizing; a Disk is the words of its blocks and the list
-- of the flushed ones. Fs/Files is file_read, file_flush and fs_sync, and Fs/Writing is
-- file_write; the buffers of callers are functions of the index. Fs/OpenFiles is the table of open
-- files of lab/fs/serv.c; pageref of lab/lib/pageref.c reads the page tables and reference counts
-- of the server's address space, which with the call sys_page_alloc is the interface Memory; the
-- theorems take what sys_page_alloc does there as the hypothesis Allocates. Fs/Directory reads a
-- `struct File` in a block (FilePtr, load, store) and has dir_lookup and dir_alloc_file; a
-- directory is compared with the list of its entries. Fs/Path has skip_slash and walk_path on
-- paths as lists of characters, and file_open, file_create and file_remove. Fs/Serving joins the
-- table of open files and the disk: the request handlers of lab/fs/serv.c, and in
-- Fs/Serving/Dispatch serve_open and a round of serve, with the request as a value of Request.
--
-- Library models parts of lab/lib: Args is args.c, with pointers into strings as what is left of
-- them; Strings is string.c on a memory of bytes, with the string instructions of its assembly,
-- and Strings/Loops its other build; Printing is printnum of printfmt.c; Pipe is the ring of
-- pipe.c, where a call runs up to its return or its yield without a step of another environment;
-- Fork is fork.c on the page table entries of the two address spaces; Fd is the descriptor table
-- of fd.c, where devices are parameters and two addresses may share a page.
--
-- Code that may panic or fail an assertion gives an Option, and `none` is the panic. A 16-bit
-- reference count and a 32-bit id wrap round as written; a signed 32-bit number is kept as its 32
-- bits where it can be negative (file sizes, seek positions, the ids that openfile_alloc returns),
-- and the overflow of a position in a pipe is an outcome of its own; addresses are numbers, and an
-- object does not run over the end of the address space.
--
-- Fuel. The loops of file_read and file_write get two rounds more than the blocks that fit into
-- the bytes to be moved. printnum recurs at most 64 times on a number of 64 bits. The loop of
-- user_mem_check gets one round for each page of the range and one more. The walk of page_free
-- along the free list gets npages + 1 steps, and a list of different pages has npages at most.
-- stab_binsearch gets two rounds for each stab of the range and two more, walk_path a round for
-- each character of the path and one more, and the loop over argnext one for each letter and one
-- more. The loops of alloc_block, of sched_yield and of fd_alloc have their own bounds. The loops
-- of string.c that stop at a null character take fuel as an argument.
--
-- Not modelled: what file_read and file_write do at a negative seek position (the handlers then
-- end with `none`), boot code, traps and assembly entry, drivers, the interleaving of CPUs inside
-- the kernel other than in the lock (it runs under its big lock), the TLB, the monitor, load_icode
-- and env_create (they read an ELF image), the client side of the file server (lab/lib/file.c),
-- malloc, set_pgfault_handler, and the lwIP copy with the network server. lab/kern/pmap1.c is an
-- old copy of pmap.c.
pub mod Base
pub mod Fs
pub mod Kern
pub mod Library

-- ===== src/Lib.antt =====
-- rawOS, a 32-bit x86 kernel in C: models of its parts, and what is proved of them.
--
-- Paths are from the repository's root. At boot the kernel (src/kernel.c) sets up the segments,
-- the interrupts, the screen, the keyboard, paging, the heap and the file system. An interrupt
-- enters an assembly routine through its gate, which calls isr_handler or irq_handler, which
-- call the handler registered for the interrupt, such as the keyboard's. The keyboard writes
-- characters to the buffers that readers of its file registered; writing to the screen's file
-- prints. The heap keeps its holes in a balanced tree, and paging takes frames from a bitmap.
--
-- Common: Boolean tests and lists over the native numbers, integers, and `Outcome`, what a C
--   function does: it returns, it stops in `panic`, or it does something undefined in C.
-- Bitmap: src/util/bitmap.c. The array of bytes is a list; each function is a function of the
--   same name, with the code's assertion on the index. Bitmap.Bytes has the facts on the bits
--   of a byte, Bitmap.Laws and Bitmap.FirstClear the behaviour of the operations.
-- Frames: how src/paging.c takes a frame, the first clear bit of `available_frames`.
-- Avl: src/alloc/kalloc_avl.c, the tree of holes. A tree is an inductive type whose nodes keep
--   the number of the array entry that holds them and the stored height; the list of the free
--   entries is explicit. insert_internal and remove_internal return the new tree, the list of
--   free entries, and the two values that the code writes through pointers (`Edit`). The steps
--   after a recursive call have names of their own (grown_left, shrunk_right, ...). Avl.Sorted
--   is the abstract view, the sorted list of the holes; Avl.Insert, Avl.Remove and Avl.Find
--   hold the operations, with their proofs below them.
-- Interrupt: src/interrupt.c. The descriptor table is a function of the vector; the calls that
--   fill it are a list in the code's order, the addresses of the assembly routines a parameter;
--   writes to ports and privileged instructions are a list of effects; handlers are values.
-- CString: the string and memory functions of src/util/util.c, on arrays as lists of bytes; an
--   access behind an array's end is undefined.
-- Vfs: src/fs. Pointers to nodes are an enumeration of the nodes that the code makes, function
--   pointers one of the functions assigned to that field. Vfs.Init sets the nodes up from the
--   ramdisk's image, whose bytes are a list; Vfs.Tree is the abstract view of the nodes as a
--   tree of names; Vfs.Resolve is the search for a path; Vfs.Reading is reading from a file.
-- Screen: src/screen.c. The video memory is a function of the offset, in which a write behind
--   the last cell is undefined.
-- Keyboard: src/keyboard.c. The buffers of the readers are a memory by address; the bytes read
--   from the ports are arguments.
-- Gdt: src/gdt.c. The bit fields of a descriptor are the fields of a record.
-- Timer: src/timer.c. The handler returns whether processes are switched.
-- Printf: the decimal conversions of src/util/printf.c. The array that is filled from its end
--   is a list; `n` stands for the pointer to its byte before the `n`th.
-- HashMap: src/hash_map.h. The slots are a function of the position; the loops that stop at an
--   empty slot or at the key take as many rounds as there are slots, which is enough in a map
--   that is at most half full. HashMap.Put, HashMap.Grow and HashMap.Laws see the map as a
--   function from keys to values.
-- Process: src/process.c. The structs are a memory by address; the heap, paging and the
--   registers are parameters. Process.Ring is the circular list, Process.Queue and
--   Process.Switch the abstract view, a queue; Process.Descriptors the file descriptors, on top
--   of HashMap.
-- Paging: src/paging.c. Directories and tables are a memory by address, the machine's memory
--   and the heap an interface. Paging.Create maps a page to a new frame, Paging.Clean removes
--   the pages of a process, with Paging.Swept (the entries of a table) and Paging.Tables (the
--   tables) about it; Paging.Clone copies a directory.
-- Rawx: the loading of a section of code or data in src/rawx.c; the creation of a page is a
--   parameter there.
-- Heap: src/alloc/kalloc_heap.c and src/alloc/kalloc.c, on top of Avl. Headers and footers are
--   bytes of the memory, which is a function from addresses; Heap.Alloc has the allocation and
--   the creation. Heap.Layout is the abstract view, the list of the blocks; a call changes one
--   block between those before and those behind it (Heap.Focus, Heap.Opened). Heap.Merge,
--   Heap.MergeNext and Heap.Free are about freeing, Heap.Carve, Heap.Taken, Heap.AllocIn and
--   Heap.Reuse about an allocation from a hole, Heap.Keeps about what it leaves alone,
--   Heap.Page, Heap.Expand and Heap.Grow about the pages that are added, Heap.Create and
--   Heap.Init about the start.
-- Syscall: the map from the names of the calls to their stubs in src/syscall.c, on top of HashMap
--   and of strcmp in CString.
--
-- Recursion is structural everywhere (on a tree, a list, or the rounds left of a counted loop),
-- with three exceptions: the loop over the processes takes fuel, of which their number is
-- enough; the allocation takes the number of pages that it may add, and one more; and put and
-- grow of the hash map, which call each other, a depth, of which two is enough. Numbers are
-- natural numbers: 32-bit wrap-around is written out where a result can leave the range
-- (alignment in Avl.Find, limits in Gdt, addresses in Paging, the growth of HashMap), and the
-- screen's cursor stays in it by what is proved.
--
-- The parts meet at interfaces: Process takes the heap and paging as a record of operations
-- (Machine), Paging the heap and the memory (Platform), Rawx and Heap the creation of a page.
-- Where a page cannot be created, because it is present already or no frame is free, the code
-- panics; so what is said of a run that creates pages asks that the creations of this run return.
--
-- Not modelled: the handler of the system calls, the rest of the program loader, execve and the end of process_init, the pages
-- of the kernel and the set-up before paging is enabled, and the rest of formatted output,
-- which build on the parts above; the assembly routines, the boot loader and the ramdisk's
-- tool, which are not C code of the kernel; and bitmap_print and the printing of the heap,
-- which only print. The branch of src/alloc/kalloc_heap.c without COMPLEX_HEAP_ENABLED is not
-- compiled. kalloc_alloc is taken to succeed in Vfs, HashMap and Process, in Vfs with any
-- content of the memory that it returns, and kalloc_free to return in Process.
pub mod Common
pub mod Bitmap
pub mod Frames
pub mod Avl
pub mod Interrupt
pub mod CString
pub mod Vfs
pub mod Keyboard
pub mod Screen
pub mod Gdt
pub mod Printf
pub mod Timer
pub mod HashMap
pub mod Process
pub mod Paging
pub mod Rawx
pub mod Heap
pub mod Syscall

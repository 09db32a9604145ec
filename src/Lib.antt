-- ===== src/Lib.antt =====
-- Verification of the memory manager of this repository (memory_manager.c, memory_manager.h), of the
-- linked list that lives in its pool (linked_list.c, linked_list.h), of the tracer of allocations
-- (cM2.c), and of the barrier of the test programs (common_defs.h).
--
-- The program is a fixed pool of memory. mem_init takes the pool from malloc and describes it by an
-- array of blocks, each with its address, its size and whether it is in use. mem_alloc hands out the
-- first free block that is large enough and splits it, mem_free takes a block back and merges it with
-- its free neighbours, mem_resize changes a block's size in place or moves it, and mem_deinit gives
-- the pool back. The linked list takes a block for each node, and holds a lock for readers and writers
-- during each operation. A recursive lock is held during each operation but mem_init and mem_deinit.
--
-- Files, below verification/:
--   Prelude, Prelude/Tests, Prelude/Lists    the library's names, Boolean tests, lists over native
--                                            numbers and what an index means in a split list
--   Manager          the struct memoryBlock and the globals of memory_manager.c as records, the
--                    commands that read and write the array, the lock
--   Manager/Cells    the loops that shift blocks in the array
--   Manager/Alloc    increaseMemoryBlockArraySize and mem_alloc; its children Take and Loop follow
--                    the loop, FirstFit, HandOut and NoMemory hold the theorems
--   Manager/Free     mem_free; its children Search, Merge and Release follow the code, Coalesce,
--                    TakeBack and RoundTrip hold the theorems
--   Manager/Init     mem_init and mem_deinit, with the theorems in Lifecycle
--   Manager/Resize   mem_resize; its children Search, Room, Right, Grown, Replace, Move and Branches
--                    follow the code, Outcome and Failure hold the theorems
--   Manager/History  the states that a client comes through after mem_init, with the theorem in Safety
--   Manager/Layout   the abstract view: the list of blocks, tilings, first fit, merging, and the
--                    ranges that are handed out
--   Manager/Examples runs on a small pool, and the theorems at these runs; its children Resizing and
--                    Steps have those of mem_resize and of a client
--   Memory           numbers in the bytes of memory; Words has what is read back
--   Allocator        what linked_list.c uses of the memory manager, as a record of operations and laws;
--                    Pool shows that the manager of Manager/ fills it
--   LinkedList       the state of linked_list.c, its lock, and reads and writes of nodes; Read, Insert and
--                    Remove hold its functions, and their children the theorems
--   LinkedList/Chain, Links, Relink, Steps    chains of nodes in memory that is written
--   LinkedList/RoundTrip, Client, Examples    calls one after the other, and the theorems at a list
--   Tracer           the temporary buffer of cM2.c: malloc and mmap use it while they look up the real
--                    functions; Temp holds the theorems, Examples runs
--   Tracer/Wrappers  the wrappers of cM2.c and init; Startup and its children First and Missing follow the
--                    first malloc, Depth and Nested the init inside an init, Program a whole run of a
--                    program; Examples has the theorems at a dlsym that allocates
--   Barrier          my_barrier_t of common_defs.h, and my_barrier_wait as steps of any number of threads;
--                    Meeting and Settling hold the theorems, Examples runs
--
-- How code and model correspond. Names are those of the source, in snake case (startAdress is
-- start_adress). A function of the source is a command: it takes the state and returns a result
-- with the new state, or a fault. A fault is what C leaves undefined here: an access to the array
-- outside its cells, a write through NULL, memmove from or to NULL, a count of blocks above the
-- largest int, and the use of a lock that is not initialised. So an equation with an ok on its
-- right says that there is none. Pointers are numbers and NULL is 0. A size_t has 64 bits and its
-- sums and differences are taken modulo 2 ^ 64; the theorems show that none wraps in a valid pool.
-- An index of -1 is none. The array is the list of all its cells, also those past memoryBlocksSize,
-- whose content is called junk.
--
-- The lock of the memory manager is its depth and whether it is initialised. To lock, unlock or
-- destroy it where it is not initialised is a fault, and so is to initialise it twice or to destroy
-- it while it is held. The states "holding s xs junk" of the theorems have it initialised. The lock
-- of the list is in the same way released, held or destroyed, and counts as destroyed before
-- list_init.
--
-- The abstract view. A state whose live blocks are xs has the form "holding s xs junk". It is valid
-- (Manager/Layout, IsValid) if the pool starts at an address other than NULL and ends in the address
-- space, the blocks fill it one behind the other without empty ones, and no two free blocks are
-- neighbours.
--
-- A node has 16 bytes, its number in the first two and its pointer in the last eight, with the lowest
-- byte first. The model is stricter than C where it reads and writes a node: an address that is not
-- that of a block handed out for a node is a fault, so the theorems exclude the use of freed nodes. An
-- int is an integer of any size. What is printed is a list of tokens. The parameter head of each
-- function is a field of the state, since the lock and the pool are global as well. A call that waits
-- for a lock that the thread itself holds is a deadlock.
--
-- Loops over the array recur on the number of rounds that are left, which the code's own bound gives.
-- The loops of linked_list.c follow pointers, and have fuel: one more than there are nodes is enough,
-- and the theorems show that they then return.
--
-- Parameters. What malloc and realloc answer is an argument of mem_init and mem_alloc. HasRoom says of
-- a realloc that it succeeds and keeps the old content, HasNoRoom that it returns NULL. The allocator
-- of the list is a record of operations and laws; its mem_init may fail for want of memory.
--
-- The tracer's parameters are what libc answers to each call and the calls of allocation functions that
-- each dlsym makes. Every dlsym finds its name. The pointers are set in a fixed order, so the model
-- keeps how many are set. An init that runs inside another one has one less to count; two are enough,
-- since malloc and mmap each start one at most.
--
-- Not modelled: the test programs, the debugging output of memory_manager.c and of common_defs.h, what
-- the tracer writes to the terminal and its end when dlsym fails, and several threads at once in the
-- memory manager and the list: each of their operations runs alone.
pub mod Prelude
pub mod Allocator
pub mod Barrier
pub mod LinkedList
pub mod Manager
pub mod Memory
pub mod Tracer

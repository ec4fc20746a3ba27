-- ===== src/Lib.antt =====
-- LtMicros, a micro-kernel for x86: a model of parts of its kernel and the theorems about them.
--
-- The program (paths from the repository's root). The kernel hands out physical pages from a bitmap
-- (kernel/arch/x86/Pmm.cpp), describes the address space of each process by a chain of descriptors
-- (kernel/mem/Vad.cpp), runs threads in turn (kernel/task/Scheduler.cpp), keeps its tables in one
-- kind of linked list (kernel/lib/List.cpp), among them the handles of kernel objects
-- (kernel/handle/HandleManager.cpp), and has its own string and memory functions
-- (kernel/lib/StdLib.cpp, kernel/lib/StdMem.cpp). Its heap (kernel/mem/Heap.cpp) grows by pages of the
-- page allocator, as does its pool of pages (kernel/mem/PagePool.cpp). Servers are found by name, and
-- get bytes from other processes (kernel/task/Ipc/Ipc.cpp) through queues of pages
-- (kernel/task/Ipc/IpcBuffer.cpp). A process (kernel/arch/x86/Process.cpp) has threads
-- (kernel/arch/x86/Thread.cpp) and an address space: an allocation in it, and a page fault, go from the
-- chain of descriptors to the page allocator and the page tables (kernel/arch/x86/Vmm.cpp); the
-- scheduler and the handle manager search their lists by ListEnumerate with a callback. The file system
-- service (userland/system/LtFsService) answers requests of processes from an ext2 disk, which it reads
-- through the ports of the drive. Programs reach the kernel by a system call
-- (kernel/syscalls/SyscallsHandler.cpp) that their library makes (userland/StdLib/src): to print
-- (kernel/lib/StdIo.cpp, on the screen of kernel/drivers/Screen.cpp), to get memory for their heap, and
-- to be servers and clients. Programs are loaded from ELF files (kernel/module). Interrupts go through
-- the tables of kernel/arch/x86/Gdt.cpp and Idt.cpp, two of them to a debugger
-- (kernel/debug/LtDbg.cpp), which answers a client on the serial line (kernel/debug/LtDbgCom.cpp).
--
-- Files.
--   Base, Base/*     shared names: tests on numbers, lists, 32-bit words (Words), the status codes and
--                    the outcome of a call (Status), bits of a byte (Bits), results of type int (Int),
--                    character codes (Text), words as four bytes (LittleEndian).
--   Ipc              kernel/task/Ipc/Ipc.cpp over IpcBuffer. Servers: AddNewServer and ConnectToServer.
--                    Locking: Send and Receive.
--   IpcBuffer        kernel/task/Ipc/IpcBuffer.cpp. Queue: AddBytes within a page. Reading:
--                    ReadBytes within a page. Stale: the read that crosses the end of a page.
--   KernelList       kernel/lib/List.cpp. Contents: the list as a sequence. Walk: ListEnumerate with a
--                    search callback.
--   Pmm              kernel/arch/x86/Pmm.cpp. Bitmap and Search: the bitmap read page by page, and what
--                    the scan finds. Laws: GetFreePage and ReleasePage. Boot: Init.
--   Mapper           the calls that the descriptors make of the page allocator and the page tables.
--   Vmm              kernel/arch/x86/Vmm.cpp: memory as words, with the tables in it. Entries: the words of
--                    an entry. Walk: reading a table. Mapping: adding a page. Machine: the Vmm as a Mapper.
--   Vad              kernel/mem/Vad.cpp. Vad itself: Create, the three searches, Split and
--                    SplitAtAddress. Operations: ReservePages, Allocate, AllocateAtAddress. The others
--                    prove: Lookup, Split, Reserve, Frames (over Pmm), Allocate, Bump.
--   PagePool         kernel/mem/PagePool.cpp over Pmm. Chains: Free and the two lists.
--   Heap             kernel/mem/Heap.cpp over Pmm. Blocks: the search for a block. Growth: Sbrk and Init.
--                    Laws: Allocate. Release: Free.
--   HandleManager    kernel/handle/HandleManager.cpp. Search, Invariant, Laws.
--   StdLib           kernel/lib/StdLib.cpp and StdMem.cpp. Compare, Copying.
--   Scheduler        kernel/task/Scheduler.cpp and the thread fields that it uses. Pick, Preempt.
--   Thread           kernel/arch/x86/Thread.cpp and thread_utils.asm, and kernel/task/ThreadManager.cpp.
--                    Frames: the register image that a thread is saved, begun and resumed with.
--   Process          kernel/arch/x86/Process.cpp and the page fault handler, over Vad and a Mapper.
--                    HeapLimit, Creation; Faults: a page fault over Pmm; Mapped: one over Vmm.
--   LtFsService      userland/system/LtFsService/src. AtaDriver: AtaDriver.cpp over ports; its child
--                    Reading: AtaRead, and it as a reader for Ext2. Ext2: Ext2.cpp over a reader of the disk; Inodes, Contents.
--                    File: File.cpp and FsManager.cpp over Ext2; Lookup, Opening.
--                    ServiceCommands: ServiceCommands.cpp; Handles, Access. Bytes: the bytes of a disk,
--                    which AtaRead answers and from which Ext2 reads.
--   StdIo            kernel/lib/StdIo.cpp and Status.cpp. Digits: printInt. Bits: printBin. Format:
--                    kprintEx.
--   Screen           kernel/drivers/Screen.cpp. Bounds: PrintChar.
--   Syscalls         kernel/syscalls/SyscallsHandler.cpp over Process, Ipc and Scheduler. Servers: the
--                    calls of servers and clients. Sbrk: the call for memory.
--   UserLib          userland/StdLib/src. StdIo: stdio.cpp. Ipc: Ipc.cpp over Syscalls. Malloc:
--                    malloc.cpp.
--   Module           kernel/module/Elf.cpp and Module.cpp over Process.
--   Gdt, Idt         kernel/arch/x86/Gdt.cpp and Idt.cpp. Idt/Gates: the table once it is set up.
--   LtDbgCom         kernel/debug/LtDbgCom.cpp. Packets: RecvRequest. Response: SendResponse.
--   LtDbg            kernel/debug/LtDbg.cpp over LtDbgCom. Command and Answer: the numbers of both.
--                    Rounds: a round of WaitForPacket. Dialogue: a sequence of rounds. Repeats: the
--                    empty packet. Traces: StackTraceCommand.
--   Tests            the theorems at concrete inputs.
--
-- State and results. A call returns its status and its new state. `Run` has a case for a value, for an
-- error code, for a fault (a null pointer followed, or a panic of the kernel), and for a call that has
-- not ended: its fuel is spent, it spins on a lock, or its thread has to wait. C++ names are kept in
-- snake_case: Vad::LookForVadFromAddress is look_for_vad_from_address. Words of 32 bits are natural
-- numbers with the wrap written out (add32, sub32, mul32). A list or a chain of
-- descriptors is a list; the back pointers `prev` and `previous`
-- are written by the code and read by none of the modelled functions. Whether HeapAlloc finds memory
-- is an argument of the operations that call it, as is the value of the clock.
--
-- Fuel. The recursion of Heap::_Allocate takes fuel, and one growth of the heap is enough. The loops of
-- ReservePages, Schedules, StrLen, StrCpy, AtaStatusWait and IsCached take fuel, one unit to a round;
-- the theorems state how much is enough, or that no amount is. _local_mod gets a round
-- more than the number it divides, which is more than it makes. The loop of printInt gets 33 rounds, one more than a number of 32 bits has
-- digits in any base. WaitForPacket takes fuel for its packets, one unit to each, and for the frames of a
-- stack, one unit to each and one for the end. The recursion of _Allocate in the user heap takes two
-- units where a region of one page is enough, and ClosestPow four.
--
-- Not modelled: the lookaside buffer of the processor and its part in a switch of threads; the start of
-- the kernel and its log, the exception handlers, which print registers and stop, the drivers of the
-- clock and of the interrupt controller; Module::Load as a whole; of the library of programs list.cpp and
-- stdlib.cpp, which repeat the kernel's functions, and FileSystem.cpp. The requests of the file system
-- service take what the search of a path and IpcClient answer as arguments. What is printed is a list of
-- characters, and the serial line is the bytes that come and those that go. AddPageToPageDirectory and
-- GetFreePage are calls that `Mapper` names: one instance keeps the list of the calls, the other is the
-- model of Vmm.cpp; the heap keeps such a list too. Ext2 reads through a `Reader`, of which AtaRead on a
-- drive is one, for ranges that end below 2^32; a drive is known by what its ports answer. Of a lock only what one thread alone sees is
-- modelled, and of an event only its flag.
mod Base
pub mod Gdt
pub mod HandleManager
pub mod Heap
pub mod Idt
pub mod Ipc
pub mod IpcBuffer
pub mod KernelList
pub mod LtDbg
pub mod LtDbgCom
pub mod LtFsService
pub mod Mapper
pub mod Module
pub mod PagePool
pub mod Pmm
pub mod Process
pub mod Scheduler
pub mod Screen
pub mod StdIo
pub mod StdLib
pub mod Syscalls
mod Tests
pub mod Thread
pub mod UserLib
pub mod Vad
pub mod Vmm

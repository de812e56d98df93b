-- ===== src/Lib.antt =====
-- A model of the Xesual kernel: how it boots, its page allocator, its spinlocks, the state of its
-- processors, its heap, its processes, its page tables, its descriptor tables and gates, and its
-- scan of the PCI buses.
--
-- The kernel's globals, the memory and the registers of the executing processor are the record
-- Machine (Machine.antt); the code is a command over it, which ends with a result, by a null
-- dereference (fault), never, because it spins on a lock that nobody else releases (hang), or for
-- want of fuel. Memory is a function from addresses to 64-bit words: the kernel's code here reads
-- and writes whole aligned words, and memset is only called with the value 0. Machine words are
-- natural numbers, reduced modulo 2 ^ 64 where the code computes addresses. An int32_t is its bit
-- pattern. The arrays CPUs and ProcessTable are functions from indices to records, apart from the
-- memory.
--
-- Kernel/PhysicalMemoryManagement.h is Address.antt; Kernel/PhysicalMemoryManagement.cpp is
-- PhysicalMemory.antt: free_pages and allocate_pages are freePages and allocatePages, cut at the
-- loops and at the blocks of the source (find_place, link_next, link_prev; reserve_loop,
-- take_pages, unlink; address_in is the expression behind the last release).
-- PhysicalMemory/Chunks.antt says which list the memory holds, PhysicalMemory/Allocate and
-- PhysicalMemory/Free prove the operations against lists, and PhysicalMemory/Faults has the cases
-- where they go wrong. PhysicalMemory/Access.antt is the lock around them, and
-- PhysicalMemory/Pool.antt what callers see of both operations: free chunks and pages in use. The
-- walks take fuel: one round for each chunk of the list and one more, which the theorems ask for
-- and which is enough.
--
-- Kernel/Spinlock.cpp is Spinlock.antt for the code on one processor, with pushCLI and popCLI
-- (Cpu.antt, from Kernel/ProcessManagement.h) around each access, and Spinlock/Contention.antt
-- for any number of processors as a step relation, in which an interrupt may come where the lock
-- is held, and a lock is released by the processor that has it. Kernel/SMP.h and lapicID of
-- Kernel/LocalAPIC.h are Smp.antt.
--
-- Kernel/GDT.h is Gdt.antt, with the table in Gdt/Table.antt: an entry is a record of its bit
-- fields, the first field of a byte in the byte's lowest bits, and the address of a table is an
-- argument. The registers that CPUState sets in Kernel/ProcessManagement.cpp are
-- Cpu/Registers.antt. Kernel/Traps.cpp and Kernel/Traps.h are Traps.antt; the addresses of the
-- labels in Kernel/Traps.S are a parameter.
--
-- Kernel/PCI.h and Kernel/PCI.cpp are Pci.antt. The state of the ports is in Machine: the address
-- last written to 0xCF8, and the word that 0xCFC gives access to at each address, which keeps
-- what is written. The callback of the scan is a parameter. The scan has fuel for the depth of
-- the bridges; bus numbers are bytes, so 256 is enough where they rise. Machine/Total.antt is the
-- logic of commands that end, by which the scan is proved.
--
-- Kernel/Paging.h is Paging.antt: an entry is a 64-bit word, and a field of it is cut out and put
-- in by arithmetic. Kernel/VirtualMemoryManagement.cpp is VirtualMemory.antt: descend is one
-- level of map, and shifted_address is the expression physicalAddress << PageShift with the
-- promotion of the 28-bit field to int. VirtualMemory/Translation.antt has the walk of the
-- processor through four levels of tables.
--
-- Kernel/Alloc.cpp is Heap.antt, cut as the page allocator is; its list has the same fields, so
-- that it uses the lists of PhysicalMemory/Chunks.antt, in bytes. The table of processes of
-- Kernel/ProcessManagement.cpp is Processes.antt; set_up_stack, finish_process and claim_entry
-- are the parts of allocateProcess, from its end to its middle. Pause and the addresses of the
-- entry points are parameters. schedule has fuel for its rounds and for the turns of its inner
-- loop. Kernel/LocalAPIC.cpp is LocalApic.antt; whether the device still shows a command as
-- pending, read by read, is a parameter, and the loop that waits for it has fuel. TrapHandler and
-- KernelSyscallHandler are Traps/Handler.antt, and Kernel/Panic!!.cpp is Traps/Panic.antt.
--
-- createFirstProcess is Processes/First.antt: memcpy_bytes is memcpy for any number of bytes, the
-- whole words first and then the lowest bytes of one more, and fill_frame is the part that writes
-- the trap frame.
--
-- Kernel/PrintfImplementation.cpp, with logfn of Kernel/printf.c and outb of
-- Kernel/MiscFunctions.h, is Console.antt: LogLine has the lines of the whole kernel with the
-- values printed in them, the characters that printf makes of each are a parameter, and the bytes
-- written to ports are kept in Machine, the last in front. UserEntry::dump is Console/Entry.antt.
-- Kernel/Graphics.cpp and Kernel/Graphics.h are Graphics.antt; the 16-bit registers of the device
-- are a function from addresses.
--
-- Kernel/KernelMain.cpp is Boot.antt, with initializeProcessors in Boot/Processors.antt and the
-- entry points in Boot/Main.antt. The bootloader's responses are records, of which a null pointer
-- is none, and the addresses of labels are the record Image. each_page is the loop over pages of
-- initializeVirtualMemory, on fuel for its rounds; set_up_stack, show_device and paint are parts
-- of SharedMain. The bytes of a CPUState that memset clears are those of its fields within one
-- page. Machine/Keeps.antt is the logic of commands that keep a predicate of the state;
-- Spinlock/Frame.antt, PhysicalMemory/Frame.antt and VirtualMemory/Kept.antt say what the locks,
-- the page allocator and the page tables leave alone, which Boot/MemoryMap.antt,
-- Processes/Fresh.antt and Processes/First/Runs.antt need. VirtualMemory/Missing has map where
-- tables are missing, VirtualMemory/Range.antt a loop of map over a range whose tables are there,
-- and Boot/DirectMap.antt puts both together. boot is KernelMain behind the check, and
-- paint_pixel a store of paint, whose index is an int. Pci/Devices.antt is the list of devices
-- that the scan is compared with.
--
-- Kernel/Traps.S and Pause, which is assembly in Kernel/ProcessManagement.cpp, are Assembly.antt:
-- a record Core of the registers with a memory of its own, the instructions as functions on it,
-- and the saved and restored registers as lists in the order of the instructions.
-- Assembly/Traps/Frame.antt has what the processor does at an interrupt; a C function that is
-- called is a parameter, with what the calling convention and its return value promise as
-- hypotheses. Assembly/Traps/Halt.antt is the entry points that halt, by single instructions, and
-- Assembly/Userspace.antt the program of the first process. The commands over Machine take Pause
-- and the addresses of labels as parameters.
--
-- Not modelled: printf.c (but for logfn) and Limine/limine.h are copies of other projects, of
-- which the characters of a line and the bootloader's responses are arguments.
pub mod Base
pub mod Machine
pub mod Address
pub mod Smp
pub mod Cpu
pub mod Spinlock
pub mod PhysicalMemory
pub mod Gdt
pub mod Traps
pub mod Boot
pub mod Assembly
pub mod Console
pub mod LocalApic
pub mod Pci
pub mod Graphics
pub mod Heap
pub mod Paging
pub mod VirtualMemory
pub mod Processes
pub mod Examples

-- ===== src/Lib.antt =====
-- Tartarus, an operating system of one address space without protection that boots from UEFI,
-- reads a FAT32 disk, and runs PE files while it catches what they call. This library models the
-- parts of it that follow, each in a file that bears its name, with its theorems in the folder of
-- the same name and runs and instances of the theorems in its module Examples.
--
--   Memory      The heap of src/memory.c: InitHeap is init_heap, malloc and free keep their names.
--               A block header is a record in a store that maps addresses to headers; addresses
--               and sizes are 64-bit words. The search of malloc runs on fuel, one unit for each
--               block; the theorems ask for one unit per block of the heap, which is enough. Spec
--               describes the heap as a sequence of cells, Layout says how a store holds one.
--   Paging      SetupPaging of main.c, and in Walk the processor's walk of the tables.
--   Interrupts  SetIDTEntry, SetupIDT and SetupPIC of main.c, and SetIDTGate and Tartarus_InitIDT of
--               src/idt.c; the wrappers' addresses are parameters. Gdt is SetupGDT of main.c, and
--               Segments reads both tables as the processor does. Irqs has the interrupt
--               controllers as their data sheet describes them.
--   Exceptions  PageFaultHandler and GPFaultHandler of src/exceptions.c, and the handlers of src/idt.c
--               and main.c that halt; a handler's outcome is that
--               the program goes on with some registers, or that the processor is halted. The
--               memory it reads is a parameter. Unmapped puts the handler and the page tables
--               together.
--   Text        The routines on texts of src/shell.c, CompareString of src/fat32.c, and CopyApiName
--               and Tartarus_IsAntiDebug of src/api_manifold.c. A text is a list of bytes; a list
--               that ends stands for a text that ends in a zero byte, a buffer is a list of its
--               length, and a write behind its end gives none.
--   Display     The frame buffer and the text cursor of src/display.c; a pixel is found by a 32-bit
--               index as in C. An int is its 32-bit pattern.
--   Keyboard    KeyboardHandler of src/keyboard.c with the command line of src/shell.c.
--               ExecuteCommand is an argument.
--   Mouse       MouseHandler of src/mouse.c, the cursor's drawing of src/display.c, and the loop of
--               efi_main that moves it. Setup is InitPS2Mouse, over a record of the ports, whose
--               behaviour is a parameter; MouseWait makes 100000 polls at most, as in C.
--   Debugger    DebuggerEngine, DrawByteHex and ArmHardwareBreakpoint of main.c. What the keyboard's
--               ports answer is a list; at its end the debugger still polls, and the model gives
--               none.
--   Pci         src/pci.c; the configuration space is a parameter.
--   Ata         AtaReadSectors and AtaWaitReady of src/ata.c, over a record of the drive's ports,
--               whose behaviour is a parameter; the wait makes 99999 polls at most, as in C. Drive has
--               what the ATA standard says of a drive, Sample is such a drive.
--   MemoryMap   Tartarus_AnalyzePhysicalMemory of src/memory.c.
--   ApiManifold The traps of src/api_manifold.c, the zone of Tartarus_DeployGodObject, and in Exports
--               BuildUniversalExportTable; Names holds the list of functions.
--
--   Ram         The bytes of the memory, and accesses of several bytes.
--   Machine     The state that the file system, the loader and the shell share: the console, the
--               heap, the bytes, the hardware behind the ports, and the globals of src/fat32.c. An
--               action on it is a function that may give none: out of fuel, past the end of a
--               buffer, or in a fault that does not come back. The bytes of a block of the heap are
--               in Ram, its header is in the store of Memory.
--   Fat32       The boot sector, the FAT and the root directory of src/fat32.c and inc/fat32.h:
--               InitFAT32, GetNextCluster, the loop of ExecuteFirstFile that reads a file, and in
--               Report ListRootDirectory and AutopsyFirstFile. Disk reads sectors from a drive
--               that holds a disk, File what a volume on it holds. The loops over clusters run on fuel, one
--               unit for each cluster and one more; the theorems show that this is enough.
--   Loader      The rest of ExecuteFirstFile: Headers is inc/tartarus_pe.h, EntryPoint is
--               FindOriginalEntryPoint, and Sections, Imports and Peb are the steps that write the
--               memory. The run of the payload, wrmsr and three addresses are parameters.
--   Shell       ExecuteCommand and PrintPrompt of src/shell.c, with all the commands. Parse takes
--               the command line apart. What the commands read of the processor and the buses is a
--               parameter, and so are the processor's walk of the page tables and what becomes of a
--               page fault, which decide the accesses of read, write and crash.
--
-- Base holds what the parts share: tests, lists, words, loops and bits. Loops with known bounds are
-- for_range, a recursion on the rounds that are left; a C loop while k < n from i makes n - i rounds.
--
-- The keyboard and the mouse draw on the screen of Display; Display prints numbers with the digits
-- of Text; the exception handlers, the debugger, the traps and the reports print on it; the
-- interrupt table sends vector 33 to the keyboard's handler and 44 to the mouse's. A page fault
-- puts the address of the zone of ApiManifold into registers.
--
-- The shell calls the heap, the drive, the file system, the loader and the reports; the file system
-- borrows blocks of the heap for the sectors that it reads; the loader fills the memory and builds
-- the export tables of ApiManifold in it.
--
-- The headers of the heap, the console and the frame buffer are apart from the bytes of Ram, so a write
-- of the shell or the loader into one of them is not seen there.
--
-- Not modelled: the boot sequence with its UEFI services, the assembly wrappers, and the effects of
-- privileged instructions (lidt, lgdt, mov to cr3, hlt).
pub mod Base
pub mod Memory
pub mod Paging
pub mod Interrupts
pub mod Exceptions
pub mod Text
pub mod Display
pub mod Keyboard
pub mod Mouse
pub mod Debugger
pub mod Pci
pub mod Ata
pub mod MemoryMap
pub mod ApiManifold
pub mod Ram
pub mod Machine
pub mod Fat32
pub mod Loader
pub mod Shell

-- ===== src/Lib.antt =====
-- The kernel of MikanOS X: an operating system for x86-64 in C++, of which this library models the
-- parts that keep the kernel's own data.
--
-- How the parts interact. The firmware's memory map fills the bitmap of physical frames, from which
-- the heap and all else is taken. The scheduler keeps the tasks, their mailboxes and the run queues of its
-- four levels; the timer's interrupt ends timers, sends their messages through it, and makes the
-- tasks take turns. Layers stand in a stack from the desktop to the mouse; the active layer tells
-- its task about the focus by a message.
-- The keyboard and the mouse tell tasks about what changed. Files are read from a FAT32 image in
-- memory. The USB driver has memory, maps, rings and a table of devices of its own.
--
-- Files and code, with paths from the root of the repository:
--   Base      what the parts share: tests, lists, maps, 64-bit words, bits, integers; Base/Fault the
--             codes of Kernel/error.hpp
--   Memory    Kernel/memory_manager.hpp and .cpp: BitmapMemoryManager (Allocate is `allocate`, Free is
--             `free`, and so on); Memory/Start is InitializeMemoryManager over Kernel/memory_map.hpp
--   Queue     Kernel/queue.hpp: ArrayQueue; Queue/Fifo is the bounded FIFO that it is compared with
--   Message   Kernel/message.hpp: Message with its type and its `arg`
--   Task      Kernel/task.hpp and .cpp: TaskManager; Task/Schedule has Wakeup, ChangeLevelRunning and
--             RotateCurrentRunQueue, Task/Switch the calls that may switch tasks, Task/Boot the constructor,
--             Task/Reach the calls as steps
--   Timer     Kernel/timer.hpp and .cpp: TimerManager and the interrupt's handler
--   Graphics  Kernel/graphics.hpp and .cpp: vectors, rectangles, the drawing of rectangles
--   Layer     Kernel/layer.hpp and .cpp: LayerManager; Layer/Stack is what the standard library does to
--             its vector, Layer/Active is ActiveLayer with ProcessLayerMessage and CloseLayer
--   Mouse     Kernel/mouse.hpp and .cpp: OnInterrupt on top of Layer and Task
--   Keyboard  Kernel/keyboard.cpp with Kernel/usb/classdriver/keyboard.cpp: the keys of a report and the
--             messages about those that changed
--   Acpi      Kernel/acpi.hpp and .cpp: the checksums, and Initialize
--   Segment   Kernel/segment.hpp and .cpp: the descriptors, and the TSS with its stacks
--   Console   Kernel/console.hpp and .cpp: the grid of characters
--   Font      Kernel/font.cpp: UTF-8 and WriteString
--   Paging    Kernel/paging.hpp and .cpp: SetupPageMaps; Paging/Clean is CleanPageMaps and FreePageMap,
--             Paging/CopyMaps is CopyPageMaps, Paging/Fault is HandlePageFault with CopyOnePage, and
--             Paging/Identity the kernel's own tables
--   Fat       Kernel/fat.hpp and .cpp: the table, clusters and descriptors; Fat/Name has the 8.3 names
--             and the elements of paths, Fat/Write is FileDescriptor::Write, Fat/Directory is Findfile,
--             Fat/Create is AllocateEntry and CreateFile
--   Usb       Usb/Alloc is Kernel/usb/memory.cpp, Usb/ArrayMap is Kernel/usb/arraymap.hpp, Usb/Ring is
--             Kernel/usb/xhci/ring.cpp (the producer's side), Usb/DeviceManager is Kernel/usb/xhci/devmgr.cpp
-- The other files in a part's folder prove what the part does; its Tests run it on small data.
--
-- Conventions. A state is a record, a method takes it and returns the changed one. A Task* is the id
-- of the task and a Layer* that of the layer. Words of 64 bits wrap around as in the source;
-- an `int` is an exact integer, since its overflow is undefined. Where the source reads through
-- a null pointer or outside an array there is no result (`none`), or, where a definition says so, the read gives
-- a default. A page table is the number of its frame, and its words are entries; what the processor does
-- with them is a walk through the tables. A TaskContext is a parameter C: only Kernel/asmfunc.asm looks into it.
--
-- Fuel. The search of Allocate runs on range_end - range_begin + 1 rounds, the loop of Tick on one
-- more than there are timers, the loop of Read on the bytes to read, that of Write on one more than
-- the bytes to write, those of ExtendCluster, Findfile and AllocateEntry on the length of the table,
-- Findfile itself on one more than the length of the path, WriteString on the length of the string,
-- and the loops over page tables on 512, which are the most rounds that these loops can take on data in
-- order. A chain of clusters that leads back to itself, on which the source has no end, has no result.
--
-- Not modelled. Device registers, the TLB, assembly, and the log; windows, the frame buffer, glyphs, the
-- terminal, system calls, PCI, the interrupt descriptors and the xHCI controller. The boot
-- loader, in C on the firmware's interfaces, and the applications are other programs.
pub mod Acpi
pub mod Base
pub mod Queue
pub mod Memory
pub mod Message
pub mod Segment
pub mod Task
pub mod Usb
pub mod Graphics
pub mod Keyboard
pub mod Layer
pub mod Fat
pub mod Timer
pub mod Paging
pub mod Font
pub mod Console
pub mod Mouse

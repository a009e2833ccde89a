-- ===== src/Lib.antt =====
-- s2e
--
-- A model of parts of S2E, a platform for selective symbolic execution that runs inside QEMU, with
-- the theorems about them.
--
-- Slab: the slab allocator behind `operator new` (include/s2e/Slab.h, src/s2e/Slab.cpp), which is
--   the source of small blocks for the whole program. From below:
--   Slab.Bitmap: the 64-bit masks, and the law of the assembly routine bit_scan_forward_64.
--   Slab.RegionMap: std::map and std::set under PageAllocator's comparator.
--   Slab.PageAllocator: allocPage, freePage, belongsToUs, over regions of 256 KB.
--   Slab.BlockHdr: BlockAllocatorHdr, the bitmap at the head of a page of blocks.
--   Slab.BlockAllocator: alloc, free, expand and shrink for blocks of one size.
--   Slab.SlabAllocator: the size classes, and the way from an address back to its class. m_bas has a
--   slot for each class but the last, and an index out of it is a fault.
--   Slab.OperatorNew: `operator new` and `operator delete` with their global state.
--
-- MemoryCache: include/s2e/MemoryCache.h, the cache of KLEE objects for host addresses, which the
--   execution states ask before they search the address space. MemoryCache.Lookup reads a cache as a
--   function, Update and Reset say what put() and flushCache() make of it, Order and Pool are about
--   MemoryCachePool. The bits of its levels are those of S2EMemoryCache.
--
-- DeviceState: include/s2e/S2EDeviceState.h and src/s2e/S2EDeviceState.cpp, the devices' snapshot and
--   the written disk sectors of an execution state. DeviceState.Snapshot is about putBuffer(),
--   saveDeviceState() and getBuffer(), Sectors about writeSector() and readSector(), Devices about
--   the numbers of block devices, Faults about the places where the code stops or leaves a buffer.
--   KLEE's address space is a parameter, with the law that a bound object is found again.
--
-- Socket: include/s2e/QemuSocket.h and src/s2e/QemuSocket.cpp, TCP sockets as C++ streams.
--   Socket.Send is about write() and the stream's put side, Receive about read() and underflow(),
--   Address about the split of an address, the choice of an address and accept(). The answers of the
--   system calls are arguments; a call for which no answer is left waits for ever.
--
-- Synchronization: src/s2e/Synchronization.cpp, the semaphore around a buffer that the processes of
--   S2E share, as a relation of the rounds of acquire() and tryAquire() and of release(): what the
--   semaphore may answer is a relation, and where a round leaves its process is computed from the
--   answer. Synchronization.Exclusion is about all sequences of such steps.
--
-- Plugin: src/s2e/Plugin.cpp and include/s2e/Plugin.h. Plugin.Registry is about the factory that the
--   plugins are registered with, Plugin.State about the cached state of a plugin, which
--   S2EExecutionState::getPluginState() of include/s2e/S2EExecutionState.h holds.
--
-- ExecutionState: src/s2e/S2EExecutionState.cpp and include/s2e/S2EExecutionState.h, the memory of the
--   guest in an execution state.
--   ExecutionState.Klee: KLEE's address space and expressions, a parameter with its laws.
--   ExecutionState.Memory: getHostAddress(), the look-up in m_memcache (a MemoryCache) before the address
--   space, addressSpaceChange() and the copies that AddressSpace::getWriteable() makes. QEMU's page
--   tables are a parameter. Memory.Coherence and Memory.Copy keep the cache in step with the address space.
--   ExecutionState.Ram: readRamConcrete() and writeRamConcrete(), for QEMU's concrete code.
--   ExecutionState.Access: readMemory(), writeMemory() and their variants, for the plugins. Accesses of
--   one bit have functions of their own, and Access.Bits brings them back to accesses of a byte.
--   ExecutionState.Registers: readCpuRegister(), writeCpuRegister(), readCpuState() and writeCpuState(),
--   with switchToConcrete() and switchToSymbolic() of src/s2e/S2EExecutor.cpp. Registers.Modes is about
--   the switches, Routes and Writes about reads after writes, System about the part that is never symbolic. The
--   object state of the registers is a parameter with its laws.
--   `stop` says whether the assertion with "J stubbed" in addressSpaceChange() stops a run, as it does
--   unless the program is built with NDEBUG.
--
-- Instance: src/s2e/S2E.cpp and include/s2e/S2E.h, the instance of S2E in a process.
--   Instance.Processes: the table of processes that the instances share behind the semaphore of
--   Synchronization, with fork(), ~S2E() and checkDeadProcesses(). Each section between acquire() and
--   release() is one step of a relation; Processes.Safety is about all sequences of such steps. The
--   slots are those below m_maxProcesses.
--   Instance.Plugins: initPlugins(), which loads the plugins of the configuration from Plugin's factory.
--
-- ConfigFile: src/s2e/ConfigFile.cpp and include/s2e/ConfigFile.h, typed access to the configuration.
--   ConfigFile.Scalars is about single values, Lists about lists, Keys about the keys of a table. Lua is
--   a parameter; its stack is a list of values, which the getters pass on.
--
-- How the code is read:
--   Machine integers are natural numbers, with the wrap-around written out where the code can meet
--   it. A failed assert, an access out of an array or through a null pointer, a read of an erased
--   element and a shift by too much are values of Common.Results.Fault. Allocators and memory are
--   values that are passed on from call to call; memory gives the block header at an address, and
--   the bytes within a block are left out. What mmap and malloc return is an argument of each call.
--   Loops are recursion on the list, on the number of rounds or tries, or on the answers of the
--   system calls. Fuel is used for the functions of ConfigFile that walk through a table, where it
--   bounds the number of rounds, and for those of ExecutionState that call themselves where an
--   access leaves a RAM object of 128 bytes; it bounds the depth of these calls. The theorems ask
--   for more of it than a table has entries, and for as much as there are objects to reach.
--   Sizes of accesses there are small enough not to wrap round.
--
-- Not modelled: QEMU, KLEE, LLVM and Lua, which are libraries; the memory layout of the intrusive
-- lists, which are sequences of page addresses here; the fill patterns that memset writes.
pub mod Common
pub mod ConfigFile
pub mod DeviceState
pub mod ExecutionState
pub mod Instance
pub mod MemoryCache
pub mod Plugin
pub mod Slab
pub mod Socket
pub mod Synchronization

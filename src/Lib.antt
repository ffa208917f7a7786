-- ===== src/Lib.antt =====
-- The drivers of this repository, written along "Linux Device Drivers": what they do to their
-- state, and what their callers may rely on.
--
-- Kernel holds what the drivers use of Linux, all of it as parameters: the results of memory
-- requests, the copies between kernel and user memory, `fasync_helper` and `nonseekable_open`,
-- with the record IsLinux of what their documentation promises. Prelude holds the shared names,
-- tests, lists by native index and `size_t` arithmetic, which wraps at 2 ^ 64.
--
-- Scull is the memory device of scull/main.c and scull/scull.h. Scull/Device has the data and
-- `scull_open` with `__scull_trim` (`trim`); Scull/Io has `__scull_follow` (`follow`),
-- `scull_read` and `scull_write`. The chain of quantum sets is a list, and the array of a set a
-- list of optional quanta. An operation that divides by zero is `none`. The size of a quantum's
-- memory is not part of the model of the operations: it is that of the objects of the cache,
-- which Scull/Control, Scull/Resizing and Scull/Growth compare with the size that a device takes
-- its quanta to have. Scull/Content says which byte stands at a position, Scull/Position,
-- Scull/Walk and Scull/Overwrite have the lemmas on the arithmetic, on the walk along the chain
-- and on the copies; Scull/Write, Scull/Read, Scull/Shape, Scull/Success and Scull/Trim have the
-- results. Scull/Spares is about writes that fail. Scull/History has runs of opens, reads and
-- writes with the file of bytes that they make, and Scull/AsFile and Scull/Refine show that a
-- device is this file. Scull/WriteLoop and Scull/ReadLoop have the loops that a user writes
-- around `write` and `read`, which may do less than they are asked for; their fuel is the number
-- of bytes asked for, which is enough since each call that does not end the loop does one.
-- Scull/Places says that the positions and the places in the chain of sets are one type.
-- Scull/Proc is scull/proc.c, the file /proc/scullmem, and Scull/Listing what it shows; a read
-- past the end of a quantum is `none`. How the kernel goes through such a file is bounded by a
-- fuel, for which the number of devices plus one is enough. Scull/Setup has `scull_init_module`
-- and `scull_cleanup_module` with what the kernel answers as a record, and Scull/Loading and
-- Scull/Unloading what they leave; it takes the pipe devices from Pipe/Setup, which is
-- `scull_p_init` and `scull_p_cleanup`. What would be undefined behaviour there, such as the
-- lock of a mutex that was never initialised, is recorded as a fault, and so is the destruction
-- of a cache that still has objects; whether `kmem_cache_destroy` destroys a cache is a
-- parameter. Scull/Meminfo has the sums of `__scull_meminfo`. Scull/Lifetime goes through
-- loading, any calls on all devices, and unloading, and Scull/Growth follows a size that an
-- ioctl raises, from the cache made at loading to a write. Scull/Control puts the calls and the
-- ioctl commands of all processes on all devices in any order, and Scull/Resizing has what holds
-- after them.
--
-- Pipe is the pipe device of scull/pipe.c and scull/pipe.h. Pipe/Device has the data and
-- `spacefree`, Pipe/Io `scull_p_read`, `scull_p_write` and `scull_p_poll`, Pipe/Open the opening
-- and closing. A process that sleeps releases the lock: the list of wake-ups that a call is
-- given says how each of its sleeps ends, by a signal or with the lock taken again on the device
-- as the other processes left it. So the loops are structural in that list, and a call whose
-- list ends while it waits is asleep; no fuel is needed. A copy outside the buffer is the
-- outcome `oops`. Pipe/Ring has the queue of waiting bytes, Pipe/Transfer and Pipe/Handlers the
-- lemmas, and Pipe/Calls, Pipe/Counts and Pipe/History the results. Pipe/Users has the processes
-- that open, use and close one device as a list of events, Pipe/Sharing and Pipe/Closing what
-- holds in all of their orders. Pipe/Sleepers has who sleeps in the two queues and which
-- wake-ups are still to be sent, one step for each piece of code that runs with the lock held,
-- for the entry to a queue and for the look at the device from there; Pipe/Wakeups and
-- Pipe/Waking have what holds of the sleepers, Pipe/Stranded what opening and closing do to
-- them. What `wake_up_interruptible` does to a queue is a parameter. Pipe/Fifo is the device
-- with the proper behaviour of a FIFO, where an open for reading waits for a writer with the
-- lock released: who has it open, who waits and who has been woken, one event for each piece of
-- `scull_p_open` that runs with the lock held; Pipe/Fifo/Invariant, Opening, Waiting and Runs go
-- through its events. Pipe/Release has the closing that they share with Pipe/Closing, and
-- Pipe/Shortage the opening that finds no memory.
--
-- Ioctl is `scull_ioctl` of scull/ioctl.c, which both devices share. A command stands as its
-- four fields. `unsigned long` has 64 bits and `int` 32.
--
-- Edu is the driver of QEMU's edu device. Edu/State has edu/hw.h and edu/state.h, Edu/Irq the
-- handlers and the timeout of edu/irq.c, Edu/TestIrq `test_irq_show` of edu/sysfs.c, and
-- Edu/System the step relation of all of these, one step for each piece of code that runs with
-- the lock held. What `readl` gives is an argument. A timeout may run at any time there, pending
-- or not. Edu/Watch has the same steps with what the kernel and the device still have to deliver
-- while the device stays attached, and which of these will wake a test that sleeps.
--
-- Edu/Sysfs has the numbers of the files `version` and `inverse` of edu/sysfs.c. Edu/Release has
-- what the driver holds, as the record Driver, with `qedu_remove` and `__qedu_remove` of
-- edu/init.c, and Edu/Probe has `qedu_probe` and the creation of the sysfs files: the record Pci
-- is what the kernel and the device answer, and each label of the unwinding is a definition.
-- What other code does to the flags while the lock is released is a function that the theorems
-- let be any. Where a theorem needs more of that code, which is the rest of the driver,
-- Edu/Stopped states it and shows it of the driver's handlers and tests. Edu/Attach has the
-- results on probing, Edu/Detach those on removal.
--
-- Qus is the USB storage driver qus/qus.c: Qus/Storage has `qus_probe` and `qus_disconnect` with
-- the reference count, Qus/Lifecycle the results.
--
-- Jit is jit/jit.c: Jit/Delay has the files that wait, Jit/Clock the file of the current time,
-- Jit/Timer and Jit/Tasklet the files whose lines are printed later. What `jiffies` is at each
-- test or run is a list, so the loops are structural in it and need no fuel; `time_before` is a
-- parameter. Jit/Laws and Jit/Alike have the results.
--
-- Jiq is jiq/jiq.c: Jiq/Print has `jiq_print` and the functions that run it from a queue,
-- Jiq/Files the four files, Jiq/Laws and Jiq/Timer the results. The file that is printed to is a
-- parameter that counts its characters, and the runs are a list of times and lengths of lines.
-- Jiq/Sharing has the one `jiq_data` of all files, with its queues, which run on whether a
-- reader waits or not, Jiq/Queues the lemmas on these queues, and Jiq/Lone what holds where
-- readers come one at a time.
--
-- Procfs has the entries below /proc of jit/jit.c, jiq/jiq.c and scull/proc.c: Procfs/Tree is
-- the directory as an interface, a record of `proc_create`, `remove_proc_entry` and a lookup
-- with their laws, of which a name that is taken is not created again is one. Procfs/Entries has
-- what the modules create and remove and which function opens each file, Procfs/Laws the
-- results.
--
-- Examples has concrete inputs at which the theorems apply.
--
-- Locks: the operations of a memory device run as a whole under the mutex of the device, so they
-- are functions; a call of a pipe device notes whether it holds the lock, by `lock` and `unlock`
-- of Pipe/Device, which are the wrappers of scull/mutex_sparse.h without their annotations for a
-- checker. Not modelled are the text of what is printed, and the functions that only pass a
-- table to the kernel: the registration of the drivers edu and qus.
pub mod Prelude
pub mod Kernel
pub mod Scull
pub mod Pipe
pub mod Ioctl
pub mod Edu
pub mod Qus
pub mod Jit
pub mod Jiq
pub mod Procfs
pub mod Examples

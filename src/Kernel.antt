-- ===== src/Kernel.antt =====
-- FrodOS/kernel.c, besides its RAM file system: the copy routine, the import of the boot archive
-- into FrodFS, the system calls, the boot, and what all of them keep.
pub mod Copy
pub mod Import
pub mod Syscall
pub mod Boot
pub mod Sound
pub mod Reach
pub mod Tests

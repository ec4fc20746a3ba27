-- ===== src/UserLib.antt =====
-- userland/StdLib/src: the library of the programs outside the kernel.
pub mod StdIo
pub mod Ipc
pub mod Malloc

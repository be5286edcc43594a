-- ===== src/Fs.antt =====
-- kernel/fs/fs.c and file.c, and the descriptor functions of kernel/core/task.c: paths, the file
-- table with its reference counts, the descriptor table of the running task, and the system calls
-- on files over a file system's operations. A `file_t *` is an index of the file table. Each call is
-- one step, since a file system's mutex is held around its operation.
pub mod Path
pub mod Files
pub mod Calls
pub mod Mount
pub mod Devfs
pub mod Refs
pub mod Inherit
pub mod Numbers
mod Tests

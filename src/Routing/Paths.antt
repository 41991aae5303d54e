-- ===== src/Routing/Paths.antt =====
-- src/arg_routing.c: the tables of `string_arg_entry` for paths, descriptors and modes of the file system,
-- each with its lookup. Bit i of a mask stands for argument i.
use mini_strace.Base.{ℕ, String, [], ◌∷◌}
use mini_strace.Routing.Lookup.{MaskTable, mask_lookup}

unfoldable pub string_arg_table : MaskTable
string_arg_table =
    ("open", 0x01)
    ∷ ("openat", 0x02)
    ∷ ("creat", 0x01)
    ∷ ("access", 0x01)
    ∷ ("faccessat", 0x02)
    ∷ ("faccessat2", 0x02)
    ∷ ("stat", 0x01)
    ∷ ("lstat", 0x01)
    ∷ ("newfstatat", 0x02)
    ∷ ("statx", 0x02)
    ∷ ("execve", 0x01)
    ∷ ("execveat", 0x02)
    ∷ ("unlink", 0x01)
    ∷ ("unlinkat", 0x02)
    ∷ ("mkdir", 0x01)
    ∷ ("mkdirat", 0x02)
    ∷ ("rmdir", 0x01)
    ∷ ("chdir", 0x01)
    ∷ ("rename", 0x03)
    ∷ ("renameat", 0x0a)
    ∷ ("renameat2", 0x0a)
    ∷ ("memfd_create", 0x01)
    ∷ ("readlink", 0x01)
    ∷ ("readlinkat", 0x02)
    ∷ ("chmod", 0x01)
    ∷ ("fchmodat", 0x02)
    ∷ ("chown", 0x01)
    ∷ ("lchown", 0x01)
    ∷ ("fchownat", 0x02)
    ∷ ("truncate", 0x01)
    ∷ ("statfs", 0x01)
    ∷ ("symlink", 0x03)
    ∷ ("symlinkat", 0x05)
    ∷ ("link", 0x03)
    ∷ ("linkat", 0x0a)
    ∷ ("mount", 0x07)
    ∷ ("umount2", 0x01)
    ∷ ("chroot", 0x01)
    ∷ ("pivot_root", 0x03)
    ∷ ("utime", 0x01)
    ∷ ("utimes", 0x01)
    ∷ ("futimesat", 0x02)
    ∷ []

unfoldable pub string_arg_mask : String → ℕ
unfolding string_arg_table mask_lookup
string_arg_mask syscall = mask_lookup string_arg_table syscall

unfoldable pub argv_arg_table : MaskTable
argv_arg_table = ("execve", 0x06) ∷ ("execveat", 0x0c) ∷ []

unfoldable pub argv_arg_mask : String → ℕ
unfolding argv_arg_table mask_lookup
argv_arg_mask syscall = mask_lookup argv_arg_table syscall

unfoldable pub fd_arg_table : MaskTable
fd_arg_table =
    ("read", 0x01)
    ∷ ("write", 0x01)
    ∷ ("pread64", 0x01)
    ∷ ("pwrite64", 0x01)
    ∷ ("close", 0x01)
    ∷ ("fstat", 0x01)
    ∷ ("lseek", 0x01)
    ∷ ("ioctl", 0x01)
    ∷ ("fcntl", 0x01)
    ∷ ("dup", 0x01)
    ∷ ("dup2", 0x03)
    ∷ ("dup3", 0x03)
    ∷ ("fchmod", 0x01)
    ∷ ("fchown", 0x01)
    ∷ ("ftruncate", 0x01)
    ∷ ("fstatfs", 0x01)
    ∷ ("fsync", 0x01)
    ∷ ("fdatasync", 0x01)
    ∷ ("flock", 0x01)
    ∷ ("mmap", 0x10)
    ∷ ("openat", 0x01)
    ∷ ("faccessat", 0x01)
    ∷ ("faccessat2", 0x01)
    ∷ ("unlinkat", 0x01)
    ∷ ("mkdirat", 0x01)
    ∷ ("renameat", 0x05)
    ∷ ("renameat2", 0x05)
    ∷ ("newfstatat", 0x01)
    ∷ ("readlinkat", 0x01)
    ∷ ("fchmodat", 0x01)
    ∷ ("fchownat", 0x01)
    ∷ ("symlinkat", 0x02)
    ∷ ("linkat", 0x05)
    ∷ ("futimesat", 0x01)
    ∷ ("accept", 0x01)
    ∷ ("accept4", 0x01)
    ∷ ("bind", 0x01)
    ∷ ("listen", 0x01)
    ∷ ("connect", 0x01)
    ∷ ("getsockname", 0x01)
    ∷ ("getpeername", 0x01)
    ∷ ("setsockopt", 0x01)
    ∷ ("getsockopt", 0x01)
    ∷ ("shutdown", 0x01)
    ∷ ("sendto", 0x01)
    ∷ ("recvfrom", 0x01)
    ∷ ("sendmsg", 0x01)
    ∷ ("recvmsg", 0x01)
    ∷ []

unfoldable pub fd_arg_mask : String → ℕ
unfolding fd_arg_table mask_lookup
fd_arg_mask syscall = mask_lookup fd_arg_table syscall

unfoldable pub dirfd_arg_table : MaskTable
dirfd_arg_table =
    ("openat", 0x01)
    ∷ ("openat2", 0x01)
    ∷ ("faccessat", 0x01)
    ∷ ("faccessat2", 0x01)
    ∷ ("unlinkat", 0x01)
    ∷ ("mkdirat", 0x01)
    ∷ ("mknodat", 0x01)
    ∷ ("renameat", 0x05)
    ∷ ("renameat2", 0x05)
    ∷ ("newfstatat", 0x01)
    ∷ ("statx", 0x01)
    ∷ ("readlinkat", 0x01)
    ∷ ("fchmodat", 0x01)
    ∷ ("fchmodat2", 0x01)
    ∷ ("fchownat", 0x01)
    ∷ ("symlinkat", 0x02)
    ∷ ("linkat", 0x05)
    ∷ ("futimesat", 0x01)
    ∷ ("utimensat", 0x01)
    ∷ ("execveat", 0x01)
    ∷ ("name_to_handle_at", 0x01)
    ∷ []

unfoldable pub dirfd_arg_mask : String → ℕ
unfolding dirfd_arg_table mask_lookup
dirfd_arg_mask syscall = mask_lookup dirfd_arg_table syscall

unfoldable pub file_mode_arg_table : MaskTable
file_mode_arg_table =
    ("chmod", 0x02)
    ∷ ("fchmod", 0x02)
    ∷ ("fchmodat", 0x04)
    ∷ ("fchmodat2", 0x04)
    ∷ ("mkdir", 0x02)
    ∷ ("mkdirat", 0x04)
    ∷ ("mknod", 0x02)
    ∷ ("mknodat", 0x04)
    ∷ ("creat", 0x02)
    ∷ ("umask", 0x01)
    ∷ []

unfoldable pub file_mode_arg_mask : String → ℕ
unfolding file_mode_arg_table mask_lookup
file_mode_arg_mask syscall = mask_lookup file_mode_arg_table syscall

unfoldable pub open_mode_arg_table : MaskTable
open_mode_arg_table = ("open", 0x04) ∷ ("openat", 0x08) ∷ []

unfoldable pub open_mode_arg_mask : String → ℕ
unfolding open_mode_arg_table mask_lookup
open_mode_arg_mask syscall = mask_lookup open_mode_arg_table syscall

unfoldable pub open_flags_arg_table : MaskTable
open_flags_arg_table = ("open", 0x02) ∷ ("openat", 0x04) ∷ []

unfoldable pub open_flags_arg_mask : String → ℕ
unfolding open_flags_arg_table mask_lookup
open_flags_arg_mask syscall = mask_lookup open_flags_arg_table syscall

unfoldable pub access_mode_arg_table : MaskTable
access_mode_arg_table = ("access", 0x02) ∷ ("faccessat", 0x04) ∷ ("faccessat2", 0x04) ∷ []

unfoldable pub access_mode_arg_mask : String → ℕ
unfolding access_mode_arg_table mask_lookup
access_mode_arg_mask syscall = mask_lookup access_mode_arg_table syscall

unfoldable pub at_flags_arg_table : MaskTable
at_flags_arg_table =
    ("newfstatat", 0x08)
    ∷ ("statx", 0x04)
    ∷ ("linkat", 0x10)
    ∷ ("utimensat", 0x08)
    ∷ ("fchmodat2", 0x08)
    ∷ ("fchownat", 0x10)
    ∷ ("execveat", 0x10)
    ∷ []

unfoldable pub at_flags_arg_mask : String → ℕ
unfolding at_flags_arg_table mask_lookup
at_flags_arg_mask syscall = mask_lookup at_flags_arg_table syscall

unfoldable pub unlinkat_flags_arg_table : MaskTable
unlinkat_flags_arg_table = ("unlinkat", 0x04) ∷ []

unfoldable pub unlinkat_flags_arg_mask : String → ℕ
unfolding unlinkat_flags_arg_table mask_lookup
unlinkat_flags_arg_mask syscall = mask_lookup unlinkat_flags_arg_table syscall

unfoldable pub faccessat_flags_arg_table : MaskTable
faccessat_flags_arg_table = ("faccessat2", 0x08) ∷ []

unfoldable pub faccessat_flags_arg_mask : String → ℕ
unfolding faccessat_flags_arg_table mask_lookup
faccessat_flags_arg_mask syscall = mask_lookup faccessat_flags_arg_table syscall

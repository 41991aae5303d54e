-- ===== src/Decoders/Tables/Files.antt =====
-- src/decoders.c: the tables of names for open flags, memory maps, mounts, file calls. The values of the macros are those of
-- Linux on x86-64 with the GNU C library.
use mini_strace.Base.{[], ◌∷◌}
use mini_strace.Decoders.Walk.{FlagTable, row}

abbrev pub open_flag_table : FlagTable
open_flag_table =
    row 0x410000 "O_TMPFILE"
    ∷ row 0x101000 "O_SYNC"
    ∷ row 0x40 "O_CREAT"
    ∷ row 0x80 "O_EXCL"
    ∷ row 0x100 "O_NOCTTY"
    ∷ row 0x200 "O_TRUNC"
    ∷ row 0x400 "O_APPEND"
    ∷ row 0x800 "O_NONBLOCK"
    ∷ row 0x1000 "O_DSYNC"
    ∷ row 0x4000 "O_DIRECT"
    ∷ row 0x0 "O_LARGEFILE"
    ∷ row 0x10000 "O_DIRECTORY"
    ∷ row 0x20000 "O_NOFOLLOW"
    ∷ row 0x40000 "O_NOATIME"
    ∷ row 0x80000 "O_CLOEXEC"
    ∷ row 0x200000 "O_PATH"
    ∷ []

abbrev pub prot_flag_table : FlagTable
prot_flag_table = row 0x1 "PROT_READ" ∷ row 0x2 "PROT_WRITE" ∷ row 0x4 "PROT_EXEC" ∷ []

abbrev pub map_flag_table : FlagTable
map_flag_table =
    row 0x1 "MAP_SHARED"
    ∷ row 0x2 "MAP_PRIVATE"
    ∷ row 0x10 "MAP_FIXED"
    ∷ row 0x20 "MAP_ANONYMOUS"
    ∷ row 0x100 "MAP_GROWSDOWN"
    ∷ row 0x800 "MAP_DENYWRITE"
    ∷ row 0x1000 "MAP_EXECUTABLE"
    ∷ row 0x2000 "MAP_LOCKED"
    ∷ row 0x4000 "MAP_NORESERVE"
    ∷ row 0x8000 "MAP_POPULATE"
    ∷ row 0x10000 "MAP_NONBLOCK"
    ∷ row 0x20000 "MAP_STACK"
    ∷ row 0x40000 "MAP_HUGETLB"
    ∷ []

abbrev pub mount_flag_table : FlagTable
mount_flag_table =
    row 0x1 "MS_RDONLY"
    ∷ row 0x2 "MS_NOSUID"
    ∷ row 0x4 "MS_NODEV"
    ∷ row 0x8 "MS_NOEXEC"
    ∷ row 0x10 "MS_SYNCHRONOUS"
    ∷ row 0x20 "MS_REMOUNT"
    ∷ row 0x40 "MS_MANDLOCK"
    ∷ row 0x80 "MS_DIRSYNC"
    ∷ row 0x400 "MS_NOATIME"
    ∷ row 0x800 "MS_NODIRATIME"
    ∷ row 0x1000 "MS_BIND"
    ∷ row 0x2000 "MS_MOVE"
    ∷ row 0x4000 "MS_REC"
    ∷ row 0x8000 "MS_SILENT"
    ∷ row 0x10000 "MS_POSIXACL"
    ∷ row 0x20000 "MS_UNBINDABLE"
    ∷ row 0x40000 "MS_PRIVATE"
    ∷ row 0x80000 "MS_SLAVE"
    ∷ row 0x100000 "MS_SHARED"
    ∷ row 0x200000 "MS_RELATIME"
    ∷ row 0x400000 "MS_KERNMOUNT"
    ∷ row 0x800000 "MS_I_VERSION"
    ∷ row 0x1000000 "MS_STRICTATIME"
    ∷ row 0x2000000 "MS_LAZYTIME"
    ∷ []

abbrev pub lseek_whence_table : FlagTable
lseek_whence_table =
    row 0 "SEEK_SET"
    ∷ row 1 "SEEK_CUR"
    ∷ row 2 "SEEK_END"
    ∷ row 3 "SEEK_DATA"
    ∷ row 4 "SEEK_HOLE"
    ∷ []

abbrev pub fcntl_cmd_table : FlagTable
fcntl_cmd_table =
    row 0 "F_DUPFD"
    ∷ row 1030 "F_DUPFD_CLOEXEC"
    ∷ row 1 "F_GETFD"
    ∷ row 2 "F_SETFD"
    ∷ row 3 "F_GETFL"
    ∷ row 4 "F_SETFL"
    ∷ row 5 "F_GETLK"
    ∷ row 6 "F_SETLK"
    ∷ row 7 "F_SETLKW"
    ∷ row 9 "F_GETOWN"
    ∷ row 8 "F_SETOWN"
    ∷ row 11 "F_GETSIG"
    ∷ row 10 "F_SETSIG"
    ∷ row 1024 "F_SETLEASE"
    ∷ row 1025 "F_GETLEASE"
    ∷ row 1031 "F_SETPIPE_SZ"
    ∷ row 1032 "F_GETPIPE_SZ"
    ∷ []

abbrev pub access_mode_table : FlagTable
access_mode_table = row 0x4 "R_OK" ∷ row 0x2 "W_OK" ∷ row 0x1 "X_OK" ∷ []

abbrev pub at_flag_table : FlagTable
at_flag_table =
    row 0x100 "AT_SYMLINK_NOFOLLOW"
    ∷ row 0x400 "AT_SYMLINK_FOLLOW"
    ∷ row 0x800 "AT_NO_AUTOMOUNT"
    ∷ row 0x1000 "AT_EMPTY_PATH"
    ∷ row 0x2000 "AT_STATX_FORCE_SYNC"
    ∷ row 0x4000 "AT_STATX_DONT_SYNC"
    ∷ row 0x8000 "AT_RECURSIVE"
    ∷ []

abbrev pub pipe2_flag_table : FlagTable
pipe2_flag_table = row 0x80000 "O_CLOEXEC" ∷ row 0x800 "O_NONBLOCK" ∷ row 0x4000 "O_DIRECT" ∷ []

abbrev pub getrandom_flag_table : FlagTable
getrandom_flag_table =
    row 0x1 "GRND_NONBLOCK" ∷ row 0x2 "GRND_RANDOM" ∷ row 0x4 "GRND_INSECURE" ∷ []

abbrev pub flock_op_table : FlagTable
flock_op_table = row 0x1 "LOCK_SH" ∷ row 0x2 "LOCK_EX" ∷ row 0x8 "LOCK_UN" ∷ row 0x4 "LOCK_NB" ∷ []

abbrev pub renameat2_flag_table : FlagTable
renameat2_flag_table =
    row 0x1 "RENAME_NOREPLACE" ∷ row 0x2 "RENAME_EXCHANGE" ∷ row 0x4 "RENAME_WHITEOUT" ∷ []

abbrev pub mremap_flag_table : FlagTable
mremap_flag_table =
    row 0x1 "MREMAP_MAYMOVE" ∷ row 0x2 "MREMAP_FIXED" ∷ row 0x4 "MREMAP_DONTUNMAP" ∷ []

abbrev pub memfd_flag_table : FlagTable
memfd_flag_table = row 0x1 "MFD_CLOEXEC" ∷ row 0x2 "MFD_ALLOW_SEALING" ∷ row 0x4 "MFD_HUGETLB" ∷ []

abbrev pub eventfd_flag_table : FlagTable
eventfd_flag_table =
    row 0x1 "EFD_SEMAPHORE" ∷ row 0x80000 "EFD_CLOEXEC" ∷ row 0x800 "EFD_NONBLOCK" ∷ []

abbrev pub statx_mask_table : FlagTable
statx_mask_table =
    row 0x7ff "STATX_BASIC_STATS"
    ∷ row 0x1 "STATX_TYPE"
    ∷ row 0x2 "STATX_MODE"
    ∷ row 0x4 "STATX_NLINK"
    ∷ row 0x8 "STATX_UID"
    ∷ row 0x10 "STATX_GID"
    ∷ row 0x20 "STATX_ATIME"
    ∷ row 0x40 "STATX_MTIME"
    ∷ row 0x80 "STATX_CTIME"
    ∷ row 0x100 "STATX_INO"
    ∷ row 0x200 "STATX_SIZE"
    ∷ row 0x400 "STATX_BLOCKS"
    ∷ row 0x800 "STATX_BTIME"
    ∷ row 0x1000 "STATX_MNT_ID"
    ∷ []

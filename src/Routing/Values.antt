-- ===== src/Routing/Values.antt =====
-- src/arg_routing.c: the tables for plain values and for structures that the caller fills in (first part),
-- each with its lookup. Bit i of a mask stands for argument i.
use mini_strace.Base.{ℕ, String, [], ◌∷◌}
use mini_strace.Routing.Lookup.{MaskTable, mask_lookup}

unfoldable pub prot_flags_arg_table : MaskTable
prot_flags_arg_table = ("mmap", 0x04) ∷ ("mprotect", 0x04) ∷ []

unfoldable pub prot_flags_arg_mask : String → ℕ
unfolding prot_flags_arg_table mask_lookup
prot_flags_arg_mask syscall = mask_lookup prot_flags_arg_table syscall

unfoldable pub map_flags_arg_table : MaskTable
map_flags_arg_table = ("mmap", 0x08) ∷ []

unfoldable pub map_flags_arg_mask : String → ℕ
unfolding map_flags_arg_table mask_lookup
map_flags_arg_mask syscall = mask_lookup map_flags_arg_table syscall

unfoldable pub mount_flags_arg_table : MaskTable
mount_flags_arg_table = ("mount", 0x08) ∷ []

unfoldable pub mount_flags_arg_mask : String → ℕ
unfolding mount_flags_arg_table mask_lookup
mount_flags_arg_mask syscall = mask_lookup mount_flags_arg_table syscall

unfoldable pub socket_domain_arg_table : MaskTable
socket_domain_arg_table = ("socket", 0x01) ∷ ("socketpair", 0x01) ∷ []

unfoldable pub socket_domain_arg_mask : String → ℕ
unfolding socket_domain_arg_table mask_lookup
socket_domain_arg_mask syscall = mask_lookup socket_domain_arg_table syscall

unfoldable pub socket_type_arg_table : MaskTable
socket_type_arg_table = ("socket", 0x02) ∷ ("socketpair", 0x02) ∷ []

unfoldable pub socket_type_arg_mask : String → ℕ
unfolding socket_type_arg_table mask_lookup
socket_type_arg_mask syscall = mask_lookup socket_type_arg_table syscall

unfoldable pub sockopt_level_arg_table : MaskTable
sockopt_level_arg_table = ("setsockopt", 0x02) ∷ ("getsockopt", 0x02) ∷ []

unfoldable pub sockopt_level_arg_mask : String → ℕ
unfolding sockopt_level_arg_table mask_lookup
sockopt_level_arg_mask syscall = mask_lookup sockopt_level_arg_table syscall

unfoldable pub sockopt_optname_arg_table : MaskTable
sockopt_optname_arg_table = ("setsockopt", 0x04) ∷ ("getsockopt", 0x04) ∷ []

unfoldable pub sockopt_optname_arg_mask : String → ℕ
unfolding sockopt_optname_arg_table mask_lookup
sockopt_optname_arg_mask syscall = mask_lookup sockopt_optname_arg_table syscall

unfoldable pub fdset_arg_table : MaskTable
fdset_arg_table = ("select", 0x0e) ∷ ("pselect6", 0x0e) ∷ []

unfoldable pub fdset_arg_mask : String → ℕ
unfolding fdset_arg_table mask_lookup
fdset_arg_mask syscall = mask_lookup fdset_arg_table syscall

unfoldable pub msg_flags_arg_table : MaskTable
msg_flags_arg_table =
    ("sendto", 0x08) ∷ ("recvfrom", 0x08) ∷ ("sendmsg", 0x04) ∷ ("recvmsg", 0x04) ∷ []

unfoldable pub msg_flags_arg_mask : String → ℕ
unfolding msg_flags_arg_table mask_lookup
msg_flags_arg_mask syscall = mask_lookup msg_flags_arg_table syscall

unfoldable pub renameat2_flags_arg_table : MaskTable
renameat2_flags_arg_table = ("renameat2", 0x10) ∷ []

unfoldable pub renameat2_flags_arg_mask : String → ℕ
unfolding renameat2_flags_arg_table mask_lookup
renameat2_flags_arg_mask syscall = mask_lookup renameat2_flags_arg_table syscall

unfoldable pub mremap_flags_arg_table : MaskTable
mremap_flags_arg_table = ("mremap", 0x08) ∷ []

unfoldable pub mremap_flags_arg_mask : String → ℕ
unfolding mremap_flags_arg_table mask_lookup
mremap_flags_arg_mask syscall = mask_lookup mremap_flags_arg_table syscall

unfoldable pub memfd_flags_arg_table : MaskTable
memfd_flags_arg_table = ("memfd_create", 0x02) ∷ []

unfoldable pub memfd_flags_arg_mask : String → ℕ
unfolding memfd_flags_arg_table mask_lookup
memfd_flags_arg_mask syscall = mask_lookup memfd_flags_arg_table syscall

unfoldable pub eventfd_flags_arg_table : MaskTable
eventfd_flags_arg_table = ("eventfd2", 0x02) ∷ []

unfoldable pub eventfd_flags_arg_mask : String → ℕ
unfolding eventfd_flags_arg_table mask_lookup
eventfd_flags_arg_mask syscall = mask_lookup eventfd_flags_arg_table syscall

unfoldable pub wait4_options_arg_table : MaskTable
wait4_options_arg_table = ("wait4", 0x04) ∷ []

unfoldable pub wait4_options_arg_mask : String → ℕ
unfolding wait4_options_arg_table mask_lookup
wait4_options_arg_mask syscall = mask_lookup wait4_options_arg_table syscall

unfoldable pub waitid_idtype_arg_table : MaskTable
waitid_idtype_arg_table = ("waitid", 0x01) ∷ []

unfoldable pub waitid_idtype_arg_mask : String → ℕ
unfolding waitid_idtype_arg_table mask_lookup
waitid_idtype_arg_mask syscall = mask_lookup waitid_idtype_arg_table syscall

unfoldable pub waitid_options_arg_table : MaskTable
waitid_options_arg_table = ("waitid", 0x08) ∷ []

unfoldable pub waitid_options_arg_mask : String → ℕ
unfolding waitid_options_arg_table mask_lookup
waitid_options_arg_mask syscall = mask_lookup waitid_options_arg_table syscall

unfoldable pub sched_policy_arg_table : MaskTable
sched_policy_arg_table = ("sched_setscheduler", 0x02) ∷ []

unfoldable pub sched_policy_arg_mask : String → ℕ
unfolding sched_policy_arg_table mask_lookup
sched_policy_arg_mask syscall = mask_lookup sched_policy_arg_table syscall

unfoldable pub rusage_who_arg_table : MaskTable
rusage_who_arg_table = ("getrusage", 0x01) ∷ []

unfoldable pub rusage_who_arg_mask : String → ℕ
unfolding rusage_who_arg_table mask_lookup
rusage_who_arg_mask syscall = mask_lookup rusage_who_arg_table syscall

unfoldable pub rlimit_in_arg_table : MaskTable
rlimit_in_arg_table = ("setrlimit", 0x02) ∷ ("prlimit64", 0x04) ∷ []

unfoldable pub rlimit_in_arg_mask : String → ℕ
unfolding rlimit_in_arg_table mask_lookup
rlimit_in_arg_mask syscall = mask_lookup rlimit_in_arg_table syscall

unfoldable pub rlimit_resource_arg_table : MaskTable
rlimit_resource_arg_table = ("getrlimit", 0x01) ∷ ("setrlimit", 0x01) ∷ ("prlimit64", 0x02) ∷ []

unfoldable pub rlimit_resource_arg_mask : String → ℕ
unfolding rlimit_resource_arg_table mask_lookup
rlimit_resource_arg_mask syscall = mask_lookup rlimit_resource_arg_table syscall

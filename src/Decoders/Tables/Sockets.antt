-- ===== src/Decoders/Tables/Sockets.antt =====
-- src/decoders.c: the tables of names for sockets, polling, device requests. The values of the macros are those of
-- Linux on x86-64 with the GNU C library.
use mini_strace.Base.{[], ◌∷◌}
use mini_strace.Decoders.Walk.{FlagTable, row}

abbrev pub socket_domain_table : FlagTable
socket_domain_table =
    row 1 "AF_UNIX"
    ∷ row 2 "AF_INET"
    ∷ row 10 "AF_INET6"
    ∷ row 16 "AF_NETLINK"
    ∷ row 17 "AF_PACKET"
    ∷ row 0 "AF_UNSPEC"
    ∷ []

abbrev pub socket_type_table : FlagTable
socket_type_table =
    row 1 "SOCK_STREAM"
    ∷ row 2 "SOCK_DGRAM"
    ∷ row 3 "SOCK_RAW"
    ∷ row 4 "SOCK_RDM"
    ∷ row 5 "SOCK_SEQPACKET"
    ∷ row 10 "SOCK_PACKET"
    ∷ []

abbrev pub ioctl_request_table : FlagTable
ioctl_request_table =
    row 0x5401 "TCGETS"
    ∷ row 0x5402 "TCSETS"
    ∷ row 0x5403 "TCSETSW"
    ∷ row 0x5404 "TCSETSF"
    ∷ row 0x5405 "TCGETA"
    ∷ row 0x5406 "TCSETA"
    ∷ row 0x5407 "TCSETAW"
    ∷ row 0x5408 "TCSETAF"
    ∷ row 0x5409 "TCSBRK"
    ∷ row 0x540a "TCXONC"
    ∷ row 0x540b "TCFLSH"
    ∷ row 0x540c "TIOCEXCL"
    ∷ row 0x540d "TIOCNXCL"
    ∷ row 0x540e "TIOCSCTTY"
    ∷ row 0x540f "TIOCGPGRP"
    ∷ row 0x5410 "TIOCSPGRP"
    ∷ row 0x5411 "TIOCOUTQ"
    ∷ row 0x5412 "TIOCSTI"
    ∷ row 0x5413 "TIOCGWINSZ"
    ∷ row 0x5414 "TIOCSWINSZ"
    ∷ row 0x5415 "TIOCMGET"
    ∷ row 0x5416 "TIOCMBIS"
    ∷ row 0x5417 "TIOCMBIC"
    ∷ row 0x5418 "TIOCMSET"
    ∷ row 0x5419 "TIOCGSOFTCAR"
    ∷ row 0x541a "TIOCSSOFTCAR"
    ∷ row 0x541b "FIONREAD"
    ∷ row 0x541c "TIOCLINUX"
    ∷ row 0x541d "TIOCCONS"
    ∷ row 0x541e "TIOCGSERIAL"
    ∷ row 0x541f "TIOCSSERIAL"
    ∷ row 0x5420 "TIOCPKT"
    ∷ row 0x5421 "FIONBIO"
    ∷ row 0x5422 "TIOCNOTTY"
    ∷ row 0x5423 "TIOCSETD"
    ∷ row 0x5424 "TIOCGETD"
    ∷ row 0x5429 "TIOCGSID"
    ∷ row 0x80045430 "TIOCGPTN"
    ∷ row 0x40045431 "TIOCSPTLCK"
    ∷ row 0x5441 "TIOCGPTPEER"
    ∷ row 0x5450 "FIONCLEX"
    ∷ row 0x5451 "FIOCLEX"
    ∷ row 0x5452 "FIOASYNC"
    ∷ []

abbrev pub msg_flag_table : FlagTable
msg_flag_table =
    row 0x1 "MSG_OOB"
    ∷ row 0x2 "MSG_PEEK"
    ∷ row 0x4 "MSG_DONTROUTE"
    ∷ row 0x8 "MSG_CTRUNC"
    ∷ row 0x20 "MSG_TRUNC"
    ∷ row 0x40 "MSG_DONTWAIT"
    ∷ row 0x80 "MSG_EOR"
    ∷ row 0x100 "MSG_WAITALL"
    ∷ row 0x800 "MSG_CONFIRM"
    ∷ row 0x2000 "MSG_ERRQUEUE"
    ∷ row 0x4000 "MSG_NOSIGNAL"
    ∷ row 0x8000 "MSG_MORE"
    ∷ row 0x40000000 "MSG_CMSG_CLOEXEC"
    ∷ []

abbrev pub epoll_op_table : FlagTable
epoll_op_table = row 1 "EPOLL_CTL_ADD" ∷ row 2 "EPOLL_CTL_DEL" ∷ row 3 "EPOLL_CTL_MOD" ∷ []

abbrev pub epoll_events_flag_table : FlagTable
epoll_events_flag_table =
    row 0x1 "EPOLLIN"
    ∷ row 0x4 "EPOLLOUT"
    ∷ row 0x2 "EPOLLPRI"
    ∷ row 0x8 "EPOLLERR"
    ∷ row 0x10 "EPOLLHUP"
    ∷ row 0x40 "EPOLLRDNORM"
    ∷ row 0x80 "EPOLLRDBAND"
    ∷ row 0x100 "EPOLLWRNORM"
    ∷ row 0x200 "EPOLLWRBAND"
    ∷ row 0x400 "EPOLLMSG"
    ∷ row 0x2000 "EPOLLRDHUP"
    ∷ row 0x10000000 "EPOLLEXCLUSIVE"
    ∷ row 0x20000000 "EPOLLWAKEUP"
    ∷ row 0x40000000 "EPOLLONESHOT"
    ∷ row 0x80000000 "EPOLLET"
    ∷ []

abbrev pub poll_events_flag_table : FlagTable
poll_events_flag_table =
    row 0x1 "POLLIN"
    ∷ row 0x2 "POLLPRI"
    ∷ row 0x4 "POLLOUT"
    ∷ row 0x8 "POLLERR"
    ∷ row 0x10 "POLLHUP"
    ∷ row 0x20 "POLLNVAL"
    ∷ row 0x40 "POLLRDNORM"
    ∷ row 0x80 "POLLRDBAND"
    ∷ row 0x100 "POLLWRNORM"
    ∷ row 0x200 "POLLWRBAND"
    ∷ row 0x2000 "POLLRDHUP"
    ∷ []

abbrev pub sockopt_level_table : FlagTable
sockopt_level_table =
    row 1 "SOL_SOCKET"
    ∷ row 0 "IPPROTO_IP"
    ∷ row 6 "IPPROTO_TCP"
    ∷ row 17 "IPPROTO_UDP"
    ∷ row 41 "IPPROTO_IPV6"
    ∷ row 1 "IPPROTO_ICMP"
    ∷ row 255 "SOL_RAW"
    ∷ row 263 "SOL_PACKET"
    ∷ []

abbrev pub sockopt_optname_socket_table : FlagTable
sockopt_optname_socket_table =
    row 1 "SO_DEBUG"
    ∷ row 2 "SO_REUSEADDR"
    ∷ row 3 "SO_TYPE"
    ∷ row 4 "SO_ERROR"
    ∷ row 5 "SO_DONTROUTE"
    ∷ row 6 "SO_BROADCAST"
    ∷ row 7 "SO_SNDBUF"
    ∷ row 8 "SO_RCVBUF"
    ∷ row 9 "SO_KEEPALIVE"
    ∷ row 10 "SO_OOBINLINE"
    ∷ row 13 "SO_LINGER"
    ∷ row 15 "SO_REUSEPORT"
    ∷ row 20 "SO_RCVTIMEO"
    ∷ row 21 "SO_SNDTIMEO"
    ∷ row 30 "SO_ACCEPTCONN"
    ∷ row 25 "SO_BINDTODEVICE"
    ∷ row 29 "SO_TIMESTAMP"
    ∷ row 16 "SO_PASSCRED"
    ∷ row 17 "SO_PEERCRED"
    ∷ row 18 "SO_RCVLOWAT"
    ∷ row 19 "SO_SNDLOWAT"
    ∷ []

abbrev pub sockopt_optname_tcp_table : FlagTable
sockopt_optname_tcp_table =
    row 1 "TCP_NODELAY"
    ∷ row 2 "TCP_MAXSEG"
    ∷ row 3 "TCP_CORK"
    ∷ row 4 "TCP_KEEPIDLE"
    ∷ row 5 "TCP_KEEPINTVL"
    ∷ row 6 "TCP_KEEPCNT"
    ∷ row 7 "TCP_SYNCNT"
    ∷ row 12 "TCP_QUICKACK"
    ∷ row 18 "TCP_USER_TIMEOUT"
    ∷ row 11 "TCP_INFO"
    ∷ row 9 "TCP_DEFER_ACCEPT"
    ∷ []

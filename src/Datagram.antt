-- ===== src/Datagram.antt =====
-- include/ioutils/udp.hpp, with the messages of include/ioutils/socket_base.hpp and the vectors of
-- include/buffer.hpp. The memory of the program is a function from an object to its bytes.
pub mod Vectors
mod Tests
use libcoio.Base.{
  ℕ, zero, suc, ◌+◌, ◌-◌, ◌*◌, ◌/◌, ◌%◌, ◌^◌, ◌≤◌, ◌<◌, min, max, ◌≡◌, refl, sym, ap, ◌∙◌, ◌≢◌, ◌↔◌,
  ◌⊎◌, inl, inr, Bool, true, false, not, ◌&&◌, ◌||◌, Option, none, some, List, [], ◌∷◌, ◌++◌,
  append-nil, append_assoc, arith, dec_lt, ltb, leb, ◌==◌, if◌then◌else◌, ltb_iff, leb_iff, ==_iff,
  Bool-cases, Option-cases, length, take, drop, replicate, length-append, length-take, length-drop,
  length-replicate, take-append-drop, take_all, drop_all, take-append_of_le, drop-append_of_le,
  take-append_add, drop-append_add, take-append_self, drop-append_self, drop-drop, drop-take,
  take-take, Bytes, codes, occurs, find, find_from, IsFirst, find-IsFirst, find_of_IsFirst,
  find-eq-none, find-none_at, find_from-eq-find, occurs-drop, occurs-append, length_of_occurs,
  find-le-length, find-append, find_splits, starts_with-append, starts_with,
}
use libcoio.Base.{ℤ, pos, negsuc}
use libcoio.Outcome.{Outcome, returned, threw, make_system_error}
use libcoio.Protocol.{SockaddrIn, address_len}
use libcoio.IoAwaiter.Operations.{size_result}

-- `iovec`: an object and the number of its bytes.
pub record Iovec : Type 0 where
  pub iov_base : ℕ
  pub iov_len : ℕ

-- A buffer by `data()` and `size()`.
pub record Buffer : Type 0 where
  pub data_at : ℕ
  pub size : ℕ

-- `make_iovecs`, which is the same for its three versions.
unfoldable pub make_iovecs : List Buffer → List Iovec
make_iovecs [] = []
make_iovecs (b ∷ bs) = record { iov_base = b.data_at; iov_len = b.size } ∷ make_iovecs bs

-- `msghdr`, with the name as the object of an address.
pub record Msghdr : Type 0 where
  pub msg_name : Option ℕ
  pub msg_namelen : ℕ
  pub msg_iov : List Iovec
  pub msg_iovlen : ℕ

-- `get_udp_msghdr_maker`
abbrev pub udp_msghdr : ℕ → Msghdr
udp_msghdr addr = record {
  msg_name = some addr;
  msg_namelen = address_len;
  msg_iov = [];
  msg_iovlen = 0;
}

-- What `recvmsg_impl` and `sendmsg_impl` put into the entry.
unfoldable pub message : Msghdr → List Buffer → Msghdr
message msg buffs = record msg {
  msg_iov = make_iovecs buffs;
  msg_iovlen = length (make_iovecs buffs);
}

abbrev pub msg_nosignal : ℕ
msg_nosignal = 16384

pub data Operation : Type 0 where
  prep_recvmsg prep_sendmsg : ℤ → Msghdr → ℕ → Operation

abbrev pub recvmsg_impl : ℤ → Msghdr → List Buffer → Operation
recvmsg_impl fd msg buffs = prep_recvmsg fd (message msg buffs) 0

abbrev pub sendmsg_impl : ℤ → Msghdr → List Buffer → Operation
sendmsg_impl fd msg buffs = prep_sendmsg fd (message msg buffs) msg_nosignal

abbrev pub recvfrom : ℤ → ℕ → Buffer → Operation
recvfrom fd addr buff = recvmsg_impl fd (udp_msghdr addr) (buff ∷ [])

abbrev pub sendto : ℤ → ℕ → Buffer → Operation
sendto fd addr buff = sendmsg_impl fd (udp_msghdr addr) (buff ∷ [])

-- `[](int res, int flag)` of both.
abbrev pub message_result : ℤ → Outcome ℕ
message_result res = size_result res

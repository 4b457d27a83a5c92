-- ===== src/IoAwaiter/Operations.antt =====
-- The operations of include/ioutils/tcp.hpp, include/ioutils/file.hpp,
-- include/ioutils/socket_base.hpp, include/ioutils/file_descriptor_base.hpp and include/time_delay.hpp: what they put into the
-- submission queue, and what they make of the result. Buffers are given by their length.
use libcoio.Base.{List}
use libcoio.Base.{ℕ, ◌+◌, ◌-◌, ◌*◌, ◌/◌, not, ltb, ◌==◌, if◌then◌else◌, Bytes, ℤ, pos, negsuc}
use libcoio.Outcome.{Outcome, returned, threw, make_system_error}

pub data Operation : Type 0 where
  prep_recv prep_send : ℕ → ℕ → Operation
  prep_accept prep_shutdown : ℕ → ℕ → Operation
  prep_connect : ℕ → Bytes → Operation
  prep_close : ℕ → Operation
  prep_openat : Bytes → ℕ → ℕ → Operation
  prep_read prep_write : ℕ → ℕ → ℕ → Operation
  prep_readv prep_writev : ℕ → List ℕ → ℕ → Operation
  prep_recvmsg prep_sendmsg : ℕ → List ℕ → Operation
  prep_timeout : ℤ → ℤ → Operation

-- `submit_io_task(fsubmit, fget)`
pub record IoTask (R : Type 0) : Type 0 where
  pub io_operation : Operation
  pub get_result : ℤ → Outcome R

-- `if (res < 0) throw make_system_error(-res)`, then the result as a count or a descriptor.
abbrev pub size_result : ℤ → Outcome ℕ
size_result (pos n) = returned n
size_result (negsuc n) = threw (make_system_error (n + 1))

abbrev pub void_result : ℤ → Outcome {0} Unit
void_result (pos n) = returned tt
void_result (negsuc n) = threw (make_system_error (n + 1))

abbrev pub etime : ℕ
etime = 62

-- `-res != ETIME && res < 0`
abbrev pub delay_result : ℤ → Outcome {0} Unit
delay_result (pos n) = returned tt
delay_result (negsuc n) =
    if not (n + 1 == etime) then threw (make_system_error (n + 1)) else returned tt

abbrev pub recv : ℕ → ℕ → IoTask ℕ
recv fd len = record { io_operation = prep_recv fd len; get_result = size_result }

abbrev pub send : ℕ → ℕ → IoTask ℕ
send fd len = record { io_operation = prep_send fd len; get_result = size_result }

-- The socket of the result, by its descriptor.
abbrev pub accept : ℕ → ℕ → IoTask ℕ
accept fd flag = record { io_operation = prep_accept fd flag; get_result = size_result }

abbrev pub connect : ℕ → Bytes → IoTask Unit
connect fd addr = record { io_operation = prep_connect fd addr; get_result = void_result }

abbrev pub shutdown : ℕ → ℕ → IoTask Unit
shutdown fd how = record { io_operation = prep_shutdown fd how; get_result = void_result }

abbrev pub openat : Bytes → ℕ → ℕ → IoTask ℕ
openat path flag mode = record {
  io_operation = prep_openat path flag mode;
  get_result = size_result;
}

abbrev pub read : ℕ → ℕ → ℕ → IoTask ℕ
read fd len off = record { io_operation = prep_read fd len off; get_result = size_result }

abbrev pub write : ℕ → ℕ → ℕ → IoTask ℕ
write fd len off = record { io_operation = prep_write fd len off; get_result = size_result }

-- The vectored forms, with the lengths of `make_iovecs`.
abbrev pub readv : ℕ → ℕ → List ℕ → IoTask ℕ
readv fd off lens = record { io_operation = prep_readv fd lens off; get_result = size_result }

abbrev pub writev : ℕ → ℕ → List ℕ → IoTask ℕ
writev fd off lens = record { io_operation = prep_writev fd lens off; get_result = size_result }

abbrev pub recvmsg_impl : ℕ → List ℕ → IoTask ℕ
recvmsg_impl fd lens = record { io_operation = prep_recvmsg fd lens; get_result = size_result }

abbrev pub sendmsg_impl : ℕ → List ℕ → IoTask ℕ
sendmsg_impl fd lens = record { io_operation = prep_sendmsg fd lens; get_result = size_result }

-- `async_close`; what its result does to the object is in Descriptor.
abbrev pub async_close : ℕ → IoTask Unit
async_close fd = record { io_operation = prep_close fd; get_result = void_result }

-- `to_kernel_timespec` of a duration in nanoseconds: seconds are rounded down, and below one second
-- the nanoseconds are the duration itself.
unfoldable pub to_kernel_timespec : ℤ → ℤ × ℤ
to_kernel_timespec (pos d) = (
  pos (d / 1000000000),
  if ltb d 1000000000 then pos d else pos (d - d / 1000000000 * 1000000000),
)
to_kernel_timespec (negsuc d) = (negsuc (d / 1000000000), negsuc d)

abbrev pub time_delay : ℤ → IoTask Unit
time_delay d = record {
  io_operation = prep_timeout (to_kernel_timespec d).0 (to_kernel_timespec d).1;
  get_result = delay_result;
}

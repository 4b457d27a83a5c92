-- ===== src/Datagram/Tests.antt =====
-- Messages of include/ioutils/udp.hpp on concrete buffers.
use libcoio.Base.{◌≡◌, refl, some, [], ◌∷◌, pos, negsuc}
use libcoio.Outcome.{threw, system_error}
use libcoio.Datagram.{Buffer, make_iovecs, message, recvfrom, prep_recvmsg, message_result}

abbrev page : Buffer
page = record { data_at = 50; size = 1024 }

received :
    recvfrom (pos 3) 9 page
    ≡ prep_recvmsg
        (pos 3)
        (record {
          msg_name = some 9;
          msg_namelen = 16;
          msg_iov = record { iov_base = 50; iov_len = 1024 } ∷ [];
          msg_iovlen = 1;
        })
        0
unfolding message make_iovecs
received = refl

refused : message_result (negsuc 110) ≡ threw (system_error 111)
refused = refl

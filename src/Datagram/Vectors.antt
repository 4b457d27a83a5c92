-- ===== src/Datagram/Vectors.antt =====
-- The vectors of include/buffer.hpp name the buffers, each with its size.
use libcoio.Base.{ℕ, suc, ◌+◌, ◌≡◌, refl, ap, List, [], ◌∷◌, length}
use libcoio.Datagram.{Iovec, Buffer, make_iovecs, Msghdr, message}

pub total : List Buffer → ℕ
total [] = 0
total (b ∷ bs) = b.size + total bs

pub room : List Iovec → ℕ
room [] = 0
room (v ∷ vs) = v.iov_len + room vs

room-make_iovecs : (bs : List Buffer) → room (make_iovecs bs) ≡ total bs
unfolding room make_iovecs total
room-make_iovecs [] = refl
room-make_iovecs (b ∷ bs) = ap (λ n. b.size + n) (room-make_iovecs bs)

length-make_iovecs : (bs : List Buffer) → length (make_iovecs bs) ≡ length bs
unfolding make_iovecs
length-make_iovecs [] = refl
length-make_iovecs (b ∷ bs) = ap suc (length-make_iovecs bs)

-- A message has one vector for each buffer and room for all their bytes, and keeps the address it is for.
pub message_lem :
    (msg : Msghdr) (bs : List Buffer)
    → ((message msg bs).msg_iovlen ≡ length bs)
      × (room (message msg bs).msg_iov ≡ total bs)
      × ((message msg bs).msg_name ≡ msg.msg_name)
unfolding message
message_lem msg bs = (length-make_iovecs bs, room-make_iovecs bs, refl)

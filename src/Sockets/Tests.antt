-- ===== src/Sockets/Tests.antt =====
-- Sockets of include/ioutils/socket_base.hpp on concrete inputs.
use libcoio.Base.{◌≡◌, refl, sym, ap, ◌∙◌, false, ◌==◌, ==_iff, pos, negsuc}
use libcoio.Outcome.{threw, make_system_error}
use libcoio.Protocol.{SockaddrIn, default_address, ipv4, tcp}
use libcoio.Descriptor.{Process, invalid}
use libcoio.Descriptor.Owners.{IsOwned}
use libcoio.Sockets.{Kernel, init, socket_base, set_no_delay, checked}

-- A kernel whose next descriptor is 3, or which is out of descriptors.
abbrev willing : Kernel
willing = record {
  socket = λ d t. pos 3;
  setsockopt = λ fd level name v. pos 0;
  bind = λ fd addr. pos 0;
  listen = λ fd n. pos 0;
  getpeername = λ fd. (pos 0, default_address);
  errno = 0;
}

abbrev refusing : Kernel
refusing = record {
  socket = λ d t. negsuc 0;
  setsockopt = λ fd level name v. negsuc 0;
  bind = λ fd addr. negsuc 0;
  listen = λ fd n. negsuc 0;
  getpeername = λ fd. (negsuc 0, default_address);
  errno = 24;
}

abbrev nothing : Process
nothing = record { fd = λ i. invalid; alive = λ i. false; is_open = λ n. false }

nothing-IsOwned : IsOwned nothing
nothing-IsOwned = record {
  opens = λ i n x. cc (x.0);
  unique = λ i j n x y. cc (x.0);
  owned = λ n x. cc (x);
}

-- The object 0 lives without a descriptor, or with descriptor 0.
abbrev unset : Process
unset = record nothing { alive = λ i. i == 0 }

unset-IsOwned : IsOwned unset
unset-IsOwned = record {
  opens = λ i n x. cc (x.1);
  unique = λ i j n x y. cc (x.1);
  owned = λ n x. cc (x);
}

abbrev on_zero : Process
on_zero = record { fd = λ i. pos 0; alive = λ i. i == 0; is_open = λ n. n == 0 }

on_zero-IsOwned : IsOwned on_zero
on_zero-IsOwned = record {
  opens = λ i n x. let z : 0 ≡ n = cc (x.1) in (==_iff n 0).1 (sym z);
  unique = λ i j n x y. (==_iff i 0).0 x.0 ∙ sym ((==_iff j 0).0 y.0);
  owned = λ n x. (0, (refl, ap pos (sym ((==_iff n 0).0 x))));
}

refused : (socket_base refusing ipv4 tcp 0 nothing).0 ≡ threw (make_system_error 24)
unfolding socket_base init
refused = refl

no_delay : set_no_delay refusing (pos 3) ≡ threw (make_system_error 24)
unfolding checked
no_delay = refl

abbrev port80 : SockaddrIn
port80 = record default_address { sin_port = 20480 }

-- ===== src/Endian/Tests.antt =====
-- The conversions of include/ioutils/endian.hpp with the byte order turned.
use libcoio.Base.{◌≡◌, refl, false}
use libcoio.Endian.{host_to_net}
use libcoio.Endian.Swapped.{little}

turned : host_to_net little false 1 ≡ 72057594037927936
unfolding host_to_net
turned = refl

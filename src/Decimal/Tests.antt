-- ===== src/Decimal/Tests.antt =====
-- Numbers printed and read.
use libcoio.Base.{◌≡◌, refl, codes, negsuc}
use libcoio.Outcome.{returned, threw, out_of_range, invalid_argument}
use libcoio.Decimal.{to_string, stoi}

to_string_1024 : to_string 1024 ≡ codes "1024"
unfolding to_string
to_string_1024 = refl

stoi_edges :
    (stoi (codes " -17x") ≡ returned (negsuc 16))
    × (stoi (codes "2147483648") ≡ threw out_of_range)
    × (stoi (codes "bytes") ≡ threw invalid_argument)
unfolding stoi
stoi_edges = (refl, refl, refl)

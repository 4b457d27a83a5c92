-- ===== src/ResultType/Tests.antt =====
-- Results of include/common/result_type.hpp, and the theorems at them.
use libcoio.Base.{ℕ, ◌+◌, ◌≡◌, refl, true, false, none, some, Bytes, codes}
use libcoio.ResultType.{Result, from_value, from_error, value, is_error, set_error, map, destroy}
use libcoio.ResultType.Laws.{IsValid, destroy_iff, set_error_lem}

abbrev seven : Result ℕ Bytes
seven = from_value 7

abbrev bad : Result ℕ Bytes
bad = from_error (codes "bad")

map-seven : map (λ n. n + 1) seven ≡ some (from_value 8)
unfolding map
map-seven = refl

destroy_iff_example : IsValid seven
unfolding destroy
destroy_iff_example = (destroy_iff seven).0 refl

set_error_lem_example :
    (r' : Result ℕ Bytes) × (set_error seven (codes "x") ≡ some r')
    × (is_error seven ≡ true → r' ≡ from_error (codes "x"))
    × (is_error seven ≡ false → (is_error r' ≡ false) × (value r' ≡ none) × (destroy r' ≡ none))
set_error_lem_example = set_error_lem seven (codes "x") refl

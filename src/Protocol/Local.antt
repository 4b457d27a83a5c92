-- ===== src/Protocol/Local.antt =====
-- The local addresses of include/ioutils/protocol.hpp: what the array of 108 bytes keeps of a path, and
-- what the kernel is shown of it.
use libcoio.Base.{
  ℕ, zero, suc, ◌-◌, ◌≤◌, ◌<◌, ◌≡◌, refl, sym, ap, ◌∙◌, ◌≢◌, ◌↔◌, ◌⊎◌, inl, inr, Bool, true, false,
  none, some, [], ◌∷◌, ◌++◌, append-nil, append_assoc, arith, ltb, ◌==◌, ltb_iff, ==_iff,
  Bool-cases, Option-cases, length, take, drop, replicate, take-append-drop, take_all,
  take-append_self, drop-append_self, Bytes, find, find_of_IsFirst, find-none_at, occurs-append,
  find-append, starts_with-append,
}
use libcoio.Protocol.{
  strncpy, sun_path_size, local_address, c_string, same_bytes, same_local, path_seen, local_len,
}

-- A C string has no zero byte.
abbrev pub NoZero : Bytes → Type 0
NoZero path = find (0 ∷ []) path ≡ none

first_zero :
    (path : Bytes) (n : ℕ)
    → NoZero path
    → find (0 ∷ []) (path ++ (0 ∷ replicate n 0)) ≡ some (length path)
first_zero path n h = find_of_IsFirst (0 ∷ []) (path ++ (0 ∷ replicate n 0)) (length path) (record {
  here =
      rw (drop-append_self path (0 ∷ replicate n 0)) (starts_with-append (0 ∷ []) (replicate n 0));
  before = λ q l.
      occurs-append (0 ∷ []) path (0 ∷ replicate n 0) q (omega arith)
      ∙ find-none_at (0 ∷ []) path q h;
})

zeros : (n : ℕ) → 0 < n → replicate {A = ℕ} n 0 ≡ 0 ∷ replicate {A = ℕ} (n - 1) 0
zeros zero h = absurd (omega arith)
zeros (suc n) h = let one_less : suc n - 1 ≡ n = omega arith in rw one_less refl

-- A path that fits is kept whole, with a zero byte behind it.
short_path :
    (path : Bytes) (n : ℕ)
    → length path < n
    → strncpy path n ≡ path ++ (0 ∷ replicate (n - length path - 1) 0)
short_path path n h = rw (take_all n path (omega arith), zeros (n - length path) (omega arith)) refl

long_path : (path : Bytes) (n : ℕ) → n ≤ length path → strncpy path n ≡ take n path
long_path path n h =
    let none_left : n - length path ≡ 0 = omega arith in rw none_left (append-nil (take n path))

NoZero-take : (path : Bytes) (n : ℕ) → NoZero path → NoZero (take n path)
NoZero-take path n h = elim (Option-cases (find (0 ∷ []) (take n path))) [
  | inl e ↦ e
  | inr (q, e) ↦ cc (
    h,
    ap (find (0 ∷ [])) (take-append-drop n path),
    find-append (0 ∷ []) (take n path) (drop n path) q e,
  )
]

c_string_found : (s : Bytes) (q : ℕ) → find (0 ∷ []) s ≡ some q → c_string s ≡ some (take q s)
unfolding c_string
c_string_found s q h = rw (h, c_string) refl

c_string_open : (s : Bytes) → NoZero s → c_string s ≡ none
unfolding c_string
c_string_open s h = rw (h, c_string) refl

-- A path shorter than 108 bytes is read back from the address as it was given; from a longer one the array
-- has no zero byte, and reading it runs past its end.
pub c_string-local_address :
    (path : Bytes)
    → NoZero path
    → ((length path < sun_path_size) × (c_string (local_address path) ≡ some path))
      ⊎ ((sun_path_size ≤ length path) × (c_string (local_address path) ≡ none))
unfolding local_address
c_string-local_address path h = elim (Bool-cases (ltb (length path) sun_path_size)) [
  | inl e ↦
      let fits = (ltb_iff (length path) sun_path_size).0 e in
      let n = sun_path_size - length path - 1 in
      inl (
        fits,
        ap c_string (short_path path sun_path_size fits)
            ∙ c_string_found (path ++ (0 ∷ replicate n 0)) (length path) (first_zero path n h)
            ∙ ap some (take-append_self path (0 ∷ replicate n 0)),
      )
  | inr e ↦
      let over : sun_path_size ≤ length path =
        ground (arith, e, ltb_iff (length path) sun_path_size) in
      inr (
        over,
        ap c_string (long_path path sun_path_size over)
            ∙ c_string_open (take sun_path_size path) (NoZero-take path sun_path_size h),
      )
]

same_bytes_iff : (xs ys : Bytes) → (same_bytes xs ys ≡ true) ↔ (xs ≡ ys)
unfolding same_bytes
same_bytes_iff [] [] = (λ h. refl, λ e. refl)
same_bytes_iff [] (y ∷ ys) = (λ h. cc (h), λ e. cc (e))
same_bytes_iff (x ∷ xs) [] = (λ h. cc (h), λ e. cc (e))
same_bytes_iff (x ∷ xs) (y ∷ ys) = (
  λ h.
      let head : (x == y) ≡ true = ground (arith, h) in
      let tail : same_bytes xs ys ≡ true = ground (arith, h) in
      rw ((==_iff x y).0 head, (same_bytes_iff xs ys).0 tail) refl,
  λ e.
      let head : x ≡ y = cc (e) in
      let tail : xs ≡ ys = cc (e) in rw ((==_iff x y).1 head, (same_bytes_iff xs ys).1 tail) refl,
)

read_back : (p : Bytes) → NoZero p → length p < sun_path_size → c_string (local_address p) ≡ some p
read_back p h l = elim (c_string-local_address p h) [
  | inl x ↦ x.1
  | inr x ↦ absurd (omega (arith, x.0, l))
]

compared :
    (a b p q : Bytes)
    → c_string a ≡ some p
    → c_string b ≡ some q
    → same_local a b ≡ some (same_bytes p q)
unfolding same_local
compared a b p q ea eb = rw (ea, eb, same_local) refl

-- The local addresses of two paths shorter than 108 bytes compare equal exactly when the paths are the same.
pub same_local_iff :
    (p q : Bytes)
    → NoZero p
    → NoZero q
    → length p < sun_path_size
    → length q < sun_path_size
    → (b : Bool) × (same_local (local_address p) (local_address q) ≡ some b)
      × ((b ≡ true) ↔ (p ≡ q))
same_local_iff p q hp hq lp lq = (
  same_bytes p q,
  compared (local_address p) (local_address q) p q (read_back p hp lp) (read_back q hq lq),
  same_bytes_iff p q,
)

append_cancel : (p r s : Bytes) → p ++ r ≡ p ++ s → r ≡ s
append_cancel [] r s e = e
append_cancel (x ∷ p) r s e = append_cancel p r s (cc (e))

seen_start :
    (p r : Bytes)
    → length p ≡ local_len - 2
    → length (p ++ r) < sun_path_size
    → path_seen (local_address (p ++ r)) ≡ p
unfolding local_address
seen_start p r n l =
    let rest = 0 ∷ replicate (sun_path_size - length (p ++ r) - 1) 0 in
    ap (take (local_len - 2)) (short_path (p ++ r) sun_path_size l ∙ append_assoc p r rest)
    ∙ ap (λ m. take m (p ++ (r ++ rest))) (sym n)
    ∙ take-append_self p (r ++ rest)

-- The kernel is shown 14 bytes of the array: two local addresses whose paths share their first 14 bytes
-- are the same for it, and when the paths differ, and are shorter than 108 bytes, the addresses do not
-- compare equal.
pub path_seen_same :
    (p r s : Bytes)
    → length p ≡ local_len - 2
    → NoZero (p ++ r)
    → NoZero (p ++ s)
    → length (p ++ r) < sun_path_size
    → length (p ++ s) < sun_path_size
    → r ≢ s
    → (path_seen (local_address (p ++ r)) ≡ path_seen (local_address (p ++ s)))
      × (same_local (local_address (p ++ r)) (local_address (p ++ s)) ≡ some false)
path_seen_same p r s n hr hs lr ls apart =
    let (b, e, iff) = same_local_iff (p ++ r) (p ++ s) hr hs lr ls in
    (
      seen_start p r n lr ∙ sym (seen_start p s n ls),
      elim (Bool-cases b) [
        | inl t ↦ absurd (apart (append_cancel p r s (iff.0 t)))
        | inr f ↦ e ∙ ap some f
      ],
    )

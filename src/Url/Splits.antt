-- ===== src/Url/Splits.antt =====
-- What `url::parse` accepts, said without the code's searches.
use libcoio.Base.{
  ℕ, ◌+◌, ◌<◌, ◌≡◌, refl, ap, ◌⊎◌, inl, inr, [], ◌∷◌, ◌++◌, true, false, Option, none, some, arith,
  Bytes, length, take, drop, find, occurs, find-IsFirst, find_of_IsFirst, find_splits,
  starts_with-append, length-take, find-le-length, drop-append_self, ◌≤◌, find-none_at,
  find-eq-none, ◌∙◌, take-append_self, drop-append_add, ◌↔◌,
}
use libcoio.ResultType.{from_value, from_error}
use libcoio.Url.{
  Url, UrlErr, sep_proto, parse_path, parse_host, parse_proto, parse, invalid_proto, invalid_host,
}

-- The text `d` stands nowhere in `s`.
abbrev pub Absent : Bytes → Bytes → Type 0
Absent d s = (q : ℕ) → occurs d s q ≡ false

-- `s` is `pre`, then `d`, then `post`, and `d` stands nowhere before.
pub record Cut (d s pre post : Bytes) : Type 0 where
  pub text : s ≡ pre ++ (d ++ post)
  pub first : (q : ℕ) → q < length pre → occurs d s q ≡ false

Cut-find : {d s pre post : Bytes} → Cut d s pre post → find d s ≡ some (length pre)
Cut-find {d} {s} {pre} {post} c =
    find_of_IsFirst d s (length pre) (record { here = here; before = c.first })
  where
    here : occurs d s (length pre) ≡ true
    here = rw (c.text) (rw (drop-append_self pre (d ++ post)) (starts_with-append d post))

find-Cut : (d s : Bytes) (p : ℕ) → find d s ≡ some p → Cut d s (take p s) (drop (p + length d) s)
find-Cut d s p h = record {
  text = find_splits d s p h;
  first = λ q l. (find-IsFirst d s p h).before q (omega (arith, length-take p s));
}

-- A path, and what stands behind it: nothing, or `?` and the query.
abbrev pub Behind : Bytes → Bytes → Bytes → Type 0
Behind rest path query =
    (Absent (b'?' ∷ []) rest × (path ≡ rest) × (query ≡ [])) ⊎ Cut (b'?' ∷ []) rest path query

-- `s` is `proto://host`, then the path from the first `/` on, then the query if there is one.
pub record Splits (s : Bytes) (u : Url) : Type 0 where
  pub after_proto : Bytes
  pub after_host : Bytes
  pub proto : Cut sep_proto s u.proto after_proto
  pub host : Cut (b'/' ∷ []) after_proto u.host after_host
  pub behind : Behind (b'/' ∷ after_host) u.path u.query

from_value_injective : {a b : Url} → from_value {E = UrlErr} a ≡ from_value b → a ≡ b
from_value_injective h = cc

drop-length-take :
    (p k : ℕ) (s : Bytes) → p ≤ length s → drop (length (take p s) + k) s ≡ drop (p + k) s
drop-length-take p k s h = ap (λ n. drop n s) (omega (arith, length-take p s))

path_Behind :
    (proto host rest : Bytes) (u : Url) (o : Option ℕ)
    → find (b'?' ∷ []) rest ≡ o
    → parse_path proto host rest o ≡ from_value u
    → (u.proto ≡ proto) × (u.host ≡ host) × Behind rest u.path u.query
unfolding parse_path
path_Behind proto host rest u none e h =
    rw (← from_value_injective h)
      (refl, refl, inl (λ q. find-none_at (b'?' ∷ []) rest q e, refl, refl))
path_Behind proto host rest u (some p) e h =
    let le = find-le-length (b'?' ∷ []) rest p e in
    rw (← from_value_injective h)
      (refl, refl, inr (rw (drop-length-take p 1 rest le) (find-Cut (b'?' ∷ []) rest p e)))

host_Splits :
    (proto rest s : Bytes) (u : Url) (o : Option ℕ)
    → find (b'/' ∷ []) rest ≡ o
    → parse_host proto rest o ≡ from_value u
    → Cut sep_proto s proto rest
    → Splits s u
unfolding parse_host
host_Splits proto rest s u none e h c = cc
host_Splits proto rest s u (some p) e h c =
    let le = find-le-length (b'/' ∷ []) rest p e in
    let cut = find-Cut (b'/' ∷ []) rest p e in
    let slash : drop (length (take p rest)) rest ≡ b'/' ∷ drop (p + 1) rest =
      ap (drop (length (take p rest))) cut.text ∙ drop-append_self (take p rest) _ in
    let (ep, eh, b) =
      path_Behind proto (take p rest) (drop (length (take p rest)) rest) u _ refl h in
    record {
      after_proto = rest;
      after_host = drop (p + 1) rest;
      proto = rw ep c;
      host = rw eh cut;
      behind = rw slash at b;
    }

proto_Splits :
    (s : Bytes) (u : Url) (o : Option ℕ)
    → find sep_proto s ≡ o
    → parse_proto s o ≡ from_value u
    → Splits s u
unfolding parse_proto
proto_Splits s u none e h = cc
proto_Splits s u (some p) e h =
    let le = find-le-length sep_proto s p e in
    let cut = find-Cut sep_proto s p e in
    host_Splits (take p s) (drop (length (take p s) + 3) s) s u _ refl h
      (rw (drop-length-take p 3 s le) cut)

parse-Splits : (s : Bytes) (u : Url) → parse s ≡ from_value u → Splits s u
unfolding parse
parse-Splits s u h = proto_Splits s u (find sep_proto s) refl h

Cut-take : {d s pre post : Bytes} → Cut d s pre post → take (length pre) s ≡ pre
Cut-take {d} {s} {pre} {post} c = ap (take (length pre)) c.text ∙ take-append_self pre (d ++ post)

Cut-drop : {d s pre post : Bytes} → Cut d s pre post → drop (length pre + length d) s ≡ post
Cut-drop {d} {s} {pre} {post} c =
    ap (drop (length pre + length d)) c.text
    ∙ drop-append_add pre (d ++ post) (length d)
    ∙ drop-append_self d post

path_of_Behind :
    (rest : Bytes) (u : Url)
    → Behind rest u.path u.query
    → parse_path u.proto u.host rest (find (b'?' ∷ []) rest) ≡ from_value u
unfolding parse_path
path_of_Behind rest u (inl (none_at, p, q)) =
    rw (find-eq-none (b'?' ∷ []) rest none_at, parse_path) (rw (← p, ← q))
path_of_Behind rest u (inr c) = rw (Cut-find c, Cut-take c, parse_path) (rw (Cut-drop c))

host_of_Splits :
    (s : Bytes) (u : Url) (c : Splits s u)
    → parse_host u.proto c.after_proto (find (b'/' ∷ []) c.after_proto) ≡ from_value u
unfolding parse_host
host_of_Splits s u c =
    rw (Cut-find c.host, Cut-take c.host, parse_host)
      (rw (ap (drop (length u.host)) c.host.text ∙ drop-append_self u.host (b'/' ∷ c.after_host))
        (path_of_Behind (b'/' ∷ c.after_host) u c.behind))

Splits-parse : (s : Bytes) (u : Url) → Splits s u → parse s ≡ from_value u
unfolding parse
Splits-parse s u c =
    rw (Cut-find c.proto, parse_proto)
      (rw (Cut-take c.proto) (rw (Cut-drop c.proto) (host_of_Splits s u c)))

-- `parse` succeeds with `u` exactly when the text splits so: `u.proto` ends at the first `://`,
-- `u.host` at the first `/` behind it, `u.path` starts with that `/` and ends at the first `?` or
-- at the end, and `u.query` is all that follows the `?`, or empty where there is none.
pub parse_iff : (s : Bytes) (u : Url) → (parse s ≡ from_value u) ↔ Splits s u
parse_iff s u = (parse-Splits s u, Splits-parse s u)

path_no_error :
    (proto host rest : Bytes) (e : UrlErr) (o : Option ℕ)
    → parse_path proto host rest o ≡ from_error e
    → ⊥
unfolding parse_path
path_no_error proto host rest e none h = cc
path_no_error proto host rest e (some p) h = cc

host_error :
    (proto rest : Bytes) (e : UrlErr) (o : Option ℕ)
    → find (b'/' ∷ []) rest ≡ o
    → parse_host proto rest o ≡ from_error e
    → (e ≡ invalid_host) × Absent (b'/' ∷ []) rest
unfolding parse_host
host_error proto rest e none q h = (cc, λ k. find-none_at (b'/' ∷ []) rest k q)
host_error proto rest e (some p) q h = absurd (path_no_error _ _ _ e _ h)

proto_error :
    (s : Bytes) (e : UrlErr) (o : Option ℕ)
    → find sep_proto s ≡ o
    → parse_proto s o ≡ from_error e
    → ((e ≡ invalid_proto) × Absent sep_proto s)
      ⊎ ((e ≡ invalid_host)
          × ((proto rest : Bytes) → Cut sep_proto s proto rest → Absent (b'/' ∷ []) rest))
unfolding parse_proto
proto_error s e none q h = inl (cc, λ k. find-none_at sep_proto s k q)
proto_error s e (some p) q h =
    let (kind, none_at) = host_error (take p s) (drop (length (take p s) + 3) s) e _ refl h in
    let le = find-le-length sep_proto s p q in
    inr (
      kind,
      λ proto rest c.
          let same : p ≡ length proto = cc (q, Cut-find c) in
          let tail : drop (length (take p s) + 3) s ≡ rest =
            drop-length-take p 3 s le ∙ ap (λ k. drop (k + 3) s) same ∙ Cut-drop c in
          rw (← tail) none_at,
    )

-- A failure is `invalid_proto`, where `://` is missing, or `invalid_host`, where no `/` follows
-- the first `://`; there is no other.
pub parse_error :
    (s : Bytes) (e : UrlErr)
    → parse s ≡ from_error e
    → ((e ≡ invalid_proto) × Absent sep_proto s)
      ⊎ ((e ≡ invalid_host)
          × ((proto rest : Bytes) → Cut sep_proto s proto rest → Absent (b'/' ∷ []) rest))
unfolding parse
parse_error s e h = proto_error s e (find sep_proto s) refl h

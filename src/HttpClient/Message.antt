-- ===== src/HttpClient/Message.antt =====
-- include/http/httpclient.hpp, the request text: `to_str`, `add_header` and `build_msg`.
use libcoio.Base.{
  Bool, true, false, not, ◌&&◌, ◌||◌, List, [], ◌∷◌, ◌++◌, ltb, ◌==◌, if◌then◌else◌, length, Bytes,
  codes,
}
use libcoio.Decimal.{to_string}
use libcoio.Url.{Url}

pub data HttpMethod : Type 0 where
  get post head : HttpMethod

abbrev pub to_str : HttpMethod → Bytes
to_str get = codes "GET"
to_str post = codes "POST"
to_str head = codes "HEAD"

abbrev pub is_post : HttpMethod → Bool
is_post post = true
is_post _ = false

abbrev pub is_empty : Bytes → Bool
is_empty [] = true
is_empty (c ∷ cs) = false

abbrev pub crlf : Bytes
crlf = 13 ∷ 10 ∷ []

abbrev pub dcrlf : Bytes
dcrlf = 13 ∷ 10 ∷ 13 ∷ 10 ∷ []

-- The order of `std::less<>` on strings.
pub less : Bytes → Bytes → Bool
less xs [] = false
less [] (y ∷ ys) = true
less (x ∷ xs) (y ∷ ys) = ltb x y || x == y && less xs ys

-- `m_headers[k] = v` on a `std::map`, a list in the order of its keys.
pub add_header : Bytes → Bytes → List (Bytes × Bytes) → List (Bytes × Bytes)
unfolding less
add_header k v [] = (k, v) ∷ []
add_header k v ((j, w) ∷ m) =
    if less k j
    then (k, v) ∷ (j, w) ∷ m
    else if less j k
    then (j, w) ∷ add_header k v m
    else (j, v) ∷ m

-- The loop over `m_headers`.
unfoldable pub header_lines : List (Bytes × Bytes) → Bytes
header_lines [] = []
header_lines ((k, v) ∷ m) = k ++ (codes ": " ++ (v ++ (crlf ++ header_lines m)))

unfoldable pub build_msg : List (Bytes × Bytes) → Url → HttpMethod → Bytes → Bytes
unfolding header_lines
build_msg headers u method body =
    to_str method
    ++ (codes " "
        ++ (u.path
            ++ ((if not (is_empty u.query) then codes "?" ++ u.query else [])
                ++ (codes " HTTP/1.0"
                    ++ (crlf
                        ++ (codes "Host:"
                            ++ (u.host
                                ++ (crlf
                                    ++ (header_lines headers
                                        ++ ((if not (is_empty body) || is_post method
                                              then codes "Content-Length: "
                                                ++ (to_string (length body) ++ crlf)
                                              else [])
                                            ++ (crlf ++ body)))))))))))

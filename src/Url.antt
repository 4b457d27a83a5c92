-- ===== src/Url.antt =====
-- include/http/url.hpp: splitting a URL into protocol, host, path and query. A `string_view` is
-- the text that it shows.
pub mod Splits
mod Tests
use libcoio.Base.{codes}
use libcoio.Base.{ℕ, ◌+◌, Option, none, some, [], ◌∷◌, Bytes, length, take, drop, find}
use libcoio.ResultType.{Result, from_value, from_error}

pub record Url : Type 0 where
  pub proto : Bytes
  pub host : Bytes
  pub path : Bytes
  pub query : Bytes

pub data UrlErr : Type 0 where
  invalid_proto invalid_host invalid_path invalid_query : UrlErr

-- The name of an error.
abbrev pub to_string : UrlErr → Bytes
to_string invalid_proto = codes "invalid_proto"
to_string invalid_host = codes "invalid_host"
to_string invalid_path = codes "invalid_path"
to_string invalid_query = codes "invalid_query"

-- "://"
abbrev pub sep_proto : Bytes
sep_proto = b':' ∷ b'/' ∷ b'/' ∷ []

-- From the query's `find('?')` on: what is left is `rest`.
parse_path : Bytes → Bytes → Bytes → Option ℕ → Result Url UrlErr
parse_path proto host rest none =
    from_value (record { proto = proto; host = host; path = rest; query = [] })
parse_path proto host rest (some pos) = from_value (record {
  proto = proto;
  host = host;
  path = take pos rest;
  query = drop (length (take pos rest) + 1) rest;
})

-- From `find('/')` on.
parse_host : Bytes → Bytes → Option ℕ → Result Url UrlErr
unfolding parse_path
parse_host proto rest none = from_error invalid_host
parse_host proto rest (some pos) =
    let host = take pos rest in
    let rest' = drop (length host) rest in parse_path proto host rest' (find (b'?' ∷ []) rest')

parse_proto : Bytes → Option ℕ → Result Url UrlErr
unfolding parse_host
parse_proto url_str none = from_error invalid_proto
parse_proto url_str (some pos) =
    let proto = take pos url_str in
    let rest = drop (length proto + 3) url_str in parse_host proto rest (find (b'/' ∷ []) rest)

unfoldable pub parse : Bytes → Result Url UrlErr
unfolding parse_proto
parse url_str = parse_proto url_str (find sep_proto url_str)

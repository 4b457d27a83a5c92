-- ===== src/HttpClient.antt =====
-- include/http/httpclient.hpp: `http_client`. The resolver, the kernel's `connect`, `send` and
-- `close`, and picohttpparser are parameters.
pub mod Socket
pub mod Reading
pub mod Message
pub mod Framing
pub mod Body
pub mod UntilRounds
pub mod Until
pub mod Lifecycle
pub mod Exchange
pub mod Peer
mod Tests
use libcoio.Base.{
  ℕ, zero, suc, ◌+◌, ◌-◌, ◌*◌, ◌/◌, ◌%◌, ◌^◌, ◌≤◌, ◌<◌, min, max, ◌≡◌, refl, sym, ap, ◌∙◌, ◌≢◌, ◌↔◌,
  ◌⊎◌, inl, inr, Bool, true, false, not, ◌&&◌, ◌||◌, Option, none, some, List, [], ◌∷◌, ◌++◌,
  append-nil, append_assoc, arith, dec_lt, ltb, leb, ◌==◌, if◌then◌else◌, ltb_iff, leb_iff, ==_iff,
  Bool-cases, Option-cases, length, take, drop, replicate, length-append, length-take, length-drop,
  length-replicate, take-append-drop, take_all, drop_all, take-append_of_le, drop-append_of_le,
  take-append_add, drop-append_add, take-append_self, drop-append_self, drop-drop, drop-take,
  take-take, Bytes, codes, occurs, find, find_from, IsFirst, find-IsFirst, find_of_IsFirst,
  find-eq-none, find-none_at, find_from-eq-find, occurs-drop, occurs-append, length_of_occurs,
  find-le-length, find-append, find_splits, starts_with-append, starts_with,
}
use libcoio.Base.{ℤ, pos, negsuc}
use mathlib.Core.List.{map}
use mathlib.Core.Option
use libcoio.Outcome.{Outcome, returned, threw}
use libcoio.ResultType.{Result, from_value, from_error, value}
use libcoio.Url.{Url, UrlErr, parse}
use libcoio.StreamBuffer.{StreamBuffer}
use libcoio.StreamBuffer
use libcoio.HttpParser.{
  Header, HttpHeader, from_range, PhrResponse, HttpParser, equal, parse_response,
}
use libcoio.HttpParser
use Socket.{Transport}
use Message.{HttpMethod, is_post, is_empty, build_msg, dcrlf}
use Reading.{read_until, read_body}

-- What `connect` comes to: a connected socket, or the socket after an exception.
pub data Attempt (Sock : Type 0) : Type 0 where
  up : Sock → Attempt Sock
  refused : Option Sock → Attempt Sock

-- What lies around the client on the network side.
pub record Network (T : Transport) : Type 1 where
  pub Address : Type 0
  -- `async_query`; an address that `to_address` refuses is `none`.
  pub async_query : Bytes → Option (List (Option Address))
  -- `connect` on a socket, or on the descriptor -1 (`none`).
  pub connect : Option T.Sock → Address → Attempt T.Sock
  pub send : T.Sock → Bytes → Outcome ℕ × T.Sock
  pub phr_parse_response : Bytes → ℕ → List Header → PhrResponse
  -- What the memory of a destroyed text holds: it is read in place of a header's name and value.
  pub freed : Header → Header
  -- EBADF
  pub connect_closed : (a : Address) → connect none a ≡ refused none

pub record HttpResponse : Type 0 where
  pub header : HttpHeader
  pub rsp : Bytes
  pub body_length : ℕ
  pub status_code : ℕ

-- `tcp_client` is `none` once its descriptor is -1.
pub record HttpClient (T : Transport) : Type 0 where
  pub tcp_client : Option T.Sock
  pub read_streambuf : StreamBuffer
  pub parser : HttpParser
  pub headers : List (Bytes × Bytes)

-- A run of the client: `none` when the fuel of `read_until` ran out.
abbrev pub Run : Transport → Type 0 → Type 0
Run T A = Option (Outcome A × HttpClient T)

-- The conversion of `int` to `bool` at `co_return`.
abbrev pub to_bool : ℤ → Bool
to_bool (pos zero) = false
to_bool (pos (suc n)) = true
to_bool (negsuc n) = true

abbrev ends_with : Bytes → Bytes → Bool
ends_with s d = leb (length d) (length s) && starts_with d (drop (length s - length d) s)

module _ (T : Transport) (N : Network T) where
  open T use {Sock}
  open N use {Address, async_query, connect, send, phr_parse_response, freed}

  -- The loop of `http_client::connect`; a failure or an exception goes on to the next address.
  pub connect_list : List (Option Address) → Option Sock → Attempt Sock
  connect_list [] s = refused s
  connect_list (none ∷ rest) s = connect_list rest s
  connect_list (some a ∷ rest) s = elim (connect s a) [
    | up s' ↦ up s'
    | refused s' ↦ connect_list rest s'
  ]

  pub parsed : HttpClient T → Outcome ℤ × HttpParser → Outcome Bool × HttpClient T
  parsed c (returned n, p) = (returned (to_bool n), record c { parser = p })
  parsed c (threw e, p) = (threw e, record c { parser = p })

  -- `read_headers` once `read_until` has answered.
  head_read :
      HttpClient T → Outcome Bytes × StreamBuffer × Sock → (Outcome Bool × HttpClient T) × Sock
  unfolding parsed
  head_read c (threw e, b, s) = ((threw e, record c { read_streambuf = b }), s)
  head_read c (returned h, b, s) =
      let c' : HttpClient T = record c { read_streambuf = b } in
      if is_empty h || not (ends_with h dcrlf)
      then ((returned false, c'), s)
      else (parsed c' (parse_response phr_parse_response c'.parser h), s)

  pub read_headers : ℕ → HttpClient T → Sock → Option ((Outcome Bool × HttpClient T) × Sock)
  unfolding head_read
  read_headers fuel c s = Option.map (head_read c) (read_until T fuel dcrlf c.read_streambuf s)

  -- The response, its body read where it has one. The parser's `phr_header`s point into the text of
  -- `read_headers`, which has been destroyed: the copy of a header reads freed memory.
  pub receive : HttpClient T → Sock → HttpResponse × HttpClient T
  receive c s =
      let p = c.parser in
      let (rsp, b, s') = read_body T p.body_len c.read_streambuf s in
      (
        record {
          header = from_range (map freed (take p.headers_cnt p.headers));
          rsp = rsp;
          body_length = p.body_len;
          status_code = p.status;
        },
        record c { tcp_client = some s'; read_streambuf = b },
      )

  -- The scope guard of `request` closes the socket, whatever has come out.
  abbrev pub closing :
      Outcome (Result HttpResponse Bytes) × HttpClient T
      → Outcome (Result HttpResponse Bytes) × HttpClient T
  closing r = (r.0, record (r.1) { tcp_client = none })

  -- After the headers.
  respond :
      (Outcome Bool × HttpClient T) × Sock → Outcome (Result HttpResponse Bytes) × HttpClient T
  unfolding receive
  respond ((threw e, c), s) = (threw e, c)
  respond ((returned false, c), s) = (returned (from_error (codes "http response parse error")), c)
  respond ((returned true, c), s) = (returned (from_value (receive c s).0), (receive c s).1)

  -- From the write of the request on, over the connected socket. The count of `send` is not used.
  after_send : ℕ → HttpClient T → Outcome ℕ × Sock → Run T (Result HttpResponse Bytes)
  unfolding respond
  after_send fuel c (threw e, s) = some (threw e, c)
  after_send fuel c (returned n, s) = Option.map respond (read_headers fuel c s)

  pub exchange : ℕ → HttpClient T → Sock → Bytes → Run T (Result HttpResponse Bytes)
  unfolding after_send
  exchange fuel c s msg = Option.map closing (after_send fuel c (send s msg))

  refuse : HttpClient T → Bytes → Run T (Result HttpResponse Bytes)
  refuse c why = some (returned (from_error why), c)

  -- `connect`, then the exchange.
  connected : ℕ → HttpClient T → Bytes → Attempt Sock → Run T (Result HttpResponse Bytes)
  unfolding refuse
  connected fuel c msg (refused sock) =
      refuse (record c { tcp_client = sock }) (codes "host connection failed")
  connected fuel c msg (up s) = exchange fuel (record c { tcp_client = some s }) s msg

  resolved :
      ℕ → HttpClient T → Bytes → Option (List (Option Address)) → Run T (Result HttpResponse Bytes)
  unfolding connected
  resolved fuel c msg none = refuse c (codes "invalid host name")
  resolved fuel c msg (some list) = connected fuel c msg (connect_list list c.tcp_client)

  for_url : ℕ → HttpClient T → HttpMethod → Bytes → Option Url → Run T (Result HttpResponse Bytes)
  unfolding resolved
  for_url fuel c method body none = refuse c (codes "invalid url")
  for_url fuel c method body (some u) =
      if not (equal u.proto (codes "http"))
      then refuse c (codes "unsupport protocal")
      else resolved fuel c (build_msg c.headers u method body) (async_query u.host)

  pub request : ℕ → HttpClient T → HttpMethod → Bytes → Bytes → Run T (Result HttpResponse Bytes)
  unfolding for_url
  request fuel c method url body =
      if not (is_post method) && not (is_empty body)
      then refuse c (codes "method error")
      else for_url fuel c method body (value (parse url))

  pub get : ℕ → HttpClient T → Bytes → Run T (Result HttpResponse Bytes)
  unfolding request
  get fuel c url = request fuel c HttpMethod.get url []

  pub post : ℕ → HttpClient T → Bytes → Bytes → Run T (Result HttpResponse Bytes)
  unfolding request
  post fuel c url body = request fuel c HttpMethod.post url body

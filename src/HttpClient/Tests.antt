-- ===== src/HttpClient/Tests.antt =====
-- An `http_client` of include/http/httpclient.hpp over a peer that hands out five bytes at a time, and
-- the theorems at it.
use libcoio.Base.{
  ℕ, ◌+◌, ◌≤◌, ◌≡◌, refl, Option, none, some, List, [], ◌∷◌, ◌++◌, arith, length, take, drop, Bytes,
  codes, find, find_from, ℤ, pos, negsuc,
}
use libcoio.Outcome.{Outcome, returned}
use libcoio.ResultType.{from_value, value}
use libcoio.Decimal.{to_string}
use libcoio.Url.{parse, Url}
use libcoio.StreamBuffer.{
  StreamBuffer, text, prepare, fill, commit, consume, reserve, advance, resize, try_get_data,
}
use libcoio.StreamBuffer.Bounds.{init-IsValid}
use libcoio.HttpParser.{
  Header, PhrResponse, HttpParser, max_headers, parse_response, value_in, is_lower_equal, equal,
  tolower, set_body_len, from_range,
}
use libcoio.HttpParser.Laws.{content_length}
use libcoio.HttpClient.Peer.{peer}
use libcoio.HttpClient.Message.{HttpMethod, get, post, dcrlf, build_msg, header_lines}
use libcoio.HttpClient.Framing.{EndsHead, build_msg-EndsHead, ascii}
use libcoio.HttpClient.Reading.{read_until, read_body, body_loop, until_loop, finish}
use libcoio.HttpClient.Body.{GivesBody, read_body_lem}
use libcoio.HttpClient.Until.{read_until_lem}
use libcoio.HttpClient.UntilRounds.{GivesUntil}
use libcoio.HttpClient.Lifecycle.{Refusal, request_once}
use libcoio.HttpClient.Exchange.{Fresh, Answers, exchange_body}
use libcoio.HttpClient.{
  Network, Attempt, up, refused, HttpClient, HttpResponse, connect_list, parsed, head_read,
  read_headers, receive, respond, after_send, exchange, connected, resolved, for_url, request,
}
use libcoio.StreamBuffer
use libcoio.HttpParser

-- `H`, an empty line, and the body.
abbrev answer : Bytes
answer = 72 ∷ 13 ∷ 10 ∷ 13 ∷ 10 ∷ 104 ∷ 105 ∷ []

abbrev attempt : Option Bytes → ℕ → Attempt Bytes
attempt none a = refused none
attempt (some s) a = up s

abbrev phr : ℤ → Bytes → ℕ → List Header → PhrResponse
phr r str n hs = record {
  ret = r;
  status = 200;
  msg = codes "OK";
  headers = (codes "Content-Length", codes "2") ∷ [];
  num_headers = 1;
}

abbrev network : ℤ → Network peer
network r = record {
  Address = ℕ;
  async_query = λ host. some (none ∷ some 1 ∷ []);
  connect = attempt;
  send = λ s msg. (returned (length msg), s);
  phr_parse_response = phr r;
  freed = λ h. ([], h.1);
  connect_closed = λ a. refl;
}

abbrev client : HttpClient peer
client = record {
  tcp_client = some answer;
  read_streambuf = StreamBuffer.init;
  parser = HttpParser.init;
  headers = [];
}

init_empty : text StreamBuffer.init ≡ []
unfolding StreamBuffer.init text
init_empty = refl

read_body_lem_example :
    GivesBody peer 6 StreamBuffer.init answer (read_body peer 6 StreamBuffer.init answer)
unfolding StreamBuffer.init
read_body_lem_example = read_body_lem peer 6 StreamBuffer.init answer (omega arith) init-IsValid

not_held : find dcrlf (text StreamBuffer.init) ≡ none
unfolding StreamBuffer.init text find
not_held = refl

read_until_lem_example :
    (out : Outcome Bytes × StreamBuffer × Bytes) × (read_until peer 8 dcrlf StreamBuffer.init answer
      ≡ some out)
    × GivesUntil peer
        (StreamBuffer.init.pptr + 7)
        dcrlf
        (text StreamBuffer.init ++ answer)
        (find dcrlf (text StreamBuffer.init ++ answer))
        out
unfolding StreamBuffer.init
read_until_lem_example =
    read_until_lem peer dcrlf 8 StreamBuffer.init answer (omega arith) (omega arith) (omega arith)
      init-IsValid not_held

at_one : find dcrlf answer ≡ some 1
unfolding find
at_one = refl

fresh : (r : ℤ) (extra : ℕ) → extra ≤ 100 → Fresh peer (network r) 8 extra client answer
unfolding StreamBuffer.init
fresh r extra le = record {
  valid = init-IsValid;
  empty = init_empty;
  enough = omega arith;
  small = omega arith;
}

refused_head :
    (parse_response (phr (negsuc 0)) client.parser (take 5 answer)).0 ≡ returned (negsuc 0)
unfolding HttpParser.init value_in is_lower_equal equal tolower parse_response
    HttpParser.parser_header_value libcoio.Decimal.stoi
refused_head = refl

two : content_length (phr (pos 5)) client.parser (take 5 answer) ≡ to_string 2
unfolding HttpParser.init value_in is_lower_equal equal tolower to_string
two = refl

exchange_body_example :
    Answers peer
      (network (pos 5))
      2
      (take 2 (drop 5 answer))
      (exchange peer (network (pos 5)) 8 client answer (codes "GET"))
exchange_body_example =
    exchange_body peer (network (pos 5)) 8 client answer answer (codes "GET") 3 1 2 4 refl
      (fresh (pos 5) 66 (omega arith)) at_one refl two (omega arith)

url : Bytes
url = codes "http://a/x"

served :
    (r : HttpResponse) × (c' : HttpClient peer) × (request peer
        (network (pos 5))
        8
        client
        HttpMethod.get
        (codes "http://a/x")
        []
      ≡ some (returned (from_value r), c'))
unfolding request for_url resolved connected exchange after_send respond receive read_headers
    head_read parsed connect_list read_until until_loop finish read_body body_loop StreamBuffer.init
    HttpParser.init text prepare fill commit consume reserve advance resize try_get_data find parse
    equal is_lower_equal tolower value_in set_body_len from_range value parse_response
    HttpParser.parser_header_value libcoio.Decimal.stoi find_from
served = (_, _, refl)

request_once_example :
    Refusal peer
      (network (pos 5))
      served.1
      (request peer (network (pos 5)) 8 served.1 HttpMethod.get (codes "http://a/x") [])
request_once_example =
    request_once peer (network (pos 5)) 8 client HttpMethod.get (codes "http://a/x") [] served.0
      served.1 served.2 8 HttpMethod.get (codes "http://a/x") []

abbrev page : Url
page = record { proto = codes "http"; host = codes "a.b"; path = codes "/x"; query = codes "k=1" }

get_text :
    build_msg ((codes "Accept", codes "*") ∷ []) page get []
    ≡ codes "GET /x?k=1 HTTP/1.0"
      ++ (13 ∷ 10 ∷ codes "Host:a.b" ++ (13 ∷ 10 ∷ codes "Accept: *" ++ dcrlf))
unfolding build_msg header_lines
get_text = refl

build_msg-EndsHead_example : EndsHead (build_msg [] page post (codes "hi")) (codes "hi")
build_msg-EndsHead_example =
    build_msg-EndsHead [] page post (codes "hi") tt (ascii (codes "a.b") refl)
      (ascii (codes "/x") refl) (ascii (codes "k=1") refl)

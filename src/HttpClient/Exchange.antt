-- ===== src/HttpClient/Exchange.antt =====
-- One exchange over a connected socket: what `read_headers` answers, and which bytes become the body.
use libcoio.Base.{
  ℕ, suc, ◌+◌, ◌-◌, ◌^◌, ◌≤◌, ◌<◌, ◌≡◌, refl, sym, ap, ◌∙◌, true, false, none, some, [], ◌∷◌, ◌++◌,
  append-nil, arith, length, take, drop, length-append, length-take, take-append_add,
  take-append_self, drop-append_self, Bytes, find, find-IsFirst, length_of_occurs, find-le-length,
  find_splits, starts_with-append, starts_with, ℤ, pos, negsuc,
}
use mathlib.Core.List.{map}
use libcoio.Outcome.{Outcome, returned}
use libcoio.ResultType.{Result, from_value}
use libcoio.Decimal.{to_string}
use libcoio.StreamBuffer.{StreamBuffer, text}
use libcoio.StreamBuffer.Bounds.{IsValid, Room}
use libcoio.HttpParser.{HttpParser, from_range, max_headers, parse_response}
use libcoio.HttpParser.Laws.{content_length, parse_response_length}
use libcoio.HttpClient.Socket.{Transport}
use libcoio.HttpClient.Reading.{read_until}
use libcoio.HttpClient.Body.{read_body_lem}
use libcoio.HttpClient.Until.{read_until_empty}
use libcoio.HttpClient.UntilRounds.{GivesUntil}
use libcoio.HttpClient.Message.{is_empty, dcrlf}
use libcoio.HttpClient.{
  Network, HttpClient, HttpResponse, Run, to_bool, ends_with, parsed, head_read, read_headers,
  receive, respond, after_send, exchange, closing,
}

-- A text through its first delimiter ends with it.
ends_with-take :
    (d t : Bytes) (p : ℕ) → find d t ≡ some p → ends_with (take (p + length d) t) d ≡ true
ends_with-take d t p h =
    let x = take p t in
    let len : length x ≡ p = omega (arith, length-take p t, find-le-length d t p h) in
    let cut : take (p + length d) t ≡ x ++ d =
      ap (λ n. take (n + length d) t) (sym len)
      ∙ ap (take (length x + length d)) (find_splits d t p h)
      ∙ take-append_add x (d ++ drop (p + length d) t) (length d)
      ∙ ap (λ u. x ++ u) (take-append_self d (drop (p + length d) t)) in
    let whole : length (x ++ d) ≡ length x + length d = length-append x d in
    let tail : drop (length (x ++ d) - length d) (x ++ d) ≡ d =
      ap (λ n. drop n (x ++ d)) (omega (arith, whole)) ∙ drop-append_self x d in
    let self : starts_with d d ≡ true =
      ap (starts_with d) (sym (append-nil d)) ∙ starts_with-append d [] in
    rw cut (rw (tail, self) (ground (arith, whole)))

is_empty_of_pos : (h : Bytes) → 0 < length h → is_empty h ≡ false
is_empty_of_pos [] h = absurd (omega arith)
is_empty_of_pos (c ∷ cs) h = refl

find_empty : find dcrlf [] ≡ none
unfolding find
find_empty = refl

module _ (T : Transport) (N : Network T) where
  open T use {Sock, stream}
  open N use {send, phr_parse_response, freed}

  -- The state in which a response can be read: an empty valid buffer with room for it.
  pub record Fresh (fuel extra : ℕ) (c : HttpClient T) (s : Sock) : Type 0 where
    pub valid : IsValid c.read_streambuf
    pub empty : text c.read_streambuf ≡ []
    pub enough : length (stream s) < fuel
    pub small : Room (length (stream s) + 512 + extra) c.read_streambuf

  -- The part of the stream that ends with the first empty line.
  abbrev pub header_of : Sock → ℕ → Bytes
  header_of s p = take (p + 4) (stream s)

  head_read_lem :
      (c : HttpClient T) (o : Outcome Bytes) (b : StreamBuffer) (s' : Sock) (h : Bytes)
      → o ≡ returned h
      → is_empty h ≡ false
      → ends_with h dcrlf ≡ true
      → head_read T N c (o, b, s') ≡ (
        parsed T N (record c { read_streambuf = b }) (parse_response phr_parse_response c.parser h),
        s',
      )
  unfolding head_read
  head_read_lem c o b s' h e full ends = rw (e, full, ends, head_read) refl

  -- `read_headers` has parsed the text through the first empty line, and what follows is still there.
  abbrev pub HeadersRead : ℕ → HttpClient T → Sock → ℕ → Type 0
  HeadersRead fuel c s p =
      (b : StreamBuffer) × (s' : Sock) × (read_headers T N fuel c s
        ≡ some (
          parsed T N (record c { read_streambuf = b })
              (parse_response phr_parse_response c.parser (header_of s p)),
          s',
        ))
      × (text b ++ stream s' ≡ drop (p + 4) (stream s))
      × IsValid b
      × (b.pptr + length (stream s') ≡ c.read_streambuf.pptr + length (stream s))

  headers_read :
      (fuel : ℕ) (c : HttpClient T) (s : Sock) (p : ℕ)
      → Fresh fuel 0 c s
      → find dcrlf (stream s) ≡ some p
      → HeadersRead fuel c s p
  unfolding read_headers
  headers_read fuel c s p f hit = pack out ran gives
    where
      b : StreamBuffer
      b = c.read_streambuf

      fits : p + 4 ≤ length (stream s)
      fits =
          length_of_occurs dcrlf (stream s) p (find-le-length dcrlf (stream s) p hit)
            (find-IsFirst dcrlf (stream s) p hit).here

      full : is_empty (header_of s p) ≡ false
      full = is_empty_of_pos (header_of s p) (omega (arith, length-take (p + 4) (stream s), fits))

      pack :
          (out : Outcome Bytes × StreamBuffer × Sock)
          → read_until T fuel dcrlf b s ≡ some out
          → GivesUntil T (b.pptr + length (stream s)) dcrlf (stream s) (some p) out
          → HeadersRead fuel c s p
      pack out ran (answer, rest, valid, moved) = (
        out.1,
        out.2,
        rw ran (
            ap some (
              head_read_lem c out.0 out.1 out.2 (header_of s p) answer full
                (ends_with-take dcrlf (stream s) p hit))),
        rest,
        valid,
        moved,
      )

      open (read_until_empty T dcrlf fuel p b s
          (omega arith)
          f.enough
          (omega (arith, f.small))
          f.valid
          f.empty
          find_empty
          hit) use {«0» as out, «1» as ran, «2» as gives}

  parsed_lem :
      (c : HttpClient T) (x : Outcome ℤ × HttpParser) (n : ℤ)
      → x.0 ≡ returned n
      → parsed T N c x ≡ (returned (to_bool n), record c { parser = x.1 })
  unfolding parsed
  parsed_lem c (o, p) n e = rw (e, parsed) refl

  -- A response head that picohttpparser refuses counts as read: `read_headers` turns a negative
  -- result of the parser into `true`.
  pub read_headers_error :
      (fuel : ℕ) (c : HttpClient T) (s : Sock) (p k : ℕ)
      → Fresh fuel 0 c s
      → find dcrlf (stream s) ≡ some p
      → (parse_response phr_parse_response c.parser (header_of s p)).0 ≡ returned (negsuc k)
      → (c' : HttpClient T) × (s' : Sock) × (read_headers T N fuel c s
          ≡ some ((returned true, c'), s'))
  read_headers_error fuel c s p k f hit bad =
      let (b, s', ran, rest, v, moved) = headers_read fuel c s p f hit in
      (
        record c {
          read_streambuf = b;
          parser = (parse_response phr_parse_response c.parser (header_of s p)).1;
        },
        s',
        rw ran (
            ap (λ r. some (r, s'))
              (parsed_lem (record c { read_streambuf = b })
                (parse_response phr_parse_response c.parser (header_of s p)) (negsuc k) bad)),
      )

  -- What an exchange comes to: the response, and a closed client.
  pub record Answers (n : ℕ) (body : Bytes) (run : Run T (Result HttpResponse Bytes)) : Type 0 where
    pub response : HttpResponse
    pub client : HttpClient T
    pub runs : run ≡ some (returned (from_value response), client)
    pub body_is : response.rsp ≡ body
    pub length_is : response.body_length ≡ n
    pub headers_freed :
        response.header
        ≡ from_range (map freed (take client.parser.headers_cnt client.parser.headers))
    pub closed : client.tcp_client ≡ none

  -- From the answer of `read_headers` on.
  respond-Answers :
      (n : ℕ) (body : Bytes) (c : HttpClient T) (s : Sock)
      → c.parser.body_len ≡ n
      → take n (text c.read_streambuf ++ stream s) ≡ body
      → Room (n + 64) c.read_streambuf
      → IsValid c.read_streambuf
      → Answers n body (some (closing T N (respond T N ((returned true, c), s))))
  unfolding respond
  respond-Answers n body c s len whole room v =
      let (rsp, left, w) = read_body_lem T c.parser.body_len c.read_streambuf s (rw len room) v in
      record {
        response = (receive T N c s).0;
        client = record (receive T N c s).1 { tcp_client = none };
        runs = refl;
        body_is =
            unfold receive in
            rsp ∙ ap (λ k. take k (text c.read_streambuf ++ stream s)) len ∙ whole;
        length_is = len;
        headers_freed = unfold receive in refl;
        closed = refl;
      }

  -- With an empty buffer, a peer that sends a head through the first empty line at `p` with the decimal
  -- `Content-Length` `n`, and a head that picohttpparser takes (a positive result), the exchange gives
  -- a response whose body is the `n` bytes behind the head, or all that come if they are fewer, and
  -- closes the connection. The headers of the response are copied from freed memory, which the run is taken
  -- to survive: there are as many as the parser found, but what they hold is not said. The fuel exceeds the bytes that the peer sends, and `n` and the buffer with them
  -- stay below 2 ^ 31.
  pub exchange_body :
      (fuel : ℕ) (c : HttpClient T) (s s' : Sock) (msg : Bytes) (sent p n k : ℕ)
      → send s msg ≡ (returned sent, s')
      → Fresh fuel (n + 64) c s'
      → find dcrlf (stream s') ≡ some p
      → (phr_parse_response (header_of s' p) max_headers c.parser.headers).ret ≡ pos (suc k)
      → content_length phr_parse_response c.parser (header_of s' p) ≡ to_string n
      → n < 2 ^ 31
      → Answers n (take n (drop (p + 4) (stream s'))) (exchange T N fuel c s msg)
  unfolding exchange after_send
  exchange_body fuel c s s' msg sent p n k was_sent f hit good len small =
      let f' : Fresh fuel 0 c s' = record {
        valid = f.valid;
        empty = f.empty;
        enough = f.enough;
        small = omega (arith, f.small);
      } in
      let (b, s'', ran, rest, valid, moved) = headers_read fuel c s' p f' hit in
      let h = header_of s' p in
      let (answer, body_len) = parse_response_length phr_parse_response c.parser h n len small in
      let done =
        parsed_lem (record c { read_streambuf = b }) (parse_response phr_parse_response c.parser h)
          (pos (suc k)) (answer ∙ ap returned good) in
      rw (was_sent, after_send)
        (rw ran (
          rw done (
            respond-Answers n (take n (drop (p + 4) (stream s')))
              (record c {
                read_streambuf = b;
                parser = (parse_response phr_parse_response c.parser h).1;
              })
              s'' body_len (ap (take n) rest) (omega (arith, f.small, moved)) valid)))

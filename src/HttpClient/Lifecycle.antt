-- ===== src/HttpClient/Lifecycle.antt =====
-- The connection over the requests of one `http_client`: it is opened by the constructor, closed after
-- the first exchange, and never opened again.
use libcoio.Base.{
  ℕ, ◌≡◌, refl, inl, inr, not, ◌&&◌, Option, none, some, List, [], ◌∷◌, Bool-cases, Bytes, codes,
}
use libcoio.Outcome.{Outcome, returned}
use libcoio.ResultType.{Result, from_value, from_error, value}
use libcoio.Url.{Url, parse}
use libcoio.HttpParser.{equal}
use libcoio.HttpClient.Socket.{Transport}
use libcoio.HttpClient.Message.{HttpMethod, is_post, is_empty}
use libcoio.HttpClient.{
  Network, Attempt, up, refused, HttpClient, HttpResponse, Run, closing, connect_list, exchange,
  refuse, connected, resolved, for_url, request,
}
use mathlib.Core.Option

module _ (T : Transport) (N : Network T) where
  open T use {Sock}
  open N use {Address, async_query, connect, send, phr_parse_response, connect_closed}

  connect_list_closed : (list : List (Option Address)) → connect_list T N list none ≡ refused none
  unfolding connect_list
  connect_list_closed [] = refl
  connect_list_closed (none ∷ rest) = connect_list_closed rest
  connect_list_closed (some a ∷ rest) =
      rw (connect_closed a, connect_list) (connect_list_closed rest)

  -- The run is a refusal that leaves the client as it was.
  abbrev pub Refusal : HttpClient T → Run T (Result HttpResponse Bytes) → Type 0
  Refusal c run = (why : Bytes) × (run ≡ some (returned (from_error why), c))

  resolved_closed :
      (fuel : ℕ) (c : HttpClient T) (msg : Bytes) (list : Option (List (Option Address)))
      → c.tcp_client ≡ none
      → Refusal c (resolved T N fuel c msg list)
  unfolding resolved refuse
  resolved_closed fuel c msg none e = (_, refl)
  resolved_closed fuel c msg (some list) e =
      (codes "host connection failed", rw (e, connect_list_closed list, connected) refl)

  for_url_closed :
      (fuel : ℕ) (c : HttpClient T) (method : HttpMethod) (body : Bytes) (u : Option Url)
      → c.tcp_client ≡ none
      → Refusal c (for_url T N fuel c method body u)
  unfolding for_url refuse
  for_url_closed fuel c method body none e = (_, refl)
  for_url_closed fuel c method body (some u) e =
      elim (Bool-cases (not (equal u.proto (codes "http")))) [
        | inl other ↦ (codes "unsupport protocal", rw other refl)
        | inr http ↦ rw http (resolved_closed fuel c _ _ e)
      ]

  -- A client whose descriptor is -1 refuses every request, and stays as it is.
  pub request_closed :
      (fuel : ℕ) (c : HttpClient T) (method : HttpMethod) (url body : Bytes)
      → c.tcp_client ≡ none
      → Refusal c (request T N fuel c method url body)
  unfolding request refuse
  request_closed fuel c method url body e =
      elim (Bool-cases (not (is_post method) && not (is_empty body))) [
        | inl bad ↦ (codes "method error", rw bad refl)
        | inr fine ↦ rw fine (for_url_closed fuel c method body (value (parse url)) e)
      ]

  -- The run, if it gives a response, leaves the client closed.
  abbrev pub Closes : Run T (Result HttpResponse Bytes) → Type 0
  Closes run =
      (r : HttpResponse) (c : HttpClient T)
      → run ≡ some (returned (from_value r), c)
      → c.tcp_client ≡ none

  closed_after :
      (x : Run T (Result HttpResponse Bytes)) (o : Outcome (Result HttpResponse Bytes))
      (c : HttpClient T)
      → Option.map (closing T N) x ≡ some (o, c)
      → c.tcp_client ≡ none
  closed_after none o c h = cc
  closed_after (some y) o c h = cc (h)

  connected-Closes :
      (fuel : ℕ) (c : HttpClient T) (msg : Bytes) (a : Attempt Sock)
      → Closes (connected T N fuel c msg a)
  unfolding connected refuse
  connected-Closes fuel c msg (refused sock) r c' h = cc
  connected-Closes fuel c msg (up s) r c' h = unfold exchange in closed_after _ _ c' h

  resolved-Closes :
      (fuel : ℕ) (c : HttpClient T) (msg : Bytes) (list : Option (List (Option Address)))
      → Closes (resolved T N fuel c msg list)
  unfolding resolved refuse
  resolved-Closes fuel c msg none r c' h = cc
  resolved-Closes fuel c msg (some list) r c' h = connected-Closes fuel c msg _ r c' h

  for_url-Closes :
      (fuel : ℕ) (c : HttpClient T) (method : HttpMethod) (body : Bytes) (u : Option Url)
      → Closes (for_url T N fuel c method body u)
  unfolding for_url refuse
  for_url-Closes fuel c method body none r c' h = cc
  for_url-Closes fuel c method body (some u) r c' h =
      elim (Bool-cases (not (equal u.proto (codes "http")))) [
        | inl other ↦ cc (rw other at h)
        | inr http ↦ resolved-Closes fuel c _ _ r c' (rw http at h)
      ]

  request-Closes :
      (fuel : ℕ) (c : HttpClient T) (method : HttpMethod) (url body : Bytes)
      → Closes (request T N fuel c method url body)
  unfolding request refuse
  request-Closes fuel c method url body r c' h =
      elim (Bool-cases (not (is_post method) && not (is_empty body))) [
        | inl bad ↦ cc (rw bad at h)
        | inr fine ↦ for_url-Closes fuel c method body _ r c' (rw fine at h)
      ]

  -- Once a request has given a response, the client refuses every later request: nothing opens its
  -- socket again.
  pub request_once :
      (fuel : ℕ) (c : HttpClient T) (method : HttpMethod) (url body : Bytes) (r : HttpResponse)
      (c' : HttpClient T)
      → request T N fuel c method url body ≡ some (returned (from_value r), c')
      → (fuel' : ℕ) (method' : HttpMethod) (url' body' : Bytes)
      → Refusal c' (request T N fuel' c' method' url' body')
  request_once fuel c method url body r c' h fuel' method' url' body' =
      request_closed fuel' c' method' url' body' (request-Closes fuel c method url body r c' h)

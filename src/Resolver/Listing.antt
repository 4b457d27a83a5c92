-- ===== src/Resolver/Listing.antt =====
-- What a loop over the address list of include/http/resolver.hpp sees.
use libcoio.Base.{
  ℕ, zero, suc, ◌<◌, ◌≡◌, refl, ap, false, Option, some, List, [], ◌∷◌, arith, ◌==◌, length, Bytes,
}
use libcoio.Outcome.{Outcome}
use libcoio.Protocol.{SockaddrIn}
use libcoio.Resolver.AddressList.{
  Node, Addrinfo, node_address, get_name, to_address, increment, same_node, begin, visit,
}

-- Each node with the name at the same place of the chain, and the empty name behind its end.
pub listing : List Bytes → List Node → List (Bytes × Option (Outcome SockaddrIn))
listing names [] = []
listing [] (n ∷ ns) = ([], some (node_address n)) ∷ listing [] ns
listing (m ∷ ms) (n ∷ ns) = (m, some (node_address n)) ∷ listing ms ns

visit-from :
    (f : ℕ) (names : List Bytes) (nodes : List Node)
    → length nodes < f
    → visit f (record { name = names; node = nodes }) ≡ listing names nodes
unfolding visit increment same_node get_name to_address listing
visit-from zero names nodes h = absurd (omega arith)
visit-from (suc f) [] [] h = refl
visit-from (suc f) (m ∷ ms) [] h = refl
visit-from (suc f) [] (n ∷ ns) h =
    let open_end : (suc (length ns) == 0) ≡ false = ground arith in
    rw open_end (ap (λ vs. ([], some (node_address n)) ∷ vs) (visit-from f [] ns (omega arith)))
visit-from (suc f) (m ∷ ms) (n ∷ ns) h =
    let open_end : (suc (length ns) == 0) ≡ false = ground arith in
    rw open_end (ap (λ vs. (m, some (node_address n)) ∷ vs) (visit-from f ms ns (omega arith)))

-- A loop over the list visits each node once and in order, with the name at the same place of the chain or
-- the empty name; the address of a node is given exactly if its length is that of a sockaddr_in.
pub visit-begin :
    (f : ℕ) (head : Addrinfo)
    → length head.nodes < f
    → visit f (begin head) ≡ listing head.cnames head.nodes
unfolding begin
visit-begin f head h = visit-from f head.cnames head.nodes h

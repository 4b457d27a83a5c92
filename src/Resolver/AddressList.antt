-- ===== src/Resolver/AddressList.antt =====
-- `address_view` and `address_list` of include/http/resolver.hpp, over the linked lists of c-ares.
use libcoio.Base.{
  ℕ, zero, suc, Bool, not, Option, none, some, List, [], ◌∷◌, ◌==◌, if◌then◌else◌, length, Bytes,
}
use libcoio.Outcome.{Outcome, returned, threw, logic_error}
use libcoio.Protocol.{SockaddrIn, from_raw_address, address_len, af_inet}

pub record Node : Type 0 where
  pub ai_family : ℕ
  pub ai_addrlen : ℕ
  pub ai_addr : SockaddrIn

-- `ares_addrinfo`, by the names of its chain of aliases and its nodes.
pub record Addrinfo : Type 0 where
  pub cnames : List Bytes
  pub nodes : List Node

-- A pointer into a linked list is the part of the list from there on; null is the empty list.
pub record AddressView : Type 0 where
  pub name : List Bytes
  pub node : List Node

unfoldable pub get_name : AddressView → Bytes
get_name v = elim v.name [ [] ↦ [] | n ∷ ns ↦ n ]

-- In this and the next, `none` reads through null.
unfoldable pub is_v4 : AddressView → Option Bool
is_v4 v = elim v.node [ [] ↦ none | n ∷ ns ↦ some (n.ai_family == af_inet) ]

abbrev pub node_address : Node → Outcome SockaddrIn
node_address n =
    if not (n.ai_addrlen == address_len)
    then threw logic_error
    else returned (from_raw_address n.ai_addr)

unfoldable pub to_address : AddressView → Option (Outcome SockaddrIn)
to_address v = elim v.node [ [] ↦ none | n ∷ ns ↦ some (node_address n) ]

abbrev pub next : {A : Type 0} → List A → List A
next [] = []
next (x ∷ xs) = xs

-- `operator++()`
unfoldable pub increment : AddressView → AddressView
increment it = record { name = next it.name; node = next it.node }

-- `operator++(int)`: what it gives, and the iterator afterwards.
unfoldable pub increment_post : AddressView → AddressView × AddressView
increment_post it = (increment it, it)

-- `operator==` of two pointers into one list, where a part has its length for its place.
unfoldable pub same_node : AddressView → AddressView → Bool
same_node a b = length a.node == length b.node

unfoldable pub begin : Addrinfo → AddressView
begin head = record { name = head.cnames; node = head.nodes }

abbrev pub end : AddressView
end = record { name = []; node = [] }

-- The range-based `for` from an iterator on: what the body is given of each element, by fuel.
unfoldable pub visit : ℕ → AddressView → List (Bytes × Option (Outcome SockaddrIn))
visit zero it = []
visit (suc f) it =
    let rest = visit f (increment it) in
    if same_node it end then [] else (get_name it, to_address it) ∷ rest

-- ===== src/Api/Live.antt =====
-- internal/api/ws.go: the hub of the live view. A connection is known by a number.
pub mod Watchers
use vahak.Prelude.{
  ℕ, ◌≡◌, ◌≢◌, refl, String, Bool, true, false, Option, none, some, List, [], ◌∷◌, map, Memᴰ, ◌==◌,
  ==_iff, lookup, insert, erase, nat_eq, lookup-insert, lookup-erase, delete_where, any, has_key,
  if◌then◌else◌, arith,
}
use vahak.Models.{Uuid}

pub record Hub : Type 0 where
  pub clients : List (Uuid × List ℕ)

abbrev pub new_hub : Hub
new_hub = record { clients = [] }

-- The connections of an endpoint; a missing entry is a nil map.
unfoldable pub conns_of : Uuid → Hub → List ℕ
conns_of id hub = elim (lookup id hub.clients) [ none ↦ [] | some conns ↦ conns ]

-- Adding to a set.
unfoldable pub add_conn : ℕ → List ℕ → List ℕ
add_conn conn conns = if any (λ c. c == conn) conns then conns else conn ∷ conns

unfoldable pub register : Uuid → ℕ → Hub → Hub
register id conn hub = record hub {
  clients = insert id (add_conn conn (conns_of id hub)) hub.clients;
}

-- An endpoint without connections leaves the map.
unfoldable pub store_conns : Uuid → List ℕ → Hub → Hub
store_conns id [] hub = record hub { clients = erase id hub.clients }
store_conns id (c ∷ cs) hub = record hub { clients = insert id (c ∷ cs) hub.clients }

unfoldable pub unregister : Uuid → ℕ → Hub → Hub
unregister id conn hub = store_conns id (delete_where (λ c. c == conn) (conns_of id hub)) hub

-- What is written, and to which connections; `data` is json.Marshal's answer.
unfoldable pub broadcast : Uuid → Option String → Hub → List (ℕ × String)
broadcast id none hub = []
broadcast id (some text) hub = map (λ c. (c, text)) (conns_of id hub)

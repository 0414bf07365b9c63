-- ===== src/Api/Live/Watchers.antt =====
-- Who is told of a captured request (internal/api/ws.go).
use vahak.Prelude.{
  ℕ, ◌≡◌, refl, ap, inl, inr, String, subst, ◌&&◌, ◌||◌, not, Bool, true, false, Bool-cases, some,
  List, [], ◌∷◌, map, ◌==◌, ==_iff, nat_eq, lookup-insert, lookup-erase, delete_where, any,
  if◌then◌else◌, arith,
}
use vahak.Models.{Uuid}
use vahak.Api.Live.{Hub, conns_of, add_conn, register, store_conns, unregister, broadcast}

conns_of-register :
    (id k : Uuid) (conn : ℕ) (hub : Hub)
    → conns_of k (register id conn hub)
      ≡ (if id == k then add_conn conn (conns_of id hub) else conns_of k hub)
unfolding conns_of register
conns_of-register id k conn hub =
    ground (arith, lookup-insert id k (add_conn conn (conns_of id hub)) hub.clients)

conns_of-store_conns :
    (id k : Uuid) (conns : List ℕ) (hub : Hub)
    → conns_of k (store_conns id conns hub) ≡ (if id == k then conns else conns_of k hub)
unfolding conns_of store_conns
conns_of-store_conns id k [] hub = ground (arith, lookup-erase id k hub.clients)
conns_of-store_conns id k (c ∷ cs) hub = ground (arith, lookup-insert id k (c ∷ cs) hub.clients)

add_conn-has :
    (conn c : ℕ) (conns : List ℕ)
    → any (λ x. x == c) (add_conn conn conns) ≡ ((conn == c) || any (λ x. x == c) conns)
unfolding add_conn any
add_conn-has conn c conns = elim (Bool-cases (any (λ x. x == conn) conns)) [
  | inr new ↦ rw new refl
  | inl there ↦ elim (Bool-cases (conn == c)) [
    | inr other ↦ rw (there, other) refl
    | inl same ↦
        let found : any (λ x. x == c) conns ≡ true =
          subst (λ k. any (λ x. x == k) conns ≡ true) ((==_iff conn c).0 same) there in
        rw (there, same) found
  ]
]

delete_where-has :
    (conn c : ℕ) (conns : List ℕ)
    → any (λ x. x == c) (delete_where (λ x. x == conn) conns)
      ≡ (if conn == c then false else any (λ x. x == c) conns)
unfolding any delete_where
delete_where-has conn c [] = ground arith
delete_where-has conn c (x ∷ conns) = ground (arith, delete_where-has conn c conns)

any-map_pair :
    (conn : ℕ) (text : String) (conns : List ℕ)
    → any (λ (m : ℕ × String). m.0 == conn) (map (λ c. (c, text)) conns)
      ≡ any (λ c. c == conn) conns
unfolding any
any-map_pair conn text [] = refl
any-map_pair conn text (c ∷ conns) = ap (λ b. (c == conn) || b) (any-map_pair conn text conns)

-- Whether a broadcast for the endpoint is written to the connection.
abbrev pub is_told : Uuid → ℕ → String → Hub → Bool
is_told id conn text hub = any (λ m. m.0 == conn) (broadcast id (some text) hub)

is_told-conns :
    (id : Uuid) (conn : ℕ) (text : String) (hub : Hub)
    → is_told id conn text hub ≡ any (λ c. c == conn) (conns_of id hub)
unfolding broadcast
is_told-conns id conn text hub = any-map_pair conn text (conns_of id hub)

is_told-register :
    (id k : Uuid) (conn c : ℕ) (text : String) (hub : Hub)
    → is_told k c text (register id conn hub) ≡ (((id == k) && (conn == c)) || is_told k c text hub)
is_told-register id k conn c text hub = elim (Bool-cases (id == k)) [
  | inl same ↦
      let e = (==_iff id k).0 same in
      ground (
        arith,
        e,
        is_told-conns k c text (register id conn hub),
        is_told-conns k c text hub,
        conns_of-register id k conn hub,
        add_conn-has conn c (conns_of id hub),
      )
  | inr other ↦ ground (
    arith,
    is_told-conns k c text (register id conn hub),
    is_told-conns k c text hub,
    conns_of-register id k conn hub,
  )
]

is_told-unregister :
    (id k : Uuid) (conn c : ℕ) (text : String) (hub : Hub)
    → is_told k c text (unregister id conn hub)
      ≡ (not ((id == k) && (conn == c)) && is_told k c text hub)
unfolding unregister
is_told-unregister id k conn c text hub =
    let left = delete_where (λ x. x == conn) (conns_of id hub) in
    elim (Bool-cases (id == k)) [
      | inl same ↦
          let e = (==_iff id k).0 same in
          ground (
            arith,
            e,
            is_told-conns k c text (store_conns id left hub),
            is_told-conns k c text hub,
            conns_of-store_conns id k left hub,
            delete_where-has conn c (conns_of id hub),
          )
      | inr other ↦ ground (
        arith,
        is_told-conns k c text (store_conns id left hub),
        is_told-conns k c text hub,
        conns_of-store_conns id k left hub,
      )
    ]

-- Registering a connection adds it to those that are told of an endpoint's requests, unregistering
-- takes it away, and neither changes anything for another connection or another endpoint.
pub watchers_told :
    (id k : Uuid) (conn c : ℕ) (text : String) (hub : Hub)
    → (is_told k c text (register id conn hub)
        ≡ (((id == k) && (conn == c)) || is_told k c text hub))
      × (is_told k c text (unregister id conn hub)
          ≡ (not ((id == k) && (conn == c)) && is_told k c text hub))
watchers_told id k conn c text hub =
    (is_told-register id k conn c text hub, is_told-unregister id k conn c text hub)

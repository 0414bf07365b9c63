-- ===== src/Forwarder/Deliver.antt =====
-- internal/forwarder/forwarder.go: deliver. net/http is the parameter `Http`.
use text.Mathlib.TextPositions.{eq_refl}
use vahak.Prelude.{
  ◌⊎◌, inl, inr, Bool-cases, ℕ, ◌≡◌, String, Bool, true, false, not, ◌||◌, Option, none, some, List,
  [], ◌∷◌, ◌++◌, lookup, insert, string_eq, str_eq, eq_iff, leb, ltb, if◌then◌else◌, lookup-insert,
  arith, refl, ◌≢◌, ◌≢◌,
}
use vahak.Models.{Uuid, Header, Request}

pub record OutgoingRequest : Type 0 where
  pub method : String
  pub url : String
  pub body : String
  pub headers : Header

-- `canonical` is the spelling of a header key that Header.Add and Header.Set use, `accepts` is
-- whether http.NewRequest takes the method and the URL, `send` is the status of the answer, or
-- `none` for an error of client.Do.
pub record Http : Type 0 where
  pub canonical : String → String
  pub accepts : String → String → Bool
  pub send : OutgoingRequest → Option ℕ
  pub uuid_text : Uuid → String
  pub timestamp : String

str_eq_ne : (a b : String) → a ≢ b → str_eq a b ≡ false
str_eq_ne a b h = ground (arith, eq_iff a b)

abbrev pub values : Option (List String) → List String
values none = []
values (some vs) = vs

module _ (http : Http) where
  unfoldable pub header_add : String → String → Header → Header
  header_add key v h =
      insert (http.canonical key) (values (lookup (http.canonical key) h) ++ v ∷ []) h

  unfoldable pub header_set : String → String → Header → Header
  header_set key v h = insert (http.canonical key) (v ∷ []) h

  add_values : String → List String → Header → Header
  add_values key [] h = h
  add_values key (v ∷ vs) h = add_values key vs (header_add key v h)

  -- The loop over `req.Headers`, without Content-Length.
  pub forward_headers : Header → Header → Header
  unfolding add_values header_add
  forward_headers [] h = h
  forward_headers ((key, vs) ∷ rest) h =
      forward_headers rest (if str_eq key "Content-Length" then h else add_values key vs h)

  pub outgoing : String → String → Request → OutgoingRequest
  unfolding forward_headers header_set
  outgoing delivery_id target_url req = record {
    method = req.method;
    url = target_url;
    body = req.body;
    headers = header_set "X-Vahak-Timestamp" http.timestamp (
        header_set "X-Vahak-Delivery-ID" delivery_id
          (header_set "X-Vahak-Event-ID" (http.uuid_text req.id) (forward_headers req.headers [])));
  }

  -- A status of 200 to 299 is success.
  is_success : Option ℕ → Bool
  is_success none = false
  is_success (some code) = not (ltb code 200 || leb 300 code)

  attempted : OutgoingRequest → List (OutgoingRequest × Bool) × Bool
  unfolding is_success
  attempted out = ((out, is_success (http.send out)) ∷ [], is_success (http.send out))

  -- What was sent, if anything was, and whether the error is nil.
  unfoldable pub deliver : String → String → Request → List (OutgoingRequest × Bool) × Bool
  unfolding outgoing attempted
  deliver delivery_id target_url req =
      if http.accepts req.method target_url
      then attempted (outgoing delivery_id target_url req)
      else ([], false)

  pub deliver-log :
      (delivery_id target_url : String) (req : Request)
      → ((deliver delivery_id target_url req).0 ≡ [])
        ⊎ ((success : Bool) × ((deliver delivery_id target_url req).0
              ≡ (outgoing delivery_id target_url req, success) ∷ []))
  unfolding deliver
  deliver-log delivery_id target_url req = elim (Bool-cases (http.accepts req.method target_url)) [
    | inl fits ↦ inr (is_success (http.send (outgoing delivery_id target_url req)), rw fits)
    | inr unfit ↦ inl (rw unfit)
  ]

  -- A delivery that succeeds sent one request, to the target.
  pub deliver-true :
      (delivery_id target_url : String) (req : Request)
      → (deliver delivery_id target_url req).1 ≡ true
      → (out : OutgoingRequest) × ((deliver delivery_id target_url req).0 ≡ (out, true) ∷ [])
        × (out.url ≡ target_url)
  unfolding deliver
  deliver-true delivery_id target_url req h =
      (outgoing delivery_id target_url req, ground arith, refl)

  -- Whatever headers the webhook came with, each request that goes out has exactly one event
  -- identifier, that of the captured request, and exactly one delivery identifier, that of this
  -- attempt, as long as net/http tells the three names apart.
  pub outgoing-ids :
      (delivery_id target_url : String) (req : Request)
      → http.canonical "X-Vahak-Delivery-ID" ≢ http.canonical "X-Vahak-Event-ID"
      → http.canonical "X-Vahak-Timestamp" ≢ http.canonical "X-Vahak-Event-ID"
      → http.canonical "X-Vahak-Timestamp" ≢ http.canonical "X-Vahak-Delivery-ID"
      → let out = outgoing delivery_id target_url req in
        (lookup (http.canonical "X-Vahak-Event-ID") out.headers ≡ some (http.uuid_text req.id ∷ []))
        × (lookup (http.canonical "X-Vahak-Delivery-ID") out.headers ≡ some (delivery_id ∷ []))
  unfolding outgoing header_set
  outgoing-ids delivery_id target_url req a b c =
      let event_last = str_eq_ne _ _ a in
      let event_stays = str_eq_ne _ _ b in
      let delivery_stays = str_eq_ne _ _ c in
      (
        simp (lookup-insert, event_last, event_stays, eq_refl),
        simp (lookup-insert, delivery_stays, eq_refl),
      )

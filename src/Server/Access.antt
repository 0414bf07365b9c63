-- ===== src/Server/Access.antt =====
-- Who may do what without the key (cmd/server/main.go).
use vahak.Prelude.{
  ap, ◌≡◌, ◌≢◌, refl, sym, ◌∙◌, inl, inr, String, true, false, Option, none, some, List, [], ◌∷◌,
  All, str_eq, eq_iff, Bool-cases, arith,
}
use vahak.Store.Error.{ok, Result}
use vahak.Store.Storage.{Storage}
use vahak.Store.Engine.{Engine, SameEndpoints}
use vahak.Api.{Handler}
use vahak.Api.Live.{new_hub}
use mathlib.Core.Bool.{false≢true}
use vahak.Api.Capture.Keeps.{Untouched, capture_webhook-Untouched}
use vahak.Config.{Config}
use vahak.Server.{
  Fatal, Drivers, validate_key, open_store, start, unless_fatal, is_protected, HttpRequest,
  unauthorized, new_handler, dispatch, check_key, serve, serve_all, happen, Happening, asks,
  flushes, claims, saves, marks, prunes, health, captures, files, creates, lists, gets, updates,
  deletes, requests, replays, watches, Route,
}

-- A request that does not carry the key that the server asks for: it is for a public route, or has
-- no key, or has the well-known one where that is not allowed, or has another one.
pub data Stranger (cfg : Config) (r : HttpRequest) : Type 0 where
  public : is_protected r.route ≡ false → Stranger cfg r
  keyless : r.x_api_key ≡ "" → Stranger cfg r
  well_known : cfg.allow_insecure_key ≡ false → r.x_api_key ≡ "docker_test_key" → Stranger cfg r
  mistaken : r.x_api_key ≢ cfg.api_key → Stranger cfg r

validate_key-none :
    (cfg : Config)
    → validate_key cfg ≡ none
    → (str_eq cfg.api_key "" ≡ false)
      × (cfg.allow_insecure_key ≡ false → str_eq cfg.api_key "docker_test_key" ≡ false)
unfolding validate_key
validate_key-none cfg h = (ground arith, λ off. ground arith)

refused_key :
    (cfg : Config) (key other : String)
    → str_eq cfg.api_key other ≡ false
    → key ≡ other
    → key ≢ cfg.api_key
refused_key cfg key other h e same =
    false≢true (sym h ∙ (eq_iff cfg.api_key other).1 (sym same ∙ e))

-- A stranger at a protected route has not the configured key.
wrong_key :
    (cfg : Config) (r : HttpRequest)
    → validate_key cfg ≡ none
    → Stranger cfg r
    → is_protected r.route ≡ true
    → r.x_api_key ≢ cfg.api_key
wrong_key cfg r valid (public p) e = absurd (cc (p, e))
wrong_key cfg r valid (keyless k) e =
    refused_key cfg r.x_api_key "" (validate_key-none cfg valid).0 k
wrong_key cfg r valid (well_known off k) e =
    refused_key cfg r.x_api_key "docker_test_key" ((validate_key-none cfg valid).1 off) k
wrong_key cfg r valid (mistaken d) e = d

unless_fatal-ok {ℓ} :
    {A : Type ℓ} (o : Option Fatal) (next : Result Fatal A) {a : A}
    → unless_fatal o next ≡ ok a
    → (o ≡ none) × (next ≡ ok a)
unless_fatal-ok none next h = (refl, h)
unless_fatal-ok (some f) next h = absurd (cc h)

module _ (storage : Storage) where
  public-Untouched :
      (route : Route) (h : Handler storage)
      → is_protected route ≡ false
      → Untouched storage h (dispatch storage route h).1
  unfolding dispatch is_protected
  public-Untouched health h e = (refl, refl, refl)
  public-Untouched files h e = (refl, refl, refl)
  public-Untouched (captures w r) h e = capture_webhook-Untouched storage w r h
  public-Untouched (creates a b c d) h e = absurd (cc e)
  public-Untouched (lists a) h e = absurd (cc e)
  public-Untouched (gets a b) h e = absurd (cc e)
  public-Untouched (updates a b c d g f) h e = absurd (cc e)
  public-Untouched (deletes a b) h e = absurd (cc e)
  public-Untouched (requests a b) h e = absurd (cc e)
  public-Untouched (replays a b c d g f) h e = absurd (cc e)
  public-Untouched (watches a b c) h e = absurd (cc e)

  check_key-wrong :
      (cfg : Config) (key : String) (route : Route) (h : Handler storage)
      → key ≢ cfg.api_key
      → check_key storage cfg key route h ≡ (some unauthorized, h)
  unfolding check_key
  check_key-wrong cfg key route h d = elim (Bool-cases (str_eq key cfg.api_key)) [
    | inl e ↦ absurd (d ((eq_iff key cfg.api_key).0 e))
    | inr e ↦ rw e refl
  ]

  -- What a stranger asks for changes nothing that the key protects.
  serve-Untouched :
      (cfg : Config) (r : HttpRequest) (h : Handler storage)
      → validate_key cfg ≡ none
      → Stranger cfg r
      → Untouched storage h (serve storage cfg r h).1
  unfolding serve
  serve-Untouched cfg r h valid stranger = elim (Bool-cases (is_protected r.route)) [
    | inl e ↦
        rw (e, check_key-wrong cfg r.x_api_key r.route h (wrong_key cfg r valid stranger e))
          (refl, refl, refl)
    | inr e ↦ rw e (public-Untouched r.route h e)
  ]

  start-ok :
      (cfg : Config) (d : Drivers) (s : storage.State) {h : Handler storage}
      → start storage cfg d s ≡ ok h
      → (validate_key cfg ≡ none) × (new_handler storage cfg.ack_mode s ≡ h)
  unfolding start
  start-ok cfg d s h =
      let (valid, next) = unless_fatal-ok (validate_key cfg) _ h in
      let (opened, made) = unless_fatal-ok (open_store cfg.db_engine cfg d) _ next in
      (valid, cc made)

module _ (engine : Engine) where
  open engine use {storage}

  -- Of the requests among what happens, none is let in.
  abbrev pub Foreign : Config → Happening engine → Type 0
  Foreign cfg (asks r) = Stranger cfg r
  Foreign cfg (flushes faults items) = Unit
  Foreign cfg (claims fault now lease limit) = Unit
  Foreign cfg (saves fault now job) = Unit
  Foreign cfg (marks fault now ids) = Unit
  Foreign cfg (prunes requests_fault jobs_fault now days) = Unit

  -- The endpoints as they are read, and the connections of the live view.
  abbrev Guarded : Handler storage → Handler storage → Type 0
  Guarded h g = SameEndpoints storage h.store g.store × (g.hub ≡ h.hub)

  SameEndpoints-eq : (s t : storage.State) → t ≡ s → SameEndpoints storage s t
  SameEndpoints-eq s t e = (
    λ fault id. ap (storage.get_endpoint fault id) e,
    λ fault. ap (storage.list_endpoints fault) e,
  )

  Guarded-trans : (h g k : Handler storage) → Guarded h g → Guarded g k → Guarded h k
  Guarded-trans h g k ((one, all), hub) ((one', all'), hub') =
      ((λ fault id. one' fault id ∙ one fault id, λ fault. all' fault ∙ all fault), hub' ∙ hub)

  happen-Guarded :
      (cfg : Config) (e : Happening engine) (h : Handler storage)
      → validate_key cfg ≡ none
      → Foreign cfg e
      → Guarded h (happen engine cfg e h)
  unfolding happen
  happen-Guarded cfg (asks r) h valid stranger =
      let (kept, connections, mode) = serve-Untouched storage cfg r h valid stranger in
      (SameEndpoints-eq h.store _ kept, connections)
  happen-Guarded cfg (flushes faults items) h valid t =
      (engine.flush-quiet faults items h.store, refl)
  happen-Guarded cfg (claims fault now lease limit) h valid t =
      (engine.claim-quiet fault now lease limit h.store, refl)
  happen-Guarded cfg (saves fault now job) h valid t =
      (engine.save-quiet fault now job h.store, refl)
  happen-Guarded cfg (marks fault now ids) h valid t =
      (engine.mark-quiet fault now ids h.store, refl)
  happen-Guarded cfg (prunes requests_fault jobs_fault now days) h valid t =
      (engine.prune-quiet requests_fault jobs_fault now days h.store, refl)

  serve_all-Guarded :
      (cfg : Config) (es : List (Happening engine)) (h : Handler storage)
      → validate_key cfg ≡ none
      → All (Foreign cfg) es
      → Guarded h (serve_all engine cfg es h)
  unfolding serve_all
  serve_all-Guarded cfg [] h valid strangers = (SameEndpoints-eq h.store h.store refl, refl)
  serve_all-Guarded cfg (e ∷ es) h valid (stranger, strangers) =
      let g = happen engine cfg e h in
      Guarded-trans h g (serve_all engine cfg es g) (happen-Guarded cfg e h valid stranger)
        (serve_all-Guarded cfg es g valid strangers)

  -- A server that has started lets no stranger in, with either engine: whatever requests it gets,
  -- from its start on, as long as none of those for a protected route carries the configured key,
  -- and whatever the batch worker, the forwarder and the retention cleaner do to the tables
  -- meanwhile, the endpoints that the store has, as GetEndpoint and ListEndpoints read them, and
  -- the connections of the live view stay as they were at the start, and the next protected request
  -- without the key is answered with 401 and changes nothing. A request without a key never carries
  -- the configured one, nor does one with the well-known key, unless the configuration allows that.
  pub strangers_change_nothing :
      (cfg : Config) (d : Drivers) (s : storage.State) (es : List (Happening engine))
      (r : HttpRequest) {h : Handler storage}
      → start storage cfg d s ≡ ok h
      → All (Foreign cfg) es
      → Stranger cfg r
      → is_protected r.route ≡ true
      → let g = serve_all engine cfg es h in
        SameEndpoints storage s g.store
        × (g.hub ≡ new_hub)
        × (serve storage cfg r g ≡ (some unauthorized, g))
  unfolding serve
  strangers_change_nothing cfg d s es r {h} started strangers stranger e =
      let (valid, same) = start-ok storage cfg d s started in
      let ((one, all), connections) = serve_all-Guarded cfg es h valid strangers in
      let stored : h.store ≡ s = sym (ap (λ k. k.store) same) in
      (
        (
          λ fault id. one fault id ∙ ap (storage.get_endpoint fault id) stored,
          λ fault. all fault ∙ ap (storage.list_endpoints fault) stored,
        ),
        connections ∙ sym (ap (λ k. k.hub) same),
        rw e (check_key-wrong storage cfg r.x_api_key r.route _ (wrong_key cfg r valid stranger e)),
      )

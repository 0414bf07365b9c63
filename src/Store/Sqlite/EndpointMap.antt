-- ===== src/Store/Sqlite/EndpointMap.antt =====
-- The methods on endpoints against a map from identifiers to endpoints (internal/store/sqlite.go).
use vahak.Prelude.{
  ◌≡◌, refl, sym, ap, ◌∙◌, inl, inr, String, true, Option, none, some, List, [], ◌∷◌, ◌++◌, arith,
  ◌==◌, ==_iff, any, find, select, update_where, delete_where, has_key, Bool-cases, if◌then◌else◌,
}
use mathlib.Core.Path.{fun_ext}
use vahak.Models.{Uuid, Time, Endpoint}
use vahak.Store.Error.{no_rows, wrap, wrapped, Cause, Error, Result, ok, err, exec, commit}
use vahak.Store.Db.{Db, endpoint_key, insert_endpoint, update_endpoints, delete_endpoints}
use vahak.Store.Sqlite.History.{empty_db}
use vahak.Store.Sqlite.{one_row, create_endpoint, update_endpoint, delete_endpoint, get_endpoint}

-- What an operator does; a method that the driver refuses has a cause.
pub data Edit : Type 0 where
  creates : Option Cause → Uuid → Time → String → String → String → Edit
  updates : Option Cause → Option Cause → Uuid → String → String → String → Edit
  deletes : Option Cause → Uuid → Edit

unfoldable pub edit : Edit → Db → Db
edit (creates fault id now name url script) db = (create_endpoint fault id now name url script db).0
edit (updates fault get_fault id name url script) db =
    (update_endpoint fault get_fault id name url script db).0
edit (deletes fault id) db = (delete_endpoint fault id db).0

unfoldable pub edit_all : List Edit → Db → Db
unfolding edit
edit_all [] db = db
edit_all (e ∷ es) db = edit_all es (edit e db)

-- The specification.
abbrev pub EndpointMap : Type 0
EndpointMap = Uuid → Option Endpoint

-- An identifier that is taken keeps its endpoint.
abbrev pub put_new : Endpoint → EndpointMap → EndpointMap
put_new e m k = elim (m k) [ some old ↦ some old | none ↦ if e.id == k then some e else none ]

abbrev pub change : Uuid → (Endpoint → Endpoint) → EndpointMap → EndpointMap
change id f m k = elim (m k) [ none ↦ none | some e ↦ if id == k then some (f e) else some e ]

abbrev pub remove : Uuid → EndpointMap → EndpointMap
remove id m k = if id == k then none else m k

abbrev pub refused : Option Cause → EndpointMap → EndpointMap → EndpointMap
refused none old new = new
refused (some c) old new = old

unfoldable pub edit_map : Edit → EndpointMap → EndpointMap
edit_map (creates fault id now name url script) m = refused fault m (
    put_new
      (record {
        id = id;
        name = name;
        target_url = url;
        created_at = now;
        transformer_script = script;
      })
      m)
edit_map (updates fault get_fault id name url script) m =
    refused fault m
      (change id (λ e. record e { name = name; target_url = url; transformer_script = script }) m)
edit_map (deletes fault id) m = refused fault m (remove id m)

unfoldable pub edit_map_all : List Edit → EndpointMap → EndpointMap
unfolding edit_map
edit_map_all [] m = m
edit_map_all (e ∷ es) m = edit_map_all es (edit_map e m)

-- The map that tables stand for.
abbrev pub map_of : Db → EndpointMap
map_of db k = find (λ e. e.id == k) db.endpoints

find-insert :
    (k : Uuid) (rows : List Endpoint) (e : Endpoint)
    → find (λ r. r.id == k) (rows ++ e ∷ []) ≡ put_new e (λ k. find (λ r. r.id == k) rows) k
unfolding find
find-insert k [] e = refl
find-insert k (r ∷ rows) e = ground (arith, find-insert k rows e)

find-taken :
    (k id : Uuid) (rows : List Endpoint) (e : Endpoint)
    → e.id ≡ id
    → has_key endpoint_key id rows ≡ true
    → put_new e (λ k. find (λ r. r.id == k) rows) k ≡ find (λ r. r.id == k) rows
unfolding find any
find-taken k id [] e s h = absurd (cc h)
find-taken k id (r ∷ rows) e s h =
    ground (arith, ==_iff r.id k, ==_iff e.id k, ==_iff r.id id, find-taken k id rows e s)

find-change :
    (k id : Uuid) (f : Endpoint → Endpoint) (rows : List Endpoint)
    → ((r : Endpoint) → (f r).id ≡ r.id)
    → find (λ r. r.id == k) (update_where (λ r. r.id == id) f rows)
      ≡ change id f (λ k. find (λ r. r.id == k) rows) k
unfolding find update_where
find-change k id f [] same = ground arith
find-change k id f (r ∷ rows) same =
    ground (arith, same r, ==_iff r.id k, ==_iff r.id id, ==_iff id k, find-change k id f rows same)

find-remove :
    (k id : Uuid) (rows : List Endpoint)
    → find (λ r. r.id == k) (delete_where (λ r. r.id == id) rows)
      ≡ remove id (λ k. find (λ r. r.id == k) rows) k
unfolding find delete_where
find-remove k id [] = ground arith
find-remove k id (r ∷ rows) =
    ground (arith, ==_iff r.id k, ==_iff r.id id, ==_iff id k, find-remove k id rows)

created :
    (e : Endpoint) (db : Db) (k : Uuid)
    → map_of (commit db "CreateEndpoint" (exec none (insert_endpoint e db)) e).0 k
      ≡ put_new e (map_of db) k
unfolding insert_endpoint
created e db k = elim (Bool-cases (has_key endpoint_key e.id db.endpoints)) [
  | inl taken ↦ rw taken (sym (find-taken k e.id db.endpoints e refl taken))
  | inr free ↦ rw free (find-insert k db.endpoints e)
]

edit-map_of : (e : Edit) (db : Db) (k : Uuid) → map_of (edit e db) k ≡ edit_map e (map_of db) k
unfolding edit edit_map create_endpoint update_endpoint delete_endpoint update_endpoints
    delete_endpoints
edit-map_of (creates none id now name url script) db k = created _ db k
edit-map_of (creates (some c) id now name url script) db k = refl
edit-map_of (updates none get_fault id name url script) db k =
    find-change k id _ db.endpoints (λ r. refl)
edit-map_of (updates (some c) get_fault id name url script) db k = refl
edit-map_of (deletes none id) db k = find-remove k id db.endpoints
edit-map_of (deletes (some c) id) db k = refl

edit_all-map_of : (es : List Edit) (db : Db) → map_of (edit_all es db) ≡ edit_map_all es (map_of db)
unfolding edit_all edit_map_all
edit_all-map_of [] db = refl
edit_all-map_of (e ∷ es) db =
    edit_all-map_of es (edit e db) ∙ ap (edit_map_all es) (fun_ext (edit-map_of e db))

-- What GetEndpoint answers for what the map holds.
abbrev pub answer : Option Endpoint → Result Error Endpoint
answer none = err (wrapped "GetEndpoint" no_rows)
answer (some e) = ok e

one_row-select :
    (k : Uuid) (rows : List Endpoint)
    → wrap "GetEndpoint" (one_row (select (λ e. e.id == k) rows))
      ≡ answer (find (λ e. e.id == k) rows)
unfolding select find
one_row-select k [] = refl
one_row-select k (r ∷ rows) = elim (Bool-cases (r.id == k)) [
  | inl hit ↦ rw hit refl
  | inr miss ↦ rw miss (one_row-select k rows)
]

-- The endpoints of the SQLite engine refine a map from identifiers to endpoints: after any sequence
-- of CreateEndpoint, UpdateEndpoint and DeleteEndpoint on empty tables, whatever the driver refuses
-- on the way, GetEndpoint answers what the same sequence makes of the empty map, in which a creation
-- fails if the identifier is taken, an update changes an endpoint that exists and keeps its
-- identifier and its time of creation, and a deletion removes it.
pub endpoints_refine_map :
    (es : List Edit) (k : Uuid)
    → get_endpoint none k (edit_all es empty_db) ≡ answer (edit_map_all es (λ _. none) k)
unfolding get_endpoint find
endpoints_refine_map es k =
    one_row-select k (edit_all es empty_db).endpoints
    ∙ ap (λ m. answer (m k)) (edit_all-map_of es empty_db)

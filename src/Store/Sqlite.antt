-- ===== src/Store/Sqlite.antt =====
-- internal/store/sqlite.go: endpoints and requests. A method takes what it reads from outside as
-- arguments: `fault`, the driver's refusal of a statement if it refuses it, the clock, and the UUID
-- that it draws. UUIDs are compared, never spelled out, so their texts are left out.
pub mod Jobs
pub mod Flush
pub mod Retention
pub mod Reads
pub mod Implements
pub mod Quiet
pub mod Engine
pub mod Chunks
pub mod Bulk
pub mod Atomic
pub mod History
pub mod RoundTrip
pub mod EndpointMap
use vahak.Prelude.{ℕ, ◌==◌, String, Bool, ◌≡◌, Option, none, some, List, [], ◌∷◌, ◌++◌, map, select}
use vahak.Prelude.Sort.{sort_by}
use mathlib.Core.List.{reverse}
use vahak.Models.{Uuid, Time, Endpoint, Request, Header}
use vahak.Store.Error.{
  Cause, no_rows, codec, Error, wrapped, Result, ok, err, ◌>>=◌, wrap, exec, commit,
}
use vahak.Store.Codec.{HeaderCodec}
use vahak.Store.Db.{
  Db, RequestRow, insert_endpoint, insert_request, delete_endpoints, update_endpoints,
}

-- QueryRow and Scan: the first row, or sql.ErrNoRows.
abbrev pub one_row {ℓ} : {A : Type ℓ} → List A → Result Cause A
one_row [] = err no_rows
one_row (row ∷ rows) = ok row

-- A codec's error is reported under the operation's name too.
abbrev pub decoded {ℓ} : {A : Type ℓ} → Option A → Result Cause A
decoded none = err codec
decoded (some a) = ok a

unfoldable pub create_endpoint :
    Option Cause → Uuid → Time → String → String → String → Db → Db × Result Error Endpoint
create_endpoint fault id now name target_url transformer db =
    let e : Endpoint = record {
      id = id;
      name = name;
      target_url = target_url;
      transformer_script = transformer;
      created_at = now;
    } in
    commit db "CreateEndpoint" (exec fault (insert_endpoint e db)) e

unfoldable pub get_endpoint : Option Cause → Uuid → Db → Result Error Endpoint
get_endpoint fault id db =
    wrap "GetEndpoint" (exec fault (one_row (select (λ e. e.id == id) db.endpoints)))

-- The UPDATE, and the SELECT of GetEndpoint on what it leaves, each with its own fault.
unfoldable pub update_endpoint :
    Option Cause → Option Cause → Uuid → String → String → String → Db → Db × Result Error Endpoint
unfolding get_endpoint
update_endpoint none get_fault id name target_url transformer db =
    let db' =
      update_endpoints (λ e. e.id == id)
        (λ e. record e { name = name; target_url = target_url; transformer_script = transformer })
        db in
    (db', get_endpoint get_fault id db')
update_endpoint (some c) get_fault id name target_url transformer db =
    (db, err (wrapped "UpdateEndpoint" c))

-- ORDER BY created_at DESC.
unfoldable pub list_endpoints : Option Cause → Db → Result Error (List Endpoint)
list_endpoints fault db =
    wrap "ListEndpoints" (exec fault (ok (reverse (sort_by (λ e. e.created_at) db.endpoints))))

unfoldable pub delete_endpoint : Option Cause → Uuid → Db → Db × Result Error (Unit {0})
delete_endpoint fault id db =
    commit db "DeleteEndpoint" (exec fault (ok (delete_endpoints (λ e. e.id == id) db))) tt

module _ (json : HeaderCodec) where
  -- The columns of a request, with the header's text.
  abbrev pub request_row : Request → String → RequestRow
  request_row r headers = record {
    id = r.id;
    endpoint_id = r.endpoint_id;
    method = r.method;
    headers = headers;
    body = r.body;
    source_ip = r.source_ip;
    received_at = r.received_at;
  }

  unfoldable pub save_request : Option Cause → Request → Db → Db × Result Error (Unit {0})
  save_request fault r db = elim (json.marshal r.headers) [
    | none ↦ (db, err (wrapped "SaveRequest marshal" codec))
    | some headers ↦
        commit db "SaveRequest" (exec fault (insert_request (request_row r headers) db)) tt
  ]

  abbrev with_headers : RequestRow → Header → Request
  with_headers row headers = record {
    id = row.id;
    endpoint_id = row.endpoint_id;
    method = row.method;
    headers = headers;
    body = row.body;
    source_ip = row.source_ip;
    received_at = row.received_at;
  }

  -- json.Unmarshal of the headers column.
  abbrev scan_request : RequestRow → Result Cause Request
  scan_request row =
      decoded (json.unmarshal row.headers) >>= λ headers. ok (with_headers row headers)

  abbrev scan_requests : List RequestRow → Result Cause (List Request)
  scan_requests [] = ok []
  scan_requests (row ∷ rows) = scan_request row >>= λ r. scan_requests rows >>= λ rs. ok (r ∷ rs)

  unfoldable pub get_request : Option Cause → Uuid → Db → Result Error Request
  get_request fault id db =
      wrap "GetRequest" (exec fault (one_row (select (λ r. r.id == id) db.requests))) >>= λ row.
      wrap "GetRequest unmarshal" (scan_request row)

  -- ORDER BY received_at DESC.
  unfoldable pub get_requests_by_endpoint : Option Cause → Uuid → Db → Result Error (List Request)
  get_requests_by_endpoint fault endpoint_id db =
      wrap "GetRequestsByEndpoint" (
        exec fault (
          ok (
            reverse (
              sort_by (λ r. r.received_at)
                (select (λ r. r.endpoint_id == endpoint_id) db.requests)))))
      >>= λ rows. wrap "GetRequestsByEndpoint unmarshal" (scan_requests rows)

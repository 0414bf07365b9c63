-- ===== src/Store/Postgres/Records.antt =====
-- internal/store/store.go: endpoints, requests and new jobs of the PostgreSQL engine.
use vahak.Prelude.{◌==◌, String, Option, none, some, List, [], ◌∷◌, select}
use vahak.Prelude.Sort.{sort_by}
use mathlib.Core.List.{reverse}
use vahak.Models.{Uuid, Time, Endpoint, Request, DeliveryJob, pending}
use vahak.Store.Error.{Cause, Error, Result, ok, err, wrapped, codec, ◌>>=◌, exec, wrap, commit}
use vahak.Store.Codec.{HeaderCodec}
use vahak.Store.Db.{
  Db, RequestRow, JobRow, insert_endpoint, insert_request, insert_job, delete_endpoints,
  update_endpoints,
}
use vahak.Store.Sqlite.Jobs.{scan_job}
use vahak.Store.Sqlite.{request_row, one_row, decoded}

unfoldable pub create_endpoint :
    Option Cause → Uuid → Time → String → String → String → Db → Db × Result Error Endpoint
create_endpoint fault id now name target_url transformer db =
    let e : Endpoint = record {
      id = id;
      name = name;
      target_url = target_url;
      created_at = now;
      transformer_script = transformer;
    } in
    commit db "CreateEndpoint" (exec fault (insert_endpoint e db)) e

unfoldable pub get_endpoint : Option Cause → Uuid → Db → Result Error Endpoint
get_endpoint fault id db =
    wrap "GetEndpoint" (exec fault (one_row (select (λ e. e.id == id) db.endpoints)))

unfoldable pub update_endpoint :
    Option Cause → Option Cause → Uuid → String → String → String → Db → Db × Result Error Endpoint
unfolding get_endpoint
update_endpoint (some c) get_fault id name target_url transformer db =
    (db, err (wrapped "UpdateEndpoint" c))
update_endpoint none get_fault id name target_url transformer db =
    let db' =
      update_endpoints (λ e. e.id == id)
        (λ e. record e { name = name; target_url = target_url; transformer_script = transformer })
        db in
    (db', get_endpoint get_fault id db')

-- ORDER BY created_at DESC.
unfoldable pub list_endpoints : Option Cause → Db → Result Error (List Endpoint)
list_endpoints fault db =
    wrap "ListEndpoints" (exec fault (ok (reverse (sort_by (λ e. e.created_at) db.endpoints))))

unfoldable pub delete_endpoint : Option Cause → Uuid → Db → Db × Result Error (Unit {0})
delete_endpoint fault id db =
    commit db "DeleteEndpoint" (exec fault (ok (delete_endpoints (λ e. e.id == id) db))) tt

unfoldable pub create_delivery_job :
    Option Cause → Uuid → Time → Uuid → String → Db → Db × Result Error DeliveryJob
create_delivery_job fault id now request_id target_url db =
    let row : JobRow = record {
      id = id;
      request_id = request_id;
      target_url = target_url;
      status = pending;
      attempts = 0;
      last_attempt = none;
      next_attempt = now;
      created_at = now;
    } in
    commit db "CreateDeliveryJob" (exec fault (insert_job row db)) (scan_job row)

module _ (json : HeaderCodec) where
  -- The `headers` column is of type jsonb, whose text the codec reads back.
  unfoldable pub save_request : Option Cause → Request → Db → Db × Result Error (Unit {0})
  save_request fault r db = elim (json.marshal r.headers) [
    | none ↦ (db, err (wrapped "SaveRequest marshal" codec))
    | some headers ↦
        commit db "SaveRequest" (exec fault (insert_request (request_row json r headers) db)) tt
  ]

  -- One row, its headers decoded.
  unfoldable pub scan_request : RequestRow → Result Cause Request
  scan_request row = decoded (json.unmarshal row.headers) >>= λ headers. ok (record {
    id = row.id;
    endpoint_id = row.endpoint_id;
    method = row.method;
    headers = headers;
    body = row.body;
    source_ip = row.source_ip;
    received_at = row.received_at;
  })

  unfoldable pub scan_requests : List RequestRow → Result Cause (List Request)
  unfolding scan_request
  scan_requests [] = ok []
  scan_requests (row ∷ rows) = scan_request row >>= λ r. scan_requests rows >>= λ rs. ok (r ∷ rs)

  unfoldable pub get_request : Option Cause → Uuid → Db → Result Error Request
  unfolding scan_request
  get_request fault id db =
      wrap "GetRequest" (exec fault (one_row (select (λ r. r.id == id) db.requests))) >>= λ row.
      wrap "GetRequest unmarshal" (scan_request row)

  unfoldable pub get_requests_by_endpoint : Option Cause → Uuid → Db → Result Error (List Request)
  unfolding scan_requests
  get_requests_by_endpoint fault endpoint_id db =
      wrap "GetRequestsByEndpoint" (
        exec fault (
          ok (
            reverse (
              sort_by (λ r. r.received_at)
                (select (λ r. r.endpoint_id == endpoint_id) db.requests)))))
      >>= λ rows. wrap "GetRequestsByEndpoint unmarshal" (scan_requests rows)

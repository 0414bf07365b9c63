-- ===== src/Tests/RoundTrip.antt =====
-- Saving and reading a request, over the SQLite engine.
use vahak.Prelude.{◌≡◌, refl, none, arith}
use vahak.Store.Error.{ok}
use vahak.Store.Sqlite.{save_request, get_request}
use vahak.Store.Sqlite.RoundTrip.{get_request-save_request}
use vahak.Tests.Fixtures.{empty_json, sample_db, captured}

get_request-save_request_example :
    let db = (save_request empty_json none captured sample_db).0 in
    (get_request empty_json none captured.id db ≡ ok captured)
    × (get_request empty_json none 10 db ≡ get_request empty_json none 10 sample_db)
unfolding save_request vahak.Store.Db.insert_request vahak.Prelude.any
get_request-save_request_example =
    get_request-save_request empty_json none none captured sample_db 10 refl refl (omega arith)

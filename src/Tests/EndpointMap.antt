-- ===== src/Tests/EndpointMap.antt =====
-- Edits of endpoints, over the SQLite engine.
use vahak.Prelude.{◌≡◌, List, [], ◌∷◌, none, some}
use vahak.Store.Error.{driver}
use vahak.Store.Sqlite.{get_endpoint}
use vahak.Store.Sqlite.History.{empty_db}
use vahak.Store.Sqlite.EndpointMap.{
  Edit, creates, updates, deletes, edit_all, edit_map_all, answer, endpoints_refine_map,
}

-- The second creation takes an identifier that is in use, and the driver refuses the deletion.
abbrev edits : List Edit
edits =
    creates none 1 5 "shop" "http://shop" ""
    ∷ creates none 1 6 "copy" "http://copy" ""
    ∷ updates none none 1 "store" "http://store" ""
    ∷ deletes (some driver) 1
    ∷ []

endpoints_refine_map_example :
    get_endpoint none 1 (edit_all edits empty_db) ≡ answer (edit_map_all edits (λ _. none) 1)
endpoints_refine_map_example = endpoints_refine_map edits 1

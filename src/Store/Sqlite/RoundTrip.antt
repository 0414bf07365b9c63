-- ===== src/Store/Sqlite/RoundTrip.antt =====
-- What SaveRequest writes, GetRequest reads (internal/store/sqlite.go).
use vahak.Prelude.{
  true, ◌≡◌, ◌≢◌, refl, sym, ap, ◌∙◌, inl, inr, String, false, Option, none, some, List, [], ◌∷◌,
  ◌++◌, ==_iff, ◌==◌, arith, select, any, has_key, Option-cases,
}
use vahak.Models.{Uuid, Request}
use vahak.Store.Error.{codec, wrapped, Cause, Result, ok, err, exec, exec-ok, commit}
use vahak.Store.Codec.{HeaderCodec}
use vahak.Store.Db.{Db, RequestRow, request_key, insert_request}
use vahak.Store.Db.Integrity.{insert_request-ok}
use vahak.Store.Sqlite.{request_row, save_request, get_request}

select-fresh :
    (rows : List RequestRow) (row : RequestRow)
    → has_key request_key row.id rows ≡ false
    → select (λ r. r.id == row.id) (rows ++ row ∷ []) ≡ row ∷ []
unfolding select any
select-fresh [] row h = ground (arith, ==_iff row.id row.id)
select-fresh (x ∷ rows) row h = ground (arith, select-fresh rows row)

select-other :
    (k : Uuid) (rows : List RequestRow) (row : RequestRow)
    → k ≢ row.id
    → select (λ r. r.id == k) (rows ++ row ∷ []) ≡ select (λ r. r.id == k) rows
unfolding select
select-other k [] row d = ground (arith, ==_iff row.id k)
select-other k (x ∷ rows) row d = ground (arith, select-other k rows row d)

commit-ok {ℓ} :
    {D : Type ℓ} (db : D) (op : String) (r : Result Cause D)
    → (commit {A = Unit {0}} db op r tt).1 ≡ ok tt
    → (db' : D) × (r ≡ ok db') × ((commit {A = Unit {0}} db op r tt).0 ≡ db')
commit-ok db op (ok db') h = (db', refl, refl)
commit-ok db op (err c) h = absurd (cc h)

module _ (json : HeaderCodec) where
  saved-row :
      (fault : Option Cause) (r : Request) (db : Db)
      → (save_request json fault r db).1 ≡ ok tt
      → (headers : String) × (json.marshal r.headers ≡ some headers)
        × (has_key request_key r.id db.requests ≡ false)
        × ((save_request json fault r db).0
            ≡ record db { requests = db.requests ++ request_row json r headers ∷ [] })
  unfolding save_request
  saved-row fault r db h = elim (Option-cases (json.marshal r.headers)) [
    | inl e ↦
        let refused : (save_request json fault r db).1 ≡ err (wrapped "SaveRequest marshal" codec) =
          rw (e, save_request) refl in
        absurd (cc (h, refused))
    | inr (headers, e) ↦
        let result = exec fault (insert_request (request_row json r headers) db) in
        let same : save_request json fault r db ≡ commit db "SaveRequest" result tt =
          rw (e, save_request) refl in
        let (db', inserted, left) =
          commit-ok db "SaveRequest" result (sym (ap (λ x. x.1) same) ∙ h) in
        let (fresh, parent, eq) =
          insert_request-ok (request_row json r headers) db (exec-ok fault _ inserted) in
        (headers, e, fresh, ap (λ x. x.0) same ∙ left ∙ eq)
  ]

  -- If SaveRequest accepts a request whose headers are valid UTF-8, GetRequest returns it from the
  -- tables that it leaves, its headers included; and for any other identifier GetRequest returns from
  -- these tables what it returned before.
  pub get_request-save_request :
      (fault read_fault : Option Cause) (r : Request) (db : Db) (k : Uuid)
      → json.is_utf8 r.headers ≡ true
      → (save_request json fault r db).1 ≡ ok tt
      → k ≢ r.id
      → let db' = (save_request json fault r db).0 in
        (get_request json none r.id db' ≡ ok r)
        × (get_request json read_fault k db' ≡ get_request json read_fault k db)
  unfolding get_request
  get_request-save_request fault read_fault r db k valid h other =
      let (headers, written, fresh, eq) = saved-row fault r db h in
      let row = request_row json r headers in
      (
        rw (eq, get_request)
            (rw (select-fresh db.requests row fresh)
              (rw (json.round_trip r.headers headers valid written) refl)),
        rw eq (rw (select-other k db.requests row other) refl),
      )

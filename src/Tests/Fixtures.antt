-- ===== src/Tests/Fixtures.antt =====
-- Data for the tests: one endpoint, two requests, and a job for each.
use vahak.Prelude.{Bool, ℕ, ◌≡◌, refl, String, true, Option, none, some, [], ◌∷◌}
use vahak.Models.{Header, Endpoint, Request, DeliveryJob, pending}
use vahak.Circuit.{new_circuit_manager}
use vahak.Store.Codec.{HeaderCodec}
use vahak.Store.Db.{Db, RequestRow, JobRow}
use vahak.Store.Sqlite.Jobs.{scan_job}
use vahak.Store.Sqlite.Flush.{IngestItem}
use vahak.Store.Sqlite.Implements.{sqlite_storage}
use vahak.Forwarder.Deliver.{Http}
use vahak.Forwarder.{World, Forwarder}

abbrev pub write : Header → Option String
write [] = some "{}"
write (field ∷ fields) = none

abbrev pub all_valid : Header → Bool
all_valid h = true

pub write_round_trip :
    (h : Header) (text : String) → all_valid h ≡ true → write h ≡ some text → some [] ≡ some h
write_round_trip [] text v e = refl
write_round_trip (field ∷ fields) text v e = cc

-- A codec that writes the empty header only.
abbrev pub empty_json : HeaderCodec
empty_json = record {
  marshal = write;
  unmarshal = λ _. some [];
  is_utf8 = all_valid;
  round_trip = write_round_trip;
}

abbrev pub endpoint : Endpoint
endpoint = record {
  id = 1;
  name = "orders";
  target_url = "http://shop";
  transformer_script = "";
  created_at = 5;
}

abbrev pub row_at : ℕ → ℕ → RequestRow
row_at id received_at = record {
  id = id;
  endpoint_id = 1;
  method = "POST";
  headers = "{}";
  body = "hello";
  source_ip = "10.0.0.1";
  received_at = received_at;
}

abbrev pub job_at_time : ℕ → ℕ → ℕ → JobRow
job_at_time id request_id next_attempt = record {
  id = id;
  request_id = request_id;
  target_url = "http://shop";
  status = pending;
  attempts = 2;
  last_attempt = none;
  next_attempt = next_attempt;
  created_at = 6;
}

abbrev pub early_job : JobRow
early_job = job_at_time 20 10 7

abbrev pub late_job : JobRow
late_job = job_at_time 21 11 900

abbrev pub sample_db : Db
sample_db = record {
  endpoints = endpoint ∷ [];
  requests = row_at 10 6 ∷ row_at 11 8 ∷ [];
  jobs = early_job ∷ late_job ∷ [];
}

abbrev pub captured : Request
captured = record {
  id = 12;
  endpoint_id = 1;
  method = "POST";
  headers = [];
  body = "hello";
  source_ip = "10.0.0.2";
  received_at = 40;
}

abbrev pub captured_job : DeliveryJob
captured_job = scan_job (job_at_time 22 12 55)

abbrev pub captured_item : IngestItem
captured_item = record { request = captured; job = some captured_job; result = some 3 }

abbrev pub http_with : Option ℕ → Http
http_with answer = record {
  canonical = λ key. key;
  accepts = λ _ _. true;
  send = λ _. answer;
  uuid_text = λ _. "event";
  timestamp = "now";
}

abbrev pub world_with : Option ℕ → World
world_with answer = record {
  request_fault = none;
  endpoint_fault = none;
  save_fault = none;
  mark_fault = none;
  now = 100;
  finished = 110;
  transform = λ _ _. none;
  http = http_with answer;
  delivery_id = "delivery";
  jitter = λ base. base;
}

abbrev pub idle_forwarder : Forwarder (sqlite_storage empty_json)
idle_forwarder = record {
  store = sample_db;
  circuits = new_circuit_manager;
  processing = [];
  delivered_ch = [];
  sent = [];
}

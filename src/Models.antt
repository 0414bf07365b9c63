-- ===== src/Models.antt =====
-- internal/models/models.go. A UUID is a number, of which only equality is used; an instant is
-- the number of nanoseconds since a fixed epoch, and a duration a number of nanoseconds.
use vahak.Prelude.{ℕ, ◌*◌, String, Bool, true, false, Option, List}

abbrev pub Uuid : Type 0
Uuid = ℕ

abbrev pub Time : Type 0
Time = ℕ

abbrev pub second : ℕ
second = 1000000000

abbrev pub minute : ℕ
minute = 60 * second

-- http.Header.
abbrev pub Header : Type 0
Header = List (String × List String)

-- The `JobStatus` texts; `other` is any other text that a caller passes to the store.
pub data Status : Type 0 where
  pending delivered failed dead : Status
  other : String → Status

pub record Endpoint : Type 0 where
  pub id : Uuid
  pub name : String
  pub target_url : String
  pub transformer_script : String
  pub created_at : Time

pub record Request : Type 0 where
  pub id : Uuid
  pub endpoint_id : Uuid
  pub method : String
  pub headers : Header
  pub body : String
  pub source_ip : String
  pub received_at : Time

-- The fields from `in_mem_method` on are never stored. `none` is the nil header map.
pub record DeliveryJob : Type 0 where
  pub id : Uuid
  pub request_id : Uuid
  pub target_url : String
  pub status : Status
  pub attempts : ℕ
  pub last_attempt : Option Time
  pub next_attempt : Time
  pub created_at : Time
  pub in_mem_method : String
  pub in_mem_headers : Option Header
  pub in_mem_body : String
  pub in_mem_transformer_script : String
  pub persisted : Bool

abbrev pub is_pending : Status → Bool
is_pending pending = true
is_pending _ = false

-- `status IN ('delivered', 'failed', 'dead')`.
abbrev pub is_terminal : Status → Bool
is_terminal delivered = true
is_terminal failed = true
is_terminal dead = true
is_terminal _ = false

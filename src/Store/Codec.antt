-- ===== src/Store/Codec.antt =====
-- encoding/json on http.Header, which the repository only calls. `none` is an error.
use vahak.Prelude.{Bool, true, String, Option, some, ◌≡◌}
use vahak.Models.{Header}

pub record HeaderCodec : Type 0 where
  pub marshal : Header → Option String
  pub unmarshal : String → Option Header
  -- Marshal replaces what is not UTF-8. Unmarshalling what it wrote for a header of valid UTF-8 gives
  -- the header back.
  pub is_utf8 : Header → Bool
  pub round_trip :
      (h : Header) (text : String)
      → is_utf8 h ≡ true
      → marshal h ≡ some text
      → unmarshal text ≡ some h

-- ===== src/Tests/Dialer.antt =====
-- The dialer's check at concrete addresses.
use vahak.Prelude.{◌≡◌, refl, false, not, ◌||◌, List, [], ◌∷◌, some, any, arith, if◌then◌else◌}
use vahak.Store.Error.{ok, err}
use vahak.Forwarder.Dialer.{Ip, v4, v6, dial_check, blocked}
use vahak.Forwarder.Dialer.Ranges.{is_reserved, dial_check_ranges, bytes, groups}

-- 93.184.216.34, and 10.0.0.1 as a mapped address.
abbrev addresses : List Ip
addresses = v4 93 184 216 34 ∷ v6 0 0 0 0 0 0xffff 0x0a00 1 ∷ []

dial_run : dial_check false (some addresses) ≡ err blocked
unfolding dial_check
dial_run = refl

dial_check_ranges_example :
    dial_check false (some addresses)
    ≡ (if false || not (any is_reserved addresses) then ok tt else err blocked)
dial_check_ranges_example = dial_check_ranges false addresses (
  bytes (omega arith) (omega arith) (omega arith) (omega arith),
  (groups (omega arith) (omega arith) (omega arith), tt),
)

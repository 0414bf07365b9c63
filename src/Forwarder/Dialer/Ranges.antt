-- ===== src/Forwarder/Dialer/Ranges.antt =====
-- Which addresses the dialer refuses (internal/forwarder/forwarder.go).
use Prim.Native.Nat.{◌/◌, ◌%◌}
use vahak.Prelude.{
  ap, Bool-cases, sym, ℕ, ◌+◌, ◌*◌, ◌<◌, ◌≡◌, refl, ◌∙◌, inl, inr, Bool-cases, Bool, false, not,
  ◌&&◌, ◌||◌, ◌==◌, leb, ltb, some, List, [], ◌∷◌, arith, any, All, if◌then◌else◌,
}
use vahak.Store.Error.{ok, err}
use vahak.Forwarder.Dialer.{
  Ip, v4, v6, is_mapped, to4, is_loopback, is_unspecified, is_blocked, check_ips, dial_check,
  blocked,
}

abbrev pub is_between : ℕ → ℕ → ℕ → Bool
is_between low high n = leb low n && ltb n high

-- The ranges of 32-bit numbers: 0.0.0.0, 10/8, 127/8, 169.254/16, 172.16/12, 192.168/16, 224.0.0/24.
unfoldable pub is_reserved4 : ℕ → Bool
is_reserved4 n =
    n == 0
    || (is_between 0x0a00_0000 0x0b00_0000 n
        || (is_between 0x7f00_0000 0x8000_0000 n
            || (is_between 0xa9fe_0000 0xa9ff_0000 n
                || (is_between 0xac10_0000 0xac20_0000 n
                    || (is_between 0xc0a8_0000 0xc0a9_0000 n
                        || is_between 0xe000_0000 0xe000_0100 n)))))

module _ (a b c d : ℕ) (ha : a < 256) (hb : b < 256) (hc : c < 256) (hd : d < 256) where
  abbrev number : ℕ
  number = ((a * 256 + b) * 256 + c) * 256 + d

  zero_range : (a == 0 && (b == 0 && (c == 0 && d == 0))) ≡ (number == 0)
  zero_range = ground arith

  first_range : (a == 10) ≡ is_between 0x0a00_0000 0x0b00_0000 number
  first_range = ground arith

  loopback_range : (a == 127) ≡ is_between 0x7f00_0000 0x8000_0000 number
  loopback_range = ground arith

  link_range : (a == 169 && b == 254) ≡ is_between 0xa9fe_0000 0xa9ff_0000 number
  link_range = ground arith

  second_range : (a == 172 && b / 16 == 1) ≡ is_between 0xac10_0000 0xac20_0000 number
  second_range = ground arith

  third_range : (a == 192 && b == 168) ≡ is_between 0xc0a8_0000 0xc0a9_0000 number
  third_range = ground arith

  multicast_range : (a == 224 && (b == 0 && c == 0)) ≡ is_between 0xe000_0000 0xe000_0100 number
  multicast_range = ground arith

tests_in_order :
    (p q r s t u v : Bool)
    → (p || (q || r) || (s || (t || (u || (v || (false || (u || (false || false))))))))
      ≡ (t || (p || (s || (u || (q || (r || v))))))
tests_in_order p q r s t u v = ground arith

blocked-v4 :
    (a b c d : ℕ)
    → a < 256
    → b < 256
    → c < 256
    → d < 256
    → is_blocked (v4 a b c d) ≡ is_reserved4 (((a * 256 + b) * 256 + c) * 256 + d)
unfolding is_reserved4 is_blocked
blocked-v4 a b c d ha hb hc hd =
    tests_in_order (a == 10) (a == 172 && b / 16 == 1) (a == 192 && b == 168) (a == 127)
      (a == 0 && (b == 0 && (c == 0 && d == 0))) (a == 169 && b == 254)
      (a == 224 && (b == 0 && c == 0))
    ∙ rw
        (
          zero_range a b c d ha hb hc hd,
          first_range a b c d ha hb hc hd,
          loopback_range a b c d ha hb hc hd,
          link_range a b c d ha hb hc hd,
          second_range a b c d ha hb hc hd,
          third_range a b c d ha hb hc hd,
          multicast_range a b c d ha hb hc hd,
        )
        refl

-- The groups fc00 to fdff, fe80 to febf, and the multicast scopes 1 and 2; and the addresses :: and
-- ::1.
unfoldable pub is_reserved6 : ℕ → ℕ → ℕ → ℕ → ℕ → ℕ → ℕ → ℕ → Bool
is_reserved6 a b c d e f g h =
    is_between 0xfc00 0xfe00 a
    || (is_between 0xfe80 0xfec0 a
        || (leb 0xff00 a && (a % 16 == 1 || a % 16 == 2)
            || ltb (a + b + c + d + e + f + g) 1 && ltb h 2))

module _ (a : ℕ) (ha : a < 65536) where
  unique_range : (a / 256 / 2 == 126) ≡ is_between 0xfc00 0xfe00 a
  unique_range = ground arith

  unique_net_range : (a / 512 == 126) ≡ is_between 0xfc00 0xfe00 a
  unique_net_range = ground arith

  unicast_range : (a / 256 == 0xfe && a % 256 / 64 == 2) ≡ is_between 0xfe80 0xfec0 a
  unicast_range = ground arith

  link_net_range : (a / 64 == 1018) ≡ is_between 0xfe80 0xfec0 a
  link_net_range = ground arith

  scope_range :
      (n : ℕ) → n < 16 → (a / 256 == 0xff && a % 256 % 16 == n) ≡ (leb 0xff00 a && a % 16 == n)
  scope_range n hn = ground arith

low_range :
    (a b c d e f g h : ℕ)
    → ((a == 0 && (b == 0 && (c == 0 && (d == 0 && (e == 0 && (f == 0 && (g == 0 && h == 1)))))))
        || (a == 0
            && (b == 0 && (c == 0 && (d == 0 && (e == 0 && (f == 0 && (g == 0 && h == 0))))))))
      ≡ (ltb (a + b + c + d + e + f + g) 1 && ltb h 2)
low_range a b c d e f g h = ground arith

tests_in_order6 :
    (u l z k m n r : Bool)
    → (u || (l || (z || (k || (r && m || (r && n || (false || (k || u))))))))
      ≡ (u || (k || (r && (n || m) || (l || z))))
tests_in_order6 u l z k m n r = ground arith

blocked-v6 :
    (a b c d e f g h : ℕ)
    → a < 65536
    → is_blocked (v6 a b c d e f g h) ≡ is_reserved6 a b c d e f g h
unfolding is_reserved6 is_blocked
blocked-v6 a b c d e f g h ha =
    rw
      (
        sym (low_range a b c d e f g h),
        unique_range a ha,
        unique_net_range a ha,
        unicast_range a ha,
        link_net_range a ha,
        scope_range a ha 2 (omega arith),
        scope_range a ha 1 (omega arith),
      )
      (tests_in_order6 (is_between 0xfc00 0xfe00 a) (is_loopback (v6 a b c d e f g h))
        (is_unspecified (v6 a b c d e f g h)) (is_between 0xfe80 0xfec0 a) (a % 16 == 2)
        (a % 16 == 1) (leb 0xff00 a))

-- The address as it is read by its number; a mapped one is read by its last 32 bits.
unfoldable pub is_reserved : Ip → Bool
unfolding is_reserved4 is_reserved6
is_reserved (v4 a b c d) = is_reserved4 (((a * 256 + b) * 256 + c) * 256 + d)
is_reserved (v6 a b c d e f g h) =
    if is_mapped a b c d e f then is_reserved4 (g * 65536 + h) else is_reserved6 a b c d e f g h

-- Bytes are less than 256, and groups less than 65536.
pub data IsAddress : Ip → Type 0 where
  bytes : {a b c d : ℕ} → a < 256 → b < 256 → c < 256 → d < 256 → IsAddress (v4 a b c d)
  groups :
      {a b c d e f g h : ℕ} → a < 65536 → g < 65536 → h < 65536 → IsAddress (v6 a b c d e f g h)

joined : (g h : ℕ) → ((g / 256 * 256 + g % 256) * 256 + h / 256) * 256 + h % 256 ≡ g * 65536 + h
joined g h = omega arith

blocked-to4 : (ip : Ip) → IsAddress ip → is_blocked (to4 ip) ≡ is_reserved ip
unfolding to4 is_reserved
blocked-to4 (v4 a b c d) (bytes ha hb hc hd) = blocked-v4 a b c d ha hb hc hd
blocked-to4 (v6 a b c d e f g h) (groups ha hg hh) = elim (Bool-cases (is_mapped a b c d e f)) [
  | inl mapped ↦ rw mapped (
      blocked-v4 (g / 256) (g % 256) (h / 256) (h % 256) (omega arith) (omega arith) (omega arith)
        (omega arith)
      ∙ ap is_reserved4 (joined g h))
  | inr plain ↦ rw plain (blocked-v6 a b c d e f g h ha)
]

in_order :
    (allowed p q : Bool)
    → (if not allowed && p then false else allowed || not q) ≡ (allowed || not (p || q))
in_order allowed p q = ground arith

check_ips-any :
    (allow_local : Bool) (ips : List Ip)
    → All IsAddress ips
    → check_ips allow_local ips ≡ (allow_local || not (any is_reserved ips))
unfolding check_ips any
check_ips-any allow_local [] h = ground arith
check_ips-any allow_local (ip ∷ ips) h =
    rw (blocked-to4 ip h.0, check_ips-any allow_local ips h.1)
      (in_order allow_local (is_reserved ip) (any is_reserved ips))

-- The dialer calls out exactly if local targets are allowed or no address that the host resolves to
-- is reserved: 0.0.0.0, one of 10.0.0.0/8, 127.0.0.0/8, 169.254.0.0/16, 172.16.0.0/12,
-- 192.168.0.0/16 and 224.0.0.0/24, these also as IPv4-mapped IPv6 addresses, ::, ::1, one from fc00
-- to fdff or from fe80 to febf in the first group, or a multicast address of scope 1 or 2. The
-- masks of the methods of package net are compared with ranges of numbers.
pub dial_check_ranges :
    (allow_local : Bool) (ips : List Ip)
    → All IsAddress ips
    → dial_check allow_local (some ips)
      ≡ (if allow_local || not (any is_reserved ips) then ok tt else err blocked)
unfolding dial_check
dial_check_ranges allow_local ips h = rw (check_ips-any allow_local ips h) refl

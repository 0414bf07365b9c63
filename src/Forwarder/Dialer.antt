-- ===== src/Forwarder/Dialer.antt =====
-- internal/forwarder/forwarder.go: the check of New's DialContext, with what it uses of package net.
pub mod Ranges
use Prim.Native.Nat.{◌/◌, ◌%◌}
use vahak.Prelude.{
  ℕ, Bool, true, false, not, ◌&&◌, ◌||◌, ◌==◌, Option, none, some, List, [], ◌∷◌, if◌then◌else◌,
}
use vahak.Store.Error.{Result, ok, err}

-- The four bytes of an address, or the eight groups of sixteen bits.
pub data Ip : Type 0 where
  v4 : ℕ → ℕ → ℕ → ℕ → Ip
  v6 : ℕ → ℕ → ℕ → ℕ → ℕ → ℕ → ℕ → ℕ → Ip

-- ::ffff:0:0/96.
abbrev pub is_mapped : ℕ → ℕ → ℕ → ℕ → ℕ → ℕ → Bool
is_mapped a b c d e f = a == 0 && (b == 0 && (c == 0 && (d == 0 && (e == 0 && f == 0xffff))))

-- To4, and the address itself if that gives nil.
unfoldable pub to4 : Ip → Ip
to4 (v4 a b c d) = v4 a b c d
to4 (v6 a b c d e f g h) =
    if is_mapped a b c d e f then v4 (g / 256) (g % 256) (h / 256) (h % 256) else v6 a b c d e f g h

-- The masks of the methods are quotients and remainders here; the first byte of a group is `/ 256`.
unfoldable pub is_private : Ip → Bool
is_private (v4 a b c d) = a == 10 || (a == 172 && b / 16 == 1 || a == 192 && b == 168)
is_private (v6 a b c d e f g h) = a / 256 / 2 == 126

unfoldable pub is_loopback : Ip → Bool
is_loopback (v4 a b c d) = a == 127
is_loopback (v6 a b c d e f g h) =
    a == 0 && (b == 0 && (c == 0 && (d == 0 && (e == 0 && (f == 0 && (g == 0 && h == 1))))))

unfoldable pub is_unspecified : Ip → Bool
is_unspecified (v4 a b c d) = a == 0 && (b == 0 && (c == 0 && d == 0))
is_unspecified (v6 a b c d e f g h) =
    a == 0 && (b == 0 && (c == 0 && (d == 0 && (e == 0 && (f == 0 && (g == 0 && h == 0))))))

unfoldable pub is_link_local_unicast : Ip → Bool
is_link_local_unicast (v4 a b c d) = a == 169 && b == 254
is_link_local_unicast (v6 a b c d e f g h) = a / 256 == 0xfe && a % 256 / 64 == 2

unfoldable pub is_link_local_multicast : Ip → Bool
is_link_local_multicast (v4 a b c d) = a == 224 && (b == 0 && c == 0)
is_link_local_multicast (v6 a b c d e f g h) = a / 256 == 0xff && a % 256 % 16 == 2

unfoldable pub is_interface_local_multicast : Ip → Bool
is_interface_local_multicast (v4 a b c d) = false
is_interface_local_multicast (v6 a b c d e f g h) = a / 256 == 0xff && a % 256 % 16 == 1

-- The networks 169.254.0.0/16, fe80::/10 and fc00::/7.
unfoldable pub in_metadata_net : Ip → Bool
in_metadata_net (v4 a b c d) = a == 169 && b == 254
in_metadata_net (v6 a b c d e f g h) = false

unfoldable pub in_link_local_net : Ip → Bool
in_link_local_net (v4 a b c d) = false
in_link_local_net (v6 a b c d e f g h) = a / 64 == 1018

unfoldable pub in_unique_local_net : Ip → Bool
in_unique_local_net (v4 a b c d) = false
in_unique_local_net (v6 a b c d e f g h) = a / 512 == 126

-- The condition on one address.
unfoldable pub is_blocked : Ip → Bool
unfolding is_private is_loopback is_unspecified is_link_local_unicast is_link_local_multicast
    is_interface_local_multicast in_metadata_net in_link_local_net in_unique_local_net
is_blocked ip =
    is_private ip
    || (is_loopback ip
        || (is_unspecified ip
            || (is_link_local_unicast ip
                || (is_link_local_multicast ip
                    || (is_interface_local_multicast ip
                        || (in_metadata_net ip
                            || (in_link_local_net ip || in_unique_local_net ip)))))))

pub data DialError : Type 0 where
  unresolved blocked : DialError

-- The loop over the addresses: whether the dialer is called after it.
unfoldable pub check_ips : Bool → List Ip → Bool
unfolding is_blocked to4
check_ips allow_local [] = true
check_ips allow_local (ip ∷ ips) =
    let rest = check_ips allow_local ips in
    if not allow_local && is_blocked (to4 ip) then false else rest

-- Up to the call of the dialer; none is a failure of SplitHostPort or of the resolver.
unfoldable pub dial_check : Bool → Option (List Ip) → Result DialError (Unit {0})
unfolding check_ips
dial_check allow_local none = err unresolved
dial_check allow_local (some ips) = if check_ips allow_local ips then ok tt else err blocked

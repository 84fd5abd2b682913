-- ===== src/ClientIp.antt =====
-- clientip.py. An address is a number, with Python's `ipaddress.ip_address`, which reads one from a
-- text, as an argument. Header names and values are bytes.
pub mod Header
pub mod Resolve
pub mod Walk
pub mod Padding
pub mod Warnings
mod Tests
use grelmicro.Prelude.{
  ℕ, zero, suc, ◌+◌, ◌-◌, ◌*◌, ◌/◌, ◌%◌, ◌^◌, Bool, true, false, not, ◌&&◌, ◌||◌, Option, none,
  some, List, [], ◌∷◌, ltb, leb, nat_beq, if◌then◌else◌,
}

-- `IPv4Address` and `IPv6Address`; an IPv6 address may have a zone id, which is a number here.
pub data IpAddress : Type 0 where
  v4 : ℕ → IpAddress
  v6 : ℕ → Option ℕ → IpAddress

-- `IPv4Network` and `IPv6Network`: the network address and the length of the prefix.
pub data IpNetwork : Type 0 where
  v4_network v6_network : ℕ → ℕ → IpNetwork

-- `ipv4_mapped is not None`, where the address then is `n % 2 ** 32`.
abbrev pub is_ipv4_mapped : ℕ → Bool
is_ipv4_mapped n = nat_beq (n / 2 ^ 32) 65535

abbrev pub canonical : IpAddress → IpAddress
canonical (v4 n) = v4 n
canonical (v6 n scope_id) = if is_ipv4_mapped n then v4 (n % 2 ^ 32) else v6 n none

abbrev pub ipv4_mapped_prefix : ℕ
ipv4_mapped_prefix = 96

-- `_canonical_network`; the network that it builds has the host bits of its address cleared.
abbrev pub canonical_network : IpNetwork → IpNetwork
canonical_network (v4_network n prefixlen) = v4_network n prefixlen
canonical_network (v6_network n prefixlen) =
    if leb ipv4_mapped_prefix prefixlen && is_ipv4_mapped n
    then (let shift = 2 ^ (32 - (prefixlen - ipv4_mapped_prefix)) in
        v4_network (n % 2 ^ 32 / shift * shift) (prefixlen - ipv4_mapped_prefix))
    else v6_network n prefixlen

-- `address in network`
abbrev pub in_network : IpAddress → IpNetwork → Bool
in_network (v4 n) (v4_network m prefixlen) =
    nat_beq (n / 2 ^ (32 - prefixlen)) (m / 2 ^ (32 - prefixlen))
in_network (v6 n scope_id) (v6_network m prefixlen) =
    nat_beq (n / 2 ^ (128 - prefixlen)) (m / 2 ^ (128 - prefixlen))
in_network _ _ = false

-- An entry of the trusted set that is an address or a network; one that is a text is read by
-- `ipaddress.ip_network` first.
pub data TrustedEntry : Type 0 where
  network : IpNetwork → TrustedEntry
  address : IpAddress → TrustedEntry

-- `ipaddress.ip_network(address)`
abbrev pub host_network : IpAddress → IpNetwork
host_network (v4 n) = v4_network n 32
host_network (v6 n scope_id) = v6_network n 128

-- `_compile_entry`
abbrev pub compile_entry : TrustedEntry → IpNetwork
compile_entry (network n) = canonical_network n
compile_entry (address a) = canonical_network (host_network (canonical a))

-- The warned peers are none once the warnings are over.
pub record TrustedProxies : Type 0 where
  pub networks : List IpNetwork
  pub max_hops : Option ℕ
  pub max_entries : ℕ
  pub max_header_bytes : ℕ

unfoldable pub any_network : IpAddress → List IpNetwork → Bool
any_network a [] = false
any_network a (n ∷ ns) = in_network a n || any_network a ns

-- `address in trusted`
unfoldable pub is_trusted : TrustedProxies → IpAddress → Bool
unfolding any_network
is_trusted trusted a = any_network (canonical a) trusted.networks

-- ===== src/Addr.antt =====
-- The addresses of src/zip_addr.c on a little-endian machine: a word in network order is a number with
-- its bytes swapped. inet_pton and inet_ntop of the C library are parameters. `none` as an outcome means
-- that the process stops at a failed ASSERT, or that the behaviour is undefined.
pub mod Network
pub mod Prefix
pub mod Init
use Prim.Native.Nat.{bit_and}
use logstats.Base.{
  ℕ, zero, suc, ◌+◌, ◌-◌, ◌*◌, ◌/◌, ◌%◌, ◌^◌, ◌<◌, ◌≤◌, ◌≡◌, ℤ, pos, negsuc, Bool, true, false,
  ◌||◌, Option, none, some, List, [], ◌∷◌, ◌>>=◌, ltb, ◌==◌, if◌then◌else◌, length,
}
use logstats.NameTree.Tree.{Name}
use logstats.ViewStats.{bytes, same_name}

pub data AddrType : Type 0 where
  addr_ipv4 addr_ipv6 : AddrType

-- struct sockaddr_in and struct sockaddr_in6, as far as they are read: the port and the address in
-- network order. Behind the 16 bytes of an address stand those of the next field.
pub record SockaddrIn : Type 0 where
  pub sin_port : ℕ
  pub sin_addr : ℕ

pub record SockaddrIn6 : Type 0 where
  pub sin6_port : ℕ
  pub sin6_addr : ℕ → ℕ

-- Of the union, the member of the address's type is the one that is written and read.
pub record Addr : Type 0 where
  pub addr_v4 : SockaddrIn
  pub addr_v6 : SockaddrIn6
  pub mask : ℤ
  pub addr_type : AddrType

-- htons and ntohs, and htonl and ntohl.
abbrev pub ntohs : ℕ → ℕ
ntohs x = x % 256 * 256 + x / 256 % 256

abbrev pub ntohl : ℕ → ℕ
ntohl x = x % 256 * 16777216 + x / 256 % 256 * 65536 + x / 65536 % 256 * 256 + x / 16777216 % 256

-- The conversions of the C library: texts of at most 45 bytes that read back as what they were made of.
pub record Inet : Type 0 where
  pub pton4 : Name → Option ℕ
  pub pton6 : Name → Option (ℕ → ℕ)
  pub ntop4 : ℕ → Name
  pub ntop6 : (ℕ → ℕ) → Name
  pub pton4-ntop4 : (a : ℕ) → a < 2 ^ 32 → pton4 (ntop4 a) ≡ some a

-- `strchr(ip, ':') != NULL`
unfoldable pub has_colon : Name → Bool
has_colon [] = false
has_colon (c ∷ s) = let rest = has_colon s in if c == b':' then true else rest

module _ (inet : Inet) where
  -- What stands in `addr` before; the other member of the union is kept apart here.
  pub addr_init : Addr → Name → ℕ → Option Addr
  unfolding has_colon
  addr_init addr ip port =
      let v4 : Option Addr = do
        a ← inet.pton4 ip
        some (record addr {
          addr_v4 = record { sin_port = ntohs port; sin_addr = a };
          mask = pos 32;
          addr_type = addr_ipv4;
        })
      in let v6 : Option Addr = do
        a ← inet.pton6 ip
        some (record addr {
          addr_v6 = record { sin6_port = ntohs port; sin6_addr = a };
          mask = pos 128;
          addr_type = addr_ipv6;
        })
        in if has_colon ip then v6 else v4

  ip_of : AddrType → Addr → Name
  ip_of addr_ipv4 addr = inet.ntop4 addr.addr_v4.sin_addr
  ip_of addr_ipv6 addr = inet.ntop6 addr.addr_v6.sin6_addr

  pub addr_get_ip : Addr → Name
  unfolding ip_of
  addr_get_ip addr = ip_of addr.addr_type addr

  loopback_text : AddrType → Name → Bool
  loopback_text addr_ipv4 ip = same_name ip (bytes "127.0.0.1")
  loopback_text addr_ipv6 ip = same_name ip (bytes "0:0:0:0:0:0:0:1") || same_name ip (bytes "::1")

  pub addr_is_loopback : Addr → Bool
  unfolding loopback_text
  addr_is_loopback addr = loopback_text addr.addr_type (addr_get_ip addr)

  -- 1 for the same text, 0 for another: no order.
  pub addr_compare : Addr → Addr → ℕ
  addr_compare src dst = if same_name (addr_get_ip src) (addr_get_ip dst) then 1 else 0

-- sizeof(struct sockaddr_in) and sizeof(struct sockaddr_in6)
abbrev pub sockaddr_in_size : ℕ
sockaddr_in_size = 16

abbrev pub sockaddr_in6_size : ℕ
sockaddr_in6_size = 28

socklen_of : AddrType → ℕ
socklen_of addr_ipv4 = sockaddr_in_size
socklen_of addr_ipv6 = sockaddr_in6_size

pub addr_get_socklen : Addr → ℕ
unfolding socklen_of
addr_get_socklen addr = socklen_of addr.addr_type

-- `v4` and `v6` are what stands at `sock_addr`, read as either structure.
pub addr_from_sockaddr : Addr → SockaddrIn → SockaddrIn6 → ℕ → Option Addr
addr_from_sockaddr addr v4 v6 socklen =
    if socklen == sockaddr_in_size
    then some (record addr { addr_type = addr_ipv4; addr_v4 = v4; mask = pos 32 })
    else if socklen == sockaddr_in6_size
    then some (record addr { addr_type = addr_ipv6; addr_v6 = v6; mask = pos 128 })
    else none

port_of : AddrType → Addr → ℕ
port_of addr_ipv4 addr = ntohs addr.addr_v4.sin_port
port_of addr_ipv6 addr = ntohs addr.addr_v6.sin6_port

pub addr_get_port : Addr → ℕ
unfolding port_of
addr_get_port addr = port_of addr.addr_type addr

with_port : AddrType → Addr → ℕ → Addr
with_port addr_ipv4 addr port = record addr {
  addr_v4 = record (addr.addr_v4) { sin_port = ntohs port };
}
with_port addr_ipv6 addr port = record addr {
  addr_v6 = record (addr.addr_v6) { sin6_port = ntohs port };
}

pub addr_set_port : Addr → ℕ → Addr
unfolding with_port
addr_set_port addr port = with_port addr.addr_type addr port

pub addr_set_mask : Addr → ℤ → Addr
addr_set_mask addr mask = record addr { mask = mask }

pub addr_get_mask : Addr → ℤ
addr_get_mask addr = addr.mask

v4_of : AddrType → Addr → Option ℕ
v4_of addr_ipv4 addr = some addr.addr_v4.sin_addr
v4_of addr_ipv6 addr = none

pub addr_get_v4_addr : Addr → Option ℕ
unfolding v4_of
addr_get_v4_addr addr = v4_of addr.addr_type addr

-- The lesser mask, or 0 if that is negative.
pub least_mask : ℤ → ℤ → ℕ
least_mask (pos a) (pos b) = if ltb a b then a else b
least_mask (pos a) (negsuc b) = 0
least_mask (negsuc a) m = 0

-- `(uint32_t)(-(1 << (32 - mask)))` for a mask from 1 to 32; a shift by 32 is undefined.
pub same_network_v4 : ℕ → (ip1 ip2 : ℕ) → Option Bool
same_network_v4 mask ip1 ip2 =
    let n = if ltb 32 mask then 32 else mask in
    let m = 2 ^ 32 - 2 ^ (32 - n) in if n == 0 then none else some (bit_and ip1 m == bit_and ip2 m)

-- The loop over the bytes from `i` on, with so many rounds to go. A byte goes through ntohs and is cut
-- to 8 bits; the mask of the last round has 16 bits.
pub same_network_v6 : ℕ → ℕ → ℕ → (ip1 ip2 : ℕ → ℕ) → Option Bool
same_network_v6 zero mask i ip1 ip2 = none
same_network_v6 (suc fuel) mask i ip1 ip2 =
    let section1 = ntohs (ip1 i) % 256 in
    let section2 = ntohs (ip2 i) % 256 in
    let m = (2 ^ 16 - 2 ^ (8 - mask)) % 2 ^ 16 in
    let rest = same_network_v6 fuel (mask - 8) (i + 1) ip1 ip2 in
    if ltb mask 8
    then some (bit_and section1 m == bit_and section2 m)
    else if section1 == section2
    then rest
    else some false

network_of : AddrType → AddrType → ℕ → Addr → Addr → Option Bool
unfolding same_network_v4 same_network_v6
network_of addr_ipv4 addr_ipv4 mask addr1 addr2 =
    same_network_v4 mask (ntohl addr1.addr_v4.sin_addr) (ntohl addr2.addr_v4.sin_addr)
network_of addr_ipv6 addr_ipv6 mask addr1 addr2 =
    same_network_v6 17 (if ltb 128 mask then 128 else mask) 0 addr1.addr_v6.sin6_addr
      addr2.addr_v6.sin6_addr
network_of addr_ipv4 addr_ipv6 mask addr1 addr2 = some false
network_of addr_ipv6 addr_ipv4 mask addr1 addr2 = some false

pub addr_is_in_same_network : Addr → Addr → Option Bool
unfolding network_of least_mask
addr_is_in_same_network addr1 addr2 =
    network_of addr1.addr_type addr2.addr_type (least_mask addr1.mask addr2.mask) addr1 addr2

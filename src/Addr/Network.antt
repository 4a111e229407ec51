-- ===== src/Addr/Network.antt =====
-- addr_is_in_same_network of src/zip_addr.c.
use logstats.Base.{
  ℕ, zero, suc, ◌+◌, ◌-◌, ◌*◌, ◌%◌, ◌<◌, ◌≡◌, true, some, ltb, if◌then◌else◌, arith,
}
use logstats.Addr.{Addr, addr_ipv6, ntohs, same_network_v6, addr_is_in_same_network, least_mask}

-- On a little-endian machine ntohs moves a byte out of the 8 bits that are kept.
section_zero : (b : ℕ) → b < 256 → ntohs b % 256 ≡ 0
section_zero b h = omega arith

same_network_v6-true :
    (fuel mask i : ℕ) (ip1 ip2 : ℕ → ℕ)
    → mask < 8 * fuel
    → ((j : ℕ) → ip1 j < 256)
    → ((j : ℕ) → ip2 j < 256)
    → same_network_v6 fuel mask i ip1 ip2 ≡ some true
unfolding same_network_v6
same_network_v6-true zero mask i ip1 ip2 h b1 b2 = absurd (omega (arith, h))
same_network_v6-true (suc fuel) mask i ip1 ip2 h b1 b2 =
    rw (section_zero (ip1 i) (b1 i), section_zero (ip2 i) (b2 i))
      (ground (arith, same_network_v6-true fuel (mask - 8) (i + 1) ip1 ip2))

-- addr_is_in_same_network takes any two IPv6 addresses to be in one network, whatever their bytes and
-- masks are: on a little-endian machine it compares 16 times 0 with 0.
pub addr_is_in_same_network-v6 :
    (addr1 addr2 : Addr)
    → addr1.addr_type ≡ addr_ipv6
    → addr2.addr_type ≡ addr_ipv6
    → ((j : ℕ) → addr1.addr_v6.sin6_addr j < 256)
    → ((j : ℕ) → addr2.addr_v6.sin6_addr j < 256)
    → addr_is_in_same_network addr1 addr2 ≡ some true
unfolding addr_is_in_same_network
addr_is_in_same_network-v6 addr1 addr2 t1 t2 b1 b2 =
    let mask = least_mask addr1.mask addr2.mask in
    rw (t1, t2)
      (same_network_v6-true 17 (if ltb 128 mask then 128 else mask) 0 addr1.addr_v6.sin6_addr
        addr2.addr_v6.sin6_addr (ground arith) b1 b2)

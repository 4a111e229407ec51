-- ===== src/Addr/Init.antt =====
-- What addr_init of src/zip_addr.c stores, and what the other functions read back.
use logstats.Base.{ℕ, ◌^◌, ◌<◌, ◌≡◌, refl, false, pos, some, arith}
use logstats.Addr.{
  Addr, Inet, addr_ipv4, ntohs, has_colon, addr_init, addr_get_ip, addr_get_port, addr_get_mask,
  addr_get_v4_addr,
}

ntohs_twice : (x : ℕ) → x < 2 ^ 16 → ntohs (ntohs x) ≡ x
ntohs_twice x h = omega arith

-- The text of an IPv4 address, as inet_ntop writes it and without a colon, and a port of 16 bits are
-- what addr_get_ip and addr_get_port read back after addr_init; the mask is 32.
pub addr_init-reads :
    (inet : Inet) (addr : Addr) (a port : ℕ)
    → a < 2 ^ 32
    → port < 2 ^ 16
    → has_colon (inet.ntop4 a) ≡ false
    → (r : Addr) × (addr_init inet addr (inet.ntop4 a) port ≡ some r)
      × (addr_get_ip inet r ≡ inet.ntop4 a)
      × (addr_get_port r ≡ port)
      × (addr_get_mask r ≡ pos 32)
      × (addr_get_v4_addr r ≡ some a)
unfolding addr_init addr_get_ip addr_get_port addr_get_mask addr_get_v4_addr
addr_init-reads inet addr a port ha hp text = (
  record addr {
    addr_v4 = record { sin_port = ntohs port; sin_addr = a };
    mask = pos 32;
    addr_type = addr_ipv4;
  },
  rw (text, inet.pton4-ntop4 a ha) refl,
  refl,
  ntohs_twice port hp,
  refl,
  refl,
)

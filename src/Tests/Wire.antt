-- ===== src/Tests/Wire.antt =====
-- A stream of src/zip_socket.c that comes in two pieces and one that goes in two parts, and addresses of
-- src/zip_addr.c.
use logstats.Base.{
  ◌==◌, ◌+◌, ◌*◌, ◌^◌, ℕ, ◌%◌, ◌≡◌, refl, true, false, pos, none, some, [], ◌∷◌, ◌++◌, arith,
}
use logstats.NameTree.Tree.{Name}
use logstats.Socket.{
  bytes_read, interrupted, closed, written, write_interrupted, socket_read, socket_write,
}
use logstats.Socket.Stream.{
  Delivers, complete, piece, delay, Takes, all_taken, part, pause, socket_read-Delivers,
  socket_write-Takes,
}
use logstats.Addr.{
  Addr, Inet, addr_ipv6, has_colon, addr_init, addr_get_ip, addr_get_port, addr_get_mask,
  addr_get_v4_addr, addr_is_in_same_network, same_network_v4,
}
use logstats.Addr.Prefix.{same_network_v4_prefix}
use logstats.Addr.Init.{addr_init-reads}
use logstats.Addr.Network.{addr_is_in_same_network-v6}

two_pieces :
    Delivers (bytes_read (1 ∷ 2 ∷ []) ∷ interrupted ∷ bytes_read (3 ∷ []) ∷ []) (1 ∷ 2 ∷ 3 ∷ [])
two_pieces = piece 1 (2 ∷ []) (delay (piece 3 [] complete))

socket_read-Delivers_example :
    socket_read
      ((bytes_read (1 ∷ 2 ∷ []) ∷ interrupted ∷ bytes_read (3 ∷ []) ∷ []) ++ closed ∷ [])
      3
    ≡ some (pos 3, 1 ∷ 2 ∷ 3 ∷ [], closed ∷ [])
socket_read-Delivers_example =
    socket_read-Delivers (bytes_read (1 ∷ 2 ∷ []) ∷ interrupted ∷ bytes_read (3 ∷ []) ∷ [])
      (1 ∷ 2 ∷ 3 ∷ []) (closed ∷ []) two_pieces

two_parts : Takes (written 2 ∷ write_interrupted ∷ written 1 ∷ []) 3
two_parts = part 1 (pause (part 0 all_taken))

socket_write-Takes_example :
    socket_write ((written 2 ∷ write_interrupted ∷ written 1 ∷ []) ++ []) (1 ∷ 2 ∷ 3 ∷ [])
    ≡ some (pos 3, 1 ∷ 2 ∷ 3 ∷ [], [])
socket_write-Takes_example =
    socket_write-Takes (written 2 ∷ write_interrupted ∷ written 1 ∷ []) (1 ∷ 2 ∷ 3 ∷ []) []
      two_parts

-- A conversion that writes a number as a text of so many bytes.
abbrev ones : ℕ → Name
ones a = a ∷ []

abbrev inet : Inet
inet = record {
  pton4 = λ s. elim s [ [] ↦ none | c ∷ t ↦ some c ];
  pton6 = λ s. none;
  ntop4 = ones;
  ntop6 = λ a. [];
  pton4-ntop4 = λ a h. refl;
}

abbrev address : Addr
address = record {
  addr_v4 = record { sin_port = 0; sin_addr = 0 };
  addr_v6 = record { sin6_port = 0; sin6_addr = λ i. i % 256 };
  mask = pos 128;
  addr_type = addr_ipv6;
}

no_colon : has_colon (ones 127) ≡ false
unfolding has_colon
no_colon = refl

addr_init-reads_example :
    (r : Addr) × (addr_init inet address (ones 127) 8999 ≡ some r)
    × (addr_get_ip inet r ≡ ones 127)
    × (addr_get_port r ≡ 8999)
    × (addr_get_mask r ≡ pos 32)
    × (addr_get_v4_addr r ≡ some 127)
addr_init-reads_example = addr_init-reads inet address 127 8999 (omega arith) (omega arith) no_colon

addr_is_in_same_network-v6_example :
    addr_is_in_same_network address
      (record address { addr_v6 = record { sin6_port = 0; sin6_addr = λ i. 7 } })
    ≡ some true
addr_is_in_same_network-v6_example =
    addr_is_in_same_network-v6 address
      (record address { addr_v6 = record { sin6_port = 0; sin6_addr = λ i. 7 } }) refl refl
      (λ j. omega arith) (λ j. omega arith)

-- 192.168.1.5 and 192.168.1.9 with a mask of 24 bits.
same_network_v4_prefix_example :
    same_network_v4 24 (12625921 * 2 ^ 8 + 5) (12625921 * 2 ^ 8 + 9) ≡ some (12625921 == 12625921)
same_network_v4_prefix_example =
    same_network_v4_prefix 24 8 refl 12625921 12625921 5 9 (omega arith) (omega arith) (omega arith)
      (omega arith) (omega arith)

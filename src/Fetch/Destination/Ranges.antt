-- ===== src/Fetch/Destination/Ranges.antt =====
-- The blocked addresses as ranges of the whole number that an address writes.
use Prim.Native.Nat.{bit_and}
use localdb.Prelude.{
  ℕ, zero, suc, ◌+◌, ◌*◌, ◌<◌, ◌≡◌, refl, ◌∙◌, Bool, true, false, ◌&&◌, ◌||◌, some, ltb, leb, ◌==◌,
  arith,
}
use localdb.Fetch.Destination.{
  Ipv4Addr, Ipv6Addr, v4, v6, is_broadcast, is_blocked_v4, is_blocked_v6, to_ipv4_mapped,
  is_blocked_destination,
}

abbrev all_below : (ℕ → Bool) → ℕ → Bool
all_below p zero = true
all_below p (suc n) = p n && all_below p n

all_below-lem : (p : ℕ → Bool) (n x : ℕ) → all_below p n ≡ true → x < n → p x ≡ true
all_below-lem p zero x e h = ground arith
all_below-lem p (suc n) x e h = ground (arith, all_below-lem p n x)

abbrev pub IsOctets : Ipv4Addr → Type 0
IsOctets ip = (ip.o0 < 256) × (ip.o1 < 256) × (ip.o2 < 256) × (ip.o3 < 256)

-- `u32::from(ip)`.
abbrev pub number : Ipv4Addr → ℕ
number ip = ((ip.o0 * 256 + ip.o1) * 256 + ip.o2) * 256 + ip.o3

-- A block in CIDR notation: the four octets of its network, and how many addresses it holds.
abbrev pub in_block : ℕ → Ipv4Addr → ℕ → Bool
in_block size network n = leb (number network) n && ltb n (number network + size)

abbrev pub net : ℕ → ℕ → ℕ → Ipv4Addr
net a b c = record { o0 = a; o1 = b; o2 = c; o3 = 0 }

-- The source's own list: 127.0.0.0/8; 10.0.0.0/8, 172.16.0.0/12 and 192.168.0.0/16; 169.254.0.0/16;
-- 224.0.0.0/4; 255.255.255.255; 192.0.2.0/24, 198.51.100.0/24 and 203.0.113.0/24; 0.0.0.0/8;
-- 100.64.0.0/10; 198.18.0.0/15; 240.0.0.0/4.
abbrev pub in_blocked_range : ℕ → Bool
in_blocked_range n =
    in_block 0x1000000 (net 127 0 0) n
    || ((in_block 0x1000000 (net 10 0 0) n
          || (in_block 0x100000 (net 172 16 0) n || in_block 0x10000 (net 192 168 0) n))
        || (in_block 0x10000 (net 169 254 0) n
            || (in_block 0x10000000 (net 224 0 0) n
                || (in_block 1 (record { o0 = 255; o1 = 255; o2 = 255; o3 = 255 }) n
                    || ((in_block 0x100 (net 192 0 2) n
                          || (in_block 0x100 (net 198 51 100) n
                              || in_block 0x100 (net 203 0 113) n))
                        || (in_block 0x1000000 (net 0 0 0) n
                            || (in_block 0x400000 (net 100 64 0) n
                                || (in_block 0x20000 (net 198 18 0) n
                                    || in_block 0x10000000 (net 240 0 0) n))))))))

eq_bool : Bool → Bool → Bool
eq_bool true b = b
eq_bool false true = false
eq_bool false false = true

cgnat : (x : ℕ) → x < 256 → (bit_and x 0xc0 == 64) ≡ (leb 64 x && leb x 127)
unfolding eq_bool
cgnat x h =
    let e =
      all_below-lem (λ x. eq_bool (bit_and x 0xc0 == 64) (leb 64 x && leb x 127)) 256 x refl h in
    ground (arith, e)

benchmarking : (x : ℕ) → x < 256 → (bit_and x 0xfe == 18) ≡ (leb 18 x && leb x 19)
unfolding eq_bool
benchmarking x h =
    let e =
      all_below-lem (λ x. eq_bool (bit_and x 0xfe == 18) (leb 18 x && leb x 19)) 256 x refl h in
    ground (arith, e)

module _ (ip : Ipv4Addr) (octets : IsOctets ip) where
  block8 : (a : ℕ) → in_block 0x1000000 (net a 0 0) (number ip) ≡ (ip.o0 == a)
  block8 a = ground arith

  block16 :
      (a b : ℕ) → b < 256 → in_block 0x10000 (net a b 0) (number ip) ≡ (ip.o0 == a && ip.o1 == b)
  block16 a b h = ground arith

  block24 :
      (a b c : ℕ)
      → b < 256
      → c < 256
      → in_block 0x100 (net a b c) (number ip) ≡ (ip.o0 == a && (ip.o1 == b && ip.o2 == c))
  block24 a b c h k = ground arith

  -- A block of `size` times 2 ^ 16 addresses.
  wide_block :
      (size a b last : ℕ)
      → b + size ≡ suc last
      → last < 256
      → in_block (size * 0x10000) (net a b 0) (number ip)
        ≡ (ip.o0 == a && (leb b ip.o1 && leb ip.o1 last))
  wide_block size a b last e h = ground arith

  multicast : in_block 0x10000000 (net 224 0 0) (number ip) ≡ (leb 224 ip.o0 && leb ip.o0 239)
  multicast = ground arith

  broadcast :
      in_block 1 (record { o0 = 255; o1 = 255; o2 = 255; o3 = 255 }) (number ip) ≡ is_broadcast ip
  broadcast = ground arith

  reserved : in_block 0x10000000 (net 240 0 0) (number ip) ≡ leb 240 ip.o0
  reserved = ground arith

  is_blocked_v4-in_blocked_range : is_blocked_v4 ip ≡ in_blocked_range (number ip)
  unfolding is_blocked_v4
  is_blocked_v4-in_blocked_range =
      rw
        (
          cgnat ip.o1 octets.1,
          benchmarking ip.o1 octets.1,
          block8 127,
          block8 10,
          wide_block 16 172 16 31 refl (omega arith),
          block16 192 168 (omega arith),
          block16 169 254 (omega arith),
          block24 192 0 2 (omega arith) (omega arith),
          block24 198 51 100 (omega arith) (omega arith),
          block24 203 0 113 (omega arith) (omega arith),
          block8 0,
          wide_block 64 100 64 127 refl (omega arith),
          wide_block 2 198 18 19 refl (omega arith),
          multicast,
          broadcast,
          reserved,
        )
        refl

-- `::ffff:a.b.c.d`.
abbrev pub mapped : Ipv4Addr → Ipv6Addr
mapped ip = record {
  s0 = 0;
  s1 = 0;
  s2 = 0;
  s3 = 0;
  s4 = 0;
  s5 = 0xffff;
  s6 = ip.o0 * 256 + ip.o1;
  s7 = ip.o2 * 256 + ip.o3;
}

to_ipv4_mapped-mapped : (ip : Ipv4Addr) → IsOctets ip → to_ipv4_mapped (mapped ip) ≡ some ip
unfolding to_ipv4_mapped
to_ipv4_mapped-mapped ip (h0, h1, h2, h3) = ground arith

is_blocked_destination-mapped :
    (ip : Ipv4Addr) → IsOctets ip → is_blocked_destination (v6 (mapped ip)) ≡ is_blocked_v4 ip
unfolding is_blocked_destination
is_blocked_destination-mapped ip octets =
    rw (to_ipv4_mapped-mapped ip octets, is_blocked_destination) refl

-- `::a.b.c.d`, the deprecated IPv4-compatible form.
abbrev pub compatible : Ipv4Addr → Ipv6Addr
compatible ip = record (mapped ip) { s5 = 0 }

-- An IPv4 address is blocked exactly if its number lies in one of the fourteen ranges, as itself
-- and as `::ffff:a.b.c.d`. As `::a.b.c.d` it is blocked always.
pub is_blocked_destination-in_blocked_range :
    (ip : Ipv4Addr)
    → IsOctets ip
    → (is_blocked_destination (v4 ip) ≡ in_blocked_range (number ip))
      × ((is_blocked_destination (v6 (mapped ip)) ≡ in_blocked_range (number ip))
          × (is_blocked_destination (v6 (compatible ip)) ≡ true))
unfolding is_blocked_destination to_ipv4_mapped is_blocked_v6
is_blocked_destination-in_blocked_range ip octets = (
  is_blocked_v4-in_blocked_range ip octets,
  (
    is_blocked_destination-mapped ip octets ∙ is_blocked_v4-in_blocked_range ip octets,
    ground arith,
  ),
)

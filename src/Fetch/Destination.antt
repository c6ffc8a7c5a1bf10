-- ===== src/Fetch/Destination.antt =====
-- The destination policy of fetch/src/destination.rs: which addresses must never be connected to.
-- Octets are below 256 and segments below 65536. The text of an address, and the parser of one,
-- are the standard library's: parameters.
pub mod Ranges
pub mod Filter
mod Tests
use Prim.Native.Nat.{bit_and}
use localdb.Prelude.{
  ℕ, ◌⊎◌, inl, inr, ◌+◌, ◌*◌, ◌/◌, ◌%◌, Bool, true, false, not, ◌&&◌, ◌||◌, Option, none, some,
  List, [], ◌∷◌, ◌++◌, map, Text, codes, ltb, leb, length, ◌==◌, if◌then◌else◌,
}
use localdb.Core.Errors.{Result, ok, err}

pub record Ipv4Addr : Type 0 where
  pub o0 : ℕ
  pub o1 : ℕ
  pub o2 : ℕ
  pub o3 : ℕ

pub record Ipv6Addr : Type 0 where
  pub s0 : ℕ
  pub s1 : ℕ
  pub s2 : ℕ
  pub s3 : ℕ
  pub s4 : ℕ
  pub s5 : ℕ
  pub s6 : ℕ
  pub s7 : ℕ

pub data IpAddr : Type 0 where
  v4 : Ipv4Addr → IpAddr
  v6 : Ipv6Addr → IpAddr

-- `Ipv4Addr::is_private` and its kin, by their documented ranges.
abbrev pub is_private : Ipv4Addr → Bool
is_private ip =
    ip.o0 == 10
    || ((ip.o0 == 172 && (leb 16 ip.o1 && leb ip.o1 31)) || (ip.o0 == 192 && ip.o1 == 168))

abbrev pub is_documentation : Ipv4Addr → Bool
is_documentation ip =
    (ip.o0 == 192 && (ip.o1 == 0 && ip.o2 == 2))
    || ((ip.o0 == 198 && (ip.o1 == 51 && ip.o2 == 100))
        || (ip.o0 == 203 && (ip.o1 == 0 && ip.o2 == 113)))

abbrev pub is_broadcast : Ipv4Addr → Bool
is_broadcast ip = ip.o0 == 255 && (ip.o1 == 255 && (ip.o2 == 255 && ip.o3 == 255))

unfoldable pub is_blocked_v4 : Ipv4Addr → Bool
is_blocked_v4 ip =
    ip.o0 == 127
    || (is_private ip
        || ((ip.o0 == 169 && ip.o1 == 254)
            || ((leb 224 ip.o0 && leb ip.o0 239)
                || (is_broadcast ip
                    || (is_documentation ip
                        || (ip.o0 == 0
                            || ((ip.o0 == 100 && bit_and ip.o1 0xc0 == 64)
                                || ((ip.o0 == 198 && bit_and ip.o1 0xfe == 18)
                                    || leb 240 ip.o0))))))))

-- `Ipv6Addr::is_unspecified` and `is_loopback`, up to the last segment.
abbrev pub zero_to_s6 : Ipv6Addr → Bool
zero_to_s6 ip =
    ip.s0 == 0
    && (ip.s1 == 0 && (ip.s2 == 0 && (ip.s3 == 0 && (ip.s4 == 0 && (ip.s5 == 0 && ip.s6 == 0)))))

unfoldable pub is_blocked_v6 : Ipv6Addr → Bool
is_blocked_v6 ip =
    (zero_to_s6 ip && ip.s7 == 0)
    || ((zero_to_s6 ip && ip.s7 == 1)
        || (bit_and ip.s0 0xff00 == 0xff00
            || (bit_and ip.s0 0xfe00 == 0xfc00
                || (bit_and ip.s0 0xffc0 == 0xfe80
                    || ((ip.s0 == 0x2001 && ip.s1 == 0xdb8)
                        || (ip.s0 == 0
                            && (ip.s1 == 0
                                && (ip.s2 == 0 && (ip.s3 == 0 && (ip.s4 == 0 && ip.s5 == 0))))))))))

-- `Ipv6Addr::to_ipv4_mapped`: `::ffff:a.b.c.d` alone.
unfoldable pub to_ipv4_mapped : Ipv6Addr → Option Ipv4Addr
to_ipv4_mapped ip =
    if ip.s0 == 0 && (ip.s1 == 0 && (ip.s2 == 0 && (ip.s3 == 0 && (ip.s4 == 0 && ip.s5 == 0xffff))))
    then some (record { o0 = ip.s6 / 256; o1 = ip.s6 % 256; o2 = ip.s7 / 256; o3 = ip.s7 % 256 })
    else none

unfoldable pub is_blocked_destination : IpAddr → Bool
is_blocked_destination (v4 ip) = is_blocked_v4 ip
is_blocked_destination (v6 ip) = elim (to_ipv4_mapped ip) [
  | some mapped ↦ is_blocked_v4 mapped
  | none ↦ is_blocked_v6 ip
]

pub record SocketAddr : Type 0 where
  pub ip : IpAddr
  pub port : ℕ

pub record BlockedDestinationError : Type 0 where
  pub host : Text

-- `Url::host_str` with its brackets, if any, stripped and parsed: `Some` for an IP literal alone.
abbrev pub strip_prefix : ℕ → Text → Option Text
strip_prefix c [] = none
strip_prefix c (x ∷ xs) = if x == c then some xs else none

unfoldable pub strip_suffix : ℕ → Text → Option Text
strip_suffix c [] = none
strip_suffix c (x ∷ xs) = elim (strip_suffix c xs) [
  | some ys ↦ some (x ∷ ys)
  | none ↦ if (length xs == 0) && x == c then some [] else none
]

unfoldable pub unbracketed : Text → Text
unbracketed host = elim (strip_prefix b'[' host) [
  | none ↦ host
  | some h ↦ elim (strip_suffix b']' h) [ none ↦ host | some inner ↦ inner ]
]

-- The loop of `filter_allowed_addrs`.
abbrev pub split_addrs :
    List SocketAddr → List SocketAddr → List IpAddr → List SocketAddr × List IpAddr
split_addrs [] allowed blocked = (allowed, blocked)
split_addrs (addr ∷ addrs) allowed blocked = elim (is_blocked_destination addr.ip) [
  | true ↦ split_addrs addrs allowed (blocked ++ addr.ip ∷ [])
  | false ↦ split_addrs addrs (allowed ++ addr ∷ []) blocked
]

pub data Redirect : Type 0 where
  blocked_hop : BlockedDestinationError → Redirect
  too_many_redirects : Redirect
  follow : Redirect

abbrev pub max_redirects : ℕ
max_redirects = 10

unfoldable pub bounded_hop : ℕ → Redirect
bounded_hop previous = if ltb max_redirects previous then too_many_redirects else follow

module _ (parse_ip : Text → Option IpAddr) (show_ip : IpAddr → Text) where
  unfoldable pub ip_literal_host : Option Text → Option IpAddr
  ip_literal_host none = none
  ip_literal_host (some host) = parse_ip (unbracketed host)

  -- The texts of the addresses, joined by ", ".
  abbrev pub joined : List IpAddr → Text
  joined [] = []
  joined (ip ∷ []) = show_ip ip
  joined (ip ∷ ips) = show_ip ip ++ (codes ", " ++ joined ips)

  unfoldable pub filter_allowed_addrs :
      List SocketAddr → Result BlockedDestinationError (List SocketAddr)
  filter_allowed_addrs addrs =
      let (allowed, blocked) = split_addrs addrs [] [] in
      if (length allowed == 0) && not (length blocked == 0)
      then err (record { host = joined blocked })
      else ok allowed

  -- `GuardedResolver::resolve`, given what `lookup_host` answers: its own error, or addresses.
  unfoldable pub resolve :
      {E : Type 0}
      → Text
      → Result E (List SocketAddr)
      → Result (E ⊎ BlockedDestinationError) (List SocketAddr)
  resolve host (err e) = err (inl e)
  resolve host (ok addrs) = elim (filter_allowed_addrs addrs) [
    | err e ↦ err (inr (record { host = host }))
    | ok allowed ↦ ok allowed
  ]

  -- The policy's answer for the next hop: its host, and how many requests came before it.
  unfoldable pub guarded_redirect_policy : Option Text → ℕ → Redirect
  guarded_redirect_policy host previous = elim (ip_literal_host host) [
    | none ↦ bounded_hop previous
    | some ip ↦
        if is_blocked_destination ip
        then blocked_hop (record { host = show_ip ip })
        else bounded_hop previous
  ]

-- Whether a marker of this module stands in an error's chain of sources, the error itself first.
unfoldable pub is_blocked_error : List Bool → Bool
is_blocked_error [] = false
is_blocked_error (is_marker ∷ source) =
    let rest = is_blocked_error source in if is_marker then true else rest

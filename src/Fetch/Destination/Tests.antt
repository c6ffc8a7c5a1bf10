-- ===== src/Fetch/Destination/Tests.antt =====
-- Concrete addresses: the cloud metadata endpoint and a public one.
use localdb.Prelude.{
  ◌≡◌, refl, true, false, Option, none, List, [], ◌∷◌, Text, codes, arith, All, ◌≤◌,
}
use localdb.Core.Errors.{Result, ok}
use localdb.Fetch.Destination.{
  Ipv4Addr, IpAddr, v4, v6, SocketAddr, is_blocked_destination, is_blocked_v4, to_ipv4_mapped,
  filter_allowed_addrs, ip_literal_host, guarded_redirect_policy, bounded_hop,
}
use localdb.Fetch.Destination.Ranges.{
  mapped, compatible, in_blocked_range, number, is_blocked_destination-in_blocked_range,
}
use localdb.Fetch.Destination.Filter.{
  targets, filter_allowed_addrs-keep, guarded_redirect_policy-targets,
}

abbrev metadata : Ipv4Addr
metadata = record { o0 = 169; o1 = 254; o2 = 169; o3 = 254 }

abbrev public_addr : SocketAddr
public_addr = record { ip = v4 (record { o0 = 8; o1 = 8; o2 = 8; o3 = 8 }); port = 443 }

abbrev no_literal : Text → Option IpAddr
no_literal host = none

abbrev unnamed : IpAddr → Text
unnamed ip = codes "ip"

abbrev answer : Result Text (List SocketAddr)
answer = ok (record { ip = v4 metadata; port = 443 } ∷ public_addr ∷ [])

metadata_is_blocked : is_blocked_destination (v6 (mapped metadata)) ≡ true
unfolding is_blocked_destination is_blocked_v4 to_ipv4_mapped
metadata_is_blocked = refl

is_blocked_destination-in_blocked_range_example :
    (is_blocked_destination (v4 metadata) ≡ in_blocked_range (number metadata))
    × ((is_blocked_destination (v6 (mapped metadata)) ≡ in_blocked_range (number metadata))
        × (is_blocked_destination (v6 (compatible metadata)) ≡ true))
is_blocked_destination-in_blocked_range_example =
    is_blocked_destination-in_blocked_range metadata
      (omega arith, omega arith, omega arith, omega arith)

guarded_redirect_policy-targets_example :
    All (λ ip. is_blocked_destination ip ≡ false) (targets no_literal unnamed (codes "h") answer)
    × (3 ≤ 10)
unfolding guarded_redirect_policy bounded_hop ip_literal_host
guarded_redirect_policy-targets_example =
    guarded_redirect_policy-targets no_literal unnamed (codes "h") 3 answer refl

filter_allowed_addrs-keep_example :
    filter_allowed_addrs no_literal unnamed (public_addr ∷ []) ≡ ok (public_addr ∷ [])
unfolding is_blocked_destination is_blocked_v4
filter_allowed_addrs-keep_example = filter_allowed_addrs-keep no_literal unnamed (public_addr ∷ [])

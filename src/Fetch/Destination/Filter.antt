-- ===== src/Fetch/Destination/Filter.antt =====
-- What `filter_allowed_addrs` keeps, and what the resolver and the redirect policy make of it.
use localdb.Prelude.{
  ℕ, ◌≤◌, ◌≡◌, refl, ap, ◌⊎◌, inl, inr, Bool, false, not, ◌&&◌, Option, none, some, List, [], ◌∷◌,
  ◌++◌, Text, length, keep, ◌==◌, if◌then◌else◌, arith, Option-cases, All,
}
use mathlib.Core.List.{append-nil, append_assoc}
use localdb.Core.Errors.{Result, ok, err}
use localdb.Fetch.Destination.{
  IpAddr, SocketAddr, BlockedDestinationError, is_blocked_destination, split_addrs, joined,
  filter_allowed_addrs, resolve, follow, ip_literal_host, guarded_redirect_policy, bounded_hop,
}

abbrev pub is_allowed : SocketAddr → Bool
is_allowed addr = not (is_blocked_destination addr.ip)

abbrev pub is_refused : SocketAddr → Bool
is_refused addr = is_blocked_destination addr.ip

abbrev pub ips : List SocketAddr → List IpAddr
ips [] = []
ips (addr ∷ addrs) = addr.ip ∷ ips addrs

split_addrs-keep :
    (addrs allowed : List SocketAddr) (blocked : List IpAddr)
    → split_addrs addrs allowed blocked
      ≡ (allowed ++ keep is_allowed addrs, blocked ++ ips (keep is_refused addrs))
split_addrs-keep [] allowed blocked = ground (arith, append-nil allowed, append-nil blocked)
split_addrs-keep (addr ∷ addrs) allowed blocked = ground (
  arith,
  append_assoc allowed (addr ∷ []) (keep is_allowed addrs),
  append_assoc blocked (addr.ip ∷ []) (ips (keep is_refused addrs)),
  split_addrs-keep addrs (allowed ++ addr ∷ []) blocked,
  split_addrs-keep addrs allowed (blocked ++ addr.ip ∷ []),
)

refused_all :
    (addrs : List SocketAddr) → length (keep is_allowed addrs) ≡ 0 → keep is_refused addrs ≡ addrs
refused_all [] e = refl
refused_all (addr ∷ addrs) e = ground (arith, refused_all addrs)

length-ips : (addrs : List SocketAddr) → length (ips addrs) ≡ length addrs
length-ips [] = refl
length-ips (addr ∷ addrs) = ground (arith, length-ips addrs)

length_refused :
    (addrs : List SocketAddr)
    → length (keep is_allowed addrs) ≡ 0
    → length (keep is_refused addrs) ≡ length addrs
length_refused addrs e = ap length (refused_all addrs e)

-- No refused address is left.
All-ips :
    (addrs : List SocketAddr)
    → All (λ ip. is_blocked_destination ip ≡ false) (ips (keep is_allowed addrs))
All-ips [] = tt
All-ips (addr ∷ addrs) = ground (arith, All-ips addrs)

module _ (parse_ip : Text → Option IpAddr) (show_ip : IpAddr → Text) where
  -- `filter_allowed_addrs` answers the addresses that are not blocked, in their order. It refuses a
  -- non-empty list of which all are blocked, and then names all its addresses.
  pub filter_allowed_addrs-keep :
      (addrs : List SocketAddr)
      → filter_allowed_addrs parse_ip show_ip addrs ≡ (
          if (length (keep is_allowed addrs) == 0) && not (length addrs == 0)
          then err (record { host = joined parse_ip show_ip (ips addrs) })
          else ok (keep is_allowed addrs))
  unfolding filter_allowed_addrs
  filter_allowed_addrs-keep addrs =
      rw (split_addrs-keep addrs [] []) (
        ground (arith, refused_all addrs, length-ips (keep is_refused addrs), length_refused addrs))

  -- The addresses that a request to a host may connect to: an IP literal itself, and for a name
  -- what the resolver lets through.
  abbrev pub resolved : {E : Type 0} → Result E (List SocketAddr) → List IpAddr
  resolved (ok addrs) = ips addrs
  resolved (err e) = []

  unfoldable pub targets : {E : Type 0} → Text → Result E (List SocketAddr) → List IpAddr
  targets host answer = elim (ip_literal_host parse_ip show_ip (some host)) [
    | some ip ↦ ip ∷ []
    | none ↦ resolved (resolve parse_ip show_ip host answer)
  ]

  targets-resolve :
      {E : Type 0} (host : Text) (answer : Result E (List SocketAddr)) (allowed : List SocketAddr)
      → resolve parse_ip show_ip host answer ≡ ok allowed
      → All (λ ip. is_blocked_destination ip ≡ false) (ips allowed)
  unfolding resolve
  targets-resolve host (err e) allowed h = ground arith
  targets-resolve host (ok addrs) allowed h =
      ground (arith, filter_allowed_addrs-keep addrs, All-ips addrs)

  targets_of_name :
      {E : Type 0} (host : Text) (answer : Result E (List SocketAddr))
      (r : Result (E ⊎ BlockedDestinationError) (List SocketAddr))
      → resolve parse_ip show_ip host answer ≡ r
      → All (λ ip. is_blocked_destination ip ≡ false) (resolved r)
  targets_of_name host answer (ok addrs) h = targets-resolve host answer addrs h
  targets_of_name host answer (err e) h = tt

  -- Whenever the redirect policy follows a hop, none of the addresses that the hop may connect to
  -- is blocked, whatever `lookup_host` answers, and at most ten requests came before it.
  pub guarded_redirect_policy-targets :
      {E : Type 0} (host : Text) (previous : ℕ) (answer : Result E (List SocketAddr))
      → guarded_redirect_policy parse_ip show_ip (some host) previous ≡ follow
      → All (λ ip. is_blocked_destination ip ≡ false) (targets host answer) × (previous ≤ 10)
  unfolding guarded_redirect_policy bounded_hop targets
  guarded_redirect_policy-targets host previous answer e =
      elim (Option-cases (ip_literal_host parse_ip show_ip (some host))) [
        | inl name ↦
            rw (name, targets)
              (
                targets_of_name host answer _ refl,
                ground (arith, rw (name, guarded_redirect_policy) at e),
              )
        | inr (ip, literal) ↦
            rw (literal, targets) (ground (arith, rw (literal, guarded_redirect_policy) at e))
      ]

-- ===== src/Tracker/Udp/Url.antt =====
-- The address that a UDP tracker's URL stands for.
use motte_seed.Prelude.{
  ◌≡◌, refl, true, false, List, [], ◌∷◌, ◌++◌, ◌⊎◌, inl, inr, ok, All, arith, ◌==◌, Bool-cases,
  Result-cases, ok-injective, sym,
}
use motte_seed.Prelude.Text.{codes}
use motte_seed.Bytes.{Bytes, strip_prefix, starts_with}
use motte_seed.Tracker.Udp.Client.{Net, before_slash, first_ipv4, parse_udp_url}
use motte_seed.Tracker.Factory.{determine_type, udp}

-- Nothing, or a path.
abbrev pub IsPath : Bytes → Type 0
IsPath [] = Unit {0}
IsPath (b ∷ text) = b ≡ 47

before_slash-host :
    (host path : Bytes)
    → All (λ b. (b == 47) ≡ false) host
    → IsPath path
    → before_slash (host ++ path) ≡ host
unfolding before_slash
before_slash-host [] [] w p = refl
before_slash-host [] (b ∷ path) w p = let same : (b == 47) ≡ true = ground arith in rw same refl
before_slash-host (b ∷ host) path (n, w) p =
    rw (n, before_slash, before_slash-host host path w p) refl

module _ (net : Net) where
  -- The first of the addresses that is IPv4, with none of that kind before it.
  abbrev pub IsFirst : net.SocketAddr → List net.SocketAddr → Type 0
  IsFirst addr [] = ⊥
  IsFirst addr (a ∷ addrs) =
      ((net.is_ipv4 a ≡ true) × (addr ≡ a)) ⊎ ((net.is_ipv4 a ≡ false) × IsFirst addr addrs)

  first_ipv4-ok :
      (addrs : List net.SocketAddr) (addr : net.SocketAddr)
      → first_ipv4 net addrs ≡ ok addr
      → IsFirst addr addrs
  unfolding first_ipv4
  first_ipv4-ok [] addr h = cc
  first_ipv4-ok (a ∷ addrs) addr h = elim (Bool-cases (net.is_ipv4 a)) [
    | inl q ↦ inl (q, ok-injective (sym (rw (q, first_ipv4) at h)))
    | inr q ↦ inr (q, first_ipv4-ok addrs addr (rw (q, first_ipv4) at h))
  ]

  IsFirst-first_ipv4 :
      (addrs : List net.SocketAddr) (addr : net.SocketAddr)
      → IsFirst addr addrs
      → first_ipv4 net addrs ≡ ok addr
  unfolding first_ipv4
  IsFirst-first_ipv4 [] addr f = elim f [ ]
  IsFirst-first_ipv4 (a ∷ addrs) addr (inl (q, e)) = rw (q, first_ipv4, e) refl
  IsFirst-first_ipv4 (a ∷ addrs) addr (inr (q, f)) =
      rw (q, first_ipv4) (IsFirst-first_ipv4 addrs addr f)

  -- A URL that is `udp://`, a host with its port, and nothing or a path goes to the UDP tracker. An
  -- address that it gives for it is the first IPv4 address that the lookup of just the host with its
  -- port has; and it gives one whenever the lookup has one.
  pub parse_udp_url_lem :
      (host path : Bytes)
      → All (λ b. (b == 47) ≡ false) host
      → IsPath path
      → (determine_type (codes "udp://" ++ (host ++ path)) ≡ udp)
        × ((addr : net.SocketAddr)
            → parse_udp_url net (codes "udp://" ++ (host ++ path)) ≡ ok addr
            → (addrs : List net.SocketAddr) × (net.lookup_host host ≡ ok addrs)
              × IsFirst addr addrs)
        × ((addrs : List net.SocketAddr) (addr : net.SocketAddr)
            → net.lookup_host host ≡ ok addrs
            → IsFirst addr addrs
            → parse_udp_url net (codes "udp://" ++ (host ++ path)) ≡ ok addr)
  unfolding parse_udp_url determine_type starts_with strip_prefix
  parse_udp_url_lem host path w p =
      let same = before_slash-host host path w p in
      (
        refl,
        (λ addr h. elim (Result-cases (net.lookup_host host)) [
          | inl (addrs, e) ↦ (addrs, e, first_ipv4-ok addrs addr (rw (same, e, parse_udp_url) at h))
          | inr (x, e) ↦ cc (rw (same, e, parse_udp_url) at h)
        ]),
        λ addrs addr e f. rw (same, e, parse_udp_url) (IsFirst-first_ipv4 addrs addr f),
      )

-- ===== src/WireGuard/Tests.antt =====
-- The theorems on src/wireguard/wireguard_util.c with a C library that knows one address.
use rkt_io.Common.{
  ℕ, ◌<◌, true, false, ◌==◌, ◌||◌, if◌then◌else◌, Option, some, none, List, [], ◌∷◌, ◌++◌, ◌≡◌, ◌⊎◌,
}
use rkt_io.WireGuard.{
  Host, Peer, PeerConfig, Device, is_empty, split_endpoint, wgu_parse_endpoint, wgu_add_peers,
}
use rkt_io.WireGuard.Endpoint.{wgu_parse_endpoint_lem}
use rkt_io.WireGuard.Peers.{PeerFor, wgu_add_peers_lem}

-- A string is an address if it is not empty; a number is one digit; the third call of the resolver succeeds.
abbrev host : Host
host = record {
  inet_pton = λ f s. if is_empty s then none else some s;
  isdigit = λ c. c == 56 || c == 57;
  strtoul = λ s. (8, []);
  getaddrinfo = λ n begin end. if n == 2 then 0 else 11;
  resolved = λ begin end. some begin;
  permanent = λ code. code == 8;
  key_from_base64 = λ s. some s;
}

-- "a:1"
abbrev value : List ℕ
value = 97 ∷ 58 ∷ 49 ∷ []

wgu_parse_endpoint_lem_example :
    (r : Option (List ℕ)) × (wgu_parse_endpoint host 12 value ≡ some r)
    × ((address : List ℕ)
        → r ≡ some address
        → (begin end : List ℕ) × (split_endpoint value ≡ some (begin, end))
          × (host.resolved begin end ≡ some address)
          × (i : ℕ) × (i < 12)
          × (host.getaddrinfo i begin end ≡ 0))
wgu_parse_endpoint_lem_example = wgu_parse_endpoint_lem host value

-- "a/8,b"
abbrev ips : List ℕ
ips = 97 ∷ 47 ∷ 56 ∷ 44 ∷ 98 ∷ []

abbrev configs : List PeerConfig
configs =
    record { key = 1 ∷ []; allowed_ips = ips; endpoint = value }
    ∷ record { key = []; allowed_ips = ips; endpoint = value }
    ∷ []

abbrev no_peers : Device
no_peers = []

wgu_add_peers_lem_example :
    (wgu_add_peers host (λ d. false) no_peers configs false ≡ some (no_peers, false))
    ⊎ ((ps : List (Option Peer)) × (wgu_add_peers host (λ d. false) no_peers configs false
          ≡ some (no_peers ++ ps, true))
        × PeerFor host configs ps)
wgu_add_peers_lem_example = wgu_add_peers_lem host (λ d. false) no_peers configs

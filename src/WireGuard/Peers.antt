-- ===== src/WireGuard/Peers.antt =====
-- wgu_add_peers of src/wireguard/wireguard_util.c
use rkt_io.Common.{
  ◌+◌, Bool, true, false, ◌||◌, Option, some, none, List, [], ◌∷◌, ◌++◌, length, ◌≡◌, ◌⊎◌, inl, inr,
  refl, arith, append_assoc, append-nil, Option-cases, Bool-cases,
}
use rkt_io.WireGuard.Endpoint.{wgu_parse_endpoint_lem}
use rkt_io.WireGuard.AllowedIps.{wgu_parse_allowedips_lem}
use rkt_io.WireGuard.{
  unset_peer, Host, Peer, PeerConfig, Device, is_empty, Built, skipped, failed, built, build_peer,
  build_peers, wgu_add_peer, add_loop, wgu_add_peers,
}

-- One peer for every entry of the configuration: it was built, or the entry lacks a string and the peer was never written.
pub data PeerFor (c : Host) : List PeerConfig → List (Option Peer) → Type 0 where
  no_more : PeerFor c [] []
  written :
      {cfg : PeerConfig} {cfgs : List PeerConfig} {p : Peer} {ps : List (Option Peer)}
      → build_peer c cfg ≡ some (built p)
      → PeerFor c cfgs ps
      → PeerFor c (cfg ∷ cfgs) (some p ∷ ps)
  unwritten :
      {cfg : PeerConfig} {cfgs : List PeerConfig} {ps : List (Option Peer)}
      → build_peer c cfg ≡ some skipped
      → PeerFor c cfgs ps
      → PeerFor c (cfg ∷ cfgs) (none ∷ ps)

add_loop_all :
    (fails : Device → Bool) (dev : Device) (ps : List (Option Peer))
    → add_loop fails dev ps false ≡ (dev ++ ps, true)
unfolding add_loop wgu_add_peer
add_loop_all fails dev [] = ground (arith, append-nil dev)
add_loop_all fails dev (p ∷ ps) =
    ground (arith, add_loop_all fails (dev ++ (p ∷ [])) ps, append_assoc dev (p ∷ []) ps)

build_peer_ends : (c : Host) (cfg : PeerConfig) → (b : Built) × (build_peer c cfg ≡ some b)
unfolding build_peer
build_peer_ends c cfg =
    elim (Bool-cases (is_empty cfg.key || is_empty cfg.allowed_ips || is_empty cfg.endpoint)) [
      | inl e ↦ (skipped, ground arith)
      | inr e ↦ elim (Option-cases (c.key_from_base64 cfg.key)) [
        | inl f ↦ (failed, ground arith)
        | inr (key, f) ↦
            let (new, ok, parses, fit, rest) =
              wgu_parse_allowedips_lem c (length cfg.allowed_ips + 2) (unset_peer key)
                cfg.allowed_ips (omega arith) in
            let (r, resolves, why) = wgu_parse_endpoint_lem c cfg.endpoint in
            elim (Bool-cases ok) [
              | inr g ↦ (failed, ground (arith, parses, resolves))
              | inl g ↦ elim (Option-cases r) [
                | inl h ↦ (failed, ground (arith, parses, resolves))
                | inr (a, h) ↦ (
                  built (record (unset_peer key) { allowedips = new; endpoint = a }),
                  ground (arith, parses, resolves),
                )
              ]
            ]
      ]
    ]

-- What the first loop comes to
build_peers_lem :
    (c : Host) (cfgs : List PeerConfig)
    → (build_peers c cfgs ≡ some none)
      ⊎ ((ps : List (Option Peer)) × (build_peers c cfgs ≡ some (some ps)) × PeerFor c cfgs ps)
unfolding build_peers
build_peers_lem c [] = inr ([], refl, no_more)
build_peers_lem c (cfg ∷ cfgs) =
    let (b, this) = build_peer_ends c cfg in by_this b this (build_peers_lem c cfgs)
  where
    by_this :
        (b : Built)
        → build_peer c cfg ≡ some b
        → (build_peers c cfgs ≡ some none)
          ⊎ ((ps : List (Option Peer)) × (build_peers c cfgs ≡ some (some ps)) × PeerFor c cfgs ps)
        → (build_peers c (cfg ∷ cfgs) ≡ some none)
          ⊎ ((ps : List (Option Peer)) × (build_peers c (cfg ∷ cfgs) ≡ some (some ps))
              × PeerFor c (cfg ∷ cfgs) ps)
    by_this failed this rest = inl (ground arith)
    by_this skipped this (inl r) = inl (ground arith)
    by_this skipped this (inr (ps, r, all)) = inr (none ∷ ps, ground arith, unwritten this all)
    by_this (built p) this (inl r) = inl (ground arith)
    by_this (built p) this (inr (ps, r, all)) = inr (some p ∷ ps, ground arith, written this all)

-- wgu_add_peers without setting the device ends. Either it fails and the device is as it was, or the device gets one more peer for each
-- entry of the configuration, in order: the peer that was built, or, for an entry that lacks its key, addresses or endpoint and was skipped, memory that was never written.
pub wgu_add_peers_lem :
    (c : Host) (fails : Device → Bool) (dev : Device) (cfgs : List PeerConfig)
    → (wgu_add_peers c fails dev cfgs false ≡ some (dev, false))
      ⊎ ((ps : List (Option Peer)) × (wgu_add_peers c fails dev cfgs false ≡ some (dev ++ ps, true))
          × PeerFor c cfgs ps)
unfolding wgu_add_peers
wgu_add_peers_lem c fails dev cfgs = elim (build_peers_lem c cfgs) [
  | inl e ↦ inl (ground arith)
  | inr (ps, e, all) ↦ inr (ps, ground (arith, add_loop_all fails dev ps), all)
]

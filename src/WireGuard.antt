-- ===== src/WireGuard.antt =====
-- src/wireguard/wireguard_util.c: the peers of the enclave's WireGuard device, from their configuration. A string is the
-- list of its bytes. What the C library and the WireGuard library do is the argument `Host`; memory does not run out.
pub mod Endpoint
pub mod AllowedIps
pub mod Peers
mod Tests
use rkt_io.Common.{
  ℕ, zero, suc, ◌+◌, ◌*◌, ◌/◌, ◌%◌, ◌^◌, Bool, true, false, not, ◌&&◌, ◌||◌, ltb, leb, ◌==◌,
  if◌then◌else◌, Option, some, none, ◌>>=◌, List, [], ◌∷◌, ◌++◌, length,
}

pub data Family : Type 0 where
  inet inet6 : Family

-- What the code calls: inet_pton of a family, isdigit, strtoul in base 10 (the number and what is left of the string),
-- the n-th call of getaddrinfo (its code, and the address if it is 0), which codes are for good, wg_key_from_base64.
pub record Host : Type 0 where
  pub inet_pton : Family → List ℕ → Option (List ℕ)
  pub isdigit : ℕ → Bool
  pub strtoul : List ℕ → ℕ × List ℕ
  pub getaddrinfo : ℕ → List ℕ → List ℕ → ℕ
  pub resolved : List ℕ → List ℕ → Option (List ℕ)
  pub permanent : ℕ → Bool
  pub key_from_base64 : List ℕ → Option (List ℕ)

-- `wg_allowedip`
pub record Allowedip : Type 0 where
  pub family : Family
  pub ip : List ℕ
  pub cidr : ℕ

-- `wg_peer`, its list of allowed addresses in order
pub record Peer : Type 0 where
  pub public_key : List ℕ
  pub allowedips : List Allowedip
  pub endpoint : List ℕ

-- `enclave_wg_peer_config_t`; a string that is missing is empty.
pub record PeerConfig : Type 0 where
  pub key : List ℕ
  pub allowed_ips : List ℕ
  pub endpoint : List ℕ

abbrev pub is_empty : List ℕ → Bool
is_empty [] = true
is_empty (x ∷ xs) = false

abbrev pub has_char : ℕ → List ℕ → Bool
has_char c [] = false
has_char c (x ∷ xs) = x == c || has_char c xs

-- What stands before the first `c`, and behind it if there is one
abbrev pub strsep : ℕ → List ℕ → List ℕ × Option (List ℕ)
strsep c [] = ([], none)
strsep c (x ∷ xs) =
    let (token, rest) = strsep c xs in if x == c then ([], some xs) else (x ∷ token, rest)

-- The parts before and behind the last `c`
abbrev pub last_sep : ℕ → List ℕ → Option (List ℕ × List ℕ)
last_sep c [] = none
last_sep c (x ∷ xs) = elim (last_sep c xs) [
  | some p ↦ some (x ∷ p.0, p.1)
  | none ↦ if x == c then some ([], xs) else none
]

abbrev pub widest : Family → ℕ
widest inet = 32
widest inet6 = 128

-- What stands behind a colon, if there is something
abbrev pub after_colon : List ℕ → Option (List ℕ)
after_colon [] = none
after_colon (y ∷ ys) = if y == 58 && not (is_empty ys) then some ys else none

-- Host and port of an endpoint, whose host may stand in brackets
unfoldable pub split_endpoint : List ℕ → Option (List ℕ × List ℕ)
split_endpoint [] = none
split_endpoint (x ∷ xs) =
    if x == 91
    then (do behind ← (strsep 93 xs).1; port ← after_colon behind; some ((strsep 93 xs).0, port))
    else (do parts ← last_sep 58 (x ∷ xs); (if is_empty parts.1 then none else some parts))

module _ (c : Host) where
  unfoldable pub wgu_parse_ip : List ℕ → Option (Family × List ℕ)
  wgu_parse_ip value =
      if has_char 58 value
      then (do ip ← c.inet_pton inet6 value; some (inet6, ip))
      else (do ip ← c.inet_pton inet value; some (inet, ip))

  -- The part behind the slash, or the whole address where there is none
  unfoldable pub parse_cidr : Family → Option (List ℕ) → Option ℕ
  parse_cidr f none = some (widest f)
  parse_cidr f (some []) = none
  parse_cidr f (some (x ∷ xs)) =
      let (cidr, end) = c.strtoul (x ∷ xs) in
      if not (c.isdigit x) || not (is_empty end) || ltb (widest f) cidr then none else some cidr

  unfoldable pub parse_entry : List ℕ → Option Allowedip
  unfolding wgu_parse_ip parse_cidr
  parse_entry entry = do
    parsed ← wgu_parse_ip (strsep 47 entry).0
    cidr ← parse_cidr parsed.0 (strsep 47 entry).1
    some (record { family = parsed.0; ip = parsed.1; cidr = cidr })

  -- The loop over the entries between commas; the list so far, whose end is `*last_allowedip`, stays when
  -- an entry is refused.
  unfoldable pub entries_loop :
      ℕ → Option (List ℕ) → List Allowedip → Option (List Allowedip × Bool)
  unfolding parse_entry
  entries_loop zero sep ips = none
  entries_loop (suc fuel) none ips = some (ips, true)
  entries_loop (suc fuel) (some sep) ips = elim (parse_entry (strsep 44 sep).0) [
    | none ↦ some (ips, false)
    | some ip ↦ entries_loop fuel (strsep 44 sep).1 (ips ++ (ip ∷ []))
  ]

  unfoldable pub wgu_parse_allowedips : ℕ → Peer → List ℕ → Option (Peer × Bool)
  unfolding entries_loop
  wgu_parse_allowedips fuel peer value = if is_empty value then some (peer, true) else (do
    parsed ← entries_loop fuel (some value) peer.allowedips
    some (record peer { allowedips = parsed.0 }, parsed.1))

  -- The loop around getaddrinfo; `n` counts the calls, and the result is the call that succeeded, if one did.
  unfoldable pub resolve_loop : ℕ → ℕ → ℕ → List ℕ → List ℕ → Option (Option ℕ)
  resolve_loop zero timeout n begin end = none
  resolve_loop (suc fuel) timeout n begin end =
      let ret = c.getaddrinfo n begin end in
      let longer = timeout * 3 % 2 ^ 32 / 2 in
      let again = resolve_loop fuel longer (n + 1) begin end in
      if ret == 0
      then some (some n)
      else if c.permanent ret || leb 90000000 longer
      then some none
      else again

  -- The address, or that there is none.
  unfoldable pub wgu_parse_endpoint : ℕ → List ℕ → Option (Option (List ℕ))
  unfolding split_endpoint resolve_loop
  wgu_parse_endpoint fuel value = elim (split_endpoint value) [
    | none ↦ some none
    | some parts ↦ do
      answer ← resolve_loop fuel 1000000 0 parts.0 parts.1
      elim answer [ none ↦ some none | some n ↦ some (c.resolved parts.0 parts.1) ]
  ]

-- What becomes of one entry of the configuration in the first loop of `wgu_add_peers`
pub data Built : Type 0 where
  skipped failed : Built
  built : Peer → Built

abbrev pub unset_peer : List ℕ → Peer
unset_peer key = record { public_key = key; allowedips = []; endpoint = [] }

-- The device: its peers in order. One that was never written holds what malloc gave: `none`.
abbrev pub Device : Type 0
Device = List (Option Peer)

module _ (c : Host) where
  -- The fuel is for the bytes of the allowed addresses.
  unfoldable pub build_peer : PeerConfig → Option Built
  unfolding wgu_parse_allowedips wgu_parse_endpoint
  build_peer cfg =
      if is_empty cfg.key || is_empty cfg.allowed_ips || is_empty cfg.endpoint
      then some skipped
      else elim (c.key_from_base64 cfg.key) [
        | none ↦ some failed
        | some key ↦ do
          parsed ←
              wgu_parse_allowedips c (length cfg.allowed_ips + 2) (unset_peer key) cfg.allowed_ips
          endpoint ← wgu_parse_endpoint c 12 cfg.endpoint
          some (
              if parsed.1
              then elim endpoint [
                | none ↦ failed
                | some address ↦ built (record (parsed.0) { endpoint = address })
              ]
              else failed)
      ]

  abbrev pub with_peer : Option Peer → Option (List (Option Peer)) → Option (List (Option Peer))
  with_peer p none = none
  with_peer p (some ps) = some (p ∷ ps)

  -- The array `new_peers`, or `none` for the jump to `err`
  unfoldable pub build_peers : List PeerConfig → Option (Option (List (Option Peer)))
  unfolding build_peer
  build_peers [] = some (some [])
  build_peers (cfg ∷ cfgs) = do
    this ← build_peer cfg
    elim this [
      | failed ↦ some none
      | skipped ↦ do rest ← build_peers cfgs; some (with_peer none rest)
      | built p ↦ do rest ← build_peers cfgs; some (with_peer (some p) rest)
    ]

-- `wg_set_device` is the argument: whether it fails. The result is whether the peer was added without an error.
unfoldable pub wgu_add_peer : (Device → Bool) → Device → Option Peer → Bool → Device × Bool
wgu_add_peer set_fails dev new_peer set_device =
    (dev ++ (new_peer ∷ []), not (set_device && set_fails (dev ++ (new_peer ∷ []))))

unfoldable pub add_loop : (Device → Bool) → Device → List (Option Peer) → Bool → Device × Bool
unfolding wgu_add_peer
add_loop set_fails dev [] set_device = (dev, true)
add_loop set_fails dev (p ∷ ps) set_device =
    let (dev', ok) = wgu_add_peer set_fails dev p set_device in
    let rest = add_loop set_fails dev' ps set_device in if ok then rest else (dev', false)

unfoldable pub wgu_add_peers :
    Host → (Device → Bool) → Device → List PeerConfig → Bool → Option (Device × Bool)
unfolding build_peers add_loop
wgu_add_peers c set_fails dev cfgs set_device = do
  new_peers ← build_peers c cfgs
  some (elim new_peers [ none ↦ (dev, false) | some ps ↦ add_loop set_fails dev ps set_device ])

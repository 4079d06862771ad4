-- ===== src/WireGuard/AllowedIps.antt =====
-- wgu_parse_allowedips of src/wireguard/wireguard_util.c
use rkt_io.Common.{
  ℕ, zero, suc, ◌+◌, ◌≤◌, ◌<◌, Bool, true, false, Option, some, none, List, [], ◌∷◌, ◌++◌, length,
  ◌≡◌, ◌≢◌, ◌⊎◌, inl, inr, refl, arith, Option-cases, append_assoc, append-nil,
}
use rkt_io.WireGuard.{
  Host, Family, Allowedip, Peer, strsep, widest, wgu_parse_ip, parse_cidr, parse_entry,
  entries_loop, wgu_parse_allowedips,
}

-- Every entry of the list has a prefix no longer than an address of its family.
pub data AllFit : List Allowedip → Type 0 where
  none_fit : AllFit []
  one_fits :
      {a : Allowedip} {rest : List Allowedip}
      → a.cidr ≤ widest a.family
      → AllFit rest
      → AllFit (a ∷ rest)

-- The entries between commas, each parsed: all of them, or those before the first that is refused
pub data Parses (c : Host) : Option (List ℕ) → List Allowedip → Bool → Type 0 where
  at_end : Parses c none [] true
  refused : {sep : List ℕ} → parse_entry c (strsep 44 sep).0 ≡ none → Parses c (some sep) [] false
  taken :
      {sep : List ℕ} {a : Allowedip} {rest : List Allowedip} {ok : Bool}
      → parse_entry c (strsep 44 sep).0 ≡ some a
      → Parses c (strsep 44 sep).1 rest ok
      → Parses c (some sep) (a ∷ rest) ok

size : Option (List ℕ) → ℕ
size none = 0
size (some s) = suc (length s)

strsep_shorter : (c : ℕ) (s : List ℕ) → size (strsep c s).1 < suc (length s)
unfolding size
strsep_shorter c [] = omega arith
strsep_shorter c (x ∷ xs) = ground (arith, strsep_shorter c xs)

parse_cidr_fits :
    (c : Host) (f : Family) (mask : Option (List ℕ)) (n : ℕ)
    → parse_cidr c f mask ≡ some n
    → n ≤ widest f
unfolding parse_cidr
parse_cidr_fits c f none n e = ground arith
parse_cidr_fits c f (some []) n e = absurd (ground arith)
parse_cidr_fits c f (some (x ∷ xs)) n e = ground arith

parse_entry_fits :
    (c : Host) (entry : List ℕ) (a : Allowedip)
    → parse_entry c entry ≡ some a
    → a.cidr ≤ widest a.family
unfolding parse_entry
parse_entry_fits c entry a e = elim (Option-cases (wgu_parse_ip c (strsep 47 entry).0)) [
  | inl f ↦ absurd (ground arith)
  | inr (parsed, f) ↦ elim (Option-cases (parse_cidr c parsed.0 (strsep 47 entry).1)) [
    | inl g ↦ absurd (ground arith)
    | inr (cidr, g) ↦ ground (arith, parse_cidr_fits c parsed.0 (strsep 47 entry).1 cidr g)
  ]
]

-- The loop ends when it has as much fuel as there are bytes.
entries_loop_ends :
    (c : Host) (fuel : ℕ) (sep : Option (List ℕ)) (ips : List Allowedip)
    → size sep < fuel
    → (new : List Allowedip) × (ok : Bool) × (entries_loop c fuel sep ips ≡ some (ips ++ new, ok))
      × Parses c sep new ok
      × AllFit new
unfolding entries_loop size
entries_loop_ends c zero sep ips enough = absurd (omega arith)
entries_loop_ends c (suc fuel) none ips enough = ([], true, simp append-nil, at_end, none_fit)
entries_loop_ends c (suc fuel) (some sep) ips enough =
    elim (Option-cases (parse_entry c (strsep 44 sep).0)) [
      | inl e ↦ ([], false, ground (arith, append-nil ips), refused e, none_fit)
      | inr (a, e) ↦
          let (new, ok, ends, parses, fit) =
            entries_loop_ends c fuel (strsep 44 sep).1 (ips ++ (a ∷ []))
              (omega (arith, strsep_shorter 44 sep)) in
          (
            a ∷ new,
            ok,
            ground (arith, ends, append_assoc ips (a ∷ []) new),
            taken e parses,
            one_fits (parse_entry_fits c (strsep 44 sep).0 a e) fit,
          )
    ]

-- With more fuel than the value has bytes, and one more, wgu_parse_allowedips ends. For an empty value the peer stays as it is and the result is true. Otherwise the peer's
-- list has, behind what it had, the entries between commas in order, all of them if the result is true, and those before the first that is
-- refused if it is false; every new entry has a prefix of at most 32 bits for an IPv4 address and 128 for an IPv6 one.
pub wgu_parse_allowedips_lem :
    (c : Host) (fuel : ℕ) (peer : Peer) (value : List ℕ)
    → length value + 1 < fuel
    → (new : List Allowedip) × (ok : Bool) × (wgu_parse_allowedips c fuel peer value
        ≡ some (record peer { allowedips = peer.allowedips ++ new }, ok))
      × AllFit new
      × (((value ≡ []) × (new ≡ []) × (ok ≡ true)) ⊎ ((value ≢ []) × Parses c (some value) new ok))
unfolding wgu_parse_allowedips size
wgu_parse_allowedips_lem c fuel peer [] enough =
    ([], true, ground (arith, append-nil peer.allowedips), none_fit, inl (refl, refl, refl))
wgu_parse_allowedips_lem c fuel peer (x ∷ xs) enough =
    let (new, ok, ends, parses, fit) =
      entries_loop_ends c fuel (some (x ∷ xs)) peer.allowedips (omega arith) in
    (new, ok, ground (arith, ends), fit, inr (λ e. absurd (ground arith), parses))

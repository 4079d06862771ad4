-- ===== src/WireGuard/Endpoint.antt =====
-- wgu_parse_endpoint of src/wireguard/wireguard_util.c
use rkt_io.Common.{
  ℕ, zero, suc, ◌+◌, ◌*◌, ◌/◌, ◌%◌, ◌^◌, ◌<◌, Bool, true, false, ◌||◌, leb, Option, some, none,
  List, ◌≡◌, inl, inr, refl, arith, ℕ_discrete, Bool-cases, Option-cases, some_inj, subst,
}
use rkt_io.WireGuard.{Host, resolve_loop, split_endpoint, wgu_parse_endpoint}

-- Whether the waiting time passes the limit within so many calls
abbrev gives_up : ℕ → ℕ → Bool
gives_up zero timeout = false
gives_up (suc n) timeout =
    let longer = timeout * 3 % 2 ^ 32 / 2 in leb 90000000 longer || gives_up n longer

resolve_ends :
    (c : Host) (fuel timeout n : ℕ) (begin end : List ℕ)
    → gives_up fuel timeout ≡ true
    → (r : Option ℕ) × (resolve_loop c fuel timeout n begin end ≡ some r)
      × ((i : ℕ) → r ≡ some i → (c.getaddrinfo i begin end ≡ 0) × (i < n + fuel))
unfolding resolve_loop
resolve_ends c zero timeout n begin end g = absurd (ground arith)
resolve_ends c (suc fuel) timeout n begin end g = elim (ℕ_discrete (c.getaddrinfo n begin end) 0) [
  | yes z ↦ (
    some n,
    ground arith,
    λ i e.
        let same : n ≡ i = some_inj e in
        (subst (λ m. c.getaddrinfo m begin end ≡ 0) same z, omega arith),
  )
  | no z ↦
      elim (Bool-cases
        (c.permanent (c.getaddrinfo n begin end) || leb 90000000 (timeout * 3 % 2 ^ 32 / 2))) [
          | inl stop ↦ (none, ground arith, λ i e. absurd (ground arith))
          | inr on ↦
              let (r, ends, why) =
                resolve_ends c fuel (timeout * 3 % 2 ^ 32 / 2) (n + 1) begin end (ground arith) in
              (
                r,
                ground (arith, ends),
                λ i e. let (answers, early) = why i e in (answers, omega (arith, early)),
              )
        ]
]

-- Whatever the resolver answers, wgu_parse_endpoint ends after at most 12 calls of it; an address in the result is that of the host and the port that stand in the value, after a call that succeeded.
pub wgu_parse_endpoint_lem :
    (c : Host) (value : List ℕ)
    → (r : Option (List ℕ)) × (wgu_parse_endpoint c 12 value ≡ some r)
      × ((address : List ℕ)
          → r ≡ some address
          → (begin end : List ℕ) × (split_endpoint value ≡ some (begin, end))
            × (c.resolved begin end ≡ some address)
            × (i : ℕ) × (i < 12)
            × (c.getaddrinfo i begin end ≡ 0))
unfolding wgu_parse_endpoint
wgu_parse_endpoint_lem c value = elim (Option-cases (split_endpoint value)) [
  | inl e ↦ (none, ground arith, λ a f. absurd (ground arith))
  | inr (parts, e) ↦
      let (answer, ends, why) = resolve_ends c 12 1000000 0 parts.0 parts.1 refl in
      elim (Option-cases answer) [
        | inl f ↦ (none, ground (arith, ends), λ a g. absurd (ground arith))
        | inr (i, f) ↦
            let (answers, early) = why i f in
            (
              c.resolved parts.0 parts.1,
              ground (arith, ends),
              λ a g. (parts.0, parts.1, e, g, i, early, answers),
            )
      ]
]

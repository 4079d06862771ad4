-- ===== src/AppConfig/Sound.antt =====
-- What the callbacks of src/sgx/sgxlkl_app_config.c keep of a configuration
use rkt_io.Common.{
  ℕ, suc, ◌≡◌, refl, ap, ◌⊎◌, inl, inr, Bool, true, false, Bool-cases, Option, some, none, List, [],
  ◌∷◌, ◌++◌, map, length, arith,
}
use rkt_io.Json.{
  Json, null, double, boolean, int, string, array, object, Elements, no_element, element, Members,
  no_member, member, returned, is_null, equal, codes,
}
use rkt_io.Json.Walk.{Keeps, Keeps-if, Keeps-true, Keeps-false}
use rkt_io.Util.{HexResult}
use rkt_io.AppConfig.Config.{Slot, unset, nul, str, Disk, Peer, Config}
use rkt_io.AppConfig.Entry.{
  is_string, get_string, parse_disks, parse_network, network_loop, peers_of, Filled, filled,
  refused, freed_undefined, set_disks, set_peers,
}
use rkt_io.AppConfig.Read.{
  array_length, object_length, args_slots, env_slots, gap, parse_args, parse_env,
  parse_sgxlkl_app_config_entry,
}

-- No arguments, or all of them behind argv[0], in whatever state that is, with a NULL behind
abbrev pub HasArgs : Slot → ℕ → Option (List Slot) → Type 0
HasArgs first argc argv =
    (args : List (List ℕ)) × (argv ≡ some (first ∷ (map str args ++ (nul ∷ []))))
    × (argc ≡ suc (length args))

abbrev pub HasEnv : Option (List Slot) → Type 0
HasEnv envp = (vars : List (List ℕ)) × (n : ℕ) × (envp ≡ some (map str vars ++ gap n))

-- An array that is there has the length that is given.
abbrev pub Sized : {T : Type 0} → ℕ → Option (List T) → Type 0
Sized n none = Unit {0}
Sized n (some ts) = n ≡ length ts

abbrev pub Sound : Config → Type 0
Sound c =
    ((c.argv ≡ none) ⊎ HasArgs unset c.argc c.argv)
    × ((c.envp ≡ none) ⊎ HasEnv c.envp)
    × Sized c.num_disks c.disks
    × Sized c.num_peers c.peers

args_slots-cases :
    (es : Elements)
    → ((args_slots es).1 ≡ true)
      ⊎ ((args : List (List ℕ)) × (args_slots es ≡ (map str args ++ (nul ∷ []), false))
          × (array_length es ≡ length args))
args_slots-cases no_element = inr ([], refl, refl)
args_slots-cases (element v es) = elim (Bool-cases (is_string v)) [
  | inr e ↦ inl (ground (arith, e))
  | inl e ↦ elim (args_slots-cases es) [
    | inl bad ↦ inl (ground (arith, e, bad))
    | inr (args, all, long) ↦
        inr (get_string v ∷ args, ground (arith, e, all), ground (arith, long))
  ]
]

env_slots-HasEnv : (ms : Members) → HasEnv (some (env_slots ms).0)
env_slots-HasEnv no_member = ([], 0, refl)
env_slots-HasEnv (member key v ms) =
    let (vars, n, all) = env_slots-HasEnv ms in
    elim (Bool-cases (is_null v)) [
      | inl e ↦ ([], suc (object_length ms), ground (arith, e))
      | inr e ↦ elim (Bool-cases (is_string v)) [
        | inl s ↦ ((key ++ (b'=' ∷ get_string v)) ∷ vars, n, ground (arith, e, s, all))
        | inr s ↦ ([], suc (object_length ms), ground (arith, e, s))
      ]
    ]

Keeps-unless : (c : Config) (b : Bool) → (b ≡ true) ⊎ Sound c → Keeps Sound (returned c b)
unfolding Keeps
Keeps-unless c true p = _
Keeps-unless c false (inr p) = p
Keeps-unless c false (inl e) = absurd (ground (arith, e))

parse_args-Keeps : (v : Json) (c : Config) → Sound c → Keeps Sound (parse_args v c)
unfolding parse_args Keeps
parse_args-Keeps (array es) c (argv, envp, disks, peers) =
    Keeps-unless
      (record c { argc = suc (array_length es); argv = some (unset ∷ (args_slots es).0) })
      (args_slots es).1
      (elim (args_slots-cases es) [
        | inl bad ↦ inl bad
        | inr (args, all, long) ↦
            inr (inr (args, ap (λ r. some (unset ∷ r.0)) all, ap suc long), envp, disks, peers)
      ])
parse_args-Keeps null c p = _
parse_args-Keeps double c p = _
parse_args-Keeps (boolean b) c p = _
parse_args-Keeps (int n) c p = _
parse_args-Keeps (string t) c p = _
parse_args-Keeps (object ms) c p = _

parse_env-Keeps : (v : Json) (c : Config) → Sound c → Keeps Sound (parse_env v c)
unfolding parse_env Keeps
parse_env-Keeps (object ms) c (argv, envp, disks, peers) =
    Keeps-unless (record c { envp = some (env_slots ms).0 }) (env_slots ms).1
      (inr (argv, inr (env_slots-HasEnv ms), disks, peers))
parse_env-Keeps null c p = _
parse_env-Keeps double c p = _
parse_env-Keeps (boolean b) c p = _
parse_env-Keeps (int n) c p = _
parse_env-Keeps (string t) c p = _
parse_env-Keeps (array es) c p = _

set_disks-Keeps : (c : Config) (ds : Filled Disk) → Sound c → Keeps Sound (set_disks c ds)
unfolding Keeps
set_disks-Keeps c (filled ds) (argv, envp, disks, peers) = (argv, envp, refl, peers)
set_disks-Keeps c refused p = _
set_disks-Keeps c freed_undefined p = _

set_peers-Keeps : (c : Config) (ps : Filled Peer) → Sound c → Keeps Sound (set_peers c ps)
unfolding Keeps
set_peers-Keeps c (filled ps) (argv, envp, disks, peers) = (argv, envp, disks, refl)
set_peers-Keeps c refused p = _
set_peers-Keeps c freed_undefined p = _

parse_disks-Keeps :
    (hex : List ℕ → HexResult) (v : Json) (c : Config) → Sound c → Keeps Sound (parse_disks hex v c)
unfolding parse_disks Keeps
parse_disks-Keeps hex (array es) c p = set_disks-Keeps c _ p
parse_disks-Keeps hex null c p = _
parse_disks-Keeps hex double c p = _
parse_disks-Keeps hex (boolean b) c p = _
parse_disks-Keeps hex (int n) c p = _
parse_disks-Keeps hex (string t) c p = _
parse_disks-Keeps hex (object ms) c p = _

peers_of-Keeps : (v : Json) (c : Config) → Sound c → Keeps Sound (peers_of v c)
unfolding peers_of Keeps
peers_of-Keeps (array es) c p = set_peers-Keeps c _ p
peers_of-Keeps null c p = _
peers_of-Keeps double c p = _
peers_of-Keeps (boolean b) c p = _
peers_of-Keeps (int n) c p = _
peers_of-Keeps (string t) c p = _
peers_of-Keeps (object ms) c p = _

network_loop-Keeps : (ms : Members) (c : Config) → Sound c → Keeps Sound (network_loop ms c)
unfolding network_loop
network_loop-Keeps no_member c p = Keeps-false Sound c p
network_loop-Keeps (member key v ms) c p = Keeps-if Sound _ _ _ (Keeps-false Sound c p) (
    Keeps-if Sound _ _ _ (network_loop-Keeps ms c p)
      (Keeps-if Sound _ _ _ (Keeps-true Sound c) (peers_of-Keeps v c p)))

parse_network-Keeps : (v : Json) (c : Config) → Sound c → Keeps Sound (parse_network v c)
unfolding parse_network Keeps
parse_network-Keeps (object ms) c p = network_loop-Keeps ms c p
parse_network-Keeps null c p = _
parse_network-Keeps double c p = _
parse_network-Keeps (boolean b) c p = _
parse_network-Keeps (int n) c p = _
parse_network-Keeps (string t) c p = _
parse_network-Keeps (array es) c p = _

pub entry-Keeps :
    (hex : List ℕ → HexResult) (key : List ℕ) (v : Json) (c : Config)
    → Sound c
    → Keeps Sound (parse_sgxlkl_app_config_entry hex key v c)
unfolding parse_sgxlkl_app_config_entry
entry-Keeps hex key v c p =
    let none_of = Keeps-true Sound c in
    let set_run = Keeps-false Sound (record c { run = some (get_string v) }) p in
    let set_cwd = Keeps-false Sound (record c { cwd = some (get_string v) }) p in
    let network =
      Keeps-if Sound (equal (codes "network_config") key) _ _ (parse_network-Keeps v c p) none_of in
    let disks =
      Keeps-if Sound (equal (codes "disk_config") key) _ _ (parse_disks-Keeps hex v c p) network in
    let environment =
      Keeps-if Sound (equal (codes "environment") key) _ _ (parse_env-Keeps v c p) disks in
    let args = Keeps-if Sound (equal (codes "args") key) _ _ (parse_args-Keeps v c p) environment in
    let cwd =
      Keeps-if Sound (equal (codes "cwd") key) _ _
        (Keeps-if Sound (is_string v) _ _ set_cwd none_of) args in
    Keeps-if Sound (equal (codes "run") key) _ _ (Keeps-if Sound (is_string v) _ _ set_run none_of)
      cwd

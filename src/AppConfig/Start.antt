-- ===== src/AppConfig/Start.antt =====
-- What parse_sgxlkl_app_config_from_str of src/sgx/sgxlkl_app_config.c leaves for the start of the application
use rkt_io.Common.{
  ℕ, ◌≡◌, refl, ap, subst, ◌⊎◌, inl, inr, Bool, true, false, some_inj, ◌==◌, if◌then◌else◌, Option,
  some, none, List, [], arith,
}
use rkt_io.Json.{
  Json, Reply, returned, undefined, of_reply, of_value, first_character, Parser, Parsed, parse_json,
  parse_json_from_str,
}
use rkt_io.AppConfig.Sound.{HasArgs, HasEnv, Sized, Sound, entry-Keeps}
use rkt_io.Json.Walk.{Keeps, parse_json-Keeps}
use rkt_io.Util.{HexResult}
use rkt_io.AppConfig.Config.{Slot, unset, str, Config, zero_config}
use rkt_io.AppConfig.Read.{
  set_argv0, parse_sgxlkl_app_config_entry, Outcome, accepted, rejected, crashed, complete, finish,
  parse_sgxlkl_app_config_from_str,
}

-- What the start of the application relies on, of a configuration
abbrev pub Startable : Config → Type 0
Startable c =
    (run : List ℕ) × (c.run ≡ some run)
    × HasArgs (str run) c.argc c.argv
    × HasEnv c.envp
    × Sized c.num_disks c.disks
    × Sized c.num_peers c.peers

abbrev Starts : Outcome → Type 0
Starts (accepted c) = Startable c
Starts (rejected c reason) = Unit {0}
Starts crashed = Unit {0}

HasArgs-behind :
    {argc : ℕ} (run : List ℕ) (slots : List Slot)
    → (some slots ≡ none) ⊎ HasArgs unset argc (some slots)
    → HasArgs (str run) argc (some (set_argv0 run slots))
HasArgs-behind run slots (inl e) = absurd (ground (arith, e))
HasArgs-behind run slots (inr (args, e, n)) =
    (args, ap (λ s. some (set_argv0 run s)) (some_inj e), n)

HasEnv-if_some : (vars : List Slot) → (some vars ≡ none) ⊎ HasEnv (some vars) → HasEnv (some vars)
HasEnv-if_some vars (inl e) = absurd (ground (arith, e))
HasEnv-if_some vars (inr p) = p

by_fields :
    (c : Config) (run : Option (List ℕ)) (argv envp : Option (List Slot))
    → Sound (record c { run = run; argv = argv; envp = envp })
    → Starts (complete (record c { run = run; argv = argv; envp = envp }))
by_fields c none argv envp p = _
by_fields c (some run) none none (argv, envp, disks, peers) =
    (run, refl, ([], refl, refl), ([], 0, refl), disks, peers)
by_fields c (some run) none (some vars) (argv, envp, disks, peers) =
    (run, refl, ([], refl, refl), HasEnv-if_some vars envp, disks, peers)
by_fields c (some run) (some slots) none (argv, envp, disks, peers) =
    (run, refl, HasArgs-behind run slots argv, ([], 0, refl), disks, peers)
by_fields c (some run) (some slots) (some vars) (argv, envp, disks, peers) =
    (run, refl, HasArgs-behind run slots argv, HasEnv-if_some vars envp, disks, peers)

complete-Starts : (c : Config) → Sound c → Starts (complete c)
complete-Starts c p = by_fields c c.run c.argv c.envp p

finish-Starts : (r : Reply Config) → Keeps Sound r → Starts (finish (of_reply r))
unfolding Keeps
finish-Starts (returned c false) p = complete-Starts c p
finish-Starts (returned c true) p = _
finish-Starts undefined p = _

value-Starts :
    (hex : List ℕ → HexResult) (value : Option Json)
    → Starts (finish (of_value value (parse_sgxlkl_app_config_entry hex) zero_config))
value-Starts hex none = _
value-Starts hex (some v) =
    finish-Starts (parse_json v (parse_sgxlkl_app_config_entry hex) zero_config) (
      parse_json-Keeps (parse_sgxlkl_app_config_entry hex) (entry-Keeps hex) v zero_config
        (inl refl, inl refl, _, _))

Starts-if :
    (b : Bool) (p q : Parsed Config)
    → Starts (finish p)
    → Starts (finish q)
    → Starts (finish (if b then p else q))
Starts-if true p q h k = h
Starts-if false p q h k = k

-- Whatever the text is, and whatever json-c makes of it: if a configuration is accepted that was zero before, it has an
-- executable, argv is the executable, argc - 1 arguments and a NULL, envp is the environment's strings with a NULL behind,
-- before which there may be elements that were never written, and the arrays of disks and peers have the
-- lengths that are given.
pub parse_sgxlkl_app_config_from_str-Startable :
    (parser : Parser) (hex : List ℕ → HexResult) (text : List ℕ) (c : Config)
    → parse_sgxlkl_app_config_from_str parser hex text zero_config ≡ accepted c
    → Startable c
unfolding parse_sgxlkl_app_config_from_str parse_json_from_str
parse_sgxlkl_app_config_from_str-Startable parser hex text c result = subst Starts result (
    Starts-if (first_character parser.isspace text == b'{') _ _
      (value-Starts hex (parser.parse_verbose text)) _)

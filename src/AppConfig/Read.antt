-- ===== src/AppConfig/Read.antt =====
-- The arguments and the environment, and the whole configuration, of src/sgx/sgxlkl_app_config.c
use rkt_io.Common.{
  ℕ, suc, Bool, true, false, if◌then◌else◌, some, none, List, [], ◌∷◌, ◌++◌, replicate,
}
use rkt_io.Json.{
  Json, array, object, Elements, no_element, element, Members, no_member, member, Reply, returned,
  is_null, Parser, Err, unexpected_character, tokener, no_description, success, failure, crash,
  Parsed, parse_json_from_str, equal, codes,
}
use rkt_io.Util.{HexResult}
use rkt_io.AppConfig.Config.{Slot, unset, nul, str, Config}
use rkt_io.AppConfig.Entry.{is_string, get_string, parse_disks, parse_network}

abbrev pub array_length : Elements → ℕ
array_length no_element = 0
array_length (element v es) = suc (array_length es)

abbrev pub object_length : Members → ℕ
object_length no_member = 0
object_length (member key v ms) = suc (object_length ms)

-- `argv` from 1 on, up to and with the NULL behind the last argument, with whether an element was refused
abbrev pub args_slots : Elements → List Slot × Bool
args_slots no_element = (nul ∷ [], false)
args_slots (element v es) =
    let (slots, bad) = args_slots es in
    if is_string v
    then (str (get_string v) ∷ slots, bad)
    else (replicate (suc (suc (array_length es))) unset, true)

unfoldable pub parse_args : Json → Config → Reply Config
parse_args (array es) config =
    let (slots, bad) = args_slots es in
    returned (record config { argc = suc (array_length es); argv = some (unset ∷ slots) }) bad
parse_args v config = returned config true

abbrev pub gap : ℕ → List Slot
gap n = replicate n unset ++ (nul ∷ [])

-- `envp`, whose NULL is written first
abbrev pub env_slots : Members → List Slot × Bool
env_slots no_member = (nul ∷ [], false)
env_slots (member key v ms) =
    let (slots, bad) = env_slots ms in
    if is_null v
    then (gap (suc (object_length ms)), false)
    else if is_string v
    then (str (key ++ (b'=' ∷ get_string v)) ∷ slots, bad)
    else (gap (suc (object_length ms)), true)

unfoldable pub parse_env : Json → Config → Reply Config
parse_env (object ms) config =
    let (slots, bad) = env_slots ms in returned (record config { envp = some slots }) bad
parse_env v config = returned config true

unfoldable pub parse_sgxlkl_app_config_entry :
    (List ℕ → HexResult) → List ℕ → Json → Config → Reply Config
unfolding parse_args parse_env parse_disks parse_network
parse_sgxlkl_app_config_entry hex key v config =
    if equal (codes "run") key
    then (if is_string v
        then returned (record config { run = some (get_string v) }) false
        else returned config true)
    else if equal (codes "cwd") key
    then (if is_string v
        then returned (record config { cwd = some (get_string v) }) false
        else returned config true)
    else if equal (codes "args") key
    then parse_args v config
    else if equal (codes "environment") key
    then parse_env v config
    else if equal (codes "disk_config") key
    then parse_disks hex v config
    else if equal (codes "network_config") key
    then parse_network v config
    else returned config true

-- `*err` where the result is not 0
pub data Reason : Type 0 where
  described : Err → Reason
  unexpected_format no_executable : Reason

pub data Outcome : Type 0 where
  accepted : Config → Outcome
  rejected : Config → Reason → Outcome
  crashed : Outcome

abbrev pub default_argv : Config → Config
default_argv config = elim config.argv [
  | none ↦ record config { argc = 1; argv = some (unset ∷ nul ∷ []) }
  | some slots ↦ config
]

abbrev pub default_envp : Config → Config
default_envp config = elim config.envp [
  | none ↦ record config { envp = some (nul ∷ []) }
  | some slots ↦ config
]

-- argv[0] = run
abbrev pub set_argv0 : List ℕ → List Slot → List Slot
set_argv0 run [] = []
set_argv0 run (slot ∷ slots) = str run ∷ slots

abbrev pub fix_argv0 : List ℕ → Config → Config
fix_argv0 run config = elim config.argv [
  | none ↦ config
  | some slots ↦ record config { argv = some (set_argv0 run slots) }
]

abbrev pub complete : Config → Outcome
complete config = elim config.run [
  | none ↦ rejected config no_executable
  | some run ↦ accepted (fix_argv0 run (default_envp (default_argv config)))
]

abbrev pub reason_of : Err → Reason
reason_of no_description = unexpected_format
reason_of (unexpected_character c) = described (unexpected_character c)
reason_of tokener = described tokener

abbrev pub finish : Parsed Config → Outcome
finish crash = crashed
finish (failure config e) = rejected config (reason_of e)
finish (success config) = complete config

unfoldable pub parse_sgxlkl_app_config_from_str :
    Parser → (List ℕ → HexResult) → List ℕ → Config → Outcome
unfolding parse_json_from_str parse_sgxlkl_app_config_entry
parse_sgxlkl_app_config_from_str parser hex text config =
    finish (parse_json_from_str parser text (parse_sgxlkl_app_config_entry hex) config)

-- ===== src/Launcher.antt =====
-- src/main/sgxlkl_config.c: the options of the launcher, from a configuration in JSON, the environment and their defaults.
-- The table of options is an argument.
pub mod Walk
pub mod Priority
mod Tests
use rkt_io.Common.{
  ℕ, zero, suc, Bool, true, false, not, ◌||◌, if◌then◌else◌, Option, some, none, ◌>>=◌, List, [],
  ◌∷◌, map, get_elem?, set,
}
use rkt_io.Json.{
  Json, null, double, boolean, int, string, array, object, Members, Reply, returned, Parser, Parsed,
  parse_json_from_str, equal,
}
use rkt_io.Util.{Strtoull, size_str_to_uint64, getenv_uint64, getenv_str, getenv_bool}

pub data OptType : Type 0 where
  type_bool type_uint type_char type_json : OptType

-- `struct sgxlkl_config_elem`; of its unions the member that the type says is used.
pub record Elem : Type 0 where
  pub env_key : List ℕ
  pub json_key : List ℕ
  pub type : OptType
  pub def_char : Option (List ℕ)
  pub def_val : ℕ
  pub def_max : ℕ
  pub def_bool : Bool
  pub configured : Bool
  pub inited : Bool
  pub val_uint : ℕ
  pub val_char : Option (List ℕ)
  pub val_bool : Bool

-- What the code calls: getenv, strtoull, and json_object_to_json_string
pub record Env : Type 0 where
  pub getenv : List ℕ → Option (List ℕ)
  pub strtoull : List ℕ → Strtoull
  pub to_json_string : Json → List ℕ

-- The first element with the key, and what is done to it
unfoldable pub config_elem_by_key : List ℕ → (Elem → Elem) → List Elem → List Elem
config_elem_by_key key f [] = []
config_elem_by_key key f (ce ∷ es) =
    let later = config_elem_by_key key f es in
    if equal ce.json_key key then f ce ∷ es else ce ∷ later

abbrev pub mark : Elem → Elem
mark ce = record ce { inited = true; configured = true }

abbrev pub set_boolean : Env → Bool → Elem → Elem
set_boolean env b ce = elim ce.type [
  | type_bool ↦ mark (record ce { val_bool = getenv_bool env.getenv ce.env_key b })
  | type_uint ↦ ce
  | type_char ↦ ce
  | type_json ↦ ce
]

abbrev pub set_int : Env → ℕ → Elem → Elem
set_int env n ce = elim ce.type [
  | type_bool ↦ ce
  | type_uint ↦
      mark (record ce { val_uint = getenv_uint64 env.strtoull env.getenv ce.env_key n ce.def_max })
  | type_char ↦ ce
  | type_json ↦ ce
]

-- A string may stand for a size.
abbrev pub set_string : Env → List ℕ → Elem → Elem
set_string env s ce = elim ce.type [
  | type_bool ↦ ce
  | type_uint ↦
      let val = size_str_to_uint64 env.strtoull s ce.def_val ce.def_max in
      mark
        (record ce { val_uint = getenv_uint64 env.strtoull env.getenv ce.env_key val ce.def_max })
  | type_char ↦ mark (record ce { val_char = getenv_str env.getenv ce.env_key (some s) })
  | type_json ↦ ce
]

abbrev pub set_object : Env → Json → Elem → Elem
set_object env v ce = elim ce.type [
  | type_bool ↦ ce
  | type_uint ↦ ce
  | type_char ↦ ce
  | type_json ↦
      mark (record ce { val_char = getenv_str env.getenv ce.env_key (some (env.to_json_string v)) })
]

-- A value of another type leaves the value as it is and counts as configured.
unfoldable pub set_entry : Env → Json → Elem → Elem
set_entry env null ce = mark ce
set_entry env double ce = mark ce
set_entry env (array es) ce = mark ce
set_entry env (boolean b) ce = set_boolean env b ce
set_entry env (int n) ce = set_int env n ce
set_entry env (string s) ce = set_string env s ce
set_entry env (object ms) ce = set_object env (object ms) ce

unfoldable pub parse_sgxlkl_config_entry : Env → List ℕ → Json → List Elem → Reply (List Elem)
unfolding config_elem_by_key set_entry
parse_sgxlkl_config_entry env key v table =
    returned (config_elem_by_key key (set_entry env v) table) false

unfoldable pub parse_sgxlkl_config_from_str : Env → Parser → List ℕ → List Elem → Parsed (List Elem)
unfolding parse_json_from_str parse_sgxlkl_config_entry
parse_sgxlkl_config_from_str env parser str table =
    parse_json_from_str parser str (parse_sgxlkl_config_entry env) table

abbrev pub is_some : Option (List ℕ) → Bool
is_some none = false
is_some (some s) = true

-- An option outside the table, or of another type, is a failed assertion: no result.
unfoldable pub sgxlkl_configured : Env → List Elem → ℕ → Option Bool
sgxlkl_configured env table opt = do
  ce ← get_elem? table opt
  some (ce.configured || is_some (env.getenv ce.env_key))

unfoldable pub sgxlkl_config_bool : Env → ℕ → List Elem → Option (Bool × List Elem)
sgxlkl_config_bool env opt table = do
  ce ← get_elem? table opt
  (elim ce.type [
    | type_bool ↦
        let val = getenv_bool env.getenv ce.env_key ce.def_bool in
        if ce.inited
        then some (ce.val_bool, table)
        else some (val, set table opt (record ce { val_bool = val; inited = true }))
    | type_uint ↦ none
    | type_char ↦ none
    | type_json ↦ none
  ])

unfoldable pub sgxlkl_config_uint64 : Env → ℕ → List Elem → Option (ℕ × List Elem)
sgxlkl_config_uint64 env opt table = do
  ce ← get_elem? table opt
  (elim ce.type [
    | type_bool ↦ none
    | type_uint ↦
        let val = getenv_uint64 env.strtoull env.getenv ce.env_key ce.def_val ce.def_max in
        if ce.inited
        then some (ce.val_uint, table)
        else some (val, set table opt (record ce { val_uint = val; inited = true }))
    | type_char ↦ none
    | type_json ↦ none
  ])

unfoldable pub sgxlkl_config_str : Env → ℕ → List Elem → Option (Option (List ℕ) × List Elem)
sgxlkl_config_str env opt table = do
  ce ← get_elem? table opt
  (let val = getenv_str env.getenv ce.env_key ce.def_char in
      let answer =
        if ce.inited
        then some (ce.val_char, table)
        else some (val, set table opt (record ce { val_char = val; inited = true })) in
      elim ce.type [
        | type_bool ↦ none
        | type_uint ↦ none
        | type_char ↦ answer
        | type_json ↦ answer
      ])

-- ===== src/Launcher/Priority.antt =====
-- Where the value of an option of src/main/sgxlkl_config.c comes from
use rkt_io.Common.{ℕ, ◌≡◌, Bool, true, false, if◌then◌else◌, Option, some, ◌>>=◌, List}
use rkt_io.Json.{
  Json, null, double, boolean, int, string, array, object, Members, no_member, member, is_null,
  equal,
}
use rkt_io.Util.{size_str_to_uint64, getenv_uint64, getenv_str, getenv_bool}
use rkt_io.Launcher.{
  Elem, OptType, type_bool, type_uint, type_char, type_json, Env, sgxlkl_config_bool,
  sgxlkl_config_uint64, sgxlkl_config_str,
}

pub data Value : Type 0 where
  truth : Bool → Value
  number : ℕ → Value
  text : Option (List ℕ) → Value

abbrev pub default_value : Elem → Value
default_value ce = elim ce.type [
  | type_bool ↦ truth ce.def_bool
  | type_uint ↦ number ce.def_val
  | type_char ↦ text ce.def_char
  | type_json ↦ text ce.def_char
]

-- What a value of the file is worth to an option: a boolean to a Boolean, an integer or the size that a string stands for to
-- a number, a string or the text of an object to the two others; anything else is passed over.
abbrev pub file_value : Env → Elem → Json → Value → Value
file_value env ce null d = d
file_value env ce double d = d
file_value env ce (array es) d = d
file_value env ce (boolean b) d = elim ce.type [ type_bool ↦ truth b | _ ↦ d ]
file_value env ce (int n) d = elim ce.type [ type_uint ↦ number n | _ ↦ d ]
file_value env ce (string s) d = elim ce.type [
  | type_bool ↦ d
  | type_uint ↦ number (size_str_to_uint64 env.strtoull s ce.def_val ce.def_max)
  | type_char ↦ text (some s)
  | type_json ↦ d
]
file_value env ce (object ms) d = elim ce.type [
  | type_json ↦ text (some (env.to_json_string (object ms)))
  | _ ↦ d
]

-- The last value of an object for the option, up to a null
abbrev pub in_file : Env → Elem → Members → Value → Value
in_file env ce no_member d = d
in_file env ce (member k v ms) d =
    let hit = in_file env ce ms (file_value env ce v d) in
    let miss = in_file env ce ms d in
    if is_null v then d else if equal ce.json_key k then hit else miss

abbrev pub has_known_type : Json → Bool
has_known_type null = true
has_known_type double = false
has_known_type (array es) = false
has_known_type (boolean b) = true
has_known_type (int n) = true
has_known_type (string s) = true
has_known_type (object ms) = true

-- No fraction and no array for the option
abbrev pub AllKnown : List ℕ → Members → Type 0
AllKnown key no_member = Unit {0}
AllKnown key (member k v ms) = (has_known_type v ≡ true) × AllKnown key ms

-- The environment goes before such a value.
abbrev pub with_env : Env → Elem → Value → Value
with_env env ce (truth b) = truth (getenv_bool env.getenv ce.env_key b)
with_env env ce (number n) = number (getenv_uint64 env.strtoull env.getenv ce.env_key n ce.def_max)
with_env env ce (text s) = text (getenv_str env.getenv ce.env_key s)

-- What the function for the option's type returns
abbrev pub ask : Env → OptType → ℕ → List Elem → Option Value
unfolding sgxlkl_config_bool sgxlkl_config_uint64 sgxlkl_config_str
ask env type_bool i table = do r ← sgxlkl_config_bool env i table; some (truth r.0)
ask env type_uint i table = do r ← sgxlkl_config_uint64 env i table; some (number r.0)
ask env type_char i table = do r ← sgxlkl_config_str env i table; some (text r.0)
ask env type_json i table = do r ← sgxlkl_config_str env i table; some (text r.0)

-- What an option holds, or would be set to
abbrev held : Env → Elem → Value
held env ce = elim ce.type [
  | type_bool ↦
      truth (if ce.inited then ce.val_bool else getenv_bool env.getenv ce.env_key ce.def_bool)
  | type_uint ↦ number (
      if ce.inited
      then ce.val_uint
      else getenv_uint64 env.strtoull env.getenv ce.env_key ce.def_val ce.def_max)
  | type_char ↦
      text (if ce.inited then ce.val_char else getenv_str env.getenv ce.env_key ce.def_char)
  | type_json ↦
      text (if ce.inited then ce.val_char else getenv_str env.getenv ce.env_key ce.def_char)
]

-- What no entry changes
abbrev Same : Elem → Elem → Type 0
Same ce de =
    (de.type ≡ ce.type)
    × (de.env_key ≡ ce.env_key)
    × (de.json_key ≡ ce.json_key)
    × (de.def_val ≡ ce.def_val)
    × (de.def_max ≡ ce.def_max)

-- Same options, and what is held comes from the environment, the file and the default in this order
abbrev Settled : Env → Elem → Value → Elem → Type 0
Settled env ce d de = Same ce de × (held env de ≡ with_env env ce d)

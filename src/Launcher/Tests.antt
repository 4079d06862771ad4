-- ===== src/Launcher/Tests.antt =====
-- The theorem on src/main/sgxlkl_config.c at a table of two options.
use rkt_io.Common.{◌≡◌, refl, ◌==◌, true, false, some, none, List, [], ◌∷◌}
use rkt_io.Json.{int, boolean, object, Members, no_member, member, Parser, codes, equal}
use rkt_io.Launcher.{Elem, type_bool, type_uint, Env, sgxlkl_configured}

abbrev verbose : Elem
verbose = record {
  env_key = codes "SGXLKL_VERBOSE";
  json_key = codes "verbose";
  type = type_bool;
  def_char = none;
  def_val = 0;
  def_max = 0;
  def_bool = false;
  configured = false;
  inited = false;
  val_uint = 0;
  val_char = none;
  val_bool = false;
}

abbrev mask4 : Elem
mask4 = record verbose {
  env_key = codes "SGXLKL_MASK4";
  json_key = codes "mask4";
  type = type_uint;
  def_val = 24;
  def_max = 32;
}

abbrev options : List Elem
options = verbose ∷ mask4 ∷ []

-- SGXLKL_VERBOSE is set to 1.
abbrev env : Env
env = record {
  getenv = λ k. elim (equal k (codes "SGXLKL_VERBOSE")) [ true ↦ some (codes "1") | false ↦ none ];
  strtoull = λ s. record { value = 0; erange = false; endptr = s };
  to_json_string = λ v. [];
}

abbrev file : Members
file = member (codes "mask4") (int 40) (member (codes "verbose") (boolean false) no_member)

abbrev parser : Parser
parser = record { isspace = λ c. c == 32; parse_verbose = λ s. some (object file) }

not_in_file : sgxlkl_configured env options 0 ≡ some true
unfolding sgxlkl_configured
not_in_file = refl

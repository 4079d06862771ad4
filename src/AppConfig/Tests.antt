-- ===== src/AppConfig/Tests.antt =====
-- The theorems on src/sgx/sgxlkl_app_config.c at small configurations. A text is a single brace; the parser is given its value.
use rkt_io.Common.{ℕ, ◌≡◌, refl, true, ◌==◌, if◌then◌else◌, some, none, List, [], ◌∷◌, map, arith}
use rkt_io.Json.{
  Json, int, string, array, object, no_element, element, no_member, member, Parser,
  parse_json_from_str, parse_json, foreach, codes,
}
use rkt_io.Util.{HexResult, failed, einval, hex_to_bytes}
use rkt_io.Util.Hex.{read_hex, read_hex-ReadsHex}
use rkt_io.AppConfig.Config.{nul, str, zero_config}
use rkt_io.AppConfig.Read.{
  accepted, parse_sgxlkl_app_config_entry, parse_sgxlkl_app_config_from_str,
}
use rkt_io.AppConfig.Start.{Startable, parse_sgxlkl_app_config_from_str-Startable}
use rkt_io.AppConfig.Written.{DiskText, Text, to_json}
use rkt_io.AppConfig.RoundTrip.{hexed, meant, parse_sgxlkl_app_config_from_str-to_json}
use rkt_io.AppConfig.Retry.{strings_then}

abbrev brace : List ℕ
brace = b'{' ∷ []

-- A parser that knows two texts: a brace, and a space and a brace
abbrev gives : Json → Json → Parser
gives v w = record {
  isspace = λ c. c == 32;
  parse_verbose = λ text. elim text [ [] ↦ none | c ∷ cs ↦ if c == 32 then some w else some v ];
}

abbrev root_disk : DiskText
root_disk = record {
  disk = codes "/";
  key = 0x1f ∷ 0xa0 ∷ [];
  roothash = codes "ff";
  roothash_offset = 4096;
  readonly = true;
}

abbrev odd_disk : DiskText
odd_disk = record root_disk { key = codes "1fa" }

abbrev python : Text
python = record {
  run = codes "/bin/python";
  cwd = codes "/";
  args = codes "-c" ∷ codes "1" ∷ [];
  environment = (codes "HOME", codes "/root") ∷ [];
  disk_config = root_disk ∷ [];
  peers = record { key = codes "k"; allowedips = codes "10.0.0.1/32"; endpoint = codes "h:1" } ∷ [];
}

abbrev hexed_python : Json
hexed_python = to_json (record python { disk_config = map hexed python.disk_config })

abbrev odd_python : Json
odd_python = to_json (record python { disk_config = odd_disk ∷ [] })

abbrev no_hex : List ℕ → HexResult
no_hex s = failed einval

abbrev only_run : Json
only_run = object (member (codes "run") (string (codes "/bin/sh")) no_member)

only_run_accepted :
    parse_sgxlkl_app_config_from_str (gives only_run only_run) no_hex brace zero_config
    ≡ accepted (record zero_config {
      run = some (codes "/bin/sh");
      argc = 1;
      argv = some (str (codes "/bin/sh") ∷ nul ∷ []);
      envp = some (nul ∷ []);
    })
unfolding parse_sgxlkl_app_config_from_str parse_json_from_str parse_json foreach
    parse_sgxlkl_app_config_entry
only_run_accepted = refl

parse_sgxlkl_app_config_from_str-Startable_example : Startable (record zero_config {
  run = some (codes "/bin/sh");
  argc = 1;
  argv = some (str (codes "/bin/sh") ∷ nul ∷ []);
  envp = some (nul ∷ []);
})
parse_sgxlkl_app_config_from_str-Startable_example =
    parse_sgxlkl_app_config_from_str-Startable (gives only_run only_run) no_hex brace _
      only_run_accepted

parse_sgxlkl_app_config_from_str-to_json_example :
    parse_sgxlkl_app_config_from_str
      (gives hexed_python hexed_python)
      (hex_to_bytes read_hex true)
      brace
      zero_config
    ≡ accepted (meant python)
parse_sgxlkl_app_config_from_str-to_json_example =
    parse_sgxlkl_app_config_from_str-to_json (gives hexed_python hexed_python) read_hex brace python
      zero_config read_hex-ReadsHex ((omega arith, (omega arith, _)), _) refl refl

abbrev bad_args : Json
bad_args = object (
    member (codes "args") (array (strings_then (codes "-c" ∷ []) (element (int 1) no_element)))
      no_member)

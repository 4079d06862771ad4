-- ===== src/AppConfig/Retry.antt =====
-- A second configuration after one that src/sgx/sgxlkl_app_config.c has refused
use rkt_io.Common.{
  ℕ, suc, ◌+◌, ◌≡◌, true, false, some, List, [], ◌∷◌, ◌++◌, map, length, replicate, arith,
}
use rkt_io.Json.{
  Json, string, array, object, Elements, element, no_member, member, Parser, first_character,
  parse_json, parse_json_from_str, foreach, codes,
}
use rkt_io.Util.{HexResult}
use rkt_io.AppConfig.Config.{unset, nul, str, Config, zero_config}
use rkt_io.AppConfig.Entry.{is_string}
use rkt_io.AppConfig.Read.{
  array_length, args_slots, parse_args, parse_sgxlkl_app_config_entry, accepted, rejected,
  unexpected_format, parse_sgxlkl_app_config_from_str,
}

-- Strings, and what follows them
abbrev pub strings_then : List (List ℕ) → Elements → Elements
strings_then [] es = es
strings_then (a ∷ args) es = element (string a) (strings_then args es)

array_length-strings_then :
    (args : List (List ℕ)) (es : Elements)
    → array_length (strings_then args es) ≡ length args + array_length es
array_length-strings_then [] es = omega arith
array_length-strings_then (a ∷ args) es = ground (arith, array_length-strings_then args es)

args_slots-strings_then :
    (args : List (List ℕ)) (v : Json) (es : Elements)
    → is_string v ≡ false
    → args_slots (strings_then args (element v es))
      ≡ (map str args ++ replicate (suc (suc (array_length es))) unset, true)
args_slots-strings_then [] v es e = ground (arith, e)
args_slots-strings_then (a ∷ args) v es e = ground (arith, args_slots-strings_then args v es e)

-- The configuration that such arguments leave
abbrev pub left_over : List (List ℕ) → Elements → Config
left_over args es = record zero_config {
  argc = suc (length args + suc (array_length es));
  argv = some (unset ∷ (map str args ++ replicate (suc (suc (array_length es))) unset));
}

-- A text whose only entry is args, with strings and then something else, is refused. Where a text with only an executable
-- follows, it is accepted, and argv has the strings of the text that was refused and behind them, up to argc, where the
-- NULL should be, elements that were never written.
pub parse_sgxlkl_app_config_from_str_again :
    (parser : Parser) (hex : List ℕ → HexResult) (text again : List ℕ) (args : List (List ℕ))
    (v : Json) (es : Elements) (run : List ℕ)
    → is_string v ≡ false
    → first_character parser.isspace text ≡ b'{'
    → first_character parser.isspace again ≡ b'{'
    → parser.parse_verbose text
      ≡ some (object (member (codes "args") (array (strings_then args (element v es))) no_member))
    → parser.parse_verbose again ≡ some (object (member (codes "run") (string run) no_member))
    → (parse_sgxlkl_app_config_from_str parser hex text zero_config
        ≡ rejected (left_over args es) unexpected_format)
      × (parse_sgxlkl_app_config_from_str parser hex again (left_over args es)
          ≡ accepted (record (left_over args es) {
            run = some run;
            argv = some (str run ∷ (map str args ++ replicate (suc (suc (array_length es))) unset));
            envp = some (nul ∷ []);
          }))
unfolding parse_sgxlkl_app_config_from_str parse_json_from_str parse_json foreach
    parse_sgxlkl_app_config_entry parse_args
parse_sgxlkl_app_config_from_str_again parser hex text again args v es run other brace brace_again
      parsed parsed_again =
    let slots = args_slots-strings_then args v es other in
    let long = array_length-strings_then args (element v es) in
    (simp (brace, parsed, slots, long), simp (brace_again, parsed_again))

-- ===== src/AppConfig/RoundTrip.antt =====
-- Written configurations through the whole of src/sgx/sgxlkl_app_config.c, with hex_to_bytes of src/shared/sgxlkl_util.c
use rkt_io.Common.{
  ℕ, suc, ◌%◌, ◌-◌, ◌^◌, ◌≡◌, refl, ◌∙◌, true, false, some, none, List, [], ◌∷◌, ◌++◌, map, length,
  length-map, take,
}
use rkt_io.Json.{
  string, array, object, no_member, member, returned, Parser, first_character, parse_json,
  parse_json_from_str, foreach, codes,
}
use rkt_io.Util.{HexResult, hex_to_bytes}
use rkt_io.Util.Hex.{to_hex, AllBytes, ReadsHex, hex_to_bytes-to_hex}
use rkt_io.AppConfig.Config.{unset, nul, str, Disk, Config}
use rkt_io.AppConfig.Entry.{parse_disks, parse_network, network_loop, peers_of}
use rkt_io.AppConfig.Read.{
  parse_args, parse_env, parse_sgxlkl_app_config_entry, accepted, parse_sgxlkl_app_config_from_str,
}
use rkt_io.AppConfig.Written.{
  DiskText, PeerText, Text, to_json, elements, disk_json, peer_json, environment_json, read_disk,
  read_peer, read_text, variable, args_slots-elements, array_length-elements,
  env_slots-environment_json, fill_loop-disks, fill_loop-peers,
}

-- The state that the entries leave, before argv[0] is set
before_start : (List ℕ → HexResult) → Text → Config
before_start hex t = record (read_text hex t) {
  argv = some (unset ∷ (map str t.args ++ (nul ∷ [])));
}

parse_args-elements :
    (args : List (List ℕ)) (c : Config)
    → parse_args (array (elements string args)) c
      ≡ returned
          (record c {
            argc = suc (length args);
            argv = some (unset ∷ (map str args ++ (nul ∷ [])));
          })
          false
unfolding parse_args
parse_args-elements args c = simp (args_slots-elements args, array_length-elements args)

parse_env-environment_json :
    (vars : List (List ℕ × List ℕ)) (c : Config)
    → parse_env (object (environment_json vars)) c
      ≡ returned (record c { envp = some (map (λ p. str (variable p)) vars ++ (nul ∷ [])) }) false
unfolding parse_env
parse_env-environment_json vars c = simp (env_slots-environment_json vars)

parse_disks-elements :
    (hex : List ℕ → HexResult) (ds : List DiskText) (c : Config)
    → parse_disks hex (array (elements disk_json ds)) c
      ≡ returned (record c { num_disks = length ds; disks = some (map (read_disk hex) ds) }) false
unfolding parse_disks
parse_disks-elements hex ds c = simp (fill_loop-disks hex ds, length-map (read_disk hex) ds)

parse_network-elements :
    (ps : List PeerText) (c : Config)
    → parse_network (object (member (codes "peers") (array (elements peer_json ps)) no_member)) c
      ≡ returned (record c { num_peers = length ps; peers = some (map read_peer ps) }) false
unfolding parse_network network_loop peers_of
parse_network-elements ps c = simp (fill_loop-peers ps, length-map read_peer ps)

parse_json-to_json :
    (hex : List ℕ → HexResult) (t : Text) (c : Config)
    → parse_json (to_json t) (parse_sgxlkl_app_config_entry hex) c
      ≡ returned (before_start hex t) false
unfolding parse_json foreach parse_sgxlkl_app_config_entry before_start
parse_json-to_json hex t c = simp (
  parse_args-elements t.args,
  parse_env-environment_json t.environment,
  parse_disks-elements hex t.disk_config,
  parse_network-elements t.peers,
)

-- Whatever hex_to_bytes gives for the keys
accepted_text :
    (parser : Parser) (hex : List ℕ → HexResult) (text : List ℕ) (t : Text) (c : Config)
    → first_character parser.isspace text ≡ b'{'
    → parser.parse_verbose text ≡ some (to_json t)
    → parse_sgxlkl_app_config_from_str parser hex text c ≡ accepted (read_text hex t)
unfolding parse_sgxlkl_app_config_from_str parse_json_from_str before_start
accepted_text parser hex text t c brace parsed =
    let read = parse_json-to_json hex t c in simp (brace, parsed, read)

abbrev pub AllKeys : List DiskText → Type 0
AllKeys [] = Unit {0}
AllKeys (d ∷ ds) = AllBytes d.key × AllKeys ds

-- A disk whose key is given as bytes, with its key as text
abbrev pub hexed : DiskText → DiskText
hexed d = record d { key = to_hex d.key }

-- The disk that is meant
abbrev pub stored : DiskText → Disk
stored d = record {
  mnt = take 255 d.disk;
  ro = d.readonly;
  enc = true;
  key = some d.key;
  key_len = length d.key;
  roothash = some d.roothash;
  roothash_offset = d.roothash_offset;
}

abbrev pub meant : Text → Config
meant t = record {
  run = some t.run;
  cwd = some t.cwd;
  argc = suc (length t.args);
  argv = some (str t.run ∷ (map str t.args ++ (nul ∷ [])));
  envp = some (map (λ p. str (variable p)) t.environment ++ (nul ∷ []));
  num_disks = length t.disk_config;
  disks = some (map stored t.disk_config);
  num_peers = length t.peers;
  peers = some (map read_peer t.peers);
}

read_disk-hexed :
    (strtoul : List ℕ → ℕ × ℕ)
    → ReadsHex strtoul
    → (ds : List DiskText) → AllKeys ds
    → map (read_disk (hex_to_bytes strtoul true)) (map hexed ds) ≡ map stored ds
read_disk-hexed strtoul reads [] all = refl
read_disk-hexed strtoul reads (d ∷ ds) (key, keys) =
    let back = (hex_to_bytes-to_hex strtoul d.key (0 ∷ []) reads key refl).0 in
    simp (back, read_disk-hexed strtoul reads ds keys)

-- A configuration that is written with all its entries, its keys as hexadecimal digits, is accepted, with the real
-- hex_to_bytes, and read back as it was meant, whatever the configuration held before, such as after a text that was refused.
pub parse_sgxlkl_app_config_from_str-to_json :
    (parser : Parser) (strtoul : List ℕ → ℕ × ℕ) (text : List ℕ) (t : Text) (c : Config)
    → ReadsHex strtoul
    → AllKeys t.disk_config
    → first_character parser.isspace text ≡ b'{'
    → parser.parse_verbose text
      ≡ some (to_json (record t { disk_config = map hexed t.disk_config }))
    → parse_sgxlkl_app_config_from_str parser (hex_to_bytes strtoul true) text c
      ≡ accepted (meant t)
parse_sgxlkl_app_config_from_str-to_json parser strtoul text t c reads keys brace parsed =
    let all =
      accepted_text parser (hex_to_bytes strtoul true) text
        (record t { disk_config = map hexed t.disk_config }) c brace parsed in
    let disks = read_disk-hexed strtoul reads t.disk_config keys in
    let number = length-map hexed t.disk_config in all ∙ simp (disks, number)

-- The disk that is read where the key's text is refused
abbrev pub lost_key : DiskText → Disk
lost_key d = record (stored d) { key = none; key_len = 2 ^ 64 - 1 }

-- A configuration that is written with all its entries and whose first disk has a key with an odd number of digits is
-- accepted; that disk counts as encrypted, without a key and with 2 ^ 64 - 1 as its length.
pub parse_sgxlkl_app_config_from_str_odd_key :
    (parser : Parser) (strtoul : List ℕ → ℕ × ℕ) (text : List ℕ) (t : Text) (d : DiskText)
    (ds : List DiskText) (c : Config)
    → ReadsHex strtoul
    → length d.key % 2 ≡ 1
    → first_character parser.isspace text ≡ b'{'
    → parser.parse_verbose text ≡ some (to_json (record t { disk_config = d ∷ ds }))
    → (others : List Disk) × (parse_sgxlkl_app_config_from_str parser
          (hex_to_bytes strtoul true)
          text
          c
        ≡ accepted
            (record (meant t) { num_disks = suc (length ds); disks = some (lost_key d ∷ others) }))
parse_sgxlkl_app_config_from_str_odd_key parser strtoul text t d ds c reads odd brace parsed =
    let all =
      accepted_text parser (hex_to_bytes strtoul true) text (record t { disk_config = d ∷ ds }) c
        brace parsed in
    let refused = (hex_to_bytes-to_hex strtoul [] d.key reads _ odd).1 in
    (map (read_disk (hex_to_bytes strtoul true)) ds, all ∙ simp (refused))

-- ===== src/AppConfig/Written.antt =====
-- A configuration that is written as JSON, and what src/sgx/sgxlkl_app_config.c reads of it
use rkt_io.Common.{
  ℕ, suc, ◌≡◌, refl, ap, Bool, false, some, List, [], ◌∷◌, ◌++◌, map, length, take, arith,
}
use rkt_io.Json.{
  Json, boolean, int, string, array, object, Elements, no_element, element, Members, no_member,
  member, returned, parse_json, foreach, codes,
}
use rkt_io.Util.{HexResult}
use rkt_io.AppConfig.Config.{nul, str, Disk, Peer, Config, zero_disk, zero_peer}
use rkt_io.AppConfig.Entry.{
  parse_enclave_disk_config_entry, parse_enclave_wg_peer_config_entry, set_key, fill_loop, filled,
}
use rkt_io.AppConfig.Read.{array_length, args_slots, env_slots}

-- The values of a disk's entry, with the text of its key
pub record DiskText : Type 0 where
  pub disk : List ℕ
  pub key : List ℕ
  pub roothash : List ℕ
  pub roothash_offset : ℕ
  pub readonly : Bool

pub record PeerText : Type 0 where
  pub key : List ℕ
  pub allowedips : List ℕ
  pub endpoint : List ℕ

-- The values of a configuration; the environment by names and values
pub record Text : Type 0 where
  pub run : List ℕ
  pub cwd : List ℕ
  pub args : List (List ℕ)
  pub environment : List (List ℕ × List ℕ)
  pub disk_config : List DiskText
  pub peers : List PeerText

abbrev pub disk_json : DiskText → Json
disk_json d = object (
    member (codes "disk") (string d.disk) (
      member (codes "key") (string d.key) (
        member (codes "roothash") (string d.roothash) (
          member (codes "roothash_offset") (int d.roothash_offset)
            (member (codes "readonly") (boolean d.readonly) no_member)))))

abbrev pub peer_json : PeerText → Json
peer_json p = object (
    member (codes "key") (string p.key) (
      member (codes "allowedips") (string p.allowedips)
        (member (codes "endpoint") (string p.endpoint) no_member)))

abbrev pub elements : {T : Type 0} → (T → Json) → List T → Elements
elements write [] = no_element
elements write (t ∷ ts) = element (write t) (elements write ts)

abbrev pub environment_json : List (List ℕ × List ℕ) → Members
environment_json [] = no_member
environment_json ((name, value) ∷ vars) = member name (string value) (environment_json vars)

abbrev pub to_json : Text → Json
to_json t = object (
    member (codes "run") (string t.run) (
      member (codes "cwd") (string t.cwd) (
        member (codes "args") (array (elements string t.args)) (
          member (codes "environment") (object (environment_json t.environment)) (
            member (codes "disk_config") (array (elements disk_json t.disk_config)) (
              member (codes "network_config")
                (object (member (codes "peers") (array (elements peer_json t.peers)) no_member))
                no_member))))))

-- What is read: a mount point is cut at 255 bytes, a variable is its name, an equals sign and its value.
abbrev pub read_disk : (List ℕ → HexResult) → DiskText → Disk
read_disk hex d = record (set_key (hex d.key) (record zero_disk { mnt = take 255 d.disk })) {
  roothash = some d.roothash;
  roothash_offset = d.roothash_offset;
  ro = d.readonly;
}

abbrev pub read_peer : PeerText → Peer
read_peer p = record {
  key = some p.key;
  allowed_ips = some p.allowedips;
  endpoint = some p.endpoint;
}

abbrev pub variable : List ℕ × List ℕ → List ℕ
variable (name, value) = name ++ (b'=' ∷ value)

abbrev pub read_text : (List ℕ → HexResult) → Text → Config
read_text hex t = record {
  run = some t.run;
  cwd = some t.cwd;
  argc = suc (length t.args);
  argv = some (str t.run ∷ (map str t.args ++ (nul ∷ [])));
  envp = some (map (λ p. str (variable p)) t.environment ++ (nul ∷ []));
  num_disks = length t.disk_config;
  disks = some (map (read_disk hex) t.disk_config);
  num_peers = length t.peers;
  peers = some (map read_peer t.peers);
}

pub args_slots-elements :
    (args : List (List ℕ)) → args_slots (elements string args) ≡ (map str args ++ (nul ∷ []), false)
args_slots-elements [] = refl
args_slots-elements (a ∷ args) = ground (arith, args_slots-elements args)

pub array_length-elements :
    (args : List (List ℕ)) → array_length (elements string args) ≡ length args
array_length-elements [] = refl
array_length-elements (a ∷ args) = ap suc (array_length-elements args)

pub env_slots-environment_json :
    (vars : List (List ℕ × List ℕ))
    → env_slots (environment_json vars) ≡ (map (λ p. str (variable p)) vars ++ (nul ∷ []), false)
env_slots-environment_json [] = refl
env_slots-environment_json ((name, value) ∷ vars) = ground (arith, env_slots-environment_json vars)

parse_json-disk_json :
    (hex : List ℕ → HexResult) (d : DiskText)
    → parse_json (disk_json d) (parse_enclave_disk_config_entry hex) zero_disk
      ≡ returned (read_disk hex d) false
unfolding parse_json foreach parse_enclave_disk_config_entry
parse_json-disk_json hex d = refl

parse_json-peer_json :
    (p : PeerText)
    → parse_json (peer_json p) parse_enclave_wg_peer_config_entry zero_peer
      ≡ returned (read_peer p) false
unfolding parse_json foreach parse_enclave_wg_peer_config_entry
parse_json-peer_json p = refl

pub fill_loop-disks :
    (hex : List ℕ → HexResult) (ds : List DiskText)
    → fill_loop (parse_enclave_disk_config_entry hex) zero_disk (elements disk_json ds)
      ≡ filled (map (read_disk hex) ds)
unfolding fill_loop
fill_loop-disks hex [] = refl
fill_loop-disks hex (d ∷ ds) = simp (parse_json-disk_json hex d, fill_loop-disks hex ds)

pub fill_loop-peers :
    (ps : List PeerText)
    → fill_loop parse_enclave_wg_peer_config_entry zero_peer (elements peer_json ps)
      ≡ filled (map read_peer ps)
unfolding fill_loop
fill_loop-peers [] = refl
fill_loop-peers (p ∷ ps) = simp (parse_json-peer_json p, fill_loop-peers ps)

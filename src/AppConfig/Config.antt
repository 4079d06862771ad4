-- ===== src/AppConfig/Config.antt =====
-- The structs of src/include/sgxlkl_app_config.h and the entries of src/include/sgx_enclave_config.h that the user's
-- configuration sets
use rkt_io.Common.{ℕ, Bool, false, Option, none, List, []}

-- An element of an array of strings: not written since malloc, NULL, or a string
pub data Slot : Type 0 where
  unset nul : Slot
  str : List ℕ → Slot

-- `enclave_disk_config_t`, the fields that the user provides
pub record Disk : Type 0 where
  pub mnt : List ℕ
  pub ro : Bool
  pub enc : Bool
  pub key : Option (List ℕ)
  pub key_len : ℕ
  pub roothash : Option (List ℕ)
  pub roothash_offset : ℕ

-- `enclave_wg_peer_config_t`
pub record Peer : Type 0 where
  pub key : Option (List ℕ)
  pub allowed_ips : Option (List ℕ)
  pub endpoint : Option (List ℕ)

-- `sgxlkl_app_config_t`; a pointer that is NULL is `none`.
pub record Config : Type 0 where
  pub run : Option (List ℕ)
  pub cwd : Option (List ℕ)
  pub argc : ℕ
  pub argv : Option (List Slot)
  pub envp : Option (List Slot)
  pub num_disks : ℕ
  pub disks : Option (List Disk)
  pub num_peers : ℕ
  pub peers : Option (List Peer)

-- What memset with 0 leaves
abbrev pub zero_disk : Disk
zero_disk = record {
  mnt = [];
  ro = false;
  enc = false;
  key = none;
  key_len = 0;
  roothash = none;
  roothash_offset = 0;
}

abbrev pub zero_peer : Peer
zero_peer = record { key = none; allowed_ips = none; endpoint = none }

abbrev pub zero_config : Config
zero_config = record {
  run = none;
  cwd = none;
  argc = 0;
  argv = none;
  envp = none;
  num_disks = 0;
  disks = none;
  num_peers = 0;
  peers = none;
}

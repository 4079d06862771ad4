-- ===== src/AppConfig/Entry.antt =====
-- The callbacks of src/sgx/sgxlkl_app_config.c, one for each kind of entry
use rkt_io.Common.{
  ℕ, ◌-◌, ◌^◌, Bool, true, false, not, ◌||◌, if◌then◌else◌, some, List, [], ◌∷◌, length, take,
}
use rkt_io.Json.{
  Json, string, boolean, int, array, object, Elements, no_element, element, Members, no_member,
  member, Reply, returned, undefined, kind_string, kind_boolean, kind_int, kind_array, get_type,
  is_null, parse_json, equal, codes,
}
use rkt_io.Util.{HexResult, bytes, failed}
use rkt_io.AppConfig.Config.{Disk, Peer, Config, zero_disk, zero_peer}

abbrev pub is_string : Json → Bool
is_string v = elim (get_type v) [ kind_string ↦ true | _ ↦ false ]

abbrev pub is_boolean : Json → Bool
is_boolean v = elim (get_type v) [ kind_boolean ↦ true | _ ↦ false ]

abbrev pub is_int : Json → Bool
is_int v = elim (get_type v) [ kind_int ↦ true | _ ↦ false ]

abbrev pub is_array : Json → Bool
is_array v = elim (get_type v) [ kind_array ↦ true | _ ↦ false ]

abbrev pub one_of : List (List ℕ) → List ℕ → Bool
one_of [] key = false
one_of (k ∷ ks) key = equal k key || one_of ks key

abbrev pub string_keys : List (List ℕ)
string_keys =
    codes "run"
    ∷ codes "cwd"
    ∷ codes "disk"
    ∷ codes "key"
    ∷ codes "roothash"
    ∷ codes "allowedips"
    ∷ codes "endpoint"
    ∷ []

abbrev pub bool_keys : List (List ℕ)
bool_keys = codes "readonly" ∷ []

abbrev pub int_keys : List (List ℕ)
int_keys = codes "roothash_offset" ∷ []

abbrev pub array_keys : List (List ℕ)
array_keys = codes "disk_config" ∷ codes "peers" ∷ []

-- Whether the type is wrong: what the last list that has the key says
abbrev pub assert_entry_type : List ℕ → Json → Bool
assert_entry_type key v =
    if one_of array_keys key
    then not (is_array v)
    else if one_of int_keys key
    then not (is_int v)
    else if one_of bool_keys key
    then not (is_boolean v)
    else if one_of string_keys key
    then not (is_string v)
    else false

-- json_object_get_string, json_object_get_int64 as an unsigned number and json_object_get_boolean, where the type
-- fits
abbrev pub get_string : Json → List ℕ
get_string (string s) = s
get_string v = []

abbrev pub get_int64 : Json → ℕ
get_int64 (int n) = n
get_int64 v = 0

abbrev pub get_boolean : Json → Bool
get_boolean (boolean b) = b
get_boolean v = false

abbrev pub disk_mnt_max_path_len : ℕ
disk_mnt_max_path_len = 255

-- key_len is a size_t, so the test for a negative number never holds.
abbrev pub set_key : HexResult → Disk → Disk
set_key (bytes bs) disk = record disk { key = some bs; key_len = length bs; enc = true }
set_key (failed e) disk = record disk { key_len = 2 ^ 64 - 1; enc = true }

unfoldable pub parse_enclave_disk_config_entry :
    (List ℕ → HexResult) → List ℕ → Json → Disk → Reply Disk
parse_enclave_disk_config_entry hex key v disk =
    if assert_entry_type key v
    then returned disk true
    else if equal (codes "disk") key
    then returned (record disk { mnt = take disk_mnt_max_path_len (get_string v) }) false
    else if equal (codes "key") key
    then returned (set_key (hex (get_string v)) disk) false
    else if equal (codes "roothash") key
    then returned (record disk { roothash = some (get_string v) }) false
    else if equal (codes "roothash_offset") key
    then returned (record disk { roothash_offset = get_int64 v }) false
    else if equal (codes "readonly") key
    then returned (record disk { ro = get_boolean v }) false
    else returned disk true

unfoldable pub parse_enclave_wg_peer_config_entry : List ℕ → Json → Peer → Reply Peer
parse_enclave_wg_peer_config_entry key v peer =
    if assert_entry_type key v
    then returned peer true
    else if equal (codes "key") key
    then returned (record peer { key = some (get_string v) }) false
    else if equal (codes "allowedips") key
    then returned (record peer { allowed_ips = some (get_string v) }) false
    else if equal (codes "endpoint") key
    then returned (record peer { endpoint = some (get_string v) }) false
    else returned peer true

-- An array of structs, each read from the object at its place: the array, a refusal, after which it is freed, or
-- undefined
pub data Filled (T : Type 0) : Type 0 where
  filled : List T → Filled T
  refused freed_undefined : Filled T

abbrev pub fill : {T : Type 0} → Reply T → Filled T → Filled T
fill (returned t false) (filled ts) = filled (t ∷ ts)
fill (returned t false) refused = refused
fill (returned t false) freed_undefined = freed_undefined
fill (returned t true) rest = refused
fill undefined rest = freed_undefined

unfoldable pub fill_loop : {T : Type 0} → (List ℕ → Json → T → Reply T) → T → Elements → Filled T
fill_loop cb start no_element = filled []
fill_loop cb start (element v es) = fill (parse_json v cb start) (fill_loop cb start es)

abbrev pub set_disks : Config → Filled Disk → Reply Config
set_disks config (filled ds) =
    returned (record config { num_disks = length ds; disks = some ds }) false
set_disks config refused = returned config true
set_disks config freed_undefined = undefined

unfoldable pub parse_disks : (List ℕ → HexResult) → Json → Config → Reply Config
unfolding fill_loop
parse_disks hex (array es) config =
    set_disks config (fill_loop (parse_enclave_disk_config_entry hex) zero_disk es)
parse_disks hex v config = returned config true

abbrev pub set_peers : Config → Filled Peer → Reply Config
set_peers config (filled ps) =
    returned (record config { num_peers = length ps; peers = some ps }) false
set_peers config refused = returned config true
set_peers config freed_undefined = undefined

unfoldable pub peers_of : Json → Config → Reply Config
unfolding fill_loop
peers_of (array es) config =
    set_peers config (fill_loop parse_enclave_wg_peer_config_entry zero_peer es)
peers_of v config = returned config true

-- The first entry `peers`, if no null stands before it
unfoldable pub network_loop : Members → Config → Reply Config
unfolding peers_of
network_loop no_member config = returned config false
network_loop (member key v ms) config =
    let later = network_loop ms config in
    if is_null v
    then returned config false
    else if not (equal key (codes "peers"))
    then later
    else if assert_entry_type key v
    then returned config true
    else peers_of v config

unfoldable pub parse_network : Json → Config → Reply Config
unfolding network_loop
parse_network (object ms) config = network_loop ms config
parse_network v config = returned config true

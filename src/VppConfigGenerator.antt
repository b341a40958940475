-- ===== src/VppConfigGenerator.antt =====
-- resources/libraries/python/VppConfigGenerator.py: the startup configuration of VPP, its tree, its text,
-- and the generator that writes it. The command on the node is a parameter.
pub mod Settings
pub mod Methods
pub mod Paths
pub mod Outline
pub mod Lined
pub mod Reading
pub mod Commands
pub mod Devices
mod Tests
use csit.Base.{
  ℕ, zero, suc, ◌+◌, ◌-◌, leb, ◌==◌, Bool, true, false, ◌&&◌, ◌||◌, not, Option, none, some, List,
  [], ◌∷◌, ◌++◌, if◌then◌else◌,
}
use csit.Base.Int.{ℤ, show_int}
use csit.Base.Text.{Text, codes, text_eq, join}
use csit.Base.Result.{Result, ok, raise, ◌>>=◌, index_error, type_error, value_error, runtime_error}
use csit.Topology.{Node}

-- A value of the nested dictionary, and the dictionary itself, in insertion order.
mutual
  pub data Item : Type 0 where
    null : Item
    text : Text → Item
    number : ℤ → Item
    listed : List Text → Item
    section : Config → Item

  pub data Config : Type 0 where
    empty : Config
    entry : Text → Item → Config → Config

-- `config[key]`
unfoldable pub find : Text → Config → Option Item
find key empty = none
find key (entry k item rest) = if text_eq k key then some item else find key rest

-- `config[key] = item`
unfoldable pub assign : Text → Item → Config → Config
assign key item empty = entry key item empty
assign key item (entry k old rest) =
    let later = assign key item rest in
    if text_eq k key then entry key item rest else entry k old later

-- The dictionary below a key: a new one for no value, a text turned into a key. What is neither a text
-- nor a dictionary takes no items.
abbrev pub below : Option Item → Result Config
below none = ok empty
below (some null) = raise type_error
below (some (text [])) = ok empty
below (some (text (c ∷ s))) = ok (entry (c ∷ s) (text []) empty)
below (some (number n)) = raise type_error
below (some (listed values)) = raise type_error
below (some (section config)) = ok config

unfoldable pub add_config_item : Config → Item → List Text → Result Config
add_config_item config value [] = raise index_error
add_config_item config value (key ∷ []) = ok (assign key value config)
add_config_item config value (key ∷ next ∷ path) = do
  inner ← below (find key config)
  changed ← add_config_item inner value (next ∷ path)
  ok (assign key (section changed) config)

-- `level * indent`
abbrev pub indent : ℕ → Text
indent zero = []
indent (suc level) = 32 ∷ 32 ∷ indent level

abbrev pub line : ℕ → Text → Text
line depth s = indent depth ++ s ++ 10 ∷ []

-- The braces around what `dump_config` writes at a depth, which is one more than its level.
abbrev pub braced : ℕ → Text → Text
braced zero body = body
braced (suc level) body = line level (codes "{") ++ body ++ line level (codes "}")

abbrev pub values_text : ℕ → List Text → Text
values_text depth [] = []
values_text depth (value ∷ values) = line depth value ++ values_text depth values

-- What `dump_config` appends for one item, and for all items of a dictionary.
unfoldable mutual
  pub dump_item : Text → Item → ℕ → Text
  dump_item key null depth = line depth (key ++ 32 ∷ codes "None")
  dump_item key (text s) depth = line depth (key ++ 32 ∷ s)
  dump_item key (number n) depth = line depth (key ++ 32 ∷ show_int n)
  dump_item key (listed values) depth =
      line depth key ++ braced (suc depth) (values_text (suc depth) values)
  dump_item key (section config) depth =
      line depth key ++ braced (suc depth) (dump_items config (suc depth))

  pub dump_items : Config → ℕ → Text
  dump_items empty depth = []
  dump_items (entry key item rest) depth = dump_item key item depth ++ dump_items rest depth

unfoldable pub dump_config : Config → Text
dump_config config = braced 0 (dump_items config 0)

abbrev pub is_hex : ℕ → Bool
is_hex c = (leb 48 c && leb c 57) || (leb 65 c && leb c 70) || (leb 97 c && leb c 102)

-- What a character of an address has to be: a digit, or a given character.
abbrev pub fits : List (Option ℕ) → Text → Bool
fits [] [] = true
fits [] (c ∷ s) = c == 10 && text_eq s []
fits (p ∷ ps) [] = false
fits (none ∷ ps) (c ∷ s) = is_hex c && fits ps s
fits (some d ∷ ps) (c ∷ s) = c == d && fits ps s

abbrev pub pci_pattern : List (Option ℕ)
pci_pattern =
    none ∷ none ∷ none ∷ none ∷ some 58 ∷ none ∷ none ∷ some 58 ∷ none ∷ none ∷ some 46 ∷ none ∷ []

-- The end `$` of the pattern also comes before a line feed that is the last character.
unfoldable pub pci_dev_check : Text → Result (Unit {0})
pci_dev_check pci_dev = if fits pci_pattern pci_dev then ok tt else raise value_error

-- The attributes; before `set_node` the node is a text, which has no keys.
pub record VppConfigGenerator : Type 0 where
  pub node : Option Node
  pub node_key : Option Text
  pub nodeconfig : Config
  pub vpp_config : Text
  pub vpp_service_name : Text
  pub vpp_logfile : Text
  pub vpp_startup_conf : Text
  pub vpp_startup_conf_backup : Option Text

unfoldable pub init : VppConfigGenerator
init = record {
  node = none;
  node_key = some [];
  nodeconfig = empty;
  vpp_config = [];
  vpp_service_name = codes "vpp";
  vpp_logfile = codes "/tmp/vpe.log";
  vpp_startup_conf = codes "/etc/vpp/startup.conf";
  vpp_startup_conf_backup = none;
}

-- The generator that a method leaves, and how the method ends.
abbrev pub Outcome : Type 0
Outcome = VppConfigGenerator × Result (Unit {0})

unfoldable pub set_node : VppConfigGenerator → Node → Option Text → Outcome
set_node self node node_key =
    if text_eq node.kind (codes "DUT")
    then (record self { node = some node; node_key = node_key }, ok tt)
    else (self, raise runtime_error)

unfoldable pub set_vpp_logfile : VppConfigGenerator → Text → VppConfigGenerator
set_vpp_logfile self logfile = record self { vpp_logfile = logfile }

unfoldable pub set_vpp_startup_conf_backup : VppConfigGenerator → Option Text → VppConfigGenerator
set_vpp_startup_conf_backup self backup = record self { vpp_startup_conf_backup = backup }

-- `self.dump_config(self._nodeconfig)`
abbrev pub dumped : VppConfigGenerator → VppConfigGenerator
dumped self = record self { vpp_config = self.vpp_config ++ dump_config self.nodeconfig }

unfoldable pub get_config_str : VppConfigGenerator → VppConfigGenerator × Text
get_config_str self = (dumped self, (dumped self).vpp_config)

-- ===== src/VppConfigGenerator/Tests.antt =====
-- A startup configuration built by the generator's methods, its text, and the theorems there.
use csit.Base.{true, none, some, List, [], ◌∷◌, ◌++◌, ◌≡◌, refl}
use csit.Base.Int.{pos, show_int}
use csit.Base.Text.{Text, codes, text_eq, join}
use csit.Base.Text.Words.{split}
use csit.Base.Result.{Result, ok, raise, value_error, type_error, runtime_error, index_error}
use csit.Topology.{Node}
use csit.VppConfigGenerator.{
  text, number, listed, section, Config, empty, entry, find, assign, add_config_item, dump_item,
  dump_config, pci_dev_check, VppConfigGenerator, Outcome, init, set_node, set_vpp_logfile,
  set_vpp_startup_conf_backup, get_config_str,
}
use csit.VppConfigGenerator.Settings.{add_unix_nodaemon, add_cpu_main_core, add_unix_gid}
use csit.VppConfigGenerator.Methods.{
  add_unix_log, add_graph_node_variant, add_dpdk_dev, add_dpdk_dev_parameter, add_dpdk_uio_driver,
  sub_end, add_dpdk_cryptodev, add_dpdk_sw_cryptodev, add_dpdk_eth_bond_dev, add_plugin, add_nat,
  and_next,
}
use csit.VppConfigGenerator.Commands.{
  Event, sudo_command, command, restart_vpp_service, write_config, apply_config, restore_config,
  plan, run_until_raised, apply_config-plan,
}
use csit.VppConfigGenerator.Paths.{Added, add_config_item-Added}
use csit.VppConfigGenerator.Outline.{read_config, outline, append}
use csit.VppConfigGenerator.Lined.{IsPrintable}
use csit.VppConfigGenerator.Reading.{read_config-dump_config}
use csit.VppConfigGenerator.Devices.{add_dpdk_dev-stops, get_config_str-twice}

program : Unit {0}
unfolding find assign add_config_item dump_item dump_config pci_dev_check init set_node
    set_vpp_logfile set_vpp_startup_conf_backup get_config_str add_unix_nodaemon add_cpu_main_core
    add_unix_gid add_unix_log add_graph_node_variant add_dpdk_dev add_dpdk_dev_parameter
    add_dpdk_uio_driver sub_end add_dpdk_cryptodev add_dpdk_sw_cryptodev add_dpdk_eth_bond_dev
    add_plugin add_nat write_config apply_config restore_config text_eq join
program = tt

abbrev pci_0 : Text
pci_0 = codes "0000:18:00.0"

abbrev pci_1 : Text
pci_1 = codes "0000:18:00.1"

abbrev dut_1 : Node
dut_1 = record {
  host = codes "10.0.0.1";
  kind = codes "DUT";
  arch = none;
  cpuinfo = none;
  cryptodev = some (codes "0000:3d:00.0");
  uio_driver = none;
  sockets = none;
  interfaces = [];
}

-- Some calls in a row, as a suite's setup makes them.
set_up : Outcome
unfolding program
set_up = and_next (add_unix_nodaemon init) (λ a. and_next (add_unix_log a none) (λ b.
    and_next (add_dpdk_dev b (pci_0 ∷ pci_1 ∷ [])) (λ c.
      and_next (add_dpdk_dev_parameter c pci_0 (codes "num-rx-queues") (number (pos 2))) (λ d.
        and_next (add_plugin d (codes "disable") (codes "default" ∷ []))
          (λ e. add_cpu_main_core e (text (codes "1")))))))

abbrev expected : List Text
expected =
    codes "unix"
    ∷ codes "{"
    ∷ codes "  nodaemon "
    ∷ codes "  log /tmp/vpe.log"
    ∷ codes "}"
    ∷ codes "dpdk"
    ∷ codes "{"
    ∷ codes "  dev 0000:18:00.0"
    ∷ codes "  {"
    ∷ codes "    num-rx-queues 2"
    ∷ codes "  }"
    ∷ codes "  dev 0000:18:00.1 "
    ∷ codes "}"
    ∷ codes "plugins"
    ∷ codes "{"
    ∷ codes "  plugin default"
    ∷ codes "  {"
    ∷ codes "    disable  "
    ∷ codes "  }"
    ∷ codes "}"
    ∷ codes "cpu"
    ∷ codes "{"
    ∷ codes "  main-core 1"
    ∷ codes "}"
    ∷ []
    ∷ []

set_up_text : (set_up.1 ≡ ok tt) × ((get_config_str set_up.0).1 ≡ join (codes "\n") expected)
unfolding program set_up show_int
set_up_text = (refl, refl)

checks :
    (pci_dev_check (codes "0000:18:00.g") ≡ raise value_error)
    × (pci_dev_check (codes "0000:18:00.0\n") ≡ ok tt)
    × (pci_dev_check (codes "0000:18:00.00") ≡ raise value_error)
unfolding program
checks = (refl, refl, refl)

-- No comma stands between the mode and the first slave.
bond :
    (add_dpdk_eth_bond_dev init
      (codes "0")
      (codes "1")
      (codes "l34")
      (pci_0 ∷ pci_1 ∷ [])).0.nodeconfig
    ≡ entry
        (codes "dpdk")
        (section (
          entry
            (codes "vdev eth_bond0,mode=1slave=0000:18:00.0,slave=0000:18:00.1,xmit_policy=l34")
            (text [])
            empty))
        empty
unfolding program
bond = refl

other_methods :
    ((set_node init (record dut_1 { kind = codes "TG" }) none).1 ≡ raise runtime_error)
    × ((add_dpdk_uio_driver init none).1 ≡ raise type_error)
    × ((add_graph_node_variant init (codes "abc")).1 ≡ raise value_error)
    × (add_graph_node_variant init [] ≡ (init, ok tt))
    × (sub_end (codes "1.7") (codes "0000:3d:00.0") ≡ codes "0000:3d:01.7")
    × (add_config_item empty (text []) [] ≡ raise index_error)
    × ((add_dpdk_cryptodev (set_node init dut_1 none).0 2).1 ≡ ok tt)
    × ((add_dpdk_sw_cryptodev init (codes "aesni_mb") (codes "0") 2).1 ≡ ok tt)
    × ((add_nat init none).1 ≡ ok tt)
    × (add_config_item
          (entry (codes "a") (number (pos 1)) empty)
          (text [])
          (codes "a" ∷ codes "b" ∷ [])
        ≡ raise type_error)
unfolding program
other_methods = (refl, refl, refl, refl, refl, refl, refl, refl, refl, refl)

-- A text becomes a key of the dictionary that takes its place.
abbrev one_log : Config
one_log = entry (codes "unix") (text (codes "log")) empty

text_to_key :
    add_config_item one_log (text (codes "vpp")) (codes "unix" ∷ codes "gid" ∷ [])
    ≡ ok (
        entry
          (codes "unix")
          (section (entry (codes "log") (text []) (entry (codes "gid") (text (codes "vpp")) empty)))
          empty)
unfolding program
text_to_key = refl

add_config_item-Added_example :
    (changed : Config) × (add_config_item one_log
        (text (codes "vpp"))
        (codes "unix" ∷ codes "gid" ∷ [])
      ≡ ok changed)
    × Added one_log (text (codes "vpp")) (codes "unix" ∷ codes "gid" ∷ []) changed
add_config_item-Added_example =
    add_config_item-Added one_log (text (codes "vpp")) (codes "unix") (codes "gid" ∷ []) (tt, tt) tt

-- A configuration with a number, a list and a section.
abbrev mixed : Config
mixed =
    entry (codes "cpu")
      (section (
        entry (codes "main-core") (number (pos 1))
          (entry (codes "skip") (listed (codes "2" ∷ codes "3" ∷ [])) empty)))
      (entry (codes "heap") (text (codes "2G")) empty)

mixed-IsPrintable : IsPrintable mixed
unfolding text_eq
mixed-IsPrintable = (
  (refl, refl, refl, refl),
  (
    (refl, refl, refl, refl),
    tt,
    ((refl, refl, refl, refl), ((refl, refl, refl, refl), ((refl, refl, refl, refl), tt)), tt),
  ),
  ((refl, refl, refl, refl), refl, tt),
)

read_config-dump_config_example : read_config (split 10 (dump_config mixed)) ≡ some (outline mixed)
read_config-dump_config_example = read_config-dump_config mixed mixed-IsPrintable

get_config_str-twice_example :
    read_config
      (split 10 (get_config_str (get_config_str (record init { nodeconfig = mixed })).0).1)
    ≡ some (append (outline mixed) (outline mixed))
unfolding init
get_config_str-twice_example =
    get_config_str-twice (record init { nodeconfig = mixed }) refl mixed-IsPrintable

add_dpdk_dev-stops_example :
    add_dpdk_dev init ((pci_0 ∷ []) ++ codes "18:00.1" ∷ pci_1 ∷ [])
    ≡ ((add_dpdk_dev init (pci_0 ∷ [])).0, raise value_error)
unfolding init pci_dev_check
add_dpdk_dev-stops_example =
    add_dpdk_dev-stops (pci_0 ∷ []) (pci_1 ∷ []) (codes "18:00.1") init tt (refl, tt) refl

-- On this node the restart fails.
abbrev no_restart : List Event → Event → Result (Unit {0})
no_restart events restart_vpp_service = raise runtime_error
no_restart events _ = ok tt

abbrev with_backup : VppConfigGenerator
unfolding init set_vpp_startup_conf_backup
with_backup = set_vpp_startup_conf_backup init (some (codes "/etc/vpp/startup.backup"))

restart_fails : (apply_config no_restart with_backup none true []).1 ≡ (
  sudo_command (codes "cp /etc/vpp/startup.conf /etc/vpp/startup.backup")
      ∷ command (codes "echo \"\" | sudo tee /etc/vpp/startup.conf")
      ∷ restart_vpp_service
      ∷ [],
  raise runtime_error,
)
unfolding program
restart_fails = refl

apply_config-plan_example : apply_config no_restart with_backup none true [] ≡ (
  (get_config_str with_backup).0,
  run_until_raised no_restart (plan no_restart with_backup none true) [],
)
unfolding get_config_str
apply_config-plan_example = apply_config-plan no_restart with_backup none true []

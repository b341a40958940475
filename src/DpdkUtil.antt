-- ===== src/DpdkUtil.antt =====
-- resources/libraries/python/DpdkUtil.py: the command lines of testpmd and l3fwd, built with
-- `OptionString`. The keyword arguments are a dictionary of objects.
mod Tests
pub mod Commands
use csit.Base.{Option, none, some, true, false, List, [], ◌∷◌, Bool}
use csit.Base.Dict.{Dict}
use csit.Base.Int.{ℤ, pos, show_int}
use csit.Base.Text.{Text, codes}
use csit.OptionString.{
  Object, object, text, OptionString, init, extend, add, add_equals, add_with_value_from_dict,
  add_equals_from_dict, add_if_from_dict, add_with_value_if_from_dict,
}
use Prim.Native.String.{String}

-- The objects of the source's literals.
abbrev pub lit : String → Object
lit s = text (codes s)

abbrev pub lit_true : Object
lit_true = object (codes "True") true

abbrev pub lit_false : Object
lit_false = object (codes "False") false

-- A positive number.
abbrev pub number : String → Object
number digits = object (codes digits) true

abbrev pub Kwargs : Type 0
Kwargs = Dict Object

-- Missing keys stand for the empty text, which adds nothing.
value : String → String → Kwargs → OptionString → OptionString
value parameter key kwargs options =
    add_with_value_from_dict options (lit parameter) (codes key) kwargs none

equals_or : String → String → Kwargs → Option Object → OptionString → OptionString
equals_or parameter key kwargs default options =
    add_equals_from_dict options (lit parameter) (codes key) kwargs default

flag : String → String → Kwargs → Option Object → OptionString → OptionString
flag parameter key kwargs default options =
    add_if_from_dict options (lit parameter) (codes key) kwargs default

-- One call after the other on the same builder.
infixl 5 ◌▹◌
abbrev ◌▹◌ : OptionString → (OptionString → OptionString) → OptionString
o ▹ f = f o

unfoldable pub get_eal_options : Kwargs → OptionString
unfolding value flag
get_eal_options kwargs =
    add (init [] (lit "-")) (lit "v")
    ▹ value "l" "eal_corelist" kwargs
    ▹ value "w" "eal_pci_whitelist0" kwargs
    ▹ value "w" "eal_pci_whitelist1" kwargs
    ▹ (λ options.
        add_with_value_if_from_dict options (lit "d") (lit "/usr/lib/librte_pmd_virtio.so")
          (codes "eal_driver") kwargs (some lit_true))
    ▹ flag "-in-memory" "eal_in_memory" kwargs (some lit_false)

unfoldable pub get_testpmd_pmd_options : Kwargs → OptionString
unfolding equals_or flag
get_testpmd_pmd_options kwargs =
    init [] (lit "--")
    ▹ equals_or "forward-mode" "pmd_fwd_mode" kwargs (some (lit "io"))
    ▹ (λ options. add_equals options (lit "burst") (number "64"))
    ▹ equals_or "txd" "pmd_txd" kwargs (some (number "1024"))
    ▹ equals_or "rxd" "pmd_rxd" kwargs (some (number "1024"))
    ▹ equals_or "txq" "pmd_txq" kwargs (some (number "1"))
    ▹ equals_or "rxq" "pmd_rxq" kwargs (some (number "1"))
    ▹ equals_or "tx-offloads" "pmd_tx_offloads" kwargs (some (lit "0x0"))
    ▹ flag "numa" "pmd_numa" kwargs (some lit_true)
    ▹ flag "auto-start" "pmd_auto_start" kwargs (some lit_true)
    ▹ equals_or "total-num-mbufs" "pmd_num_mbufs" kwargs none
    ▹ equals_or "nb-ports" "pmd_nb_ports" kwargs none
    ▹ equals_or "portmask" "pmd_portmask" kwargs none
    ▹ flag "disable-link-check" "pmd_disable_link_check" kwargs (some lit_true)
    ▹ equals_or "eth-peer" "pmd_eth_peer_0" kwargs none
    ▹ equals_or "eth-peer" "pmd_eth_peer_1" kwargs none
    ▹ equals_or "max-pkt-len" "pmd_max_pkt_len" kwargs none
    ▹ equals_or "mbuf-size" "pmd_mbuf_size" kwargs none
    ▹ equals_or "nb-cores" "pmd_nb_cores" kwargs none

pub get_l3fwd_pmd_options : Kwargs → OptionString
unfolding equals_or flag
get_l3fwd_pmd_options kwargs =
    init [] (lit "--")
    ▹ flag "parse-ptype" "pmd_parse_ptype" kwargs (some lit_true)
    ▹ equals_or "eth-dest" "pmd_eth_dest_0" kwargs none
    ▹ equals_or "eth-dest" "pmd_eth_dest_1" kwargs none
    ▹ equals_or "config" "pmd_config" kwargs none
    ▹ flag "enable-jumbo" "pmd_enable_jumbo" kwargs (some lit_false)
    ▹ (λ options.
        add_with_value_if_from_dict options (lit "max-pkt-len") (lit "9200")
          (codes "pmd_max_pkt_len") kwargs (some lit_false))

pub get_testpmd_args : Kwargs → OptionString
get_testpmd_args kwargs =
    init [] (lit "")
    ▹ (λ options. extend options (get_eal_options kwargs))
    ▹ (λ options. add options (lit "--"))
    ▹ (λ options. extend options (get_testpmd_pmd_options kwargs))

unfoldable pub get_testpmd_cmdline : Kwargs → OptionString
get_testpmd_cmdline kwargs =
    add (init [] (lit "")) (lit "testpmd")
    ▹ (λ options. extend options (get_eal_options kwargs))
    ▹ (λ options. add options (lit "--"))
    ▹ (λ options. extend options (get_testpmd_pmd_options kwargs))

-- The command that `dpdk_testpmd_start` runs on the node.
pub dpdk_testpmd_start_cmd : Kwargs → OptionString
dpdk_testpmd_start_cmd kwargs =
    add (init [] (lit "")) (lit "/start-testpmd.sh")
    ▹ (λ options. extend options (get_eal_options kwargs))
    ▹ (λ options. add options (lit "--"))
    ▹ (λ options. extend options (get_testpmd_pmd_options kwargs))

pub get_l3fwd_args : Kwargs → OptionString
get_l3fwd_args kwargs =
    init [] (lit "")
    ▹ (λ options. extend options (get_eal_options kwargs))
    ▹ (λ options. add options (lit "--"))
    ▹ (λ options. extend options (get_l3fwd_pmd_options kwargs))

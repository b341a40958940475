-- ===== src/QemuUtils/Testpmd.antt =====
-- resources/libraries/python/QemuUtils.py: the command lines of testpmd in the machine.
use csit.Base.{some, [], ◌∷◌, ◌++◌, if◌then◌else◌}
use csit.Base.Dict.{lookup}
use csit.Base.Int.{difference, show_int}
use csit.Base.Result.{key_error, Result, ok, or_raise, ◌>>=◌}
use csit.Base.Text.{Text, codes}
use Prim.Native.String.{String}
use csit.OptionString.{Object, text, str, truth_of, to_str}
use csit.DpdkUtil.{Kwargs, lit, lit_true, lit_false, number, get_testpmd_cmdline}
use csit.QemuUtils.{QemuUtils}

-- `self._opt.get(u'smp') - 1` in an f-string.
abbrev pub workers : QemuUtils → Text
workers self = show_int (difference self.smp 1)

-- `kwargs[key]`
abbrev pub required : String → Kwargs → Result Object
unfolding lookup
required key kwargs = or_raise key_error (lookup (codes key) kwargs)

-- `u"9200" if kwargs[u"jumbo_frames"] else u"1518"`
abbrev pub max_pkt_len : Object → Object
max_pkt_len jumbo_frames = if truth_of jumbo_frames then lit "9200" else lit "1518"

-- The arguments of `get_testpmd_cmdline`, with those of the forwarding mode among them.
abbrev pub testpmd_kwargs : QemuUtils → Text → Object → Object → Kwargs → Kwargs
testpmd_kwargs self mode queues jumbo_frames peers =
    (codes "eal_corelist", text (codes "0-" ++ workers self))
    ∷ (codes "eal_driver", lit_false)
    ∷ (codes "eal_pci_whitelist0", lit "0000:00:06.0")
    ∷ (codes "eal_pci_whitelist1", lit "0000:00:07.0")
    ∷ (codes "eal_in_memory", lit_true)
    ∷ (codes "pmd_num_mbufs", number "16384")
    ∷ (codes "pmd_fwd_mode", text mode)
    ∷ (codes "pmd_nb_ports", lit "2")
    ∷ (codes "pmd_portmask", lit "0x3")
    ∷ (codes "pmd_max_pkt_len", max_pkt_len jumbo_frames)
    ∷ (codes "pmd_mbuf_size", lit "16384")
    ∷ (peers
        ++ ((codes "pmd_rxq", queues)
            ∷ (codes "pmd_txq", queues)
            ∷ (codes "pmd_tx_offloads", lit "0x0")
            ∷ (codes "pmd_nb_cores", text (workers self))
            ∷ []))

abbrev pub with_testpmd : QemuUtils → Kwargs → QemuUtils
unfolding to_str
with_testpmd self kwargs = record self {
  vnf_bin = some (self.testpmd_path ++ (codes "/" ++ to_str (get_testpmd_cmdline kwargs)));
}

unfoldable pub create_kernelvm_config_testpmd_io : QemuUtils → Kwargs → Result QemuUtils
unfolding lookup to_str
create_kernelvm_config_testpmd_io self kwargs = required "jumbo_frames" kwargs >>= (λ jumbo_frames.
    required "queues" kwargs >>= (λ queues.
      ok (with_testpmd self (testpmd_kwargs self (codes "io") queues jumbo_frames []))))

abbrev pub peer : String → Object → Object
peer before mac = text (codes before ++ str mac)

unfoldable pub create_kernelvm_config_testpmd_mac : QemuUtils → Kwargs → Result QemuUtils
unfolding lookup to_str
create_kernelvm_config_testpmd_mac self kwargs = required "jumbo_frames" kwargs >>= (λ jumbo_frames.
    required "vif1_mac" kwargs >>= (λ vif1_mac. required "vif2_mac" kwargs >>= (λ vif2_mac.
      required "queues" kwargs >>= (λ queues. ok (
        with_testpmd self (
          testpmd_kwargs self (codes "mac") queues jumbo_frames (
            (codes "pmd_eth_peer_0", peer "0," vif1_mac)
            ∷ (codes "pmd_eth_peer_1", peer "1," vif2_mac)
            ∷ [])))))))

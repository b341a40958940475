-- ===== src/QemuUtils/Vnf.antt =====
-- resources/libraries/python/QemuUtils.py: the network function that runs in the machine. Reading a
-- template file and string.Template are one parameter, which fills a file with keyword arguments.
use csit.Base.{ltb, Bool, true, false, none, some, List, [], ◌∷◌, ◌++◌, if◌then◌else◌}
use csit.Base.Dict.{lookup}
use csit.Base.Int.{pos}
use csit.Base.Result.{type_error, runtime_error, Result, ok, raise, or_raise}
use csit.Base.Text.{Text, codes, join}
use csit.Base.Text.Lines.{contains}
use Prim.Native.String.{String}
use csit.OptionString.{Object, text, str, truth_of}
use csit.DpdkUtil.{Kwargs}
use csit.Topology
use csit.VppConfigGenerator as Generator
use csit.VppConfigGenerator.{VppConfigGenerator, Outcome, dumped}
use csit.VppConfigGenerator.Settings.{
  add_unix_nodaemon, add_unix_cli_listen, add_unix_exec, add_socksvr, add_main_heap_size,
  add_main_heap_page_size, add_statseg_size, add_statseg_page_size, add_statseg_per_node_counters,
  add_buffers_per_numa, add_cpu_main_core, add_cpu_corelist_workers, add_dpdk_dev_default_rxq,
  add_dpdk_log_level, add_dpdk_no_multi_seg, add_dpdk_no_tx_checksum_offload,
}
use csit.VppConfigGenerator.Methods.{and_next, add_plugin, add_dpdk_dev, add_nat}
use csit.VppConfigGenerator.Commands.{write_command}
use csit.Ssh.{Command, Answers, Ran, and_then, exec_cmd_no_error}
use csit.QemuUtils.{QemuUtils, numbered, with_temp}
use csit.QemuUtils.Testpmd.{
  workers, required, create_kernelvm_config_testpmd_io, create_kernelvm_config_testpmd_mac,
}
use csit.QemuUtils.Options.{shown, temp_text}

-- One statement after the other, and one under `if`.
infixl 5 ◌▹◌
abbrev pub ◌▹◌ : Outcome → (VppConfigGenerator → Outcome) → Outcome
outcome ▹ next = and_next outcome next

abbrev pub under : Bool → (VppConfigGenerator → Outcome) → VppConfigGenerator → Outcome
under true next self = next self
under false next self = (self, ok tt)

abbrev pub item : String → Generator.Item
item s = Generator.text (codes s)

abbrev pub enabled : String → VppConfigGenerator → Outcome
unfolding add_plugin
enabled plugin self = add_plugin self (codes "enable") (codes plugin ∷ [])

-- The part of the configuration that does not depend on the network function.
abbrev pub vpp_basic : QemuUtils → Topology.Node → Text → Outcome
unfolding Generator.set_node Generator.init add_unix_nodaemon add_unix_cli_listen add_unix_exec
    add_socksvr add_main_heap_size add_main_heap_page_size add_statseg_size add_statseg_page_size
    add_statseg_per_node_counters add_buffers_per_numa add_cpu_main_core add_cpu_corelist_workers
    add_plugin
vpp_basic self node running =
    Generator.set_node Generator.init node none
    ▹ add_unix_nodaemon
    ▹ (λ c. add_unix_cli_listen c none)
    ▹ (λ c. add_unix_exec c (Generator.text running))
    ▹ (λ c. add_socksvr c none)
    ▹ (λ c. add_main_heap_size c (item "512M"))
    ▹ (λ c. add_main_heap_page_size c (item "2M"))
    ▹ (λ c. add_statseg_size c (item "512M"))
    ▹ (λ c. add_statseg_page_size c (item "2M"))
    ▹ (λ c. add_statseg_per_node_counters c (item "on"))
    ▹ (λ c. add_buffers_per_numa c (Generator.number (pos 107520)))
    ▹ (λ c. add_cpu_main_core c (item "0"))
    ▹ under (ltb 1 self.smp)
        (λ c. add_cpu_corelist_workers c (Generator.text (codes "1-" ++ workers self)))
    ▹ (λ c. add_plugin c (codes "disable") (codes "default" ∷ []))
    ▹ enabled "ping_plugin.so"

-- A value that a key has to hold, or KeyError.
abbrev pub with_key :
    Result Object → (Object → VppConfigGenerator → Outcome) → VppConfigGenerator → Outcome
with_key (raise e) next self = (self, raise e)
with_key (ok value) next self = next value self

abbrev pub vpp_vhost : Kwargs → VppConfigGenerator → Outcome
unfolding lookup add_plugin add_dpdk_dev add_dpdk_dev_default_rxq add_dpdk_log_level
    add_dpdk_no_multi_seg add_dpdk_no_tx_checksum_offload
vpp_vhost kwargs c =
    enabled "dpdk_plugin.so" c
    ▹ (λ c. add_dpdk_dev c (codes "0000:00:06.0" ∷ codes "0000:00:07.0" ∷ []))
    ▹ with_key (required "queues" kwargs)
        (λ queues c. add_dpdk_dev_default_rxq c (Generator.text (str queues)))
    ▹ (λ c. add_dpdk_log_level c (item "debug"))
    ▹ with_key (required "jumbo_frames" kwargs) (λ jumbo_frames.
      under (if truth_of jumbo_frames then false else true)
        (λ c. add_dpdk_no_multi_seg c ▹ add_dpdk_no_tx_checksum_offload))

-- The whole configuration, from the name of the network function.
unfoldable pub vpp_startup : QemuUtils → Topology.Node → Text → Text → Kwargs → Outcome
unfolding contains add_plugin add_nat
vpp_startup self node running vnf kwargs =
    vpp_basic self node running
    ▹ under (contains (codes "2vfpt") vnf) (enabled "avf_plugin.so")
    ▹ under (contains (codes "vhost") vnf) (vpp_vhost kwargs)
    ▹ under (contains (codes "ipsec") vnf) (λ c.
      enabled "crypto_native_plugin.so" c
      ▹ enabled "crypto_ipsecmb_plugin.so"
      ▹ enabled "crypto_openssl_plugin.so")
    ▹ under (contains (codes "nat") vnf)
        (λ c. add_nat c (some (codes "endpoint-dependent")) ▹ enabled "nat_plugin.so")

module _ (answers : Answers) (fill : Text → Kwargs → Result Text) where
  -- `rm -f`, the filled template, and its writing with `tee`.
  abbrev pub filled : Text → Text → Kwargs → List Command → Ran (Unit {0})
  filled template path kwargs sent =
      and_then (exec_cmd_no_error answers (codes "rm -f " ++ path) true sent) (λ _ sent.
        and_then (sent, fill template kwargs)
          (λ src sent.
            and_then
              (exec_cmd_no_error answers
                (join [] (codes "echo '" ∷ src ∷ codes "' | sudo tee " ∷ path ∷ [])) false sent)
              (λ _ sent. (sent, ok tt))))

  unfoldable pub create_kernelvm_init : QemuUtils → Kwargs → List Command → Ran (Unit {0})
  unfolding lookup
  create_kernelvm_init self kwargs sent =
      let path = temp_text self "ini" in
      and_then (filled (codes "resources/templates/vm/init.sh") path kwargs sent) (λ _ sent.
        and_then (exec_cmd_no_error answers (codes "chmod +x " ++ path) true sent)
          (λ _ sent. (sent, ok tt)))

  -- `vpp_config.write_config(startup)`, for a configuration without a backup.
  abbrev pub startup_written : Text → Outcome → List Command → Ran (Unit {0})
  startup_written startup (c, raise e) sent = (sent, raise e)
  startup_written startup (c, ok _) sent =
      and_then (exec_cmd_no_error answers (write_command (dumped c).vpp_config startup) false sent)
        (λ _ sent. (sent, ok tt))

  -- The state, whose paths are set first, and the run; `in` on a missing name of the function is
  -- TypeError.
  unfoldable pub create_kernelvm_config_vpp :
      QemuUtils → Topology.Node → Kwargs → List Command → QemuUtils × Ran (Unit {0})
  unfolding vpp_startup
  create_kernelvm_config_vpp self node kwargs sent =
      let startup = numbered "/etc/vpp/vm_startup_" self.qemu_id ".conf" in
      let running = numbered "/etc/vpp/vm_running_" self.qemu_id ".exec" in
      let after = record (with_temp (with_temp self "startup" startup) "running" running) {
        vnf_bin = some (codes "/usr/bin/vpp -c " ++ startup);
      } in
      (
        after,
        and_then (sent, or_raise type_error self.vnf)
            (λ vnf sent.
              and_then (startup_written startup (vpp_startup self node running vnf kwargs) sent)
                (λ _.
                  filled (join [] (codes "resources/templates/vm/" ∷ vnf ∷ codes ".exec" ∷ []))
                    running kwargs)),
      )

  -- The state after a configuration without commands.
  abbrev pub configured : QemuUtils → List Command → Result QemuUtils → QemuUtils × Ran (Unit {0})
  configured self sent (raise e) = (self, (sent, raise e))
  configured self sent (ok after) = (after, (sent, ok tt))

  -- The init script after a configuration, with the program that it named.
  abbrev pub then_init : QemuUtils × Ran (Unit {0}) → QemuUtils × Ran (Unit {0})
  unfolding create_kernelvm_init
  then_init (self, ran) = (
    self,
    and_then ran
        (λ _. create_kernelvm_init self ((codes "vnf_bin", text (shown self.vnf_bin)) ∷ [])),
  )

  abbrev pub configure_named :
      QemuUtils → Topology.Node → Kwargs → Text → List Command → QemuUtils × Ran (Unit {0})
  unfolding create_kernelvm_config_vpp create_kernelvm_config_testpmd_io
      create_kernelvm_config_testpmd_mac create_kernelvm_init
  configure_named self node kwargs vnf sent =
      if contains (codes "vpp") vnf
      then then_init (create_kernelvm_config_vpp self node kwargs sent)
      else if contains (codes "testpmd_io") vnf
      then then_init (configured self sent (create_kernelvm_config_testpmd_io self kwargs))
      else if contains (codes "testpmd_mac") vnf
      then then_init (configured self sent (create_kernelvm_config_testpmd_mac self kwargs))
      else (self, (sent, raise runtime_error))

  unfoldable pub configure_kernelvm_vnf :
      QemuUtils → Topology.Node → Kwargs → List Command → QemuUtils × Ran (Unit {0})
  unfolding create_kernelvm_config_vpp create_kernelvm_config_testpmd_io
      create_kernelvm_config_testpmd_mac create_kernelvm_init
  configure_kernelvm_vnf self node kwargs sent = elim self.vnf [
    | none ↦ (self, (sent, raise type_error))
    | some vnf ↦ configure_named self node kwargs vnf sent
  ]

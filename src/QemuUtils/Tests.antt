-- ===== src/QemuUtils/Tests.antt =====
-- resources/libraries/python/QemuUtils.py: runs of the code, and the theorems at them.
use csit.Base.{true, false, none, [], ◌∷◌, length, map, ◌≡◌, refl}
use csit.Base.Dict.{lookup, insert}
use csit.Base.Int.{pos, show_int, digits_of}
use csit.Base.Result.{runtime_error, type_error, Result, ok, raise}
use csit.Base.Text.{Text, codes, text_eq, strip, lstrip, rstrip, is_space, join}
use csit.Base.Text.Lines.{splitlines}
use csit.OptionString.{
  init, add, add_with_value_from_dict, add_equals_from_dict, add_if_from_dict,
  add_with_value_if_from_dict, check_and_add, add_with_value, extend, converted, to_str,
}
use csit.Ssh.{Reply, no_reply, replied, Answers, Ends}
use csit.QemuUtils.{Node, QemuUtils, init_qemu}
use csit.QemuUtils.Interfaces.{add_vhost_user_if, add_vfio_pci_if, hex_2, mac_of, vhost_name}
use csit.QemuUtils.Process.{qemu_set_affinity, get_qemu_pids, qemu_kill_all}
use csit.DpdkUtil.{
  Kwargs, number, lit_false, get_testpmd_cmdline, get_eal_options, get_testpmd_pmd_options,
}
use csit.QemuUtils.Options.{shown}
use csit.QemuUtils.Testpmd.{create_kernelvm_config_testpmd_io}
use csit.QemuUtils.Affinity.{Pinned, Cleaned, qemu_set_affinity-Ended}
use csit.QemuUtils.Boot.{wait_default, says_booted}
use csit.QemuUtils.Waiting.{LastLine, GivenUp, wait_default-Ended}

abbrev node : Node
node = record {
  host = codes "10.0.0.1";
  port = pos 22;
  username = codes "csit";
  password = codes "csit";
  arch = codes "x86_64";
}

abbrev replying : Text → Result Reply
replying out = ok (replied (pos 0) out [])

-- Two threads, and pinning that succeeds.
abbrev two_threads : Answers
two_threads sent = replying (codes "2101\n2102\n")

abbrev never : Answers
never sent = ok no_reply

-- A machine before its options are added.
abbrev vm : QemuUtils
vm = record {
  nic_id = 0;
  node = node;
  machine_args = codes "pc,accel=kvm,usb=off,mem-merge=off";
  console = codes "ttyS0";
  testpmd_path = codes "/opt/dpdk-20.02/x86_64-native-linux-gcc/app";
  vm_info = record {
    host = codes "10.0.0.1";
    port = 10022;
    serial = 4556;
    username = codes "cisco";
    password = codes "cisco";
    interfaces = [];
    host_port = none;
    host_username = none;
    host_password = none;
  };
  qemu_id = 1;
  mem = 512;
  smp = 2;
  img = codes "/var/lib/vm/image.iso";
  initrd = none;
  vnf = none;
  vnf_bin = none;
  temp =
      (codes "log", codes "/tmp/serial_1.log")
      ∷ (codes "pidfile", codes "/run/qemu_1.pid")
      ∷ (codes "qmp", codes "/run/qmp_1.sock")
      ∷ (codes "qga", codes "/run/qga_1.sock")
      ∷ [];
  params = record { parts = []; prefix = codes "-" };
}

created : init_qemu never node 1 2 512 none (codes "/var/lib/vm/image.iso") [] ≡ ([], ok vm)
unfolding init_qemu text_eq insert init strip lstrip rstrip is_space show_int digits_of
created = refl

unknown_image : init_qemu never node 1 2 512 none (codes "other.iso") [] ≡ ([], raise runtime_error)
unfolding init_qemu text_eq
unknown_image = refl

vfio :
    to_str (add_vfio_pci_if vm (codes "0000:18:00.0")).params
    ≡ codes "-device vfio-pci,host=0000:18:00.0,addr=6.0"
unfolding add_vfio_pci_if add_with_value check_and_add extend init strip lstrip rstrip is_space
    converted join to_str show_int digits_of
vfio = refl

mac : mac_of 1 17 ≡ codes "52:54:00:00:01:11"
unfolding mac_of hex_2
mac = refl

vhost :
    map
      (λ p. p.0)
      (add_vhost_user_if vm (codes "/tmp/s1") true false none 1 false false).vm_info.interfaces
    ≡ codes "vhost1" ∷ []
unfolding add_vhost_user_if vhost_name insert show_int digits_of
vhost = refl

-- One thread where two are listed: three lists, and all is killed.
one_core : length (qemu_set_affinity two_threads vm (4 ∷ []) []).0 ≡ 12
unfolding qemu_set_affinity get_qemu_pids qemu_kill_all splitlines lookup
one_core = refl

two_cores : (qemu_set_affinity two_threads vm (4 ∷ 6 ∷ []) []).1 ≡ ok tt
unfolding qemu_set_affinity get_qemu_pids qemu_kill_all splitlines
two_cores = refl

-- A node that does not answer while the machine boots: not RuntimeError.
no_answer : (wait_default never 60 vm []).1 ≡ raise type_error
unfolding wait_default
no_answer = refl

abbrev kwargs : Kwargs
kwargs = (codes "queues", number "2") ∷ (codes "jumbo_frames", lit_false) ∷ []

shown_bin : Result QemuUtils → Text
shown_bin (raise e) = []
shown_bin (ok self) = shown self.vnf_bin

testpmd_io :
    shown_bin (create_kernelvm_config_testpmd_io vm kwargs)
    ≡ codes
        "/opt/dpdk-20.02/x86_64-native-linux-gcc/app/testpmd -v -l 0-1 -w 0000:00:06.0 -w 0000:00:07.0 --in-memory -- --forward-mode=io --burst=64 --txd=1024 --rxd=1024 --txq=2 --rxq=2 --tx-offloads=0x0 --numa --auto-start --total-num-mbufs=16384 --nb-ports=2 --portmask=0x3 --disable-link-check --max-pkt-len=1518 --mbuf-size=16384 --nb-cores=1"
unfolding shown_bin create_kernelvm_config_testpmd_io get_testpmd_cmdline get_eal_options
    get_testpmd_pmd_options add extend init converted strip lstrip rstrip is_space to_str join
    lookup add_with_value_from_dict add_equals_from_dict add_if_from_dict
    add_with_value_if_from_dict text_eq show_int digits_of
testpmd_io = refl

qemu_set_affinity-Ended_example :
    Ends
      (λ _. Pinned two_threads vm (4 ∷ 6 ∷ []))
      (Cleaned two_threads vm)
      (qemu_set_affinity two_threads vm (4 ∷ 6 ∷ []) [])
qemu_set_affinity-Ended_example = qemu_set_affinity-Ended two_threads vm (4 ∷ 6 ∷ []) []

abbrev booting : Answers
booting sent = replying (codes "vpp v20.09 built by root")

wait_default-Ended_example :
    Ends
      (λ _. LastLine booting says_booted vm)
      (GivenUp booting vm 0 60)
      (wait_default booting 60 vm [])
wait_default-Ended_example = wait_default-Ended booting 60 vm []

-- ===== src/QemuUtils.antt =====
-- resources/libraries/python/QemuUtils.py: the state of a QEMU machine and the options of its command
-- line, which are added to `OptionString`. Identifiers, sizes and numbers of queues are not negative.
pub mod Vnf
pub mod Waiting
mod Tests
pub mod Guest
pub mod Boot
pub mod Affinity
pub mod Process
pub mod Options
pub mod Interfaces
pub mod Testpmd
use csit.Base.{
  ℕ, zero, suc, ◌+◌, ◌*◌, ◌/◌, ◌%◌, Bool, true, false, Option, none, some, List, [], ◌∷◌, ◌++◌,
  if◌then◌else◌,
}
use csit.Base.Dict.{Dict, lookup, insert}
use csit.Base.Int.{ℤ, pos, int_eq, show_int}
use csit.Base.Result.{runtime_error, Result, ok, raise}
use csit.Base.Text.{Text, codes, text_eq}
use Prim.Native.String.{String}
use csit.OptionString.{Object, none_value, text, OptionString, init, add, add_with_value}
use csit.Ssh.{Answers, Ran, and_then, command, Command, exec_cmd_no_error}

-- The keys of a node that the class reads, with the value of Topology.get_node_arch.
pub record Node : Type 0 where
  pub host : Text
  pub port : ℤ
  pub username : Text
  pub password : Text
  pub arch : Text

pub record VmInterface : Type 0 where
  pub mac_address : Text
  pub socket : Text
  pub name : Option Text

pub record VmInfo : Type 0 where
  pub host : Text
  pub port : ℕ
  pub serial : ℕ
  pub username : Text
  pub password : Text
  pub interfaces : Dict VmInterface
  pub host_port : Option ℤ
  pub host_username : Option Text
  pub host_password : Option Text

-- The keys of `_opt` are fields; `_nic_id` is the number of interfaces so far.
pub record QemuUtils : Type 0 where
  pub nic_id : ℕ
  pub node : Node
  pub machine_args : Text
  pub console : Text
  pub testpmd_path : Text
  pub vm_info : VmInfo
  pub qemu_id : ℕ
  pub mem : ℕ
  pub smp : ℕ
  pub img : Text
  pub initrd : Option Text
  pub vnf : Option Text
  pub vnf_bin : Option Text
  pub temp : Dict Text
  pub params : OptionString

abbrev pub show_nat : ℕ → Text
show_nat n = show_int (pos n)

abbrev qemu_vm_image : Text
qemu_vm_image = codes "/var/lib/vm/image.iso"

abbrev qemu_vm_kernel : Text
qemu_vm_kernel = codes "/opt/boot/vmlinuz"

abbrev qemu_vm_kernel_initrd : Text
qemu_vm_kernel_initrd = codes "/opt/boot/initrd.img"

abbrev is_aarch64 : Node → Bool
is_aarch64 node = text_eq node.arch (codes "aarch64")

abbrev machine_args_of : Bool → Text
machine_args_of true = codes "virt,accel=kvm,usb=off,mem-merge=off,gic-version=3"
machine_args_of false = codes "pc,accel=kvm,usb=off,mem-merge=off"

abbrev console_of : Bool → Text
console_of true = codes "ttyAMA0"
console_of false = codes "ttyS0"

abbrev testpmd_path_of : Bool → Text
testpmd_path_of true = codes "/opt/dpdk-20.02/arm64-armv8a-linux-gcc/app"
testpmd_path_of false = codes "/opt/dpdk-20.02/x86_64-native-linux-gcc/app"

-- `node[key]` on a node that is not reached at port 22.
abbrev unless_22 {ℓ} : {A : Type ℓ} → Node → A → Option A
unless_22 node a = if int_eq node.port (pos 22) then none else some a

abbrev vm_info_of : Node → ℕ → VmInfo
vm_info_of node qemu_id = record {
  host = node.host;
  port = 10021 + qemu_id;
  serial = 4555 + qemu_id;
  username = codes "cisco";
  password = codes "cisco";
  interfaces = [];
  host_port = unless_22 node node.port;
  host_username = unless_22 node node.username;
  host_password = unless_22 node node.password;
}

-- A text with the identifier in it.
abbrev pub numbered : String → ℕ → String → Text
numbered before n after = codes before ++ (show_nat n ++ codes after)

-- The attributes before the image is looked at.
abbrev blank : Node → ℕ → ℕ → ℕ → Option Text → Text → QemuUtils
blank node qemu_id smp mem vnf img = record {
  nic_id = 0;
  node = node;
  machine_args = machine_args_of (is_aarch64 node);
  console = console_of (is_aarch64 node);
  testpmd_path = testpmd_path_of (is_aarch64 node);
  vm_info = vm_info_of node qemu_id;
  qemu_id = qemu_id;
  mem = mem;
  smp = smp;
  img = img;
  initrd = none;
  vnf = vnf;
  vnf_bin = none;
  temp =
      (codes "log", numbered "/tmp/serial_" qemu_id ".log")
      ∷ (codes "pidfile", numbered "/run/qemu_" qemu_id ".pid")
      ∷ [];
  params = init [] (text (codes "-"));
}

abbrev pub with_temp : QemuUtils → String → Text → QemuUtils
with_temp self key path = record self { temp = insert (codes key) path self.temp }

abbrev ls_command : Text → Text
ls_command image = codes "ls -1 " ++ (image ++ codes "* | tail -1")

-- `QemuUtils(node, qemu_id, smp, mem, vnf, img)`
unfoldable pub init_qemu :
    Answers → Node → ℕ → ℕ → ℕ → Option Text → Text → List Command → Ran QemuUtils
unfolding text_eq
init_qemu answers node qemu_id smp mem vnf img sent =
    let self = blank node qemu_id smp mem vnf img in
    if text_eq img qemu_vm_image
    then (
      sent,
      ok (
          with_temp (with_temp self "qmp" (numbered "/run/qmp_" qemu_id ".sock")) "qga"
            (numbered "/run/qga_" qemu_id ".sock")),
    )
    else if text_eq img qemu_vm_kernel
    then and_then (exec_cmd_no_error answers (ls_command qemu_vm_kernel) false sent) (λ image.
      and_then_initrd answers
        (with_temp (record self { img = image }) "ini" (numbered "/etc/vm_init_" qemu_id ".conf")))
    else (sent, raise runtime_error)
  where
    and_then_initrd : Answers → QemuUtils → List Command → Ran QemuUtils
    and_then_initrd answers self sent =
        and_then (exec_cmd_no_error answers (ls_command qemu_vm_kernel_initrd) false sent)
          (λ initrd sent. (sent, ok (record self { initrd = some initrd })))

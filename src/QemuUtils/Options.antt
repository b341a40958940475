-- ===== src/QemuUtils/Options.antt =====
-- resources/libraries/python/QemuUtils.py: the methods that add options to the command line.
use csit.Base.{ℕ, zero, suc, Option, none, some, List, [], ◌∷◌, ◌++◌}
use csit.Base.Dict.{lookup}
use csit.Base.Text.{Text, codes, join}
use Prim.Native.String.{String}
use csit.OptionString.{Object, none_value, text, add, add_with_value}
use csit.QemuUtils.{QemuUtils, show_nat}

-- `self._params.add(parameter)` and `self._params.add_with_value(parameter, value)`
abbrev pub added : String → QemuUtils → QemuUtils
unfolding add
added parameter self = record self { params = add self.params (text (codes parameter)) }

abbrev pub valued : String → Object → QemuUtils → QemuUtils
unfolding add_with_value
valued parameter value self = record self {
  params = add_with_value self.params (text (codes parameter)) value;
}

-- An f-string of the pieces.
abbrev pub pieces : List Text → Object
pieces texts = text (join [] texts)

abbrev pub literal : String → Object
literal s = text (codes s)

-- `self._temp.get(key)`, as an object and in an f-string.
abbrev pub temp_object : QemuUtils → String → Object
temp_object self key = elim (lookup (codes key) self.temp) [
  | none ↦ none_value
  | some path ↦ text path
]

abbrev pub shown : Option Text → Text
shown none = codes "None"
shown (some path) = path

abbrev pub temp_text : QemuUtils → String → Text
temp_text self key = shown (lookup (codes key) self.temp)

-- One statement after the other.
infixl 5 ◌▹◌
abbrev pub ◌▹◌ : QemuUtils → (QemuUtils → QemuUtils) → QemuUtils
self ▹ f = f self

unfoldable pub add_default_params : QemuUtils → QemuUtils
unfolding lookup
add_default_params self =
    self
    ▹ added "daemonize"
    ▹ added "nodefaults"
    ▹ valued "name" (pieces (codes "vnf" ∷ show_nat self.qemu_id ∷ codes ",debug-threads=on" ∷ []))
    ▹ added "no-user-config"
    ▹ added "nographic"
    ▹ added "enable-kvm"
    ▹ valued "pidfile" (temp_object self "pidfile")
    ▹ valued "cpu" (literal "host")
    ▹ valued "machine" (text self.machine_args)
    ▹ valued "smp" (
        pieces (
          show_nat self.smp
          ∷ codes ",sockets=1,cores="
          ∷ show_nat self.smp
          ∷ codes ",threads=1"
          ∷ []))
    ▹ valued "object" (
        pieces (
          codes "memory-backend-file,id=mem,size="
          ∷ show_nat self.mem
          ∷ codes "M,mem-path=/dev/hugepages,share=on"
          ∷ []))
    ▹ valued "m" (pieces (show_nat self.mem ∷ codes "M" ∷ []))
    ▹ valued "numa" (literal "node,memdev=mem")
    ▹ valued "balloon" (literal "none")

unfoldable pub add_net_user : QemuUtils → QemuUtils
add_net_user self =
    self
    ▹ valued "netdev" (
        pieces (
          codes "user,id=mgmt,net=172.16.255.0/24,hostfwd=tcp::"
          ∷ show_nat self.vm_info.port
          ∷ codes "-:22"
          ∷ []))
    ▹ valued "device" (literal "virtio-net,netdev=mgmt")

unfoldable pub add_qmp_qga : QemuUtils → QemuUtils
unfolding lookup
add_qmp_qga self =
    self
    ▹ valued "chardev"
        (pieces (codes "socket,path=" ∷ temp_text self "qga" ∷ codes ",server,nowait,id=qga0" ∷ []))
    ▹ valued "device" (literal "isa-serial,chardev=qga0")
    ▹ valued "qmp" (pieces (codes "unix:" ∷ temp_text self "qmp" ∷ codes ",server,nowait" ∷ []))

unfoldable pub add_serial : QemuUtils → QemuUtils
unfolding lookup
add_serial self =
    self
    ▹ valued "chardev" (
        pieces (
          codes "socket,host=127.0.0.1,port="
          ∷ show_nat self.vm_info.serial
          ∷ codes ",id=gnc0,server,nowait"
          ∷ []))
    ▹ valued "device" (literal "isa-serial,chardev=gnc0")
    ▹ valued "serial" (pieces (codes "file:" ∷ temp_text self "log" ∷ []))

-- `f"index={index}," if index else u""`
abbrev pub index_text : Option ℕ → Text
index_text none = []
index_text (some zero) = []
index_text (some (suc index)) = codes "index=" ++ (show_nat (suc index) ++ codes ",")

unfoldable pub add_drive_cdrom : QemuUtils → Text → Option ℕ → QemuUtils
add_drive_cdrom self drive_file index =
    self
    ▹ valued "drive" (
        pieces
          (codes "file=" ∷ drive_file ∷ codes "," ∷ index_text index ∷ codes "media=cdrom" ∷ []))

unfoldable pub add_drive : QemuUtils → Text → Text → QemuUtils
add_drive self drive_file drive_format =
    self
    ▹ valued "drive" (
        pieces (
          codes "file="
          ∷ drive_file
          ∷ codes ",format="
          ∷ drive_format
          ∷ codes ",cache=none,if=virtio,file.locking=off"
          ∷ []))

unfoldable pub add_kernelvm_params : QemuUtils → QemuUtils
unfolding lookup
add_kernelvm_params self =
    self
    ▹ valued "serial" (pieces (codes "file:" ∷ temp_text self "log" ∷ []))
    ▹ valued "fsdev" (literal "local,id=root9p,path=/,security_model=none")
    ▹ valued "device" (literal "virtio-9p-pci,fsdev=root9p,mount_tag=virtioroot")
    ▹ valued "kernel" (text self.img)
    ▹ valued "initrd" (text (shown self.initrd))
    ▹ valued "append" (
        pieces (
          codes "'ro rootfstype=9p rootflags=trans=virtio root=virtioroot console="
          ∷ self.console
          ∷ codes " tsc=reliable hugepages=512 init="
          ∷ temp_text self "ini"
          ∷ codes " fastboot'"
          ∷ []))

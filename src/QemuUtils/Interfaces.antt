-- ===== src/QemuUtils/Interfaces.antt =====
-- resources/libraries/python/QemuUtils.py: the interfaces that are added to the machine.
use csit.Base.{
  ℕ, zero, suc, ◌+◌, ◌*◌, ◌/◌, ◌%◌, Bool, true, false, Option, none, some, [], ◌∷◌, ◌++◌,
  if◌then◌else◌,
}
use csit.Base.Tests.{ltb}
use csit.Base.Dict.{insert}
use csit.Base.Text.{Text, codes, join}
use csit.QemuUtils.Options.{valued, pieces, ◌▹◌}
use csit.QemuUtils.{QemuUtils, show_nat}

-- `f"{n:02x}"`: two hexadecimal digits, or more where two are not enough.
abbrev pub hex_digit : ℕ → ℕ
hex_digit d = if ltb d 10 then 48 + d else 87 + d

hex_from : ℕ → ℕ → Text → Text
hex_from zero n tail = tail
hex_from (suc fuel) n tail =
    let rest = hex_from fuel (n / 16) (hex_digit (n % 16) ∷ tail) in
    if ltb n 16 then hex_digit n ∷ tail else rest

unfoldable pub hex_2 : ℕ → Text
unfolding hex_from
hex_2 n = if ltb n 16 then 48 ∷ hex_digit n ∷ [] else hex_from (suc n) n []

abbrev pub on_off : Bool → Text
on_off true = codes "on"
on_off false = codes "off"

abbrev pub server_text : Bool → Text
server_text true = codes ",server"
server_text false = []

-- The sizes of the rings, if `queue_size` is true.
abbrev pub queue_text : Option ℕ → Text
queue_text none = []
queue_text (some zero) = []
queue_text (some (suc n)) =
    join []
      (codes "rx_queue_size=" ∷ show_nat (suc n) ∷ codes ",tx_queue_size=" ∷ show_nat (suc n) ∷ [])

unfoldable pub mac_of : ℕ → ℕ → Text
unfolding hex_2
mac_of qemu_id nic_id = codes "52:54:00:00:" ++ (hex_2 qemu_id ++ (codes ":" ++ hex_2 nic_id))

unfoldable pub vhost_name : ℕ → Text
vhost_name nic_id = codes "vhost" ++ show_nat nic_id

-- The options of the interface with identifier `nic_id`.
abbrev pub vhost_options : Text → Bool → Option ℕ → ℕ → Bool → Bool → ℕ → QemuUtils → QemuUtils
unfolding mac_of vhost_name
vhost_options socket server queue_size queues csum gso nic_id self =
    self
    ▹ valued "chardev" (
        pieces (
          codes "socket,id=char"
          ∷ show_nat nic_id
          ∷ codes ",path="
          ∷ socket
          ∷ server_text server
          ∷ []))
    ▹ valued "netdev" (
        pieces (
          codes "vhost-user,id=vhost"
          ∷ show_nat nic_id
          ∷ codes ",chardev=char"
          ∷ show_nat nic_id
          ∷ codes ",queues="
          ∷ show_nat queues
          ∷ []))
    ▹ valued "device" (
        pieces (
          codes "virtio-net-pci,netdev="
          ∷ vhost_name nic_id
          ∷ codes ",mac="
          ∷ mac_of self.qemu_id nic_id
          ∷ codes ",addr="
          ∷ show_nat (nic_id + 5)
          ∷ codes ".0,mq=on,vectors="
          ∷ show_nat (2 * queues + 2)
          ∷ codes ",csum="
          ∷ on_off csum
          ∷ codes ",gso="
          ∷ on_off gso
          ∷ codes ",guest_tso4=off,guest_tso6=off,guest_ecn=off,"
          ∷ queue_text queue_size
          ∷ []))

-- `jumbo_frames` is not read.
unfoldable pub add_vhost_user_if :
    QemuUtils → Text → Bool → Bool → Option ℕ → ℕ → Bool → Bool → QemuUtils
unfolding insert mac_of vhost_name
add_vhost_user_if self socket server jumbo_frames queue_size queues csum gso =
    let nic_id = suc self.nic_id in
    let after = vhost_options socket server queue_size queues csum gso nic_id self in
    record after {
      nic_id = nic_id;
      vm_info = record self.vm_info {
        interfaces =
            insert (vhost_name nic_id)
              (record { mac_address = mac_of self.qemu_id nic_id; socket = socket; name = none })
              self.vm_info.interfaces;
      };
      temp = insert (vhost_name nic_id) socket self.temp;
    }

unfoldable pub add_vfio_pci_if : QemuUtils → Text → QemuUtils
add_vfio_pci_if self pci =
    let nic_id = suc self.nic_id in
    record (self
      ▹ valued "device" (
          pieces (
            codes "vfio-pci,host="
            ∷ pci
            ∷ codes ",addr="
            ∷ show_nat (nic_id + 5)
            ∷ codes ".0"
            ∷ []))) { nic_id = nic_id }

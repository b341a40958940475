-- ===== src/QemuUtils/Guest.antt =====
-- resources/libraries/python/QemuUtils.py: what is asked of the guest agent. `json.loads` is a parameter, of
-- whose result the code reads the truth value and a few keys.
use csit.Base.{Bool, true, false, Option, none, some, List, [], ◌∷◌, get_elem?, if◌then◌else◌, ◌==◌}
use csit.Base.Dict.{Dict, lookup, insert}
use csit.Base.Result.{runtime_error, key_error, attribute_error, Result, ok, raise}
use csit.Base.Text.{Text, codes, join}
use csit.Base.Text.Lines.{splitlines}
use csit.Ssh.{Command, Answers, Ran, and_then, exec_cmd_no_error}
use csit.QemuUtils.{QemuUtils, VmInterface}
use csit.QemuUtils.Options.{temp_text}

-- The keys of an interface that the guest names.
pub record GuestInterface : Type 0 where
  pub hardware_address : Option Text
  pub name : Option Text

-- An object read from JSON: its truth value, whether it is a dictionary, whether `get("return")` and
-- `get("error")` are other than None, and the list at `return`.
pub record Loaded : Type 0 where
  pub truth : Bool
  pub is_dict : Bool
  pub has_return : Bool
  pub has_error : Bool
  pub interfaces : List GuestInterface

abbrev pub empty_dict : Loaded
empty_dict = record {
  truth = false;
  is_dict = true;
  has_return = false;
  has_error = false;
  interfaces = [];
}

-- `s.split(u"\n", 1)[0]`
unfoldable pub first_line : Text → Text
first_line [] = []
first_line (c ∷ s) = let rest = first_line s in if c == 10 then [] else c ∷ rest

abbrev pub mac_names : List GuestInterface → Dict Text → Result (Dict Text)
unfolding insert
mac_names [] mac_name = ok mac_name
mac_names (interface ∷ interfaces) mac_name = elim interface.hardware_address [
  | none ↦ mac_names interfaces mac_name
  | some mac ↦ elim interface.name [
    | none ↦ raise key_error
    | some name ↦ mac_names interfaces (insert mac name mac_name)
  ]
]

-- The loop over the interfaces of the machine: a name that is not known leaves the interface as it is.
abbrev pub named_interfaces : Dict Text → Dict VmInterface → Dict VmInterface
unfolding lookup
named_interfaces mac_name [] = []
named_interfaces mac_name ((key, interface) ∷ interfaces) =
    elim (lookup interface.mac_address mac_name) [
      | none ↦ (key, interface) ∷ named_interfaces mac_name interfaces
      | some name ↦
          (key, record interface { name = some name }) ∷ named_interfaces mac_name interfaces
    ]

abbrev pub names_or_raise : QemuUtils → Bool → List GuestInterface → Result QemuUtils
names_or_raise self false interfaces = raise attribute_error
names_or_raise self true [] = raise runtime_error
names_or_raise self true (interface ∷ interfaces) = elim (mac_names (interface ∷ interfaces) []) [
  | raise e ↦ raise e
  | ok mac_name ↦ ok (record self {
    vm_info = record self.vm_info {
      interfaces = named_interfaces mac_name self.vm_info.interfaces;
    };
  })
]

module _ (answers : Answers) (loads : Text → Result Loaded) where
  -- `json.loads(stdout.split(u"\n", 1)[0]) if stdout else dict()`
  abbrev pub loaded : Text → List Command → Ran Loaded
  unfolding first_line
  loaded [] sent = (sent, ok empty_dict)
  loaded (c ∷ stdout) sent = (sent, loads (first_line (c ∷ stdout)))

  unfoldable pub qemu_qga_flush : QemuUtils → List Command → Ran Loaded
  unfolding first_line
  qemu_qga_flush self sent =
      and_then
        (exec_cmd_no_error answers
          (join [] (
            codes "(printf \""
            ∷ (255 ∷ [])
            ∷ codes "\"; sleep 1) | sudo -S socat - UNIX-CONNECT:"
            ∷ temp_text self "qga"
            ∷ []))
          false sent)
        loaded

  unfoldable pub qemu_qga_exec : QemuUtils → Text → List Command → Ran Loaded
  unfolding first_line
  qemu_qga_exec self cmd sent =
      and_then
        (exec_cmd_no_error answers
          (join [] (
            codes "(echo \"{{ \\\"execute\\\": \\\""
            ∷ cmd
            ∷ codes "\\\" }}\"; sleep 1) | sudo -S socat - UNIX-CONNECT:"
            ∷ temp_text self "qga"
            ∷ []))
          false sent)
        loaded

  unfoldable pub qemu_qmp_exec : QemuUtils → Text → List Command → Ran Loaded
  unfolding splitlines
  qemu_qmp_exec self cmd sent =
      and_then
        (exec_cmd_no_error answers
          (join [] (
            codes "echo \"{{ \\\"execute\\\": \\\"qmp_capabilities\\\" }}{{ \\\"execute\\\": \\\""
            ∷ cmd
            ∷ codes "\\\" }}\" | sudo -S socat - UNIX-CONNECT:"
            ∷ temp_text self "qmp"
            ∷ []))
          false sent)
        (λ stdout sent. elim (get_elem? (splitlines stdout) 2) [
          | none ↦ (sent, raise runtime_error)
          | some line ↦ (sent, loads line)
        ])

  unfoldable pub update_vm_interfaces : QemuUtils → List Command → Ran QemuUtils
  unfolding qemu_qga_exec
  update_vm_interfaces self sent =
      and_then (qemu_qga_exec self (codes "guest-network-get-interfaces") sent)
        (λ out sent. (sent, names_or_raise self out.is_dict out.interfaces))

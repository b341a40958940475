-- ===== src/QemuUtils/Boot.antt =====
-- resources/libraries/python/QemuUtils.py: starting the machine and waiting for it. The calls of the
-- logger and of sleep are left out.
use csit.Base.{
  ℕ, zero, suc, Bool, true, false, ◌&&◌, ◌||◌, Option, none, some, List, [], ◌++◌, if◌then◌else◌,
}
use csit.Base.Result.{
  Exception, runtime_error, value_error, type_error, attribute_error, Result, ok, raise,
}
use csit.Base.Text.{Text, codes, text_eq}
use csit.Base.Text.Lines.{contains}
use csit.OptionString.{text, init, extend, add, to_str}
use csit.Ssh.{Command, Answers, Ran, and_then, exec_cmd_no_error}
use csit.DutSetup.{check_huge_page}
use csit.QemuUtils.{QemuUtils, VmInfo}
use csit.QemuUtils.Guest.{Loaded, qemu_qga_flush, qemu_qga_exec}
use csit.QemuUtils.Options.{temp_text, shown}
use csit.QemuUtils.Process.{after, qemu_kill_all, or_killed}

-- `except RuntimeError` and `except AttributeError`
abbrev pub is_runtime_error : Exception → Bool
is_runtime_error runtime_error = true
is_runtime_error _ = false

-- What a line of the log says of the machine: it has booted, it has failed, or neither.
abbrev pub says_booted : Text → Bool
says_booted stdout =
    (contains (codes "vpp ") stdout && contains (codes "built by") stdout)
    || contains (codes "Press enter to exit") stdout

abbrev pub says_failed : Text → Bool
says_failed stdout = contains (codes "reboot: Power down") stdout

abbrev pub by_log : Bool → Bool → (List Command → Ran (Unit {0})) → List Command → Ran (Unit {0})
by_log true failed next sent = (sent, ok tt)
by_log false true next sent = (sent, raise runtime_error)
by_log false false next sent = next sent

-- A round of the loop: where the command raised RuntimeError, `stdout` is None, and the test of `in`
-- raises TypeError.
abbrev pub log_read : (List Command → Ran (Unit {0})) → Ran Text → Ran (Unit {0})
log_read next (sent, raise runtime_error) = (sent, raise type_error)
log_read next (sent, raise e) = (sent, raise e)
log_read next (sent, ok stdout) = by_log (says_booted stdout) (says_failed stdout) next sent

-- What a round of waiting for the guest agent saw: an output, if `json.loads` took it.
abbrev pub trace_value_error : Ran Loaded → Ran (Option Loaded)
trace_value_error (sent, ok out) = (sent, ok (some out))
trace_value_error (sent, raise value_error) = (sent, ok none)
trace_value_error (sent, raise e) = (sent, raise e)

abbrev pub unless_flushed :
    (List Command → Ran (Unit {0})) → Option Loaded → List Command → Ran (Unit {0})
unless_flushed next none sent = next sent
unless_flushed next (some out) sent = elim out.truth [ true ↦ (sent, ok tt) | false ↦ next sent ]

-- The tests after a ping: of the truth value, and of the keys of a dictionary.
abbrev pub ping_read :
    Bool → Bool → Bool → (List Command → Ran (Unit {0})) → List Command → Ran (Unit {0})
ping_read false is_dict has_return next sent = next sent
ping_read true false has_return next sent = (sent, raise attribute_error)
ping_read true true true next sent = (sent, ok tt)
ping_read true true false next sent = next sent

abbrev pub unless_pinged :
    (List Command → Ran (Unit {0})) → Option Loaded → List Command → Ran (Unit {0})
unless_pinged next none sent = next sent
unless_pinged next (some out) sent = ping_read out.truth out.is_dict out.has_return next sent

module _ (answers : Answers) where
  abbrev pub wait_log : ℕ → QemuUtils → List Command → Ran (Unit {0})
  wait_log zero self sent = (sent, raise runtime_error)
  wait_log (suc retries) self sent =
      log_read (wait_log retries self)
        (exec_cmd_no_error answers (after "tail -1 " (temp_text self "log")) true sent)

  unfoldable pub wait_default : ℕ → QemuUtils → List Command → Ran (Unit {0})
  wait_default retries self sent = wait_log retries self sent

module _ (answers : Answers) (loads : Text → Result Loaded) where
  abbrev pub wait_flush : ℕ → QemuUtils → List Command → Ran (Unit {0})
  unfolding qemu_qga_flush
  wait_flush zero self sent = (sent, raise runtime_error)
  wait_flush (suc retries) self sent =
      and_then (trace_value_error (qemu_qga_flush answers loads self sent))
        (unless_flushed (wait_flush retries self))

  abbrev pub wait_ping : ℕ → QemuUtils → List Command → Ran (Unit {0})
  unfolding qemu_qga_exec
  wait_ping zero self sent = (sent, raise runtime_error)
  wait_ping (suc retries) self sent =
      and_then (trace_value_error (qemu_qga_exec answers loads self (codes "guest-ping") sent))
        (unless_pinged (wait_ping retries self))

  unfoldable pub wait_nestedvm : ℕ → QemuUtils → List Command → Ran (Unit {0})
  unfolding qemu_qga_flush qemu_qga_exec
  wait_nestedvm retries self sent =
      and_then (wait_flush retries self sent) (λ _. wait_ping retries self)

  -- The handler of AttributeError.
  abbrev pub or_default_wait : QemuUtils → Ran (Unit {0}) → Ran (Unit {0})
  unfolding wait_default
  or_default_wait self (sent, raise attribute_error) = wait_default answers 60 self sent
  or_default_wait self ran = ran

  -- The method `_wait_` with the name of the VNF; the class has three, one of them this one, whose call
  -- of itself ends in RecursionError, a RuntimeError.
  unfoldable pub wait_until_vm_boot : QemuUtils → List Command → Ran (Unit {0})
  unfolding wait_default wait_nestedvm text_eq
  wait_until_vm_boot self sent =
      let vnf = shown self.vnf in
      if text_eq vnf (codes "nestedvm")
      then or_default_wait self (wait_nestedvm 12 self sent)
      else if text_eq vnf (codes "until_vm_boot")
      then (sent, raise runtime_error)
      else wait_default answers 60 self sent

  -- The command line: the program, and the options added so far.
  abbrev pub start_command : QemuUtils → Text
  unfolding init extend add to_str
  start_command self = to_str (
      extend (add (init [] (text [])) (text (codes "/usr/bin/qemu-system-" ++ self.node.arch)))
        self.params)

  abbrev pub started : QemuUtils → List Command → Ran VmInfo
  unfolding check_huge_page wait_until_vm_boot to_str
  started self sent =
      and_then (check_huge_page answers (codes "/dev/hugepages") self.mem 2048 false sent)
        (λ _ sent.
          and_then (exec_cmd_no_error answers (start_command self) true sent)
            (λ _ sent. and_then (wait_until_vm_boot self sent) (λ _ sent. (sent, ok self.vm_info))))

  unfoldable pub qemu_start : QemuUtils → List Command → Ran VmInfo
  unfolding check_huge_page wait_until_vm_boot qemu_kill_all to_str
  qemu_start self sent = or_killed answers self is_runtime_error (started self sent)

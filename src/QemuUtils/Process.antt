-- ===== src/QemuUtils/Process.antt =====
-- resources/libraries/python/QemuUtils.py: the machine's process and threads on the node. The calls of
-- the logger and of sleep are left out.
use csit.Base.{ℕ, zero, suc, Bool, true, false, List, [], ◌∷◌, ◌++◌, length, ◌==◌}
use csit.Base.Dict.{Dict, lookup}
use csit.Base.Result.{Exception, runtime_error, value_error, ok, raise}
use csit.Base.Text.{Text, codes}
use csit.Base.Text.Lines.{splitlines}
use Prim.Native.String.{String}
use csit.Ssh.{Command, Answers, Ran, and_then, exec_cmd, exec_cmd_no_error}
use csit.QemuUtils.{QemuUtils, show_nat}
use csit.QemuUtils.Options.{temp_text}

abbrev pub after : String → Text → Text
after command path = codes command ++ path

abbrev pub pids_command : QemuUtils → Text
pids_command self = after "grep -rwl 'CPU' /proc/$(sudo cat " (
    temp_text self "pidfile"
    ++ codes "/task/*/comm | xargs dirname | sed -e 's/\\/.*\\///g' | uniq")

abbrev pub taskset_command : ℕ → Text → Text
taskset_command host_cpu qemu_cpu =
    after "taskset -pc " (show_nat host_cpu ++ (codes " " ++ qemu_cpu))

-- `except (RuntimeError, ValueError)`
abbrev pub is_caught : Exception → Bool
is_caught runtime_error = true
is_caught value_error = true
is_caught _ = false

module _ (answers : Answers) where
  abbrev pub remove_temp : Dict Text → List Command → Ran (Unit {0})
  remove_temp [] sent = (sent, ok tt)
  remove_temp ((key, path) ∷ temp) sent =
      and_then (exec_cmd answers (after "cat " path) true sent) (λ _ sent.
        and_then (exec_cmd answers (after "rm -f " path) true sent) (λ _. remove_temp temp))

  unfoldable pub qemu_kill_all : QemuUtils → List Command → Ran (Unit {0})
  qemu_kill_all self sent =
      and_then (exec_cmd answers (codes "pkill -SIGKILL qemu") true sent)
        (λ _. remove_temp self.temp)

  unfoldable pub qemu_kill : QemuUtils → List Command → Ran (Unit {0})
  unfolding lookup
  qemu_kill self sent =
      and_then (exec_cmd answers (after "chmod +r " (temp_text self "pidfile")) true sent)
        (λ _ sent.
          and_then
            (exec_cmd answers (after "kill -SIGKILL $(cat " (temp_text self "pidfile" ++ codes ")"))
              true sent)
            (λ _. remove_temp self.temp))

  -- `self.qemu_kill_all()` and `raise`
  abbrev pub killed {ℓ} : {A : Type ℓ} → QemuUtils → Exception → List Command → Ran A
  unfolding qemu_kill_all
  killed self e sent = and_then (qemu_kill_all self sent) (λ _ sent. (sent, raise e))

  -- A `try` whose handler kills all and raises the exception again.
  abbrev pub or_killed {ℓ} : {A : Type ℓ} → QemuUtils → (Exception → Bool) → Ran A → Ran A
  or_killed self caught (sent, ok a) = (sent, ok a)
  or_killed self caught (sent, raise e) = elim (caught e) [
    | true ↦ killed self e sent
    | false ↦ (sent, raise e)
  ]

  unfoldable pub get_qemu_pids : QemuUtils → List Command → Ran (List Text)
  unfolding splitlines
  get_qemu_pids self sent =
      and_then (exec_cmd_no_error answers (pids_command self) false sent)
        (λ stdout sent. (sent, ok (splitlines stdout)))

  -- The loop over `zip(qemu_cpus, host_cpus)`.
  abbrev pub pinned : List Text → List ℕ → List Command → Ran (Unit {0})
  pinned (qemu_cpu ∷ qemu_cpus) (host_cpu ∷ host_cpus) sent =
      and_then (exec_cmd_no_error answers (taskset_command host_cpu qemu_cpu) true sent)
        (λ _. pinned qemu_cpus host_cpus)
  pinned _ _ sent = (sent, ok tt)

  -- The body of `try`: whether it came to `break`.
  abbrev pub pin_or_continue : List ℕ → List Text → List Command → Ran Bool
  pin_or_continue host_cpus qemu_cpus sent = elim (length qemu_cpus == length host_cpus) [
    | true ↦ and_then (pinned qemu_cpus host_cpus sent) (λ _ sent. (sent, ok true))
    | false ↦ (sent, ok false)
  ]

  abbrev pub attempt : QemuUtils → List ℕ → List Command → Ran Bool
  unfolding get_qemu_pids
  attempt self host_cpus sent =
      or_killed self is_caught (and_then (get_qemu_pids self sent) (pin_or_continue host_cpus))

  abbrev pub unless_done : (List Command → Ran (Unit {0})) → Bool → List Command → Ran (Unit {0})
  unless_done next true sent = (sent, ok tt)
  unless_done next false sent = next sent

  abbrev pub attempts : ℕ → QemuUtils → List ℕ → List Command → Ran (Unit {0})
  unfolding qemu_kill_all
  attempts zero self host_cpus sent = killed self runtime_error sent
  attempts (suc rounds) self host_cpus sent =
      and_then (attempt self host_cpus sent) (unless_done (attempts rounds self host_cpus))

  unfoldable pub qemu_set_affinity : QemuUtils → List ℕ → List Command → Ran (Unit {0})
  qemu_set_affinity self host_cpus sent = attempts 3 self host_cpus sent

  abbrev pub rescheduled : List Text → List Command → Ran (Unit {0})
  rescheduled [] sent = (sent, ok tt)
  rescheduled (qemu_cpu ∷ qemu_cpus) sent =
      and_then (exec_cmd_no_error answers (after "chrt -r -p 1 " qemu_cpu) true sent)
        (λ _. rescheduled qemu_cpus)

  unfoldable pub qemu_set_scheduler_policy : QemuUtils → List Command → Ran (Unit {0})
  unfolding get_qemu_pids
  qemu_set_scheduler_policy self sent =
      or_killed self is_caught (and_then (get_qemu_pids self sent) rescheduled)

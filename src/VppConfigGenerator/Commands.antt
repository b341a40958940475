-- ===== src/VppConfigGenerator/Commands.antt =====
-- resources/libraries/python/VppConfigGenerator.py: what is run on the node. Each call is an event there,
-- and whether it raises is a function of the events before.
use csit.Base.{Bool, true, false, Option, none, some, List, [], ◌∷◌, ◌++◌, ◌≡◌, refl, ap, ◌∙◌}
use csit.Base.Text.{Text, codes}
use csit.Base.Result.{Exception, Result, ok, raise}
use csit.VppConfigGenerator.{VppConfigGenerator, dump_config, dumped}

-- A command, with `sudo` or without, and the calls of VPPUtil.
pub data Event : Type 0 where
  sudo_command : Text → Event
  command : Text → Event
  restart_vpp_service : Event
  verify_vpp : Event

-- The events so far, and how the last call ended.
abbrev pub Ran : Type 0
Ran = List Event × Result (Unit {0})

-- `"{None}"` is the text None.
abbrev pub shown : Option Text → Text
shown none = codes "None"
shown (some s) = s

abbrev pub copy_command : Text → Text → Text
copy_command from_file to_file = codes "cp " ++ (from_file ++ (codes " " ++ to_file))

abbrev pub write_command : Text → Text → Text
write_command config filename = codes "echo \"" ++ (config ++ (codes "\" | sudo tee " ++ filename))

abbrev pub or_default : Option Text → Text → Text
or_default none default = default
or_default (some filename) default = filename

module _ (call : List Event → Event → Result (Unit {0})) where
  abbrev pub then_call : Ran → Event → Ran
  then_call (events, raise e) event = (events, raise e)
  then_call (events, ok _) event = (events ++ event ∷ [], call events event)

  abbrev pub backed_up : VppConfigGenerator → Option Text → List Event → Ran
  backed_up self none events = (events, ok tt)
  backed_up self (some backup) events =
      then_call (events, ok tt) (sudo_command (copy_command self.vpp_startup_conf backup))

  unfoldable pub write_config :
      VppConfigGenerator → Option Text → List Event → VppConfigGenerator × Ran
  write_config self filename events =
      let after = dumped self in
      (
        after,
        then_call (backed_up after after.vpp_startup_conf_backup events)
            (command (write_command after.vpp_config (or_default filename after.vpp_startup_conf))),
      )

  abbrev pub verified : Bool → Ran → Ran
  verified true ran = then_call ran verify_vpp
  verified false ran = ran

  unfoldable pub apply_config :
      VppConfigGenerator → Option Text → Bool → List Event → VppConfigGenerator × Ran
  apply_config self filename verify events =
      let (after, ran) = write_config self filename events in
      (after, verified verify (then_call ran restart_vpp_service))

  unfoldable pub restore_config : VppConfigGenerator → List Event → Ran
  restore_config self events =
      then_call (events, ok tt)
        (sudo_command (copy_command (shown self.vpp_startup_conf_backup) self.vpp_startup_conf))

  abbrev pub raised_or_on : Result (Unit {0}) → (List Event → Ran) → List Event → Ran
  raised_or_on (raise e) next events = (events, raise e)
  raised_or_on (ok _) next events = next events

  -- What applying a configuration comes to: events in an order, until one raises.
  abbrev pub run_until_raised : List Event → List Event → Ran
  run_until_raised [] events = (events, ok tt)
  run_until_raised (event ∷ rest) events =
      raised_or_on (call events event) (run_until_raised rest) (events ++ event ∷ [])

  abbrev pub backup_plan : VppConfigGenerator → Option Text → List Event
  backup_plan self none = []
  backup_plan self (some backup) = sudo_command (copy_command self.vpp_startup_conf backup) ∷ []

  abbrev pub verify_plan : Bool → List Event
  verify_plan true = verify_vpp ∷ []
  verify_plan false = []

  -- The backup if there is one to make, the text of the configuration behind what was dumped before, the
  -- restart, and the verification if it is wanted.
  abbrev pub plan : VppConfigGenerator → Option Text → Bool → List Event
  plan self filename verify =
      backup_plan self self.vpp_startup_conf_backup
      ++ (command (
            write_command (self.vpp_config ++ dump_config self.nodeconfig)
              (or_default filename self.vpp_startup_conf))
          ∷ restart_vpp_service
          ∷ verify_plan verify)

  then_calls : Ran → List Event → Ran
  then_calls ran [] = ran
  then_calls ran (event ∷ rest) = then_calls (then_call ran event) rest

  then_calls-raised :
      (plan events : List Event) (e : Exception)
      → then_calls (events, raise e) plan ≡ (events, raise e)
  unfolding then_calls
  then_calls-raised [] events e = refl
  then_calls-raised (event ∷ plan) events e = then_calls-raised plan events e

  then_calls-run :
      (plan events : List Event) → then_calls (events, ok tt) plan ≡ run_until_raised plan events
  unfolding then_calls
  then_calls-run [] events = refl
  then_calls-run (event ∷ plan) events =
      called (call events event) (then_calls-run plan (events ++ event ∷ []))
    where
      called :
          (result : Result (Unit {0}))
          → then_calls (events ++ event ∷ [], ok tt) plan
            ≡ run_until_raised plan (events ++ event ∷ [])
          → then_calls (events ++ event ∷ [], result) plan
            ≡ raised_or_on result (run_until_raised plan) (events ++ event ∷ [])
      called (raise e) h = then_calls-raised plan (events ++ event ∷ []) e
      called (ok _) h = h

  planned :
      (self : VppConfigGenerator) (backup : Option Text) (verify : Bool) (events : List Event)
      (write : Event)
      → verified verify
          (then_call (then_call (backed_up self backup events) write) restart_vpp_service)
        ≡ then_calls
            (events, ok tt)
            (backup_plan self backup ++ (write ∷ restart_vpp_service ∷ verify_plan verify))
  unfolding then_calls
  planned self none true events write = refl
  planned self none false events write = refl
  planned self (some backup) true events write = refl
  planned self (some backup) false events write = refl

  -- apply_config dumps the configuration and runs its plan: the copy of the old file if a backup is set,
  -- the writing of the new one, the restart, and the verification if it is wanted, up to the first call
  -- that raises.
  pub apply_config-plan :
      (self : VppConfigGenerator) (filename : Option Text) (verify : Bool) (events : List Event)
      → apply_config self filename verify events
        ≡ (dumped self, run_until_raised (plan self filename verify) events)
  unfolding apply_config write_config
  apply_config-plan self filename verify events =
      ap (λ r. (dumped self, r))
        (planned self self.vpp_startup_conf_backup verify events _
          ∙ then_calls-run (plan self filename verify) events)

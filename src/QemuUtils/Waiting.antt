-- ===== src/QemuUtils/Waiting.antt =====
-- resources/libraries/python/QemuUtils.py: how the wait for the machine and its start come to an end.
use csit.Base.{
  ℕ, zero, suc, ◌+◌, Bool, true, false, List, [], ◌∷◌, ◌++◌, length, ◌≡◌, refl, subst, ◌⊎◌, inl,
  inr, length-append, arith,
}
use csit.Base.Int.{pos, negsuc}
use csit.Base.Result.{Exception, runtime_error, Result, ok, raise}
use csit.Base.Text.{Text}
use csit.Ssh.{
  Command, Reply, no_reply, replied, Answers, Ran, and_then, command, tries, output_or, Ends,
}
use csit.QemuUtils.{QemuUtils}
use csit.QemuUtils.Options.{temp_text}
use csit.QemuUtils.Process.{after}
use csit.QemuUtils.Boot.{says_booted, says_failed, by_log, log_read, wait_log, wait_default}

abbrev pub tail_command : QemuUtils → Command
tail_command self = command (after "tail -1 " (temp_text self "log")) true

module _ (answers : Answers) where
  -- The command sent last read the last line of the log, and `says` holds of what it read.
  abbrev pub LastLine : (Text → Bool) → QemuUtils → List Command → Type 0
  LastLine says self sent =
      (before : List Command) × (out : Text) × (stderr : Text) × (sent
        ≡ before ++ tail_command self ∷ [])
      × (answers sent ≡ ok (replied (pos 0) out stderr))
      × (says out ≡ true)

  -- RuntimeError: the log says that the machine failed, or each of the rounds has read a line.
  abbrev pub GivenUp : QemuUtils → ℕ → ℕ → Exception → List Command → Type 0
  GivenUp self start rounds runtime_error sent =
      LastLine says_failed self sent ⊎ (length sent ≡ start + rounds)
  GivenUp self start rounds _ sent = Unit

  GivenUp-next :
      (self : QemuUtils) (start rounds : ℕ) (e : Exception) (sent : List Command)
      → GivenUp self (start + 1) rounds e sent
      → GivenUp self start (suc rounds) e sent
  GivenUp-next self start rounds runtime_error sent (inl failed) = inl failed
  GivenUp-next self start rounds runtime_error sent (inr count) = inr (omega arith)
  GivenUp-next self start rounds _ sent h = tt

  Ends-loosened :
      (rounds : ℕ) (self : QemuUtils) (sent : List Command) (ran : Ran (Unit {0}))
      → Ends
          (λ _. LastLine says_booted self)
          (GivenUp self (length (sent ++ tail_command self ∷ [])) rounds)
          ran
      → Ends (λ _. LastLine says_booted self) (GivenUp self (length sent) (suc rounds)) ran
  Ends-loosened rounds self sent (end, ok _) h = h
  Ends-loosened rounds self sent (end, raise e) h =
      GivenUp-next self (length sent) rounds e end
        (subst (λ n. GivenUp self n rounds e end) (length-append sent (tail_command self ∷ [])) h)

  wait_log-Ended :
      (retries : ℕ) (self : QemuUtils) (sent : List Command)
      → Ends
          (λ _. LastLine says_booted self)
          (GivenUp self (length sent) retries)
          (wait_log answers retries self sent)
  wait_log-Ended zero self sent = inr (omega arith)
  wait_log-Ended (suc retries) self sent =
      replying (answers (sent ++ tail_command self ∷ [])) refl (
        Ends-loosened retries self sent _
          (wait_log-Ended retries self (sent ++ tail_command self ∷ [])))
    where
      now : List Command
      now = sent ++ tail_command self ∷ []

      Ended : Ran (Unit {0}) → Type 0
      Ended = Ends (λ _. LastLine says_booted self) (GivenUp self (length sent) (suc retries))

      replying :
          (result : Result Reply)
          → answers now ≡ result
          → Ended (wait_log answers retries self now)
          → Ended (
              log_read (wait_log answers retries self) (
                and_then
                  (now, result)
                  (output_or (tries answers 0 (after "tail -1 " (temp_text self "log")) true))))
      replying (raise runtime_error) h later = tt
      replying (raise _) h later = tt
      replying (ok no_reply) h later = tt
      replying (ok (replied (pos (suc n)) out err)) h later = tt
      replying (ok (replied (negsuc n) out err)) h later = tt
      replying (ok (replied (pos zero) out err)) h later =
          said (says_booted out) (says_failed out) refl refl
        where
          said :
              (booted failed : Bool)
              → says_booted out ≡ booted
              → says_failed out ≡ failed
              → Ended (by_log booted failed (wait_log answers retries self) now)
          said true failed h_booted h_failed = (sent, out, err, refl, h, h_booted)
          said false true h_booted h_failed = inl (sent, out, err, refl, h, h_failed)
          said false false h_booted h_failed = later

  -- When the wait for the log returns, the line that was read last, with return code 0, says that the
  -- machine has booted. When it raises RuntimeError, the line that was read last says that the machine
  -- failed, or `retries` lines were read.
  pub wait_default-Ended :
      (retries : ℕ) (self : QemuUtils) (sent : List Command)
      → Ends
          (λ _. LastLine says_booted self)
          (GivenUp self (length sent) retries)
          (wait_default answers retries self sent)
  unfolding wait_default
  wait_default-Ended = wait_log-Ended

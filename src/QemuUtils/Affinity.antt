-- ===== src/QemuUtils/Affinity.antt =====
-- resources/libraries/python/QemuUtils.py: what pinning the machine's threads comes to.
use csit.Base.{
  ℕ, zero, suc, Bool, true, false, List, [], ◌∷◌, ◌++◌, length, ◌≡◌, refl, sym, ap, ◌∙◌, subst, ◌⊎◌,
  inl, inr, ==_iff, ◌==◌, append_assoc, append_nil,
}
use csit.Base.Result.{Exception, runtime_error, ok, raise}
use csit.Base.Text.{Text}
use csit.Base.Text.Lines.{splitlines}
use csit.Base.Int.{pos}
use csit.Ssh.{
  replied, Ends-map, Command, Answers, Ran, and_then, command, Ends, Ends-and_then, Succeeded,
  Output, exec_cmd_no_error-Output,
}
use csit.QemuUtils.{QemuUtils}
use csit.QemuUtils.Process.{
  pids_command, taskset_command, is_caught, qemu_kill_all, killed, or_killed, get_qemu_pids, pinned,
  pin_or_continue, attempt, unless_done, attempts, qemu_set_affinity,
}

-- The commands that pin thread after thread.
abbrev pub pins : List Text → List ℕ → List Command
pins (qemu_cpu ∷ qemu_cpus) (host_cpu ∷ host_cpus) =
    command (taskset_command host_cpu qemu_cpu) true ∷ pins qemu_cpus host_cpus
pins _ _ = []

module _ (answers : Answers) where
  -- The list of threads was read after `before`, and each command that pins one followed and succeeded.
  abbrev pub Pinned : QemuUtils → List ℕ → List Command → Type 0
  unfolding splitlines
  Pinned self host_cpus sent =
      (before : List Command) × (out : Text) × (stderr : Text) × (answers
          (before ++ command (pids_command self) false ∷ [])
        ≡ ok (replied (pos 0) out stderr))
      × (length (splitlines out) ≡ length host_cpus)
      × (sent
          ≡ (before ++ command (pids_command self) false ∷ []) ++ pins (splitlines out) host_cpus)
      × Succeeded answers (before ++ command (pids_command self) false ∷ [])
          (pins (splitlines out) host_cpus)

  -- What was done last is killing all, where the exception is one of those that the code catches.
  abbrev pub Cleaned : QemuUtils → Exception → List Command → Type 0
  unfolding qemu_kill_all
  Cleaned self e sent =
      (is_caught e ≡ false)
      ⊎ ((before : List Command) × (e_0 : Exception) × (is_caught e_0 ≡ true)
          × (killed answers {A = Unit {0}} self e_0 before ≡ (sent, raise e)))

  killed-Cleaned {ℓ} :
      {A : Type ℓ} (P : A → List Command → Type 0) (self : QemuUtils) (e : Exception)
      (sent : List Command)
      → is_caught e ≡ true
      → Ends P (Cleaned self) (killed answers {A = A} self e sent)
  unfolding qemu_kill_all
  killed-Cleaned P self e sent h = ended (qemu_kill_all answers self sent) refl
    where
      ended :
          (ran : Ran (Unit {0}))
          → qemu_kill_all answers self sent ≡ ran
          → Ends P (Cleaned self) (and_then ran (λ _ sent. (sent, raise e)))
      ended (after, raise e_1) eq =
          inr (sent, e, h, ap (λ r. and_then r (λ _ sent. (sent, raise e))) eq)
      ended (after, ok _) eq = inr (sent, e, h, ap (λ r. and_then r (λ _ sent. (sent, raise e))) eq)

  or_killed-Cleaned {ℓ} :
      {A : Type ℓ} (P : A → List Command → Type 0) (self : QemuUtils) (ran : Ran A)
      → Ends P (λ e sent. Unit) ran
      → Ends P (Cleaned self) (or_killed answers self is_caught ran)
  unfolding qemu_kill_all
  or_killed-Cleaned P self (sent, ok a) p = p
  or_killed-Cleaned P self (sent, raise e) p = caught (is_caught e) refl
    where
      caught :
          (b : Bool)
          → is_caught e ≡ b
          → Ends P
              (Cleaned self)
              (elim b [ true ↦ killed answers self e sent | false ↦ (sent, raise e) ])
      caught true h = killed-Cleaned P self e sent h
      caught false h = inl h

  abbrev Any : Exception → List Command → Type 0
  Any e sent = Unit

  -- The commands `plan` were sent after `sent`, and succeeded.
  abbrev Sent : List Command → List Command → Unit {0} → List Command → Type 0
  Sent sent plan _ after = (after ≡ sent ++ plan) × Succeeded answers sent plan

  -- The loop over the threads sends the commands that pin them, one after the other.
  pinned-Sent :
      (qemu_cpus : List Text) (host_cpus : List ℕ) (sent : List Command)
      → Ends (Sent sent (pins qemu_cpus host_cpus)) Any (pinned answers qemu_cpus host_cpus sent)
  pinned-Sent [] host_cpus sent = (sym (append_nil sent), tt)
  pinned-Sent (q ∷ qs) [] sent = (sym (append_nil sent), tt)
  pinned-Sent (q ∷ qs) (h ∷ hs) sent =
      let c = command (taskset_command h q) true in
      Ends-and_then (Output answers sent c) (Sent sent (c ∷ pins qs hs)) Any _
        (λ _. pinned answers qs hs) (exec_cmd_no_error-Output answers _ _ true sent)
        (λ out after (eq, (err, answer)).
          subst (λ s. Ends (Sent sent (c ∷ pins qs hs)) Any (pinned answers qs hs s)) (sym eq)
            (Ends-map (Sent (sent ++ c ∷ []) (pins qs hs)) (Sent sent (c ∷ pins qs hs)) Any _
              (pinned-Sent qs hs (sent ++ c ∷ []))
              (λ _ end (eq_end, rest).
                (eq_end ∙ append_assoc sent (c ∷ []) (pins qs hs), ((out, err, answer), rest)))))

  abbrev Listed : QemuUtils → List Command → List Text → List Command → Type 0
  unfolding splitlines
  Listed self before qemu_cpus after =
      (out : Text) × (stderr : Text) × (answers (before ++ command (pids_command self) false ∷ [])
        ≡ ok (replied (pos 0) out stderr))
      × (qemu_cpus ≡ splitlines out)
      × (after ≡ before ++ command (pids_command self) false ∷ [])

  get_qemu_pids-Listed :
      (self : QemuUtils) (sent : List Command)
      → Ends (Listed self sent) Any (get_qemu_pids answers self sent)
  unfolding get_qemu_pids splitlines
  get_qemu_pids-Listed self sent =
      Ends-and_then (Output answers sent (command (pids_command self) false)) (Listed self sent) Any
        _ (λ stdout sent. (sent, ok (splitlines stdout)))
        (exec_cmd_no_error-Output answers _ _ false sent)
        (λ out after (eq, (err, answer)). (out, err, answer, refl, eq))

  abbrev PinnedIf : QemuUtils → List ℕ → Bool → List Command → Type 0
  PinnedIf self host_cpus true after = Pinned self host_cpus after
  PinnedIf self host_cpus false after = Unit

  pin_or_continue-Pinned :
      (self : QemuUtils) (host_cpus : List ℕ) (sent : List Command) (qemu_cpus : List Text)
      (after : List Command)
      → Listed self sent qemu_cpus after
      → Ends (PinnedIf self host_cpus) Any (pin_or_continue answers host_cpus qemu_cpus after)
  unfolding splitlines
  pin_or_continue-Pinned self host_cpus sent qemu_cpus after (out, err, answer, eq, eq_after) =
      matched (length qemu_cpus == length host_cpus) refl
    where
      matched :
          (b : Bool)
          → (length qemu_cpus == length host_cpus) ≡ b
          → Ends (PinnedIf self host_cpus) Any (elim b [
            | true ↦ and_then (pinned answers qemu_cpus host_cpus after) (λ _ sent. (sent, ok true))
            | false ↦ (after, ok false)
          ])
      matched false h = tt
      matched true h =
          Ends-and_then (Sent after (pins qemu_cpus host_cpus)) (PinnedIf self host_cpus) Any _ _
            (pinned-Sent qemu_cpus host_cpus after)
            (λ _ end (eq_end, succeeded). (
              sent,
              out,
              err,
              answer,
              subst (λ cpus. length cpus ≡ length host_cpus) eq ((==_iff _ _).0 h),
              eq_end
                  ∙ (ap (λ s. s ++ pins qemu_cpus host_cpus) eq_after
                      ∙ ap
                          (λ cpus.
                            (sent ++ command (pids_command self) false ∷ []) ++ pins cpus host_cpus)
                          eq),
              subst (λ s. Succeeded answers s (pins (splitlines out) host_cpus)) eq_after
                  (subst (λ cpus. Succeeded answers after (pins cpus host_cpus)) eq succeeded),
            ))

  -- A round that comes to break has pinned every thread.
  attempt-Pinned :
      (self : QemuUtils) (host_cpus : List ℕ) (sent : List Command)
      → Ends (PinnedIf self host_cpus) (Cleaned self) (attempt answers self host_cpus sent)
  unfolding get_qemu_pids qemu_kill_all
  attempt-Pinned self host_cpus sent = or_killed-Cleaned (PinnedIf self host_cpus) self _ (
      Ends-and_then (Listed self sent) (PinnedIf self host_cpus) Any _
        (pin_or_continue answers host_cpus) (get_qemu_pids-Listed self sent)
        (pin_or_continue-Pinned self host_cpus sent))

  attempts-Ended :
      (rounds : ℕ) (self : QemuUtils) (host_cpus : List ℕ) (sent : List Command)
      → Ends
          (λ _. Pinned self host_cpus)
          (Cleaned self)
          (attempts answers rounds self host_cpus sent)
  unfolding qemu_kill_all
  attempts-Ended zero self host_cpus sent =
      killed-Cleaned (λ _. Pinned self host_cpus) self runtime_error sent refl
  attempts-Ended (suc rounds) self host_cpus sent =
      Ends-and_then (PinnedIf self host_cpus) (λ _. Pinned self host_cpus) (Cleaned self) _ _
        (attempt-Pinned self host_cpus sent) (next (attempts-Ended rounds self host_cpus))
    where
      next :
          ((after : List Command)
            → Ends
                (λ _. Pinned self host_cpus)
                (Cleaned self)
                (attempts answers rounds self host_cpus after))
          → (done : Bool) (after : List Command) → PinnedIf self host_cpus done after
          → Ends
              (λ _. Pinned self host_cpus)
              (Cleaned self)
              (unless_done answers (attempts answers rounds self host_cpus) done after)
      next later true after h = h
      next later false after h = later after

  -- When qemu_set_affinity returns, the last list of the threads has as many as there are cores, and the
  -- commands that pin each thread to its core followed it, in order, each with return code 0. When it
  -- raises RuntimeError or ValueError, qemu_kill_all is what it did last.
  pub qemu_set_affinity-Ended :
      (self : QemuUtils) (host_cpus : List ℕ) (sent : List Command)
      → Ends
          (λ _. Pinned self host_cpus)
          (Cleaned self)
          (qemu_set_affinity answers self host_cpus sent)
  unfolding qemu_set_affinity
  qemu_set_affinity-Ended = attempts-Ended 3

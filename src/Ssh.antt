-- ===== src/Ssh.antt =====
-- resources/libraries/python/ssh.py: exec_cmd and exec_cmd_no_error, which run a command on a node. What
-- the connection answers (class SSH, on paramiko) is an argument: a function of the commands sent so far.
use csit.Base.{ℕ, zero, suc, Bool, List, [], ◌∷◌, ◌++◌, ◌≡◌, refl}
use csit.Base.Int.{ℤ, pos, negsuc}
use csit.Base.Text.{Text}
use csit.Base.Result.{Exception, value_error, runtime_error, Result, ok, raise}

pub record Command : Type 0 where
  pub cmd : Text
  pub sudo : Bool

-- The triple (None, None, None) where SSHException was caught, or what the command left.
pub data Reply : Type 0 where
  no_reply : Reply
  replied : (ret_code : ℤ) (stdout stderr : Text) → Reply

-- The commands sent so far, the last one among them, and its reply or what exec_command raises.
abbrev pub Answers : Type 0
Answers = List Command → Result Reply

-- The commands sent, and how the code ended.
abbrev pub Ran {ℓ} : Type ℓ → Type ℓ
Ran A = List Command × Result A

abbrev pub and_then {ℓ κ} : {A : Type ℓ} {B : Type κ} → Ran A → (A → List Command → Ran B) → Ran B
and_then (sent, raise e) next = (sent, raise e)
and_then (sent, ok a) next = next a sent

abbrev pub command : Text → Bool → Command
command cmd sudo = record { cmd = cmd; sudo = sudo }

abbrev pub exec_cmd : Answers → Text → Bool → List Command → Ran Reply
exec_cmd answers [] sudo sent = (sent, raise value_error)
exec_cmd answers (c ∷ cs) sudo sent =
    let sent_now = sent ++ command (c ∷ cs) sudo ∷ [] in (sent_now, answers sent_now)

-- A round of the loop: the standard output of a command with return code 0, or the next round.
abbrev pub output_or : (List Command → Ran Text) → Reply → List Command → Ran Text
output_or next (replied (pos zero) stdout stderr) sent = (sent, ok stdout)
output_or next _ sent = next sent

abbrev pub tries : Answers → ℕ → Text → Bool → List Command → Ran Text
tries answers zero cmd sudo sent = (sent, raise runtime_error)
tries answers (suc rounds) cmd sudo sent =
    and_then (exec_cmd answers cmd sudo sent) (output_or (tries answers rounds cmd sudo))

-- The standard output, `retries` being 0.
abbrev pub exec_cmd_no_error : Answers → Text → Bool → List Command → Ran Text
exec_cmd_no_error answers cmd sudo = tries answers 1 cmd sudo

-- What holds where the code returns, and where it raises.
abbrev pub Ends {ℓ} :
    {A : Type ℓ}
    → (A → List Command → Type 0)
    → (Exception → List Command → Type 0)
    → Ran A
    → Type 0
Ends P Q (sent, raise e) = Q e sent
Ends P Q (sent, ok a) = P a sent

pub Ends-and_then {ℓ κ} :
    {A : Type ℓ} {B : Type κ} (P : A → List Command → Type 0) (P' : B → List Command → Type 0)
    (Q : Exception → List Command → Type 0) (ran : Ran A) (next : A → List Command → Ran B)
    → Ends P Q ran
    → ((a : A) (sent : List Command) → P a sent → Ends P' Q (next a sent))
    → Ends P' Q (and_then ran next)
Ends-and_then P P' Q (sent, raise e) next p h = p
Ends-and_then P P' Q (sent, ok a) next p h = h a sent p

pub Ends-map {ℓ} :
    {A : Type ℓ} (P P' : A → List Command → Type 0) (Q : Exception → List Command → Type 0)
    (ran : Ran A)
    → Ends P Q ran
    → ((a : A) (sent : List Command) → P a sent → P' a sent)
    → Ends P' Q ran
Ends-map P P' Q (sent, raise e) p h = p
Ends-map P P' Q (sent, ok a) p h = h a sent p

-- The commands `plan`, after `sent`, had the return code 0, each of them.
abbrev pub Succeeded : Answers → List Command → List Command → Type 0
Succeeded answers sent [] = Unit
Succeeded answers sent (c ∷ plan) =
    ((stdout : Text) × (stderr : Text) × (answers (sent ++ c ∷ [])
        ≡ ok (replied (pos 0) stdout stderr)))
    × Succeeded answers (sent ++ c ∷ []) plan

-- What the output of a command that did not fail is.
abbrev pub Output : Answers → List Command → Command → Text → List Command → Type 0
Output answers sent c out after =
    (after ≡ sent ++ c ∷ [])
    × ((stderr : Text) × (answers (sent ++ c ∷ []) ≡ ok (replied (pos 0) out stderr)))

-- exec_cmd_no_error returns only the output of a command that had the return code 0.
pub exec_cmd_no_error-Output :
    (answers : Answers) (c : ℕ) (cs : Text) (sudo : Bool) (sent : List Command)
    → Ends
        (Output answers sent (command (c ∷ cs) sudo))
        (λ e after. Unit)
        (exec_cmd_no_error answers (c ∷ cs) sudo sent)
exec_cmd_no_error-Output answers c cs sudo sent =
    answered (answers (sent ++ command (c ∷ cs) sudo ∷ [])) refl
  where
    answered :
        (result : Result Reply)
        → answers (sent ++ command (c ∷ cs) sudo ∷ []) ≡ result
        → Ends
            (Output answers sent (command (c ∷ cs) sudo))
            (λ e after. Unit)
            (and_then
              (sent ++ command (c ∷ cs) sudo ∷ [], result)
              (output_or (tries answers 0 (c ∷ cs) sudo)))
    answered (raise e) h = tt
    answered (ok no_reply) h = tt
    answered (ok (replied (pos zero) out err)) h = (refl, (err, h))
    answered (ok (replied (pos (suc n)) out err)) h = tt
    answered (ok (replied (negsuc n) out err)) h = tt

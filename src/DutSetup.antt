-- ===== src/DutSetup.antt =====
-- resources/libraries/python/DUTSetup.py: get_hugepages_info and check_huge_page.
use csit.Base.{
  ℕ, zero, suc, ◌*◌, ◌/◌, Bool, true, false, Option, none, some, List, [], ◌∷◌, ◌++◌, get_elem?,
  ltb,
}
use csit.Base.Int.{ℤ, pos, negsuc, ◌-ℤ◌, show_int, read_int}
use csit.Base.Result.{
  runtime_error, value_error, index_error, type_error, zero_division_error, Result, ok, raise,
  or_raise, ◌>>=◌,
}
use csit.Base.Text.{Text, codes, join}
use csit.Base.Text.Lines.{splitlines}
use csit.Ssh.{Command, Answers, Ran, and_then, exec_cmd_no_error}

pub record Hugepages : Type 0 where
  pub free_hugepages : ℤ
  pub nr_hugepages : ℤ
  pub nr_hugepages_mempolicy : ℤ
  pub nr_overcommit_hugepages : ℤ
  pub resv_hugepages : ℤ
  pub surplus_hugepages : ℤ

-- `int(line[i])`
abbrev int_at : List Text → ℕ → Result ℤ
int_at line i = or_raise index_error (get_elem? line i) >>= (λ s. or_raise value_error (read_int s))

-- The dictionary, its values read in order.
abbrev read_info : List Text → Result Hugepages
read_info line = int_at line 0 >>= (λ free. int_at line 1 >>= (λ nr. int_at line 2 >>= (λ mempolicy.
    int_at line 3 >>= (λ overcommit. int_at line 4 >>= (λ resv. int_at line 5 >>= (λ surplus.
      ok (record {
        free_hugepages = free;
        nr_hugepages = nr;
        nr_hugepages_mempolicy = mempolicy;
        nr_overcommit_hugepages = overcommit;
        resv_hugepages = resv;
        surplus_hugepages = surplus;
      })))))))

-- ValueError is caught, and the function returns None then.
abbrev none_on_value_error : Result Hugepages → Result (Option Hugepages)
none_on_value_error (ok info) = ok (some info)
none_on_value_error (raise value_error) = ok none
none_on_value_error (raise e) = raise e

abbrev size_text : Option ℕ → Text
size_text none = codes "$(grep Hugepagesize /proc/meminfo | awk '{ print $2 }')"
size_text (some zero) = codes "$(grep Hugepagesize /proc/meminfo | awk '{ print $2 }')"
size_text (some (suc n)) = show_int (pos (suc n))

abbrev pub or_type_error : Option Hugepages → Result Hugepages
or_type_error info = or_raise type_error info

-- `n > a`
abbrev pub exceeds : ℕ → ℤ → Bool
exceeds n (pos m) = ltb m n
exceeds n (negsuc m) = true

abbrev pub plus : ℤ → ℤ → ℤ
plus a b = a -ℤ (pos 0 -ℤ b)

abbrev pub available_from : Hugepages → ℤ → ℤ
available_from info (pos zero) = info.free_hugepages
available_from info overcommit = overcommit -ℤ info.surplus_hugepages

-- The pages that can be had: `free_hugepages` unless overcommit is used.
unfoldable pub huge_available : Hugepages → ℤ
huge_available info = available_from info info.nr_overcommit_hugepages

abbrev pub tee_command : ℤ → Text → Text
tee_command n file = join [] (codes "echo \"" ∷ show_int n ∷ codes "\" | sudo tee " ∷ file ∷ [])

module _ (answers : Answers) where
  unfoldable pub get_hugepages_info : Option ℕ → List Command → Ran (Option Hugepages)
  unfolding splitlines
  get_hugepages_info hugesize sent =
      and_then
        (exec_cmd_no_error answers
          (join [] (
            codes "cat /sys/kernel/mm/hugepages/hugepages-"
            ∷ size_text hugesize
            ∷ codes "kB/*"
            ∷ []))
          false sent)
        (λ stdout sent. (sent, none_on_value_error (read_info (splitlines stdout))))

  -- `try: fgrep` and the mount where it fails.
  abbrev pub mounted : Text → ℕ → Ran Text → Ran (Unit {0})
  mounted huge_mnt hugesize (sent, ok _) = (sent, ok tt)
  mounted huge_mnt hugesize (sent, raise runtime_error) =
      and_then (exec_cmd_no_error answers (codes "mkdir -p " ++ huge_mnt) true sent) (λ _ sent.
        and_then
          (exec_cmd_no_error answers
            (join [] (
              codes "mount -t hugetlbfs -o pagesize="
              ∷ show_int (pos hugesize)
              ∷ codes "k none "
              ∷ huge_mnt
              ∷ []))
            true sent)
          (λ _ sent. (sent, ok tt)))
  mounted huge_mnt hugesize (sent, raise e) = (sent, raise e)

  abbrev pub allocated : Text → ℕ → ℤ → List Command → Ran (Unit {0})
  allocated huge_mnt hugesize huge_to_allocate sent =
      and_then
        (mounted huge_mnt hugesize
          (exec_cmd_no_error answers (codes "fgrep 'hugetlbfs' /proc/mounts") false sent))
        (λ _ sent.
          and_then
            (exec_cmd_no_error answers
              (tee_command
                (plus (plus huge_to_allocate huge_to_allocate)
                  (plus huge_to_allocate huge_to_allocate))
                (codes "/proc/sys/vm/max_map_count"))
              false sent)
            (λ _ sent.
              and_then
                (exec_cmd_no_error answers
                  (tee_command huge_to_allocate (codes "/proc/sys/vm/nr_hugepages")) false sent)
                (λ _ sent. (sent, ok tt))))

  -- Where too few pages are available: allocate, or raise.
  abbrev pub short_of : Text → ℕ → Bool → ℤ → Hugepages → List Command → Ran (Unit {0})
  unfolding huge_available
  short_of huge_mnt hugesize true needed info sent =
      allocated huge_mnt hugesize (plus (needed -ℤ huge_available info) info.nr_hugepages) sent
  short_of huge_mnt hugesize false needed info sent = (sent, raise runtime_error)

  -- From the information on; the size of a page is not zero here.
  abbrev pub checked : Text → ℕ → ℕ → Bool → Hugepages → List Command → Ran (Unit {0})
  unfolding huge_available
  checked huge_mnt needed hugesize allocate info sent =
      elim (exceeds needed (huge_available info)) [
        | true ↦ short_of huge_mnt hugesize allocate (pos needed) info sent
        | false ↦ (sent, ok tt)
      ]

  unfoldable pub check_huge_page : Text → ℕ → ℕ → Bool → List Command → Ran (Unit {0})
  unfolding get_hugepages_info
  check_huge_page huge_mnt mem_size hugesize allocate sent =
      and_then (get_hugepages_info (some hugesize) sent) (λ info sent.
        and_then (sent, or_type_error info)
          (λ info sent. elim hugesize [
            | zero ↦ (sent, raise zero_division_error)
            | suc n ↦ checked huge_mnt ((mem_size * 1024) / suc n) (suc n) allocate info sent
          ]))

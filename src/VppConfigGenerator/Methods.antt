-- ===== src/VppConfigGenerator/Methods.antt =====
-- resources/libraries/python/VppConfigGenerator.py: the methods with checks, loops, or a composed path,
-- and those that run commands on the node, which are a parameter.
use csit.Base.{
  ℕ, zero, suc, leb, ◌==◌, Bool, false, ◌&&◌, not, Option, none, some, List, [], ◌∷◌, ◌++◌,
  if◌then◌else◌, drop, any,
}
use csit.Base.Int.{pos, show_int}
use csit.Base.Text.{Text, codes, text_eq, join}
use csit.Base.Result.{Result, ok, raise, ◌>>=◌, type_error, value_error}
use csit.Topology.{Node}
use csit.VppConfigGenerator.{Item, null, text, VppConfigGenerator, Outcome, pci_dev_check}
use csit.VppConfigGenerator.Settings.{stored}

-- The statements after a call, unless it raised.
abbrev pub and_next : Outcome → (VppConfigGenerator → Outcome) → Outcome
and_next (self, raise e) next = (self, raise e)
and_next (self, ok _) next = next self

-- A statement under `if pci_dev_check(...)`, which is true or raises.
abbrev pub if_checked : VppConfigGenerator → Result (Unit {0}) → Outcome → Outcome
if_checked self (raise e) outcome = (self, raise e)
if_checked self (ok _) outcome = outcome

unfoldable pub add_unix_log : VppConfigGenerator → Option Item → Outcome
add_unix_log self none = stored self (text self.vpp_logfile) (codes "unix" ∷ codes "log" ∷ [])
add_unix_log self (some value) = stored self value (codes "unix" ∷ codes "log" ∷ [])

-- The default of the argument is a constant from the environment.
unfoldable pub add_graph_node_variant : VppConfigGenerator → Text → Outcome
add_graph_node_variant self variant =
    if text_eq variant []
    then (self, ok tt)
    else if any (text_eq variant) (codes "hsw" ∷ codes "skx" ∷ codes "icl" ∷ [])
    then stored self (text variant) (codes "node" ∷ codes "default" ∷ codes "variant" ∷ [])
    else (self, raise value_error)

abbrev pub dev_path : Text → List Text
dev_path device = codes "dpdk" ∷ (codes "dev " ++ device) ∷ []

unfoldable pub add_dpdk_dev : VppConfigGenerator → List Text → Outcome
add_dpdk_dev self [] = (self, ok tt)
add_dpdk_dev self (device ∷ devices) =
    and_next (if_checked self (pci_dev_check device) (stored self (text []) (dev_path device)))
      (λ after. add_dpdk_dev after devices)

unfoldable pub add_dpdk_dev_parameter : VppConfigGenerator → Text → Text → Item → Outcome
add_dpdk_dev_parameter self device parameter value =
    if_checked self (pci_dev_check device)
      (stored self value (codes "dpdk" ∷ (codes "dev " ++ device) ∷ parameter ∷ []))

-- `Topology.get_uio_driver`, where a node that is not set has no keys.
abbrev pub uio_driver_of : VppConfigGenerator → Option Node → Outcome
uio_driver_of self none = (self, raise type_error)
uio_driver_of self (some node) =
    stored self (elim node.uio_driver [ none ↦ null | some driver ↦ text driver ])
      (codes "dpdk" ∷ codes "uio-driver" ∷ [])

unfoldable pub add_dpdk_uio_driver : VppConfigGenerator → Option Item → Outcome
add_dpdk_uio_driver self none = uio_driver_of self self.node
add_dpdk_uio_driver self (some value) = stored self value (codes "dpdk" ∷ codes "uio-driver" ∷ [])

abbrev pub is_digit : ℕ → Bool
is_digit c = leb 48 c && leb c 57

-- The pattern of a digit, a character and a digit at the end, or before a line feed there.
abbrev pub ends_here : Text → Bool
ends_here (a ∷ b ∷ c ∷ []) = is_digit a && not (b == 10) && is_digit c
ends_here (a ∷ b ∷ c ∷ d ∷ []) = is_digit a && not (b == 10) && is_digit c && d == 10
ends_here _ = false

-- `re.sub` with that pattern, in an ASCII text.
unfoldable pub sub_end : Text → Text → Text
sub_end new [] = []
sub_end new (c ∷ s) =
    let later = sub_end new s in if ends_here (c ∷ s) then new ++ drop 3 (c ∷ s) else c ∷ later

abbrev pub cryptodev_loop : Option Text → ℕ → ℕ → VppConfigGenerator → Outcome
cryptodev_loop cryptodev i zero self = (self, ok tt)
cryptodev_loop none i (suc count) self = (self, raise type_error)
cryptodev_loop (some cryptodev) i (suc count) self =
    and_next (stored self (text []) (dev_path (sub_end (codes "1." ++ show_int (pos i)) cryptodev)))
      (cryptodev_loop (some cryptodev) (suc i) count)

abbrev pub cryptodevs_of : VppConfigGenerator → Option Node → ℕ → Outcome
cryptodevs_of self none count = (self, raise type_error)
cryptodevs_of self (some node) count =
    and_next (cryptodev_loop node.cryptodev 0 count self)
      (λ after. add_dpdk_uio_driver after (some (text (codes "vfio-pci"))))

unfoldable pub add_dpdk_cryptodev : VppConfigGenerator → ℕ → Outcome
add_dpdk_cryptodev self count = cryptodevs_of self self.node count

unfoldable pub add_dpdk_sw_cryptodev : VppConfigGenerator → Text → Text → ℕ → Outcome
add_dpdk_sw_cryptodev self sw_pmd_type socket_id zero = (self, ok tt)
add_dpdk_sw_cryptodev self sw_pmd_type socket_id (suc count) =
    and_next
      (stored self (text []) (
        codes "dpdk"
        ∷ (codes "vdev cryptodev_"
            ++ (sw_pmd_type ++ (codes "_pmd," ++ (codes "socket_id=" ++ socket_id))))
        ∷ []))
      (λ after. add_dpdk_sw_cryptodev after sw_pmd_type socket_id count)

-- The slaves, as the generator expression checks them.
abbrev pub checked_slaves : List Text → Result (Unit {0})
checked_slaves [] = ok tt
checked_slaves (slave ∷ slaves) = do _ ← pci_dev_check slave; checked_slaves slaves

abbrev pub ethbond_config : Text → Text → Text → List Text → Text
ethbond_config ethbond_id mode xmit_policy slaves =
    codes "vdev eth_bond"
    ++ (ethbond_id
        ++ (codes ","
            ++ (codes "mode="
                ++ (mode
                    ++ (codes "slave="
                        ++ (join (codes ",slave=") slaves
                            ++ (codes ",xmit_policy=" ++ xmit_policy)))))))

unfoldable pub add_dpdk_eth_bond_dev : VppConfigGenerator → Text → Text → Text → List Text → Outcome
add_dpdk_eth_bond_dev self ethbond_id mode xmit_policy slaves =
    if_checked self (checked_slaves slaves) (
      stored self (text []) (codes "dpdk" ∷ ethbond_config ethbond_id mode xmit_policy slaves ∷ []))

unfoldable pub add_plugin : VppConfigGenerator → Text → List Text → Outcome
add_plugin self state [] = (self, ok tt)
add_plugin self state (plugin ∷ plugins) =
    and_next
      (stored self (text (codes " ")) (codes "plugins" ∷ (codes "plugin " ++ plugin) ∷ state ∷ []))
      (λ after. add_plugin after state plugins)

unfoldable pub add_nat : VppConfigGenerator → Option Text → Outcome
add_nat self none = stored self (text []) (codes "nat" ∷ codes "deterministic" ∷ [])
add_nat self (some value) = stored self (text []) (codes "nat" ∷ value ∷ [])

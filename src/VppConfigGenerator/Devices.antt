-- ===== src/VppConfigGenerator/Devices.antt =====
-- `add_dpdk_dev` and `get_config_str` of resources/libraries/python/VppConfigGenerator.py.
use csit.Base.{
  false, some, List, [], ◌∷◌, ◌++◌, ◌≡◌, ◌≢◌, refl, sym, ap, ◌∙◌, inl, inr, arith, Bool-cases, All,
  drop,
}
use csit.Base.Text.{Text, codes, text_eq, text_eq_iff}
use csit.Base.Result.{ok, raise, value_error}
use csit.VppConfigGenerator.{
  text, Config, VppConfigGenerator, pci_dev_check, dump_config, get_config_str,
}
use csit.VppConfigGenerator.Methods.{dev_path, add_dpdk_dev}
use csit.Base.Text.Words.{split}
use csit.VppConfigGenerator.Outline.{append, read_config, outline}
use csit.VppConfigGenerator.Lined.{IsPrintable}
use csit.VppConfigGenerator.Reading.{read_config-dump_config_twice}
use csit.VppConfigGenerator.Paths.{IsPlain, get_path, Added, add_config_item-Added}

-- Once a device is in the configuration, it stays there when another is added, or the same again.
abbrev pub Listed : Text → Config → Type 0
Listed device config = get_path (dev_path device) config ≡ some (text [])

different : (s t : Text) → text_eq s t ≡ false → s ≢ t
different s t h e = let same = (text_eq_iff s t).1 in ground arith

Listed-Added :
    (device other : Text) (before after : Config)
    → Added before (text []) (dev_path other) after
    → Listed device before
    → Listed device after
Listed-Added device other before after (plain, there, others) h =
    elim (Bool-cases (text_eq other device)) [
      | inl same ↦
          ap (λ d. get_path (dev_path d) after) (sym ((text_eq_iff other device).0 same)) ∙ there
      | inr apart ↦
          let differs : (codes "dev " ++ other) ≢ (codes "dev " ++ device) =
            λ e. different other device apart (ap (drop 4) e) in
          others (dev_path device) (text []) (inr (refl, inl differs)) h
    ]

-- The devices pass the check.
abbrev pub Checked : Text → Type 0
Checked device = pci_dev_check device ≡ ok tt

-- Adding devices returns, and changes the configuration alone.
abbrev pub AllListed : VppConfigGenerator → List Text → Config → Type 0
AllListed self devices config =
    IsPlain config
    × (add_dpdk_dev self devices ≡ (record self { nodeconfig = config }, ok tt))
    × All (λ d. Listed d config) devices
    × ((d : Text) → Listed d self.nodeconfig → Listed d config)

-- When all devices pass the check of their address, and the configuration holds texts and sections
-- only, add_dpdk_dev returns and each device is in the configuration, with those that were there before.
pub add_dpdk_dev-AllListed :
    (devices : List Text) (self : VppConfigGenerator)
    → IsPlain self.nodeconfig
    → All Checked devices
    → (config : Config) × AllListed self devices config
unfolding add_dpdk_dev
add_dpdk_dev-AllListed [] self plain h = (self.nodeconfig, (plain, refl, tt, λ d l. l))
add_dpdk_dev-AllListed (device ∷ devices) self plain (h, hs) =
    let (changed, returns, added) =
      add_config_item-Added self.nodeconfig (text []) (codes "dpdk") ((codes "dev " ++ device) ∷ [])
        plain tt in
    let (config, (plain_2, e, all, old)) =
      add_dpdk_dev-AllListed devices (record self { nodeconfig = changed }) added.0 hs in
    (
      config,
      (
        plain_2,
        rw (h, returns) e,
        (old device added.1, all),
        λ d l. old d (Listed-Added d device self.nodeconfig changed added l),
      ),
    )

-- With a device among them that fails the check, add_dpdk_dev raises ValueError and leaves what the
-- devices before it alone leave, when those pass and the configuration holds texts and sections only.
pub add_dpdk_dev-stops :
    (devices rest : List Text) (bad : Text) (self : VppConfigGenerator)
    → IsPlain self.nodeconfig
    → All Checked devices
    → pci_dev_check bad ≡ raise value_error
    → add_dpdk_dev self (devices ++ bad ∷ rest) ≡ ((add_dpdk_dev self devices).0, raise value_error)
unfolding add_dpdk_dev
add_dpdk_dev-stops [] rest bad self plain h fails = rw fails refl
add_dpdk_dev-stops (device ∷ devices) rest bad self plain (h, hs) fails =
    let (changed, returns, added) =
      add_config_item-Added self.nodeconfig (text []) (codes "dpdk") ((codes "dev " ++ device) ∷ [])
        plain tt in
    rw (h, returns)
      (add_dpdk_dev-stops devices rest bad (record self { nodeconfig = changed }) added.0 hs fails)

-- After a first get_config_str, the text that a second one gives reads as the whole configuration twice,
-- for a generator that was not dumped before and whose configuration can be printed.
pub get_config_str-twice :
    (self : VppConfigGenerator)
    → self.vpp_config ≡ []
    → IsPrintable self.nodeconfig
    → read_config (split 10 (get_config_str (get_config_str self).0).1)
      ≡ some (append (outline self.nodeconfig) (outline self.nodeconfig))
unfolding get_config_str
get_config_str-twice self fresh h =
    ap
      (λ t.
        read_config (split 10 ((t ++ dump_config self.nodeconfig) ++ dump_config self.nodeconfig)))
      fresh
    ∙ read_config-dump_config_twice self.nodeconfig h

-- ===== src/DpdkUtil/Tests.antt =====
-- The command line for small arguments, and the theorems at them.
use csit.Base.{◌≡◌, refl, [], ◌∷◌}
use csit.Base.Dict.{lookup}
use csit.Base.Text.{codes, strip, join, text_eq}
use csit.OptionString.{
  init, add, extend, add_with_value_from_dict, add_equals_from_dict, add_if_from_dict,
  add_with_value_if_from_dict, converted, to_str,
}
use csit.DpdkUtil.{Kwargs, lit, lit_false, get_eal_options, get_l3fwd_pmd_options, get_l3fwd_args}

abbrev kwargs : Kwargs
kwargs =
    (codes "eal_corelist", lit " 0,1 ")
    ∷ (codes "eal_driver", lit_false)
    ∷ (codes "pmd_parse_ptype", lit_false)
    ∷ (codes "pmd_config", lit "(0,0,1)")
    ∷ []

l3fwd_run : to_str (get_l3fwd_args kwargs) ≡ codes "-v -l 0,1 -- --config=(0,0,1)"
unfolding get_l3fwd_args get_eal_options get_l3fwd_pmd_options add extend init converted strip
    to_str join lookup add_with_value_from_dict add_equals_from_dict add_if_from_dict
    add_with_value_if_from_dict text_eq
l3fwd_run = refl

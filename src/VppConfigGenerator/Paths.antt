-- ===== src/VppConfigGenerator/Paths.antt =====
-- `add_config_item` of resources/libraries/python/VppConfigGenerator.py: what is at the paths of the
-- configuration afterwards.
use csit.Base.{
  Option, none, some, List, [], ◌∷◌, ◌≡◌, ◌≢◌, refl, sym, ap, ◌∙◌, ◌⊎◌, inl, inr, arith, Bool-cases,
  if◌then◌else◌,
}
use csit.Base.Text.{Text, text_eq, text_eq_iff}
use csit.Base.Result.{ok}
use csit.VppConfigGenerator.{
  Item, null, text, number, listed, section, Config, empty, entry, find, assign, below,
  add_config_item,
}

pub find-assign :
    (key other : Text) (item : Item) (config : Config)
    → find other (assign key item config)
      ≡ (if text_eq key other then some item else find other config)
unfolding find assign
find-assign key other item empty = refl
find-assign key other item (entry k old rest) = ground (
  arith,
  text_eq_iff key other,
  text_eq_iff k key,
  text_eq_iff k other,
  find-assign key other item rest,
)

find-assign_same :
    (key : Text) (item : Item) (config : Config) → find key (assign key item config) ≡ some item
find-assign_same key item config =
    rw (find-assign key key item config, (text_eq_iff key key).1 refl) refl

find-assign_other :
    (key other : Text) (item : Item) (config : Config)
    → key ≢ other
    → find other (assign key item config) ≡ find other config
find-assign_other key other item config differs = elim (Bool-cases (text_eq key other)) [
  | inl same ↦ absurd (differs ((text_eq_iff key other).0 same))
  | inr apart ↦ rw (find-assign key other item config, apart) refl
]

-- The value at a path of keys, with what a section holds there.
abbrev pub within : (Config → Option Item) → Option Item → Option Item
within look none = none
within look (some null) = none
within look (some (text s)) = none
within look (some (number n)) = none
within look (some (listed values)) = none
within look (some (section config)) = look config

abbrev pub get_path : List Text → Config → Option Item
get_path [] config = none
get_path (key ∷ []) config = find key config
get_path (key ∷ next ∷ path) config = within (get_path (next ∷ path)) (find key config)

-- Two paths that part at some key: neither begins with the other.
abbrev pub Apart : List Text → List Text → Type 0
Apart [] q = ⊥
Apart (a ∷ p) [] = ⊥
Apart (a ∷ p) (b ∷ q) = (a ≢ b) ⊎ ((a ≡ b) × Apart p q)

-- A configuration of texts and sections only.
abbrev mutual
  pub IsPlainItem : Item → Type 0
  IsPlainItem null = ⊥
  IsPlainItem (text s) = Unit
  IsPlainItem (number n) = ⊥
  IsPlainItem (listed values) = ⊥
  IsPlainItem (section config) = IsPlain config

  pub IsPlain : Config → Type 0
  IsPlain empty = Unit
  IsPlain (entry key item rest) = IsPlainItem item × IsPlain rest

assign-IsPlain :
    (key : Text) (item : Item) (config : Config)
    → IsPlainItem item
    → IsPlain config
    → IsPlain (assign key item config)
unfolding assign
assign-IsPlain key item empty h k = (h, tt)
assign-IsPlain key item (entry other old rest) h (k, l) = elim (Bool-cases (text_eq other key)) [
  | inl e ↦ rw e (h, l)
  | inr e ↦ rw e (k, assign-IsPlain key item rest h l)
]

-- A value, if there is one, has a property.
abbrev pub IfAny : (Item → Type 0) → Option Item → Type 0
IfAny P none = Unit
IfAny P (some item) = P item

find-IsPlain : (key : Text) (config : Config) → IsPlain config → IfAny IsPlainItem (find key config)
unfolding find
find-IsPlain key empty h = tt
find-IsPlain key (entry other old rest) (h, k) = elim (Bool-cases (text_eq other key)) [
  | inl same ↦ rw same h
  | inr apart ↦ rw apart (find-IsPlain key rest k)
]

-- A plain value gives a plain dictionary to go on with, which holds what was at the paths below it.
below-IsPlain :
    (found : Option Item)
    → IfAny IsPlainItem found
    → (config : Config) × (below found ≡ ok config)
      × IsPlain config
      × ((q : List Text) (item : Item)
          → within (get_path q) found ≡ some item
          → get_path q config ≡ some item)
below-IsPlain none h = (empty, refl, tt, λ q item e. cc)
below-IsPlain (some (text [])) h = (empty, refl, tt, λ q item e. cc)
below-IsPlain (some (text (c ∷ s))) h =
    (entry (c ∷ s) (text []) empty, refl, (tt, tt), λ q item e. cc)
below-IsPlain (some (section config)) h = (config, refl, h, λ q item e. e)
below-IsPlain (some null) h = absurd h
below-IsPlain (some (number n)) h = absurd h
below-IsPlain (some (listed values)) h = absurd h

-- What holds of a configuration after an item was added to a plain one.
abbrev pub Added : Config → Item → List Text → Config → Type 0
Added config value path changed =
    IsPlain changed
    × (get_path path changed ≡ some value)
    × ((q : List Text) (item : Item)
        → Apart path q
        → get_path q config ≡ some item
        → get_path q changed ≡ some item)

get_path-find :
    (key : Text) (path : List Text) (c d : Config)
    → find key c ≡ find key d
    → get_path (key ∷ path) c ≡ get_path (key ∷ path) d
get_path-find key [] c d e = e
get_path-find key (next ∷ path) c d e = ap (within (get_path (next ∷ path))) e

-- An assignment at a key leaves the values at paths that part from the key's.
assign-others :
    (key : Text) (value item : Item) (config : Config) (q : List Text)
    → Apart (key ∷ []) q
    → get_path q config ≡ some item
    → get_path q (assign key value config) ≡ some item
assign-others key value item config [] apart e = absurd apart
assign-others key value item config (b ∷ q) (inl differs) e =
    get_path-find b q _ _ (find-assign_other key b value config differs) ∙ e
assign-others key value item config (b ∷ q) (inr (same, apart)) e = absurd apart

-- And one of a section leaves those below it that the section has.
section-others :
    (key next : Text) (path q : List Text) (changed config : Config) (item : Item)
    → ((q : List Text)
        → Apart (next ∷ path) q
        → within (get_path q) (find key config) ≡ some item
        → get_path q changed ≡ some item)
    → Apart (key ∷ next ∷ path) q
    → get_path q config ≡ some item
    → get_path q (assign key (section changed) config) ≡ some item
section-others key next path [] changed config item others apart e = absurd apart
section-others key next path (b ∷ q) changed config item others (inl differs) e =
    get_path-find b q _ _ (find-assign_other key b (section changed) config differs) ∙ e
section-others key next path (b ∷ []) changed config item others (inr (same, apart)) e =
    absurd apart
section-others key next path (b ∷ n ∷ q) changed config item others (inr (same, apart)) e =
    let same_path = ap (λ k. within (get_path (n ∷ q)) (find k config)) same in
    let found =
      ap (λ k. find k (assign key (section changed) config)) (sym same)
      ∙ find-assign_same key (section changed) config in
    ap (within (get_path (n ∷ q))) found ∙ others (n ∷ q) apart (same_path ∙ e)

-- An item of a plain configuration that is added at a path is there afterwards, no value at a path that
-- parts from it is lost or changed, and nothing is raised.
pub add_config_item-Added :
    (config : Config) (value : Item) (key : Text) (path : List Text)
    → IsPlain config
    → IsPlainItem value
    → (changed : Config) × (add_config_item config value (key ∷ path) ≡ ok changed)
      × Added config value (key ∷ path) changed
unfolding add_config_item
add_config_item-Added config value key [] plain h = (
  assign key value config,
  refl,
  (
    assign-IsPlain key value config h plain,
    find-assign_same key value config,
    λ q item apart e. assign-others key value item config q apart e,
  ),
)
add_config_item-Added config value key (next ∷ path) plain h =
    let (inner, e, inner_plain, from_before) =
      below-IsPlain (find key config) (find-IsPlain key config plain) in
    let (changed, returns, (changed_plain, there, others)) =
      add_config_item-Added inner value next path inner_plain h in
    (
      assign key (section changed) config,
      rw (e, returns) refl,
      (
        assign-IsPlain key (section changed) config changed_plain plain,
        ap (within (get_path (next ∷ path))) (find-assign_same key (section changed) config)
            ∙ there,
        λ q item apart e_2.
            section-others key next path q changed config item
              (λ q_2 apart_2 e_3. others q_2 item apart_2 (from_before q_2 item e_3)) apart e_2,
      ),
    )

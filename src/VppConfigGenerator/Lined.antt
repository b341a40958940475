-- ===== src/VppConfigGenerator/Lined.antt =====
-- The text of a startup configuration of resources/libraries/python/VppConfigGenerator.py, as lines.
use csit.Base.{
  ℕ, zero, suc, ◌+◌, ◌/◌, ◌%◌, ◌==◌, false, List, [], ◌∷◌, ◌++◌, ◌≡◌, refl, sym, ap, ◌∙◌, arith,
  All, append_assoc,
}
use csit.Base.Int.{ℤ, pos, negsuc, show_int, digits_of}
use csit.Base.Text.{Text, codes, text_eq}
use csit.Base.Text.Words.{Lacks, split, split-append}
use csit.VppConfigGenerator.{
  Item, null, text, number, listed, section, Config, empty, entry, indent, line, braced,
  values_text, dump_item, dump_items,
}

-- A name does not begin with a blank, is not a brace, and is on one line.
abbrev pub IsName : Text → Type 0
IsName [] = ⊥
IsName (c ∷ s) =
    ((c == 32) ≡ false)
    × (text_eq (c ∷ s) (codes "{") ≡ false)
    × (text_eq (c ∷ s) (codes "}") ≡ false)
    × Lacks 10 (c ∷ s)

-- Keys and listed values are names, and other values are on one line.
abbrev mutual
  pub IsPrintableItem : Item → Type 0
  IsPrintableItem null = Unit
  IsPrintableItem (text s) = Lacks 10 s
  IsPrintableItem (number n) = Unit
  IsPrintableItem (listed values) = All IsName values
  IsPrintableItem (section config) = IsPrintable config

  pub IsPrintable : Config → Type 0
  IsPrintable empty = Unit
  IsPrintable (entry key item rest) = IsName key × IsPrintableItem item × IsPrintable rest

abbrev pub value_lines : ℕ → List Text → List Text
value_lines depth [] = []
value_lines depth (value ∷ values) = (indent depth ++ value) ∷ value_lines depth values

-- A block of lines between braces.
abbrev pub block_lines : Text → ℕ → List Text → List Text
block_lines key depth body =
    (indent depth ++ key)
    ∷ (indent depth ++ codes "{")
    ∷ (body ++ ((indent depth ++ codes "}") ∷ []))

abbrev mutual
  pub item_lines : Text → Item → ℕ → List Text
  item_lines key null depth = (indent depth ++ (key ++ 32 ∷ codes "None")) ∷ []
  item_lines key (text s) depth = (indent depth ++ (key ++ 32 ∷ s)) ∷ []
  item_lines key (number n) depth = (indent depth ++ (key ++ 32 ∷ show_int n)) ∷ []
  item_lines key (listed values) depth = block_lines key depth (value_lines (suc depth) values)
  item_lines key (section config) depth = block_lines key depth (config_lines config (suc depth))

  pub config_lines : Config → ℕ → List Text
  config_lines empty depth = []
  config_lines (entry key item rest) depth = item_lines key item depth ++ config_lines rest depth

-- A text is made of lines, whatever text follows.
abbrev pub Splits : Text → List Text → Type 0
Splits s lines = (t : Text) → split 10 (s ++ t) ≡ lines ++ split 10 t

pub Splits-append :
    (s t : Text) (ls ms : List Text) → Splits s ls → Splits t ms → Splits (s ++ t) (ls ++ ms)
Splits-append s t ls ms h k u =
    ap (split 10) (append_assoc s t u)
    ∙ (h (t ++ u) ∙ (ap (λ l. ls ++ l) (k u) ∙ sym (append_assoc ls ms (split 10 u))))

pub Lacks-append : (c : ℕ) (s t : Text) → Lacks c s → Lacks c t → Lacks c (s ++ t)
Lacks-append c [] t h k = k
Lacks-append c (x ∷ s) t h k = ground (arith, Lacks-append c s t)

Lacks-indent : (depth : ℕ) → Lacks 10 (indent depth)
Lacks-indent zero = refl
Lacks-indent (suc depth) = Lacks-indent depth

Lacks-digits_of : (fuel n : ℕ) (tail : Text) → Lacks 10 tail → Lacks 10 (digits_of fuel n tail)
unfolding digits_of
Lacks-digits_of zero n tail h = h
Lacks-digits_of (suc fuel) n tail h =
    let later = Lacks-digits_of fuel (n / 10) ((48 + n % 10) ∷ tail) in ground arith

pub Lacks-show_int : (n : ℤ) → Lacks 10 (show_int n)
unfolding show_int
Lacks-show_int (pos n) = Lacks-digits_of (suc n) n [] refl
Lacks-show_int (negsuc n) = Lacks-digits_of (suc (suc n)) (suc n) [] refl

IsName-Lacks : (s : Text) → IsName s → Lacks 10 s
IsName-Lacks [] h = absurd h
IsName-Lacks (c ∷ s) (a, b, d, h) = h

Splits-line : (depth : ℕ) (s : Text) → Lacks 10 s → Splits (line depth s) ((indent depth ++ s) ∷ [])
Splits-line depth s h t =
    ap (split 10) (append_assoc (indent depth ++ s) (10 ∷ []) t)
    ∙ split-append 10 (indent depth ++ s) t
        (Lacks-append 10 (indent depth) s (Lacks-indent depth) h)

-- A line for a key and a value.
Splits-pair :
    (depth : ℕ) (key s : Text)
    → IsName key
    → Lacks 10 s
    → Splits (line depth (key ++ 32 ∷ s)) ((indent depth ++ (key ++ 32 ∷ s)) ∷ [])
Splits-pair depth key s name h =
    Splits-line depth (key ++ 32 ∷ s) (Lacks-append 10 key (32 ∷ s) (IsName-Lacks key name) h)

Splits-block :
    (depth : ℕ) (key body : Text) (ls : List Text)
    → IsName key
    → Splits body ls
    → Splits (line depth key ++ braced (suc depth) body) (block_lines key depth ls)
Splits-block depth key body ls name h =
    let before : List Text = (indent depth ++ codes "{") ∷ [] in
    let after : List Text = (indent depth ++ codes "}") ∷ [] in
    let at_key : List Text = (indent depth ++ key) ∷ [] in
    Splits-append (line depth key) (braced (suc depth) body) at_key ((before ++ ls) ++ after)
      (Splits-line depth key (IsName-Lacks key name))
      (Splits-append (line depth (codes "{") ++ body) (line depth (codes "}")) (before ++ ls) after
        (Splits-append (line depth (codes "{")) body before ls (Splits-line depth (codes "{") refl)
          h)
        (Splits-line depth (codes "}") refl))

Splits-values :
    (depth : ℕ) (values : List Text)
    → All IsName values
    → Splits (values_text depth values) (value_lines depth values)
Splits-values depth [] h = λ t. refl
Splits-values depth (value ∷ values) (h, hs) =
    Splits-append (line depth value) (values_text depth values) ((indent depth ++ value) ∷ [])
      (value_lines depth values) (Splits-line depth value (IsName-Lacks value h))
      (Splits-values depth values hs)

mutual
  unfolding dump_item

  pub dump_item-Splits :
      (key : Text) (item : Item) (depth : ℕ)
      → IsName key
      → IsPrintableItem item
      → Splits (dump_item key item depth) (item_lines key item depth)
  dump_item-Splits key null depth name h = Splits-pair depth key (codes "None") name refl
  dump_item-Splits key (text s) depth name h = Splits-pair depth key s name h
  dump_item-Splits key (number n) depth name h =
      Splits-pair depth key (show_int n) name (Lacks-show_int n)
  dump_item-Splits key (listed values) depth name h =
      Splits-block depth key (values_text (suc depth) values) (value_lines (suc depth) values) name
        (Splits-values (suc depth) values h)
  dump_item-Splits key (section config) depth name h =
      Splits-block depth key (dump_items config (suc depth)) (config_lines config (suc depth)) name
        (dump_items-Splits config (suc depth) h)

  pub dump_items-Splits :
      (config : Config) (depth : ℕ)
      → IsPrintable config
      → Splits (dump_items config depth) (config_lines config depth)
  dump_items-Splits empty depth h = λ t. refl
  dump_items-Splits (entry key item rest) depth (name, h, k) =
      Splits-append (dump_item key item depth) (dump_items rest depth) (item_lines key item depth)
        (config_lines rest depth) (dump_item-Splits key item depth name h)
        (dump_items-Splits rest depth k)

-- ===== src/VppConfigGenerator/Reading.antt =====
-- The lines of a startup configuration of resources/libraries/python/VppConfigGenerator.py, read back.
use csit.Base.{
  ℕ, zero, suc, Option, none, some, List, [], ◌∷◌, ◌++◌, ◌≡◌, refl, sym, ap, ◌∙◌, arith, All,
  append_nil,
}
use csit.Base.Int.{show_int}
use csit.Base.Text.{Text, codes, text_eq}
use csit.Base.Text.Words.{split, Lacks}
use csit.VppConfigGenerator.{
  Item, null, text, number, listed, section, Config, empty, entry, indent, dump_items, dump_config,
}
use csit.VppConfigGenerator.Outline.{
  plain, block, Lines, end, more, append, append-end, append_assoc, Reader, with_last, settled,
  read_lines, read_line, read_trimmed, read_config, finished, closed, without_indent, going_on,
  plain_lines, line_of, outline,
}
use csit.VppConfigGenerator.Lined.{
  IsName, IsPrintable, IsPrintableItem, value_lines, block_lines, item_lines, config_lines, Splits,
  Splits-append, dump_items-Splits, Lacks-append, Lacks-show_int,
}

-- Reading lines adds lines to the innermost block, and leaves the outer ones.
abbrev pub Reads : List Text → Lines → Type 0
Reads ss ls =
    (outer : List (Lines × Text)) (inner : Lines) (last : Option Text)
    → (inner_2 : Lines) × (last_2 : Option Text) × (read_lines ss
          (record { outer = outer; inner = inner; last = last })
        ≡ some (record { outer = outer; inner = inner_2; last = last_2 }))
      × (with_last inner_2 last_2 ≡ append (with_last inner last) ls)

going_on_assoc :
    (o : Option Reader) (first both : Reader → Option Reader) (then_on : Reader → Option Reader)
    → ((r : Reader) → both r ≡ going_on (first r) then_on)
    → going_on o both ≡ going_on (going_on o first) then_on
going_on_assoc none first both then_on h = refl
going_on_assoc (some r) first both then_on h = h r

read_lines-append :
    (ss ts : List Text) (r : Reader)
    → read_lines (ss ++ ts) r ≡ going_on (read_lines ss r) (read_lines ts)
read_lines-append [] ts r = refl
read_lines-append (s ∷ ss) ts r =
    going_on_assoc (read_line s r) (read_lines ss) (read_lines (ss ++ ts)) (read_lines ts)
      (read_lines-append ss ts)

Reads-append :
    (ss ts : List Text) (ls ms : Lines)
    → Reads ss ls
    → Reads ts ms
    → Reads (ss ++ ts) (append ls ms)
Reads-append ss ts ls ms h k outer inner last =
    let (inner_2, last_2, reads, shows) = h outer inner last in
    let (inner_3, last_3, reads_2, shows_2) = k outer inner_2 last_2 in
    (
      inner_3,
      last_3,
      read_lines-append ss ts _ ∙ (ap (λ o. going_on o (read_lines ts)) reads ∙ reads_2),
      shows_2 ∙ (ap (λ l. append l ms) shows ∙ append_assoc (with_last inner last) ls ms),
    )

Reads-none : Reads [] end
Reads-none outer inner last = (inner, last, refl, sym (append-end (with_last inner last)))

without_indent-name : (depth : ℕ) (s : Text) → IsName s → without_indent (indent depth ++ s) ≡ s
without_indent-name zero [] h = absurd h
without_indent-name zero (c ∷ s) (blank, opens, closes, h) = rw blank refl
without_indent-name (suc depth) s h = without_indent-name depth s h

-- A line that is no brace becomes the last line.
read_line-name :
    (depth : ℕ) (s : Text) (r : Reader)
    → IsName s
    → read_line (indent depth ++ s) r
      ≡ some (record { outer = r.outer; inner = settled r; last = some s })
read_line-name depth s r h = ap (λ t. read_trimmed t r) (without_indent-name depth s h) ∙ named s h
  where
    named :
        (s : Text)
        → IsName s
        → read_trimmed s r ≡ some (record { outer = r.outer; inner = settled r; last = some s })
    named [] h = absurd h
    named (c ∷ s) (blank, opens, closes, h) = rw (opens, closes) refl

Reads-plain :
    (depth : ℕ) (s : Text) → IsName s → Reads ((indent depth ++ s) ∷ []) (more (plain s) end)
Reads-plain depth s h outer inner last = (
  with_last inner last,
  some s,
  ap (λ o. going_on o (read_lines [])) (read_line-name depth s _ h),
  refl,
)

read_line-brace :
    (depth : ℕ) (s : Text) (r : Reader)
    → without_indent s ≡ s
    → read_line (indent depth ++ s) r ≡ read_trimmed s r
read_line-brace zero s r h = ap (λ t. read_trimmed t r) h
read_line-brace (suc depth) s r h = read_line-brace depth s r h

-- A name, a brace, the lines of a block, and a brace.
Reads-block :
    (key : Text) (depth : ℕ) (body : List Text) (ls : Lines)
    → IsName key
    → Reads body ls
    → Reads (block_lines key depth body) (more (block key ls) end)
unfolding text_eq
Reads-block key depth body ls name h outer inner last =
    let before = with_last inner last in
    let start : Reader = record { outer = outer; inner = inner; last = last } in
    let named : Reader = record { outer = outer; inner = before; last = some key } in
    let opens : Reader = record { outer = (before, key) ∷ outer; inner = end; last = none } in
    let close : List Text = (indent depth ++ codes "}") ∷ [] in
    let brace : List Text = (indent depth ++ codes "{") ∷ (body ++ close) in
    let (inner_2, last_2, reads, shows) = h ((before, key) ∷ outer) end none in
    let inside : Reader = record {
      outer = (before, key) ∷ outer;
      inner = inner_2;
      last = last_2;
    } in
    let final : Reader = record {
      outer = outer;
      inner = append before (more (block key ls) end);
      last = none;
    } in
    let at_name : read_lines (block_lines key depth body) start ≡ read_lines brace named =
      ap (λ o. going_on o (read_lines brace)) (read_line-name depth key start name) in
    let at_brace : read_lines brace named ≡ read_lines (body ++ close) opens =
      ap (λ o. going_on o (read_lines (body ++ close)))
        (read_line-brace depth (codes "{") named refl) in
    let at_close : read_lines close inside ≡ some final =
      ap (λ o. going_on o (read_lines [])) (read_line-brace depth (codes "}") inside refl)
      ∙ ap (λ l. closed ((before, key) ∷ outer) l) shows in
    (
      append before (more (block key ls) end),
      none,
      at_name
          ∙ (at_brace
              ∙ (read_lines-append body close opens
                  ∙ (ap (λ o. going_on o (read_lines close)) reads ∙ at_close))),
      refl,
    )

-- A name with a value behind it can be read like a name.
IsName-pair : (key s : Text) → IsName key → Lacks 10 s → IsName (key ++ 32 ∷ s)
unfolding text_eq
IsName-pair [] s h k = absurd h
IsName-pair (c ∷ []) s (blank, opens, closes, one_line) k =
    (blank, ground arith, ground arith, ground arith)
IsName-pair (c ∷ d ∷ key) s (blank, opens, closes, one_line) k =
    (blank, ground arith, ground arith, Lacks-append 10 (c ∷ d ∷ key) (32 ∷ s) one_line k)

Reads-values :
    (depth : ℕ) (values : List Text)
    → All IsName values
    → Reads (value_lines depth values) (plain_lines values)
Reads-values depth [] h = Reads-none
Reads-values depth (value ∷ values) (h, hs) =
    Reads-append ((indent depth ++ value) ∷ []) (value_lines depth values) (more (plain value) end)
      (plain_lines values) (Reads-plain depth value h) (Reads-values depth values hs)

mutual
  unfolding line_of

  Reads-item :
      (key : Text) (item : Item) (depth : ℕ)
      → IsName key
      → IsPrintableItem item
      → Reads (item_lines key item depth) (more (line_of key item) end)
  Reads-item key null depth name h =
      Reads-plain depth (key ++ 32 ∷ codes "None") (IsName-pair key (codes "None") name refl)
  Reads-item key (text s) depth name h =
      Reads-plain depth (key ++ 32 ∷ s) (IsName-pair key s name h)
  Reads-item key (number n) depth name h =
      Reads-plain depth (key ++ 32 ∷ show_int n)
        (IsName-pair key (show_int n) name (Lacks-show_int n))
  Reads-item key (listed values) depth name h =
      Reads-block key depth (value_lines (suc depth) values) (plain_lines values) name
        (Reads-values (suc depth) values h)
  Reads-item key (section config) depth name h =
      Reads-block key depth (config_lines config (suc depth)) (outline config) name
        (Reads-config config (suc depth) h)

  Reads-config :
      (config : Config) (depth : ℕ)
      → IsPrintable config
      → Reads (config_lines config depth) (outline config)
  Reads-config empty depth h = Reads-none
  Reads-config (entry key item rest) depth (name, h, k) =
      Reads-append (item_lines key item depth) (config_lines rest depth)
        (more (line_of key item) end) (outline rest) (Reads-item key item depth name h)
        (Reads-config rest depth k)

-- The empty line behind the last line feed changes nothing.
read_config-Splits :
    (s : Text) (ls : List Text) (tree : Lines)
    → Splits s ls
    → Reads ls tree
    → read_config (split 10 s) ≡ some tree
unfolding read_config split
read_config-Splits s ls tree splits h =
    let start : Reader = record { outer = []; inner = end; last = none } in
    let (inner, last, reads, shows) = h [] end none in
    ap (λ t. finished (read_lines (split 10 t) start)) (sym (append_nil s))
    ∙ (ap (λ l. finished (read_lines l start)) (splits [])
        ∙ (ap finished (read_lines-append ls ([] ∷ []) start)
            ∙ (ap (λ o. finished (going_on o (read_lines ([] ∷ [])))) reads ∙ ap some shows)))

-- The text of a configuration reads back as the lines and blocks that it stands for, when its keys and
-- its listed values are on one line and do not begin with a blank and are no braces, and its other values
-- are on one line.
pub read_config-dump_config :
    (config : Config)
    → IsPrintable config
    → read_config (split 10 (dump_config config)) ≡ some (outline config)
unfolding dump_config
read_config-dump_config config h =
    read_config-Splits (dump_items config 0) (config_lines config 0) (outline config)
      (dump_items-Splits config 0 h) (Reads-config config 0 h)

pub read_config-dump_config_twice :
    (config : Config)
    → IsPrintable config
    → read_config (split 10 (dump_config config ++ dump_config config))
      ≡ some (append (outline config) (outline config))
unfolding dump_config
read_config-dump_config_twice config h =
    let dump = dump_items config 0 in
    let lines = config_lines config 0 in
    read_config-Splits (dump ++ dump) (lines ++ lines) (append (outline config) (outline config))
      (Splits-append dump dump lines lines (dump_items-Splits config 0 h)
        (dump_items-Splits config 0 h))
      (Reads-append lines lines (outline config) (outline config) (Reads-config config 0 h)
        (Reads-config config 0 h))

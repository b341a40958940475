-- ===== src/VppConfigGenerator/Outline.antt =====
-- A reader of the startup configuration that resources/libraries/python/VppConfigGenerator.py writes, a
-- line at a time: the tree of its lines and blocks, and the tree that a configuration stands for.
use csit.Base.{◌==◌, Option, none, some, List, [], ◌∷◌, ◌++◌, ◌≡◌, refl, ap, if◌then◌else◌}
use csit.Base.Int.{show_int}
use csit.Base.Text.{Text, codes, text_eq}
use csit.VppConfigGenerator.{Item, null, text, number, listed, section, Config, empty, entry}

mutual
  pub data Line : Type 0 where
    plain : Text → Line
    block : Text → Lines → Line

  pub data Lines : Type 0 where
    end : Lines
    more : Line → Lines → Lines

abbrev pub append : Lines → Lines → Lines
append end rest = rest
append (more l ls) rest = more l (append ls rest)

pub append-end : (ls : Lines) → append ls end ≡ ls
append-end end = refl
append-end (more l ls) = ap (more l) (append-end ls)

pub append_assoc : (a b c : Lines) → append (append a b) c ≡ append a (append b c)
append_assoc end b c = refl
append_assoc (more l a) b c = ap (more l) (append_assoc a b c)

-- What was read: the blocks that are not closed yet, the innermost first, each with the lines before it
-- and its name; the lines of the innermost; and the last line, which may turn out to name a block.
pub record Reader : Type 0 where
  pub outer : List (Lines × Text)
  pub inner : Lines
  pub last : Option Text

abbrev pub with_last : Lines → Option Text → Lines
with_last inner none = inner
with_last inner (some s) = append inner (more (plain s) end)

-- The lines of the innermost block with the last one.
abbrev pub settled : Reader → Lines
settled r = with_last r.inner r.last

abbrev pub opened : List (Lines × Text) → Lines → Option Text → Option Reader
opened outer inner none = none
opened outer inner (some name) =
    some (record { outer = (inner, name) ∷ outer; inner = end; last = none })

abbrev pub closed : List (Lines × Text) → Lines → Option Reader
closed [] lines = none
closed ((before, name) ∷ outer) lines =
    some
      (record { outer = outer; inner = append before (more (block name lines) end); last = none })

-- A line without the blanks before it.
abbrev pub without_indent : Text → Text
without_indent [] = []
without_indent (c ∷ s) = if c == 32 then without_indent s else c ∷ s

abbrev pub read_trimmed : Text → Reader → Option Reader
read_trimmed [] r = some r
read_trimmed (c ∷ s) r =
    if text_eq (c ∷ s) (codes "{")
    then opened r.outer r.inner r.last
    else if text_eq (c ∷ s) (codes "}")
    then closed r.outer (settled r)
    else some (record { outer = r.outer; inner = settled r; last = some (c ∷ s) })

abbrev pub read_line : Text → Reader → Option Reader
read_line s r = read_trimmed (without_indent s) r

abbrev pub going_on : Option Reader → (Reader → Option Reader) → Option Reader
going_on none next = none
going_on (some r) next = next r

abbrev pub read_lines : List Text → Reader → Option Reader
read_lines [] r = some r
read_lines (s ∷ ss) r = going_on (read_line s r) (read_lines ss)

-- All blocks have to be closed at the end.
abbrev pub finished : Option Reader → Option Lines
finished none = none
finished (some r) = elim r.outer [ [] ↦ some (settled r) | b ∷ bs ↦ none ]

unfoldable pub read_config : List Text → Option Lines
read_config lines = finished (read_lines lines (record { outer = []; inner = end; last = none }))

-- The lines and blocks that a configuration stands for.
abbrev pub plain_lines : List Text → Lines
plain_lines [] = end
plain_lines (value ∷ values) = more (plain value) (plain_lines values)

unfoldable mutual
  pub line_of : Text → Item → Line
  line_of key null = plain (key ++ 32 ∷ codes "None")
  line_of key (text s) = plain (key ++ 32 ∷ s)
  line_of key (number n) = plain (key ++ 32 ∷ show_int n)
  line_of key (listed values) = block key (plain_lines values)
  line_of key (section config) = block key (outline config)

  pub outline : Config → Lines
  outline empty = end
  outline (entry key item rest) = more (line_of key item) (outline rest)

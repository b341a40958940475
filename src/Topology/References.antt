-- ===== src/Topology/References.antt =====
-- References to an interface, in any of the three formats.
use csit.Base.{
  Bool, true, Option, none, some, List, [], ◌∷◌, ◌++◌, ◌≡◌, refl, sym, ap, ◌∙◌, ◌⊎◌, inl, inr,
  arith, Bool-cases,
}
use csit.Base.Int.{int_eq, int_eq_iff}
use csit.Base.Dict.{Dict, lookup, has}
use csit.Base.Text.{Text, text_eq, text_eq_iff}
use csit.Base.Result.{ok}
use csit.Topology.{Interface, Node}
use csit.Topology.Query.{
  elem, holds, find_interface, get_interface_by_key_value, get_interface_by_sw_index,
  get_interface_by_name, get_interface_by_link_name, add_link, add_links, links_from, get_links,
  Reference, index, named, found_or_raise, convert_interface_reference_to_key,
}

-- An item of a dictionary.
abbrev pub In : Text → Interface → Dict Interface → Type 0
In key i [] = ⊥
In key i ((k, j) ∷ d) = ((key ≡ k) × (i ≡ j)) ⊎ In key i d

-- The interface is one that the reference is to.
abbrev pub Refers : Reference → Text → Interface → Type 0
Refers (index n) key i = i.vpp_sw_index ≡ some n
Refers (named s) key i = (key ≡ s) ⊎ ((i.link ≡ some s) ⊎ (i.name ≡ some s))

-- The key that the loop finds is that of an item that passes the test.
find_interface-In :
    (test : Interface → Bool) (d : Dict Interface) (key : Text)
    → find_interface test d ≡ some key
    → (i : Interface) × In key i d × (test i ≡ true)
unfolding find_interface
find_interface-In test [] key h = cc
find_interface-In test ((k, j) ∷ d) key h = elim (Bool-cases (test j)) [
  | inl e ↦
      let found : some k ≡ some key = sym (rw e refl) ∙ h in
      let same : key ≡ k = cc in (j, inl (same, refl), e)
  | inr e ↦
      let (i, inside, passed) = find_interface-In test d key (sym (rw e refl) ∙ h) in
      (i, inr inside, passed)
]

has-In : (key : Text) (d : Dict Interface) → has key d ≡ true → (i : Interface) × In key i d
unfolding lookup
has-In key [] h = cc
has-In key ((k, j) ∷ d) h = elim (Bool-cases (text_eq k key)) [
  | inl e ↦ (j, inl (sym ((text_eq_iff k key).0 e), refl))
  | inr e ↦ let (i, inside) = has-In key d (sym (rw (has, e) refl) ∙ h) in (i, inr inside)
]

holds-some {ℓ} :
    {A : Type ℓ} (eq : A → A → Bool) (value : A) (o : Option A)
    → ((a b : A) → eq a b ≡ true → a ≡ b)
    → holds eq value o ≡ true
    → o ≡ some value
holds-some eq value none sound h = cc
holds-some eq value (some a) sound h = ap some (sound a value h)

elem-append :
    (s l : Text) (links : List Text)
    → elem s (links ++ l ∷ []) ≡ true
    → (elem s links ≡ true) ⊎ (text_eq l s ≡ true)
unfolding elem
elem-append s l [] h = inr (ground (arith, text_eq_iff s l, text_eq_iff l s))
elem-append s l (t ∷ links) h = elim (Bool-cases (text_eq s t)) [
  | inl e ↦ inl (rw e refl)
  | inr e ↦ elim (elem-append s l links (sym (rw e refl) ∙ h)) [
    | inl f ↦ inl (rw (e, f) refl)
    | inr f ↦ inr f
  ]
]

elem-add_link :
    (s : Text) (links : List Text) (link : Option Text)
    → elem s (add_link links link) ≡ true
    → (elem s links ≡ true) ⊎ (holds text_eq s link ≡ true)
unfolding add_link
elem-add_link s links none h = inl h
elem-add_link s links (some l) h = elim (Bool-cases (elem l links)) [
  | inl e ↦ inl (sym (rw e refl) ∙ h)
  | inr e ↦ elem-append s l links (sym (rw e refl) ∙ h)
]

-- A link among those collected was there before, or leads to an interface.
elem-add_links :
    (s : Text) (links : List Text) (d : Dict Interface)
    → elem s (add_links links d) ≡ true
    → (elem s links ≡ true)
      ⊎ ((key : Text) × (find_interface (λ i. holds text_eq s (i.link)) d ≡ some key))
unfolding add_links find_interface
elem-add_links s links [] h = inl h
elem-add_links s links ((k, j) ∷ d) h = elim (Bool-cases (holds text_eq s j.link)) [
  | inl e ↦ inr (k, rw e refl)
  | inr e ↦ elim (elem-add_links s (add_link links j.link) d h) [
    | inr (key, f) ↦ inr (key, rw e f)
    | inl f ↦ elim (elem-add_link s links j.link f) [ inl g ↦ inl g | inr g ↦ cc ]
  ]
]

link_leads :
    (node : Node) (s : Text)
    → elem s (get_links (node ∷ [])) ≡ true
    → (key : Text) × (get_interface_by_link_name node s ≡ some key)
unfolding get_links links_from get_interface_by_link_name get_interface_by_key_value elem
link_leads node s h = elim (elem-add_links s [] node.interfaces h) [ inl e ↦ cc | inr k ↦ k ]

-- What a conversion that returns has found.
abbrev pub Found : Node → Reference → Option Text → Type 0
Found node reference key =
    (k : Text) × (i : Interface) × (key ≡ some k) × In k i node.interfaces × Refers reference k i

looked_up :
    {A : Type 0} (node : Node) (reference : Reference) (field : Interface → Option A)
    (eq : A → A → Bool) (value : A) (k : Text)
    → ((a b : A) → eq a b ≡ true → a ≡ b)
    → ((key : Text) (i : Interface) → field i ≡ some value → Refers reference key i)
    → get_interface_by_key_value node field eq value ≡ some k
    → Found node reference (some k)
unfolding get_interface_by_key_value
looked_up node reference field eq value k sound refers h =
    let (i, inside, passed) =
      find_interface-In (λ i. holds eq value (field i)) node.interfaces k h in
    (k, i, refl, inside, refers k i (holds-some eq value (field i) sound passed))

-- The result of a lookup whose failure raises.
found_or_raise-ok :
    (o key : Option Text) → found_or_raise o ≡ ok key → (k : Text) × (o ≡ some k) × (key ≡ some k)
found_or_raise-ok none key h = cc
found_or_raise-ok (some k) key h = (k, refl, cc)

at_key :
    (node : Node) (reference : Reference) (k : Text) (key : Option Text)
    → key ≡ some k
    → Found node reference (some k)
    → Found node reference key
at_key node reference k key e found = rw e found

-- A conversion that returns gives a key and never None: the key of an item of the node's interfaces that
-- the reference is to, by its `sw_if_index`, or else by its key, its link or its name.
pub convert_interface_reference_to_key-Found :
    (node : Node) (reference : Reference) (key : Option Text)
    → convert_interface_reference_to_key node reference ≡ ok key
    → Found node reference key
unfolding convert_interface_reference_to_key get_interface_by_sw_index get_interface_by_name
    get_interface_by_link_name
convert_interface_reference_to_key-Found node (index n) key h =
    let (k, e, same) = found_or_raise-ok (get_interface_by_sw_index node n) key h in
    at_key node (index n) k key same (
      looked_up node (index n) (λ i. i.vpp_sw_index) int_eq n k (λ a b. (int_eq_iff a b).0)
        (λ key i r. r) e)
convert_interface_reference_to_key-Found node (named s) key h =
    elim (Bool-cases (has s node.interfaces)) [
      | inl e ↦
          let returned : ok (some s) ≡ ok key = sym (rw e refl) ∙ h in
          let (i, inside) = has-In s node.interfaces e in
          let same : key ≡ some s = cc in (s, i, same, inside, inl refl)
      | inr e ↦ elim (Bool-cases (elem s (get_links (node ∷ [])))) [
        | inl f ↦
            let (k, found) = link_leads node s f in
            let returned : ok (get_interface_by_link_name node s) ≡ ok key =
              sym (rw (e, f) refl) ∙ h in
            let same : key ≡ some k = cc in
            at_key node (named s) k key same (
              looked_up node (named s) (λ i. i.link) text_eq s k (λ a b. (text_eq_iff a b).0)
                (λ key i r. inr (inl r)) found)
        | inr f ↦
            let (k, found, same) =
              found_or_raise-ok (get_interface_by_name node s) key (sym (rw (e, f) refl) ∙ h) in
            at_key node (named s) k key same (
              looked_up node (named s) (λ i. i.name) text_eq s k (λ a b. (text_eq_iff a b).0)
                (λ key i r. inr (inr r)) found)
      ]
    ]

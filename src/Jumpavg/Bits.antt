-- ===== src/Jumpavg/Bits.antt =====
-- The bits that groups and lists of groups keep, and the bits counted from scratch.
use csit.Base.{Option, none, some, List, [], ◌∷◌, ◌++◌, ◌≡◌, refl, sym, ap, subst, ◌∙◌, last?}
use csit.Jumpavg.{
  Run, Stats, BitCountingGroup, BitCountingGroupList, read_cache, group_bits, new_group, read_last,
  sum_bits, bits, append_group_of_runs, commented, average_of,
}

module _ {F S : Type 0} (ops : Stats F S) where
  abbrev pub computed : BitCountingGroup F S → F
  computed g = ops.bits_of g.stats g.max_value g.prev_avg

  -- The bits of groups, added to a number from scratch.
  abbrev pub total : F → List (BitCountingGroup F S) → F
  total sum [] = sum
  total sum (g ∷ gs) = total (ops.add sum (computed g)) gs

  abbrev pub FreshCache : Option F → F → Type 0
  FreshCache none b = Unit
  FreshCache (some cached) b = cached ≡ b

  -- The sum before the last group is the number that the list keeps, and the last group's cache is
  -- empty or right.
  abbrev pub Counted : F → List (BitCountingGroup F S) → F → Type 0
  Counted sum [] except = except ≡ sum
  Counted sum (g ∷ []) except = (except ≡ sum) × FreshCache g.cached_bits (computed g)
  Counted sum (g ∷ h ∷ gs) except = Counted (ops.add sum (computed g)) (h ∷ gs) except

  read_cache-bits :
      (g : BitCountingGroup F S) (b : F) (cached : Option F)
      → FreshCache cached b
      → (read_cache ops g b cached).1 ≡ b
  read_cache-bits g b none fresh = refl
  read_cache-bits g b (some c) fresh = fresh

  read_cache-Fresh :
      (g : BitCountingGroup F S) (cached : Option F)
      → FreshCache g.cached_bits (computed g)
      → FreshCache
          (read_cache ops g (computed g) cached).0.cached_bits
          (computed (read_cache ops g (computed g) cached).0)
  read_cache-Fresh g none fresh = refl
  read_cache-Fresh g (some c) fresh = fresh

  Counted-append :
      (sum except : F) (gs : List (BitCountingGroup F S)) (new : BitCountingGroup F S)
      → FreshCache new.cached_bits (computed new)
      → Counted sum (gs ++ new ∷ []) (total sum gs)
  Counted-append sum except [] new fresh = (refl, fresh)
  Counted-append sum except (g ∷ []) new fresh = (refl, fresh)
  Counted-append sum except (g ∷ h ∷ gs) new fresh =
      Counted-append (ops.add sum (computed g)) except (h ∷ gs) new fresh

  pub read_last-Counted :
      (sum except : F) (gs : List (BitCountingGroup F S))
      → Counted sum gs except
      → Counted sum (read_last ops gs).0 except
  unfolding read_last group_bits
  read_last-Counted sum except [] counted = counted
  read_last-Counted sum except (g ∷ []) (same, fresh) =
      (same, read_cache-Fresh g g.cached_bits fresh)
  read_last-Counted sum except (g ∷ h ∷ []) (same, fresh) =
      (same, read_cache-Fresh h h.cached_bits fresh)
  read_last-Counted sum except (g ∷ h ∷ k ∷ gs) counted =
      read_last-Counted (ops.add sum (computed g)) except (h ∷ k ∷ gs) counted

  read_last-bits :
      (sum except : F) (g : BitCountingGroup F S) (gs : List (BitCountingGroup F S))
      (self : BitCountingGroupList F S)
      → Counted sum (g ∷ gs) except
      → self.bits_except_last ≡ except
      → (read : List (BitCountingGroup F S))
      → (sum_bits ops self read (read_last ops (g ∷ gs)).1).1 ≡ total sum (g ∷ gs)
  unfolding read_last group_bits
  read_last-bits sum except g [] self (same, fresh) e read =
      ap (λ (x : F). ops.add x (read_cache ops g (computed g) g.cached_bits).1) (e ∙ same)
      ∙ ap (ops.add sum) (read_cache-bits g (computed g) g.cached_bits fresh)
  read_last-bits sum except g (h ∷ gs) self counted e read =
      read_last-bits (ops.add sum (computed g)) except h gs self counted e read

  -- A list of groups whose kept numbers are right.
  abbrev pub IsCounted : BitCountingGroupList F S → Type 0
  IsCounted self = Counted ops.nothing self.group_list self.bits_except_last

  bits-of_list :
      (self : BitCountingGroupList F S) (gs : List (BitCountingGroup F S))
      → Counted ops.nothing gs self.bits_except_last
      → (sum_bits ops self (read_last ops gs).0 (read_last ops gs).1).1 ≡ total ops.nothing gs
  bits-of_list self [] counted = unfold read_last in refl
  bits-of_list self (g ∷ gs) counted =
      read_last-bits ops.nothing self.bits_except_last g gs self counted refl
        (read_last ops (g ∷ gs)).0

  pub bits-total :
      (self : BitCountingGroupList F S)
      → IsCounted self
      → (bits ops self).1 ≡ total ops.nothing self.group_list
  unfolding bits
  bits-total self counted = bits-of_list self self.group_list counted

  sum_bits-IsCounted :
      (self : BitCountingGroupList F S) (read : List (BitCountingGroup F S)) (last_bits : Option F)
      → IsCounted self
      → Counted ops.nothing read self.bits_except_last
      → IsCounted (sum_bits ops self read last_bits).0
  sum_bits-IsCounted self read none counted read_counted = counted
  sum_bits-IsCounted self read (some b) counted read_counted = read_counted

  pub bits-IsCounted :
      (self : BitCountingGroupList F S) → IsCounted self → IsCounted (bits ops self).0
  unfolding bits
  bits-IsCounted self counted =
      sum_bits-IsCounted self (read_last ops self.group_list).0 (read_last ops self.group_list).1
        counted (read_last-Counted ops.nothing self.bits_except_last self.group_list counted)

  read_cache-computed :
      (g : BitCountingGroup F S) (b : F) (cached : Option F)
      → computed (read_cache ops g b cached).0 ≡ computed g
  read_cache-computed g b none = refl
  read_cache-computed g b (some c) = refl

  total-read_last :
      (sum : F) (gs : List (BitCountingGroup F S)) → total sum (read_last ops gs).0 ≡ total sum gs
  unfolding read_last group_bits
  total-read_last sum [] = refl
  total-read_last sum (g ∷ []) = ap (ops.add sum) (read_cache-computed g (computed g) g.cached_bits)
  total-read_last sum (g ∷ h ∷ gs) = total-read_last (ops.add sum (computed g)) (h ∷ gs)

  total-sum_bits :
      (self : BitCountingGroupList F S) (read : List (BitCountingGroup F S)) (last_bits : Option F)
      → total ops.nothing read ≡ total ops.nothing self.group_list
      → total ops.nothing (sum_bits ops self read last_bits).0.group_list
        ≡ total ops.nothing self.group_list
  total-sum_bits self read none same = refl
  total-sum_bits self read (some b) same = same

  total-bits :
      (self : BitCountingGroupList F S)
      → total ops.nothing (bits ops self).0.group_list ≡ total ops.nothing self.group_list
  unfolding bits
  total-bits self =
      total-sum_bits self (read_last ops self.group_list).0 (read_last ops self.group_list).1
        (total-read_last ops.nothing self.group_list)

  pub append_group_of_runs-IsCounted :
      (self : BitCountingGroupList F S) (runs : List (Run F S))
      → IsCounted self
      → IsCounted (append_group_of_runs ops self runs)
  unfolding append_group_of_runs new_group
  append_group_of_runs-IsCounted self runs counted =
      subst
        (λ b.
          Counted ops.nothing
            ((bits ops self).0.group_list
              ++ new_group ops runs self.max_value (average_of ops (last? self.group_list)) ∷ [])
            b)
        (total-bits self ∙ sym (bits-total self counted))
        (Counted-append ops.nothing ops.nothing (bits ops self).0.group_list _ tt)

  -- Comments have no bits.
  pub commented-Counted :
      (previous sum except : F) (gs : List (BitCountingGroup F S))
      → Counted sum gs except
      → Counted sum (commented ops previous gs) except
  unfolding commented
  commented-Counted previous sum except [] counted = counted
  commented-Counted previous sum except (g ∷ []) counted = counted
  commented-Counted previous sum except (g ∷ h ∷ gs) counted =
      commented-Counted (ops.avg g.stats) (ops.add sum (computed g)) except (h ∷ gs) counted

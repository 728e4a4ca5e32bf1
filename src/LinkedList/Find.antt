-- ===== src/LinkedList/Find.antt =====
-- ListFindItem: the search ends within `count` steps and finds the first element that is wanted.
use paho_mqtt_c.Common.{
  ℕ, zero, suc, ◌<◌, ◌≡◌, ◌≢◌, ◌⊎◌, inl, inr, refl, sym, ap, ◌∙◌, arith, Bool, true, false, [], ◌∷◌,
}
use paho_mqtt_c.Common.{Option, none, some, All, length, if◌then◌else◌, Bool-cases}
use paho_mqtt_c.Packet.Wire.{ok}
use paho_mqtt_c.LinkedList.{Store, ListHeader, find_loop, current_matches, found_current, find_item}
use paho_mqtt_c.LinkedList.Chain.{Cells, element, head_or, Chain, At, CurrentIn, IsList}
use paho_mqtt_c.LinkedList.Links.{load_lem}

-- The cell at an address.
pub Chain-At :
    (h : Store) (before after : Option ℕ) (xs : Cells) (a c : ℕ)
    → Chain h before after xs
    → At a c xs
    → (prev : Option ℕ) × (next : Option ℕ) × (h a ≡ some (element c prev next))
Chain-At h before after [] a c s at = absurd at
Chain-At h before after ((b, d) ∷ xs) a c s (inl e) =
    (before, head_or after xs, rw (sym e.0, sym e.1) s.0)
Chain-At h before after ((b, d) ∷ xs) a c s (inr at) = Chain-At h (some b) after xs a c s.1 at

ok_false_ne_true : ok false ≢ ok true
ok_false_ne_true e = cc

module _ (test : ℕ → Bool) where
  -- No cell's content is wanted.
  abbrev pub NoneOf : Cells → Type 0
  NoneOf xs = All (λ x. test x.1 ≡ false) xs

  -- What the search gives: nothing, if nothing is wanted, or the address of a cell that is.
  abbrev pub Finds : Cells → Option ℕ → Type 0
  Finds xs none = NoneOf xs
  Finds xs (some a) = (c : ℕ) × At a c xs × (test c ≡ true)

  -- The first cell that is wanted.
  unfoldable pub first_wanted : Cells → Option ℕ
  first_wanted [] = none
  first_wanted ((a, c) ∷ xs) = if test c then some a else first_wanted xs

  Finds-later :
      (a c : ℕ) (xs : Cells) (rc : Option ℕ) → test c ≡ false → Finds xs rc → Finds ((a, c) ∷ xs) rc
  Finds-later a c xs none miss f = (miss, f)
  Finds-later a c xs (some b) miss (d, at, hit) = (d, inr at, hit)

  pub first_wanted-Finds : (xs : Cells) → Finds xs (first_wanted xs)
  unfolding first_wanted
  first_wanted-Finds [] = tt
  first_wanted-Finds ((a, c) ∷ xs) = elim (Bool-cases (test c)) [
    | inl e ↦ rw e (c, inl (refl, refl), e)
    | inr e ↦ rw e (Finds-later a c xs (first_wanted xs) e (first_wanted-Finds xs))
  ]

  pub find_loop_lem :
      (fuel : ℕ) (h : Store) (before : Option ℕ) (xs : Cells)
      → Chain h before none xs
      → length xs < fuel
      → find_loop test fuel h (head_or none xs) ≡ ok (first_wanted xs)
  unfolding find_loop first_wanted
  find_loop_lem fuel h before [] s enough = refl
  find_loop_lem zero h before ((a, c) ∷ xs) s enough = absurd (omega (arith, enough))
  find_loop_lem (suc fuel) h before ((a, c) ∷ xs) s enough =
      rw (load_lem h a _ s.0, find_loop_lem fuel h (some a) xs s.1 (omega (arith, enough)))
        (elim (Bool-cases (test c)) [ inl e ↦ rw e refl | inr e ↦ rw e refl ])

  current_matches_lem :
      (h : Store) (xs : Cells) (current : Option ℕ)
      → Chain h none none xs
      → CurrentIn current xs
      → (current_matches test h current ≡ ok false)
        ⊎ ((current_matches test h current ≡ ok true) × Finds xs current)
  unfolding current_matches
  current_matches_lem h xs none s i = inl refl
  current_matches_lem h xs (some a) s (c, at) =
      let (prev, next, e) = Chain-At h none none xs a c s at in
      rw (load_lem h a _ e) (elim (Bool-cases (test c)) [
        | inl hit ↦ inr (ap ok hit, (c, at, hit))
        | inr miss ↦ inl (ap ok miss)
      ])

  -- A search that ends: its result is right, and it is the list's `current` if that is wanted.
  pub record Search (h : Store) (l : ListHeader) (xs : Cells) : Type 0 where
    pub rc : Option ℕ
    pub run : find_item test h l ≡ ok (rc, record l { current = found_current rc l.current })
    pub finds : Finds xs rc
    pub prefers : current_matches test h l.current ≡ ok true → rc ≡ l.current
    pub otherwise : current_matches test h l.current ≡ ok false → rc ≡ first_wanted xs

  -- ListFindItem on a list ends without a fault. Its result is an element of the list that is wanted, or NULL
  -- where none is: the list's `current` element if that is wanted, else the first one that is; `current` becomes
  -- the element found.
  pub find_item-Search : (h : Store) (l : ListHeader) (xs : Cells) → IsList h l xs → Search h l xs
  unfolding find_item
  find_item-Search h l xs i =
      let list_search : find_loop test (suc l.count) h l.first ≡ ok (first_wanted xs) =
        rw (i.first, i.count) (find_loop_lem (suc (length xs)) h none xs i.chain (omega arith)) in
      elim (current_matches_lem h xs l.current i.chain i.current) [
        | inl miss ↦ record {
          rc = first_wanted xs;
          run = rw (miss, list_search) refl;
          finds = first_wanted-Finds xs;
          prefers = λ e. absurd (ok_false_ne_true (sym miss ∙ e));
          otherwise = λ e. refl;
        }
        | inr (hit, f) ↦ record {
          rc = l.current;
          run = rw hit refl;
          finds = f;
          prefers = λ e. refl;
          otherwise = λ e. absurd (ok_false_ne_true (sym e ∙ hit));
        }
      ]

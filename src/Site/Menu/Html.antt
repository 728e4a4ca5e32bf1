-- ===== src/Site/Menu/Html.antt =====
-- A reader of the HTML of a menu, which a browser stands for: nested lists of links.
use paho_mqtt_c.Common.{ℕ, zero, suc, List, [], ◌∷◌, Option, none, some, ◌==◌, if◌then◌else◌}
use paho_mqtt_c.Site.Index.{units}
use paho_mqtt_c.Site.Menu.{Menu, leaf, children, Items, no_items, item}

-- What stands behind a text.
unfoldable pub expect : List ℕ → List ℕ → Option (List ℕ)
expect [] s = some s
expect (c ∷ cs) [] = none
expect (c ∷ cs) (d ∷ s) = let rest = expect cs s in if c == d then rest else none

-- The text up to a character, and the rest from it on.
unfoldable pub until : ℕ → List ℕ → List ℕ × List ℕ
until stop [] = ([], [])
until stop (c ∷ s) =
    let (text, rest) = until stop s in if c == stop then ([], c ∷ s) else (c ∷ text, rest)

infixl 5 ◌then?◌
abbrev pub ◌then?◌ {ℓ κ} : {A : Type ℓ} {B : Type κ} → Option A → (A → Option B) → Option B
none then? f = none
some a then? f = f a

-- A list of links, or nothing; 34 is the quote and 60 is '<'.
unfoldable mutual
  pub read_menu : ℕ → List ℕ → List ℕ → Option (Menu × List ℕ)
  read_menu zero rel_path s = none
  read_menu (suc fuel) rel_path s = elim (expect (units "<ul>") s) [
    | none ↦ some (leaf, s)
    | some s' ↦ read_items fuel rel_path s' then? λ r.
        expect (units "</ul>") r.1 then? λ rest. some (children r.0, rest)
  ]

  pub read_items : ℕ → List ℕ → List ℕ → Option (Items × List ℕ)
  read_items zero rel_path s = none
  read_items (suc fuel) rel_path s = elim (expect (units "<li><a href=\"") s) [
    | none ↦ some (no_items, s)
    | some s1 ↦ read_item fuel rel_path s1
  ]

  pub read_item : ℕ → List ℕ → List ℕ → Option (Items × List ℕ)
  read_item zero rel_path s = none
  read_item (suc fuel) rel_path s = expect rel_path s then? λ s2.
      expect (units "\">") (until 34 s2).1 then? λ s3.
      expect (units "</a>") (until 60 s3).1 then? λ s4. read_menu fuel rel_path s4 then? λ m.
      expect (units "</li>") m.1 then? λ s5. read_items fuel rel_path s5 then? λ r.
      some (item (until 60 s3).0 (until 34 s2).0 m.0 r.0, r.1)

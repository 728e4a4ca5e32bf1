-- ===== src/Site/Panels.antt =====
-- docs/MQTTAsync/html/dynsections.js: toggleVisibility and toggleInherit, which open and close a section of a page
-- and the inherited members of a table.
use paho_mqtt_c.Common.{
  ℕ, zero, suc, ◌-◌, ◌≡◌, refl, ap, ◌∙◌, arith, Bool, true, false, not, List, [], ◌∷◌, ◌++◌,
}
use paho_mqtt_c.Common.{
  length, take, map, replicate, if◌then◌else◌, take-append_self, length-append,
}

-- The elements of a section: whether its content and its summary are visible, the classes 'closed' and 'opened' of
-- its link, and the source of its image.
pub record Panel : Type 0 where
  pub content : Bool
  pub summary : Bool
  pub closed : Bool
  pub opened : Bool
  pub src : List ℕ

-- "closed.png" and "open.png"
abbrev pub closed_png : List ℕ
closed_png = 99 ∷ 108 ∷ 111 ∷ 115 ∷ 101 ∷ 100 ∷ 46 ∷ 112 ∷ 110 ∷ 103 ∷ []

abbrev pub open_png : List ℕ
open_png = 111 ∷ 112 ∷ 101 ∷ 110 ∷ 46 ∷ 112 ∷ 110 ∷ 103 ∷ []

-- `src.substring(0,src.length-8)+'closed.png'`, and the other way round.
unfoldable pub closed_src : List ℕ → List ℕ
closed_src src = take (length src - 8) src ++ closed_png

unfoldable pub open_src : List ℕ → List ℕ
open_src src = take (length src - 10) src ++ open_png

-- toggleVisibility
unfoldable pub toggle_visibility : Panel → Panel
toggle_visibility p =
    if p.content
    then record {
      content = false;
      summary = true;
      closed = true;
      opened = false;
      src = closed_src p.src;
    }
    else record {
      content = true;
      summary = false;
      closed = false;
      opened = true;
      src = open_src p.src;
    }

-- The inherited rows, whether each is visible, and the source of the image in their header.
pub record Inherited : Type 0 where
  pub rows : List Bool
  pub src : List ℕ

-- `rows.filter(':first').is(':visible')`
unfoldable pub first_visible : List Bool → Bool
first_visible [] = false
first_visible (v ∷ rows) = v

-- toggleInherit
unfoldable pub toggle_inherit : Inherited → Inherited
toggle_inherit i =
    if first_visible i.rows
    then record { rows = map (λ v. false) i.rows; src = closed_src i.src }
    else record { rows = map (λ v. true) i.rows; src = open_src i.src }

-- A section that is open, or closed, and inherited members that are.
abbrev pub panel : List ℕ → Bool → Panel
panel base v = record {
  content = v;
  summary = not v;
  closed = not v;
  opened = v;
  src = base ++ (if v then open_png else closed_png);
}

abbrev pub inherited : List ℕ → ℕ → Bool → Inherited
inherited base n v = record {
  rows = replicate n v;
  src = base ++ (if v then open_png else closed_png);
}

closed_src-open : (base : List ℕ) → closed_src (base ++ open_png) ≡ base ++ closed_png
unfolding closed_src
closed_src-open base =
    ap (λ n. take n (base ++ open_png) ++ closed_png) (omega (arith, length-append base open_png))
    ∙ ap (λ s. s ++ closed_png) (take-append_self base open_png)

open_src-closed : (base : List ℕ) → open_src (base ++ closed_png) ≡ base ++ open_png
unfolding open_src
open_src-closed base =
    ap (λ n. take n (base ++ closed_png) ++ open_png) (omega (arith, length-append base closed_png))
    ∙ ap (λ s. s ++ open_png) (take-append_self base closed_png)

map-replicate : (v w : Bool) (n : ℕ) → map (λ x. w) (replicate n v) ≡ replicate n w
map-replicate v w zero = refl
map-replicate v w (suc n) = ap (λ l. w ∷ l) (map-replicate v w n)

-- toggleVisibility makes a closed section of an open one, with the image of a closed one, and an open section of a
-- closed one; toggleInherit does the same for members of which there is at least one. So a second click takes back
-- the first.
pub toggle_visibility-not :
    (base : List ℕ) (v : Bool) (n : ℕ)
    → (toggle_visibility (panel base v) ≡ panel base (not v))
      × (toggle_inherit (inherited base (suc n) v) ≡ inherited base (suc n) (not v))
unfolding toggle_visibility toggle_inherit first_visible
toggle_visibility-not base true n =
    (rw (closed_src-open base) refl, rw (closed_src-open base, map-replicate true false n) refl)
toggle_visibility-not base false n =
    (rw (open_src-closed base) refl, rw (open_src-closed base, map-replicate false true n) refl)

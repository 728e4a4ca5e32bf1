-- ===== src/Site/Menu/Laws.antt =====
-- The HTML that makeTree writes is a tree of links that stands for the menu.
use paho_mqtt_c.Common.{
  ℕ, zero, suc, ◌+◌, ◌≤◌, ◌≡◌, ◌≢◌, refl, sym, ap, ◌∙◌, arith, List, [], ◌∷◌, ◌++◌, none, some,
}
use paho_mqtt_c.Common.{All, append_assoc, append-nil, ne→==_false}
use paho_mqtt_c.Site.Menu.{
  Menu, leaf, children, Items, no_items, item, make_tree, make_items, ul, ul_end, li, quote_end,
}
use paho_mqtt_c.Site.Menu.{a_end, li_end}
use paho_mqtt_c.Site.Menu.Html.{expect, until, read_menu, read_items, read_item}

-- No text has a '<' and no url a quote.
unfoldable mutual
  pub IsPlain : Menu → Type 0
  IsPlain leaf = Unit
  IsPlain (children items) = ArePlain items

  pub ArePlain : Items → Type 0
  ArePlain no_items = Unit
  ArePlain (item text url menu items) =
      All (λ c. c ≢ 60) text × (All (λ c. c ≢ 34) url × (IsPlain menu × ArePlain items))

-- Enough fuel for the reader.
unfoldable mutual
  pub steps : Menu → ℕ
  steps leaf = 1
  steps (children items) = suc (steps_items items)

  pub steps_items : Items → ℕ
  steps_items no_items = 1
  steps_items (item text url menu items) = 2 + (steps menu + steps_items items)

expect-append : (p s : List ℕ) → expect p (p ++ s) ≡ some s
unfolding expect
expect-append [] s = refl
expect-append (c ∷ p) s = ground (arith, expect-append p s)

until-append :
    (stop : ℕ) (s rest : List ℕ)
    → All (λ c. c ≢ stop) s
    → until stop (s ++ stop ∷ rest) ≡ (s, stop ∷ rest)
unfolding until
until-append stop [] rest h = ground arith
until-append stop (c ∷ s) rest h = rw (ne→==_false c stop h.0, until-append stop s rest h.1) refl

steps_pos : (m : Menu) → 1 ≤ steps m
unfolding steps
steps_pos leaf = omega arith
steps_pos (children items) = omega arith

steps_items_pos : (items : Items) → 1 ≤ steps_items items
unfolding steps
steps_items_pos no_items = omega arith
steps_items_pos (item text url menu items) = omega arith

-- One link, between what the reader makes of its parts.
item_shape :
    (r u t m x rest : List ℕ)
    → (r ++ (u ++ (quote_end ++ (t ++ (a_end ++ (m ++ (li_end ++ x))))))) ++ rest
      ≡ r ++ (u ++ (quote_end ++ (t ++ (a_end ++ (m ++ (li_end ++ (x ++ rest)))))))
item_shape r u t m x rest =
    append_assoc r _ rest
    ∙ ap (λ s. r ++ s)
        (append_assoc u _ rest
          ∙ ap (λ s. u ++ (quote_end ++ s))
              (append_assoc t _ rest
                ∙ ap (λ s. t ++ (a_end ++ s)) (append_assoc m (li_end ++ x) rest)))

read_item_lem :
    (fuel : ℕ) (rel url text m x rest : List ℕ) (menu : Menu) (items : Items)
    → All (λ c. c ≢ 60) text
    → All (λ c. c ≢ 34) url
    → read_menu fuel rel (m ++ (li_end ++ x)) ≡ some (menu, li_end ++ x)
    → read_items fuel rel x ≡ some (items, rest)
    → read_item
        (suc fuel)
        rel
        (rel ++ (url ++ (quote_end ++ (text ++ (a_end ++ (m ++ (li_end ++ x)))))))
      ≡ some (item text url menu items, rest)
unfolding read_menu expect
read_item_lem fuel rel url text m x rest menu items ht hu menu_run items_run =
    rw
      (
        expect-append rel (url ++ (quote_end ++ (text ++ (a_end ++ (m ++ (li_end ++ x)))))),
        until-append 34 url _ hu,
        until-append 60 text _ ht,
        menu_run,
        items_run,
      )
      refl

mutual
  unfolding IsPlain steps expect until read_menu make_tree

  read_menu-make_tree :
      (fuel : ℕ) (rel : List ℕ) (m : Menu) (rest : List ℕ)
      → IsPlain m
      → steps m ≤ fuel
      → expect ul rest ≡ none
      → read_menu fuel rel (make_tree rel m ++ rest) ≡ some (m, rest)
  read_menu-make_tree zero rel leaf rest p h e = absurd (omega (arith, h))
  read_menu-make_tree zero rel (children items) rest p h e = absurd (omega (arith, h))
  read_menu-make_tree (suc fuel) rel leaf rest p h e = rw e refl
  read_menu-make_tree (suc fuel) rel (children items) rest p h e =
      let inside =
        read_items-make_items fuel rel items (ul_end ++ rest) p (omega (arith, h)) refl in
      rw (append_assoc (make_items rel items) ul_end rest, inside) refl

  read_items-make_items :
      (fuel : ℕ) (rel : List ℕ) (items : Items) (rest : List ℕ)
      → ArePlain items
      → steps_items items ≤ fuel
      → expect li rest ≡ none
      → read_items fuel rel (make_items rel items ++ rest) ≡ some (items, rest)
  read_items-make_items zero rel no_items rest p h e = absurd (omega (arith, h))
  read_items-make_items zero rel (item text url menu items) rest p h e = absurd (omega (arith, h))
  read_items-make_items (suc fuel) rel no_items rest p h e = rw e refl
  read_items-make_items (suc zero) rel (item text url menu items) rest p h e =
      absurd (omega (arith, h, steps_pos menu, steps_items_pos items))
  read_items-make_items (suc (suc fuel)) rel (item text url menu items) rest p h e =
      ap (λ s. read_item (suc fuel) rel s)
        (item_shape rel url text (make_tree rel menu) (make_items rel items) rest)
      ∙ read_item_lem fuel rel url text (make_tree rel menu) (make_items rel items ++ rest) rest
          menu items p.0 p.1.0
          (read_menu-make_tree fuel rel menu (li_end ++ (make_items rel items ++ rest)) p.1.1.0
            (omega (arith, h)) refl)
          (read_items-make_items fuel rel items rest p.1.1.1 (omega (arith, h)) e)

-- From the HTML that makeTree writes for a menu, whose texts have no '<' and whose urls have no quote, a reader of
-- nested lists of links reads the menu back, every entry in its place, and nothing is left over.
pub read_menu_html :
    (rel : List ℕ) (m : Menu) → IsPlain m → read_menu (steps m) rel (make_tree rel m) ≡ some (m, [])
read_menu_html rel m p =
    ap (λ s. read_menu (steps m) rel s) (sym (append-nil (make_tree rel m)))
    ∙ read_menu-make_tree (steps m) rel m [] p (omega arith) (unfold expect in refl)

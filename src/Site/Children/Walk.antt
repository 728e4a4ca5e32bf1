-- ===== src/Site/Children/Walk.antt =====
-- The walk of FindChildElement ends, and finds the first element looked for in the order of the document.
use paho_mqtt_c.Common.{
  ℕ, zero, suc, ◌+◌, ◌≤◌, ◌<◌, ◌≡◌, ◌≢◌, refl, sym, ap, ◌∙◌, arith, true, false, List, [], ◌∷◌,
}
use paho_mqtt_c.Common.{Option, none, some, if◌then◌else◌, Bool-cases, inl, inr}
use paho_mqtt_c.Packet.Wire.{ok}
use paho_mqtt_c.Site.Children.{
  Tag, Element, null, element, is_null, climb, is_div, is_children, step, find_child,
}
use paho_mqtt_c.Site.Children.{count_elements, find_child_element}

abbrev or_else : Option ℕ → Option ℕ → Option ℕ
or_else none b = b
or_else (some a) b = some a

abbrev counts : List Element → ℕ
counts [] = 0
counts (x ∷ xs) = count_elements x + counts xs

false_ne_true : false ≢ true
false_ne_true e = cc

module _ (to_lower_case : List ℕ → List ℕ) where
  -- The first 'SRChildren' `div` in the order of the document, where only a `div` is looked into.
  unfoldable pub first_child : Element → Option ℕ
  first_child null = none
  first_child (element tag child next) =
      let inside = first_child child in
      let behind = first_child next in
      if is_children to_lower_case tag
      then some tag.key
      else or_else (if is_div to_lower_case tag then inside else none) behind

  -- The same for the siblings that wait.
  first_in : List Element → Option ℕ
  first_in [] = none
  first_in (x ∷ xs) = or_else (first_child x) (first_in xs)

  or_else-none : (a : Option ℕ) → or_else a none ≡ a
  or_else-none none = refl
  or_else-none (some x) = refl

  or_else_assoc : (a b c : Option ℕ) → or_else (or_else a b) c ≡ or_else a (or_else b c)
  or_else_assoc none b c = refl
  or_else_assoc (some x) b c = refl

  -- A pointer and the way up, which stand for the same elements as a list of pointers that wait.
  record Place (found : Option ℕ) (room : ℕ) (p : Element × List Element) : Type 0 where
    same : or_else (first_child p.0) (first_in p.1) ≡ found
    fewer : count_elements p.0 + counts p.1 ≤ room
    ends : is_null p.0 ≡ true → p.1 ≡ []

  climb-Place : (stack : List Element) → Place (first_in stack) (counts stack) (climb stack)
  unfolding climb first_in first_child count_elements is_null
  climb-Place [] = record { same = refl; fewer = omega arith; ends = λ e. refl }
  climb-Place (null ∷ stack) =
      let p = climb-Place stack in
      record { same = p.same; fewer = omega (arith, p.fewer); ends = p.ends }
  climb-Place (element tag child next ∷ stack) = record {
    same = refl;
    fewer = omega arith;
    ends = λ e. absurd (false_ne_true e);
  }

  onward-Place :
      (more : ℕ) (next : Element) (stack : List Element)
      → Place
          (or_else (first_child next) (first_in stack))
          (more + count_elements next + counts stack)
          (if is_null next then climb stack else (next, stack))
  unfolding first_child is_null count_elements
  onward-Place more null stack =
      let p = climb-Place stack in
      record { same = p.same; fewer = omega (arith, p.fewer); ends = p.ends }
  onward-Place more (element t c n) stack = record {
    same = refl;
    fewer = omega arith;
    ends = λ q. absurd (false_ne_true q);
  }

  step-Place :
      (tag : Tag) (child next : Element) (stack : List Element)
      → Place
          (or_else
            (or_else
              (if is_div to_lower_case tag then first_child child else none)
              (first_child next))
            (first_in stack))
          (count_elements child + count_elements next + counts stack)
          (step to_lower_case tag child next stack)
  unfolding step first_in is_null first_child
  step-Place tag null next stack = elim (Bool-cases (is_div to_lower_case tag)) [
    | inl e ↦ rw e (onward-Place (count_elements null) next stack)
    | inr e ↦ rw e (onward-Place (count_elements null) next stack)
  ]
  step-Place tag (element t c n) next stack = elim (Bool-cases (is_div to_lower_case tag)) [
    | inl e ↦ rw e (record {
      same = sym (or_else_assoc (first_child (element t c n)) (first_child next) (first_in stack));
      fewer = omega arith;
      ends = λ q. absurd (false_ne_true q);
    })
    | inr e ↦ rw e (onward-Place (count_elements (element t c n)) next stack)
  ]

  find_child_lem :
      (fuel : ℕ) (at : Element) (stack : List Element)
      → (is_null at ≡ true → stack ≡ [])
      → count_elements at + counts stack < fuel
      → find_child to_lower_case fuel at stack ≡ ok (or_else (first_child at) (first_in stack))
  unfolding find_child first_child is_null first_in count_elements
  find_child_lem fuel null stack ends h = rw (ends refl) refl
  find_child_lem zero (element tag child next) stack ends h = absurd (omega (arith, h))
  find_child_lem (suc fuel) (element tag child next) stack ends h =
      let p = step-Place tag child next stack in
      elim (Bool-cases (is_children to_lower_case tag)) [
        | inl e ↦ rw e refl
        | inr e ↦ rw e (find_child_lem fuel _ _ p.ends (omega (arith, p.fewer, h)) ∙ ap ok p.same)
      ]

  -- FindChildElement ends, and its result is the first 'SRChildren' `div` in the order of the document among the
  -- elements that only `div`s hold.
  pub find_child_element-first_child :
      (children : Element) → find_child_element to_lower_case children ≡ ok (first_child children)
  unfolding find_child_element
  find_child_element-first_child children =
      unfold first_in in
      find_child_lem (suc (count_elements children)) children [] (λ e. refl) (omega arith)
      ∙ ap ok (or_else-none (first_child children))

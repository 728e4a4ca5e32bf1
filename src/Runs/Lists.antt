-- ===== src/Runs/Lists.antt =====
-- Runs of src/LinkedList.c on a list of three elements.
use paho_mqtt_c.Common.{
  ℕ, ◌≡◌, ◌⊎◌, inl, inr, refl, Bool, false, true, [], ◌∷◌, none, some, ◌==◌, arith,
}
use paho_mqtt_c.Packet.Wire.{ok}
use paho_mqtt_c.LinkedList.{Store, ListHeader, zero_list, write, insert, unlink}
use paho_mqtt_c.LinkedList.Ends.{detach_head, empty}
use paho_mqtt_c.LinkedList.Chain.{Cells, element, IsList}
use paho_mqtt_c.LinkedList.Links.{AgreeOff}
use paho_mqtt_c.LinkedList.Find.{NoneOf, Search, find_item-Search}
use paho_mqtt_c.LinkedList.Append.{Inserted, insert_refines}
use paho_mqtt_c.LinkedList.Unlink.{Unlinked, unlink_refines}
use paho_mqtt_c.LinkedList.Detach.{Detached, Freed, detach_head_refines, empty_refines}

abbrev three_cells : Cells
three_cells = (8, 100) ∷ (16, 200) ∷ (24, 300) ∷ []

abbrev no_memory : Store
no_memory a = none

abbrev three_elements : Store
three_elements =
    write
      (write (write no_memory 8 (some (element 100 none (some 16)))) 16
        (some (element 200 (some 8) (some 24))))
      24 (some (element 300 (some 16) none))

abbrev three_list : ListHeader
three_list = record { first = some 8; last = some 24; current = some 16; count = 3; size = 12 }

three-IsList : IsList three_elements three_list three_cells
unfolding write
three-IsList = record {
  chain = (refl, (refl, (refl, tt)));
  distinct = ((ground arith, (ground arith, tt)), ((ground arith, tt), (tt, tt)));
  first = refl;
  last = refl;
  count = refl;
  current = (200, inr (inl (refl, refl)));
}

abbrev is_300 : ℕ → Bool
is_300 c = c == 300

find_item-Search_example : Search is_300 three_elements three_list three_cells
find_item-Search_example =
    find_item-Search is_300 three_elements three_list three_cells three-IsList

unlink_refines_example :
    (NoneOf is_300 three_cells
      × (unlink is_300 true three_elements three_list ≡ ok (false, [], three_elements, three_list)))
    ⊎ Unlinked is_300 true three_elements three_list three_cells
unlink_refines_example =
    unlink_refines is_300 true three_elements three_list three_cells three-IsList

free_32 : three_elements 32 ≡ none
unfolding write
free_32 = refl

insert_refines_example :
    Inserted three_elements 4 32 150
      ((8, 100) ∷ [])
      ((16, 200) ∷ (24, 300) ∷ [])
      three_list
      (insert three_elements three_list 150 32 4 (some 16))
insert_refines_example =
    insert_refines three_elements three_list 32 150 4 ((8, 100) ∷ []) ((16, 200) ∷ (24, 300) ∷ [])
      three-IsList free_32 (omega arith)

detach_head_refines_example :
    Detached three_elements 8 100
      ((16, 200) ∷ (24, 300) ∷ [])
      (detach_head three_elements three_list)
detach_head_refines_example =
    detach_head_refines three_elements three_list 8 100 ((16, 200) ∷ (24, 300) ∷ []) three-IsList

empty_refines_example :
    (g : Store) × (empty three_elements three_list ≡ ok (100 ∷ 200 ∷ 300 ∷ [], g, zero_list))
    × Freed g three_cells
    × AgreeOff g three_elements three_cells
    × IsList g zero_list []
empty_refines_example = empty_refines three_elements three_list three_cells three-IsList

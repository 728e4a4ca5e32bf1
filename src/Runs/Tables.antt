-- ===== src/Runs/Tables.antt =====
-- The tables of the documentation pages at concrete inputs.
use paho_mqtt_c.Common.{inl, inr, arith, take}
use paho_mqtt_c.Common.{ℕ, ◌≡◌, refl, List, [], ◌∷◌, some, get_elem?}
use paho_mqtt_c.Site.Results.{block, search}
use paho_mqtt_c.Site.Index.{Entry, entry, link, units, create_row}
use paho_mqtt_c.Site.Index.All1.{all_0}
use paho_mqtt_c.Site.Index.Tables.{Table}
use paho_mqtt_c.Site.Index.Laws.{lower, contents}
use paho_mqtt_c.Site.Index.Typed.{AnyCase, padded}
use paho_mqtt_c.Site.Box.{index_from}
use paho_mqtt_c.Site.Index.Finding.{opened, written, search_finds}

abbrev first_table : Table
first_table = record { section = 0; page = 0; search_data = all_0 }

abbrev first_entry : Entry
first_entry = entry "allowdisconnectedsendatanytime_0" "allowDisconnectedSendAtAnyTime" (
    link "../struct_m_q_t_t_async__create_options.html#abe7fdbe18bfd3577a75d3b386d69406c" 1
      "MQTTAsync_createOptions"
    ∷ [])

-- The name of the first entry in lower case.
abbrev typed : List ℕ
typed = units "allowdisconnectedsendatanytime"

abbrev as_is : List ℕ → List ℕ
as_is s = s

typed_case : AnyCase typed (written first_entry)
typed_case = (
  inl refl,
  (
    inl refl,
    (
      inl refl,
      (
        inl refl,
        (
          inl refl,
          (
            inr (inl (refl, omega arith, omega arith)),
            (
              inl refl,
              (
                inl refl,
                (
                  inl refl,
                  (
                    inl refl,
                    (
                      inl refl,
                      (
                        inl refl,
                        (
                          inl refl,
                          (
                            inl refl,
                            (
                              inl refl,
                              (
                                inl refl,
                                (
                                  inl refl,
                                  (
                                    inr (inl (refl, omega arith, omega arith)),
                                    (
                                      inl refl,
                                      (
                                        inl refl,
                                        (
                                          inl refl,
                                          (
                                            inr (inl (refl, omega arith, omega arith)),
                                            (
                                              inl refl,
                                              (
                                                inr (inl (refl, omega arith, omega arith)),
                                                (
                                                  inl refl,
                                                  (
                                                    inl refl,
                                                    (
                                                      inr (inl (refl, omega arith, omega arith)),
                                                      (inl refl, (inl refl, (inl refl, tt))),
                                                    ),
                                                  ),
                                                ),
                                              ),
                                            ),
                                          ),
                                        ),
                                      ),
                                    ),
                                  ),
                                ),
                              ),
                            ),
                          ),
                        ),
                      ),
                    ),
                  ),
                ),
              ),
            ),
          ),
        ),
      ),
    ),
  ),
)

search_finds_example :
    ((content : List ℕ) × (get_elem? contents 0 ≡ some content)
      × (index_from 0 (take 1 (lower typed)) content ≡ some 0))
    × (get_elem? (search lower as_is [] (padded 2 typed 1) (opened first_table)).rows 0
        ≡ some (record (create_row first_entry) { display = block }))
search_finds_example =
    search_finds as_is [] typed 2 1 0 0 first_table first_entry refl refl typed_case

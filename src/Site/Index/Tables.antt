-- ===== src/Site/Index/Tables.antt =====
-- docs/MQTTAsync/html/search/searchdata.js, and the tables by the part of the index and the page.
use Prim.Native.String.{String}
use paho_mqtt_c.Common.{ℕ, List, [], ◌∷◌, ◌++◌}
use paho_mqtt_c.Site.Index.{Entry}
use paho_mqtt_c.Site.Index.All1.{all_0, all_1, all_2, all_3, all_4, all_5, all_6, all_7, all_8}
use paho_mqtt_c.Site.Index.All2.{all_9_part1}
use paho_mqtt_c.Site.Index.All3.{all_9_part2}
use paho_mqtt_c.Site.Index.All4.{all_9_part3}
use paho_mqtt_c.Site.Index.All5.{all_9_part4}
use paho_mqtt_c.Site.Index.All6.{all_9_part5}
use paho_mqtt_c.Site.Index.All7.{all_9_part6, all_a}
use paho_mqtt_c.Site.Index.All8.{all_b, all_c, all_d}
use paho_mqtt_c.Site.Index.All9.{all_e, all_f, all_10, all_11, all_12, all_13}
use paho_mqtt_c.Site.Index.Classes1.{classes_0, files_0}
use paho_mqtt_c.Site.Index.Functions1.{functions_0_part1}
use paho_mqtt_c.Site.Index.Functions2.{functions_0_part2}
use paho_mqtt_c.Site.Index.Variables1.{
  variables_0, variables_1, variables_2, variables_3, variables_4, variables_5, variables_6,
  variables_7, variables_8, variables_9,
}
use paho_mqtt_c.Site.Index.Variables2.{
  variables_a, variables_b, variables_c, variables_d, variables_e,
}
use paho_mqtt_c.Site.Index.Variables3.{
  variables_f, variables_10, variables_11, variables_12, variables_13,
}
use paho_mqtt_c.Site.Index.Typedefs1.{typedefs_0, typedefs_1, enums_0}
use paho_mqtt_c.Site.Index.Enumvalues1.{enumvalues_0_part1}
use paho_mqtt_c.Site.Index.Enumvalues2.{enumvalues_0_part2}
use paho_mqtt_c.Site.Index.Enumvalues3.{enumvalues_0_part3}
use paho_mqtt_c.Site.Index.Defines1.{defines_0_part1}
use paho_mqtt_c.Site.Index.Defines2.{
  defines_0_part2, pages_0, pages_1, pages_2, pages_3, pages_4, pages_5,
}

abbrev pub index_sections_with_content : List String
index_sections_with_content =
    "abcdehiklmnopqrstuvw" ∷ "m" ∷ "m" ∷ "m" ∷ "abcdehiklmnopqrstuvw" ∷ "mp" ∷ "m" ∷ "m" ∷ "m"
    ∷ "acpqst" ∷ []

abbrev pub index_section_names : List String
index_section_names =
    "all" ∷ "classes" ∷ "files" ∷ "functions" ∷ "variables" ∷ "typedefs" ∷ "enums" ∷ "enumvalues"
    ∷ "defines" ∷ "pages" ∷ []

abbrev pub index_section_labels : List String
index_section_labels =
    "All" ∷ "Data Structures" ∷ "Files" ∷ "Functions" ∷ "Variables" ∷ "Typedefs" ∷ "Enumerations"
    ∷ "Enumerator" ∷ "Macros" ∷ "Pages" ∷ []

-- The table of page `page` of part `section`.
pub record Table : Type 0 where
  pub section : ℕ
  pub page : ℕ
  pub search_data : List Entry

abbrev table : ℕ → ℕ → List Entry → Table
table section page search_data = record {
  section = section;
  page = page;
  search_data = search_data;
}

abbrev pub tables : List Table
tables =
    table 0 0 all_0
    ∷ table 0 1 all_1
    ∷ table 0 2 all_2
    ∷ table 0 3 all_3
    ∷ table 0 4 all_4
    ∷ table 0 5 all_5
    ∷ table 0 6 all_6
    ∷ table 0 7 all_7
    ∷ table 0 8 all_8
    ∷ table 0 9
        (all_9_part1 ++ all_9_part2 ++ all_9_part3 ++ all_9_part4 ++ all_9_part5 ++ all_9_part6)
    ∷ table 0 10 all_a
    ∷ table 0 11 all_b
    ∷ table 0 12 all_c
    ∷ table 0 13 all_d
    ∷ table 0 14 all_e
    ∷ table 0 15 all_f
    ∷ table 0 16 all_10
    ∷ table 0 17 all_11
    ∷ table 0 18 all_12
    ∷ table 0 19 all_13
    ∷ table 1 0 classes_0
    ∷ table 2 0 files_0
    ∷ table 3 0 (functions_0_part1 ++ functions_0_part2)
    ∷ table 4 0 variables_0
    ∷ table 4 1 variables_1
    ∷ table 4 2 variables_2
    ∷ table 4 3 variables_3
    ∷ table 4 4 variables_4
    ∷ table 4 5 variables_5
    ∷ table 4 6 variables_6
    ∷ table 4 7 variables_7
    ∷ table 4 8 variables_8
    ∷ table 4 9 variables_9
    ∷ table 4 10 variables_a
    ∷ table 4 11 variables_b
    ∷ table 4 12 variables_c
    ∷ table 4 13 variables_d
    ∷ table 4 14 variables_e
    ∷ table 4 15 variables_f
    ∷ table 4 16 variables_10
    ∷ table 4 17 variables_11
    ∷ table 4 18 variables_12
    ∷ table 4 19 variables_13
    ∷ table 5 0 typedefs_0
    ∷ table 5 1 typedefs_1
    ∷ table 6 0 enums_0
    ∷ table 7 0 (enumvalues_0_part1 ++ enumvalues_0_part2 ++ enumvalues_0_part3)
    ∷ table 8 0 (defines_0_part1 ++ defines_0_part2)
    ∷ table 9 0 pages_0
    ∷ table 9 1 pages_1
    ∷ table 9 2 pages_2
    ∷ table 9 3 pages_3
    ∷ table 9 4 pages_4
    ∷ table 9 5 pages_5
    ∷ []

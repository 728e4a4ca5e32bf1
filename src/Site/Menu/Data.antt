-- ===== src/Site/Menu/Data.antt =====
-- docs/MQTTAsync/html/menudata.js and docs/MQTTClient/html/menudata.js
use paho_mqtt_c.Site.Menu.{Menu, children, no_items, menu_entry, menu_group, ◌▸◌}

abbrev pub async_menu : Menu
async_menu = children (
    menu_entry "Main Page" "index.html"
    ▸ menu_entry "Related Pages" "pages.html"
    ▸ menu_group "Data Structures" "annotated.html" (
        menu_entry "Data Structures" "annotated.html"
        ▸ menu_group "Data Fields" "functions.html" (
            menu_group "All" "functions.html" (
              menu_entry "a" "functions.html#index_a"
              ▸ menu_entry "b" "functions.html#index_b"
              ▸ menu_entry "c" "functions.html#index_c"
              ▸ menu_entry "d" "functions.html#index_d"
              ▸ menu_entry "e" "functions.html#index_e"
              ▸ menu_entry "h" "functions.html#index_h"
              ▸ menu_entry "i" "functions.html#index_i"
              ▸ menu_entry "k" "functions.html#index_k"
              ▸ menu_entry "l" "functions.html#index_l"
              ▸ menu_entry "m" "functions.html#index_m"
              ▸ menu_entry "n" "functions.html#index_n"
              ▸ menu_entry "o" "functions.html#index_o"
              ▸ menu_entry "p" "functions.html#index_p"
              ▸ menu_entry "q" "functions.html#index_q"
              ▸ menu_entry "r" "functions.html#index_r"
              ▸ menu_entry "s" "functions.html#index_s"
              ▸ menu_entry "t" "functions.html#index_t"
              ▸ menu_entry "u" "functions.html#index_u"
              ▸ menu_entry "v" "functions.html#index_v"
              ▸ menu_entry "w" "functions.html#index_w"
              ▸ no_items)
            ▸ menu_group "Variables" "functions_vars.html" (
                menu_entry "a" "functions_vars.html#index_a"
                ▸ menu_entry "b" "functions_vars.html#index_b"
                ▸ menu_entry "c" "functions_vars.html#index_c"
                ▸ menu_entry "d" "functions_vars.html#index_d"
                ▸ menu_entry "e" "functions_vars.html#index_e"
                ▸ menu_entry "h" "functions_vars.html#index_h"
                ▸ menu_entry "i" "functions_vars.html#index_i"
                ▸ menu_entry "k" "functions_vars.html#index_k"
                ▸ menu_entry "l" "functions_vars.html#index_l"
                ▸ menu_entry "m" "functions_vars.html#index_m"
                ▸ menu_entry "n" "functions_vars.html#index_n"
                ▸ menu_entry "o" "functions_vars.html#index_o"
                ▸ menu_entry "p" "functions_vars.html#index_p"
                ▸ menu_entry "q" "functions_vars.html#index_q"
                ▸ menu_entry "r" "functions_vars.html#index_r"
                ▸ menu_entry "s" "functions_vars.html#index_s"
                ▸ menu_entry "t" "functions_vars.html#index_t"
                ▸ menu_entry "u" "functions_vars.html#index_u"
                ▸ menu_entry "v" "functions_vars.html#index_v"
                ▸ menu_entry "w" "functions_vars.html#index_w"
                ▸ no_items)
            ▸ no_items)
        ▸ no_items)
    ▸ menu_group "Files" "files.html" (
        menu_entry "File List" "files.html"
        ▸ menu_group "Globals" "globals.html" (
            menu_group "All" "globals.html" (
              menu_entry "m" "globals.html#index_m"
              ▸ menu_entry "p" "globals_p.html#index_p"
              ▸ no_items)
            ▸ menu_group "Functions" "globals_func.html"
                (menu_entry "m" "globals_func.html#index_m" ▸ no_items)
            ▸ menu_entry "Typedefs" "globals_type.html"
            ▸ menu_entry "Enumerations" "globals_enum.html"
            ▸ menu_group "Enumerator" "globals_eval.html"
                (menu_entry "m" "globals_eval.html#index_m" ▸ no_items)
            ▸ menu_group "Macros" "globals_defs.html"
                (menu_entry "m" "globals_defs.html#index_m" ▸ no_items)
            ▸ no_items)
        ▸ no_items)
    ▸ no_items)

abbrev pub client_menu : Menu
client_menu = children (
    menu_entry "Main Page" "index.html"
    ▸ menu_entry "Related Pages" "pages.html"
    ▸ menu_group "Data Structures" "annotated.html" (
        menu_entry "Data Structures" "annotated.html"
        ▸ menu_group "Data Fields" "functions.html" (
            menu_group "All" "functions.html" (
              menu_entry "a" "functions.html#index_a"
              ▸ menu_entry "b" "functions.html#index_b"
              ▸ menu_entry "c" "functions.html#index_c"
              ▸ menu_entry "d" "functions.html#index_d"
              ▸ menu_entry "e" "functions.html#index_e"
              ▸ menu_entry "h" "functions.html#index_h"
              ▸ menu_entry "i" "functions.html#index_i"
              ▸ menu_entry "k" "functions.html#index_k"
              ▸ menu_entry "l" "functions.html#index_l"
              ▸ menu_entry "m" "functions.html#index_m"
              ▸ menu_entry "n" "functions.html#index_n"
              ▸ menu_entry "p" "functions.html#index_p"
              ▸ menu_entry "q" "functions.html#index_q"
              ▸ menu_entry "r" "functions.html#index_r"
              ▸ menu_entry "s" "functions.html#index_s"
              ▸ menu_entry "t" "functions.html#index_t"
              ▸ menu_entry "u" "functions.html#index_u"
              ▸ menu_entry "v" "functions.html#index_v"
              ▸ menu_entry "w" "functions.html#index_w"
              ▸ no_items)
            ▸ menu_group "Variables" "functions_vars.html" (
                menu_entry "a" "functions_vars.html#index_a"
                ▸ menu_entry "b" "functions_vars.html#index_b"
                ▸ menu_entry "c" "functions_vars.html#index_c"
                ▸ menu_entry "d" "functions_vars.html#index_d"
                ▸ menu_entry "e" "functions_vars.html#index_e"
                ▸ menu_entry "h" "functions_vars.html#index_h"
                ▸ menu_entry "i" "functions_vars.html#index_i"
                ▸ menu_entry "k" "functions_vars.html#index_k"
                ▸ menu_entry "l" "functions_vars.html#index_l"
                ▸ menu_entry "m" "functions_vars.html#index_m"
                ▸ menu_entry "n" "functions_vars.html#index_n"
                ▸ menu_entry "p" "functions_vars.html#index_p"
                ▸ menu_entry "q" "functions_vars.html#index_q"
                ▸ menu_entry "r" "functions_vars.html#index_r"
                ▸ menu_entry "s" "functions_vars.html#index_s"
                ▸ menu_entry "t" "functions_vars.html#index_t"
                ▸ menu_entry "u" "functions_vars.html#index_u"
                ▸ menu_entry "v" "functions_vars.html#index_v"
                ▸ menu_entry "w" "functions_vars.html#index_w"
                ▸ no_items)
            ▸ no_items)
        ▸ no_items)
    ▸ menu_group "Files" "files.html" (
        menu_entry "File List" "files.html"
        ▸ menu_group "Globals" "globals.html" (
            menu_group "All" "globals.html" (
              menu_entry "m" "globals.html#index_m"
              ▸ menu_entry "p" "globals_p.html#index_p"
              ▸ no_items)
            ▸ menu_group "Functions" "globals_func.html"
                (menu_entry "m" "globals_func.html#index_m" ▸ no_items)
            ▸ menu_entry "Typedefs" "globals_type.html"
            ▸ menu_entry "Enumerations" "globals_enum.html"
            ▸ menu_group "Enumerator" "globals_eval.html"
                (menu_entry "m" "globals_eval.html#index_m" ▸ no_items)
            ▸ menu_group "Macros" "globals_defs.html"
                (menu_entry "m" "globals_defs.html#index_m" ▸ no_items)
            ▸ no_items)
        ▸ no_items)
    ▸ no_items)

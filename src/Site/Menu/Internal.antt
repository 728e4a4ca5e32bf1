-- ===== src/Site/Menu/Internal.antt =====
-- docs/MQTTClient_internal/html/menudata.js
use paho_mqtt_c.Site.Menu.{Menu, children, no_items, menu_entry, menu_group, ◌▸◌}

abbrev pub internal_menu : Menu
internal_menu = children (
    menu_entry "Main Page" "index.html"
    ▸ menu_group "Data Structures" "annotated.html" (
        menu_entry "Data Structures" "annotated.html"
        ▸ menu_group "Data Fields" "functions.html" (
            menu_group "All" "functions.html" (
              menu_entry "_" "functions.html#index__5F"
              ▸ menu_entry "a" "functions_a.html#index_a"
              ▸ menu_entry "b" "functions_b.html#index_b"
              ▸ menu_entry "c" "functions_c.html#index_c"
              ▸ menu_entry "d" "functions_d.html#index_d"
              ▸ menu_entry "e" "functions_e.html#index_e"
              ▸ menu_entry "f" "functions_f.html#index_f"
              ▸ menu_entry "g" "functions_g.html#index_g"
              ▸ menu_entry "h" "functions_h.html#index_h"
              ▸ menu_entry "i" "functions_i.html#index_i"
              ▸ menu_entry "k" "functions_k.html#index_k"
              ▸ menu_entry "l" "functions_l.html#index_l"
              ▸ menu_entry "m" "functions_m.html#index_m"
              ▸ menu_entry "n" "functions_n.html#index_n"
              ▸ menu_entry "o" "functions_o.html#index_o"
              ▸ menu_entry "p" "functions_p.html#index_p"
              ▸ menu_entry "q" "functions_q.html#index_q"
              ▸ menu_entry "r" "functions_r.html#index_r"
              ▸ menu_entry "s" "functions_s.html#index_s"
              ▸ menu_entry "t" "functions_t.html#index_t"
              ▸ menu_entry "u" "functions_u.html#index_u"
              ▸ menu_entry "v" "functions_v.html#index_v"
              ▸ menu_entry "w" "functions_w.html#index_w"
              ▸ no_items)
            ▸ menu_group "Variables" "functions_vars.html" (
                menu_entry "_" "functions_vars.html#index__5F"
                ▸ menu_entry "a" "functions_vars_a.html#index_a"
                ▸ menu_entry "b" "functions_vars_b.html#index_b"
                ▸ menu_entry "c" "functions_vars_c.html#index_c"
                ▸ menu_entry "d" "functions_vars_d.html#index_d"
                ▸ menu_entry "e" "functions_vars_e.html#index_e"
                ▸ menu_entry "f" "functions_vars_f.html#index_f"
                ▸ menu_entry "g" "functions_vars_g.html#index_g"
                ▸ menu_entry "h" "functions_vars_h.html#index_h"
                ▸ menu_entry "i" "functions_vars_i.html#index_i"
                ▸ menu_entry "k" "functions_vars_k.html#index_k"
                ▸ menu_entry "l" "functions_vars_l.html#index_l"
                ▸ menu_entry "m" "functions_vars_m.html#index_m"
                ▸ menu_entry "n" "functions_vars_n.html#index_n"
                ▸ menu_entry "o" "functions_vars_o.html#index_o"
                ▸ menu_entry "p" "functions_vars_p.html#index_p"
                ▸ menu_entry "q" "functions_vars_q.html#index_q"
                ▸ menu_entry "r" "functions_vars_r.html#index_r"
                ▸ menu_entry "s" "functions_vars_s.html#index_s"
                ▸ menu_entry "t" "functions_vars_t.html#index_t"
                ▸ menu_entry "u" "functions_vars_u.html#index_u"
                ▸ menu_entry "v" "functions_vars_v.html#index_v"
                ▸ menu_entry "w" "functions_vars_w.html#index_w"
                ▸ no_items)
            ▸ no_items)
        ▸ no_items)
    ▸ menu_group "Files" "files.html" (
        menu_entry "File List" "files.html"
        ▸ menu_group "Globals" "globals.html" (
            menu_group "All" "globals.html" (
              menu_entry "_" "globals.html#index__5F"
              ▸ menu_entry "a" "globals_a.html#index_a"
              ▸ menu_entry "b" "globals_b.html#index_b"
              ▸ menu_entry "c" "globals_c.html#index_c"
              ▸ menu_entry "d" "globals_d.html#index_d"
              ▸ menu_entry "f" "globals_f.html#index_f"
              ▸ menu_entry "h" "globals_h.html#index_h"
              ▸ menu_entry "i" "globals_i.html#index_i"
              ▸ menu_entry "l" "globals_l.html#index_l"
              ▸ menu_entry "m" "globals_m.html#index_m"
              ▸ menu_entry "n" "globals_n.html#index_n"
              ▸ menu_entry "p" "globals_p.html#index_p"
              ▸ menu_entry "q" "globals_q.html#index_q"
              ▸ menu_entry "r" "globals_r.html#index_r"
              ▸ menu_entry "s" "globals_s.html#index_s"
              ▸ menu_entry "t" "globals_t.html#index_t"
              ▸ menu_entry "u" "globals_u.html#index_u"
              ▸ menu_entry "v" "globals_v.html#index_v"
              ▸ menu_entry "w" "globals_w.html#index_w"
              ▸ no_items)
            ▸ menu_group "Functions" "globals_func.html" (
                menu_entry "c" "globals_func.html#index_c"
                ▸ menu_entry "f" "globals_func_f.html#index_f"
                ▸ menu_entry "h" "globals_func_h.html#index_h"
                ▸ menu_entry "i" "globals_func_i.html#index_i"
                ▸ menu_entry "l" "globals_func_l.html#index_l"
                ▸ menu_entry "m" "globals_func_m.html#index_m"
                ▸ menu_entry "p" "globals_func_p.html#index_p"
                ▸ menu_entry "r" "globals_func_r.html#index_r"
                ▸ menu_entry "s" "globals_func_s.html#index_s"
                ▸ menu_entry "t" "globals_func_t.html#index_t"
                ▸ menu_entry "u" "globals_func_u.html#index_u"
                ▸ menu_entry "w" "globals_func_w.html#index_w"
                ▸ no_items)
            ▸ menu_entry "Variables" "globals_vars.html"
            ▸ menu_entry "Typedefs" "globals_type.html"
            ▸ menu_entry "Macros" "globals_defs.html"
            ▸ no_items)
        ▸ no_items)
    ▸ no_items)

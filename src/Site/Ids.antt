-- ===== src/Site/Ids.antt =====
-- docs/MQTTAsync/html/search/search.js: convertToId. A string is the list of its UTF-16 code units.
use paho_mqtt_c.Common.{
  ℕ, zero, suc, ◌+◌, ◌/◌, ◌%◌, Bool, true, false, ◌&&◌, ◌||◌, List, [], ◌∷◌, ◌++◌,
}
use paho_mqtt_c.Common.{ltb, leb, ◌==◌, if◌then◌else◌}
pub mod Laws
pub mod Hex

-- A unit that the pattern [a-z0-9\u0080-\uFFFF] matches.
unfoldable pub is_id_unit : ℕ → Bool
is_id_unit c = leb 97 c && leb c 122 || leb 48 c && leb c 57 || leb 128 c && leb c 65535

-- A digit to the base 16, as `toString(16)` writes it.
unfoldable pub hex_digit : ℕ → ℕ
hex_digit d = if ltb d 10 then 48 + d else 87 + d

-- `cn.toString(16)` of a number of at most two digits; `convertToId` uses it on no larger one.
unfoldable pub to_string16 : ℕ → List ℕ
to_string16 n = if ltb n 16 then hex_digit n ∷ [] else hex_digit (n / 16) ∷ hex_digit (n % 16) ∷ []

-- `toString(16)` of any number, in lower case; the number itself is enough fuel.
unfoldable pub hex_text : ℕ → ℕ → List ℕ
hex_text zero n = hex_digit n ∷ []
hex_text (suc fuel) n =
    let front = hex_text fuel (n / 16) in
    if ltb n 16 then hex_digit n ∷ [] else front ++ hex_digit (n % 16) ∷ []

-- What a unit adds to `result`: 95 is the underscore, 48 the digit 0.
unfoldable pub convert_unit : ℕ → List ℕ
convert_unit c =
    if is_id_unit c
    then c ∷ []
    else if ltb c 16
    then 95 ∷ 48 ∷ to_string16 c
    else 95 ∷ to_string16 c

unfoldable pub convert_to_id : List ℕ → List ℕ
convert_to_id [] = []
convert_to_id (c ∷ search) = convert_unit c ++ convert_to_id search

-- The test `search.length<=s.length && s.substr(0, search.length)==search`.
unfoldable pub starts_with : List ℕ → List ℕ → Bool
starts_with [] s = true
starts_with (c ∷ search) [] = false
starts_with (c ∷ search) (d ∷ s) = c == d && starts_with search s

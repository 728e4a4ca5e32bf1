-- ===== src/Site/Ids/Hex.antt =====
-- docs/MQTTAsync/html/search/search.js: numbers that are written to the base 16 read back.
use paho_mqtt_c.Common.{ℕ, zero, suc, ◌+◌, ◌-◌, ◌*◌, ◌/◌, ◌%◌, ◌<◌, ◌≤◌, ◌≡◌, refl, ap, arith}
use paho_mqtt_c.Common.{List, [], ◌∷◌, ◌++◌, Option, none, some, inl, inr, ltb, leb, ◌&&◌}
use paho_mqtt_c.Common.{if◌then◌else◌, Bool-cases, ltb→lt}
use paho_mqtt_c.Site.Ids.{hex_digit, hex_text}

-- The value of a character 0 to 9 or a to f.
unfoldable pub digit_value : ℕ → Option ℕ
digit_value c =
    if leb 48 c && leb c 57
    then some (c - 48)
    else if leb 97 c && leb c 102
    then some (c - 87)
    else none

-- A digit behind a number.
unfoldable pub add_digit : Option ℕ → Option ℕ → Option ℕ
add_digit none d = none
add_digit (some n) none = none
add_digit (some n) (some d) = some (n * 16 + d)

-- The number that a text of such characters behind the digits of `n` stands for.
unfoldable pub hex_value : Option ℕ → List ℕ → Option ℕ
hex_value n [] = n
hex_value n (c ∷ cs) = hex_value (add_digit n (digit_value c)) cs

digit_value-hex_digit : (d : ℕ) → d < 16 → digit_value (hex_digit d) ≡ some d
unfolding digit_value hex_digit
digit_value-hex_digit d h = ground arith

hex_value_last :
    (cs : List ℕ) (n : Option ℕ) (c : ℕ)
    → hex_value n (cs ++ c ∷ []) ≡ add_digit (hex_value n cs) (digit_value c)
unfolding hex_value
hex_value_last [] n c = refl
hex_value_last (d ∷ cs) n c = hex_value_last cs (add_digit n (digit_value d)) c

hex_value_one : (n : ℕ) → n < 16 → hex_value (some 0) (hex_digit n ∷ []) ≡ some n
unfolding hex_value
hex_value_one n h = rw (digit_value-hex_digit n h) (unfold add_digit in ap some (omega arith))

pub hex_value-hex_text : (fuel n : ℕ) → n ≤ fuel → hex_value (some 0) (hex_text fuel n) ≡ some n
unfolding hex_text
hex_value-hex_text zero n h = hex_value_one n (omega arith)
hex_value-hex_text (suc fuel) n h = elim (Bool-cases (ltb n 16)) [
  | inl e ↦ rw e (hex_value_one n (ltb→lt n 16 e))
  | inr e ↦
      rw
        (
          e,
          hex_value_last (hex_text fuel (n / 16)) (some 0) (hex_digit (n % 16)),
          hex_value-hex_text fuel (n / 16) (omega arith),
          digit_value-hex_digit (n % 16) (omega arith),
        )
        (unfold add_digit in ap some (omega arith))
]

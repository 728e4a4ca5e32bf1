-- ===== src/Utf8/Spec.antt =====
-- UTF-8 as the standard defines it: the encoding of Unicode scalar values.
use paho_mqtt_c.Common.{ℕ, ◌+◌, ◌/◌, ◌%◌, ◌<◌, ◌≤◌, ◌⊎◌, ltb, if◌then◌else◌, List, [], ◌∷◌, ◌++◌}

-- A code point that is no surrogate.
abbrev pub IsScalar : ℕ → Type 0
IsScalar u = (u < 0xD800) ⊎ ((0xE000 ≤ u) × (u < 0x110000))

abbrev pub encode_scalar : ℕ → List ℕ
encode_scalar u =
    if ltb u 0x80
    then u ∷ []
    else if ltb u 0x800
    then (0xC0 + u / 64) ∷ (0x80 + u % 64) ∷ []
    else if ltb u 0x10000
    then (0xE0 + u / 4096) ∷ (0x80 + u / 64 % 64) ∷ (0x80 + u % 64) ∷ []
    else (0xF0 + u / 262144) ∷ (0x80 + u / 4096 % 64) ∷ (0x80 + u / 64 % 64) ∷ (0x80 + u % 64) ∷ []

abbrev pub encode_text : List ℕ → List ℕ
encode_text [] = []
encode_text (u ∷ us) = encode_scalar u ++ encode_text us

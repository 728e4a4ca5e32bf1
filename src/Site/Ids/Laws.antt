-- ===== src/Site/Ids/Laws.antt =====
-- Ids that convertToId gives begin with one another as the texts do.
use paho_mqtt_c.Common.{ℕ, ◌/◌, ◌%◌, ◌<◌, ◌≤◌, ◌≡◌, refl, ap, ◌∙◌, arith, inl, inr}
use paho_mqtt_c.Common.{Bool, true, false, ◌&&◌, List, [], ◌∷◌, ◌++◌, ltb, ◌==◌, if◌then◌else◌}
use paho_mqtt_c.Common.{Bool-cases, ltb→lt, length, All, append_assoc}
use paho_mqtt_c.Site.Ids.{
  is_id_unit, hex_digit, to_string16, convert_unit, convert_to_id, starts_with,
}

-- A unit is itself or is written as an underscore and two digits.
abbrev pub IsUnit : ℕ → Type 0
IsUnit c = c < 65536

convert_unit_id : (c : ℕ) → is_id_unit c ≡ true → convert_unit c ≡ c ∷ []
unfolding convert_unit
convert_unit_id c h = rw h refl

escape_pair :
    (c : ℕ)
    → (if ltb c 16 then 95 ∷ 48 ∷ to_string16 c else 95 ∷ to_string16 c)
      ≡ 95 ∷ hex_digit (c / 16) ∷ hex_digit (c % 16) ∷ []
unfolding to_string16
escape_pair c = elim (Bool-cases (ltb c 16)) [
  | inl e ↦
      let quotient : c / 16 ≡ 0 = omega (arith, ltb→lt c 16 e) in
      let rest : c % 16 ≡ c = omega (arith, ltb→lt c 16 e) in
      rw (e, quotient, rest) (unfold hex_digit in refl)
  | inr e ↦ rw e refl
]

hex_digit_same : (a b : ℕ) → a < 16 → b < 16 → (hex_digit a == hex_digit b) ≡ (a == b)
unfolding hex_digit
hex_digit_same a b h k = ground arith

digits_same :
    (c d : ℕ) (rest : Bool) → (c / 16 == d / 16 && (c % 16 == d % 16 && rest)) ≡ (c == d && rest)
digits_same c d rest = ground arith

convert_unit_escape :
    (c : ℕ)
    → IsUnit c
    → is_id_unit c ≡ false
    → (c < 128) × (convert_unit c ≡ 95 ∷ hex_digit (c / 16) ∷ hex_digit (c % 16) ∷ [])
unfolding convert_unit
convert_unit_escape c u h = (unfold is_id_unit in ground arith, rw h (escape_pair c))

starts_with_same :
    (c d : ℕ) (x y : List ℕ)
    → IsUnit c
    → IsUnit d
    → starts_with (convert_unit c ++ x) (convert_unit d ++ y) ≡ (c == d && starts_with x y)
starts_with_same c d x y u v = elim (Bool-cases (is_id_unit c)) [
  | inl p ↦ elim (Bool-cases (is_id_unit d)) [
    | inl q ↦ rw (convert_unit_id c p, convert_unit_id d q) (unfold starts_with in refl)
    | inr q ↦
        rw (convert_unit_id c p, (convert_unit_escape d v q).1)
          (unfold starts_with is_id_unit in ground arith)
  ]
  | inr p ↦ elim (Bool-cases (is_id_unit d)) [
    | inl q ↦
        rw (convert_unit_id d q, (convert_unit_escape c u p).1)
          (unfold starts_with is_id_unit in ground arith)
    | inr q ↦
        rw ((convert_unit_escape c u p).1, (convert_unit_escape d v q).1)
          (unfold starts_with in
            rw
              (
                hex_digit_same (c / 16) (d / 16) (omega (arith, (convert_unit_escape c u p).0))
                    (omega (arith, (convert_unit_escape d v q).0)),
                hex_digit_same (c % 16) (d % 16) (omega arith) (omega arith),
              )
              (digits_same c d (starts_with x y)))
  ]
]

starts_with_empty : (c : ℕ) (x : List ℕ) → IsUnit c → starts_with (convert_unit c ++ x) [] ≡ false
starts_with_empty c x u = elim (Bool-cases (is_id_unit c)) [
  | inl p ↦ rw (convert_unit_id c p) (unfold starts_with in refl)
  | inr p ↦ rw ((convert_unit_escape c u p).1) (unfold starts_with in refl)
]

-- The id of a text begins with the id of another one just if the text begins with the other one.
pub starts_with-convert_to_id :
    (search name : List ℕ)
    → All IsUnit search
    → All IsUnit name
    → starts_with (convert_to_id search) (convert_to_id name) ≡ starts_with search name
unfolding convert_to_id starts_with
starts_with-convert_to_id [] name u v = refl
starts_with-convert_to_id (c ∷ search) [] u v = starts_with_empty c (convert_to_id search) u.0
starts_with-convert_to_id (c ∷ search) (d ∷ name) u v =
    starts_with_same c d (convert_to_id search) (convert_to_id name) u.0 v.0
    ∙ ap (λ b. c == d && b) (starts_with-convert_to_id search name u.1 v.1)

-- The same with anything behind the id, for a text that is not longer than the other one.
pub starts_with-convert_to_id-append :
    (search name suffix : List ℕ)
    → All IsUnit search
    → All IsUnit name
    → length search ≤ length name
    → starts_with (convert_to_id search) (convert_to_id name ++ suffix) ≡ starts_with search name
unfolding convert_to_id starts_with
starts_with-convert_to_id-append [] name suffix u v h = refl
starts_with-convert_to_id-append (c ∷ search) [] suffix u v h = absurd (omega arith)
starts_with-convert_to_id-append (c ∷ search) (d ∷ name) suffix u v h =
    rw (append_assoc (convert_unit d) (convert_to_id name) suffix) (
      starts_with_same c d (convert_to_id search) (convert_to_id name ++ suffix) u.0 v.0
      ∙ ap (λ b. c == d && b)
          (starts_with-convert_to_id-append search name suffix u.1 v.1 (omega arith)))

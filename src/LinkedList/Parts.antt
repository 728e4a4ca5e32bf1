-- ===== src/LinkedList/Parts.antt =====
-- The parts of a list: what a change of one part leaves of the other, and the ends of both.
use paho_mqtt_c.Common.{ℕ, ◌≡◌, ◌≢◌, inl, inr, refl, sym, arith}
use paho_mqtt_c.Common.{[], ◌∷◌, ◌++◌, Option, none, some, if◌then◌else◌, ◌==◌, Bool-cases}
use paho_mqtt_c.LinkedList.{Store, same_pointer}
use paho_mqtt_c.LinkedList.Chain.{Cells, head_or, last_or, Distinct, At, CurrentIn, Agree, Off-back}
use paho_mqtt_c.LinkedList.Chain.{Distinct-middle}
use paho_mqtt_c.LinkedList.Links.{AgreeOff}

-- What lies off the one part of a list lies in the other.
pub Agree-back :
    (g h : Store) (xs ys : Cells) → AgreeOff g h xs → Distinct (xs ++ ys) → Agree g h ys
Agree-back g h xs [] same d = tt
Agree-back g h xs ((a, c) ∷ ys) same d =
    let (off, rest) = Distinct-middle xs a c ys d in (same a off, Agree-back g h xs ys same rest)

pub Agree-front :
    (g h : Store) (xs ys : Cells) → AgreeOff g h ys → Distinct (xs ++ ys) → Agree g h xs
Agree-front g h [] ys same d = tt
Agree-front g h ((a, c) ∷ xs) ys same d =
    (same a (Off-back a xs ys d.0), Agree-front g h xs ys same d.1)

-- The ends of a list in two parts.
pub head_or-append :
    (after : Option ℕ) (xs ys : Cells) → head_or after (xs ++ ys) ≡ head_or (head_or after ys) xs
head_or-append after [] ys = refl
head_or-append after ((a, c) ∷ xs) ys = refl

pub last_or-append :
    (before : Option ℕ) (xs ys : Cells) → last_or before (xs ++ ys) ≡ last_or (last_or before xs) ys
last_or-append before [] ys = refl
last_or-append before ((a, c) ∷ xs) ys = last_or-append (some a) xs ys

-- The end of a list that is not empty does not depend on what stands beyond.
pub head_or_same : (p q : Option ℕ) (xs : Cells) → p ≡ head_or q xs → p ≡ head_or p xs
head_or_same p q [] e = refl
head_or_same p q ((a, c) ∷ xs) e = e

pub last_or_same : (p q : Option ℕ) (xs : Cells) → p ≡ last_or q xs → p ≡ last_or p xs
last_or_same p q [] e = refl
last_or_same p q ((a, c) ∷ xs) e = e

pub At-back : (a c : ℕ) (xs ys : Cells) → At a c ys → At a c (xs ++ ys)
At-back a c [] ys at = at
At-back a c (x ∷ xs) ys at = inr (At-back a c xs ys at)

-- A cell other than the one in the middle stays.
pub At-without :
    (b d a c : ℕ) (xs ys : Cells) → b ≢ a → At b d (xs ++ (a, c) ∷ ys) → At b d (xs ++ ys)
At-without b d a c [] ys ne (inl e) = absurd (ne (sym e.0))
At-without b d a c [] ys ne (inr at) = at
At-without b d a c (x ∷ xs) ys ne (inl e) = inl e
At-without b d a c (x ∷ xs) ys ne (inr at) = inr (At-without b d a c xs ys ne at)

head_or-CurrentIn : (xs ys : Cells) → CurrentIn (head_or none ys) (xs ++ ys)
head_or-CurrentIn xs [] = tt
head_or-CurrentIn xs ((a, c) ∷ ys) = (c, At-back a c xs ((a, c) ∷ ys) (inl (refl, refl)))

pub current_after :
    (saved : Option ℕ) (a c : ℕ) (xs ys : Cells)
    → CurrentIn saved (xs ++ (a, c) ∷ ys)
    → CurrentIn (if same_pointer saved a then head_or none ys else saved) (xs ++ ys)
unfolding same_pointer
current_after none a c xs ys i = tt
current_after (some b) a c xs ys (d, at) = elim (Bool-cases (b == a)) [
  | inl e ↦ rw e (head_or-CurrentIn xs ys)
  | inr e ↦ rw e (d, At-without b d a c xs ys (λ same. absurd (ground (arith, e, same))) at)
]

At-insert : (b d a c : ℕ) (xs ys : Cells) → At b d (xs ++ ys) → At b d (xs ++ (a, c) ∷ ys)
At-insert b d a c [] ys at = inr at
At-insert b d a c (x ∷ xs) ys (inl e) = inl e
At-insert b d a c (x ∷ xs) ys (inr at) = inr (At-insert b d a c xs ys at)

-- A new cell in the middle leaves `current` in the list.
pub current_still :
    (current : Option ℕ) (a c : ℕ) (xs ys : Cells)
    → CurrentIn current (xs ++ ys)
    → CurrentIn current (xs ++ (a, c) ∷ ys)
current_still none a c xs ys i = tt
current_still (some b) a c xs ys (d, at) = (d, At-insert b d a c xs ys at)

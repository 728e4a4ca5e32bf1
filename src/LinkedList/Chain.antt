-- ===== src/LinkedList/Chain.antt =====
-- What a list in the store stands for: the addresses and the contents of its elements, in order.
use paho_mqtt_c.Common.{ℕ, ◌≡◌, ◌≢◌, ◌⊎◌, inl, inr, refl, sym, ap, arith, List, [], ◌∷◌, ◌++◌}
use paho_mqtt_c.Common.{Option, none, some, All, length, ne→==_false, some_ne_none, ◌∙◌}
use paho_mqtt_c.LinkedList.{ListElement, Store, ListHeader, write}

abbrev pub Cells : Type 0
Cells = List (ℕ × ℕ)

abbrev pub element : ℕ → Option ℕ → Option ℕ → ListElement
element content prev next = record { content = content; prev = prev; next = next }

-- The first address of the cells, or what stands behind them; the last one, or what stands before them.
abbrev pub head_or : Option ℕ → Cells → Option ℕ
head_or after [] = after
head_or after ((a, c) ∷ xs) = some a

abbrev pub last_or : Option ℕ → Cells → Option ℕ
last_or before [] = before
last_or before ((a, c) ∷ xs) = last_or (some a) xs

-- The address is none of those of the cells.
abbrev pub Off : ℕ → Cells → Type 0
Off a xs = All (λ x. x.0 ≢ a) xs

abbrev pub Distinct : Cells → Type 0
Distinct [] = Unit
Distinct ((a, c) ∷ xs) = Off a xs × Distinct xs

-- The elements of the cells are linked both ways, between `before` and `after`.
abbrev pub Chain : Store → Option ℕ → Option ℕ → Cells → Type 0
Chain h before after [] = Unit
Chain h before after ((a, c) ∷ xs) =
    (h a ≡ some (element c before (head_or after xs))) × Chain h (some a) after xs

-- There is a cell with this address and this content.
abbrev pub At : ℕ → ℕ → Cells → Type 0
At a c [] = ⊥
At a c ((b, d) ∷ xs) = ((b ≡ a) × (d ≡ c)) ⊎ At a c xs

abbrev pub CurrentIn : Option ℕ → Cells → Type 0
CurrentIn none xs = Unit
CurrentIn (some a) xs = (c : ℕ) × At a c xs

-- The list in the store stands for these cells.
pub record IsList (h : Store) (l : ListHeader) (xs : Cells) : Type 0 where
  pub chain : Chain h none none xs
  pub distinct : Distinct xs
  pub first : l.first ≡ head_or none xs
  pub last : l.last ≡ last_or none xs
  pub count : l.count ≡ length xs
  pub current : CurrentIn l.current xs

-- Two stores agree at the addresses of the cells.
abbrev pub Agree : Store → Store → Cells → Type 0
Agree g h xs = All (λ x. g x.0 ≡ h x.0) xs

pub frame :
    (g h : Store) (before after : Option ℕ) (xs : Cells)
    → Agree g h xs
    → Chain h before after xs
    → Chain g before after xs
frame g h before after [] same s = tt
frame g h before after ((a, c) ∷ xs) same s =
    (rw same.0 s.0, frame g h (some a) after xs same.1 s.1)

pub write_ne : (h : Store) (a : ℕ) (e : Option ListElement) (b : ℕ) → b ≢ a → write h a e b ≡ h b
unfolding write
write_ne h a e b ne = rw (ne→==_false b a ne) refl

pub write_self : (h : Store) (a : ℕ) (e : Option ListElement) → write h a e a ≡ e
unfolding write
write_self h a e = ground arith

pub write-Agree :
    (h : Store) (a : ℕ) (e : Option ListElement) (xs : Cells) → Off a xs → Agree (write h a e) h xs
write-Agree h a e [] out = tt
write-Agree h a e (x ∷ xs) out = (write_ne h a e x.0 out.0, write-Agree h a e xs out.1)

-- The two parts of a chain.
pub Chain-append :
    (h : Store) (before after : Option ℕ) (xs ys : Cells)
    → Chain h before (head_or after ys) xs
    → Chain h (last_or before xs) after ys
    → Chain h before after (xs ++ ys)
Chain-append h before after [] ys s t = t
Chain-append h before after ((a, c) ∷ []) ys s t = (s.0, t)
Chain-append h before after ((a, c) ∷ (b, d) ∷ xs) ys s t =
    (s.0, Chain-append h (some a) after ((b, d) ∷ xs) ys s.1 t)

pub Chain-front :
    (h : Store) (before after : Option ℕ) (xs ys : Cells)
    → Chain h before after (xs ++ ys)
    → Chain h before (head_or after ys) xs
Chain-front h before after [] ys s = tt
Chain-front h before after ((a, c) ∷ []) ys s = (s.0, tt)
Chain-front h before after ((a, c) ∷ (b, d) ∷ xs) ys s =
    (s.0, Chain-front h (some a) after ((b, d) ∷ xs) ys s.1)

pub Chain-back :
    (h : Store) (before after : Option ℕ) (xs ys : Cells)
    → Chain h before after (xs ++ ys)
    → Chain h (last_or before xs) after ys
Chain-back h before after [] ys s = s
Chain-back h before after ((a, c) ∷ xs) ys s = Chain-back h (some a) after xs ys s.1

pub Off-front : (a : ℕ) (xs ys : Cells) → Off a (xs ++ ys) → Off a xs
Off-front a [] ys o = tt
Off-front a (x ∷ xs) ys o = (o.0, Off-front a xs ys o.1)

pub Off-back : (a : ℕ) (xs ys : Cells) → Off a (xs ++ ys) → Off a ys
Off-back a [] ys o = o
Off-back a (x ∷ xs) ys o = Off-back a xs ys o.1

pub Off-append : (a : ℕ) (xs ys : Cells) → Off a xs → Off a ys → Off a (xs ++ ys)
Off-append a [] ys o p = p
Off-append a (x ∷ xs) ys o p = (o.0, Off-append a xs ys o.1 p)

pub Distinct-front : (xs ys : Cells) → Distinct (xs ++ ys) → Distinct xs
Distinct-front [] ys d = tt
Distinct-front ((a, c) ∷ xs) ys d = (Off-front a xs ys d.0, Distinct-front xs ys d.1)

pub Distinct-back : (xs ys : Cells) → Distinct (xs ++ ys) → Distinct ys
Distinct-back [] ys d = d
Distinct-back (x ∷ xs) ys d = Distinct-back xs ys d.1

-- A cell in the middle is none of the others, and without it the others are distinct.
pub Distinct-middle :
    (xs : Cells) (a c : ℕ) (ys : Cells)
    → Distinct (xs ++ (a, c) ∷ ys)
    → Off a xs × Distinct (xs ++ ys)
Distinct-middle [] a c ys d = (tt, d.1)
Distinct-middle ((b, e) ∷ xs) a c ys d =
    let (off, rest) = Distinct-middle xs a c ys d.1 in
    let away = Off-back b xs ((a, c) ∷ ys) d.0 in
    (
      (λ same. away.0 (sym same), off),
      (Off-append b xs ys (Off-front b xs ((a, c) ∷ ys) d.0) away.1, rest),
    )

-- A new cell in the middle.
pub Distinct-insert :
    (xs : Cells) (a c : ℕ) (ys : Cells)
    → Distinct (xs ++ ys)
    → Off a (xs ++ ys)
    → Distinct (xs ++ (a, c) ∷ ys)
Distinct-insert [] a c ys d o = (o, d)
Distinct-insert ((b, e) ∷ xs) a c ys d o = (
  Off-append b xs ((a, c) ∷ ys) (Off-front b xs ys d.0)
      (λ same. o.0 (sym same), Off-back b xs ys d.0),
  Distinct-insert xs a c ys d.1 o.1,
)

pub At-split :
    (a c : ℕ) (xs : Cells) → At a c xs → (ys : Cells) × (zs : Cells) × (xs ≡ ys ++ (a, c) ∷ zs)
At-split a c [] at = absurd at
At-split a c ((b, d) ∷ xs) (inl e) = ([], xs, rw (e.0, e.1) refl)
At-split a c ((b, d) ∷ xs) (inr at) =
    let (ys, zs, e) = At-split a c xs at in ((b, d) ∷ ys, zs, ap (λ l. (b, d) ∷ l) e)

-- An address that is allocated is none that is not.
pub Off-fresh :
    (h : Store) (before after : Option ℕ) (xs : Cells) (a : ℕ)
    → Chain h before after xs
    → h a ≡ none
    → Off a xs
Off-fresh h before after [] a s e = tt
Off-fresh h before after ((b, c) ∷ xs) a s e =
    (λ same. some_ne_none _ (sym s.0 ∙ ap h same ∙ e), Off-fresh h (some b) after xs a s.1 e)

-- ===== src/Protocol/Exchange/Messages.antt =====
-- src/LinkedList.c: ListFindItem on a list of messages, with its test of `current`. Finding, replacing and
-- removing messages by their ids.
use paho_mqtt_c.Common.{ℕ, ◌≡◌, ◌≢◌, refl, ◌∙◌, arith, List, [], ◌∷◌, ◌++◌, none, some}
use paho_mqtt_c.Common.{
  suc, zero, sym, ap, Option, Option-cases, get_elem?, if◌then◌else◌, ◌==◌, ==_iff, Bool-cases, inl,
  inr, some_ne_none, some-injective,
}
use paho_mqtt_c.Protocol.Exchange.{Message, find, replace, remove}

-- No two messages have one id.
abbrev pub Distinct : List Message → Type 0
Distinct [] = Unit
Distinct (m ∷ ms) = (find m.msgid ms ≡ none) × Distinct ms

-- `ListFindItem` with the message of the `current` element, which is tested first.
unfoldable pub find_current : Option Message → ℕ → List Message → Option Message
find_current none msgid ms = find msgid ms
find_current (some m) msgid ms = if m.msgid == msgid then some m else find msgid ms

find-Mem :
    (ms : List Message) (i : ℕ) (m : Message)
    → Distinct ms
    → get_elem? ms i ≡ some m
    → find m.msgid ms ≡ some m
unfolding find
find-Mem [] i m d e = cc
find-Mem (x ∷ ms) zero m d e = let same : x ≡ m = some-injective x m e in rw same (ground arith)
find-Mem (x ∷ ms) (suc i) m d e =
    let found = find-Mem ms i m d.1 e in
    elim (Bool-cases (x.msgid == m.msgid)) [
      | inl p ↦ absurd (
          some_ne_none m
            (sym found ∙ ap (λ n. find n ms) (sym ((==_iff x.msgid m.msgid).0 p)) ∙ d.0))
      | inr p ↦ rw p found
    ]

-- In a list without two messages of one id, the test of `current` makes no difference to the message found,
-- whichever element of the list is current.
pub find_current-find :
    (ms : List Message) (i : ℕ) (msgid : ℕ)
    → Distinct ms
    → find_current (get_elem? ms i) msgid ms ≡ find msgid ms
unfolding find_current
find_current-find ms i msgid d = elim (Option-cases (get_elem? ms i)) [
  | inl e ↦ rw e refl
  | inr (m, e) ↦ rw e (elim (Bool-cases (m.msgid == msgid)) [
    | inl p ↦ rw p (sym (find-Mem ms i m d e) ∙ ap (λ n. find n ms) ((==_iff m.msgid msgid).0 p))
    | inr p ↦ rw p refl
  ])
]

module _ (id : ℕ) where
  pub find-replace_self :
      (ms : List Message) (old new : Message)
      → new.msgid ≡ id
      → find id ms ≡ some old
      → find id (replace id new ms) ≡ some new
  unfolding find replace
  find-replace_self [] old new e h = cc
  find-replace_self (m ∷ ms) old new e h = ground (arith, find-replace_self ms old new e)

  pub find-replace_ne :
      (ms : List Message) (new : Message) (j : ℕ)
      → new.msgid ≡ id
      → j ≢ id
      → find j (replace id new ms) ≡ find j ms
  unfolding find replace
  find-replace_ne [] new j e h = refl
  find-replace_ne (m ∷ ms) new j e h = ground (arith, find-replace_ne ms new j e h)

  pub find-append_self :
      (ms : List Message) (new : Message)
      → new.msgid ≡ id
      → find id ms ≡ none
      → find id (ms ++ new ∷ []) ≡ some new
  unfolding find
  find-append_self [] new e h = ground arith
  find-append_self (m ∷ ms) new e h = ground (arith, find-append_self ms new e)

  pub find-append_ne :
      (ms : List Message) (new : Message) (j : ℕ)
      → new.msgid ≡ id
      → j ≢ id
      → find j (ms ++ new ∷ []) ≡ find j ms
  unfolding find
  find-append_ne [] new j e h = ground arith
  find-append_ne (m ∷ ms) new j e h = ground (arith, find-append_ne ms new j e h)

  pub find-remove_ne : (ms : List Message) (j : ℕ) → j ≢ id → find j (remove id ms) ≡ find j ms
  unfolding find remove
  find-remove_ne [] j h = refl
  find-remove_ne (m ∷ ms) j h = ground (arith, find-remove_ne ms j h)

  pub find-remove_self : (ms : List Message) → Distinct ms → find id (remove id ms) ≡ none
  unfolding find remove
  find-remove_self [] d = refl
  find-remove_self (m ∷ ms) (f, d) = ground (arith, find-remove_self ms d)

  -- Removing one message takes none away that was not there.
  find-remove-none : (ms : List Message) (j : ℕ) → find j ms ≡ none → find j (remove id ms) ≡ none
  unfolding find remove
  find-remove-none [] j h = refl
  find-remove-none (m ∷ ms) j h = ground (arith, find-remove-none ms j)

  find-replace-none :
      (ms : List Message) (new : Message) (j : ℕ)
      → new.msgid ≡ id
      → find j ms ≡ none
      → find j (replace id new ms) ≡ none
  unfolding find replace
  find-replace-none [] new j e h = refl
  find-replace-none (m ∷ ms) new j e h = ground (arith, find-replace-none ms new j e)

  pub remove-Distinct : (ms : List Message) → Distinct ms → Distinct (remove id ms)
  unfolding remove
  remove-Distinct [] d = tt
  remove-Distinct (m ∷ ms) (f, d) =
      ground (arith, remove-Distinct ms d, find-remove-none ms m.msgid f)

  pub replace-Distinct :
      (ms : List Message) (new : Message)
      → new.msgid ≡ id
      → Distinct ms
      → Distinct (replace id new ms)
  unfolding replace
  replace-Distinct [] new e d = tt
  replace-Distinct (m ∷ ms) new e (f, d) =
      ground (arith, replace-Distinct ms new e d, find-replace-none ms new m.msgid e f)

  find-none-cons :
      (m : Message) (ms : List Message)
      → find id (m ∷ ms) ≡ none
      → (m.msgid ≢ id) × (find id ms ≡ none)
  unfolding find
  find-none-cons m ms h = ground arith

  pub append-Distinct :
      (ms : List Message) (new : Message)
      → new.msgid ≡ id
      → find id ms ≡ none
      → Distinct ms
      → Distinct (ms ++ new ∷ [])
  append-Distinct [] new e h d = (unfold find in refl, tt)
  append-Distinct (m ∷ ms) new e h (f, d) =
      let (ne, left) = find-none-cons m ms h in
      (find-append_ne ms new m.msgid e ne ∙ f, append-Distinct ms new e left d)

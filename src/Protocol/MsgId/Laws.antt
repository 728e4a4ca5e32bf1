-- ===== src/Protocol/MsgId/Laws.antt =====
-- Which id MQTTProtocol_assignMsgId gives, and when it gives none.
use paho_mqtt_c.Common.{
  ℕ, zero, suc, ◌+◌, ◌-◌, ◌%◌, ◌≤◌, ◌<◌, ◌≡◌, ◌≢◌, ◌⊎◌, inl, inr, refl, ◌∙◌, arith,
}
use paho_mqtt_c.Common.{true, false, List, none, some, ◌==◌}
use paho_mqtt_c.Common.{Bool-cases, ne→==_false, ==_iff, ap, sym}
use paho_mqtt_c.Protocol.MsgId.{next_id, in_use, assign_loop, assigned, assign_msg_id}

-- The id that the search reaches after `k` steps from `start`.
abbrev pub slot : ℕ → ℕ → ℕ
slot start k = (start + k + 65534) % 65535 + 1

-- An id that MQTT allows.
abbrev pub IsId : ℕ → Type 0
IsId id = (1 ≤ id) × (id ≤ 65535)

next_id-slot : (start k : ℕ) → next_id (slot start k) ≡ slot start (k + 1)
unfolding next_id
next_id-slot start k = ground arith

slot_back : (start : ℕ) → 1 ≤ start → start ≤ 65535 → slot start 65535 ≡ start
slot_back start l h = omega arith

slot_ne : (start k : ℕ) → 1 ≤ start → start ≤ 65535 → 1 ≤ k → k < 65535 → slot start k ≢ start
slot_ne start k l h p q = omega arith

-- The ids of the steps from `k` up to `j`, without `j`, are in use.
abbrev AllUsed : List ℕ → ℕ → ℕ → ℕ → Type 0
AllUsed ids start k j = (i : ℕ) → k ≤ i → i < j → in_use ids (slot start i) ≡ true

AllUsed-cons :
    (ids : List ℕ) (start k j : ℕ)
    → in_use ids (slot start k) ≡ true
    → AllUsed ids start (k + 1) j
    → AllUsed ids start k j
AllUsed-cons ids start k j u us i l h = elim (Bool-cases (i == k)) [
  | inl e ↦ rw ((==_iff i k).0 e) u
  | inr e ↦ us i (ground arith) h
]

-- The search from step `k` on ends: at a step with a free id, or after all ids but `start`.
abbrev Outcome : List ℕ → ℕ → ℕ → ℕ → Type 0
Outcome ids start k v =
    ((j : ℕ) × (j < 65535)
      × (k ≤ j)
      × (v ≡ slot start j)
      × (in_use ids v ≡ false)
      × AllUsed ids start k j)
    ⊎ ((v ≡ 0) × AllUsed ids start k 65535)

assign_loop_free :
    (fuel : ℕ) (ids : List ℕ) (start id : ℕ)
    → in_use ids id ≡ false
    → assign_loop (suc fuel) ids start id ≡ some id
unfolding assign_loop
assign_loop_free fuel ids start id h = rw h

assign_loop_last :
    (fuel : ℕ) (ids : List ℕ) (start id : ℕ)
    → in_use ids id ≡ true
    → next_id id ≡ start
    → assign_loop (suc fuel) ids start id ≡ some 0
unfolding assign_loop
assign_loop_last fuel ids start id h e = rw h (rw e (ground arith))

assign_loop_more :
    (fuel : ℕ) (ids : List ℕ) (start id : ℕ)
    → in_use ids id ≡ true
    → next_id id ≢ start
    → assign_loop (suc fuel) ids start id ≡ assign_loop fuel ids start (next_id id)
assign_loop_more fuel ids start id h ne =
    unfold assign_loop in rw h (rw (ne→==_false (next_id id) start ne))

Outcome-cons :
    (ids : List ℕ) (start k v : ℕ)
    → in_use ids (slot start k) ≡ true
    → Outcome ids start (k + 1) v
    → Outcome ids start k v
Outcome-cons ids start k v u (inl (j, h, l, e, free, us)) =
    inl (j, h, omega arith, e, free, AllUsed-cons ids start k j u us)
Outcome-cons ids start k v u (inr (e, us)) = inr (e, AllUsed-cons ids start k 65535 u us)

assign_loop-Outcome :
    (r fuel k : ℕ) (ids : List ℕ) (start : ℕ)
    → IsId start
    → 1 ≤ k
    → r + k ≡ 65534
    → r < fuel
    → (v : ℕ) × (assign_loop fuel ids start (slot start k) ≡ some v) × Outcome ids start k v
assign_loop-Outcome r zero k ids start s l e f = elim f [ ]
assign_loop-Outcome zero (suc fuel) k ids start s l e f =
    elim (Bool-cases (in_use ids (slot start k))) [
      | inl u ↦ (
        0,
        assign_loop_last fuel ids start (slot start k) u
            (next_id-slot start k ∙ ap (λ n. slot start n) (omega arith) ∙ slot_back start s.0 s.1),
        inr (refl, λ i li hi. let e : i ≡ k = omega arith in rw e u),
      )
      | inr free ↦ (
        slot start k,
        assign_loop_free fuel ids start (slot start k) free,
        inl (k, omega arith, omega arith, refl, free, λ i li hi. absurd (omega arith)),
      )
    ]
assign_loop-Outcome (suc r) (suc fuel) k ids start s l e f =
    elim (Bool-cases (in_use ids (slot start k))) [
      | inl u ↦
          let (v, run, outcome) =
            assign_loop-Outcome r fuel (k + 1) ids start s (omega arith) (omega arith)
              (omega arith) in
          (
            v,
            assign_loop_more fuel ids start (slot start k) u (λ p.
                  slot_ne start (k + 1) s.0 s.1 (omega arith) (omega arith)
                    (sym (next_id-slot start k) ∙ p))
                ∙ ap (λ n. assign_loop fuel ids start n) (next_id-slot start k)
                ∙ run,
            Outcome-cons ids start k v u outcome,
          )
      | inr free ↦ (
        slot start k,
        assign_loop_free fuel ids start (slot start k) free,
        inl (k, omega arith, omega arith, refl, free, λ i li hi. absurd (omega arith)),
      )
    ]

-- The step from `start` to an id.
steps_to : ℕ → ℕ → ℕ
steps_to start id = (id + 65535 - start) % 65535

slot-steps_to :
    (start id : ℕ)
    → IsId start
    → IsId id
    → id ≢ start
    → (1 ≤ steps_to start id) × (steps_to start id < 65535) × (slot start (steps_to start id) ≡ id)
unfolding steps_to
slot-steps_to start id s i ne = omega arith

-- Every id but the last one that was assigned is in use.
abbrev pub AllOthersUsed : List ℕ → ℕ → Type 0
AllOthersUsed ids start = (id : ℕ) → IsId id → id ≢ start → in_use ids id ≡ true

all_others :
    (ids : List ℕ) (start : ℕ) → IsId start → AllUsed ids start 1 65535 → AllOthersUsed ids start
all_others ids start s us id i ne =
    let (l, h, e) = slot-steps_to start id s i ne in rw e at (us (steps_to start id) l h)

first_slot : (start : ℕ) → IsId start → next_id start ≡ slot start 1
unfolding next_id
first_slot start s = ground arith

assigned_cases :
    (ids : List ℕ) (start v : ℕ)
    → IsId start
    → assign_msg_id ids start ≡ assigned start (some v)
    → Outcome ids start 1 v
    → ((id : ℕ) × (assign_msg_id ids start ≡ some (id, id))
        × IsId id
        × (in_use ids id ≡ false)
        × (id ≢ start))
      ⊎ ((assign_msg_id ids start ≡ some (0, start)) × AllOthersUsed ids start)
assigned_cases ids start v s e (inl (j, h, l, at, free, us)) = inl (
  v,
  e ∙ unfold assigned in ground (arith, at),
  (omega (arith, at), omega (arith, at)),
  free,
  λ p. slot_ne start j s.0 s.1 l h (sym at ∙ p),
)
assigned_cases ids start v s e (inr (zero_id, us)) =
    inr (e ∙ unfold assigned in rw zero_id refl, all_others ids start s us)

-- From an id that MQTT allows the search ends. Either it gives an id that MQTT allows, that is not in use
-- and that is not the last one assigned, which `msgID` then is; or it gives 0, leaves `msgID` as it was,
-- and every id but the last one assigned is in use.
pub assign_msg_id_lem :
    (ids : List ℕ) (start : ℕ)
    → IsId start
    → ((id : ℕ) × (assign_msg_id ids start ≡ some (id, id))
        × IsId id
        × (in_use ids id ≡ false)
        × (id ≢ start))
      ⊎ ((assign_msg_id ids start ≡ some (0, start)) × AllOthersUsed ids start)
assign_msg_id_lem ids start s =
    let (v, run, outcome) =
      assign_loop-Outcome 65533 65535 1 ids start s (omega arith) (omega arith) (omega arith) in
    let answer : assign_msg_id ids start ≡ assigned start (some v) =
      unfold assign_msg_id in rw (first_slot start s) (ap (λ o. assigned start o) run) in
    assigned_cases ids start v s answer outcome

next_id-ne-zero : (msgid : ℕ) → next_id msgid ≢ 0
unfolding next_id
next_id-ne-zero msgid = ground arith

next_id-IsId : (msgid : ℕ) → IsId msgid → IsId (next_id msgid)
unfolding next_id
next_id-IsId msgid h = ground arith

-- If `msgID` is 0 and every id is in use, the search does not end: no number of rounds gives a result.
pub assign_loop_endless :
    (fuel : ℕ) (ids : List ℕ) (msgid : ℕ)
    → ((id : ℕ) → IsId id → in_use ids id ≡ true)
    → IsId msgid
    → assign_loop fuel ids 0 msgid ≡ none
unfolding assign_loop
assign_loop_endless zero ids msgid all h = refl
assign_loop_endless (suc fuel) ids msgid all h = rw (all msgid h) (
    rw (ne→==_false (next_id msgid) 0 (next_id-ne-zero msgid))
      (assign_loop_endless fuel ids (next_id msgid) all (next_id-IsId msgid h)))

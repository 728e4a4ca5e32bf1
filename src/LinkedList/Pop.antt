-- ===== src/LinkedList/Pop.antt =====
-- ListPopTail: the list loses its last element.
use paho_mqtt_c.Common.{ℕ, ◌-◌, ◌≡◌, inl, inr, refl, sym, ◌∙◌, arith, [], ◌∷◌, ◌++◌}
use paho_mqtt_c.Common.{Option, none, some, length-append, append-nil, if◌then◌else◌, ◌==◌, lt→ltb}
use paho_mqtt_c.Common.{ne→==_false, Bool-cases}
use paho_mqtt_c.Packet.Wire.{Result, ok}
use paho_mqtt_c.LinkedList.{Store, ListHeader, write, same_pointer}
use paho_mqtt_c.LinkedList.Ends.{clear_next, pop_last, pop_tail}
use paho_mqtt_c.LinkedList.Chain.{
  Cells, head_or, last_or, Off, Distinct, Chain, At, CurrentIn, IsList, frame,
}
use paho_mqtt_c.LinkedList.Chain.{
  write_ne, write_self, write-Agree, Chain-front, Chain-back, Distinct-middle,
}
use paho_mqtt_c.LinkedList.Chain.{Distinct-front, Off-front, Off-back}
use paho_mqtt_c.LinkedList.Links.{load_lem, AgreeOff, Relinked, set_next-Relinked, last_or-some}
use paho_mqtt_c.LinkedList.Parts.{At-without, last_or-append}

-- The last element is gone: its content is the result.
pub record Popped (h : Store) (xs : Cells) (a c : ℕ) (r : Result (Option ℕ × Store × ListHeader))
    : Type 0 where
  pub store : Store
  pub header : ListHeader
  pub run : r ≡ ok (some c, store, header)
  pub list : IsList store header xs
  pub freed : store a ≡ none
  pub same : AgreeOff store h (xs ++ (a, c) ∷ [])

clear_next-Relinked :
    (h : Store) (after : Option ℕ) (xs : Cells)
    → Chain h none after xs
    → Distinct xs
    → Relinked h none none xs (clear_next h (last_or none xs))
unfolding clear_next
clear_next-Relinked h after [] s d = record {
  store = h;
  run = refl;
  chain = tt;
  same = λ b off. refl;
}
clear_next-Relinked h after ((a, c) ∷ xs) s d =
    let (b, last) = last_or-some a xs in
    let r = set_next-Relinked h none after none a c xs s d in
    record { store = r.store; run = rw last (rw last at r.run); chain = r.chain; same = r.same }

first_after :
    (first : Option ℕ) (a c : ℕ) (xs : Cells)
    → Off a xs
    → first ≡ head_or none (xs ++ (a, c) ∷ [])
    → (if same_pointer first a then none else first) ≡ head_or none xs
unfolding same_pointer
first_after first a c [] off e = rw e (ground arith)
first_after first a c ((b, d) ∷ xs) off e = rw (e, ne→==_false b a off.0) refl

later : (p : Option ℕ) (a c : ℕ) (xs : Cells) → CurrentIn p xs → CurrentIn p ((a, c) ∷ xs)
later none a c xs i = tt
later (some b) a c xs (d, at) = (d, inr at)

last_or-CurrentIn : (a c : ℕ) (xs : Cells) → CurrentIn (last_or (some a) xs) ((a, c) ∷ xs)
last_or-CurrentIn a c [] = (c, inl (refl, refl))
last_or-CurrentIn a c ((b, d) ∷ xs) =
    later (last_or (some b) xs) a c ((b, d) ∷ xs) (last_or-CurrentIn b d xs)

last_or_in : (xs : Cells) → CurrentIn (last_or none xs) xs
last_or_in [] = tt
last_or_in ((a, c) ∷ xs) = last_or-CurrentIn a c xs

current_before :
    (current : Option ℕ) (a c : ℕ) (xs : Cells)
    → CurrentIn current (xs ++ (a, c) ∷ [])
    → CurrentIn (if same_pointer current a then last_or none xs else current) xs
unfolding same_pointer
current_before none a c xs i = tt
current_before (some b) a c xs (d, at) = elim (Bool-cases (b == a)) [
  | inl e ↦ rw e (last_or_in xs)
  | inr e ↦
      let rest : At b d (xs ++ []) =
        At-without b d a c xs [] (λ same. absurd (ground (arith, e, same))) at in
      rw e (d, (rw (append-nil xs) at rest))
]

-- ListPopTail on a list that is not empty gives the content of its last cell; the list that is left stands for
-- the others, the memory of the element is free, and memory off the list is as it was.
pub pop_tail_refines :
    (h : Store) (l : ListHeader) (xs : Cells) (a c : ℕ)
    → IsList h l (xs ++ (a, c) ∷ [])
    → Popped h xs a c (pop_tail h l)
unfolding pop_tail pop_last
pop_tail_refines h l xs a c i =
    let (off, both) = Distinct-middle xs a c [] i.distinct in
    let d = Distinct-front xs ((a, c) ∷ []) i.distinct in
    let r =
      clear_next-Relinked h (some a) xs (Chain-front h none none xs ((a, c) ∷ []) i.chain) d in
    let at = (Chain-back h none none xs ((a, c) ∷ []) i.chain).0 in
    let longer = length-append xs ((a, c) ∷ []) in
    record {
      store = write r.store a none;
      header = record l {
        first = if same_pointer l.first a then none else l.first;
        last = last_or none xs;
        current = if same_pointer l.current a then last_or none xs else l.current;
        count = l.count - 1;
      };
      run =
          rw
            (
              lt→ltb 0 l.count (omega (arith, i.count, longer)),
              i.last ∙ last_or-append none xs ((a, c) ∷ []),
              load_lem h a _ at,
              r.run,
            )
            refl;
      list = record {
        chain =
            frame (write r.store a none) r.store none none xs (write-Agree r.store a none xs off)
              r.chain;
        distinct = d;
        first = first_after l.first a c xs off i.first;
        last = refl;
        count = omega (arith, i.count, longer);
        current = current_before l.current a c xs i.current;
      };
      freed = write_self r.store a none;
      same = λ b out.
          write_ne r.store a none b (λ q. (Off-back b xs ((a, c) ∷ []) out).0 (sym q))
          ∙ r.same b (Off-front b xs ((a, c) ∷ []) out);
    }

-- ===== src/LinkedList/Detach.antt =====
-- ListDetachHead, ListPopTail and ListEmpty: the list loses its first element, its last one, all of them.
use paho_mqtt_c.Common.{
  ℕ, zero, suc, ◌-◌, ◌<◌, ◌≡◌, ◌≢◌, refl, sym, ◌∙◌, arith, List, [], ◌∷◌, ◌++◌, ap,
}
use paho_mqtt_c.Common.{Option, none, some, All, length, if◌then◌else◌, ◌==◌, lt→ltb, ne→==_false}
use paho_mqtt_c.Packet.Wire.{Result, ok}
use paho_mqtt_c.LinkedList.{Store, ListHeader, zero_list, write, same_pointer}
use paho_mqtt_c.LinkedList.Ends.{
  clear_prev, detach_first, detach_head, free_content, free_loop, empty,
}
use paho_mqtt_c.LinkedList.Chain.{
  Cells, element, head_or, last_or, Off, Distinct, Chain, IsList, frame,
}
use paho_mqtt_c.LinkedList.Chain.{write_ne, write_self, write-Agree}
use paho_mqtt_c.LinkedList.Links.{load_lem, set_prev_lem, AgreeOff, Relinked}
use paho_mqtt_c.LinkedList.Parts.{current_after}

-- The first element is gone: its content is the result.
pub record Detached (h : Store) (a c : ℕ) (xs : Cells) (r : Result (Option ℕ × Store × ListHeader))
    : Type 0 where
  pub store : Store
  pub header : ListHeader
  pub run : r ≡ ok (some c, store, header)
  pub list : IsList store header xs
  pub freed : store a ≡ none
  pub same : AgreeOff store h ((a, c) ∷ xs)

clear_prev-Relinked :
    (h : Store) (before : Option ℕ) (xs : Cells)
    → Chain h before none xs
    → Distinct xs
    → Relinked h none none xs (clear_prev h (head_or none xs))
unfolding clear_prev
clear_prev-Relinked h before [] s d = record {
  store = h;
  run = refl;
  chain = tt;
  same = λ b off. refl;
}
clear_prev-Relinked h before ((a, c) ∷ xs) s d =
    let e = some (element c none (head_or none xs)) in
    record {
      store = write h a e;
      run = set_prev_lem h a c before none (head_or none xs) s.0;
      chain =
          (write_self h a e, frame (write h a e) h (some a) none xs (write-Agree h a e xs d.0) s.1);
      same = λ b off. write_ne h a e b (λ q. off.0 (sym q));
    }

last_or-Off :
    (a b c : ℕ) (xs : Cells)
    → Off a ((b, c) ∷ xs)
    → (d : ℕ) × (last_or (some b) xs ≡ some d) × (d ≢ a)
last_or-Off a b c [] off = (b, refl, off.0)
last_or-Off a b c ((d, e) ∷ xs) off = last_or-Off a d e xs off.1

-- `last` after the first element is gone.
last_after :
    (last : Option ℕ) (a : ℕ) (xs : Cells)
    → Off a xs
    → last ≡ last_or (some a) xs
    → (if same_pointer last a then none else last) ≡ last_or none xs
unfolding same_pointer
last_after last a [] off e = rw e (ground arith)
last_after last a ((b, c) ∷ xs) off e =
    let (d, at, apart) = last_or-Off a b c xs off in rw (e ∙ at, ne→==_false d a apart) (sym at)

-- ListDetachHead on a list that is not empty gives the content of its first cell; the list that is left stands
-- for the others, the memory of the element is free, and memory off the list is as it was.
pub detach_head_refines :
    (h : Store) (l : ListHeader) (a c : ℕ) (xs : Cells)
    → IsList h l ((a, c) ∷ xs)
    → Detached h a c xs (detach_head h l)
unfolding detach_head detach_first
detach_head_refines h l a c xs i =
    let r = clear_prev-Relinked h (some a) xs i.chain.1 i.distinct.1 in
    record {
      store = write r.store a none;
      header = record l {
        first = head_or none xs;
        last = if same_pointer l.last a then none else l.last;
        current = if same_pointer l.current a then head_or none xs else l.current;
        count = l.count - 1;
      };
      run =
          rw (lt→ltb 0 l.count (omega (arith, i.count)), i.first, load_lem h a _ i.chain.0, r.run)
            refl;
      list = record {
        chain =
            frame (write r.store a none) r.store none none xs
              (write-Agree r.store a none xs i.distinct.0) r.chain;
        distinct = i.distinct.1;
        first = refl;
        last = last_after l.last a xs i.distinct.0 i.last;
        count = omega (arith, i.count);
        current = current_after l.current a c [] xs i.current;
      };
      freed = write_self r.store a none;
      same = λ b off. write_ne r.store a none b (λ q. off.0 (sym q)) ∙ r.same b off.1;
    }

-- The memory that a list took is free.
abbrev pub Freed : Store → Cells → Type 0
Freed g xs = All (λ x. g x.0 ≡ none) xs

-- The contents of the cells in their order, without those that are NULL.
abbrev pub contents_of : Cells → List ℕ
contents_of [] = []
contents_of ((a, c) ∷ xs) = if c == 0 then contents_of xs else c ∷ contents_of xs

contents_of-next :
    (a c : ℕ) (xs : Cells) → free_content c ++ contents_of xs ≡ contents_of ((a, c) ∷ xs)
unfolding free_content
contents_of-next a c xs = ground arith

pub free_loop_lem :
    (fuel : ℕ) (h : Store) (before : Option ℕ) (xs : Cells)
    → length xs < fuel
    → Chain h before none xs
    → Distinct xs
    → (g : Store) × (free_loop fuel h (head_or none xs) ≡ ok (contents_of xs, g))
      × Freed g xs
      × AgreeOff g h xs
unfolding free_loop
free_loop_lem fuel h before [] enough s d = (h, refl, tt, λ b off. refl)
free_loop_lem zero h before ((a, c) ∷ xs) enough s d = absurd (omega (arith, enough))
free_loop_lem (suc fuel) h before ((a, c) ∷ xs) enough s d =
    let h1 = write h a none in
    let s1 = frame h1 h (some a) none xs (write-Agree h a none xs d.0) s.1 in
    let (g, run, freed, same) = free_loop_lem fuel h1 (some a) xs (omega (arith, enough)) s1 d.1 in
    (
      g,
      rw (load_lem h a _ s.0, run) (ap (λ l. ok (l, g)) (contents_of-next a c xs)),
      (same a d.0 ∙ write_self h a none, freed),
      λ b off. same b off.1 ∙ write_ne h a none b (λ q. off.0 (sym q)),
    )

-- ListEmpty ends, frees the contents of the elements that are not NULL, once for each element and in their
-- order, and the memory of every element and of no other, and leaves the header as ListZero does.
pub empty_refines :
    (h : Store) (l : ListHeader) (xs : Cells)
    → IsList h l xs
    → (g : Store) × (empty h l ≡ ok (contents_of xs, g, zero_list))
      × Freed g xs
      × AgreeOff g h xs
      × IsList g zero_list []
unfolding empty
empty_refines h l xs i =
    let (g, run, freed, same) =
      free_loop_lem (suc l.count) h none xs (omega (arith, i.count)) i.chain i.distinct in
    (
      g,
      rw (i.first, run) refl,
      freed,
      same,
      record { chain = tt; distinct = tt; first = refl; last = refl; count = refl; current = tt },
    )

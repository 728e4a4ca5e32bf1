-- ===== src/LinkedList/Links.antt =====
-- Writing the `next` of the last element of a chain, and the `prev` of its first one.
use paho_mqtt_c.Common.{ℕ, ◌≡◌, refl, sym, ◌∙◌, [], ◌∷◌, Option, none, some}
use paho_mqtt_c.Packet.Wire.{Result, ok}
use paho_mqtt_c.LinkedList.{
  ListElement, Store, load, write, set_next, set_prev, link_after, link_before,
}
use paho_mqtt_c.LinkedList.Chain.{Cells, element, head_or, last_or, Off, Distinct, Chain, frame}
use paho_mqtt_c.LinkedList.Chain.{write_ne, write_self, write-Agree}

pub load_lem : (h : Store) (a : ℕ) (e : ListElement) → h a ≡ some e → load h (some a) ≡ ok e
unfolding load
load_lem h a e at = rw at refl

pub set_prev_lem :
    (h : Store) (a c : ℕ) (prev prev' next : Option ℕ)
    → h a ≡ some (element c prev next)
    → set_prev h (some a) prev' ≡ ok (write h a (some (element c prev' next)))
unfolding set_prev
set_prev_lem h a c prev prev' next at = rw (load_lem h a _ at) refl

-- The two stores agree wherever none of the cells lies.
abbrev pub AgreeOff : Store → Store → Cells → Type 0
AgreeOff g h xs = (b : ℕ) → Off b xs → g b ≡ h b

-- The result is a store in which the cells are linked so, and which is the old one elsewhere.
pub record Relinked (h : Store) (before after : Option ℕ) (xs : Cells) (r : Result Store)
    : Type 0 where
  pub store : Store
  pub run : r ≡ ok store
  pub chain : Chain store before after xs
  pub same : AgreeOff store h xs

pub set_next-Relinked :
    (h : Store) (before after after' : Option ℕ) (a c : ℕ) (xs : Cells)
    → Chain h before after ((a, c) ∷ xs)
    → Distinct ((a, c) ∷ xs)
    → Relinked h before after' ((a, c) ∷ xs) (set_next h (last_or (some a) xs) after')
set_next-Relinked h before after after' a c [] s d = record {
  store = write h a (some (element c before after'));
  run = unfold set_next in rw (load_lem h a (element c before after) s.0) refl;
  chain = (write_self h a (some (element c before after')), tt);
  same = λ b off. write_ne h a (some (element c before after')) b (λ e. off.0 (sym e));
}
set_next-Relinked h before after after' a c ((b, e) ∷ xs) s d =
    let r = set_next-Relinked h (some a) after after' b e xs s.1 d.1 in
    record {
      store = r.store;
      run = r.run;
      chain = (r.same a d.0 ∙ s.0, r.chain);
      same = λ b' off. r.same b' off.1;
    }

-- The address of the last cell.
pub last_or-some : (a : ℕ) (xs : Cells) → (b : ℕ) × (last_or (some a) xs ≡ some b)
last_or-some a [] = (a, refl)
last_or-some a ((b, c) ∷ xs) = last_or-some b xs

-- The same with the value of `first`.
pub record LinkedAfter (h : Store) (first next : Option ℕ) (xs : Cells)
    (r : Result (Store × Option ℕ)) : Type 0 where
  pub store : Store
  pub first' : Option ℕ
  pub run : r ≡ ok (store, first')
  pub chain : Chain store none next xs
  pub same : AgreeOff store h xs
  pub is_first : first ≡ head_or first xs → first' ≡ head_or next xs

pub link_after-LinkedAfter :
    (h : Store) (after next first : Option ℕ) (xs : Cells)
    → Chain h none after xs
    → Distinct xs
    → LinkedAfter h first next xs (link_after h (last_or none xs) first next)
unfolding link_after
link_after-LinkedAfter h after next first [] s d = record {
  store = h;
  first' = next;
  run = refl;
  chain = tt;
  same = λ b off. refl;
  is_first = λ e. refl;
}
link_after-LinkedAfter h after next first ((a, c) ∷ xs) s d =
    let r = set_next-Relinked h none after next a c xs s d in
    let (b, last) = last_or-some a xs in
    record {
      store = r.store;
      first' = first;
      run = rw last (rw (rw last at r.run) refl);
      chain = r.chain;
      same = r.same;
      is_first = λ e. e;
    }

pub record LinkedBefore (h : Store) (last prev : Option ℕ) (xs : Cells)
    (r : Result (Store × Option ℕ)) : Type 0 where
  pub store : Store
  pub last' : Option ℕ
  pub run : r ≡ ok (store, last')
  pub chain : Chain store prev none xs
  pub same : AgreeOff store h xs
  pub is_last : last ≡ last_or last xs → last' ≡ last_or prev xs

pub link_before-LinkedBefore :
    (h : Store) (before prev last : Option ℕ) (xs : Cells)
    → Chain h before none xs
    → Distinct xs
    → LinkedBefore h last prev xs (link_before h (head_or none xs) last prev)
unfolding link_before
link_before-LinkedBefore h before prev last [] s d = record {
  store = h;
  last' = prev;
  run = refl;
  chain = tt;
  same = λ b off. refl;
  is_last = λ e. refl;
}
link_before-LinkedBefore h before prev last ((a, c) ∷ xs) s d =
    let new = some (element c prev (head_or none xs)) in
    record {
      store = write h a new;
      last' = last;
      run = rw (set_prev_lem h a c before prev (head_or none xs) s.0) refl;
      chain = (
        write_self h a new,
        frame (write h a new) h (some a) none xs (write-Agree h a new xs d.0) s.1,
      );
      same = λ b off. write_ne h a new b (λ e. off.0 (sym e));
      is_last = λ e. e;
    }

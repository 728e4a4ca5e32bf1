-- ===== src/LinkedList/Unlink.antt =====
-- ListUnlink: the list loses the element that the search gives, and no other.
use paho_mqtt_c.Common.{List, []}
use paho_mqtt_c.Common.{ℕ, ◌-◌, ◌≡◌, ◌⊎◌, inl, inr, refl, sym, ◌∙◌, arith, true, false}
use paho_mqtt_c.Common.{◌∷◌, ◌++◌, Option, none, some, length, length-append, if◌then◌else◌}
use paho_mqtt_c.Common.{Bool}
use paho_mqtt_c.Packet.Wire.{Result, ok}
use paho_mqtt_c.LinkedList.{
  Store, ListHeader, write, same_pointer, link_after, link_before, find_item, unlink_at,
  freed_content, unlink_found, unlink, found_current,
}
use paho_mqtt_c.LinkedList.Chain.{
  Cells, head_or, last_or, Off, Distinct, Chain, At, CurrentIn, IsList,
}
use paho_mqtt_c.LinkedList.Chain.{
  frame, write_ne, write_self, write-Agree, Chain-append, Chain-front, Chain-back,
}
use paho_mqtt_c.LinkedList.Chain.{
  Distinct-front, Off-front, Off-back, Off-append, Distinct-back, Distinct-middle, At-split,
}
use paho_mqtt_c.LinkedList.Links.{
  load_lem, AgreeOff, link_after-LinkedAfter, link_before-LinkedBefore,
}
use paho_mqtt_c.LinkedList.Parts.{
  Agree-back, Agree-front, head_or-append, last_or-append, head_or_same, last_or_same,
}
use paho_mqtt_c.LinkedList.Parts.{current_after}
use paho_mqtt_c.LinkedList.Find.{NoneOf, Finds, find_item-Search}

-- The element at `a` is gone, its memory is free, and everything off the list is as it was.
pub record Removed (frees : Bool) (h : Store) (a : ℕ) (c : ℕ) (xs ys : Cells)
    (r : Result (List ℕ × Store × ListHeader)) : Type 0 where
  pub store : Store
  pub header : ListHeader
  pub run : r ≡ ok (freed_content frees c, store, header)
  pub list : IsList store header (xs ++ ys)
  pub freed : store a ≡ none
  pub same : AgreeOff store h (xs ++ (a, c) ∷ ys)

-- The two parts linked to each other.
record Bridged (h : Store) (l : ListHeader) (a : ℕ) (c : ℕ) (xs ys : Cells) : Type 0 where
  store1 : Store
  store2 : Store
  first' : Option ℕ
  last' : Option ℕ
  run1 : link_after h (last_or none xs) l.first (head_or none ys) ≡ ok (store1, first')
  run2 : link_before store1 (head_or none ys) l.last (last_or none xs) ≡ ok (store2, last')
  at1 : store1 a ≡ h a
  at2 : store2 a ≡ h a
  chain : Chain store2 none none (xs ++ ys)
  same : (b : ℕ) → Off b xs → Off b ys → store2 b ≡ h b
  is_first : first' ≡ head_or none (xs ++ ys)
  is_last : last' ≡ last_or none (xs ++ ys)

bridge :
    (h : Store) (l : ListHeader) (a c : ℕ) (xs ys : Cells)
    → Chain h none none (xs ++ (a, c) ∷ ys)
    → Distinct (xs ++ (a, c) ∷ ys)
    → l.first ≡ head_or none (xs ++ (a, c) ∷ ys)
    → l.last ≡ last_or none (xs ++ (a, c) ∷ ys)
    → Bridged h l a c xs ys
bridge h l a c xs ys s d first last =
    let (off, both) = Distinct-middle xs a c ys d in
    let off' : Off a ys = (Distinct-back xs ((a, c) ∷ ys) d).0 in
    let back = Chain-back h none none xs ((a, c) ∷ ys) s in
    let front = Chain-front h none none xs ((a, c) ∷ ys) s in
    let r =
      link_after-LinkedAfter h (some a) (head_or none ys) l.first xs front
        (Distinct-front xs ((a, c) ∷ ys) d) in
    let back1 = frame r.store h (some a) none ys (Agree-back r.store h xs ys r.same both) back.1 in
    let q =
      link_before-LinkedBefore r.store (some a) (last_or none xs) l.last ys back1
        (Distinct-back xs ys both) in
    record {
      store1 = r.store;
      store2 = q.store;
      first' = r.first';
      last' = q.last';
      run1 = r.run;
      run2 = q.run;
      at1 = r.same a off;
      at2 = q.same a off' ∙ r.same a off;
      chain =
          Chain-append q.store none none xs ys
            (frame q.store r.store none (head_or none ys) xs
              (Agree-front q.store r.store xs ys q.same both) r.chain)
            q.chain;
      same = λ b o p. q.same b p ∙ r.same b o;
      is_first =
          r.is_first
            (head_or_same l.first (some a) xs (first ∙ head_or-append none xs ((a, c) ∷ ys)))
          ∙ sym (head_or-append none xs ys);
      is_last =
          q.is_last (last_or_same l.last (some a) ys (last ∙ last_or-append none xs ((a, c) ∷ ys)))
          ∙ sym (last_or-append none xs ys);
    }

unlink_at-Removed :
    (frees : Bool) (h : Store) (l : ListHeader) (saved : Option ℕ) (a c : ℕ) (xs ys : Cells)
    → Chain h none none (xs ++ (a, c) ∷ ys)
    → Distinct (xs ++ (a, c) ∷ ys)
    → l.first ≡ head_or none (xs ++ (a, c) ∷ ys)
    → l.last ≡ last_or none (xs ++ (a, c) ∷ ys)
    → l.count ≡ length (xs ++ (a, c) ∷ ys)
    → CurrentIn saved (xs ++ (a, c) ∷ ys)
    → Removed frees h a c xs ys (unlink_at frees h l saved a)
unfolding unlink_at
unlink_at-Removed frees h l saved a c xs ys s d first last count current =
    let b = bridge h l a c xs ys s d first last in
    let at = (Chain-back h none none xs ((a, c) ∷ ys) s).0 in
    let (off, both) = Distinct-middle xs a c ys d in
    let off' : Off a ys = (Distinct-back xs ((a, c) ∷ ys) d).0 in
    record {
      store = write b.store2 a none;
      header = record l {
        first = b.first';
        last = b.last';
        current = if same_pointer saved a then head_or none ys else saved;
        count = l.count - 1;
      };
      run =
          rw
            (
              load_lem h a _ at,
              b.run1,
              load_lem b.store1 a _ (b.at1 ∙ at),
              b.run2,
              load_lem b.store2 a _ (b.at2 ∙ at),
            )
            refl;
      list = record {
        chain =
            frame (write b.store2 a none) b.store2 none none (xs ++ ys)
              (write-Agree b.store2 a none (xs ++ ys) (Off-append a xs ys off off')) b.chain;
        distinct = both;
        first = b.is_first;
        last = b.is_last;
        count = omega (arith, count, length-append xs ys, length-append xs ((a, c) ∷ ys));
        current = current_after saved a c xs ys current;
      };
      freed = write_self b.store2 a none;
      same = λ e out.
          write_ne b.store2 a none e (λ q. (Off-back e xs ((a, c) ∷ ys) out).0 (sym q))
          ∙ b.same e (Off-front e xs ((a, c) ∷ ys) out) (Off-back e xs ((a, c) ∷ ys) out).1;
    }

module _ (test : ℕ → Bool) (frees : Bool) where
  -- What ListUnlink does: nothing, if no content is wanted, or the removal of the element found.
  pub record Unlinked (h : Store) (l : ListHeader) (cells : Cells) : Type 0 where
    pub front : Cells
    pub address : ℕ
    pub content : ℕ
    pub back : Cells
    pub split : cells ≡ front ++ (address, content) ∷ back
    pub wanted : test content ≡ true
    pub search : find_item test h l ≡ ok (some address, record l { current = some address })
    pub store : Store
    pub header : ListHeader
    pub run : unlink test frees h l ≡ ok (true, (if frees then content ∷ [] else []), store, header)
    pub list : IsList store header (front ++ back)
    pub freed : store address ≡ none
    pub same : AgreeOff store h cells

  unlink_split :
      (h : Store) (l : ListHeader) (cells : Cells) (a c : ℕ)
      → IsList h l cells
      → At a c cells
      → test c ≡ true
      → find_item test h l ≡ ok (some a, record l { current = some a })
      → Unlinked h l cells
  unfolding unlink unlink_found freed_content
  unlink_split h l cells a c i at hit found =
      let (xs, ys, e) = At-split a c cells at in
      let l' = record l { current = some a } in
      let r =
        unlink_at-Removed frees h l' l.current a c xs ys (rw (sym e) i.chain)
          (rw (sym e) i.distinct) (rw (sym e) i.first) (rw (sym e) i.last) (rw (sym e) i.count)
          (rw (sym e) i.current) in
      record {
        front = xs;
        address = a;
        content = c;
        back = ys;
        split = e;
        wanted = hit;
        search = found;
        store = r.store;
        header = r.header;
        run = rw (found, r.run) refl;
        list = r.list;
        freed = r.freed;
        same = rw e r.same;
      }

  abbrev Outcome : Store → ListHeader → Cells → Type 0
  Outcome h l cells =
      (NoneOf test cells × (unlink test frees h l ≡ ok (false, [], h, l))) ⊎ Unlinked h l cells

  unlink_found-Outcome :
      (h : Store) (l : ListHeader) (cells : Cells) (rc : Option ℕ)
      → IsList h l cells
      → Finds test cells rc
      → find_item test h l ≡ ok (rc, record l { current = found_current rc l.current })
      → Outcome h l cells
  unfolding unlink unlink_found found_current
  unlink_found-Outcome h l cells none i f run = inl (f, rw run refl)
  unlink_found-Outcome h l cells (some a) i (c, at, hit) run =
      inr (unlink_split h l cells a c i at hit run)

  -- ListUnlink, on a header and a store that stand for a list of cells, either finds no content that is wanted
  -- and changes nothing, or removes exactly the cell that ListFindItem gives: the list that is left stands for
  -- the other cells in their order, the memory of the element is free, its content is freed just if the caller
  -- wants that, and all memory off the list is as it was.
  pub unlink_refines :
      (h : Store) (l : ListHeader) (cells : Cells)
      → IsList h l cells
      → (NoneOf test cells × (unlink test frees h l ≡ ok (false, [], h, l))) ⊎ Unlinked h l cells
  unlink_refines h l cells i =
      let s = find_item-Search test h l cells i in
      unlink_found-Outcome h l cells s.rc i s.finds s.run

-- ===== src/LinkedList/Append.antt =====
-- ListAppendNoMalloc and ListInsert: a new element takes its place in the list.
use paho_mqtt_c.Common.{ℕ, ◌+◌, ◌≡◌, ◌≢◌, refl, sym, ap, ◌∙◌, arith, [], ◌∷◌, ◌++◌}
use paho_mqtt_c.Common.{none, some, length, ◌<◌, lt→ltb, length-append, append-nil}
use paho_mqtt_c.Packet.Wire.{Result, ok}
use paho_mqtt_c.LinkedList.{Store, ListHeader, write, set_next, append_links, append}
use paho_mqtt_c.LinkedList.{insert_before, insert, counted, add_size}
use paho_mqtt_c.LinkedList.Chain.{Cells, element, head_or, last_or, Off, IsList}
use paho_mqtt_c.LinkedList.Chain.{
  frame, write_ne, write_self, write-Agree, Chain-append, Chain-front, Chain-back,
}
use paho_mqtt_c.LinkedList.Chain.{
  Off-fresh, Off-front, Off-back, Distinct-back, Distinct-insert, Distinct-front, Distinct-middle,
}
use paho_mqtt_c.LinkedList.Links.{
  load_lem, set_prev_lem, AgreeOff, set_next-Relinked, link_after-LinkedAfter,
}
use paho_mqtt_c.LinkedList.Parts.{
  Agree-back, head_or-append, last_or-append, head_or_same, current_still,
}

-- The list has the new cell at its place between the two parts, and memory off the list is as it was.
pub record Inserted (h : Store) (size : ℕ) (a c : ℕ) (xs ys : Cells) (l : ListHeader)
    (r : Result (Store × ListHeader)) : Type 0 where
  pub store : Store
  pub header : ListHeader
  pub run : r ≡ ok (store, header)
  pub list : IsList store header (xs ++ (a, c) ∷ ys)
  pub total : header.size ≡ add_size l.size size
  pub same : AgreeOff store h (xs ++ (a, c) ∷ ys)

-- The new element behind the cells that are there.
append-Inserted :
    (h : Store) (l : ListHeader) (a c size : ℕ) (xs : Cells)
    → IsList h l xs
    → Off a xs
    → l.count < 2147483647
    → Inserted h size a c xs [] l (append h l c a size)
unfolding append append_links counted
append-Inserted h l a c size [] i off few =
    let h1 = write h a (some (element c none none)) in
    record {
      store = h1;
      header = record l {
        first = some a;
        last = some a;
        count = l.count + 1;
        size = add_size l.size size;
      };
      run = rw (i.first, i.last, lt→ltb l.count 2147483647 few) refl;
      list = record {
        chain = (write_self h a (some (element c none none)), tt);
        distinct = (tt, tt);
        first = refl;
        last = refl;
        count = omega (arith, i.count);
        current = current_still l.current a c [] [] i.current;
      };
      total = refl;
      same = λ b o. write_ne h a (some (element c none none)) b (λ e. o.0 (sym e));
    }
append-Inserted h l a c size ((b, d) ∷ xs) i off few =
    let e = element c l.last none in
    let h1 = write h a (some e) in
    let s1 =
      frame h1 h none none ((b, d) ∷ xs) (write-Agree h a (some e) ((b, d) ∷ xs) off) i.chain in
    let r = set_next-Relinked h1 none none (some a) b d xs s1 i.distinct in
    record {
      store = r.store;
      header = record l {
        first = some b;
        last = some a;
        count = l.count + 1;
        size = add_size l.size size;
      };
      run =
          rw
            (
              i.first,
              ap (λ p. set_next h1 p (some a)) i.last ∙ r.run,
              lt→ltb l.count 2147483647 few,
            )
            refl;
      list = record {
        chain =
            Chain-append r.store none none ((b, d) ∷ xs) ((a, c) ∷ []) r.chain
              (r.same a off ∙ write_self h a (some e) ∙ rw i.last refl, tt);
        distinct =
            Distinct-insert ((b, d) ∷ xs) a c [] (rw (append-nil xs) i.distinct)
              (rw (append-nil xs) off);
        first = refl;
        last = sym (last_or-append (some b) xs ((a, c) ∷ []));
        count = omega (arith, i.count, length-append xs ((a, c) ∷ []));
        current = current_still l.current a c ((b, d) ∷ xs) [] (rw (append-nil xs) i.current);
      };
      total = refl;
      same = λ b' o.
          r.same b' (Off-front b' ((b, d) ∷ xs) ((a, c) ∷ []) o)
          ∙ write_ne h a (some e) b' (λ q. (Off-back b' ((b, d) ∷ xs) ((a, c) ∷ []) o).0 (sym q));
    }

Off-both : (b a c i d : ℕ) (xs ys : Cells) → Off b (xs ++ (a, c) ∷ (i, d) ∷ ys) → (b ≢ a) × (b ≢ i)
Off-both b a c i d xs ys o =
    let off = Off-back b xs ((a, c) ∷ (i, d) ∷ ys) o in (λ q. off.0 (sym q), λ q. off.1.0 (sym q))

insert_before-Inserted :
    (h : Store) (l : ListHeader) (a c size i d : ℕ) (xs ys : Cells)
    → IsList h l (xs ++ (i, d) ∷ ys)
    → Off a (xs ++ (i, d) ∷ ys)
    → l.count < 2147483647
    → Inserted h size a c xs ((i, d) ∷ ys) l (insert_before h l c a size i)
unfolding insert_before counted
insert_before-Inserted h l a c size i d xs ys s off few =
    let back = Chain-back h none none xs ((i, d) ∷ ys) s.chain in
    let apart = (Off-back a xs ((i, d) ∷ ys) off).0 in
    let (off_i, both) = Distinct-middle xs i d ys s.distinct in
    let off_ys : Off i ys = (Distinct-back xs ((i, d) ∷ ys) s.distinct).0 in
    let e = element c (last_or none xs) (some i) in
    let k = element d (some a) (head_or none ys) in
    let h1 = write h a (some e) in
    let h2 = write h1 i (some k) in
    let off_xs = Off-front a xs ((i, d) ∷ ys) off in
    let front = Chain-front h none none xs ((i, d) ∷ ys) s.chain in
    let front1 = frame h1 h none (some i) xs (write-Agree h a (some e) xs off_xs) front in
    let front2 = frame h2 h1 none (some i) xs (write-Agree h1 i (some k) xs off_i) front1 in
    let r =
      link_after-LinkedAfter h2 (some i) (some a) l.first xs front2
        (Distinct-front xs ((i, d) ∷ ys) s.distinct) in
    let back1 =
      frame h1 h (some i) none ys (write-Agree h a (some e) ys (Off-back a xs ((i, d) ∷ ys) off).1)
        back.1 in
    let back2 = frame h2 h1 (some i) none ys (write-Agree h1 i (some k) ys off_ys) back1 in
    let back3 = frame r.store h2 (some i) none ys (Agree-back r.store h2 xs ys r.same both) back2 in
    let at_a =
      r.same a off_xs ∙ write_ne h1 i (some k) a (λ q. apart (sym q)) ∙ write_self h a (some e) in
    let at_i = r.same i off_i ∙ write_self h1 i (some k) in
    let prev_i =
      set_prev_lem h1 i d (last_or none xs) (some a) (head_or none ys)
        (write_ne h a (some e) i apart ∙ back.0) in
    record {
      store = r.store;
      header = record l { first = r.first'; count = l.count + 1; size = add_size l.size size };
      run = rw (load_lem h i _ back.0, prev_i, r.run, lt→ltb l.count 2147483647 few) refl;
      list = record {
        chain =
            Chain-append r.store none none xs ((a, c) ∷ (i, d) ∷ ys) r.chain (at_a, (at_i, back3));
        distinct = Distinct-insert xs a c ((i, d) ∷ ys) s.distinct off;
        first =
            r.is_first
              (head_or_same l.first (some i) xs (s.first ∙ head_or-append none xs ((i, d) ∷ ys)))
            ∙ sym (head_or-append none xs ((a, c) ∷ (i, d) ∷ ys));
        last =
            s.last
            ∙ last_or-append none xs ((i, d) ∷ ys)
            ∙ sym (last_or-append none xs ((a, c) ∷ (i, d) ∷ ys));
        count = omega (
          arith,
          s.count,
          length-append xs ((i, d) ∷ ys),
          length-append xs ((a, c) ∷ (i, d) ∷ ys),
        );
        current = current_still l.current a c xs ((i, d) ∷ ys) s.current;
      };
      total = refl;
      same = λ b o.
          let (oa, oi) = Off-both b a c i d xs ys o in
          r.same b (Off-front b xs ((a, c) ∷ (i, d) ∷ ys) o)
          ∙ write_ne h1 i (some k) b oi
          ∙ write_ne h a (some e) b oa;
    }

-- ListInsert with a freshly allocated element, on a list of fewer elements than the greatest int: the list that
-- stood for the cells of two parts stands for them with the new cell between, in front of the element given, or
-- behind all if none is given; the sizes are added modulo 2^64, and memory off the list is as it was.
pub insert_refines :
    (h : Store) (l : ListHeader) (a c size : ℕ) (xs ys : Cells)
    → IsList h l (xs ++ ys)
    → h a ≡ none
    → length (xs ++ ys) < 2147483647
    → Inserted h size a c xs ys l (insert h l c a size (head_or none ys))
unfolding insert
insert_refines h l a c size xs [] s fresh few =
    let s' : IsList h l xs = rw (append-nil xs) at s in
    append-Inserted h l a c size xs s' (Off-fresh h none none xs a s'.chain fresh)
      (omega (arith, s.count, few))
insert_refines h l a c size xs ((i, d) ∷ ys) s fresh few =
    insert_before-Inserted h l a c size i d xs ys s
      (Off-fresh h none none (xs ++ (i, d) ∷ ys) a s.chain fresh) (omega (arith, s.count, few))

-- ===== src/LinkedList.antt =====
-- src/LinkedList.c: a doubly linked list over a store of elements. A pointer is an address, or `none` for
-- NULL; the memory that `malloc` gives is an argument. A content is its address, which the callback compares;
-- the memory of contents is not part of the store, and the contents that an operation frees are a list.
use paho_mqtt_c.Common.{◌%◌}
use paho_mqtt_c.Common.{
  ℕ, zero, suc, ◌+◌, ◌-◌, Bool, true, false, ◌&&◌, List, [], ◌∷◌, Option, none, some,
}
use paho_mqtt_c.Common.{ltb, ◌==◌, if◌then◌else◌}
use paho_mqtt_c.Packet.Wire.{Result, ok, fault, stuck, ◌>>=◌}
pub mod Chain
pub mod Find
pub mod Links
pub mod Parts
pub mod Unlink
pub mod Append
pub mod Ends
pub mod Detach
pub mod Pop

-- `ListElement`
pub record ListElement : Type 0 where
  pub content : ℕ
  pub prev : Option ℕ
  pub next : Option ℕ

-- What lies at each address. Memory that is not allocated is `none`.
abbrev pub Store : Type 0
Store = ℕ → Option ListElement

-- `List`. `count` is an int and `size` a size_t of 64 bits.
pub record ListHeader : Type 0 where
  pub first : Option ℕ
  pub last : Option ℕ
  pub current : Option ℕ
  pub count : ℕ
  pub size : ℕ

-- ListZero
abbrev pub zero_list : ListHeader
zero_list = record { first = none; last = none; current = none; count = 0; size = 0 }

-- `++(aList->count)`; the increment of the greatest int is undefined.
unfoldable pub counted : ℕ → Result ℕ
counted count = if ltb count 2147483647 then ok (count + 1) else fault

-- `aList->size += size`
abbrev pub size_max : ℕ
size_max = 18446744073709551616

abbrev pub add_size : ℕ → ℕ → ℕ
add_size total size = (total + size) % size_max

-- A read through an address at which no element lies is a fault.
abbrev pub loaded : Option ListElement → Result ListElement
loaded none = fault
loaded (some e) = ok e

unfoldable pub load : Store → Option ℕ → Result ListElement
load h none = fault
load h (some a) = loaded (h a)

unfoldable pub write : Store → ℕ → Option ListElement → Store
write h a e b = if b == a then e else h b

unfoldable pub set_next : Store → Option ℕ → Option ℕ → Result Store
set_next h none next = fault
set_next h (some a) next = do e ← load h (some a); ok (write h a (some (record e { next = next })))

unfoldable pub set_prev : Store → Option ℕ → Option ℕ → Result Store
set_prev h none prev = fault
set_prev h (some a) prev = do e ← load h (some a); ok (write h a (some (record e { prev = prev })))

-- `if (p == NULL) first = next; else p->next = next;` with the value of `first` afterwards.
unfoldable pub link_after : Store → Option ℕ → Option ℕ → Option ℕ → Result (Store × Option ℕ)
link_after h none first next = ok (h, next)
link_after h (some a) first next = do h' ← set_next h (some a) next; ok (h', first)

-- `if (p == NULL) last = prev; else p->prev = prev;` with the value of `last` afterwards.
unfoldable pub link_before : Store → Option ℕ → Option ℕ → Option ℕ → Result (Store × Option ℕ)
link_before h none last prev = ok (h, prev)
link_before h (some a) last prev = do h' ← set_prev h (some a) prev; ok (h', last)

-- The element in front of the new one, by the test of `first`.
unfoldable pub append_links : Store → ListHeader → ℕ → Result (Store × Option ℕ)
append_links h l newel = elim l.first [
  | none ↦ ok (h, some newel)
  | some a ↦ do h' ← set_next h l.last (some newel); ok (h', some a)
]

-- ListAppendNoMalloc
unfoldable pub append : Store → ListHeader → ℕ → ℕ → ℕ → Result (Store × ListHeader)
append h l content newel size = do
  let h1 = write h newel (some (record { content = content; prev = l.last; next = none }))
  (h2, first) ← append_links h1 l newel
  count ← counted l.count
  ok (h2, record l { first = first; last = some newel; count = count; size = add_size l.size size })

-- ListInsert with an element `index` that is not NULL: `newel->prev` decides between `first` and a link.
unfoldable pub insert_before : Store → ListHeader → ℕ → ℕ → ℕ → ℕ → Result (Store × ListHeader)
insert_before h l content newel size index = do
  e ← load h (some index)
  let h1 = write h newel (some (record { content = content; prev = e.prev; next = some index }))
  h2 ← set_prev h1 (some index) (some newel)
  (h3, first) ← link_after h2 e.prev l.first (some newel)
  count ← counted l.count
  ok (h3, record l { first = first; count = count; size = add_size l.size size })

unfoldable pub insert : Store → ListHeader → ℕ → ℕ → ℕ → Option ℕ → Result (Store × ListHeader)
insert h l content newel size none = append h l content newel size
insert h l content newel size (some index) = insert_before h l content newel size index

-- The equality of two pointers.
unfoldable pub same_pointer : Option ℕ → ℕ → Bool
same_pointer none a = false
same_pointer (some b) a = b == a

-- The contents that ListUnlink frees, by its argument `freeContent`.
unfoldable pub freed_content : Bool → ℕ → List ℕ
freed_content frees content = if frees then content ∷ [] else []

-- ListUnlink of the element at `a`, which `find_item` gave; `saved` is `current` before the search, `frees` is
-- `freeContent`. The contents freed come first.
unfoldable pub unlink_at :
    Bool → Store → ListHeader → Option ℕ → ℕ → Result (List ℕ × Store × ListHeader)
unlink_at frees h l saved a = do
  e ← load h (some a)
  (h1, first) ← link_after h e.prev l.first e.next
  e1 ← load h1 (some a)
  (h2, last) ← link_before h1 e1.next l.last e1.prev
  e2 ← load h2 (some a)
  ok (
    freed_content frees e2.content,
    write h2 a none,
    record l {
      first = first;
      last = last;
      current = if same_pointer saved a then e2.next else saved;
      count = l.count - 1;
    },
  )

-- `current` after a search.
unfoldable pub found_current : Option ℕ → Option ℕ → Option ℕ
found_current none current = current
found_current (some a) current = some a

-- The callback with the content wanted; no callback compares addresses. Both are the function `test`.
module _ (test : ℕ → Bool) where
  -- The loop of ListFindItem over ListNextElement.
  unfoldable pub find_loop : ℕ → Store → Option ℕ → Result (Option ℕ)
  find_loop fuel h none = ok none
  find_loop zero h (some a) = stuck
  find_loop (suc fuel) h (some a) = do
    e ← load h (some a)
    let rest = find_loop fuel h e.next
    if test e.content then ok (some a) else rest

  -- Whether `current` is an element that is wanted.
  unfoldable pub current_matches : Store → Option ℕ → Result Bool
  current_matches h none = ok false
  current_matches h (some a) = do e ← load h (some a); ok (test e.content)

  -- ListFindItem: the element found and the list with its new `current`.
  unfoldable pub find_item : Store → ListHeader → Result (Option ℕ × ListHeader)
  find_item h l = do
    hit ← current_matches h l.current
    let search = find_loop (suc l.count) h l.first
    rc ← if hit then ok l.current else search
    ok (rc, record l { current = found_current rc l.current })

  -- ListUnlink: 0 if there is no such element.
  unfoldable pub unlink_found :
      Bool → Store → ListHeader → Option ℕ → Option ℕ → Result (Bool × List ℕ × Store × ListHeader)
  unlink_found frees h l saved none = ok (false, [], h, l)
  unlink_found frees h l saved (some a) = do
    (contents, h', l') ← unlink_at frees h l saved a
    ok (true, contents, h', l')

  unfoldable pub unlink : Bool → Store → ListHeader → Result (Bool × List ℕ × Store × ListHeader)
  unlink frees h l = do (rc, l') ← find_item h l; unlink_found frees h l' l.current rc

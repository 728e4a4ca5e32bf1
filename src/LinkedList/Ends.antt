-- ===== src/LinkedList/Ends.antt =====
-- src/LinkedList.c: the operations on the ends of a list, and those that free all of it.
use paho_mqtt_c.Common.{ℕ, zero, suc, ◌-◌, Option, none, some, ltb, if◌then◌else◌}
use paho_mqtt_c.Common.{List, [], ◌∷◌, ◌++◌, ◌==◌}
use paho_mqtt_c.Packet.Wire.{Result, ok, stuck, ◌>>=◌}
use paho_mqtt_c.LinkedList.{
  Store, ListHeader, zero_list, load, write, set_next, set_prev, same_pointer,
}

-- `if (p) p->prev = NULL;`
unfoldable pub clear_prev : Store → Option ℕ → Result Store
clear_prev h none = ok h
clear_prev h (some a) = set_prev h (some a) none

-- `if (p) p->next = NULL;`
unfoldable pub clear_next : Store → Option ℕ → Result Store
clear_next h none = ok h
clear_next h (some a) = set_next h (some a) none

-- The body of ListDetachHead for a list that is not empty.
unfoldable pub detach_first : Store → ListHeader → Option ℕ → Result (Option ℕ × Store × ListHeader)
detach_first h l none = do e ← load h none; ok (none, h, l)
detach_first h l (some a) = do
  e ← load h (some a)
  h1 ← clear_prev h e.next
  ok (
    some e.content,
    write h1 a none,
    record l {
      first = e.next;
      last = if same_pointer l.last a then none else l.last;
      current = if same_pointer l.current a then e.next else l.current;
      count = l.count - 1;
    },
  )

-- ListDetachHead: the content of the first element, NULL (`none`) for an empty list.
unfoldable pub detach_head : Store → ListHeader → Result (Option ℕ × Store × ListHeader)
detach_head h l = if ltb 0 l.count then detach_first h l l.first else ok (none, h, l)

-- The body of ListPopTail for a list that is not empty.
unfoldable pub pop_last : Store → ListHeader → Option ℕ → Result (Option ℕ × Store × ListHeader)
pop_last h l none = do e ← load h none; ok (none, h, l)
pop_last h l (some a) = do
  e ← load h (some a)
  h1 ← clear_next h e.prev
  ok (
    some e.content,
    write h1 a none,
    record l {
      first = if same_pointer l.first a then none else l.first;
      last = e.prev;
      current = if same_pointer l.current a then e.prev else l.current;
      count = l.count - 1;
    },
  )

-- ListPopTail
unfoldable pub pop_tail : Store → ListHeader → Result (Option ℕ × Store × ListHeader)
pop_tail h l = if ltb 0 l.count then pop_last h l l.last else ok (none, h, l)

-- `if (first->content != NULL) free(first->content)`: the calls of `free` for a content; 0 is NULL.
unfoldable pub free_content : ℕ → List ℕ
free_content content = if content == 0 then [] else content ∷ []

-- The loop of ListEmpty, with the contents that it frees, one after the other.
unfoldable pub free_loop : ℕ → Store → Option ℕ → Result (List ℕ × Store)
free_loop fuel h none = ok ([], h)
free_loop zero h (some a) = stuck
free_loop (suc fuel) h (some a) = do
  e ← load h (some a)
  (contents, h') ← free_loop fuel (write h a none) e.next
  ok (free_content e.content ++ contents, h')

-- ListEmpty, with the contents that it frees.
unfoldable pub empty : Store → ListHeader → Result (List ℕ × Store × ListHeader)
empty h l = do (contents, h') ← free_loop (suc l.count) h l.first; ok (contents, h', zero_list)

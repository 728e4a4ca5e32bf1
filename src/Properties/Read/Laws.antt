-- ===== src/Properties/Read/Laws.antt =====
-- Reading back what MQTTProperties_write wrote.
use paho_mqtt_c.Common.{
  ℕ, zero, suc, ◌+◌, ◌-◌, ◌%◌, ◌^◌, ◌≤◌, ◌<◌, ◌≡◌, ap, ◌∙◌, refl, sym, true, arith,
}
use paho_mqtt_c.Common.{List, [], ◌∷◌, ◌++◌, map, Option, none, some, All, Bool-cases, inl, inr}
use paho_mqtt_c.Common.{
  ◌==◌, ltb, leb, le→leb, append-nil, lt→ltb, length-append, append_assoc, drop-append_self,
}
use mathlib.Core.Path.{subst}
use paho_mqtt_c.Common as Common
use paho_mqtt_c.Packet.Wire.{ok, Buffer}
use paho_mqtt_c.Packet.Varint.{encode}
use paho_mqtt_c.Packet.Varint.Encode.{length-encode}
use paho_mqtt_c.Packet.Varint.Decode.{decode_buf-encode}
use paho_mqtt_c.Properties.Types.{get_type, MqttProperty}
use paho_mqtt_c.Properties.Types.{MqttProperties, entries_of, initializer}
use paho_mqtt_c.Properties.Write.{write_property, write_entries}
use paho_mqtt_c.Properties.Write.{write_properties}
use paho_mqtt_c.Properties.Write.Laws.{IsFit, IsValid, entries_len, len_of_type}
use paho_mqtt_c.Properties.Write.Laws.{write_entries_len}
use paho_mqtt_c.Properties.Read.{read_property, next_max_count}
use paho_mqtt_c.Properties.Read.{next_array, allocated, sub_u32, read_entries, read_properties}
use paho_mqtt_c.Properties.Read.Values.{
  relevant, vbi_len_pos, advance_written, read_property-write_property,
}

-- The array is NULL and has no room, or has room for its entries.
abbrev HasRoom : ℕ → Option (List MqttProperty) → Type 0
HasRoom max_count none = max_count ≡ 0
HasRoom max_count (some entries) = Common.length entries ≤ max_count

next_array-HasRoom :
    (max_count : ℕ) (array : Option (List MqttProperty))
    → HasRoom max_count array
    → next_array max_count array ≡ some (entries_of array)
unfolding next_array
next_array-HasRoom max_count none h = rw h
next_array-HasRoom max_count (some entries) h = ground arith

next_max_count-HasRoom :
    (max_count : ℕ) (entries : List MqttProperty) (prop : MqttProperty)
    → Common.length entries ≤ max_count
    → HasRoom (next_max_count max_count entries) (some (entries ++ prop ∷ []))
unfolding next_max_count
next_max_count-HasRoom max_count entries prop h = ground (arith, length-append entries (prop ∷ []))

HasRoom-le :
    (max_count : ℕ) (array : Option (List MqttProperty))
    → HasRoom max_count array
    → Common.length (entries_of array) ≤ max_count
HasRoom-le max_count none h = omega arith
HasRoom-le max_count (some entries) h = h

sub_u32_left : (a b left : ℕ) → a ≡ b + left → a < 268435456 → sub_u32 a b ≡ left
unfolding sub_u32
sub_u32_left a b left e h = omega arith

-- One round of the loop, on a property that is no longer than what is left.
read_entries_step :
    (fuel r left max_count : ℕ) (array : Option (List MqttProperty)) (prop : MqttProperty) (len : ℕ)
    (buf rest : Buffer)
    → HasRoom max_count array
    → r ≡ len + left
    → 0 < len
    → r < 268435456
    → read_property buf ≡ ok (len, prop, rest)
    → read_entries (suc fuel) r max_count array buf
      ≡ read_entries fuel left
          (next_max_count max_count (entries_of array))
          (some (entries_of array ++ prop ∷ []))
          rest
read_entries_step fuel zero left max_count array prop len buf rest room e pos lt read =
    absurd (omega arith)
read_entries_step fuel (suc r) left max_count array prop len buf rest room e pos lt read =
    unfold read_entries allocated in
    rw (next_array-HasRoom max_count array room) (
      rw read (
        ap
          (λ (n : ℕ).
            read_entries fuel n (next_max_count max_count (entries_of array))
              (some (entries_of array ++ prop ∷ [])) rest)
          (sub_u32_left (suc r) len left e lt)))

len_of_type_pos :
    (prop : MqttProperty) → IsFit prop → 0 < len_of_type (get_type prop.identifier) prop
len_of_type_pos prop f = rw f.known (omega arith)

read_entries-write_entries :
    (props : List MqttProperty) (fuel max_count wlen : ℕ) (array : Option (List MqttProperty))
    (rest : Buffer)
    → All IsFit props
    → entries_len props ≤ fuel
    → entries_len props < 268435456
    → HasRoom max_count array
    → (m : ℕ) × (out : Option (List MqttProperty)) × (read_entries fuel
          (entries_len props)
          max_count
          array
          ((write_entries wlen props).1 ++ rest)
        ≡ ok (m, out, rest))
      × HasRoom m out
      × (entries_of out ≡ entries_of array ++ map relevant props)
read_entries-write_entries [] fuel max_count wlen array rest h f l r = (
  max_count,
  array,
  unfold read_entries write_entries in refl,
  r,
  sym (append-nil (entries_of array)),
)
read_entries-write_entries (prop ∷ props) zero max_count wlen array rest (p, ps) f l r =
    absurd (omega (arith, len_of_type_pos prop p))
read_entries-write_entries (prop ∷ props) (suc fuel) max_count wlen array rest (p, ps) f l r =
    let len = len_of_type (get_type prop.identifier) prop in
    let wlen' = wlen + (write_property prop).0 in
    let more = (write_entries wlen' props).1 ++ rest in
    let entries = entries_of array in
    let (m, out, run, room, same) =
      read_entries-write_entries props fuel (next_max_count max_count entries) wlen'
        (some (entries ++ relevant prop ∷ [])) rest ps (omega (arith, len_of_type_pos prop p))
        (omega arith)
        (next_max_count-HasRoom max_count entries (relevant prop) (HasRoom-le max_count array r)) in
    let read : read_property ((write_entries wlen (prop ∷ props)).1 ++ rest)
        ≡ ok (len, relevant prop, more) =
      unfold write_entries in
      rw (append_assoc (write_property prop).1 (write_entries wlen' props).1 rest)
        (read_property-write_property prop more p) in
    (
      m,
      out,
      read_entries_step fuel (len + entries_len props) (entries_len props) max_count array
            (relevant prop) len ((write_entries wlen (prop ∷ props)).1 ++ rest) more r refl
            (len_of_type_pos prop p) l read
          ∙ run,
      room,
      same ∙ append_assoc entries (relevant prop ∷ []) (map relevant props),
    )

-- The length field takes a byte at least.
starts : (n : ℕ) → n < 268435456 → (rest : Buffer) → ltb 0 (Common.length (encode n ++ rest)) ≡ true
starts n h rest =
    lt→ltb 0 (Common.length (encode n ++ rest))
      (omega (arith, length-append (encode n) rest, (length-encode n h).0, vbi_len_pos n))

-- Reading what MQTTProperties_write wrote of a valid list succeeds, takes exactly the bytes written,
-- and gives a list of the same length with the same properties in the same order, each with the fields
-- that its type uses.
pub read_properties-write_properties :
    (props : MqttProperties) (rest : Buffer)
    → IsValid props
    → (out : MqttProperties) × (read_properties initializer
          ((write_properties (some props)).1 ++ rest)
        ≡ ok (out, rest))
      × (entries_of out.array ≡ map relevant (entries_of props.array))
      × (out.length ≡ props.length)
      × (Common.length (entries_of out.array) ≤ out.max_count)
read_properties-write_properties props rest v =
    let bytes = (write_entries 1 (entries_of props.array)).1 in
    let sizes = write_entries_len 1 (entries_of props.array) v.fit in
    let (m, out, run, room, same) =
      read_entries-write_entries (entries_of props.array) (suc (Common.length (bytes ++ rest))) 0 1
        none rest v.fit (omega (arith, sizes, length-append bytes rest))
        (omega (arith, v.counted, v.short)) refl in
    (
      record { max_count = m; length = props.length; array = out },
      unfold write_properties in
          rw (append_assoc (encode props.length) bytes rest) (
            unfold read_properties in
            rw (starts props.length v.short (bytes ++ rest)) (
              rw (decode_buf-encode props.length (bytes ++ rest) v.short) (
                rw
                  (advance_written (encode props.length) (Common.length (encode props.length))
                    (bytes ++ rest) refl)
                  (rw (
                    subst
                      (λ n.
                        read_entries (suc (Common.length (bytes ++ rest))) n 0 none (bytes ++ rest)
                        ≡ ok (m, out, rest))
                      (sym v.counted) run))))),
      same,
      refl,
      HasRoom-le m out room,
    )

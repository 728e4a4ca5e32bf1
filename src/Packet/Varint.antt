-- ===== src/Packet/Varint.antt =====
-- src/MQTTPacket.c: the variable byte integer of lengths and of some properties.
-- MQTTPacket_encode, MQTTPacket_decode, MQTTPacket_VBIlen, MQTTPacket_VBIdecode.
use paho_mqtt_c.Common.{ℕ, zero, suc, ◌+◌, ◌*◌, ◌/◌, ◌%◌, Bool, List, [], ◌∷◌}
use paho_mqtt_c.Common.{ltb, leb, ◌||◌, ◌==◌, if◌then◌else◌, bit_and, bit_or}
use paho_mqtt_c.Packet.Wire.{Result, ok, err, fault, Buffer}
pub mod Encode
pub mod Decode
pub mod Stream

-- The do-while loop of `MQTTPacket_encode`. A round more than `length` is enough fuel.
unfoldable pub encode_loop : ℕ → ℕ → List ℕ
encode_loop zero length = []
encode_loop (suc fuel) length =
    let d = length % 128 in
    let left = length / 128 in
    let more = bit_or d 128 ∷ encode_loop fuel left in if ltb 0 left then more else d ∷ []

-- The bytes put into the buffer; their number is the value returned.
unfoldable pub encode : ℕ → List ℕ
encode length = encode_loop (suc length) length

-- The argument is an `int`, given as its bit pattern: from 2 ^ 31 on it is negative, and below 128.
unfoldable pub vbi_len : ℕ → ℕ
vbi_len rem_len =
    if leb 2147483648 rem_len || ltb rem_len 128
    then 1
    else if ltb rem_len 16384
    then 2
    else if ltb rem_len 2097152
    then 3
    else 4

-- The loop of `MQTTPacket_VBIdecode` over `bufchar`, with the rounds that the test on `len` leaves.
-- On a fifth round `len` is 5 and no byte is read. The result is `len` and `*value`.
unfoldable pub vbi_loop : ℕ → ℕ → ℕ → ℕ → Buffer → Result (ℕ × ℕ)
vbi_loop zero len multiplier value buf = ok (suc len, value)
vbi_loop (suc rounds) len multiplier value [] = fault
vbi_loop (suc rounds) len multiplier value (c ∷ buf) =
    let value' = value + bit_and c 127 * multiplier in
    let more = vbi_loop rounds (suc len) (multiplier * 128) value' buf in
    if bit_and c 128 == 0 then ok (suc len, value') else more

unfoldable pub decode_buf : Buffer → Result (ℕ × ℕ)
decode_buf buf = vbi_loop 4 0 1 0 buf

-- The completion codes of the socket layer.
pub data Rc : Type 0 where
  tcpsocket_complete tcpsocket_interrupted socket_error : Rc

-- What a round does with the answer of `WebSocket_getch`; `next` is the rounds behind it.
pub decode_got : {Net : Type 0} → (ℕ → ℕ → Net → Rc × ℕ × Net) → ℕ → ℕ → Rc × ℕ × Net → Rc × ℕ × Net
decode_got next multiplier value (tcpsocket_complete, c, net) =
    let value' = value + bit_and c 127 * multiplier in
    let more = next (multiplier * 128) value' net in
    if bit_and c 128 == 0 then (tcpsocket_complete, value', net) else more
decode_got next multiplier value (rc, c, net) = (rc, value, net)

-- `WebSocket_getch` is a parameter: it gives a completion code, a byte that counts if the code is
-- complete, and the connection after the call.
module _ {Net : Type 0} (getch : Net → Rc × ℕ × Net) where
  pub decode_loop : ℕ → ℕ → ℕ → Net → Rc × ℕ × Net
  decode_loop zero multiplier value net = (socket_error, value, net)
  decode_loop (suc rounds) multiplier value net =
      decode_got (decode_loop rounds) multiplier value (getch net)

  -- The completion code and `*value`, with the connection after the bytes that were read.
  pub decode : Net → Rc × ℕ × Net
  decode net = decode_loop 4 1 0 net

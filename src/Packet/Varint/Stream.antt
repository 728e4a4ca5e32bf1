-- ===== src/Packet/Varint/Stream.antt =====
-- MQTTPacket_decode over a connection: what it reads, and how much.
use paho_mqtt_c.Common.{ℕ, zero, suc, ◌+◌, ◌*◌, ◌/◌, ◌%◌, ◌^◌, ◌≤◌, ◌<◌, ◌≡◌, inl, inr, ◌∙◌, arith}
use paho_mqtt_c.Common.{List, [], ◌∷◌, ltb, Bool-cases, ltb→lt, ap}
use native.Mathlib.Nat.{mod-lt, pow-suc}
use paho_mqtt_c.Common.Bits.{IsByte, low_bits, top_bit}
use paho_mqtt_c.Packet.Varint.{encode, Rc, tcpsocket_complete, tcpsocket_interrupted, socket_error}
use paho_mqtt_c.Packet.Varint.{decode_got, decode_loop, decode}
use paho_mqtt_c.Packet.Varint.Encode.{groups, encode-eq-groups}
use paho_mqtt_c.Packet.Varint.Decode.{split_value}

-- The connection gives these bytes, one for each call, and is then `last`.
abbrev pub Delivers : {Net : Type 0} → (Net → Rc × ℕ × Net) → Net → List ℕ → Net → Type 0
Delivers getch net [] last = net ≡ last
Delivers {Net} getch net (b ∷ bs) last =
    (next : Net) × (getch net ≡ (tcpsocket_complete, b, next)) × Delivers getch next bs last

decode_got_more :
    {Net : Type 0} (rest : ℕ → ℕ → Net → Rc × ℕ × Net) (multiplier value g : ℕ) (next : Net)
    → g < 128
    → decode_got rest multiplier value (tcpsocket_complete, g + 128, next)
      ≡ rest (multiplier * 128) (value + g * multiplier) next
unfolding decode_got
decode_got_more rest multiplier value g next h =
    rw (low_bits (g + 128) (omega arith), top_bit (g + 128) (omega arith)) (ground arith)

group_fits :
    (c multiplier value : ℕ) → value < multiplier → value + c % 128 * multiplier < multiplier * 128
group_fits c multiplier value h = grind (arith, mod-lt)

decode_got-lt :
    {Net : Type 0} (rest : ℕ → ℕ → Net → Rc × ℕ × Net) (multiplier value bound : ℕ)
    (got : Rc × ℕ × Net)
    → ((v : ℕ) (n : Net) → v < multiplier * 128 → (rest (multiplier * 128) v n).1 < bound)
    → multiplier * 128 ≤ bound
    → value < multiplier
    → IsByte got.1
    → (decode_got rest multiplier value got).1 < bound
unfolding decode_got
decode_got-lt rest multiplier value bound (tcpsocket_complete, c, net) ih le h b =
    rw (low_bits c b) (
      ground (
        arith,
        group_fits c multiplier value h,
        ih (value + c % 128 * multiplier) net (group_fits c multiplier value h),
      ))
decode_got-lt rest multiplier value bound (tcpsocket_interrupted, c, net) ih le h b = omega arith
decode_got-lt rest multiplier value bound (socket_error, c, net) ih le h b = omega arith

shift_bound :
    (rounds multiplier v : ℕ)
    → v < multiplier * 128 * 128 ^ rounds
    → v < multiplier * 128 ^ suc rounds
shift_bound rounds multiplier v h = rw (pow-suc 128 rounds) (grind arith)

pow_pos : (k : ℕ) → 1 ≤ 128 ^ k
pow_pos zero = omega arith
pow_pos (suc k) = omega (arith, pow_pos k)

module _ {Net : Type 0} (getch : Net → Rc × ℕ × Net) where
  decode_loop_last :
      (rounds multiplier value c : ℕ) (net next : Net)
      → c < 128
      → getch net ≡ (tcpsocket_complete, c, next)
      → decode_loop getch (suc rounds) multiplier value net
        ≡ (tcpsocket_complete, value + c * multiplier, next)
  unfolding decode_loop decode_got
  decode_loop_last rounds multiplier value c net next h e =
      rw e (rw (low_bits c (omega arith), top_bit c (omega arith)) (ground arith))

  decode_loop_more :
      (rounds multiplier value g : ℕ) (net next : Net)
      → g < 128
      → getch net ≡ (tcpsocket_complete, g + 128, next)
      → decode_loop getch (suc rounds) multiplier value net
        ≡ decode_loop getch rounds (multiplier * 128) (value + g * multiplier) next
  decode_loop_more rounds multiplier value g net next h e =
      unfold decode_loop in
      rw e (decode_got_more (decode_loop getch rounds) multiplier value g next h)

  decode_loop-groups :
      (k multiplier value n : ℕ) (net last : Net)
      → n < 128 ^ suc k
      → Delivers getch net (groups k n) last
      → decode_loop getch (suc k) multiplier value net
        ≡ (tcpsocket_complete, value + n * multiplier, last)
  unfolding groups
  decode_loop-groups zero multiplier value n net last h (next, e, d) =
      rw (← d) (decode_loop_last 0 multiplier value n net next (omega arith) e)
  decode_loop-groups (suc k) multiplier value n net last h d = elim (Bool-cases (ltb n 128)) [
    | inl small ↦
        let (next, e, end) = rw small at d in
        rw (← end) (decode_loop_last (suc k) multiplier value n net next (ltb→lt n 128 small) e)
    | inr large ↦
        let (next, e, left) = rw large at d in
        decode_loop_more (suc k) multiplier value (n % 128) net next (omega arith) e
        ∙ decode_loop-groups k (multiplier * 128) (value + n % 128 * multiplier) (n / 128) next last
            (omega arith) left
        ∙ ap (λ (v : ℕ). (tcpsocket_complete, v, last)) (split_value n multiplier value)
  ]

  -- MQTTPacket_decode reads the number that MQTTPacket_encode wrote from a connection that delivers
  -- the written bytes, and reads no byte behind them.
  pub decode-encode :
      (n : ℕ) (net last : Net)
      → n < 268435456
      → Delivers getch net (encode n) last
      → decode getch net ≡ (tcpsocket_complete, n, last)
  unfolding decode
  decode-encode n net last h d =
      decode_loop-groups 3 1 0 n net last (omega arith)
        (rw (encode-eq-groups 3 n (omega arith)) at d)
      ∙ ap (λ (v : ℕ). (tcpsocket_complete, v, last)) (omega arith)

  decode_loop-lt :
      (rounds multiplier value : ℕ) (net : Net)
      → ((n : Net) → IsByte (getch n).1)
      → value < multiplier
      → (decode_loop getch rounds multiplier value net).1 < multiplier * 128 ^ rounds
  unfolding decode_loop
  decode_loop-lt zero multiplier value net bytes h = omega arith
  decode_loop-lt (suc rounds) multiplier value net bytes h =
      decode_got-lt (decode_loop getch rounds) multiplier value (multiplier * 128 ^ suc rounds)
        (getch net)
        (λ v n hv.
          shift_bound rounds multiplier _ (decode_loop-lt rounds (multiplier * 128) v n bytes hv))
        (grind (arith, pow_pos rounds)) h (bytes net)

  -- Whatever bytes a connection gives, the value stays below 2 ^ 28.
  pub decode-lt : (net : Net) → ((n : Net) → IsByte (getch n).1) → (decode getch net).1 < 268435456
  unfolding decode
  decode-lt net bytes = decode_loop-lt 4 1 0 net bytes (omega arith)

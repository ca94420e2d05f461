-- ===== src/Messaging/Mqtt.antt =====
-- kernel/src/mqtt.rs: the packets of MQTT 3.1.1 as lists of bytes. A string is the list of its bytes.
pub mod Length
pub mod RoundTrip
use Prim.Native.Nat.{bit_and, bit_or}
use karte_os.Base.{
  ℕ, zero, suc, ◌+◌, ◌-◌, ◌*◌, ◌/◌, ◌%◌, ◌^◌, min, Bool, true, false, ◌&&◌, Option, none, some,
  List, [], ◌∷◌, ◌++◌, ◌==◌, leb, ltb, if◌then◌else◌, length, get_or, take, drop,
}
use karte_os.Base.Strings.{codes}
use karte_os.Base.Words.{add_usize, mul_usize}

-- The loop of `encode_remaining_len`; a number below 2 ^ 64 takes at most 10 rounds.
pub encode_loop : ℕ → ℕ → List ℕ
encode_loop zero n = []
encode_loop (suc k) n =
    let rest = encode_loop k (n / 128) in
    if ltb 0 (n / 128) then bit_or (n % 128) 0x80 ∷ rest else n % 128 ∷ []

pub encode_remaining_len : ℕ → List ℕ
encode_remaining_len n = encode_loop 10 n

-- The loop of `decode_remaining_len`.
pub decode_loop : List ℕ → ℕ → ℕ → ℕ → Option (ℕ × ℕ)
decode_loop [] i mult val = none
decode_loop (b ∷ bs) i mult val =
    let val1 = add_usize val (mul_usize (bit_and b 0x7f) mult) in
    let mult1 = mul_usize mult 128 in
    let rest = decode_loop bs (i + 1) mult1 val1 in
    if bit_and b 0x80 == 0
    then some (val1, i + 1)
    else if ltb (128 * 128 * 128) mult1
    then none
    else rest

pub decode_remaining_len : List ℕ → Option (ℕ × ℕ)
decode_remaining_len buf = decode_loop buf 0 1 0

-- `u16::to_be_bytes`
pub to_be_bytes : ℕ → List ℕ
to_be_bytes x = x / 256 ∷ x % 256 ∷ []

-- `u16::from_be_bytes`
pub from_be_bytes : ℕ → ℕ → ℕ
from_be_bytes hi lo = hi * 256 + lo

pub push_str : List ℕ → List ℕ → List ℕ
push_str out s = out ++ (to_be_bytes (length s % 2 ^ 16) ++ s)

-- The fixed header in front of a body.
pub packet : ℕ → List ℕ → List ℕ
packet first body = first ∷ (encode_remaining_len (length body) ++ body)

pub connect : List ℕ → List ℕ
connect client_id =
    packet 0x10 (push_str (push_str [] (codes "MQTT") ++ (4 ∷ 2 ∷ to_be_bytes 60)) client_id)

pub publish : List ℕ → List ℕ → ℕ → List ℕ
publish topic payload pid = packet 0x32 (push_str [] topic ++ (to_be_bytes pid ++ payload))

pub subscribe : List ℕ → ℕ → ℕ → List ℕ
subscribe topic_filter pid max_qos =
    packet 0x82 (push_str (to_be_bytes pid) topic_filter ++ min max_qos 1 ∷ [])

pub data Pkt : Type 0 where
  conn_ack : ℕ → Pkt
  publish_pkt : ℕ → Option ℕ → List ℕ → List ℕ → Pkt
  pub_ack : ℕ → Pkt
  sub_ack : ℕ → List ℕ → Pkt
  ping_resp other : Pkt

-- A byte of a string in UTF-8: how many bytes the character still has, and the bounds of the next.
unfoldable pub utf8_step : ℕ × ℕ × ℕ → ℕ → Option (ℕ × ℕ × ℕ)
utf8_step (need, lo, hi) b =
    if ltb 0 need
    then (if leb lo b && leb b hi then some (need - 1, 0x80, 0xbf) else none)
    else if ltb b 0x80
    then some (0, 0x80, 0xbf)
    else if leb 0xc2 b && leb b 0xdf
    then some (1, 0x80, 0xbf)
    else if b == 0xe0
    then some (2, 0xa0, 0xbf)
    else if b == 0xed
    then some (2, 0x80, 0x9f)
    else if leb 0xe1 b && leb b 0xef
    then some (2, 0x80, 0xbf)
    else if b == 0xf0
    then some (3, 0x90, 0xbf)
    else if leb 0xf1 b && leb b 0xf3
    then some (3, 0x80, 0xbf)
    else if b == 0xf4
    then some (3, 0x80, 0x8f)
    else none

unfoldable pub utf8_loop : ℕ × ℕ × ℕ → List ℕ → Bool
utf8_loop s [] = s.0 == 0
utf8_loop s (b ∷ bs) = elim (utf8_step s b) [ none ↦ false | some t ↦ utf8_loop t bs ]

-- `from_utf8(bytes).unwrap_or("")`
pub utf8_or_empty : List ℕ → List ℕ
utf8_or_empty bytes = if utf8_loop (0, 0x80, 0xbf) bytes then bytes else []

-- A PUBLISH packet.
pub parse_publish : ℕ → List ℕ → Pkt
parse_publish qos body =
    let tlen = from_be_bytes (get_or body 0 0) (get_or body 1 0) in
    let off = 2 + tlen in
    let topic = utf8_or_empty (take tlen (drop 2 body)) in
    let pid = from_be_bytes (get_or body off 0) (get_or body (off + 1) 0) in
    if ltb (length body) 2
    then other
    else if ltb (length body) off
    then other
    else if ltb 0 qos && leb (off + 2) (length body)
    then publish_pkt qos (some pid) topic (drop (off + 2) body)
    else publish_pkt qos none topic (drop off body)

pub parse : ℕ → List ℕ → Pkt
parse first body =
    let kind = first / 16 in
    let two = from_be_bytes (get_or body 0 0) (get_or body 1 0) in
    if kind == 2
    then conn_ack (get_or body 1 0xff)
    else if kind == 3
    then parse_publish (first / 2 % 4) body
    else if kind == 4
    then pub_ack two
    else if kind == 9
    then sub_ack two (drop 2 body)
    else if kind == 13
    then ping_resp
    else other

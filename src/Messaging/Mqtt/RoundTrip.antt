-- ===== src/Messaging/Mqtt/RoundTrip.antt =====
-- What `publish` of kernel/src/mqtt.rs writes, `parse` reads.
use karte_os.Base.{
  ℕ, suc, ◌+◌, ◌*◌, ◌/◌, ◌%◌, ◌^◌, ◌<◌, true, false, some, List, [], ◌∷◌, ◌++◌, leb, ltb, length,
  get_or, take, drop, length-append, take-append, drop-append, ◌≡◌, refl, ap, ◌∙◌, arith,
}
use karte_os.Messaging.Mqtt.{
  publish_pkt, encode_remaining_len, decode_remaining_len, to_be_bytes, from_be_bytes, push_str,
  packet, publish, utf8_loop, utf8_or_empty, parse_publish, parse,
}
use karte_os.Messaging.Mqtt.Length.{decode_remaining_len-encode_remaining_len}

-- The bytes behind the length field of a PUBLISH packet.
pub publish_body : List ℕ → List ℕ → ℕ → List ℕ
publish_body topic payload pid = push_str [] topic ++ (to_be_bytes pid ++ payload)

behind : (xs ys : List ℕ) (i : ℕ) → get_or (xs ++ ys) (length xs + i) 0 ≡ get_or ys i 0
behind [] ys i = ap (λ k. get_or ys k 0) (omega arith)
behind (x ∷ xs) ys i =
    let e : suc (length xs) + i ≡ suc (length xs + i) = omega arith in rw e (behind xs ys i)

drop_behind : (xs ys : List ℕ) (i : ℕ) → drop (length xs + i) (xs ++ ys) ≡ drop i ys
drop_behind [] ys i = ap (λ k. drop k ys) (omega arith)
drop_behind (x ∷ xs) ys i =
    let e : suc (length xs) + i ≡ suc (length xs + i) = omega arith in rw e (drop_behind xs ys i)

one_more : (n : ℕ) → 1 + n ≡ suc n
one_more n = omega arith

to_suc : (i n : ℕ) → suc (suc n) + i ≡ suc (suc (n + i))
to_suc i n = omega arith

plus_none : (n : ℕ) → suc (suc n) ≡ suc (suc (n + 0))
plus_none n = omega arith

parse_publish_body :
    (topic payload : List ℕ) (pid : ℕ)
    → utf8_loop (0, 0x80, 0xbf) topic ≡ true
    → length topic < 2 ^ 16
    → parse_publish 1 (publish_body topic payload pid) ≡ publish_pkt 1 (some pid) topic payload
unfolding parse_publish publish_body push_str to_be_bytes from_be_bytes utf8_or_empty
parse_publish_body topic payload pid u t =
    let n = length topic in
    let hi = n % 2 ^ 16 / 256 in
    let lo = n % 2 ^ 16 % 256 in
    let tail = pid / 256 ∷ pid % 256 ∷ payload in
    let body = hi ∷ lo ∷ (topic ++ tail) in
    let tlen : hi * 256 + lo ≡ n = omega (arith, t) in
    let off : 2 + (hi * 256 + lo) ≡ suc (suc n) = omega (arith, tlen) in
    let size : length body ≡ suc (suc (n + suc (suc (length payload)))) =
      omega (arith, length-append topic tail) in
    let long : ltb (length body) 2 ≡ false = ground (arith, size) in
    let fits : ltb (length body) (2 + (hi * 256 + lo)) ≡ false = ground (arith, size, off) in
    let has_pid : leb (2 + (hi * 256 + lo) + 2) (length body) ≡ true = ground (arith, size, off) in
    let high : get_or body (2 + (hi * 256 + lo)) 0 ≡ pid / 256 =
      ap (λ k. get_or body k 0) (off ∙ plus_none n) ∙ behind topic tail 0 in
    let low : get_or body (2 + (hi * 256 + lo) + 1) 0 ≡ pid % 256 =
      ap (λ k. get_or body k 0) (ap (λ k. k + 1) off ∙ to_suc 1 n) ∙ behind topic tail 1 in
    let rest : drop (2 + (hi * 256 + lo) + 2) body ≡ payload =
      ap (λ k. drop k body) (ap (λ k. k + 2) off ∙ to_suc 2 n) ∙ drop_behind topic tail 2 in
    let name : take (hi * 256 + lo) (topic ++ tail) ≡ topic =
      ap (λ k. take k (topic ++ tail)) tlen ∙ take-append topic tail n refl in
    let whole : pid / 256 * 256 + pid % 256 ≡ pid = omega arith in
    rw (long, fits, has_pid, high, low, rest, name, whole) (rw u refl)

-- Of a PUBLISH packet with a topic in UTF-8 below 2 ^ 16 bytes and a body below 128 ^ 4 bytes,
-- decode_remaining_len reads the length of the body and of its field, and parse of what follows
-- gives the packet id, the topic and the payload back.
pub publish-parse :
    (topic payload : List ℕ) (pid : ℕ)
    → utf8_loop (0, 0x80, 0xbf) topic ≡ true
    → length topic < 2 ^ 16
    → length topic + length payload + 4 < 128 ^ 4
    → let field = encode_remaining_len (length topic + length payload + 4) in
      (take 1 (publish topic payload pid) ≡ 0x32 ∷ [])
      × (decode_remaining_len (drop 1 (publish topic payload pid))
          ≡ some (length topic + length payload + 4, length field))
      × (parse 0x32 (drop (1 + length field) (publish topic payload pid))
          ≡ publish_pkt 1 (some pid) topic payload)
unfolding publish packet parse publish_body push_str to_be_bytes
publish-parse topic payload pid u t small =
    let body = publish_body topic payload pid in
    let size : length body ≡ length topic + length payload + 4 =
      omega (arith, length-append topic (pid / 256 ∷ pid % 256 ∷ payload)) in
    let field = encode_remaining_len (length topic + length payload + 4) in
    let skip : drop (1 + length field) (0x32 ∷ (field ++ body)) ≡ body =
      ap (λ k. drop k (0x32 ∷ (field ++ body))) (one_more (length field))
      ∙ drop-append field body (length field) refl in
    (
      refl,
      rw size (
          decode_remaining_len-encode_remaining_len (length topic + length payload + 4) body small),
      rw (size, skip) (parse_publish_body topic payload pid u t),
    )

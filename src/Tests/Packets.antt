-- ===== src/Tests/Packets.antt =====
-- MQTT packets at concrete inputs.
use karte_os.Base.{ℕ, List, [], ◌∷◌, ◌+◌, length, take, drop, some, true, ◌≡◌, refl, arith}
use karte_os.Messaging.Mqtt.{
  publish_pkt, publish, parse, encode_remaining_len, decode_remaining_len, utf8_loop, utf8_step,
}
use karte_os.Messaging.Mqtt.RoundTrip.{publish-parse}

-- "a/é"
abbrev topic : List ℕ
topic = 97 ∷ 47 ∷ 195 ∷ 169 ∷ []

abbrev payload : List ℕ
payload = 7 ∷ 255 ∷ []

topic_good : utf8_loop (0, 0x80, 0xbf) topic ≡ true
unfolding utf8_loop utf8_step
topic_good = refl

publish-parse_example :
    (take 1 (publish topic payload 258) ≡ 0x32 ∷ [])
    × (decode_remaining_len (drop 1 (publish topic payload 258))
        ≡ some (
          length topic + length payload + 4,
          length (encode_remaining_len (length topic + length payload + 4)),
        ))
    × (parse 0x32 (
          drop
            (1 + length (encode_remaining_len (length topic + length payload + 4)))
            (publish topic payload 258))
        ≡ publish_pkt 1 (some 258) topic payload)
publish-parse_example = publish-parse topic payload 258 topic_good (omega arith) (omega arith)

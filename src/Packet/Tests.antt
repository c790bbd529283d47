-- ===== src/Packet/Tests.antt =====
-- Runs of the codec of src/mqtt/mqtt_packet.cpp.
use lightapr.Prelude.{◌≡◌, refl, arith, [], ◌∷◌, false, ◌++◌}
use lightapr.Prelude.Text.{Text, codes}
use lightapr.Packet.{
  encode_publish, decode_connect, decode_publish, decode_subscribe, encode_remaining_length,
  decode_remaining_length, encode_length_loop,
}
use lightapr.Packet.Reading.{ok, failed, IsSound}
use lightapr.Packet.RoundTrip.{decode_publish-encode_publish}
use lightapr.Packet.Safety.{decoders-IsSound}
use lightapr.Packet.Length.{decode-encode_limit}

length_of_321 : encode_remaining_length 321 ≡ 0xc1 ∷ 0x02 ∷ []
unfolding encode_remaining_length encode_length_loop
length_of_321 = refl

decode_publish-encode_publish_example :
    decode_publish (encode_publish (codes "apr/node") (codes "{}") 1 7 ++ (0xc0 ∷ 0 ∷ []))
    ≡ ok (record {
      topic = codes "apr/node";
      payload = codes "{}";
      packet_id = 7;
      qos = 1;
      retain = false;
    })
decode_publish-encode_publish_example =
    decode_publish-encode_publish (codes "apr/node") (codes "{}") (0xc0 ∷ 0 ∷ []) 1 7 (omega arith)
      (omega arith) (omega arith) (omega arith)

-- A SUBSCRIBE whose topic runs out of the buffer.
abbrev short_subscribe : Text
short_subscribe = 0x82 ∷ 5 ∷ 0 ∷ 1 ∷ 0 ∷ 9 ∷ 97 ∷ []

decoders-IsSound_example :
    IsSound (decode_connect short_subscribe)
    × IsSound (decode_publish short_subscribe)
    × IsSound (decode_subscribe short_subscribe)
decoders-IsSound_example = decoders-IsSound short_subscribe

decode-encode_limit_example :
    decode_remaining_length (encode_remaining_length 2097152 ++ []) ≡ failed
decode-encode_limit_example = decode-encode_limit 2097152 []

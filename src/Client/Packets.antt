-- ===== src/Client/Packets.antt =====
-- The packets that sdk/cpp/src/apr_client.cpp writes by hand. The remaining length is one byte.
use lightapr.Prelude.{ℕ, ◌+◌, ◌/◌, ◌%◌, [], ◌∷◌, ◌++◌, length, if◌then◌else◌}
use lightapr.Prelude.Text.{Text, codes, empty}
use lightapr.Registry.Updates.{decimal}
use lightapr.Client.{ClientOptions}

-- `write_str`, and the same two bytes in send_subscribe.
unfoldable pub write_str : Text → Text
write_str s = (length s / 256 % 256) ∷ (length s % 256) ∷ s

-- `role + "_" + std::to_string(rand() % 10000)`; `r` is what rand() gives.
unfoldable pub make_username : ClientOptions → ℕ → Text
make_username opts r = opts.role ++ (b'_' ∷ decimal (r % 10000))

unfoldable pub make_client_id : ClientOptions → ℕ → Text
make_client_id opts r = opts.role ++ (codes "_sdk_" ++ decimal (r % 10000))

unfoldable pub connect_length : Text → Text → Text → ℕ
connect_length client_id username password =
    10 + (2 + length client_id) + (2 + length username) + (2 + length password)

-- What stands before the strings: the protocol's name and level, the flags and the keep-alive time.
unfoldable pub connect_prefix : Text
connect_prefix = 0x00 ∷ 0x04 ∷ b'M' ∷ b'Q' ∷ b'T' ∷ b'T' ∷ 0x04 ∷ 0xc2 ∷ 0x00 ∷ 0x3c ∷ []

unfoldable pub connect_packet : Text → Text → Text → Text
connect_packet client_id username password =
    0x10
    ∷ (connect_length client_id username password % 256)
    ∷ (connect_prefix ++ (write_str client_id ++ (write_str username ++ write_str password)))

-- The packet of send_connect, with the two random numbers in their order.
unfoldable pub make_connect : ClientOptions → ℕ → ℕ → Text
make_connect opts r₁ r₂ =
    let username = make_username opts r₁ in
    connect_packet (make_client_id opts r₂) username (opts.access_key ++ username)

unfoldable pub subscribe_body : Text → Text
subscribe_body topic = 0x00 ∷ 0x01 ∷ (write_str topic ++ (0x00 ∷ []))

unfoldable pub subscribe_packet : Text → Text
subscribe_packet topic = 0x82 ∷ (length (subscribe_body topic) % 256) ∷ subscribe_body topic

-- The topic of publish_app_event and subscribe_app_event.
unfoldable pub app_topic : Text → Text → Text
app_topic target_role worker =
    if empty worker
    then codes "app/" ++ target_role
    else codes "app/" ++ (target_role ++ (b'/' ∷ worker))

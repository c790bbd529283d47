-- ===== src/MqttServer/Tests.antt =====
-- Runs of the sessions of src/mqtt/mqtt_server.cpp.
use lightapr.Prelude.{
  ℕ, ◌≡◌, ◌^◌, refl, arith, true, false, Option, none, some, List, [], ◌∷◌, ◌++◌, length,
}
use lightapr.Prelude.Text.{Text, codes, text_eq}
use lightapr.Prelude.Dict.{lookup, insert, erase}
use lightapr.Prelude.Int.{pos}
use lightapr.Guard.{Limits, count_of, try_acquire, reached, admit, release, release_count}
use lightapr.Guard as Guard
use lightapr.Guard.Sessions as Live
use lightapr.Http.{starts_with}
use lightapr.Json.Samples.{Value, sample_json, sample_text}
use lightapr.Memory.{MemoryTracker}
use lightapr.Node.{NodeInfo, ok}
use lightapr.Node.Json.{read_if, read_endpoint}
use lightapr.Packet.{
  encode_publish, publish_body, write_string, encode_remaining_length, encode_length_loop,
}
use lightapr.WebSocket.{encode_frame, frame_length}
use lightapr.Registry.{Registry, mark_node_grace}
use lightapr.Registry as Registry
use lightapr.Registry.Updates.{Registration}
use lightapr.Registry.Validity.{IsValid, nodes_total}
use lightapr.MqttServer.{Settings, Session, Server, with_me, close_session, on_before_close}
use lightapr.MqttServer.Auth.{Gated, process_packet-Gated}
use lightapr.MqttServer.Delivery.{AllRelayed, Relayed, acknowledged, Fits, process_packet-relays}
use lightapr.MqttServer.Events.{
  Event, accepted, happens, bytes_read, read_failed, destroyed, new_session, run, step, do_accept,
  handle, focus, split_sessions, left_by, unfocus,
}
use lightapr.MqttServer.Gate.{LockedOrIn, on_bytes_read-LockedOrIn}
use lightapr.MqttServer.Histories.{start, run-Inv-IsValid}
use lightapr.MqttServer.Invariant.{open_ips}
use lightapr.MqttServer.Packets.{process_packet, read_meta, value_or}
use lightapr.MqttServer.Reads.{Returns}
use lightapr.MqttServer.Stream.{on_bytes_read}
use lightapr.MqttServer.Undead.{process_packet-undead}

abbrev no_stoul : Text → Option ℕ
no_stoul t = none

abbrev settings : Settings
settings = record {
  access_key = codes "key";
  max_buffer_bytes = 262144;
  max_extra_bytes = 8192;
  node_size = 200;
  max_string = 2 ^ 62;
}

abbrev memory : MemoryTracker
memory = record {
  registry_bytes = pos 0;
  mqtt_rx_bytes = pos 0;
  mqtt_tx_bytes = pos 0;
  http_rx_bytes = pos 0;
  http_tx_bytes = pos 0;
  other_bytes = pos 0;
  extra_bytes = pos 0;
}

-- A session that has just been accepted, one that is let in, and one that is subscribed.
abbrev stranger : Session
stranger = new_session (codes "10.0.0.1")

abbrev member_ : Session
member_ = record stranger { authenticated = true }

abbrev listener : Session
listener = record member_ { subscriptions = codes "app/web" ∷ [] }

abbrev server : Session → Server Value
server me = record {
  before = listener ∷ [];
  me = me;
  after = [];
  registry = Registry.new;
  guard = Guard.new;
  memory = memory;
}

abbrev limits : Limits
limits = record {
  max_total_connections = 2;
  max_connections_per_ip = 0;
  max_new_connections_per_ip = 0;
  rate_window = 10;
}

-- A registration by a session that is not let in.
abbrev meta : Text
meta = encode_publish (codes "apr/node/meta") sample_text 0 0

process_packet-Gated_example :
    Gated
      (codes "key")
      meta
      (server stranger)
      (process_packet sample_json no_stoul settings (server stranger) meta 7)
unfolding new_session
process_packet-Gated_example =
    process_packet-Gated sample_json no_stoul settings (server stranger) meta 7 refl refl

on_bytes_read-LockedOrIn_example :
    Returns
      (LockedOrIn sample_json no_stoul settings 7 (server stranger))
      (on_bytes_read sample_json no_stoul settings (server stranger) meta 7)
unfolding new_session
on_bytes_read-LockedOrIn_example =
    on_bytes_read-LockedOrIn sample_json no_stoul settings 7 (server stranger) meta (omega arith)
      refl refl

-- Two connections, one of which sends a packet and ends.
abbrev history : List (Event × ℕ)
history =
    (accepted (codes "10.0.0.1") (codes "10.0.0.1"), 5)
    ∷ (accepted (codes "10.0.0.2") (codes "10.0.0.2"), 6)
    ∷ (happens 0 (bytes_read meta), 7)
    ∷ (happens 0 read_failed, 8)
    ∷ []

run-Inv-IsValid_example :
    let w =
      run sample_json no_stoul settings limits
        (start sample_json no_stoul settings limits memory)
        history in
    Live.Inv limits (record { guard = w.guard; live = open_ips w.sessions })
    × IsValid sample_json.dump 8192 200 w.registry
run-Inv-IsValid_example =
    run-Inv-IsValid sample_json no_stoul settings limits memory history (omega arith)
      (refl, (refl, (tt, (tt, tt))))

-- The session's own read of the address has failed, so the count is not given back.
abbrev lost_address : List (Event × ℕ)
lost_address = (accepted (codes "10.0.0.1") [], 5) ∷ (happens 0 destroyed, 6) ∷ []

lost_count :
    count_of
      (codes "10.0.0.1")
      (run sample_json no_stoul settings limits
        (start sample_json no_stoul settings limits memory)
        lost_address).guard.per_ip_count
    ≡ 1
unfolding run step do_accept try_acquire reached admit release release_count count_of new_session
    handle focus split_sessions left_by unfocus close_session on_before_close Registry.new Guard.new
    insert lookup erase text_eq mark_node_grace with_me sample_json
lost_count = refl

-- A message that fits.
hello_length : length (encode_publish (codes "app/web") (codes "hello") 0 0) ≡ 16
unfolding encode_publish publish_body write_string encode_remaining_length encode_length_loop
hello_length = refl

hello_frame_length :
    length (encode_frame (encode_publish (codes "app/web") (codes "hello") 0 0) 2) ≡ 18
unfolding encode_publish publish_body write_string encode_remaining_length encode_length_loop
    encode_frame frame_length
hello_frame_length = refl

hello-Fits : Fits (2 ^ 62) (codes "app/web") (codes "hello")
hello-Fits = record {
  topic_fits = omega arith;
  body_fits = omega arith;
  packet_fits = omega (arith, hello_length);
  frame_fits = omega (arith, hello_frame_length);
}

process_packet-relays_example :
    let t =
      process_packet sample_json no_stoul settings
        (server member_)
        (encode_publish (codes "app/web") (codes "hello") 0 0 ++ [])
        7 in
    AllRelayed (2 ^ 62) (codes "app/web") (codes "hello") (listener ∷ []) t.before
    × Relayed (2 ^ 62) (codes "app/web") (codes "hello") (acknowledged (server member_) 0 0).me t.me
    × AllRelayed (2 ^ 62) (codes "app/web") (codes "hello") [] t.after
    × (t.registry ≡ Registry.new)
unfolding starts_with
process_packet-relays_example =
    process_packet-relays sample_json no_stoul settings (server member_) (codes "app/web")
      (codes "hello") [] 0 0 7 refl refl (omega arith) (omega arith) hello-Fits

-- A session that sent a DISCONNECT, and what its next packet registers.
abbrev gone : Session
gone = record member_ { closed = true; listed = false }

abbrev registration : Registration Value
registration = record {
  role = codes "web";
  workers = codes "mail" ∷ [];
  endpoint = none;
  peer_ip = codes "10.0.0.1";
  existing_id = [];
  extra = some [];
}

sample_meta : read_meta sample_json no_stoul settings gone sample_text ≡ some registration
unfolding read_meta value_or read_if read_endpoint sample_json lookup text_eq new_session
sample_meta = refl

new-IsValid : IsValid sample_json.dump 8192 200 (Registry.new {V = Value})
unfolding Registry.new nodes_total
new-IsValid = record { distinct = tt; each = tt; exact = refl }

process_packet-undead_example :
    let t = process_packet sample_json no_stoul settings (server gone) (meta ++ []) 7 in
    (n : NodeInfo Value) × (lookup t.me.node_id t.registry.nodes ≡ some n)
    × (n.status ≡ ok)
    × (n.role ≡ codes "web")
    × (n.workers ≡ codes "mail" ∷ [])
    × ((later : ℕ) → close_session sample_json no_stoul t later ≡ t)
process_packet-undead_example =
    process_packet-undead sample_json no_stoul settings (server gone) sample_text 7 registration
      refl refl (omega arith) new-IsValid sample_meta

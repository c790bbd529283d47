-- ===== src/MqttServer/Gate.antt =====
-- Whole reads of a session in src/mqtt/mqtt_server.cpp: they end, and let nobody in without the password.
use lightapr.Prelude.{ℕ, ◌<◌, ◌-◌, ◌^◌, ◌≡◌, ◌∙◌, ◌⊎◌, inl, inr, true, false, Option, [], arith}
use lightapr.Prelude.Text.{Text}
use lightapr.Json.{Json}
use lightapr.MqttServer.{Settings, Server, with_me, deliver, start_read_loop, end_session}
use lightapr.MqttServer.Auth.{
  Locked, Locked-refl, Locked-trans, process_packet-Gated, disconnect-Locked,
}
use lightapr.MqttServer.Kept.{process_packet-Kept, end-Kept}
use lightapr.MqttServer.Packets.{process_packet}
use lightapr.MqttServer.Reads.{Returns, IsStable, on_bytes_read-Returns}
use lightapr.MqttServer.Stream.{with_acc, pong, upgrade, on_bytes_read}

module _ {V : Type 0} (J : Json V) (stoul : Text → Option ℕ) (c : Settings) (now : ℕ) where
  -- Nothing has been touched, or the session has authenticated itself.
  abbrev pub LockedOrIn : Server V → Server V → Type 0
  LockedOrIn s t = Locked s t ⊎ (t.me.authenticated ≡ true)

  -- A step that changes neither what is locked nor the flag.
  stays : (s t u : Server V) → Locked t u → LockedOrIn s t → LockedOrIn s u
  stays s t u k (inl l) = inl (Locked-trans s t u l k)
  stays s t u k (inr a) = inr (k.authenticated ∙ a)

  packet-gate :
      (s t : Server V) (bytes : Text)
      → s.me.authenticated ≡ false
      → s.me.node_id ≡ []
      → LockedOrIn s t
      → LockedOrIn s (process_packet J stoul c t bytes now)
  packet-gate s t bytes h n (inr a) =
      inr ((process_packet-Kept J stoul c t bytes now).authenticated a)
  packet-gate s t bytes h n (inl l) =
      elim (process_packet-Gated J stoul c t bytes now (l.authenticated ∙ h) (l.node_id ∙ n)) [
        | inl k ↦ inl (Locked-trans s t _ l k)
        | inr k ↦ inr k.1
      ]

  end-gate :
      (s t : Server V)
      → s.me.node_id ≡ []
      → LockedOrIn s t
      → LockedOrIn s (end_session J stoul t now)
  end-gate s t n (inr a) = inr ((end-Kept J stoul t now).authenticated a)
  end-gate s t n (inl l) =
      inl (Locked-trans s t _ l (disconnect-Locked J stoul t now (l.node_id ∙ n)))

  gate-IsStable :
      (s : Server V)
      → s.me.authenticated ≡ false
      → s.me.node_id ≡ []
      → IsStable J stoul c now (LockedOrIn s)
  unfolding with_acc with_me start_read_loop pong deliver upgrade
  gate-IsStable s h n = record {
    acc = λ t a. stays s t (with_acc t a) (ground arith);
    reads = λ t. stays s t (start_read_loop t) (ground arith);
    counts = λ t m. stays s t (record t { memory = m }) (ground arith);
    packet = λ t bytes. packet-gate s t bytes h n;
    ends = λ t. end-gate s t n;
    pongs = λ t payload. stays s t (pong t payload) (ground arith);
    upgrades = λ t key k. stays s t (upgrade t key k) (ground arith);
    plain = λ t.
        stays s t (with_me t (record t.me { ws_handshake_done = true; is_websocket = false }))
          (ground arith);
  }

  -- A read on a session that is not authenticated and has no node ends, and returning or throwing,
  -- it either leaves the registry, the other sessions and the subscriptions as they were, the session
  -- still without a node and not authenticated, or the session has become authenticated. It is
  -- assumed of the string type that its max_size() is below 2 ^ 64 - 14.
  pub on_bytes_read-LockedOrIn :
      (s : Server V) (bytes : Text)
      → c.max_string < 2 ^ 64 - 14
      → s.me.authenticated ≡ false
      → s.me.node_id ≡ []
      → Returns (LockedOrIn s) (on_bytes_read J stoul c s bytes now)
  on_bytes_read-LockedOrIn s bytes small h n =
      on_bytes_read-Returns J stoul c now small (LockedOrIn s) (gate-IsStable s h n) s bytes
        (inl (Locked-refl s))

  -- A read ends, whatever the session and the bytes: the loop over the frames takes no more turns
  -- than the bytes that are buffered, since each frame takes two of them at least.
  pub on_bytes_read-ends :
      (s : Server V) (bytes : Text)
      → c.max_string < 2 ^ 64 - 14
      → Returns (λ t. Unit {0}) (on_bytes_read J stoul c s bytes now)
  on_bytes_read-ends s bytes small =
      on_bytes_read-Returns J stoul c now small (λ t. Unit {0})
        (record {
          acc = λ t a p. tt;
          reads = λ t p. tt;
          counts = λ t m p. tt;
          packet = λ t b p. tt;
          ends = λ t p. tt;
          pongs = λ t b p. tt;
          upgrades = λ t key k p. tt;
          plain = λ t p. tt;
        })
        s bytes tt

-- ===== src/MqttServer/Invariant.antt =====
-- Every state that the server of src/mqtt/mqtt_server.cpp comes to: its guard is one that the sessions'
-- protocol of Guard/Sessions reaches with the open sessions, and its registry is valid.
use lightapr.Prelude.{
  ℕ, ◌≡◌, refl, ap, true, false, Option, none, some, List, [], ◌∷◌, ◌++◌, arith, map, Bool-cases,
  if◌then◌else◌, inl, inr,
}
use lightapr.Prelude.Text.{Text}
use lightapr.Guard.{Limits, release}
use lightapr.Guard.Sessions as Live
use lightapr.Json.{Json}
use lightapr.Node.{NodeInfo}
use lightapr.Packet.{encode_publish}
use lightapr.Registry.{Registry, mark_node_grace}
use lightapr.Registry.Methods.{exec-IsValid}
use lightapr.Registry.Validity.{IsValid, Command, register, mark_grace, exec}
use lightapr.Registry.Validity as Validity
use lightapr.MqttServer.{
  Settings, Session, Server, with_me, framed, deliver, count_sent, send_raw, send_raw_and_close,
  receive, broadcast, on_session_closed, notify, announce, on_before_close, close_session,
  end_session,
}

-- The source IP of a session that is open.
unfoldable pub open_ip : Session → List Text
open_ip x = if x.closed then [] else x.peer_ip ∷ []

unfoldable pub open_ips : List Session → List Text
open_ips [] = []
open_ips (x ∷ xs) = open_ip x ++ open_ips xs

pub open_ip-deliver : (x : Session) (buf : Text) → open_ip (deliver x buf) ≡ open_ip x
unfolding open_ip deliver
open_ip-deliver x buf = ground arith

open_ip-receive : (topic packet : Text) (x : Session) → open_ip (receive topic packet x) ≡ open_ip x
unfolding receive
open_ip-receive topic packet x = ground (arith, open_ip-deliver x (framed x packet))

open_ips-receive :
    (topic packet : Text) (xs : List Session)
    → open_ips (map (receive topic packet) xs) ≡ open_ips xs
unfolding open_ips
open_ips-receive topic packet [] = refl
open_ips-receive topic packet (x ∷ xs) =
    rw (open_ip-receive topic packet x, open_ips-receive topic packet xs) refl

module _ {V : Type 0} where
  unfoldable pub live : Server V → List Text
  live s = open_ips s.before ++ (open_ip s.me ++ open_ips s.after)

  -- A step that neither closes a session nor touches the guard or the registry.
  pub record Calm (s t : Server V) : Type 0 where
    pub registry : t.registry ≡ s.registry
    pub guard : t.guard ≡ s.guard
    pub live_same : live t ≡ live s

  pub Calm-refl : (s : Server V) → Calm s s
  Calm-refl s = record { registry = refl; guard = refl; live_same = refl }

  -- A change of the session alone.
  pub with_me-Calm : (s : Server V) (x : Session) → open_ip x ≡ open_ip s.me → Calm s (with_me s x)
  unfolding with_me live
  with_me-Calm s x e = record { registry = refl; guard = refl; live_same = rw e refl }

  pub send_raw-Calm : (s : Server V) (packet : Text) → Calm s (send_raw s packet)
  unfolding send_raw count_sent with_me live
  send_raw-Calm s packet = record {
    registry = refl;
    guard = refl;
    live_same = rw (open_ip-deliver s.me (framed s.me packet)) refl;
  }

  pub send_raw_and_close-Calm :
      (s : Server V) (packet : Text) → Calm s (send_raw_and_close s packet)
  unfolding send_raw_and_close count_sent with_me live open_ip
  send_raw_and_close-Calm s packet = record {
    registry = refl;
    guard = refl;
    live_same =
        ap (λ (ips : List Text). open_ips s.before ++ (ips ++ open_ips s.after))
          (open_ip-deliver s.me (framed s.me packet));
  }

  pub broadcast-Calm : (s : Server V) (topic payload : Text) → Calm s (broadcast s topic payload)
  unfolding broadcast count_sent live
  broadcast-Calm s topic payload =
      let packet = encode_publish topic payload 0 0 in
      record {
        registry = refl;
        guard = refl;
        live_same =
            rw
              (
                open_ips-receive topic packet s.before,
                open_ip-receive topic packet s.me,
                open_ips-receive topic packet s.after,
              )
              refl;
      }

module _ {V : Type 0} (J : Json V) (stoul : Text → Option ℕ) (c : Settings) (l : Limits) where
  pub record IsSafe (s : Server V) : Type 0 where
    pub valid : IsValid J.dump c.max_extra_bytes c.node_size s.registry
    pub reached : Live.Reach l (record { guard = s.guard; live = live s })

  pub calm : (s t : Server V) → Calm s t → IsSafe s → IsSafe t
  calm s t k p = record {
    valid = simp (k.registry) (p.valid);
    reached = simp (k.guard, k.live_same) (p.reached);
  }

  -- A registry's method that keeps it valid, with the callback that follows it.
  pub announce-IsSafe :
      (s : Server V) (o : Option (Registry V × NodeInfo V))
      → IsValid J.dump c.max_extra_bytes c.node_size (Validity.left_by s.registry o)
      → IsSafe s
      → IsSafe (announce J stoul s o)
  unfolding announce notify Validity.left_by live
  announce-IsSafe s none v p = p
  announce-IsSafe s (some (r, n)) v p =
      calm (record s { registry = r }) _ (broadcast-Calm (record s { registry = r }) _ _)
        (record { valid = v; reached = p.reached })

  mark-IsValid :
      (r : Registry V) (now : ℕ) (id : Text)
      → IsValid J.dump c.max_extra_bytes c.node_size r
      → IsValid J.dump c.max_extra_bytes c.node_size (Validity.left_by r (mark_node_grace r now id))
  unfolding exec
  mark-IsValid r now id v =
      exec-IsValid J.dump c.max_extra_bytes c.node_size (mark_grace now id) r v

  -- What closing does to an open session and the guard.
  abbrev freed : Server V → Server V
  freed s = record (with_me s (record s.me { closed = true })) {
    guard = release s.guard s.me.peer_ip;
  }

  freed-IsSafe : (s : Server V) → s.me.closed ≡ false → IsSafe s → IsSafe (freed s)
  unfolding with_me live open_ip
  freed-IsSafe s e p =
      let now_open : open_ip s.me ≡ s.me.peer_ip ∷ [] = ground arith in
      record {
        valid = p.valid;
        reached =
            Live.next (simp (now_open) at p.reached)
              (Live.close s.guard (open_ips s.before) (open_ips s.after) s.me.peer_ip);
      }

  pub close-IsSafe : (s : Server V) (now : ℕ) → IsSafe s → IsSafe (close_session J stoul s now)
  unfolding close_session on_before_close with_me
  close-IsSafe s now p = elim (Bool-cases s.me.closed) [
    | inl e ↦ simp e p
    | inr e ↦ ground (
      arith,
      e,
      freed-IsSafe s e p,
      announce-IsSafe (freed s) (mark_node_grace s.registry now s.me.node_id)
          (mark-IsValid s.registry now s.me.node_id p.valid) (freed-IsSafe s e p),
    )
  ]

  pub end-IsSafe : (s : Server V) (now : ℕ) → IsSafe s → IsSafe (end_session J stoul s now)
  unfolding end_session on_session_closed open_ip
  end-IsSafe s now p =
      let t = close_session J stoul s now in
      calm t _ (with_me-Calm t (record t.me { listed = false }) refl) (close-IsSafe s now p)

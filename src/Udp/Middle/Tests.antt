-- ===== src/Udp/Middle/Tests.antt =====
-- realm_core/src/udp/middle.rs at a batch of four packets from two clients.
use realm.Base.{ℕ, [], ◌∷◌, none, ok, refl, arith}
use realm.Endpoint.{v4, RemoteAddr, socket_addr}
use realm.Udp.Registry.Tests.{a1, a2, b1, b2}
use realm.Udp.Middle.{Calls, Relay, associate_and_relay}
use realm.Udp.Middle.Delivery.{Forwards}
use realm.Udp.Middle.Batch.{associate_and_relay-Forwards}

abbrev calls : Calls ℕ
calls = record {
  recv = ok (a1 ∷ b1 ∷ b2 ∷ a2 ∷ []);
  resolve_addr = λ r. ok (v4 9 53 ∷ []);
  associate = λ n. ok n;
  send_all = λ t ps. none;
}

abbrev remote : RemoteAddr
remote = socket_addr (v4 9 53)

abbrev relay : Relay ℕ
relay = record {
  registry = record { pkts = a1 ∷ a1 ∷ a1 ∷ a1 ∷ []; groups = []; cursor = 0 };
  table = record { sockets = []; calls = 0 };
  sent = [];
}

associate_and_relay-Forwards_example :
    Forwards calls (v4 9 53) relay (a1 ∷ b1 ∷ b2 ∷ a2 ∷ []) (associate_and_relay calls remote relay)
associate_and_relay-Forwards_example =
    associate_and_relay-Forwards calls remote (v4 9 53) [] (a1 ∷ b1 ∷ b2 ∷ a2 ∷ []) relay refl refl
      (omega arith) (omega arith)

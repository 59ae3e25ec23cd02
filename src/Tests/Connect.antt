-- ===== src/Tests/Connect.antt =====
-- The handshake and the size gates at concrete packets, with an encoder of packets of 15 bytes.
use uring_mqtt.Common.{ℕ, true, none, some, List, [], ◌∷◌, replicate, refl, arith}
use uring_mqtt.Codec.Bound.{default_bound}
use uring_mqtt.Packet.Types.{PacketV3, PacketV5, v3, v5, ConnectV3, ConnectV5}
use uring_mqtt.Packet.Size.{Encoder}
use uring_mqtt.Handshake.{evaluate_connect}
use uring_mqtt.Handshake.CleanSession.{V3Cases, v3_connect_decided}
use uring_mqtt.Handshake.Limits.{V5Cases, v5_connect_decided}

abbrev fifteen : Encoder
fifteen = λ version packet. some (replicate 15 0)

abbrev device_v3 : ConnectV3
device_v3 = record { client_id = b'd' ∷ []; clean_session = true; keep_alive = 60 }

-- The keep-alive is over the configured timeout, and the limit holds the CONNACK.
abbrev device_v5 : ConnectV5
device_v5 = record {
  client_id = [];
  keep_alive = 300;
  auth_method = none;
  max_packet_size = some 15;
}

abbrev peer : List ℕ
peer = b'1' ∷ []

v3_connect_decided_example :
    V3Cases device_v3 300
      (evaluate_connect fifteen (v3 (PacketV3.connect device_v3)) 300 peer default_bound)
v3_connect_decided_example =
    v3_connect_decided fifteen (v3 (PacketV3.connect device_v3)) device_v3 300 peer default_bound
      refl (ground arith)

v5_connect_decided_example :
    V5Cases fifteen device_v5 60 peer default_bound
      (evaluate_connect fifteen (v5 (PacketV5.connect device_v5)) 60 peer default_bound)
v5_connect_decided_example =
    v5_connect_decided fifteen (v5 (PacketV5.connect device_v5)) device_v5 60 peer default_bound
      refl (ground arith)

-- ===== src/Server/Inbound/Tests.antt =====
-- A client that may subscribe below `home` and publishes with QoS 2.
use rusquitto.Base.{
  ◌+◌, ◌≡◌, ◌⊎◌, refl, true, false, none, some, [], ◌∷◌, nat_eq, list_eq, list_beq, arith, length,
}
use rusquitto.Base.Text.{Bytes, codes, split}
use rusquitto.Protocol.{exactly_once, valid_publish_topic}
use rusquitto.Config.{default_limits}
use rusquitto.Config.Tests.{toy}
use rusquitto.Auth.{authorize_publish, acl_allows_publish}
use rusquitto.Auth.Tests.{built}
use rusquitto.Broker.Messages.{Publish}
use rusquitto.Broker.Shard.Tests.{ann, shard}
use rusquitto.Broker.Routing.{deliver_local}
use rusquitto.Broker.Mesh.{broadcast}
use rusquitto.Server.Connection.{Connection}
use rusquitto.Server.Inbound.{
  Surroundings, Here, SubscribeFilter, on_new_subscribe, handle_publish, handle_pubrel,
  subscribe_filter, subscribe_all,
}
use rusquitto.Server.Inbound.Exactly.{times, sends, releases, stored, handle_pubrel-handle_publish}
use rusquitto.Server.Inbound.Guards.{
  IsUntouched, IsHeldWithin, handle_publish-IsUntouched, handle_publish-IsHeldWithin,
}
use rusquitto.Server.Inbound.Quota.{IsCounted, subscribe_all-IsCounted}
use rusquitto.Server.Inbound.Answers.{IsRefused, IsGranted, subscribe_filter_lem}

abbrev pub around : Surroundings
around = record {
  crypto = toy;
  hash = λ topic payload. length topic + length payload;
  write = λ p. some p.payload;
  encode = λ packet. some (0 ∷ []);
  peers = some (0, 2);
}

abbrev outward : Connection
outward = record {
  outbound = [];
  inflight = [];
  next_pkid = 0;
  max_inflight = 128;
  peer_receive_max = 10;
  peer_max_packet_size = none;
  pending_outbound = [];
  peer_topic_alias_max = 0;
  outbound_aliases = [];
}

abbrev pub client : Here around
client = record {
  conn = outward;
  shard = shard;
  forwarded = [];
  client_id = ann;
  username = some ann;
  auth = built;
  limits = default_limits;
  inbound_aliases = [];
  incoming_qos2 = [];
  subscription_count = 0;
  will = none;
}

abbrev message : Bytes → Publish
message topic = record {
  dup = true;
  qos = exactly_once;
  retain = false;
  topic = topic;
  pkid = 9;
  properties = none;
  payload = 1 ∷ [];
}

abbrev pub lit : Publish
lit = message (codes "home/lit")

handle_pubrel-handle_publish_example :
    ((times 2 (sends around lit) client).shard ≡ shard)
    × ((times 2 (sends around lit) client).forwarded ≡ [])
    × ((times 3 (releases around 9) (times 2 (sends around lit) client)).shard
        ≡ deliver_local around.hash (stored around lit) (some ann) shard)
    × ((times 3 (releases around 9) (times 2 (sends around lit) client)).forwarded
        ≡ broadcast around.peers (stored around lit))
unfolding valid_publish_topic split list_beq authorize_publish acl_allows_publish
handle_pubrel-handle_publish_example =
    handle_pubrel-handle_publish around lit client 1 2 (refl, refl, refl, refl) refl

handle_publish-IsUntouched_example :
    IsUntouched around client (handle_publish around (message (codes "$SYS/x")) client).0
unfolding valid_publish_topic split list_beq
handle_publish-IsUntouched_example =
    handle_publish-IsUntouched around (message (codes "$SYS/x")) client refl

handle_publish-IsHeldWithin_example :
    IsHeldWithin around (handle_publish around lit client).0
    × IsHeldWithin around (handle_pubrel around 9 client).0
handle_publish-IsHeldWithin_example = handle_publish-IsHeldWithin around lit 9 client (omega arith)

abbrev wish : SubscribeFilter
wish = record {
  path = codes "home/+";
  qos = exactly_once;
  nolocal = false;
  preserve_retain = false;
  retain_forward_rule = on_new_subscribe;
}

subscribe_filter_lem_example :
    IsRefused around wish client (subscribe_filter around none wish client)
    ⊎ IsGranted around wish none client (subscribe_filter around none wish client)
subscribe_filter_lem_example = subscribe_filter_lem around none wish client tt

subscribe_all-IsCounted_example :
    (length (subscribe_all around none (wish ∷ wish ∷ []) client).1 ≡ 2)
    × IsCounted around (subscribe_all around none (wish ∷ wish ∷ []) client).0
subscribe_all-IsCounted_example =
    subscribe_all-IsCounted around none (wish ∷ wish ∷ []) client (λ h. omega arith)

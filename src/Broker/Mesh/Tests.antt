-- ===== src/Broker/Mesh/Tests.antt =====
-- A parked client of one shard that connects to another, and a member that comes and goes.
use rusquitto.Base.{
  ◌≡◌, refl, true, false, Option, none, some, List, [], ◌∷◌, ◌++◌, nat_eq, list_eq, list_beq,
  option_eq, map, retain, Perm,
}
use rusquitto.Base.Text.{Bytes, codes, split}
use rusquitto.Base.Text
use rusquitto.Base.Assoc.{get}
use rusquitto.Topics.Trie.{
  Node, node, empty, entry, client_subscriptions, collect_client_rec, flatten_client,
}
use rusquitto.Protocol.{at_least_once, valid_levels}
use rusquitto.Topics.Trie.View.{entries}
use rusquitto.Topics.Trie.Clients.{not_of}
use rusquitto.Topics.Trie.History.{listed}
use rusquitto.Broker.Messages.{MigratedSession, join, leave, handoff}
use rusquitto.Broker.Shard.{Session, ShardState, open_session}
use rusquitto.Broker.Shard.Tests.{ann, connected, shard, left_behind}
use rusquitto.Broker.Mesh.{handle_claim, install_migrated}
use rusquitto.Broker.Mesh.Migration.{rearm_call, install_migrated-handle_claim, open_session-clean}
use rusquitto.Broker.Mesh.Members.{is_remote, last_said, apply_all, apply_all-last_said}

abbrev away : Session
away = record connected { mailbox = none; snapshot = some left_behind }

abbrev one_filter : Node
one_filter =
    node
      (entry (codes "a")
        (node empty (
          record {
            client_id = ann;
            qos = at_least_once;
            nolocal = false;
            retain_as_published = true;
            share_group = some (codes "g");
            sub_id = none;
          }
          ∷ []))
        empty)
      []

abbrev home : ShardState
home = record shard { sessions = (ann, away) ∷ []; trie = one_filter }

install_migrated-handle_claim_example :
    (m : MigratedSession) × ((handle_claim ann 1 true home).control
      ≡ (1, handoff ann (some m)) ∷ [])
    × (get ann (handle_claim ann 1 true home).sessions ≡ none)
    × (entries (handle_claim ann 1 true home).trie ≡ retain (not_of ann) (entries home.trie))
    × ((install_migrated ann m shard).1 ≡ (left_behind, away.offline_queue))
    × Perm
        (entries (install_migrated ann m shard).0.trie)
        (listed (map (rearm_call ann) (client_subscriptions ann home.trie)) (entries shard.trie))
unfolding list_beq client_subscriptions collect_client_rec flatten_client split valid_levels
    rusquitto.Base.Text.join
install_migrated-handle_claim_example =
    install_migrated-handle_claim ann 1 away home shard refl refl (record { wf = tt; bare = refl })
      (refl, tt)

open_session-clean_example :
    (client_subscriptions ann (open_session ann [] true shard).0.trie ≡ [])
    × ((open_session ann [] true shard).0.announced ≡ [])
unfolding list_beq
open_session-clean_example = open_session-clean ann [] connected shard refl

apply_all-last_said_example :
    is_remote (codes "g") ann (apply_all (join (codes "g") ann ∷ leave (codes "h") ann ∷ []) shard)
    ≡ last_said (codes "g") ann (join (codes "g") ann ∷ leave (codes "h") ann ∷ []) false
unfolding list_beq
apply_all-last_said_example =
    apply_all-last_said (codes "g") ann (join (codes "g") ann ∷ leave (codes "h") ann ∷ []) shard

-- ===== src/Broker/Routing/Tests.antt =====
-- A publish to one client through two overlapping filters, and a group on two shards.
use rusquitto.Base.{
  ℕ, ◌+◌, ◌≡◌, refl, true, false, none, some, List, [], ◌∷◌, nat_eq, list_eq, option_eq, list_beq,
  arith, All, length, if◌then◌else◌, Bool-cases, inl, inr, subst, ◌==◌,
}
use rusquitto.Base.Text.{Bytes, codes, split}
use rusquitto.Base.Assoc.{get}
use rusquitto.Protocol.{at_least_once}
use rusquitto.Broker.Messages.{Publish}
use rusquitto.Broker.Shard.{Session, ShardState}
use rusquitto.Broker.Shard.Tests.{ann, delivery, connected, shard}
use rusquitto.Topics.Trie.{
  SubOptions, Subscription, new_node, insert, insert_rec, child_get, at_entry, child_subscribers,
  matching, match_rec,
}
use rusquitto.Broker.Routing.{Match, route, deliver_local, global_pick}
use rusquitto.Broker.Routing.Best.{Best}
use rusquitto.Broker.Routing.Copy.{IsServed, route-IsServed}
use rusquitto.Broker.Routing.Queues.{IsBounded, IsWithin, deliver_local-IsBounded}
use rusquitto.Broker.Routing.Shared.{member, View, global_pick-agree}

abbrev options : ℕ → SubOptions
options id = record {
  qos = at_least_once;
  nolocal = false;
  retain_as_published = false;
  share_group = none;
  sub_id = some id;
}

abbrev subscription : ℕ → Subscription
subscription id = record {
  client_id = ann;
  qos = at_least_once;
  nolocal = false;
  retain_as_published = false;
  share_group = none;
  sub_id = some id;
}

abbrev subscribed : ShardState
subscribed = record shard {
  trie = (insert (codes "a/#") ann (options 2) (insert (codes "a/+") ann (options 1) new_node).0).0;
}

abbrev message : Publish
message = record (delivery 5).publish { topic = codes "a/b"; retain = false }

-- A stand-in for the keyed hash.
abbrev sum : Bytes → Bytes → ℕ
sum topic payload = length topic + length payload

route-IsServed_example :
    (m : Match) × Best (subscription 1 ∷ subscription 2 ∷ []) m
    × IsServed message none false ann m
        (get ann subscribed.sessions)
        (get ann (route sum message none false subscribed).sessions)
unfolding matching match_rec split list_beq insert insert_rec child_get at_entry child_subscribers
route-IsServed_example =
    route-IsServed sum message none false subscribed ann (subscription 1) (subscription 2 ∷ []) refl
      refl

within : (c : Bytes) (s : Session) → get c subscribed.sessions ≡ some s → IsWithin s
within c s e = elim (Bool-cases (ann == c)) [
  | inl b ↦
      let same : connected ≡ s = ground arith in subst IsWithin same (omega arith, omega arith)
  | inr b ↦ absurd (ground arith)
]

deliver_local-IsBounded_example : IsBounded (deliver_local sum message none subscribed)
unfolding list_beq
deliver_local-IsBounded_example =
    deliver_local-IsBounded sum message none subscribed (within, λ h. omega arith)

abbrev both : List Bytes
both = codes "ann" ∷ codes "bob" ∷ []

abbrev views : List View
views = (codes "ann" ∷ [], codes "bob" ∷ []) ∷ (codes "bob" ∷ [], codes "ann" ∷ []) ∷ []

global_pick-agree_example :
    (x : Bytes) × (member x both ≡ true)
    × All (λ v. global_pick sum message v.0 v.1 ≡ (if member x v.0 then some x else none)) views
unfolding list_beq
global_pick-agree_example =
    global_pick-agree sum message both ann views refl ((λ c. refl), (λ c. ground arith, tt))

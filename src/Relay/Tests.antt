-- ===== src/Relay/Tests.antt =====
-- The theorems on the relay, for two channels and one client.
use rapina.Prelude.{
  ℕ, true, ◌≡◌, refl, List, [], ◌∷◌, some, none, codes, arith, bytes_eq, strip_prefix,
}
use rapina.Relay.Channel.{
  ChannelDescriptor, RelayEvent, Handled, PresenceMap, matches, channel_le, sort_channels, default,
  with_max_subscriptions, track, count, untrack, list,
}
use rapina.Relay.Hub.{
  Hub, Connection, ClientMessage, subscribe, unsubscribe, message, find_channel, receive_all,
  receive, on_subscribe, disconnect,
}
use rapina.Relay.Tasks.{tasks, all_effects}
use rapina.Relay.Laws.{IsChosen, find_channel_lem, IsBounded, receive_all-IsBounded}

-- The handler of a join tracks the client and turns it away.
abbrev strict : RelayEvent ℕ → PresenceMap ℕ → Handled ℕ
strict (RelayEvent.join topic id) presence = record {
  presence = track topic id 1 presence;
  pushes = [];
  error = some (codes "full");
}
strict e presence = record { presence = presence; pushes = []; error = none }

abbrev rooms : ChannelDescriptor ℕ
rooms = record {
  pattern = codes "room:*";
  is_prefix = true;
  match_prefix = codes "room:";
  handler_name = codes "rooms";
  handle = λ e presence. record { presence = presence; pushes = []; error = none };
}

abbrev vip_rooms : ChannelDescriptor ℕ
vip_rooms = record {
  pattern = codes "room:vip:*";
  is_prefix = true;
  match_prefix = codes "room:vip:";
  handler_name = codes "vip_rooms";
  handle = strict;
}

abbrev channels : List (ChannelDescriptor ℕ)
channels = rooms ∷ vip_rooms ∷ []

abbrev hub : Hub ℕ
hub = record { config = with_max_subscriptions 2 default; channels = sort_channels channels }

find_channel_lem_example :
    IsChosen channels (codes "room:vip:1") (find_channel hub (codes "room:vip:1"))
find_channel_lem_example = find_channel_lem hub channels (codes "room:vip:1") refl

vip_wins : find_channel hub (codes "room:vip:1") ≡ some vip_rooms
unfolding find_channel sort_channels matches channel_le bytes_eq strip_prefix
vip_wins = refl

abbrev client : Connection ℕ
client = record { conn_id = 1; subscriptions = []; presence = [] }

client-IsBounded : IsBounded (λ n. []) hub client
client-IsBounded = record { once = tt; few = unfold with_max_subscriptions in (omega arith) }

abbrev messages : List (ClientMessage ℕ)
messages =
    subscribe (codes "room:1")
    ∷ subscribe (codes "room:2")
    ∷ subscribe (codes "room:3")
    ∷ message (codes "room:1") (codes "said") 5
    ∷ unsubscribe (codes "room:1")
    ∷ []

receive_all-IsBounded_example :
    IsBounded (λ n. []) hub (receive_all (λ n. []) hub messages client)
    × (tasks (all_effects (λ n. []) hub messages client) []
        ≡ (receive_all (λ n. []) hub messages client).subscriptions)
receive_all-IsBounded_example = receive_all-IsBounded (λ n. []) hub messages client client-IsBounded

-- A client that was turned away stays in the presence map of the topic when it disconnects.
abbrev turned_away : Connection ℕ
turned_away = receive_all (λ n. []) hub (subscribe (codes "room:vip:1") ∷ []) client

rejected_join_stays_present :
    count
      (codes "room:vip:1")
      (disconnect (λ n. []) hub turned_away.subscriptions 1 turned_away.presence).0
    ≡ 1
unfolding receive_all receive on_subscribe find_channel sort_channels matches channel_le bytes_eq
    strip_prefix track untrack count list disconnect default with_max_subscriptions
rejected_join_stays_present = refl

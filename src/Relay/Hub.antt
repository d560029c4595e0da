-- ===== src/Relay/Hub.antt =====
-- The event loop of a connection (`connection_loop` in rapina/src/relay/hub.rs). A message of the
-- client gives the connection's next state and the effects, in their order: replies, pushes,
-- and what becomes of the forwarding tasks. JSON's text is the library's, and `decimal` is the
-- decimal notation.
use rapina.Prelude.{
  ℕ, Bool, List, [], ◌∷◌, ◌++◌, Option, none, some, Bytes, bytes_eq, codes, if◌then◌else◌, any,
  length, leb, find, map,
}
use rapina.Relay.Channel.{
  RelayEvent, join, leave, PresenceMap, untrack, Push, Handled, ChannelDescriptor, matches,
  RelayConfig,
}

pub data ClientMessage (Json : Type 0) : Type 0 where
  subscribe : Bytes → ClientMessage Json
  unsubscribe : Bytes → ClientMessage Json
  message : Bytes → Bytes → Json → ClientMessage Json
  ping : ClientMessage Json

pub data ServerMessage (Json : Type 0) : Type 0 where
  subscribed : Bytes → ServerMessage Json
  unsubscribed : Bytes → ServerMessage Json
  push : Bytes → Bytes → Json → ServerMessage Json
  pong : ServerMessage Json
  error : Bytes → ServerMessage Json

pub data Effect (Json : Type 0) : Type 0 where
  replies : ServerMessage Json → Effect Json
  -- A push to all subscribers of its topic.
  pushes : Push Json → Effect Json
  -- A forwarding task for the topic is spawned, or aborted.
  opens : Bytes → Effect Json
  aborts : Bytes → Effect Json
  -- A channel's handler is spawned with an event.
  spawns : ChannelDescriptor Json → RelayEvent Json → Effect Json

pub record Hub (Json : Type 0) : Type 0 where
  pub config : RelayConfig
  pub channels : List (ChannelDescriptor Json)

-- The topics with a forwarding task, and the hub's presence map.
pub record Connection (Json : Type 0) : Type 0 where
  pub conn_id : ℕ
  pub subscriptions : List Bytes
  pub presence : PresenceMap Json

abbrev pub contains : Bytes → List Bytes → Bool
contains t topics = any (λ s. bytes_eq s t) topics

-- `HashMap::remove`.
abbrev pub remove : Bytes → List Bytes → List Bytes
remove t [] = []
remove t (s ∷ topics) = let rest = remove t topics in if bytes_eq s t then topics else s ∷ rest

module _ {Json : Type 0} where
  unfoldable pub find_channel : Hub Json → Bytes → Option (ChannelDescriptor Json)
  unfolding matches
  find_channel hub topic = find (matches topic) hub.channels

  abbrev pub pushed : List (Push Json) → List (Effect Json)
  pushed ps = map pushes ps

  module _ (decimal : ℕ → Bytes) (hub : Hub Json) where
    abbrev pub limit_error : Bytes
    limit_error =
        codes "subscription limit reached (max "
        ++ (decimal hub.config.max_subscriptions_per_connection ++ codes ")")

    -- What the handler of a join came to; an error undoes the subscription.
    abbrev pub joined :
        Bytes → Handled Json → Connection Json → Connection Json × List (Effect Json)
    joined topic handled c = elim handled.error [
      | none ↦ (
        record c { presence = handled.presence },
        opens topic ∷ (pushed handled.pushes ++ replies (subscribed topic) ∷ []),
      )
      | some e ↦ (
        record c { subscriptions = remove topic c.subscriptions; presence = handled.presence },
        opens topic
            ∷ (pushed handled.pushes
                ++ aborts topic ∷ replies (error (codes "join rejected: " ++ e)) ∷ []),
      )
    ]

    abbrev pub start_forwarding : Bytes → Connection Json → Connection Json × List (Effect Json)
    start_forwarding topic c = elim (find_channel hub topic) [
      | none ↦ (c, opens topic ∷ replies (subscribed topic) ∷ [])
      | some channel ↦ joined topic (channel.handle (join topic c.conn_id) c.presence) c
    ]

    unfoldable pub on_subscribe : Bytes → Connection Json → Connection Json × List (Effect Json)
    unfolding find_channel
    on_subscribe topic c =
        if contains topic c.subscriptions
        then (c, replies (subscribed topic) ∷ [])
        else if leb hub.config.max_subscriptions_per_connection (length c.subscriptions)
        then (c, replies (error limit_error) ∷ [])
        else start_forwarding topic (record c { subscriptions = topic ∷ c.subscriptions })

    abbrev pub aborted : Bytes → List Bytes → List (Effect Json)
    aborted topic topics = if contains topic topics then aborts topic ∷ [] else []

    -- The `Leave` handler of the topic's channel is spawned, if there is one.
    abbrev pub leaves : Bytes → ℕ → List (Effect Json)
    leaves topic conn_id = elim (find_channel hub topic) [
      | none ↦ []
      | some channel ↦ spawns channel (leave topic conn_id) ∷ []
    ]

    unfoldable pub on_unsubscribe : Bytes → Connection Json → Connection Json × List (Effect Json)
    unfolding find_channel untrack
    on_unsubscribe topic c = (
      record c {
        subscriptions = remove topic c.subscriptions;
        presence = untrack topic c.conn_id c.presence;
      },
      aborted topic c.subscriptions
          ++ (leaves topic c.conn_id ++ replies (unsubscribed topic) ∷ []),
    )

    abbrev pub messaged : Handled Json → Connection Json → Connection Json × List (Effect Json)
    messaged handled c = (
      record c { presence = handled.presence },
      pushed handled.pushes ++ elim handled.error [
        | none ↦ []
        | some e ↦ replies (error (codes "message handler error: " ++ e)) ∷ []
      ],
    )

    unfoldable pub on_message :
        Bytes → Bytes → Json → Connection Json → Connection Json × List (Effect Json)
    unfolding find_channel
    on_message topic event payload c =
        if contains topic c.subscriptions
        then (elim (find_channel hub topic) [
          | some channel ↦
              messaged
                (channel.handle (RelayEvent.message topic event payload c.conn_id) c.presence) c
          | none ↦ (c, pushes (record { topic = topic; event = event; payload = payload }) ∷ [])
        ])
        else (c, replies (error (codes "not subscribed to " ++ topic)) ∷ [])

    unfoldable pub receive :
        ClientMessage Json → Connection Json → Connection Json × List (Effect Json)
    unfolding on_subscribe on_unsubscribe on_message
    receive (subscribe topic) c = on_subscribe topic c
    receive (unsubscribe topic) c = on_unsubscribe topic c
    receive (message topic event payload) c = on_message topic event payload c
    receive ping c = (c, replies pong ∷ [])

    unfoldable pub receive_all : List (ClientMessage Json) → Connection Json → Connection Json
    unfolding receive
    receive_all [] c = c
    receive_all (m ∷ messages) c = receive_all messages (receive m c).0

    -- The cleanup behind the loop.
    unfoldable pub disconnect :
        List Bytes → ℕ → PresenceMap Json → PresenceMap Json × List (Effect Json)
    unfolding find_channel untrack
    disconnect [] conn_id presence = (presence, [])
    disconnect (topic ∷ topics) conn_id presence =
        let rest = disconnect topics conn_id (untrack topic conn_id presence) in
        (rest.0, aborts topic ∷ (leaves topic conn_id ++ rest.1))

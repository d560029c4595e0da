-- ===== src/Relay/Laws.antt =====
-- The subscriptions of a connection, and the choice of a channel.
use mathlib.Core.List.{Memᴰ}
use rapina.Prelude.{
  sym, bytes_eq_iff, some, none, Option, least, nothing, starts_with, ℕ, true, false, ◌≡◌, ◌≤◌,
  refl, inl, inr, List, [], ◌∷◌, Bytes, bytes_eq, Bool-cases, Option-cases, length, leb, arith,
  Finds, Finds-sort_by,
}
use rapina.Router.Order.{lex_le-total, lex_le_trans}
use rapina.Relay.Channel.{
  join, Handled, ChannelDescriptor, matches, channel_le, sort_channels, PresenceMap,
}
use rapina.Relay.Tasks.{tasks, all_effects, all_effects-Tracks}
use rapina.Relay.Hub.{
  ClientMessage, subscribe, unsubscribe, message, ping, Hub, Connection, contains, remove,
  find_channel, joined, start_forwarding, on_subscribe, on_unsubscribe, on_message, receive,
  receive_all,
}

channel_le-total :
    {Json : Type 0} (a b : ChannelDescriptor Json) → channel_le a b ≡ false → channel_le b a ≡ true
unfolding channel_le
channel_le-total a b h = ground (arith, lex_le-total a.pattern b.pattern)

channel_le_trans :
    {Json : Type 0} (a b c : ChannelDescriptor Json)
    → channel_le a b ≡ true
    → channel_le b c ≡ true
    → channel_le a c ≡ true
unfolding channel_le
channel_le_trans a b c h k = ground (arith, lex_le_trans a.pattern b.pattern c.pattern)

-- A right choice of a channel: one that matches, with an exact pattern, or with a prefix when no
-- exact pattern and no longer prefix matches; or none, when none matches.
pub data IsChosen {Json : Type 0} (channels : List (ChannelDescriptor Json)) (topic : Bytes)
    : Option (ChannelDescriptor Json) → Type 0 where
  exact :
      {c : ChannelDescriptor Json}
      → Memᴰ c channels
      → c.is_prefix ≡ false
      → c.pattern ≡ topic
      → IsChosen channels topic (some c)
  longest :
      {c : ChannelDescriptor Json}
      → Memᴰ c channels
      → c.is_prefix ≡ true
      → starts_with c.match_prefix topic ≡ true
      → ((d : ChannelDescriptor Json)
          → Memᴰ d channels
          → matches topic d ≡ true
          → (d.is_prefix ≡ true) × (length d.match_prefix ≤ length c.match_prefix))
      → IsChosen channels topic (some c)
  unmatched :
      ((d : ChannelDescriptor Json) → Memᴰ d channels → matches topic d ≡ false)
      → IsChosen channels topic none

IsChosen-least :
    {Json : Type 0} (channels : List (ChannelDescriptor Json)) (topic : Bytes)
    (o : Option (ChannelDescriptor Json))
    → Finds channel_le (matches topic) channels o
    → IsChosen channels topic o
unfolding matches channel_le
IsChosen-least channels topic (some c) (least m t all) = elim (Bool-cases c.is_prefix) [
  | inr e ↦ exact m e (sym ((bytes_eq_iff topic c.pattern).0 (rw e at t)))
  | inl e ↦
      longest m e (rw e at t) (λ d n u. let before = all d n u in (ground arith, ground arith))
]
IsChosen-least channels topic none (nothing no_one) = unmatched no_one

-- Among channels that are sorted as the application sorts them, the channel that is found for a
-- topic has the topic as its exact pattern, or it has a prefix of the topic and then no exact
-- pattern and no longer prefix matches. None is found only if none matches.
pub find_channel_lem :
    {Json : Type 0} (hub : Hub Json) (channels : List (ChannelDescriptor Json)) (topic : Bytes)
    → hub.channels ≡ sort_channels channels
    → IsChosen channels topic (find_channel hub topic)
unfolding find_channel sort_channels
find_channel_lem hub channels topic sorted =
    IsChosen-least channels topic (find_channel hub topic) (
      rw sorted
        (Finds-sort_by channel_le channel_le-total channel_le_trans (matches topic) channels))

-- No topic stands twice.
abbrev pub Once : List Bytes → Type 0
Once [] = Unit
Once (t ∷ topics) = (contains t topics ≡ false) × Once topics

contains-remove :
    (s t : Bytes) (topics : List Bytes)
    → contains s topics ≡ false
    → contains s (remove t topics) ≡ false
contains-remove s t [] h = refl
contains-remove s t (u ∷ topics) h = ground (arith, contains-remove s t topics)

Once-remove : (t : Bytes) (topics : List Bytes) → Once topics → Once (remove t topics)
Once-remove t [] o = tt
Once-remove t (u ∷ topics) (h, o) = elim (Bool-cases (bytes_eq u t)) [
  | inl e ↦ rw e o
  | inr e ↦ rw e (contains-remove u t topics h, Once-remove t topics o)
]

length-remove : (t : Bytes) (topics : List Bytes) → length (remove t topics) ≤ length topics
length-remove t [] = omega arith
length-remove t (u ∷ topics) = elim (Bool-cases (bytes_eq u t)) [
  | inl e ↦ rw e (omega arith)
  | inr e ↦ rw e (omega (arith, length-remove t topics))
]

module _ {Json : Type 0} (decimal : ℕ → Bytes) (hub : Hub Json) where
  -- No topic is subscribed twice, and no more topics than the settings allow.
  pub record IsBounded (c : Connection Json) : Type 0 where
    pub once : Once c.subscriptions
    pub few : length c.subscriptions ≤ hub.config.max_subscriptions_per_connection

  removed-IsBounded :
      (topic : Bytes) (c : Connection Json) (presence : PresenceMap Json)
      → IsBounded c
      → IsBounded (record c { subscriptions = remove topic c.subscriptions; presence = presence })
  removed-IsBounded topic c presence b = record {
    once = Once-remove topic c.subscriptions b.once;
    few = omega (arith, length-remove topic c.subscriptions, b.few);
  }

  joined-IsBounded :
      (topic : Bytes) (handled : Handled Json) (c : Connection Json)
      → IsBounded c
      → IsBounded (joined decimal hub topic handled c).0
  joined-IsBounded topic handled c b = elim (Option-cases handled.error) [
    | inl e ↦ rw e (record { once = b.once; few = b.few })
    | inr (text, e) ↦ rw e (removed-IsBounded topic c handled.presence b)
  ]

  start_forwarding-IsBounded :
      (topic : Bytes) (c : Connection Json)
      → IsBounded c
      → IsBounded (start_forwarding decimal hub topic c).0
  start_forwarding-IsBounded topic c b = elim (Option-cases (find_channel hub topic)) [
    | inl e ↦ rw (e, start_forwarding) b
    | inr (channel, e) ↦
        rw (e, start_forwarding)
          (joined-IsBounded topic (channel.handle (join topic c.conn_id) c.presence) c b)
  ]

  on_subscribe-IsBounded :
      (topic : Bytes) (c : Connection Json)
      → IsBounded c
      → IsBounded (on_subscribe decimal hub topic c).0
  unfolding on_subscribe
  on_subscribe-IsBounded topic c b = elim (Bool-cases (contains topic c.subscriptions)) [
    | inl e ↦ rw e b
    | inr e ↦
        elim (Bool-cases
          (leb hub.config.max_subscriptions_per_connection (length c.subscriptions))) [
            | inl f ↦ rw (e, f) b
            | inr f ↦
                let c' : Connection Json = record c { subscriptions = topic ∷ c.subscriptions } in
                let b' : IsBounded c' = record { once = (e, b.once); few = ground arith } in
                rw (e, f) (start_forwarding-IsBounded topic c' b')
          ]
  ]

  on_message-IsBounded :
      (topic event : Bytes) (payload : Json) (c : Connection Json)
      → IsBounded c
      → IsBounded (on_message decimal hub topic event payload c).0
  unfolding on_message
  on_message-IsBounded topic event payload c b =
      elim (Bool-cases (contains topic c.subscriptions)) [
        | inr e ↦ rw e b
        | inl e ↦ elim (Option-cases (find_channel hub topic)) [
          | inl f ↦ rw (e, f) b
          | inr (channel, f) ↦ rw (e, f) (record { once = b.once; few = b.few })
        ]
      ]

  receive-IsBounded :
      (m : ClientMessage Json) (c : Connection Json)
      → IsBounded c
      → IsBounded (receive decimal hub m c).0
  unfolding receive on_unsubscribe
  receive-IsBounded (subscribe topic) c b = on_subscribe-IsBounded topic c b
  receive-IsBounded (unsubscribe topic) c b = removed-IsBounded topic c _ b
  receive-IsBounded (message topic event payload) c b = on_message-IsBounded topic event payload c b
  receive-IsBounded ping c b = b

  IsBounded-after :
      (messages : List (ClientMessage Json)) (c : Connection Json)
      → IsBounded c
      → IsBounded (receive_all decimal hub messages c)
  unfolding receive_all
  IsBounded-after [] c b = b
  IsBounded-after (m ∷ messages) c b =
      IsBounded-after messages (receive decimal hub m c).0 (receive-IsBounded m c b)

  -- Whatever messages a client sends and whatever the handlers answer, a connection that is
  -- subscribed to no topic twice and to no more than the settings allow keeps to both; and if the
  -- forwarding tasks that run are those of its subscriptions, they are so again behind all effects
  -- of the messages, the tasks that are opened and those that are aborted.
  pub receive_all-IsBounded :
      (messages : List (ClientMessage Json)) (c : Connection Json)
      → IsBounded c
      → IsBounded (receive_all decimal hub messages c)
        × (tasks (all_effects decimal hub messages c) c.subscriptions
            ≡ (receive_all decimal hub messages c).subscriptions)
  receive_all-IsBounded messages c b =
      (IsBounded-after messages c b, all_effects-Tracks decimal hub messages c)

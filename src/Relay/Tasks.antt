-- ===== src/Relay/Tasks.antt =====
-- The forwarding tasks of a connection, by the effects of its messages (rapina/src/relay/hub.rs).
use rapina.Prelude.{
  sym, ap, ◌∙◌, ℕ, false, ◌≡◌, refl, inl, inr, List, [], ◌∷◌, ◌++◌, Bytes, bytes_eq, Bool-cases,
  Option-cases, length, leb,
}
use rapina.Relay.Channel.{join, RelayEvent, Push}
use rapina.Relay.Hub.{
  ClientMessage, subscribe, unsubscribe, message, ping, Hub, Connection, contains, remove, Effect,
  opens, aborts, replies, pushes, spawns, pushed, find_channel, leaves, start_forwarding,
  on_subscribe, on_unsubscribe, on_message, receive, receive_all,
}

module _ {Json : Type 0} where
  -- The topics whose forwarding tasks run behind some effects.
  abbrev pub tasks : List (Effect Json) → List Bytes → List Bytes
  tasks [] running = running
  tasks (opens topic ∷ effects) running = tasks effects (topic ∷ running)
  tasks (aborts topic ∷ effects) running = tasks effects (remove topic running)
  tasks (replies m ∷ effects) running = tasks effects running
  tasks (pushes p ∷ effects) running = tasks effects running
  tasks (spawns channel event ∷ effects) running = tasks effects running

  tasks-pushed :
      (ps : List (Push Json)) (effects : List (Effect Json)) (running : List Bytes)
      → tasks (pushed ps ++ effects) running ≡ tasks effects running
  tasks-pushed [] effects running = refl
  tasks-pushed (p ∷ ps) effects running = tasks-pushed ps effects running

remove-absent :
    (t : Bytes) (topics : List Bytes) → contains t topics ≡ false → remove t topics ≡ topics
remove-absent t [] h = refl
remove-absent t (s ∷ topics) h = elim (Bool-cases (bytes_eq s t)) [
  | inl e ↦ cc (rw e at h)
  | inr e ↦ rw e (ap (λ l. s ∷ l) (remove-absent t topics (rw e at h)))
]

module _ {Json : Type 0} (decimal : ℕ → Bytes) (hub : Hub Json) where
  -- The effects of all messages, in their order.
  abbrev pub all_effects : List (ClientMessage Json) → Connection Json → List (Effect Json)
  all_effects [] c = []
  all_effects (m ∷ messages) c =
      (receive decimal hub m c).1 ++ all_effects messages (receive decimal hub m c).0

  -- The tasks that run are those of the subscriptions.
  abbrev Tracks : Connection Json → Connection Json × List (Effect Json) → Type 0
  Tracks c after = tasks after.1 c.subscriptions ≡ after.0.subscriptions

  start_forwarding-Tracks :
      (topic : Bytes) (c : Connection Json)
      → tasks
          (start_forwarding decimal hub topic
            (record c { subscriptions = topic ∷ c.subscriptions })).1
          c.subscriptions
        ≡ (start_forwarding decimal hub topic
            (record c { subscriptions = topic ∷ c.subscriptions })).0.subscriptions
  start_forwarding-Tracks topic c = elim (Option-cases (find_channel hub topic)) [
    | inl e ↦ rw (e, start_forwarding) refl
    | inr (channel, e) ↦
        let handled = channel.handle (join topic c.conn_id) c.presence in
        elim (Option-cases handled.error) [
          | inl f ↦ rw (e, start_forwarding) (rw f (tasks-pushed handled.pushes _ _))
          | inr (text, f) ↦ rw (e, start_forwarding) (rw f (tasks-pushed handled.pushes _ _))
        ]
  ]

  on_subscribe-Tracks :
      (topic : Bytes) (c : Connection Json) → Tracks c (on_subscribe decimal hub topic c)
  unfolding on_subscribe
  on_subscribe-Tracks topic c = elim (Bool-cases (contains topic c.subscriptions)) [
    | inl e ↦ rw e refl
    | inr e ↦
        elim (Bool-cases
          (leb hub.config.max_subscriptions_per_connection (length c.subscriptions))) [
            | inl f ↦ rw (e, f) refl
            | inr f ↦ rw (e, f) (start_forwarding-Tracks topic c)
          ]
  ]

  on_message-Tracks :
      (topic event : Bytes) (payload : Json) (c : Connection Json)
      → Tracks c (on_message decimal hub topic event payload c)
  unfolding on_message
  on_message-Tracks topic event payload c = elim (Bool-cases (contains topic c.subscriptions)) [
    | inr e ↦ rw e refl
    | inl e ↦ elim (Option-cases (find_channel hub topic)) [
      | inl f ↦ rw (e, f) refl
      | inr (channel, f) ↦
          let handled =
            channel.handle (RelayEvent.message topic event payload c.conn_id) c.presence in
          elim (Option-cases handled.error) [
            | inl g ↦ rw (e, f) (rw g (tasks-pushed handled.pushes _ _))
            | inr (text, g) ↦ rw (e, f) (rw g (tasks-pushed handled.pushes _ _))
          ]
    ]
  ]

  on_unsubscribe-Tracks :
      (topic : Bytes) (c : Connection Json) → Tracks c (on_unsubscribe decimal hub topic c)
  unfolding on_unsubscribe
  on_unsubscribe-Tracks topic c = elim (Bool-cases (contains topic c.subscriptions)) [
    | inl e ↦ elim (Option-cases (find_channel hub topic)) [
      | inl f ↦ rw (e, f, leaves) refl
      | inr (channel, f) ↦ rw (e, f, leaves) refl
    ]
    | inr e ↦ elim (Option-cases (find_channel hub topic)) [
      | inl f ↦ rw (e, f, leaves) (sym (remove-absent topic c.subscriptions e))
      | inr (channel, f) ↦ rw (e, f, leaves) (sym (remove-absent topic c.subscriptions e))
    ]
  ]

  receive-Tracks :
      (m : ClientMessage Json) (c : Connection Json) → Tracks c (receive decimal hub m c)
  unfolding receive
  receive-Tracks (subscribe topic) c = on_subscribe-Tracks topic c
  receive-Tracks (unsubscribe topic) c = on_unsubscribe-Tracks topic c
  receive-Tracks (message topic event payload) c = on_message-Tracks topic event payload c
  receive-Tracks ping c = refl

  tasks-append :
      (effects others : List (Effect Json)) (running : List Bytes)
      → tasks (effects ++ others) running ≡ tasks others (tasks effects running)
  tasks-append [] others running = refl
  tasks-append (opens topic ∷ effects) others running =
      tasks-append effects others (topic ∷ running)
  tasks-append (aborts topic ∷ effects) others running =
      tasks-append effects others (remove topic running)
  tasks-append (replies m ∷ effects) others running = tasks-append effects others running
  tasks-append (pushes p ∷ effects) others running = tasks-append effects others running
  tasks-append (spawns channel event ∷ effects) others running = tasks-append effects others running

  -- What runs behind the effects of all messages.
  pub all_effects-Tracks :
      (messages : List (ClientMessage Json)) (c : Connection Json)
      → tasks (all_effects messages c) c.subscriptions
        ≡ (receive_all decimal hub messages c).subscriptions
  unfolding receive_all
  all_effects-Tracks [] c = refl
  all_effects-Tracks (m ∷ messages) c =
      let after = receive decimal hub m c in
      tasks-append after.1 (all_effects messages after.0) c.subscriptions
      ∙ (ap (tasks (all_effects messages after.0)) (receive-Tracks m c)
          ∙ all_effects-Tracks messages after.0)

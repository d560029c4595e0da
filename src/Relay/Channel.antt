-- ===== src/Relay/Channel.antt =====
-- Channels and presence (rapina/src/relay/channel.rs), and the settings of the relay. A handler is
-- what it does to the presence map, what it pushes, and the text of its error.
use rapina.Prelude.{
  ℕ, Bool, true, ◌&&◌, List, [], ◌∷◌, Option, Bytes, bytes_eq, starts_with, if◌then◌else◌, length,
  leb, ◌==◌, sort_by, codes,
}
use rapina.RoutePattern.{lex_le}

pub data RelayEvent (Json : Type 0) : Type 0 where
  join : Bytes → ℕ → RelayEvent Json
  message : Bytes → Bytes → Json → ℕ → RelayEvent Json
  leave : Bytes → ℕ → RelayEvent Json

unfoldable pub topic : {Json : Type 0} → RelayEvent Json → Bytes
topic (join t _) = t
topic (message t _ _ _) = t
topic (leave t _) = t

unfoldable pub conn_id : {Json : Type 0} → RelayEvent Json → ℕ
conn_id (join _ id) = id
conn_id (message _ _ _ id) = id
conn_id (leave _ id) = id

pub record PresenceEntry (Json : Type 0) : Type 0 where
  pub topic : Bytes
  pub conn_id : ℕ
  pub meta : Json

-- The nested `DashMap` from a topic and a connection to an entry is one list of entries; it keeps
-- no empty inner map.
abbrev pub PresenceMap : Type 0 → Type 0
PresenceMap Json = List (PresenceEntry Json)

module _ {Json : Type 0} where
  abbrev pub is_entry : Bytes → ℕ → PresenceEntry Json → Bool
  is_entry topic conn_id entry = bytes_eq entry.topic topic && entry.conn_id == conn_id

  unfoldable pub track : Bytes → ℕ → Json → PresenceMap Json → PresenceMap Json
  track topic conn_id meta [] = record { topic = topic; conn_id = conn_id; meta = meta } ∷ []
  track topic conn_id meta (entry ∷ presence) =
      let rest = track topic conn_id meta presence in
      if is_entry topic conn_id entry
      then record { topic = topic; conn_id = conn_id; meta = meta } ∷ presence
      else entry ∷ rest

  unfoldable pub untrack : Bytes → ℕ → PresenceMap Json → PresenceMap Json
  untrack topic conn_id [] = []
  untrack topic conn_id (entry ∷ presence) =
      let rest = untrack topic conn_id presence in
      if is_entry topic conn_id entry then rest else entry ∷ rest

  unfoldable pub list : Bytes → PresenceMap Json → PresenceMap Json
  list topic [] = []
  list topic (entry ∷ presence) =
      let rest = list topic presence in if bytes_eq entry.topic topic then entry ∷ rest else rest

  unfoldable pub count : Bytes → PresenceMap Json → ℕ
  unfolding list
  count topic presence = length (list topic presence)

pub record Push (Json : Type 0) : Type 0 where
  pub topic : Bytes
  pub event : Bytes
  pub payload : Json

pub record Handled (Json : Type 0) : Type 0 where
  pub presence : PresenceMap Json
  pub pushes : List (Push Json)
  pub error : Option Bytes

pub record ChannelDescriptor (Json : Type 0) : Type 0 where
  pub pattern : Bytes
  pub is_prefix : Bool
  pub match_prefix : Bytes
  pub handler_name : Bytes
  pub handle : RelayEvent Json → PresenceMap Json → Handled Json

module _ {Json : Type 0} where
  unfoldable pub matches : Bytes → ChannelDescriptor Json → Bool
  unfolding bytes_eq
  matches topic channel =
      if channel.is_prefix
      then starts_with channel.match_prefix topic
      else bytes_eq topic channel.pattern

  -- Not after, in the order of `sort_by` in rapina/src/app.rs: exact patterns first, then longer
  -- prefixes.
  unfoldable pub channel_le : ChannelDescriptor Json → ChannelDescriptor Json → Bool
  unfolding lex_le
  channel_le a b =
      if a.is_prefix
      then b.is_prefix && leb (length b.match_prefix) (length a.match_prefix)
      else if b.is_prefix
      then true
      else lex_le a.pattern b.pattern

  unfoldable pub sort_channels : List (ChannelDescriptor Json) → List (ChannelDescriptor Json)
  unfolding channel_le
  sort_channels channels = sort_by channel_le channels

pub record RelayConfig : Type 0 where
  pub topic_capacity : ℕ
  pub max_subscriptions_per_connection : ℕ
  pub path : Bytes

unfoldable pub default : RelayConfig
default = record { topic_capacity = 128; max_subscriptions_per_connection = 50; path = codes "/ws" }

unfoldable pub with_path : Bytes → RelayConfig → RelayConfig
with_path path config = record config { path = path }

unfoldable pub with_topic_capacity : ℕ → RelayConfig → RelayConfig
with_topic_capacity capacity config = record config { topic_capacity = capacity }

unfoldable pub with_max_subscriptions : ℕ → RelayConfig → RelayConfig
with_max_subscriptions max config = record config { max_subscriptions_per_connection = max }

-- ===== src/Runtime/Topics/Tests.antt =====
-- Runs of the topic registry.
use Prim.Native.String.{String}
use shiny_song_tools.Prelude.{ℕ, List, [], ◌∷◌}
use shiny_song_tools.Core.Gate.{new}
use shiny_song_tools.Core.Debug.{DebugTopicChannel, typed}
use shiny_song_tools.Runtime.Topics.{main, TopicEntry}

abbrev one_queued : DebugTopicChannel ℕ ℕ
one_queued = record {
  inbox = record { id = 7; payload = typed 4; generation = 1 } ∷ [];
  outbox = [];
  pending = 2;
  owner_gate = new;
  runtime_gate = new;
}

abbrev topic : ℕ → ℕ → String → TopicEntry ℕ ℕ
topic id owner name = record {
  id = id;
  owner = owner;
  name = name;
  domain = main;
  channel = one_queued;
}

abbrev topics : List (TopicEntry ℕ ℕ)
topics = topic 0 3 "a.get" ∷ topic 1 4 "b.get" ∷ []

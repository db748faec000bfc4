-- ===== src/Runtime/Topics.antt =====
-- crates/runtime/src/core_state.rs: the registry of the debug topics.
pub mod Laws
pub mod Tests
use Prim.Native.String.{String}
use text.Mathlib.Text.{◌==◌ as str_eq}
use shiny_song_tools.Prelude.{
  ℕ, ◌+◌, ◌==◌, Bool, true, false, if◌then◌else◌, Result, ok, err, List, [], ◌∷◌, ◌++◌,
}
use shiny_song_tools.Core.Error.{PluginError, message}
use shiny_song_tools.Core.Debug.{
  DebugQueuedRequest, DebugTopicChannel, plugin_unavailable, server, respond,
}

pub data TopicDomain : Type 0 where
  main callback : TopicDomain

-- The decoder of a topic takes no part.
pub record TopicEntry (V D : Type 0) : Type 0 where
  pub id : ℕ
  pub owner : ℕ
  pub name : String
  pub domain : TopicDomain
  pub channel : DebugTopicChannel V D

pub record TopicRegistry (V D : Type 0) : Type 0 where
  pub entries : List (TopicEntry V D)
  pub next_id : ℕ

module _ {V D : Type 0} where
  unfoldable pub has_name : String → List (TopicEntry V D) → Bool
  has_name name [] = false
  has_name name (e ∷ es) = if str_eq e.name name then true else has_name name es

  unfoldable pub register :
      ℕ
      → String
      → TopicDomain
      → DebugTopicChannel V D
      → TopicRegistry V D
      → TopicRegistry V D × Result PluginError ℕ
  register owner name domain channel t =
      if has_name name t.entries then (t, err (message "debug topic already registered")) else (
        record {
          entries =
              t.entries
              ++ record {
                id = t.next_id;
                owner = owner;
                name = name;
                domain = domain;
                channel = channel;
              }
                ∷ [];
          next_id = t.next_id + 1;
        },
        ok t.next_id,
      )

  -- The loop over the drained requests of one topic.
  unfoldable pub refuse_all :
      List (DebugQueuedRequest V D) → DebugTopicChannel V D → DebugTopicChannel V D
  refuse_all [] c = c
  refuse_all (q ∷ qs) c =
      refuse_all qs
        (respond q (err (server plugin_unavailable "plugin retired; request not delivered")) c)

  unfoldable pub fail_channel : DebugTopicChannel V D → DebugTopicChannel V D
  fail_channel c = refuse_all c.inbox (record c { inbox = [] })

  unfoldable pub fail_pending_requests : ℕ → List (TopicEntry V D) → List (TopicEntry V D)
  fail_pending_requests owner [] = []
  fail_pending_requests owner (e ∷ es) =
      (if e.owner == owner then record e { channel = fail_channel e.channel } else e)
      ∷ fail_pending_requests owner es

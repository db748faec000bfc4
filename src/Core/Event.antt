-- ===== src/Core/Event.antt =====
-- crates/core/src/event.rs: the queue of compact events that the hot paths write and a worker drains.
pub mod Order
pub mod Tests
use shiny_song_tools.Prelude.{
  ℕ, zero, suc, ◌+◌, ◌%◌, ◌^◌, Bool, true, false, Option, none, some, List, [], ◌∷◌, ◌++◌,
  if◌then◌else◌,
}
use shiny_song_tools.Core.Mailbox.{ArrayQueue}

abbrev pub callback_event_queue_capacity : ℕ
callback_event_queue_capacity = 4096

pub data CompactLevel : Type 0 where
  info warn error : CompactLevel

-- The numbers are a `u16`, two `u32` and two `u64`.
pub record CompactEvent : Type 0 where
  pub code : ℕ
  pub level : CompactLevel
  pub owner : ℕ
  pub site : ℕ
  pub arg0 : ℕ
  pub arg1 : ℕ

module _ (a : ArrayQueue CompactEvent) where
  -- `CompactEventInner`.
  pub record CallbackObservability : Type 0 where
    pub queue : a.State
    pub dropped : ℕ

  unfoldable pub new : CallbackObservability
  new = record { queue = a.new; dropped = 0 }

  unfoldable pub try_emit : CompactEvent → CallbackObservability → CallbackObservability × Bool
  try_emit e o =
      let (q, pushed) = a.push o.queue e in
      if pushed
      then (record o { queue = q }, true)
      else (record { queue = q; dropped = (o.dropped + 1) % 2 ^ 64 }, false)

  -- Up to `max` events; the first empty pop ends it.
  unfoldable pub drain : ℕ → CallbackObservability → CallbackObservability × List CompactEvent
  drain zero o = (o, [])
  drain (suc max) o =
      let (q, x) = a.pop o.queue in
      elim x [
        | none ↦ (record o { queue = q }, [])
        | some e ↦ after e (drain max (record o { queue = q }))
      ]
    where
      after :
          CompactEvent
          → CallbackObservability × List CompactEvent
          → CallbackObservability × List CompactEvent
      after e (o', es) = (o', e ∷ es)

  -- What the producers and the worker do, in any order.
  pub data Use : Type 0 where
    emit : CompactEvent → Use
    drain_up_to : ℕ → Use

  -- A run with the events that were taken, the number refused, and the events that the worker got.
  pub record Ledger : Type 0 where
    pub state : CallbackObservability
    pub taken : List CompactEvent
    pub refused : ℕ
    pub received : List CompactEvent

  noted : CompactEvent → Ledger → CallbackObservability × Bool → Ledger
  noted e l (o, true) = record l { state = o; taken = l.taken ++ e ∷ [] }
  noted e l (o, false) = record l { state = o; refused = l.refused + 1 }

  got : Ledger → CallbackObservability × List CompactEvent → Ledger
  got l (o, es) = record l { state = o; received = l.received ++ es }

  unfoldable pub perform : Use → Ledger → Ledger
  unfolding noted got
  perform (emit e) l = noted e l (try_emit e l.state)
  perform (drain_up_to n) l = got l (drain n l.state)

  unfoldable pub perform_all : List Use → Ledger → Ledger
  perform_all [] l = l
  perform_all (u ∷ us) l = perform_all us (perform u l)

  abbrev pub blank : Ledger
  unfolding new
  blank = record { state = new; taken = []; refused = 0; received = [] }

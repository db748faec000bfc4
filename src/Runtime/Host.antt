-- ===== src/Runtime/Host.antt =====
-- What the App uses of code that is not in crates/runtime: the ECS world, the systems and the restore
-- actions of plugins, the debug topics and the routes. A state `P` stands for all that lies outside
-- the world and is shared with it: the hooked slots, the mailboxes, the topic queues.
use shiny_song_tools.Prelude.{ℕ, ◌≡◌, ◌≢◌, Bool, true, false, List, Result, ok, err}
use shiny_song_tools.Core.Error.{RestoreError, failed}

-- A `World` of the ECS library, of which the App uses the presence of resources, by their type. The
-- laws say what the library documents of inserting and removing a resource.
pub record WorldOps : Type 1 where
  pub World : Type 0
  pub contains_resource : ℕ → World → Bool
  pub insert_resource : ℕ → World → World
  pub remove_resource : ℕ → World → World
  pub run_message_updates : World → World
  pub contains-insert : (t : ℕ) (w : World) → contains_resource t (insert_resource t w) ≡ true
  pub contains-insert_ne :
      (t u : ℕ) (w : World)
      → t ≢ u
      → contains_resource u (insert_resource t w) ≡ contains_resource u w
  pub contains-remove : (t : ℕ) (w : World) → contains_resource t (remove_resource t w) ≡ false
  pub contains-remove_ne :
      (t u : ℕ) (w : World)
      → t ≢ u
      → contains_resource u (remove_resource t w) ≡ contains_resource u w

-- How a system ends; a panic is caught by the driver.
pub data SystemEnd : Type 0 where
  succeeded errored panicked : SystemEnd

pub data RestoreEnd : Type 0 where
  restored unwound : RestoreEnd
  refused : RestoreError → RestoreEnd

-- `RestoreAction`, with its constructor as a flag.
pub record RestoreAction (P : Type 0) : Type 0 where
  pub main_thread : Bool
  pub run : P → P × RestoreEnd

-- What one run of a startup system does: the world and the shared state that it leaves, the inserts
-- that it queues (by type), the restore actions that it registers, and its end.
pub record StartupRun (W P : Type 0) : Type 0 where
  pub world : W
  pub shared : P
  pub pending : List ℕ
  pub restores : List (RestoreAction P)
  pub end : SystemEnd

abbrev pub StartupSystem : Type 0 → Type 0 → Type 0
StartupSystem W P = W → P → StartupRun W P

abbrev pub UpdateSystem : Type 0 → Type 0 → Type 0
UpdateSystem W P = W → P → W × P × SystemEnd

-- `MainRouteDrain`: the items to be seen in a mailbox, and the delivery of at most so many.
pub record RouteDrain (W P : Type 0) : Type 0 where
  pub depth : P → ℕ
  pub drain : ℕ → W → P → W × P

caught : RestoreEnd → Result RestoreError (Unit {0})
caught restored = ok tt
caught unwound = err failed
caught (refused e) = err e

-- `execute_restore` (crates/runtime/src/app.rs); `main` says whether the caller has the main-thread
-- token.
unfoldable pub execute_restore :
    {P : Type 0} → RestoreAction P → Bool → P → P × Result RestoreError (Unit {0})
unfolding caught
execute_restore {P} a main p = elim a.main_thread [
  | false ↦ attempt
  | true ↦ elim main [ true ↦ attempt | false ↦ (p, err failed) ]
]
  where
    attempt : P × Result RestoreError (Unit {0})
    attempt = let (p', end) = a.run p in (p', caught end)

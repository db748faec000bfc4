-- ===== src/Runtime/Manager.antt =====
-- crates/runtime/src/manager.rs: the records of the plugin owners, in registration order.
pub mod Registered
use Prim.Native.String.{String}
use shiny_song_tools.Prelude.{
  ℕ, ◌+◌, Bool, true, false, Option, none, some, List, [], ◌∷◌, ◌++◌, ◌==◌, if◌then◌else◌,
}
use shiny_song_tools.Core.Gate.{RuntimeGate, new}
use shiny_song_tools.Runtime.Host.{RestoreAction, StartupSystem, UpdateSystem}

pub data PluginState : Type 0 where
  active retired : PluginState

-- `remove` of an entry removes the resource of its type.
pub record ResourceLedgerEntry : Type 0 where
  pub type_id : ℕ
  pub order : ℕ

-- `Vec`s are lists with the last element at the end. The plugin's container is only there or not.
pub record PluginRecord (W P : Type 0) : Type 0 where
  pub id : ℕ
  pub name : String
  pub state : PluginState
  pub startup : List (StartupSystem W P)
  pub update : List (UpdateSystem W P)
  pub effects : List (RestoreAction P)
  pub inserted : List ResourceLedgerEntry
  pub container : Bool
  pub route_ids : List ℕ
  pub topic_ids : List ℕ
  pub gate : RuntimeGate

pub record PluginManager (W P : Type 0) : Type 0 where
  pub records : List (PluginRecord W P)
  pub next_owner : ℕ

abbrev pub is_active_state : PluginState → Bool
is_active_state active = true
is_active_state retired = false

module _ {W P : Type 0} where
  -- `PluginRecord::new`.
  unfoldable pub new_record : ℕ → String → PluginRecord W P
  unfolding new
  new_record id name = record {
    id = id;
    name = name;
    state = active;
    startup = [];
    update = [];
    effects = [];
    inserted = [];
    container = false;
    route_ids = [];
    topic_ids = [];
    gate = new;
  }

  unfoldable pub begin_owner : PluginManager W P → String → PluginManager W P × ℕ
  begin_owner m name = (
    record {
      records = m.records ++ new_record m.next_owner name ∷ [];
      next_owner = m.next_owner + 1;
    },
    m.next_owner,
  )

  -- `record` and `record_mut`; `none` is their panic.
  unfoldable pub find : ℕ → List (PluginRecord W P) → Option (PluginRecord W P)
  find id [] = none
  find id (r ∷ rs) = if r.id == id then some r else find id rs

  unfoldable pub active_owner_ids : List (PluginRecord W P) → List ℕ
  active_owner_ids [] = []
  active_owner_ids (r ∷ rs) =
      if is_active_state r.state then r.id ∷ active_owner_ids rs else active_owner_ids rs

  -- The lookup does not panic on the id of a record.
  unfoldable pub is_active : ℕ → List (PluginRecord W P) → Bool
  is_active id rs = elim (find id rs) [ some r ↦ is_active_state r.state | none ↦ false ]

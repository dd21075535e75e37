-- ===== src/History/Buckets.antt =====
-- The buckets of src/hooks/useCommandHistoryState.ts and their changes, with `trimHistoryItems` of
-- src/features/command-history/core/inputTracker.ts. `Date.now()` is an argument, and times are
-- natural numbers.
use fluxterm.Base.{
  ℕ, ◌+◌, String, Bool, not, ◌==◌, Option, none, some, List, [], ◌∷◌, keep, any, if◌then◌else◌, ltb,
  leb, eqb, length, take, trim,
}
use fluxterm.Base.Dict.{Dict, get, put}

pub data CommandHistorySource : Type 0 where
  typed quickbar history : CommandHistorySource

pub data CommandHistoryLiveState : Type 0 where
  listening tracking : CommandHistoryLiveState

pub record CommandHistoryItem : Type 0 where
  pub id : String
  pub command : String
  pub first_used_at : ℕ
  pub last_used_at : ℕ
  pub use_count : ℕ
  pub source : CommandHistorySource

-- `scopeType` is `global` in every bucket that the program makes.
pub record CommandHistoryBucket : Type 0 where
  pub scope_key : String
  pub label : String
  pub updated_at : ℕ
  pub items : List CommandHistoryItem

pub record CommandHistoryLiveCapture : Type 0 where
  pub state : CommandHistoryLiveState
  pub command : String
  pub updated_at : ℕ

-- The state of the hook.
pub record CommandHistory : Type 0 where
  pub buckets : Dict CommandHistoryBucket
  pub session_buckets : Dict CommandHistoryBucket
  pub live_capture_by_session : Dict CommandHistoryLiveCapture

abbrev pub history_items_limit : ℕ
history_items_limit = 300

abbrev pub global_scope_key : String
global_scope_key = "__global__"

-- `sort((a, b) => b.lastUsedAt - a.lastUsedAt)`, which is stable
unfoldable pub insert_item : CommandHistoryItem → List CommandHistoryItem → List CommandHistoryItem
insert_item a [] = a ∷ []
insert_item a (b ∷ items) =
    let later = insert_item a items in
    if ltb a.last_used_at b.last_used_at then b ∷ later else a ∷ b ∷ items

unfoldable pub sort_items : List CommandHistoryItem → List CommandHistoryItem
sort_items [] = []
sort_items (a ∷ items) = insert_item a (sort_items items)

unfoldable pub trim_history_items : List CommandHistoryItem → ℕ → List CommandHistoryItem
trim_history_items items limit = take (if leb limit 1 then 1 else limit) (sort_items items)

-- The change of the item of a command, at the first place where it stands.
unfoldable pub use_again :
    String → CommandHistorySource → ℕ → List CommandHistoryItem → List CommandHistoryItem
use_again command source now [] = []
use_again command source now (item ∷ items) =
    let later = use_again command source now items in
    if item.command == command
    then record item { last_used_at = now; use_count = item.use_count + 1; source = source } ∷ items
    else item ∷ later

abbrev pub has_command : List CommandHistoryItem → String → Bool
has_command items command = any (λ (item : CommandHistoryItem). item.command == command) items

abbrev pub items_of : Option CommandHistoryBucket → List CommandHistoryItem
items_of none = []
items_of (some bucket) = bucket.items

abbrev scope_of : Option CommandHistoryBucket → String
scope_of none = global_scope_key
scope_of (some bucket) = bucket.scope_key

abbrev label_of : Option CommandHistoryBucket → String
label_of none = "Global"
label_of (some bucket) = bucket.label

-- `create_id` is `createCommandHistoryItemId`, the template `${timestamp}-${command}`.
module _ (create_id : String → ℕ → String) where
  unfoldable pub upsert_history_bucket :
      Option CommandHistoryBucket → String → CommandHistorySource → ℕ → CommandHistoryBucket
  upsert_history_bucket bucket command source now =
      let items = items_of bucket in
      record {
        scope_key = scope_of bucket;
        label = label_of bucket;
        updated_at = now;
        items =
            trim_history_items
              (if has_command items command
                then use_again command source now items
                else record {
                  id = create_id command now;
                  command = command;
                  first_used_at = now;
                  last_used_at = now;
                  use_count = 1;
                  source = source;
                }
                  ∷ items)
              history_items_limit;
      }

  -- A session id that is null or empty is none.
  unfoldable pub record_command :
      CommandHistory → Option String → String → CommandHistorySource → ℕ → CommandHistory
  record_command h session_id text source now =
      let command = trim text in
      if command == "" then h else record h {
        session_buckets = elim session_id [
          | none ↦ h.session_buckets
          | some id ↦
              if id == ""
              then h.session_buckets
              else put h.session_buckets id
                  (upsert_history_bucket (get h.session_buckets id) command source now)
        ];
        buckets =
            put h.buckets global_scope_key
              (upsert_history_bucket (get h.buckets global_scope_key) command source now);
      }

unfoldable pub remove_global_command : CommandHistory → String → ℕ → CommandHistory
remove_global_command h text now =
    let command = trim text in
    if command == "" then h else elim (get h.buckets global_scope_key) [
      | none ↦ h
      | some bucket ↦
          let rest =
            keep (λ (item : CommandHistoryItem). not (item.command == command)) bucket.items in
          if eqb (length rest) (length bucket.items) then h else record h {
            buckets =
                put h.buckets global_scope_key (record bucket { updated_at = now; items = rest });
          }
    ]

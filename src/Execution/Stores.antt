-- ===== src/Execution/Stores.antt =====
-- The in-memory stores of src/alpha/engines/execution/stores.py.
use alpha_runtime_v.Base.{
  ℕ, ◌==◌, ◌≡◌, Bool, true, false, Option, none, some, List, [], ◌∷◌, ◌++◌, if◌then◌else◌, is_some,
  arith,
}
use alpha_runtime_v.Base.Dict.{Dict, nat_eq, keys, lookup, insert, lookup-insert, ==_iff}
use alpha_runtime_v.Execution.Enums.{RiskDecision}
use alpha_runtime_v.Execution.Models.{SnapshotId}

-- `InMemoryIdempotencyStore._store`
abbrev pub IdempotencyStore : Type 0
IdempotencyStore = Dict ℕ ℕ

-- The answer is True for a new key.
unfoldable pub check_and_register : ℕ → ℕ → IdempotencyStore → Bool × IdempotencyStore
check_and_register key intent_id store =
    if is_some (lookup key store) then (false, store) else (true, insert key intent_id store)

unfoldable pub get_intent_id : ℕ → IdempotencyStore → Option ℕ
get_intent_id key store = lookup key store

-- The `event` strings of the journal.
pub data AuditEvent : Type 0 where
  rejected_not_ready received rejected_no_market_data client_quote_drift awaiting_confirmation
        expired_event rejected_on_revalidation cancelled_by_user submission_failed submitted_event :
      AuditEvent
  evaluated revalidated : RiskDecision → AuditEvent

pub record IntentAuditRecord : Type 0 where
  pub intent_id : ℕ
  pub event : AuditEvent
  pub timestamp : ℕ
  pub market_snapshot_id : Option SnapshotId
  pub account_snapshot_id : Option SnapshotId

-- `InMemoryIntentJournal._records`, a `defaultdict(list)`.
abbrev pub IntentJournal : Type 0
IntentJournal = Dict ℕ (List IntentAuditRecord)

-- `get_intent_history`
unfoldable pub history : ℕ → IntentJournal → List IntentAuditRecord
history intent_id journal = elim (lookup intent_id journal) [ none ↦ [] | some rs ↦ rs ]

-- `record`
unfoldable pub record_entry : IntentAuditRecord → IntentJournal → IntentJournal
unfolding history
record_entry entry journal =
    insert entry.intent_id (history entry.intent_id journal ++ entry ∷ []) journal

unfoldable pub all_intent_ids : IntentJournal → List ℕ
all_intent_ids journal = keys journal

-- The journal only grows at the end: a record is appended to its intent's history, and the
-- histories of the other intents stay as they are.
pub history-record_entry :
    (j : ℕ) (entry : IntentAuditRecord) (journal : IntentJournal)
    → history j (record_entry entry journal)
      ≡ (if j == entry.intent_id then history j journal ++ entry ∷ [] else history j journal)
unfolding history record_entry
history-record_entry j entry journal = ground (
  arith,
  ==_iff j entry.intent_id,
  lookup-insert j entry.intent_id (history entry.intent_id journal ++ entry ∷ []) journal,
)

-- Registering a key keeps what is there: the first intent of a key stays its intent. A new key is
-- answered by True and gets the intent, a known one by False, and no other key changes.
pub check_and_register_lem :
    (key i j : ℕ) (store : IdempotencyStore)
    → let (fresh, store') = check_and_register key i store in
      (fresh ≡ (if is_some (get_intent_id key store) then false else true))
      × (get_intent_id j store' ≡ (
          if j == key
          then (if is_some (get_intent_id key store) then get_intent_id j store else some i)
          else get_intent_id j store))
unfolding check_and_register get_intent_id
check_and_register_lem key i j store = ground (arith, lookup-insert j key i store)

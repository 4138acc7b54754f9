-- ===== src/Proposals/Table.antt =====
-- The statements that services/proposals.ts runs on its three tables, over the keys of db/schema.ts:
-- the primary keys, the unique (plugin_id, entity_id, operation) of proposals and the unique
-- (plugin_id, idempotency_key) of submissions, where null keys are distinct.
use citynode_app.Prelude.{
  String, Bool, false, Option, none, some, List, [], ◌∷◌, ◌++◌, ◌==◌, if◌then◌else◌, any, find,
  ◌&&◌, ◌||◌,
}
use citynode_app.Proposals.Types.{Row, Submission, AuditEntry}

-- the row of a primary key
unfoldable pub by_id : String → List Row → Option Row
by_id i [] = none
by_id i (r ∷ rs) = if r.id == i then some r else by_id i rs

abbrev pub has_key : String → String → Row → Bool
has_key plugin entity r = r.plugin_id == plugin && r.entity_id == entity

-- where plugin_id = … and entity_id = … limit 1
unfoldable pub select : String → String → List Row → Option Row
select plugin entity rows = find (has_key plugin entity) rows

-- update … set … where id = … : at most one row, the primary key being unique
unfoldable pub update : String → (Row → Row) → List Row → List Row
update i set [] = []
update i set (r ∷ rs) = if r.id == i then set r ∷ rs else r ∷ update i set rs

abbrev pub conflicts : Row → Row → Bool
conflicts new r =
    r.id == new.id
    || (r.plugin_id == new.plugin_id
        && r.entity_id == new.entity_id
        && r.operation == new.operation)

-- insert … onConflictDoNothing: `none` when a unique key is taken
unfoldable pub insert_row : Row → List Row → Option (List Row)
insert_row new rows = if any (conflicts new) rows then none else some (rows ++ new ∷ [])

abbrev pub has_idempotency_key : String → String → Submission → Bool
has_idempotency_key plugin key s =
    s.plugin_id == plugin && elim s.idempotency_key [ none ↦ false | some k ↦ k == key ]

abbrev pub same_submission : Submission → Submission → Bool
same_submission new s = s.id == new.id || elim new.idempotency_key [
  | none ↦ false
  | some key ↦ has_idempotency_key new.plugin_id key s
]

-- insert into proposal_submissions: `none` is the exception of a unique violation
unfoldable pub insert_submission : Submission → List Submission → Option (List Submission)
insert_submission new subs =
    if any (same_submission new) subs then none else some (subs ++ new ∷ [])

-- insert into proposal_audit_log, likewise
unfoldable pub insert_audit : AuditEntry → List AuditEntry → Option (List AuditEntry)
insert_audit new log = if any (λ e. e.id == new.id) log then none else some (log ++ new ∷ [])

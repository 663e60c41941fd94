-- ===== src/Dispatch/Events.antt =====
-- `execution_events` of one execution: `AppendEvent` and `GetEventByToolCallID` of
-- backend/internal/repository/execution_repository.go. A row keeps what the dispatch of tools reads.
use forge_engine.Prelude.{
  ℕ, ◌+◌, ◌≡◌, refl, sym, subst, String, Bool, true, false, Option, none, some, List, [], ◌∷◌,
  if◌then◌else◌, ◌==◌, ltb, ==_self, Bool-cases, Option-cases, inl, inr,
}
use forge_engine.Dispatch.Result.{ToolResult}

pub record ExecutionEvent : Type 0 where
  pub seq : ℕ
  pub tool_name : String
  pub tool_call_id : Option String
  pub success : Bool
  pub tool_result : Option ToolResult

abbrev max_seq : List ExecutionEvent → ℕ
max_seq [] = 0
max_seq (e ∷ events) = let m = max_seq events in if ltb m e.seq then e.seq else m

-- `nextEventSeq`
unfoldable pub next_event_seq : List ExecutionEvent → ℕ
next_event_seq events = max_seq events + 1

abbrev has_id : String → Option String → Bool
has_id id none = false
has_id id (some j) = j == id

-- `GetEventByToolCallID`
unfoldable pub find_event : String → List ExecutionEvent → Option ExecutionEvent
find_event id [] = none
find_event id (e ∷ events) = if has_id id e.tool_call_id then some e else find_event id events

-- `ON CONFLICT … DO UPDATE`: the first row with the id.
unfoldable pub update_event : String → ExecutionEvent → List ExecutionEvent → List ExecutionEvent
update_event id new [] = []
update_event id new (e ∷ events) =
    if has_id id e.tool_call_id
    then record e { tool_result = new.tool_result; success = new.success } ∷ events
    else e ∷ update_event id new events

abbrev insert_event : ExecutionEvent → List ExecutionEvent → List ExecutionEvent
insert_event new events = record new { seq = next_event_seq events } ∷ events

-- The statement of `AppendEvent`, by the id of the tool call. A row without an id conflicts with none.
unfoldable pub upsert_event :
    Option String → ExecutionEvent → List ExecutionEvent → List ExecutionEvent
unfolding next_event_seq find_event update_event
upsert_event none new events = insert_event new events
upsert_event (some id) new events = elim (find_event id events) [
  | none ↦ insert_event new events
  | some e ↦ update_event id new events
]

-- `AppendEvent`
unfoldable pub append_event : Bool → ExecutionEvent → List ExecutionEvent → List ExecutionEvent
unfolding upsert_event
append_event db new events = if db then upsert_event new.tool_call_id new events else events

-- A found event that carries the result of another.
abbrev pub Carries : ExecutionEvent → Option ExecutionEvent → Type 0
Carries new none = ⊥
Carries new (some e) = (e.success ≡ new.success) × (e.tool_result ≡ new.tool_result)

find-update :
    (id : String) (new e : ExecutionEvent) (events : List ExecutionEvent)
    → find_event id events ≡ some e
    → Carries new (find_event id (update_event id new events))
unfolding find_event update_event
find-update id new e [] h = cc
find-update id new e (x ∷ events) h = elim (Bool-cases (has_id id x.tool_call_id)) [
  | inl y ↦ rw y (rw y (refl, refl))
  | inr n ↦ rw n (
      rw n (
        find-update id new e events
          (subst (λ b. (if b then some x else find_event id events) ≡ some e) n h)))
]

-- What was appended under an id is found under it.
pub find-append :
    (id : String) (new : ExecutionEvent) (events : List ExecutionEvent)
    → new.tool_call_id ≡ some id
    → Carries new (find_event id (append_event true new events))
unfolding append_event upsert_event find_event
find-append id new events e =
    subst (λ o. Carries new (find_event id (upsert_event o new events))) (sym e)
      (elim (Option-cases (find_event id events)) [
        | inl missing ↦
            rw (missing, upsert_event)
              (rw (subst (λ o. has_id id o ≡ true) (sym e) (==_self id)) (refl, refl))
        | inr (old, found) ↦ rw (found, upsert_event) (find-update id new old events found)
      ])

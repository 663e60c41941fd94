-- ===== src/Repair/Loss.antt =====
-- What a rollback does to a file that was not read before the attempt.
use forge_engine.Prelude.{
  ◌≡◌, refl, ℕ, suc, ap, ◌∙◌, ==→≡, Bool-cases, ◌⊎◌, sym, subst, String, Bool, true, false, ◌&&◌,
  not, Option, none, some, List, [], ◌∷◌, if◌then◌else◌, ◌==◌, contains, lookup, inl, inr, arith,
  if-lift, All,
}
use forge_engine.Repair.{Diagnostic, is_text}
use forge_engine.Repair.Checkpoint.{
  Files, set_file, workspace_path, read_file, RollbackEnv, restore_entries, Before, content_at,
  existed_at, record_file, snapshot_from, snapshot_before_content, capture, StreamEvent,
  calls_write_file, changes, run_agent_stream, collect_checkpoint_diffs, rollback_from_checkpoint,
  attempt_then_rollback,
}
use forge_engine.Repair.Capture.{IsPlain, capture-cases}
use forge_engine.Repair.Restore.{announced, set_file_here, set_file-other}

module _ (files₀ : Files) (path : String) where
  -- The path is not known to have existed.
  abbrev IsUnknown : Before → Type 0
  IsUnknown before = existed_at before path ≡ false

  record_file-IsUnknown :
      (p c : String) (b : Bool) (before : Before)
      → (p == path) ≡ false
      → IsUnknown before
      → IsUnknown (record_file before p c b)
  unfolding existed_at lookup
  record_file-IsUnknown p c b before n u = rw (n, IsUnknown, existed_at) u

  capture-IsUnknown :
      (ok : Bool) (files : Files) (p : String) (before : Before)
      → (p == path) ≡ false
      → IsUnknown before
      → IsUnknown (capture ok files p before)
  capture-IsUnknown ok files p before n u = elim (capture-cases ok files p before) [
    | inl (empty, e) ↦ subst IsUnknown (sym e) u
    | inr (inl (c, found, e)) ↦ subst IsUnknown (sym e) u
    | inr (inr (c, b, missing, f, e)) ↦
        subst IsUnknown (sym e) (record_file-IsUnknown p c b before n u)
  ]

  run_agent_stream-IsUnknown :
      (files : Files) (before : Before) (events : List StreamEvent)
      → contains (announced events) path ≡ false
      → IsUnknown before
      → IsUnknown (run_agent_stream files before events).1
  unfolding run_agent_stream contains
  run_agent_stream-IsUnknown files before [] h u = u
  run_agent_stream-IsUnknown files before (calls_write_file p ok ∷ events) h u =
      run_agent_stream-IsUnknown files (capture ok files p before) events (ground arith)
        (capture-IsUnknown ok files p before (ground arith) u)
  run_agent_stream-IsUnknown files before (changes p c ∷ events) h u =
      run_agent_stream-IsUnknown (set_file files p c) before events h u

  snapshot_step-IsUnknown :
      (ok : Bool) (seen : List String) (before : Before) (ds : List (Diagnostic × Bool))
      (o : Option String)
      → is_text o path ≡ false
      → ((seen' : List String) (before' : Before)
          → IsUnknown before'
          → IsUnknown (snapshot_from files₀ seen' before' ds))
      → IsUnknown before
      → IsUnknown (elim o [
        | none ↦ snapshot_from files₀ seen before ds
        | some p ↦
            if not (p == "") && not (contains seen p)
            then elim (read_file ok files₀ p) [
              | none ↦ snapshot_from files₀ (p ∷ seen) before ds
              | some text ↦ snapshot_from files₀ (p ∷ seen) (record_file before p text true) ds
            ]
            else snapshot_from files₀ seen before ds
      ])
  snapshot_step-IsUnknown ok seen before ds none n rest u = rest seen before u
  snapshot_step-IsUnknown ok seen before ds (some p) n rest u =
      if-lift IsUnknown _ _ (snapshot_from files₀ seen before ds)
        (λ _. by_content (read_file ok files₀ p)) (λ _. rest seen before u)
    where
      by_content :
          (c : Option String)
          → IsUnknown (elim c [
            | none ↦ snapshot_from files₀ (p ∷ seen) before ds
            | some text ↦ snapshot_from files₀ (p ∷ seen) (record_file before p text true) ds
          ])
      by_content none = rest (p ∷ seen) before u
      by_content (some text) =
          rest (p ∷ seen) (record_file before p text true)
            (record_file-IsUnknown p text true before n u)

  snapshot_from-IsUnknown :
      (seen : List String) (before : Before) (ds : List (Diagnostic × Bool))
      → All (λ (d : Diagnostic × Bool). is_text d.0.file_path path ≡ false) ds
      → IsUnknown before
      → IsUnknown (snapshot_from files₀ seen before ds)
  unfolding snapshot_from
  snapshot_from-IsUnknown seen before [] n u = u
  snapshot_from-IsUnknown seen before ((d, ok) ∷ ds) (n, ns) u =
      snapshot_step-IsUnknown ok seen before ds d.file_path n
        (λ seen' before' u'. snapshot_from-IsUnknown seen' before' ds ns u') u

-- The rollback is carried out.
abbrev pub IsCarriedOut : RollbackEnv → Type 0
IsCarriedOut env =
    (env.persist_ok ≡ true) × (env.load_ok ≡ true) × ((k : ℕ) → env.write_ok k ≡ true)

module _ (env : RollbackEnv) (path : String) (r : IsCarriedOut env) where
  -- The value that an entry writes; for an unknown path it is none.
  abbrev entry_value : Before → String → Option String
  entry_value before p =
      if existed_at before p then some (env.json_text (content_at before p)) else none

  entry_written :
      (k : ℕ) (before : Before) (p : String) (files : Files)
      → IsPlain p
      → env.json_text p ≡ p
      → (if env.write_ok k
          then set_file files (workspace_path (env.json_text p)) (entry_value before p)
          else files)
        ≡ set_file files p (entry_value before p)
  entry_written k before p files plain j =
      rw (r.2 k)
        (ap (λ (q : String). set_file files q (entry_value before p)) (ap workspace_path j ∙ plain))

  restore_entries_deletes :
      (k : ℕ) (before : Before) (modified : List String) (files : Files)
      → existed_at before path ≡ false
      → All IsPlain modified
      → All (λ p. env.json_text p ≡ p) modified
      → (contains modified path ≡ true) ⊎ (files path ≡ none)
      → restore_entries env k (collect_checkpoint_diffs modified before) files path ≡ none
  unfolding restore_entries collect_checkpoint_diffs contains
  restore_entries_deletes k before [] files u pl js (inl m) = cc
  restore_entries_deletes k before [] files u pl js (inr gone) = gone
  restore_entries_deletes k before (p ∷ modified) files u (plain, pl) (j, js) h =
      ap
        (λ (fs : Files).
          restore_entries env (suc k) (collect_checkpoint_diffs modified before) fs path)
        (entry_written k before p files plain j)
      ∙ restore_entries_deletes (suc k) before modified (set_file files p (entry_value before p)) u
          pl js
          (elim (Bool-cases (p == path)) [
            | inl e ↦ inr (
                subst (λ x. set_file files x (entry_value before x) path ≡ none)
                  (sym (==→≡ p path e))
                  (set_file_here files path (entry_value before path) ∙ rw u refl))
            | inr n ↦ elim h [
              | inl m ↦ inl (ground arith)
              | inr gone ↦ inr (set_file-other files p path (entry_value before p) n ∙ gone)
            ]
          ])

-- A file that the agent reports as modified, among others perhaps, without having announced it, and
-- that no diagnostic names, is deleted by the rollback, whatever it held before the attempt. The
-- rollback is carried out: its checkpoint is stored and loaded, and its writes and deletions succeed;
-- the reported paths do not begin with a slash, and are UTF-8, which JSON does not change.
pub attempt_then_rollback_deletes :
    (env : RollbackEnv) (files : Files) (ds : List (Diagnostic × Bool)) (events : List StreamEvent)
    (modified : List String) (path : String)
    → IsCarriedOut env
    → All IsPlain modified
    → All (λ p. env.json_text p ≡ p) modified
    → All (λ (d : Diagnostic × Bool). is_text d.0.file_path path ≡ false) ds
    → contains (announced events) path ≡ false
    → contains modified path ≡ true
    → attempt_then_rollback env files ds events modified path ≡ none
unfolding attempt_then_rollback snapshot_before_content rollback_from_checkpoint existed_at lookup
attempt_then_rollback_deletes env files ds events modified path r pl js n h m =
    rw (r.0, r.1)
      (restore_entries_deletes env path r 0 after.1 modified after.0
        (run_agent_stream-IsUnknown files path files before events h
          (snapshot_from-IsUnknown files path [] (record { content = []; existed = [] }) ds n refl))
        pl js (inl m))
  where
    before : Before
    before = snapshot_before_content files ds

    after : Files × Before
    after = run_agent_stream files before events

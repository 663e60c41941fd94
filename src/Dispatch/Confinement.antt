-- ===== src/Dispatch/Confinement.antt =====
-- Which files a tool call can change.
use forge_engine.Prelude.{
  utf8, contains, ◌≡◌, ◌≢◌, refl, sym, subst, ap, ◌∙◌, ◌⊎◌, inl, inr, String, true, false, ◌&&◌,
  ◌||◌, not, Option, none, some, [], ◌==◌, ==→≡, if-lift, Bool-cases, Bytes, bytes, bytes_eq,
  bytes_eq→≡, bytes_eq_self, contains_sub, nat_eq,
}
use forge_engine.Json.{str, field, end, get, str_or_empty}
use forge_engine.Execution.Policy.{Denial, validate, phase7_policy, validate_allows}
use forge_engine.Dispatch.Events.{ExecutionEvent}
use forge_engine.Dispatch.Result.{ToolResult}
use forge_engine.Dispatch.Tools.{
  ToolCall, ToolEnv, State, Files, CodeDiff, text_arg, path_arg, abs_path, set_path, write_file,
  create_file, delete_file, rename_file, store, read_tool, write_tool, create_tool, delete_tool,
  rename_tool, query_tool, is_query, dispatch_tool,
}
use forge_engine.Dispatch.{
  Response, bad_request, cached, denied, policy_path, cached_event, execute_call, tool_dispatch,
}

-- At most the file at one path is another one.
abbrev Differ : Bytes → Files → Files → Type 0
Differ path files files' = (q : Bytes) → (files' q ≡ files q) ⊎ (q ≡ path)

set_path-Differ :
    (files : Files) (path : Bytes) (o : Option Bytes) → Differ path files (set_path files path o)
set_path-Differ files path o q = elim (Bool-cases (bytes_eq path q)) [
  | inl e ↦ inr (sym (bytes_eq→≡ path q e))
  | inr n ↦ inl (rw n refl)
]

-- The new files, if there are any.
abbrev AllowsFiles : Bytes → Files → Option Files → Type 0
AllowsFiles path files none = Unit
AllowsFiles path files (some files') = Differ path files files'

store-Differ :
    (env : ToolEnv) (call : ToolCall) (d : CodeDiff) (r : ToolResult) (st : State)
    (o : Option Files) (path : Bytes)
    → AllowsFiles path st.files o
    → Differ path st.files (store env call d r st o).0.files
store-Differ env call d r st none path a = λ q. inl refl
store-Differ env call d r st (some files) path a =
    if-lift (λ (s : State). Differ path st.files s.files) (not (call.exec_id == "") && env.diff_ok)
      _ _ (λ _. a) (λ _. a)

write_file-AllowsFiles :
    (env : ToolEnv) (path text : Bytes) (files : Files)
    → AllowsFiles (abs_path path) files (write_file env path text files)
unfolding write_file
write_file-AllowsFiles env path text files =
    if-lift (AllowsFiles (abs_path path) files) (env.workspace_ok && env.write_ok) _ none
      (λ _. set_path-Differ files (abs_path path) (some text)) (λ _. tt)

create_file-AllowsFiles :
    (env : ToolEnv) (path text : Bytes) (files : Files)
    → AllowsFiles (abs_path path) files (create_file env path text files)
unfolding create_file
create_file-AllowsFiles env path text files =
    if-lift (AllowsFiles (abs_path path) files) (env.workspace_ok && env.mkdir_ok) _ none
      (λ _. write_file-AllowsFiles env path text files) (λ _. tt)

delete_file-AllowsFiles :
    (env : ToolEnv) (path : Bytes) (files : Files)
    → AllowsFiles (abs_path path) files (delete_file env path files)
unfolding delete_file
delete_file-AllowsFiles env path files =
    if-lift (AllowsFiles (abs_path path) files) (env.workspace_ok && env.rm_ok) _ none
      (λ _. set_path-Differ files (abs_path path) none) (λ _. tt)

dispatch_tool-Differ :
    (env : ToolEnv) (call : ToolCall) (st : State)
    → (call.tool == "rename_file") ≡ false
    → Differ (abs_path (path_arg call)) st.files (dispatch_tool env call st).0.files
unfolding dispatch_tool write_tool create_tool delete_tool
dispatch_tool-Differ env call st other =
    if-lift D (call.tool == "read_file") (read_tool env call st) _ (λ _. same)
      (λ _.
        if-lift D (call.tool == "write_file") (write_tool env call st) _
          (λ _.
            store-Differ env call _ _ st _ _
              (write_file-AllowsFiles env (path_arg call) _ st.files))
          (λ _.
            if-lift D (call.tool == "create_file") (create_tool env call st) _
              (λ _.
                store-Differ env call _ _ st _ _
                  (create_file-AllowsFiles env (path_arg call) _ st.files))
              (λ _.
                if-lift D (call.tool == "delete_file") (delete_tool env call st) _
                  (λ _.
                    store-Differ env call _ _ st _ _
                      (delete_file-AllowsFiles env (path_arg call) st.files))
                  (λ _.
                    if-lift D (call.tool == "rename_file") (rename_tool env call st) _
                      (λ y. absurd (cc (y, other)))
                      (λ _.
                        if-lift D (is_query call.tool) (query_tool env st) (st, none) (λ _. same)
                          (λ _. same))))))
  where
    D : State × Option ToolResult → Type 0
    D r = Differ (abs_path (path_arg call)) st.files r.0.files

    same : Differ (abs_path (path_arg call)) st.files st.files
    same q = inl refl

execute_call-files :
    (env : ToolEnv) (call : ToolCall) (st : State)
    → (execute_call env call st).0.files ≡ (dispatch_tool env call st).0.files
unfolding execute_call
execute_call-files env call st =
    if-lift (λ (s : State). s.files ≡ (dispatch_tool env call st).0.files) (call.exec_id == "") _ _
      (λ _. refl) (λ _. refl)

abs_path-ne : (path : Bytes) → abs_path path ≢ []
unfolding abs_path
abs_path-ne path e = cc

no_path : contains_sub (abs_path (utf8 "")) (bytes "..") ≡ false
unfolding contains_sub abs_path utf8
no_path = refl

-- A path that the policy lets through has no "..", once it is made absolute.
policy_clean :
    (call : ToolCall)
    → validate phase7_policy call.tool (policy_path call) ≡ none
    → contains_sub (abs_path (path_arg call)) (bytes "..") ≡ false
unfolding text_arg
policy_clean call h = elim (Bool-cases (str_or_empty (get "path" call.args) == "")) [
  | inl empty ↦
      subst (λ (s : String). contains_sub (abs_path (utf8 s)) (bytes "..") ≡ false)
        (sym (==→≡ (str_or_empty (get "path" call.args)) "" empty)) no_path
  | inr named ↦ elim (((validate_allows call.tool (policy_path call)).0 h).1) [
    | inl nothing ↦ absurd (abs_path-ne (path_arg call) (sym (path_named named) ∙ nothing))
    | inr ok ↦ subst (λ p. contains_sub p (bytes "..") ≡ false) (path_named named) ok.1
  ]
]
  where
    path_named :
        (str_or_empty (get "path" call.args) == "") ≡ false
        → policy_path call ≡ abs_path (path_arg call)
    path_named n = rw n refl

-- What a step of the dispatch does to the files.
abbrev Confines : ToolCall → State → State × Response → Type 0
Confines call st r =
    (q : Bytes)
    → (r.0.files q ≡ st.files q)
      ⊎ ((q ≡ abs_path (path_arg call)) × (contains_sub q (bytes "..") ≡ false))

-- A tool call other than rename_file changes at most the file at its own path under /workspace/, and
-- that path has no "..", whatever the driver and the database answer.
pub tool_dispatch-Confines :
    (env : ToolEnv) (call : ToolCall) (st : State)
    → (call.tool == "rename_file") ≡ false
    → (q : Bytes)
    → ((tool_dispatch env call st).0.files q ≡ st.files q)
      ⊎ ((q ≡ abs_path (path_arg call)) × (contains_sub q (bytes "..") ≡ false))
unfolding tool_dispatch
tool_dispatch-Confines env call st other =
    if-lift (Confines call st) (call.tool == "" || not (nat_eq call.version 1)) (st, bad_request) _
      (λ _ q. inl refl) (λ _. by_cache (cached_event env.lookup_ok call st.events))
  where
    executed :
        validate phase7_policy call.tool (policy_path call) ≡ none
        → Confines call st (execute_call env call st)
    executed h q = elim (dispatch_tool-Differ env call st other q) [
      | inl e ↦ inl (ap (λ files. files q) (execute_call-files env call st) ∙ e)
      | inr e ↦
          inr (e, subst (λ p. contains_sub p (bytes "..") ≡ false) (sym e) (policy_clean call h))
    ]

    by_policy :
        (o : Option Denial)
        → validate phase7_policy call.tool (policy_path call) ≡ o
        → Confines call st (elim o [ some d ↦ (st, denied d) | none ↦ execute_call env call st ])
    by_policy (some d) h = λ q. inl refl
    by_policy none h = executed h

    by_cache :
        (o : Option ExecutionEvent)
        → Confines call st (elim o [
          | some e ↦ (st, cached e)
          | none ↦ elim (validate phase7_policy call.tool (policy_path call)) [
            | some d ↦ (st, denied d)
            | none ↦ execute_call env call st
          ]
        ])
    by_cache (some e) = λ q. inl refl
    by_cache none = by_policy (validate phase7_policy call.tool (policy_path call)) refl

-- A call of rename_file as the agent sends it.
abbrev pub rename_call : String → String → String → String → ToolCall
rename_call old new id exec = record {
  version = 1;
  tool = "rename_file";
  args = field "old_path" (str old) (field "new_path" (str new) end);
  tool_call_id = id;
  exec_id = exec;
}

-- The new path has the text, and the old one no file.
abbrev pub IsMoved : String → String → Bytes → Files → Type 0
IsMoved old new text files =
    (files (abs_path (utf8 new)) ≡ some text) × (files (abs_path (utf8 old)) ≡ none)

rename_tool-files :
    (env : ToolEnv) (old new id exec : String) (text : Bytes) (st : State)
    → env.workspace_ok ≡ true
    → env.mkdir_ok ≡ true
    → env.mv_ok ≡ true
    → st.files (abs_path (utf8 old)) ≡ some text
    → (abs_path (utf8 new)) ≢ (abs_path (utf8 old))
    → IsMoved old new text (rename_tool env (rename_call old new id exec) st).0.files
unfolding rename_tool text_arg get str_or_empty rename_file
rename_tool-files env old new id exec text st w m v found apart =
    rw (w, m, v, found)
      (if-lift (λ (s : State). IsMoved old new text s.files) (not (exec == "") && env.diff_ok) _ _
        (λ _. moved) (λ _. moved))
  where
    moved :
        IsMoved old new text (
          set_path (set_path st.files (abs_path (utf8 old)) none) (abs_path (utf8 new)) (some text))
    moved = (
      rw (bytes_eq_self (abs_path (utf8 new))) refl,
      elim (Bool-cases (bytes_eq (abs_path (utf8 new)) (abs_path (utf8 old)))) [
        | inl y ↦ absurd (apart (bytes_eq→≡ _ _ y))
        | inr n ↦ rw n (rw (bytes_eq_self (abs_path (utf8 old))) refl)
      ],
    )

-- The policy is not asked about the paths of rename_file: whatever two distinct paths it is given,
-- ".." included, the file at the one is moved to the other, if the workspace does what it is asked
-- and no event is cached for the call.
pub rename_unchecked :
    (env : ToolEnv) (old new id exec : String) (text : Bytes) (st : State)
    → cached_event env.lookup_ok (rename_call old new id exec) st.events ≡ none
    → env.workspace_ok ≡ true
    → env.mkdir_ok ≡ true
    → env.mv_ok ≡ true
    → st.files (abs_path (utf8 old)) ≡ some text
    → abs_path (utf8 new) ≢ abs_path (utf8 old)
    → IsMoved old new text (tool_dispatch env (rename_call old new id exec) st).0.files
unfolding tool_dispatch validate get str_or_empty contains
rename_unchecked env old new id exec text st fresh w m v found apart = rw fresh (
    subst (IsMoved old new text) (sym (execute_call-files env (rename_call old new id exec) st))
      (rename_tool-files env old new id exec text st w m v found apart))

-- ===== src/Execution/Policy.antt =====
-- backend/internal/execution/policy.go: which tool calls of the agent are let through. Paths are
-- lists of bytes.
use forge_engine.Prelude.{
  ◌≡◌, ◌↔◌, refl, String, Bool, true, false, ◌||◌, not, Option, none, some, List, [], ◌∷◌, arith,
  ◌⊎◌, inl, inr, if◌then◌else◌, contains, Bytes, bytes, has_prefix, contains_sub, ℕ, nat_eq,
}

pub record ExecutionPolicy : Type 0 where
  pub allowed_tools : List String
  pub blocked_path_prefixes : List Bytes

pub data Denial : Type 0 where
  not_permitted outside_workspace blocked_directory path_traversal : Denial

unfoldable pub some_blocked : Bytes → List Bytes → Bool
unfolding has_prefix
some_blocked path [] = false
some_blocked path (b ∷ bs) = has_prefix path b || some_blocked path bs

-- The checks of a path that is not empty.
unfoldable pub validate_path : ExecutionPolicy → Bytes → Option Denial
unfolding has_prefix some_blocked contains_sub
validate_path p path =
    if not (has_prefix path (bytes "/workspace"))
    then some outside_workspace
    else if some_blocked path p.blocked_path_prefixes
    then some blocked_directory
    else if contains_sub path (bytes "..")
    then some path_traversal
    else none

-- `Validate`; `none` is no error.
unfoldable pub validate : ExecutionPolicy → String → Bytes → Option Denial
unfolding contains validate_path
validate p tool path =
    if not (contains p.allowed_tools tool)
    then some not_permitted
    else elim path [ [] ↦ none | c ∷ cs ↦ validate_path p (c ∷ cs) ]

abbrev pub phase7_policy : ExecutionPolicy
phase7_policy = record {
  allowed_tools =
      "read_file" ∷ "write_file" ∷ "create_file" ∷ "delete_file" ∷ "rename_file" ∷ "list_dir"
      ∷ "search_symbol" ∷ "exists" ∷ "stat" ∷ [];
  blocked_path_prefixes =
      bytes "/etc"
      ∷ bytes "/root"
      ∷ bytes "/proc"
      ∷ bytes "/sys"
      ∷ bytes "/bin"
      ∷ bytes "/sbin"
      ∷ bytes "/usr/bin"
      ∷ [];
}

second_byte :
    (path : Bytes) (p : ℕ) (ps : Bytes)
    → has_prefix path (bytes "/workspace") ≡ true
    → nat_eq 119 p ≡ false
    → has_prefix path (47 ∷ p ∷ ps) ≡ false
unfolding has_prefix
second_byte [] p ps h n = cc
second_byte (a ∷ []) p ps h n = ground arith
second_byte (a ∷ b ∷ path) p ps h n = ground arith

-- No path under the workspace begins with one of the blocked prefixes.
blocked_never :
    (path : Bytes)
    → has_prefix path (bytes "/workspace") ≡ true
    → some_blocked path phase7_policy.blocked_path_prefixes ≡ false
unfolding some_blocked
blocked_never path h =
    rw
      (
        second_byte path 101 (bytes "tc") h refl,
        second_byte path 114 (bytes "oot") h refl,
        second_byte path 112 (bytes "roc") h refl,
        second_byte path 115 (bytes "ys") h refl,
        second_byte path 98 (bytes "in") h refl,
        second_byte path 115 (bytes "bin") h refl,
        second_byte path 117 (bytes "sr/bin") h refl,
      )
      refl

path_tests :
    (w b t : Bool)
    → (w ≡ true → b ≡ false)
    → ((if not w
          then some outside_workspace
          else if b
          then some blocked_directory
          else if t
          then some path_traversal
          else none)
        ≡ none)
      ↔ ((w ≡ true) × (t ≡ false))
path_tests true true t n = absurd (cc (n refl))
path_tests true false true n = ((λ e. cc), (λ (e, f). cc))
path_tests true false false n = ((λ e. (refl, refl)), (λ h. refl))
path_tests false b t n = ((λ e. cc), (λ (e, f). cc))

tool_test :
    (c : Bool) (o : Option Denial)
    → ((if not c then some not_permitted else o) ≡ none) ↔ ((c ≡ true) × (o ≡ none))
tool_test true o = ((λ e. (refl, e)), (λ (c, e). e))
tool_test false o = ((λ e. cc), (λ (c, e). cc))

phase7_path :
    (path : Bytes)
    → (validate_path phase7_policy path ≡ none)
      ↔ ((has_prefix path (bytes "/workspace") ≡ true) × (contains_sub path (bytes "..") ≡ false))
unfolding validate_path
phase7_path path =
    path_tests (has_prefix path (bytes "/workspace"))
      (some_blocked path phase7_policy.blocked_path_prefixes) (contains_sub path (bytes ".."))
      (blocked_never path)

-- The default policy lets a call through exactly when the tool is listed and the path is empty, or
-- begins with "/workspace" and has no "..": the blocked directories decide nothing, and a sibling
-- directory whose name begins with "workspace" is let through too.
pub validate_allows :
    (tool : String) (path : Bytes)
    → (validate phase7_policy tool path ≡ none) ↔ (
        (contains phase7_policy.allowed_tools tool ≡ true)
        × ((path ≡ [])
            ⊎ ((has_prefix path (bytes "/workspace") ≡ true)
                × (contains_sub path (bytes "..") ≡ false))))
unfolding validate
validate_allows tool [] =
    let (there, back) = tool_test (contains phase7_policy.allowed_tools tool) none in
    ((λ h. ((there h).0, inl refl)), (λ (listed, _). back (listed, refl)))
validate_allows tool (c ∷ cs) =
    let (there, back) =
      tool_test (contains phase7_policy.allowed_tools tool)
        (validate_path phase7_policy (c ∷ cs)) in
    let (path_there, path_back) = phase7_path (c ∷ cs) in
    (
      (λ h. ((there h).0, inr (path_there (there h).1))),
      (λ (listed, fine). elim fine [ inl e ↦ cc | inr ok ↦ back (listed, path_back ok) ]),
    )

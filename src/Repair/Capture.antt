-- ===== src/Repair/Capture.antt =====
-- What the maps of a checkpoint record of the files before the attempt.
use forge_engine.Prelude.{
  ◌≡◌, refl, sym, ap, subst, ◌∙◌, String, Bool, true, false, none, some, if◌then◌else◌, ◌==◌,
  ==_self, ==→≡, lookup, Bool-cases, Option-cases, ◌⊎◌, inl, inr,
}
use forge_engine.Repair.Checkpoint.{
  Files, Before, content_at, existed_at, record_file, capture, workspace_path, read_file,
}

-- The path was read before, and the two maps agree on what was there.
abbrev pub IsCaptured : Files → Before → String → Type 0
IsCaptured original before path =
    ((c : String) × (lookup path before.content ≡ some c))
    × ((if existed_at before path then some (content_at before path) else none) ≡ original path)

-- The path leads where it says: it does not begin with a slash.
abbrev pub IsPlain : String → Type 0
IsPlain path = workspace_path path ≡ path

-- Until a path is captured, it is as it was; a captured one is recorded as it was.
abbrev pub IsTracking : Files → Files → Before → Type 0
IsTracking original files before =
    (q : String)
    → IsPlain q
    → (IsCaptured original before q)
      ⊎ ((lookup q before.content ≡ none) × (existed_at before q ≡ false) × (files q ≡ original q))

pub record_file-IsCaptured :
    (original : Files) (before : Before) (path c : String) (b : Bool)
    → (if b then some c else none) ≡ original path
    → IsCaptured original (record_file before path c b) path
unfolding lookup existed_at content_at
record_file-IsCaptured original before path c b h =
    rw (==_self path, existed_at, content_at) ((c, refl), h)

record_file-other :
    (original : Files) (before : Before) (path c q : String) (b : Bool)
    → (path == q) ≡ false
    → IsCaptured original before q
    → IsCaptured original (record_file before path c b) q
unfolding lookup existed_at content_at
record_file-other original before path c q b n h = rw (n, existed_at, content_at) h

pub record_file-IsTracking :
    (original files : Files) (before : Before) (path c : String) (b : Bool)
    → (IsPlain path → (if b then some c else none) ≡ original path)
    → IsTracking original files before
    → IsTracking original files (record_file before path c b)
unfolding lookup existed_at content_at
record_file-IsTracking original files before path c b h t q plain = elim (Bool-cases (path == q)) [
  | inl e ↦ inl (
      subst (λ x. IsCaptured original (record_file before path c b) x) (==→≡ path q e)
        (record_file-IsCaptured original before path c b
          (h (subst IsPlain (sym (==→≡ path q e)) plain))))
  | inr n ↦ rw (n, existed_at, content_at) (t q plain)
]

pub capture-cases :
    (ok : Bool) (files : Files) (path : String) (before : Before)
    → (((path == "") ≡ true) × (capture ok files path before ≡ before))
      ⊎ ((c : String) × (lookup path before.content ≡ some c)
          × (capture ok files path before ≡ before))
      ⊎ ((c : String) × (b : Bool) × (lookup path before.content ≡ none)
          × ((if b then some c else none) ≡ read_file ok files path)
          × (capture ok files path before ≡ record_file before path c b))
unfolding capture
capture-cases ok files path before = elim (Bool-cases (path == "")) [
  | inl e ↦ inl (e, rw e refl)
  | inr n ↦ elim (Option-cases (lookup path before.content)) [
    | inr (c, e) ↦ inr (inl (c, e, rw (n, e) refl))
    | inl e ↦ elim (Option-cases (read_file ok files path)) [
      | inr (text, f) ↦ inr (inr (text, true, e, sym f, rw (n, e, f) refl))
      | inl f ↦ inr (inr ("", false, e, sym f, rw (n, e, f) refl))
    ]
  ]
]

-- What a capture of the path makes of the maps.
abbrev pub Captures : Files → Files → String → Before → Before → Type 0
Captures original files path before after =
    IsTracking original files after
    × ((q : String) → IsCaptured original before q → IsCaptured original after q)
    × ((path == "") ≡ false → IsCaptured original after path)

pub record_file-Captures :
    (original files : Files) (path c : String) (b : Bool) (before : Before)
    → (if b then some c else none) ≡ original path
    → IsTracking original files before
    → Captures original files path before (record_file before path c b)
record_file-Captures original files path c b before h t = (
  record_file-IsTracking original files before path c b (λ _. h) t,
  (λ q k. elim (Bool-cases (path == q)) [
    | inl e ↦
        subst (λ x. IsCaptured original (record_file before path c b) x) (==→≡ path q e)
          (record_file-IsCaptured original before path c b h)
    | inr n ↦ record_file-other original before path c q b n k
  ]),
  (λ _. record_file-IsCaptured original before path c b h),
)

pub capture-Captures :
    (original files : Files) (path : String) (before : Before)
    → IsPlain path
    → IsTracking original files before
    → Captures original files path before (capture true files path before)
capture-Captures original files path before plain t = elim (capture-cases true files path before) [
  | inl (empty, e) ↦
      subst (Captures original files path before) (sym e) (t, (λ q h. h), (λ n. cc (empty, n)))
  | inr (inl (c, found, e)) ↦
      subst (Captures original files path before) (sym e) (t, (λ q h. h), (λ _. here c found))
  | inr (inr (c, b, missing, f, e)) ↦ subst (Captures original files path before) (sym e) (
      record_file-Captures original files path c b before (f ∙ ap files plain ∙ untouched missing)
        t)
]
  where
    here : (c : String) → lookup path before.content ≡ some c → IsCaptured original before path
    here c e = elim (t path plain) [ inl h ↦ h | inr h ↦ absurd (cc (h.0, e)) ]

    untouched : lookup path before.content ≡ none → files path ≡ original path
    untouched e = elim (t path plain) [ inl h ↦ absurd (cc (h.0.1, e)) | inr h ↦ h.2 ]

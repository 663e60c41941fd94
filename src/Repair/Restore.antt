-- ===== src/Repair/Restore.antt =====
-- The rollback of an attempt restores the files as they were before the attempt.
use forge_engine.Prelude.{
  ◌≡◌, ℕ, refl, String, true, false, Option, some, List, [], ◌∷◌, ◌==◌, ==_self, contains,
}
use forge_engine.Repair.Checkpoint.{
  Files, set_file, RollbackEnv, StreamEvent, calls_write_file, changes,
}
use forge_engine.Repair.Capture.{IsPlain}

-- The paths that the stream announces with `write_file`, and those that it changes.
abbrev pub announced : List StreamEvent → List String
announced [] = []
announced (calls_write_file path ok ∷ events) = path ∷ announced events
announced (changes path content ∷ events) = announced events

abbrev pub changed : List StreamEvent → List String
changed [] = []
changed (calls_write_file path ok ∷ events) = changed events
changed (changes path content ∷ events) = path ∷ changed events

-- Every change comes after the call that announces it, from the announced paths on; an announced
-- path does not begin with a slash, and its read is answered.
abbrev pub AnnouncesChanges : List String → List StreamEvent → Type 0
AnnouncesChanges seen [] = Unit
AnnouncesChanges seen (calls_write_file path ok ∷ events) =
    ((path == "") ≡ false) × IsPlain path × (ok ≡ true) × AnnouncesChanges (path ∷ seen) events
AnnouncesChanges seen (changes path content ∷ events) =
    (contains seen path ≡ true) × AnnouncesChanges seen events

pub set_file-other :
    (files : Files) (path q : String) (c : Option String)
    → (path == q) ≡ false
    → set_file files path c q ≡ files q
unfolding set_file
set_file-other files path q c n = rw n refl

pub set_file_here :
    (files : Files) (path : String) (c : Option String) → set_file files path c path ≡ c
unfolding set_file
set_file_here files path c = rw (==_self path) refl

-- What the rollback relies on.
abbrev pub IsReliable : RollbackEnv → Files → Type 0
IsReliable env files =
    (env.persist_ok ≡ true)
    × (env.load_ok ≡ true)
    × ((k : ℕ) → env.write_ok k ≡ true)
    × ((p c : String) → files p ≡ some c → env.json_text c ≡ c)

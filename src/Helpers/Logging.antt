-- ===== src/Helpers/Logging.antt =====
-- The `init` of server/helpers/logger.go. The file system and the logging library (beego) are
-- parameters.
use fabric_byzantine.Base.{
  ◌≡◌, ◌≢◌, ◌⊎◌, inl, inr, Option-cases, refl, ap, String, Bool, true, false, Option, none, some,
  str_eq, if◌then◌else◌,
}
use fabric_byzantine.Int.{ℤ, pos}
use fabric_byzantine.Flow.{Flow, go, crash, Body, ◌>>◌, Outcome, ok, err}
use fabric_byzantine.Helpers.{Application}

-- `os.Stat` says whether a path is a directory, or fails. `os.MkdirAll`, and `ioutil.WriteFile` of
-- no bytes, give an error or nothing. `join` is `filepath.Join`.
pub record Disk : Type 1 where
  pub State : Type 0
  pub join : String → String → String
  pub stat : String → State → Option Bool
  pub mkdir_all : String → State → Outcome String (Unit {0}) × State
  pub write_empty : String → State → Outcome String (Unit {0}) × State

pub data Adapter : Type 0 where
  console : Adapter
  file : Adapter

pub record LogConfig : Type 0 where
  pub filename : String
  pub level : ℤ

-- `NewLogger`, `SetLogger`, `EnableFuncCallDepth` and `SetLogFuncCallDepth`. The JSON text that
-- SetLogger takes stands as the values in it.
pub record Logs : Type 1 where
  pub Logger : Type 0
  pub new_logger : Logger
  pub set_logger : Adapter → LogConfig → Logger → Outcome String (Unit {0}) × Logger
  pub enable_func_call_depth : Bool → Logger → Logger
  pub set_log_func_call_depth : ℤ → Logger → Logger

abbrev pub log_dir : Application → String
log_dir conf = if str_eq conf.log_path "" then "logs" else conf.log_path

-- `panic` on an error.
abbrev or_panic : {S R : Type 0} → Outcome String (Unit {0}) × S → Flow R (Unit {0}) × S
or_panic (ok tt, s) = (go tt, s)
or_panic (err e, s) = (crash, s)

stat-cases : (o : Option Bool) → (o ≡ none) ⊎ ((o ≡ some true) ⊎ (o ≡ some false))
stat-cases none = inl refl
stat-cases (some true) = inr (inl refl)
stat-cases (some false) = inr (inr refl)

module _ (disk : Disk) (logs : Logs) where
  -- A path that is there and is no directory ends in a panic, and so does a refusal of the disk.
  unfoldable pub ensure_dir : String → Body disk.State (Unit {0}) (Unit {0})
  ensure_dir path s = elim (disk.stat path s) [
    | some true ↦ (go tt, s)
    | some false ↦ (crash, s)
    | none ↦ or_panic (disk.mkdir_all path s)
  ]

  unfoldable pub ensure_file : String → Body disk.State (Unit {0}) (Unit {0})
  ensure_file path s = elim (disk.stat path s) [
    | some _ ↦ (go tt, s)
    | none ↦ or_panic (disk.write_empty path s)
  ]

  abbrev with_depth :
      Outcome String (Unit {0}) × logs.Logger → Body disk.State (Unit {0}) logs.Logger
  with_depth (err e, l) s = (crash, s)
  with_depth (ok tt, l) s =
      (go (logs.set_log_func_call_depth (pos 4) (logs.enable_func_call_depth true l)), s)

  -- The error of the console's adapter is overwritten by that of the file's.
  unfoldable pub set_up : LogConfig → Body disk.State (Unit {0}) logs.Logger
  set_up config s =
      let (console_error, l) = logs.set_logger console config logs.new_logger in
      with_depth (logs.set_logger file config l) s

  -- The test for a nil configuration has no counterpart, since appconf.go always makes one.
  unfoldable pub init_logger : Application → Body disk.State (Unit {0}) logs.Logger
  init_logger conf = do
    ensure_dir (log_dir conf)
    ensure_file (disk.join (log_dir conf) "logagent.log")
    set_up (record { filename = disk.join (log_dir conf) "logagent.log"; level = conf.log_level })

  -- What a disk with room promises that gives leave to write.
  pub record IsDisk : Type 0 where
    pub made :
        (p : String) (s : disk.State)
        → disk.stat p s ≡ none
        → (s' : disk.State) × (disk.mkdir_all p s ≡ (ok tt, s')) × (disk.stat p s' ≡ some true)
    pub written :
        (dir name : String) (s : disk.State)
        → disk.stat dir s ≡ some true
        → disk.stat (disk.join dir name) s ≡ none
        → (s' : disk.State) × (disk.write_empty (disk.join dir name) s ≡ (ok tt, s'))
          × (disk.stat (disk.join dir name) s' ≡ some false)
          × (disk.stat dir s' ≡ some true)

  -- The logging library takes the file that it is given.
  abbrev pub TakesFile : Type 0
  TakesFile =
      (c : LogConfig) (l : logs.Logger)
      → (l' : logs.Logger) × (logs.set_logger file c l ≡ (ok tt, l'))

  ensure_dir_made :
      (p : String) (s : disk.State)
      → IsDisk
      → disk.stat p s ≢ some false
      → (s' : disk.State) × (ensure_dir p s ≡ (go tt, s')) × (disk.stat p s' ≡ some true)
  unfolding ensure_dir
  ensure_dir_made p s h no_file = elim (stat-cases (disk.stat p s)) [
    | inl absent ↦
        let (s', done, there) = h.made p s absent in
        (s', rw (absent, ensure_dir) (ap or_panic done), there)
    | inr (inl there) ↦ (s, rw (there, ensure_dir) refl, there)
    | inr (inr is_file) ↦ absurd (no_file is_file)
  ]

  ensure_dir_there :
      (p : String) (s : disk.State) → disk.stat p s ≡ some true → ensure_dir p s ≡ (go tt, s)
  unfolding ensure_dir
  ensure_dir_there p s there = rw (there, ensure_dir) refl

  ensure_file_there :
      (p : String) (b : Bool) (s : disk.State)
      → disk.stat p s ≡ some b
      → ensure_file p s ≡ (go tt, s)
  unfolding ensure_file
  ensure_file_there p b s there = rw (there, ensure_file) refl

  ensure_file_made :
      (dir name : String) (s : disk.State)
      → IsDisk
      → disk.stat dir s ≡ some true
      → (s' : disk.State) × (b : Bool) × (ensure_file (disk.join dir name) s ≡ (go tt, s'))
        × (disk.stat (disk.join dir name) s' ≡ some b)
        × (disk.stat dir s' ≡ some true)
  unfolding ensure_file
  ensure_file_made dir name s h in_dir = elim (Option-cases (disk.stat (disk.join dir name) s)) [
    | inl absent ↦
        let (s', done, there, still) = h.written dir name s in_dir absent in
        (s', false, rw (absent, ensure_file) (ap or_panic done), there, still)
    | inr (b, there) ↦ (s, b, rw (there, ensure_file) refl, there, in_dir)
  ]

  set_up_done :
      (c : LogConfig) → TakesFile → (l : logs.Logger) × ((s : disk.State) → set_up c s ≡ (go l, s))
  unfolding set_up
  set_up_done c takes =
      let (l, taken) = takes c (logs.set_logger console c logs.new_logger).1 in
      (
        logs.set_log_func_call_depth (pos 4) (logs.enable_func_call_depth true l),
        λ s. ap (λ r. with_depth r s) taken,
      )

  -- On a disk with room that gives leave to write, where the path for the logs is not that of
  -- another file, and with a logging library that takes the file: the start of the logger meets no
  -- panic, the directory and the log file are there after it, and a further start finds both, has
  -- the same logger and leaves the disk alone.
  init_logger_again :
      (conf : Application) (s : disk.State)
      → IsDisk
      → TakesFile
      → disk.stat (log_dir conf) s ≢ some false
      → (l : logs.Logger) × (s' : disk.State) × (b : Bool) × (init_logger conf s ≡ (go l, s'))
        × (disk.stat (log_dir conf) s' ≡ some true)
        × (disk.stat (disk.join (log_dir conf) "logagent.log") s' ≡ some b)
        × (init_logger conf s' ≡ (go l, s'))
  unfolding init_logger
  init_logger_again conf s h takes no_file =
      let dir = log_dir conf in
      let (s₁, first, in_dir) = ensure_dir_made dir s h no_file in
      let (s₂, b, second, there, still) = ensure_file_made dir "logagent.log" s₁ h in_dir in
      let (l, ready) =
        set_up_done (record { filename = disk.join dir "logagent.log"; level = conf.log_level })
          takes in
      (
        l,
        s₂,
        b,
        rw (first, second, ready s₂) refl,
        still,
        there,
        rw
            (
              ensure_dir_there dir s₂ still,
              ensure_file_there (disk.join dir "logagent.log") b s₂ there,
              ready s₂,
            )
            refl,
      )

-- ===== src/Logger/Promise.antt =====
-- What calls of loggers, common/Logger.cpp, promise: the lines, and the file that each goes to.
use protokol_javni_prevoz.Prelude.{
  ℕ, ◌+◌, ◌≡◌, Bool, false, Option, none, some, List, [], ◌∷◌, ◌++◌, ltb, if◌then◌else◌,
}
use protokol_javni_prevoz.Text.{Str, eq_str}
use protokol_javni_prevoz.StdMap.{StdMap, find}
use protokol_javni_prevoz.Logger.{
  LogLevel, rank, Logger, new, Logging, content, initialize, initialize_named, set_log_level,
  set_level_named, format_message, log_named,
}

abbrev pub or_new : Str → Option Logger → Logger
or_new name none = new name
or_new name (some logger) = logger

-- A logger that is not there yet is as it is made.
abbrev pub logger_of : StdMap Logger → Str → Logger
logger_of loggers name = or_new name (find name loggers)

pub data Call : Type 0 where
  write : Str → LogLevel → Str → Call
  configure : Str → Bool → Str → LogLevel → Call
  set_level : Str → LogLevel → Call

-- The loggers, as a function, after a call.
abbrev pub configured : (Str → Logger) → Str → Logger → Str → Logger
configured g name logger other = if eq_str other name then logger else g other

-- A line, and the file that it goes to.
abbrev pub Entry : Type 0
Entry = Option Str × Str

abbrev pub on_console : List Entry → List Str
on_console [] = []
on_console (e ∷ es) = e.1 ∷ on_console es

abbrev pub goes_to : Str → Option Str → Bool
goes_to file none = false
goes_to file (some other) = eq_str file other

abbrev pub in_file : Str → List Entry → List Str
in_file file [] = []
in_file file (e ∷ es) = if goes_to file e.0 then e.1 ∷ in_file file es else in_file file es

pub record Leaves (s : Logging) (es : List Entry) (s' : Logging) : Type 0 where
  pub console : s'.console ≡ s.console ++ on_console es
  pub files : (file : Str) → content file s'.files ≡ content file s.files ++ in_file file es

module _ (local_time : ℕ → Str) where
  -- What the calls leave, from loggers as in g on, after n readings of the clock.
  abbrev pub describe : (Str → Logger) → ℕ → List Call → List Entry
  describe g n [] = []
  describe g n (write name level message ∷ cs) =
      let l = g name in
      let below = ltb (rank level) (rank l.log_level) in
      let rest = describe g (if below then n else n + 1) cs in
      if below then rest else (l.file_stream, format_message local_time n l level message) ∷ rest
  describe g n (configure name is_open file level ∷ cs) =
      describe (configured g name (initialize is_open file level (g name)).0) n cs
  describe g n (set_level name level ∷ cs) =
      describe (configured g name (set_log_level level (g name))) n cs

  abbrev pub perform : List Call → Logging → Logging
  perform [] s = s
  perform (write name level message ∷ cs) s = perform cs (log_named local_time name level message s)
  perform (configure name is_open file level ∷ cs) s =
      perform cs (initialize_named name is_open file level s)
  perform (set_level name level ∷ cs) s = perform cs (set_level_named name level s)

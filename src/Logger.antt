-- ===== src/Logger.antt =====
-- class Logger of "include /common/Logger.h" and common/Logger.cpp: the loggers by name, what stands
-- on the terminal, and the lines of the log files. A line is a text without its end.
pub mod Promise
pub mod Registry
pub mod Files
pub mod Writing
pub mod Lines
use protokol_javni_prevoz.Prelude.{
  ℕ, ◌+◌, Bool, true, not, Option, none, some, List, [], ◌∷◌, ◌++◌, ltb, if◌then◌else◌,
}
use protokol_javni_prevoz.Text.{Str, str, is_empty}
use protokol_javni_prevoz.StdMap.{StdMap, find, insert}

-- Logger::LogLevel, and the numbers of its values.
pub data LogLevel : Type 0 where
  debug : LogLevel
  info : LogLevel
  warning : LogLevel
  error : LogLevel
  critical : LogLevel

unfoldable pub rank : LogLevel → ℕ
rank debug = 0
rank info = 1
rank warning = 2
rank error = 3
rank critical = 4

unfoldable pub level_to_string : LogLevel → Str
level_to_string debug = str "DEBUG"
level_to_string info = str "INFO"
level_to_string warning = str "WARN"
level_to_string error = str "ERROR"
level_to_string critical = str "CRIT"

-- file_stream_ is the file that is open.
pub record Logger : Type 0 where
  pub name : Str
  pub log_level : LogLevel
  pub file_stream : Option Str

-- Logger::Logger.
abbrev pub new : Str → Logger
new name = record { name = name; log_level = info; file_stream = none }

-- loggers_, std::cout, std::cerr, the files, and how often the clock was read.
pub record Logging : Type 0 where
  pub loggers : StdMap Logger
  pub console : List Str
  pub errors : List Str
  pub files : StdMap (List Str)
  pub readings : ℕ

-- The lines of a file; one that is not there has none.
unfoldable pub content : Str → StdMap (List Str) → List Str
content file files = elim (find file files) [ none ↦ [] | some lines ↦ lines ]

-- Logger::setLogFile, and whether the file could be opened; the line on std::cerr if not.
unfoldable pub set_log_file : Bool → Str → Logger → Logger × List Str
set_log_file is_open log_file logger =
    if is_open then (record logger { file_stream = some log_file }, []) else (
      record logger { file_stream = none },
      (str "Warning: Failed to open log file: " ++ log_file) ∷ [],
    )

-- Logger::initialize.
unfoldable pub initialize : Bool → Str → LogLevel → Logger → Logger × List Str
unfolding set_log_file
initialize is_open log_file level logger =
    let logger = record logger { log_level = level } in
    if not (is_empty log_file) then set_log_file is_open log_file logger else (logger, [])

-- Logger::setLogLevel.
unfoldable pub set_log_level : LogLevel → Logger → Logger
set_log_level level logger = record logger { log_level = level }

-- Logger::getLogger.
unfoldable pub get_logger : Str → Logging → Logger × Logging
get_logger name s = elim (find name s.loggers) [
  | none ↦ (new name, record s { loggers = insert name (new name) s.loggers })
  | some logger ↦ (logger, s)
]

-- getLogger(name)->initialize(...).
unfoldable pub initialize_named : Str → Bool → Str → LogLevel → Logging → Logging
initialize_named name is_open log_file level s =
    let (logger, s) = get_logger name s in
    let (logger, errors) = initialize is_open log_file level logger in
    record s { loggers = insert name logger s.loggers; errors = s.errors ++ errors }

-- getLogger(name)->setLogLevel(level).
unfoldable pub set_level_named : Str → LogLevel → Logging → Logging
set_level_named name level s =
    let (logger, s) = get_logger name s in
    record s { loggers = insert name (set_log_level level logger) s.loggers }

module _ (local_time : ℕ → Str) where
  -- Logger::formatMessage, at the n-th reading of the clock.
  unfoldable pub format_message : ℕ → Logger → LogLevel → Str → Str
  unfolding level_to_string
  format_message n logger level message =
      str "["
      ++ local_time n
      ++ str "] ["
      ++ level_to_string level
      ++ str "] ["
      ++ logger.name
      ++ str "] "
      ++ message

  -- Logger::log.
  unfoldable pub log : LogLevel → Str → Logger → Logging → Logging
  log level message logger s =
      let line = format_message s.readings logger level message in
      if ltb (rank level) (rank logger.log_level) then s else record s {
        readings = s.readings + 1;
        console = s.console ++ line ∷ [];
        files = elim logger.file_stream [
          | none ↦ s.files
          | some file ↦ insert file (content file s.files ++ line ∷ []) s.files
        ];
      }

  -- getLogger(name)->log(level, message).
  unfoldable pub log_named : Str → LogLevel → Str → Logging → Logging
  log_named name level message s = let (logger, s) = get_logger name s in log level message logger s

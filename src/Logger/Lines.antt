-- ===== src/Logger/Lines.antt =====
-- What a sequence of calls of loggers leaves on the terminal and in the files, common/Logger.cpp.
use protokol_javni_prevoz.Prelude.{
  ℕ, ◌+◌, ◌≡◌, refl, ◌∙◌, ap, subst, Bool, true, false, List, [], ◌∷◌, ◌++◌, ltb, if◌then◌else◌,
}
use protokol_javni_prevoz.Text.{Str, eq_str}
use protokol_javni_prevoz.StdMap.{insert}
use protokol_javni_prevoz.Logger.{
  LogLevel, rank, Logger, Logging, initialize, get_logger, initialize_named, set_log_level,
  set_level_named, format_message, log, log_named,
}
use protokol_javni_prevoz.Logger.Promise.{
  logger_of, Call, write, configure, set_level, configured, Entry, Leaves, describe, perform,
}
use protokol_javni_prevoz.Logger.Registry.{logger_of-insert, get_logger-Looked}
use protokol_javni_prevoz.Logger.Writing.{nothing, Leaves-append, Leaves-same, log-Wrote}

module _ (local_time : ℕ → Str) where
  record Stepped (g : Str → Logger) (b : Bool) (e : Entry) (s s' : Logging) : Type 0 where
    left : Leaves s (if b then [] else e ∷ []) s'
    loggers : (other : Str) → logger_of s'.loggers other ≡ g other
    readings : s'.readings ≡ (if b then s.readings else s.readings + 1)

  log_named-Stepped :
      (g : Str → Logger) (name : Str) (level : LogLevel) (message : Str) (s : Logging)
      → ((other : Str) → logger_of s.loggers other ≡ g other)
      → Stepped g
          (ltb (rank level) (rank (g name).log_level))
          ((g name).file_stream, format_message local_time s.readings (g name) level message)
          s
          (log_named local_time name level message s)
  unfolding log_named
  log_named-Stepped g name level message s h =
      let r = get_logger name s in
      let looked = get_logger-Looked name s in
      let wrote = log-Wrote local_time _ level message r.0 r.1 refl in
      let stepped : Stepped g (ltb (rank level) (rank r.0.log_level))
          (r.0.file_stream, format_message local_time r.1.readings r.0 level message) s
          (log local_time level message r.0 r.1) =
        record {
          left = Leaves-same s r.1 _ _ looked.same_console looked.same_files wrote.left;
          loggers = λ other.
              ap (λ m. logger_of m other) wrote.loggers ∙ looked.same_loggers other ∙ h other;
          readings =
              wrote.readings
              ∙ ap (λ n. if ltb (rank level) (rank r.0.log_level) then n else n + 1)
                  looked.same_readings;
        } in
      subst
        (λ n.
          Stepped g (ltb (rank level) (rank (g name).log_level))
            ((g name).file_stream, format_message local_time n (g name) level message) s
            (log local_time level message r.0 r.1))
        looked.same_readings
        (subst
          (λ l.
            Stepped g (ltb (rank level) (rank l.log_level))
              (l.file_stream, format_message local_time r.1.readings l level message) s
              (log local_time level message r.0 r.1))
          (looked.logger ∙ h name) stepped)

  -- Another logger under a name; the terminal and the files are as they were.
  record Changed (g : Str → Logger) (s s' : Logging) : Type 0 where
    loggers : (other : Str) → logger_of s'.loggers other ≡ g other
    console : s'.console ≡ s.console
    files : s'.files ≡ s.files
    readings : s'.readings ≡ s.readings

  abbrev changed : (Logger → Logger) → Str → List Str → Logger × Logging → Logging
  changed change name errors r = record r.1 {
    loggers = insert name (change r.0) r.1.loggers;
    errors = errors;
  }

  get_logger-Changed :
      (change : Logger → Logger) (g : Str → Logger) (name : Str) (errors : List Str) (s : Logging)
      → ((other : Str) → logger_of s.loggers other ≡ g other)
      → Changed
          (configured g name (change (g name)))
          s
          (changed change name errors (get_logger name s))
  get_logger-Changed change g name errors s h =
      let r = get_logger name s in
      let looked = get_logger-Looked name s in
      record {
        loggers = λ other.
            logger_of-insert name other (change r.0) r.1.loggers
            ∙ ap (λ l. if eq_str other name then change l else logger_of r.1.loggers other)
                (looked.logger ∙ h name)
            ∙ ap (λ l. if eq_str other name then change (g name) else l)
                (looked.same_loggers other ∙ h other);
        console = looked.same_console;
        files = looked.same_files;
        readings = looked.same_readings;
      }

  Leaves-behind :
      (cs : List Call) (g : Str → Logger) (s s' : Logging)
      → Changed g s s'
      → Leaves s' (describe local_time g s'.readings cs) (perform local_time cs s')
      → Leaves s (describe local_time g s.readings cs) (perform local_time cs s')
  Leaves-behind cs g s s' c l =
      Leaves-same s s' (perform local_time cs s') _ c.console c.files (
        subst (λ n. Leaves s' (describe local_time g n cs) (perform local_time cs s')) c.readings l)

  joined :
      (b : Bool) (e : Entry) (es : List Entry)
      → (if b then [] else e ∷ []) ++ es ≡ (if b then es else e ∷ es)
  joined false e es = refl
  joined true e es = refl

  -- Whatever is configured and logged, through whatever names: each call at or above the level
  -- that its logger has then adds its line, with its own reading of the clock, to the end of the
  -- terminal and of the file that its logger has open then; every other call adds nothing. A name
  -- that is not there yet stands for a logger at INFO without a file.
  pub perform-Leaves :
      (cs : List Call) (g : Str → Logger) (s : Logging)
      → ((other : Str) → logger_of s.loggers other ≡ g other)
      → Leaves s (describe local_time g s.readings cs) (perform local_time cs s)
  perform-Leaves [] g s h = nothing s
  perform-Leaves (write name level message ∷ cs) g s h =
      let s' = log_named local_time name level message s in
      let step = log_named-Stepped g name level message s h in
      let rest =
        subst (λ n. Leaves s' (describe local_time g n cs) (perform local_time cs s')) step.readings
          (perform-Leaves cs g s' step.loggers) in
      subst (λ es. Leaves s es (perform local_time cs s'))
        (joined (ltb (rank level) (rank (g name).log_level))
          ((g name).file_stream, format_message local_time s.readings (g name) level message) _)
        (Leaves-append s s' (perform local_time cs s') _ _ step.left rest)
  perform-Leaves (configure name is_open file level ∷ cs) g s h =
      let change = λ (l : Logger). (initialize is_open file level l).0 in
      let s' = initialize_named name is_open file level s in
      let step : Changed (configured g name (change (g name))) s s' =
        unfold initialize_named in get_logger-Changed change g name s'.errors s h in
      Leaves-behind cs (configured g name (change (g name))) s s' step
        (perform-Leaves cs (configured g name (change (g name))) s' step.loggers)
  perform-Leaves (set_level name level ∷ cs) g s h =
      let s' = set_level_named name level s in
      let step : Changed (configured g name (set_log_level level (g name))) s s' =
        unfold set_level_named in get_logger-Changed (set_log_level level) g name s'.errors s h in
      Leaves-behind cs (configured g name (set_log_level level (g name))) s s' step
        (perform-Leaves cs (configured g name (set_log_level level (g name))) s' step.loggers)

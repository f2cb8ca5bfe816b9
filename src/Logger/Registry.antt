-- ===== src/Logger/Registry.antt =====
-- Logger::getLogger, common/Logger.cpp: what it finds and leaves as it was.
use protokol_javni_prevoz.Prelude.{
  ◌≡◌, refl, sym, ◌∙◌, ap, subst, Bool, true, false, Option, none, some, if◌then◌else◌,
}
use protokol_javni_prevoz.Text.{Str, eq_str, eq_str_iff}
use protokol_javni_prevoz.StdMap.{StdMap, find, insert, find-insert}
use protokol_javni_prevoz.Logger.{Logger, new, Logging, get_logger}
use protokol_javni_prevoz.Logger.Promise.{or_new, logger_of, configured}

or_new-if :
    (b : Bool) (name : Str) (logger : Logger) (o : Option Logger)
    → or_new name (if b then some logger else o) ≡ (if b then logger else or_new name o)
or_new-if false name logger o = refl
or_new-if true name logger o = refl

pub logger_of-insert :
    (name other : Str) (logger : Logger) (loggers : StdMap Logger)
    → logger_of (insert name logger loggers) other
      ≡ configured (logger_of loggers) name logger other
logger_of-insert name other logger loggers =
    ap (or_new other) (find-insert name other logger loggers)
    ∙ or_new-if (eq_str other name) other logger (find other loggers)

-- What getLogger returns and leaves as it was.
pub record Looked (name : Str) (s : Logging) (r : Logger × Logging) : Type 0 where
  pub logger : r.0 ≡ logger_of s.loggers name
  pub same_loggers : (other : Str) → logger_of r.1.loggers other ≡ logger_of s.loggers other
  pub same_console : r.1.console ≡ s.console
  pub same_files : r.1.files ≡ s.files
  pub same_readings : r.1.readings ≡ s.readings

configured-same :
    (b : Bool) (name other : Str) (loggers : StdMap Logger)
    → (b ≡ true → other ≡ name)
    → find name loggers ≡ none
    → (if b then new name else logger_of loggers other) ≡ logger_of loggers other
configured-same false name other loggers h e = refl
configured-same true name other loggers h e =
    sym (ap (logger_of loggers) (h refl) ∙ ap (or_new name) e)

get_logger-new :
    (name : Str) (s : Logging)
    → find name s.loggers ≡ none
    → get_logger name s ≡ (new name, record s { loggers = insert name (new name) s.loggers })
unfolding get_logger
get_logger-new name s e = rw (e, get_logger) refl

get_logger-found :
    (name : Str) (l : Logger) (s : Logging)
    → find name s.loggers ≡ some l
    → get_logger name s ≡ (l, s)
unfolding get_logger
get_logger-found name l s e = rw (e, get_logger) refl

looked :
    (o : Option Logger) (name : Str) (s : Logging)
    → find name s.loggers ≡ o
    → Looked name s (get_logger name s)
looked none name s e = subst (Looked name s) (sym (get_logger-new name s e)) (record {
  logger = sym (ap (or_new name) e);
  same_loggers = λ other.
      logger_of-insert name other (new name) s.loggers
      ∙ configured-same (eq_str other name) name other s.loggers (λ h. (eq_str_iff other name).0 h)
          e;
  same_console = refl;
  same_files = refl;
  same_readings = refl;
})
looked (some l) name s e = subst (Looked name s) (sym (get_logger-found name l s e)) (record {
  logger = sym (ap (or_new name) e);
  same_loggers = λ other. refl;
  same_console = refl;
  same_files = refl;
  same_readings = refl;
})

pub get_logger-Looked : (name : Str) (s : Logging) → Looked name s (get_logger name s)
get_logger-Looked name s = looked (find name s.loggers) name s refl

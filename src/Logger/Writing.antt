-- ===== src/Logger/Writing.antt =====
-- One call of Logger::log, common/Logger.cpp, against what it promises.
use mathlib.Core.List.{append-nil, append_assoc}
use protokol_javni_prevoz.Prelude.{
  ℕ, ◌+◌, ◌≡◌, refl, sym, ◌∙◌, ap, Bool, true, false, List, [], ◌∷◌, ◌++◌, ltb, if◌then◌else◌,
}
use protokol_javni_prevoz.Text.{Str}
use protokol_javni_prevoz.Logger.{LogLevel, rank, Logger, Logging, content, format_message, log}
use protokol_javni_prevoz.Logger.Promise.{Entry, on_console, in_file, Leaves}
use protokol_javni_prevoz.Logger.Files.{content-written, in_file-append, on_console-append}

pub record Wrote (b : Bool) (e : Entry) (s s' : Logging) : Type 0 where
  pub left : Leaves s (if b then [] else e ∷ []) s'
  pub loggers : s'.loggers ≡ s.loggers
  pub readings : s'.readings ≡ (if b then s.readings else s.readings + 1)

pub nothing : (s : Logging) → Leaves s [] s
nothing s = record { console = sym (append-nil _); files = λ file. sym (append-nil _) }

pub Leaves-append :
    (s t u : Logging) (es fs : List Entry) → Leaves s es t → Leaves t fs u → Leaves s (es ++ fs) u
Leaves-append s t u es fs h k = record {
  console =
      k.console
      ∙ ap (λ l. l ++ on_console fs) h.console
      ∙ append_assoc s.console (on_console es) (on_console fs)
      ∙ ap (λ l. s.console ++ l) (sym (on_console-append es fs));
  files = λ file.
      k.files file
      ∙ ap (λ l. l ++ in_file file fs) (h.files file)
      ∙ append_assoc (content file s.files) (in_file file es) (in_file file fs)
      ∙ ap (λ l. content file s.files ++ l) (sym (in_file-append file es fs));
}

pub Leaves-same :
    (s t u : Logging) (es : List Entry)
    → t.console ≡ s.console
    → t.files ≡ s.files
    → Leaves t es u
    → Leaves s es u
Leaves-same s t u es c f h = record {
  console = h.console ∙ ap (λ l. l ++ on_console es) c;
  files = λ file. h.files file ∙ ap (λ fs. content file fs ++ in_file file es) f;
}

module _ (local_time : ℕ → Str) where
  pub log-Wrote :
      (b : Bool) (level : LogLevel) (message : Str) (l : Logger) (s : Logging)
      → ltb (rank level) (rank l.log_level) ≡ b
      → Wrote b
          (l.file_stream, format_message local_time s.readings l level message)
          s
          (log local_time level message l s)
  unfolding log
  log-Wrote true level message l s e =
      rw (e, log) (record { left = nothing s; loggers = refl; readings = refl })
  log-Wrote false level message l s e =
      rw (e, log)
        (record {
          left = record {
            console = refl;
            files = λ file.
                content-written l.file_stream file
                  (format_message local_time s.readings l level message) s.files;
          };
          loggers = refl;
          readings = refl;
        })

-- ===== src/Client/EndOfInput.antt =====
-- The loop of startInteractiveSession, client/UserInterface.cpp, behind the last line of the input.
use protokol_javni_prevoz.Prelude.{ℕ, zero, suc, ◌≡◌, refl, sym, ◌∙◌, ap, List, [], ◌∷◌, ◌++◌}
use mathlib.Core.List.{append_assoc, append-nil}
use protokol_javni_prevoz.Text.{Str, str, eq_str, compare_str, has_prefix}
use protokol_javni_prevoz.Client.{Network, UserInterface, print}
use protokol_javni_prevoz.Client.Session.{next, interpret, session_loop, read_line}

abbrev pub prompts : ℕ → List Str
prompts zero = []
prompts (suc n) = str "transport> " ∷ prompts n

abbrev pub shows : UserInterface → List Str → UserInterface
shows ui lines = record ui { output = ui.output ++ lines }

interpret-nil : (net : Network) (ui : UserInterface) → interpret net [] ui ≡ next ui
unfolding interpret eq_str compare_str str has_prefix
interpret-nil net ui = refl

-- When the standard input is at its end, the console loop does not end: in any number of rounds it
-- shows one prompt per round and does nothing else.
pub session_loop-nil :
    (net : Network) (rounds : ℕ) (ui : UserInterface)
    → session_loop net rounds [] ui ≡ next (shows ui (prompts rounds))
unfolding session_loop read_line print
session_loop-nil net zero ui =
    ap (λ l. next (record ui { output = l })) (sym (append-nil ui.output))
session_loop-nil net (suc rounds) ui =
    rw (interpret-nil net (shows ui (str "transport> " ∷ [])), session_loop)
      (session_loop-nil net rounds (shows ui (str "transport> " ∷ []))
        ∙ ap (λ l. next (record ui { output = l }))
            (append_assoc ui.output (str "transport> " ∷ []) (prompts rounds)))

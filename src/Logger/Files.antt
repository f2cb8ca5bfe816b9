-- ===== src/Logger/Files.antt =====
-- The lines of the log files, common/Logger.cpp.
use mathlib.Core.List.{append-nil}
use protokol_javni_prevoz.Prelude.{
  ◌≡◌, refl, sym, ◌∙◌, ap, Bool, true, false, Option, none, some, List, [], ◌∷◌, ◌++◌,
  if◌then◌else◌,
}
use protokol_javni_prevoz.Text.{Str, eq_str, eq_str_iff}
use protokol_javni_prevoz.StdMap.{StdMap, find, insert, find-insert}
use protokol_javni_prevoz.Logger.{content}
use protokol_javni_prevoz.Logger.Promise.{Entry, on_console, goes_to, in_file}

by_file :
    (b : Bool) (lines : List Str) (o : Option (List Str))
    → (elim (if b then some lines else o) [ none ↦ [] | some ls ↦ ls ])
      ≡ (if b then lines else elim o [ none ↦ [] | some ls ↦ ls ])
by_file false lines o = refl
by_file true lines o = refl

content-insert :
    (file other : Str) (lines : List Str) (files : StdMap (List Str))
    → content file (insert other lines files)
      ≡ (if eq_str file other then lines else content file files)
unfolding content
content-insert file other lines files =
    rw (find-insert other file lines files, content)
      (by_file (eq_str file other) lines (find file files))

extended :
    (b : Bool) (file other line : Str) (files : StdMap (List Str))
    → (b ≡ true → file ≡ other)
    → (if b then content other files ++ line ∷ [] else content file files)
      ≡ content file files ++ (if b then line ∷ [] else [])
extended false file other line files h = sym (append-nil _)
extended true file other line files h = ap (λ f. content f files ++ line ∷ []) (sym (h refl))

pub content-written :
    (o : Option Str) (file line : Str) (files : StdMap (List Str))
    → content file (elim o [
      | none ↦ files
      | some other ↦ insert other (content other files ++ line ∷ []) files
    ])
      ≡ content file files ++ in_file file ((o, line) ∷ [])
content-written none file line files = sym (append-nil _)
content-written (some other) file line files =
    content-insert file other (content other files ++ line ∷ []) files
    ∙ extended (eq_str file other) file other line files (λ h. (eq_str_iff file other).0 h)

in_file_if :
    (b : Bool) (line : Str) (xs ys : List Str) {zs : List Str}
    → zs ≡ xs ++ ys
    → (if b then line ∷ zs else zs) ≡ (if b then line ∷ xs else xs) ++ ys
in_file_if false line xs ys e = e
in_file_if true line xs ys e = ap (λ l. line ∷ l) e

pub in_file-append :
    (file : Str) (es fs : List Entry) → in_file file (es ++ fs) ≡ in_file file es ++ in_file file fs
in_file-append file [] fs = refl
in_file-append file (e ∷ es) fs =
    in_file_if (goes_to file e.0) e.1 (in_file file es) (in_file file fs)
      (in_file-append file es fs)

pub on_console-append :
    (es fs : List Entry) → on_console (es ++ fs) ≡ on_console es ++ on_console fs
on_console-append [] fs = refl
on_console-append (e ∷ es) fs = ap (λ l. e.1 ∷ l) (on_console-append es fs)

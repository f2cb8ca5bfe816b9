-- ===== src/Text/Split.antt =====
-- The loops over std::getline(stream, token, delimiter) that keep the tokens that are not empty:
-- UserInterface::splitString and Message::getBinary.
use protokol_javni_prevoz.Prelude.{
  ℕ, ◌≡◌, refl, sym, ◌∙◌, ap, subst, arith, false, Bool-cases, inl, inr, List, [], ◌∷◌, ◌++◌, ◌==◌,
  ==_refl, if◌then◌else◌,
}
use mathlib.Core.List.{append_assoc, append-nil}
use protokol_javni_prevoz.Text.{Str, is_empty}

-- `if (!token.empty()) tokens.push_back(token)`.
abbrev pub push_token : Str → List Str → List Str
push_token [] tokens = tokens
push_token (c ∷ s) tokens = (c ∷ s) ∷ tokens

-- The token so far, and the text that is left.
unfoldable pub split_loop : ℕ → Str → Str → List Str
split_loop delimiter token [] = push_token token []
split_loop delimiter token (c ∷ s) =
    let cut = split_loop delimiter [] s in
    let on = split_loop delimiter (token ++ c ∷ []) s in
    if c == delimiter then push_token token cut else on

unfoldable pub split_string : Str → ℕ → List Str
split_string s delimiter = split_loop delimiter [] s

-- No byte of the text is `d`.
abbrev pub Lacks : ℕ → Str → Type 0
Lacks d [] = Unit {0}
Lacks d (c ∷ s) = ((c == d) ≡ false) × Lacks d s

abbrev pub IsWord : ℕ → Str → Type 0
IsWord d w = (is_empty w ≡ false) × Lacks d w

abbrev pub AllWords : ℕ → List Str → Type 0
AllWords d [] = Unit {0}
AllWords d (w ∷ ws) = IsWord d w × AllWords d ws

-- Each word with a delimiter behind it.
abbrev pub terminate : ℕ → List Str → Str
terminate d [] = []
terminate d (w ∷ ws) = w ++ d ∷ terminate d ws

-- The words with a delimiter between them.
abbrev pub join : ℕ → List Str → Str
join d [] = []
join d (w ∷ []) = w
join d (w ∷ v ∷ ws) = w ++ d ∷ join d (v ∷ ws)

-- A text and its words in order: each ends at a delimiter or with the text, and all that stands
-- between them, in front of them and behind them is delimiters.
pub data Spaced (d : ℕ) : Str → List Str → Type 0 where
  nothing : Spaced d [] []
  gap : {s : Str} {ws : List Str} → Spaced d s ws → Spaced d (d ∷ s) ws
  last_word : (w : Str) → IsWord d w → Spaced d w (w ∷ [])
  next_word :
      {s : Str} {ws : List Str} (w : Str)
      → IsWord d w
      → Spaced d s ws
      → Spaced d (w ++ d ∷ s) (w ∷ ws)

Lacks-append : (d : ℕ) (s t : Str) → Lacks d s → Lacks d t → Lacks d (s ++ t)
Lacks-append d [] t h k = k
Lacks-append d (c ∷ s) t h k = (h.0, Lacks-append d s t h.1 k)

split_loop-word :
    (d : ℕ) (token w rest : Str)
    → Lacks d w
    → split_loop d token (w ++ rest) ≡ split_loop d (token ++ w) rest
unfolding split_loop
split_loop-word d token [] rest h = ap (λ t. split_loop d t rest) (sym (append-nil token))
split_loop-word d token (c ∷ w) rest h =
    rw (h.0, split_loop)
      (split_loop-word d (token ++ c ∷ []) w rest h.1
        ∙ ap (λ t. split_loop d t rest) (append_assoc token (c ∷ []) w))

push_token-word : (w : Str) (ws : List Str) → is_empty w ≡ false → push_token w ws ≡ w ∷ ws
push_token-word [] ws h = cc
push_token-word (c ∷ w) ws h = refl

split_loop-cut :
    (d : ℕ) (token s : Str) → split_loop d token (d ∷ s) ≡ push_token token (split_loop d [] s)
unfolding split_loop
split_loop-cut d token s = rw (==_refl d, split_loop) refl

-- A text that is put together from words, none of them empty and none with the delimiter in it,
-- splits into these words.
pub split_string-join : (d : ℕ) (ws : List Str) → AllWords d ws → split_string (join d ws) d ≡ ws
unfolding split_string
split_string-join d [] h = unfold split_loop in refl
split_string-join d (w ∷ []) h =
    ap (split_loop d []) (sym (append-nil w))
    ∙ split_loop-word d [] w [] h.0.1
    ∙ unfold split_loop in push_token-word w [] h.0.0
split_string-join d (w ∷ v ∷ ws) h =
    split_loop-word d [] w (d ∷ join d (v ∷ ws)) h.0.1
    ∙ split_loop-cut d w (join d (v ∷ ws))
    ∙ push_token-word w _ h.0.0
    ∙ ap (λ l. w ∷ l) (split_string-join d (v ∷ ws) h.1)

-- The same with a delimiter behind the last word too.
pub split_string-terminate :
    (d : ℕ) (ws : List Str) → AllWords d ws → split_string (terminate d ws) d ≡ ws
unfolding split_string
split_string-terminate d [] h = unfold split_loop in refl
split_string-terminate d (w ∷ ws) h =
    split_loop-word d [] w (d ∷ terminate d ws) h.0.1
    ∙ split_loop-cut d w (terminate d ws)
    ∙ push_token-word w _ h.0.0
    ∙ ap (λ l. w ∷ l) (split_string-terminate d ws h.1)

-- A token that ends at a delimiter, or with the text.
push_token-Spaced :
    (d : ℕ) (token s : Str) (ws : List Str)
    → Lacks d token
    → Spaced d s ws
    → Spaced d (token ++ d ∷ s) (push_token token ws)
push_token-Spaced d [] s ws h k = gap k
push_token-Spaced d (c ∷ token) s ws h k = next_word (c ∷ token) (refl, h) k

last_token-Spaced :
    (d : ℕ) (token : Str) → Lacks d token → Spaced d (token ++ []) (push_token token [])
last_token-Spaced d [] h = nothing
last_token-Spaced d (c ∷ token) h =
    subst (λ s. Spaced d s ((c ∷ token) ∷ [])) (sym (append-nil (c ∷ token)))
      (last_word (c ∷ token) (refl, h))

split_loop-Spaced :
    (d : ℕ) (token s : Str) → Lacks d token → Spaced d (token ++ s) (split_loop d token s)
unfolding split_loop
split_loop-Spaced d token [] h = last_token-Spaced d token h
split_loop-Spaced d token (c ∷ s) h = elim (Bool-cases (c == d)) [
  | inl e ↦
      rw (e, split_loop)
        (subst (λ b. Spaced d (token ++ b ∷ s) (push_token token (split_loop d [] s)))
          (sym (ground (arith, e)))
          (push_token-Spaced d token s (split_loop d [] s) h (split_loop-Spaced d [] s tt)))
  | inr e ↦
      rw (e, split_loop)
        (subst (λ t. Spaced d t (split_loop d (token ++ c ∷ []) s)) (append_assoc token (c ∷ []) s)
          (split_loop-Spaced d (token ++ c ∷ []) s (Lacks-append d token (c ∷ []) h (e, tt))))
]

-- Every text consists of the words that it splits into, in order, and of delimiters: no word is
-- empty or has the delimiter in it, each ends at a delimiter or with the text, and all that stands
-- in front of them, between them and behind them is delimiters.
pub split_string-Spaced : (d : ℕ) (s : Str) → Spaced d s (split_string s d)
unfolding split_string
split_string-Spaced d s = split_loop-Spaced d [] s tt

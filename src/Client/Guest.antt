-- ===== src/Client/Guest.antt =====
-- The user who has not signed in: what client/UserInterface.cpp sends for him.
use protokol_javni_prevoz.Prelude.{
  ℕ, zero, suc, ◌≡◌, refl, Bool, true, false, ◌||◌, List, [], ◌∷◌, if◌then◌else◌, inl, inr, arith,
}
use protokol_javni_prevoz.Text.{Str, str, eq_str, has_prefix, is_empty}
use protokol_javni_prevoz.Message.{Message}
use protokol_javni_prevoz.Client.{Network, UserInterface, print}
use protokol_javni_prevoz.Client.Commands.{
  words, handle_register, handle_register_device, handle_authenticate, handle_reserve,
  handle_purchase, handle_create_group, handle_add_member, handle_remove_member,
}
use protokol_javni_prevoz.Client.Session.{
  Turn, next, ended, crashed, show_help, interpret, read_line, session_loop,
}
use protokol_javni_prevoz.Client.Says.{Says, silent, then_says, print-Says, AllOf}
use protokol_javni_prevoz.Client.Frames.{
  IsOpening, May, Leads, handle_listen-Says, guarded-Says, authenticate_words-Says,
  register_words-Says, register_device_words-Says, reserve_words-Says, purchase_words-Says,
  create_group_words-Says, add_member_words-Says, remove_member_words-Says,
}

record Led (P : UserInterface → Type 0) (t : Turn) : Type 0 where
  leads : Leads P t

either :
    {P : UserInterface → Type 0} {x y : Turn} (b : Bool)
    → Led P x
    → Led P y
    → Led P (if b then x else y)
either true h k = h
either false h k = k

-- Who is not signed in at the end has sent opening requests only.
abbrev pub Silenced : UserInterface → UserInterface → Type 0
Silenced ui ui' = ui'.authenticated ≡ false → Says IsOpening ui ui'

map_Leads :
    {P Q : UserInterface → Type 0} (t : Turn)
    → ((ui : UserInterface) → P ui → Q ui)
    → Leads P t
    → Leads Q t
map_Leads (next ui) f h = f ui h
map_Leads (ended ui) f h = f ui h
map_Leads crashed f h = tt

guest_only :
    (ui : UserInterface) (ms : List Message)
    → ui.authenticated ≡ false
    → AllOf (May ui) ms
    → AllOf IsOpening ms
guest_only ui [] guest h = tt
guest_only ui (m ∷ ms) guest (inl e, h) = absurd (ground arith)
guest_only ui (m ∷ ms) guest (inr o, h) = (o, guest_only ui ms guest h)

-- A round, and what comes after it.
step_Silenced :
    (shown a c : UserInterface) → Says (May shown) shown a → Silenced a c → Silenced shown c
step_Silenced shown a c h k e =
    let after = k e in
    let guest = h.signed (after.signed e) in
    then_says
      (record {
        messages = h.messages;
        all = guest_only shown h.messages guest h.all;
        wrote = h.wrote;
        signed = h.signed;
      })
      after

shown_Silenced : (line : Str) (ui c : UserInterface) → Silenced (print line ui).1 c → Silenced ui c
shown_Silenced line ui c k e = then_says (print-Says line ui) (k e)

module _ (net : Network) where
  signed_in : (ui : UserInterface) → ui.authenticated ≡ true → (m : Message) → May ui m
  signed_in ui e m = inl e

  interpret-Led :
      (input : Str) (ui : UserInterface) → Led (Says (May ui) ui) (interpret net input ui)
  unfolding interpret show_help handle_register_device handle_register handle_authenticate
      handle_reserve handle_purchase handle_create_group handle_add_member handle_remove_member
  interpret-Led input ui =
      let ws = words input in
      let starts = λ (s : Str). has_prefix s input in
      either (eq_str input (str "quit") || eq_str input (str "exit"))
        (record { leads = (silent ui ui refl (λ a. a)) })
        (either (eq_str input (str "help")) (record { leads = (silent ui _ refl (λ a. a)) })
          (either (starts (str "register_device"))
            (record {
              leads =
                  (guarded-Says _ ui (λ e. register_device_words-Says net (signed_in ui e) ws ui));
            })
            (either (starts (str "register")) (record { leads = (register_words-Says net ws ui) })
              (either (starts (str "authenticate"))
                (record { leads = (authenticate_words-Says net ws ui) })
                (either (eq_str input (str "listen"))
                  (record { leads = (handle_listen-Says (May ui) ui) })
                  (either (starts (str "reserve"))
                    (record {
                      leads =
                          (guarded-Says _ ui (λ e. reserve_words-Says net (signed_in ui e) ws ui));
                    })
                    (either (starts (str "purchase"))
                      (record {
                        leads =
                            (guarded-Says _ ui
                              (λ e. purchase_words-Says net (signed_in ui e) ws ui));
                      })
                      (either (starts (str "create_group"))
                        (record {
                          leads =
                              (guarded-Says _ ui
                                (λ e. create_group_words-Says net (signed_in ui e) ws ui));
                        })
                        (either (starts (str "add_member"))
                          (record {
                            leads =
                                (guarded-Says _ ui
                                  (λ e. add_member_words-Says net (signed_in ui e) ws ui));
                          })
                          (either (starts (str "rm_member"))
                            (record {
                              leads =
                                  (guarded-Says _ ui
                                    (λ e. remove_member_words-Says net (signed_in ui e) ws ui));
                            })
                            (either (is_empty input)
                              (record { leads = (silent ui ui refl (λ a. a)) })
                              (record { leads = print-Says _ ui }))))))))))))

  -- However many rounds the console loop makes and whatever is typed: if at the end no answer has
  -- signed the user in, what was written to the server is a sequence of whole frames, each a
  -- request to register a user or to authenticate, and the user was not signed in before either.
  pub session_loop-Guest :
      (rounds : ℕ) (lines : List Str) (ui : UserInterface)
      → Leads (Silenced ui) (session_loop net rounds lines ui)
  unfolding session_loop
  session_loop-Guest zero lines ui = λ a. silent ui ui refl (λ b. b)
  session_loop-Guest (suc rounds) lines ui =
      go (interpret net (read_line lines).0 shown) ((interpret-Led (read_line lines).0 shown).leads)
        (session_loop-Guest rounds (read_line lines).1)
    where
      shown : UserInterface
      shown = (print (str "transport> ") ui).1

      go :
          (t : Turn)
          → Leads (Says (May shown) shown) t
          → ((a : UserInterface)
              → Leads (Silenced a) (session_loop net rounds (read_line lines).1 a))
          → Leads (Silenced ui) (elim t as (λ x. Turn) [
            | next ui' ↦ session_loop net rounds (read_line lines).1 ui'
            | ended ui' ↦ ended (print (str "Goodbye!") ui').1
            | crashed ↦ crashed
          ])
      go (next a) h ih =
          map_Leads (session_loop net rounds (read_line lines).1 a)
            (λ c k. shown_Silenced _ ui c (step_Silenced shown a c h k)) (ih a)
      go (ended a) h ih = shown_Silenced _ ui _ (step_Silenced shown a _ h (λ e. print-Says _ a))
      go crashed h ih = tt

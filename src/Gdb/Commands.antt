-- ===== src/Gdb/Commands.antt =====
-- The commands that main/gdb_main.cpp adds to a target: `cmd_reset`, `cmd_write_dp`, `cmd_read_ap`.
use blackmagic_espidf.Base.{
  ℕ, ◌+◌, ◌≡◌, refl, ap, map, ◌∙◌, Bool, true, false, ◌||◌, Option, none, some, List, [], ◌∷◌, ◌++◌,
  length, get_or, ◌==◌, ltb, if◌then◌else◌, arith,
}
use blackmagic_espidf.Base.Int.{ℤ, pos}
use blackmagic_espidf.Base.Text.{codes, str_eq, lower_word}
use blackmagic_espidf.Gdb.State.{
  Pointer, Server, Client, target_halt_request, target_reset, cortexm_ap, Effect, call,
  command_process, send, notification, Probe, put,
}
use blackmagic_espidf.Gdb.Query.{run_command, command_reply}
use blackmagic_espidf.Gdb.Answers.{answers, append-answers}
use blackmagic_espidf.Gdb.Replies.{sent-answers}

-- The entries of `cmds`.
pub data Entry : Type 0 where
  reset write_dp read_ap : Entry

-- What a command returns, and what it did.
pub record Handled : Type 0 where
  pub returned : Bool
  pub effects : List Effect

-- With `argv[0]`; another second argument does nothing.
unfoldable pub cmd_reset : Pointer → List (List ℕ) → Handled
cmd_reset t argv = record {
  returned = true;
  effects =
      if length argv == 2
      then (if str_eq (get_or argv 1 []) (codes "init") || str_eq (get_or argv 1 []) (codes "halt")
          then call target_halt_request t ∷ call target_reset t ∷ []
          else [])
      else call target_reset t ∷ [];
}

-- What the C entry point `gdb_putpacket` of main/gdb_if.cpp sends of the digits of a text: it takes
-- them for a format, which ends at the zero and has no `%`.
abbrev put_digits : Probe → List ℕ → Effect
put_digits w text = put (w.hexify text)

-- Both commands read `argv[1]`, one `argv[2]` too, whatever `argc` is: nothing where they are not
-- there. 255 is true as a `bool`.
unfoldable pub cmd_write_dp : Probe → (cur_target : Pointer) → List (List ℕ) → Option Handled
cmd_write_dp w cur_target argv =
    if ltb 2 (length argv)
    then some (record {
      returned = true;
      effects = put_digits w (codes "O.K." ++ 10 ∷ []) ∷ call cortexm_ap cur_target ∷ [];
    })
    else none

-- `reg` is what `adiv5_dp_read` returns.
unfoldable pub cmd_read_ap :
    Probe → (reg : ℕ) → (cur_target : Pointer) → List (List ℕ) → Option Handled
cmd_read_ap w reg none argv = some (record { returned = false; effects = [] })
cmd_read_ap w reg (some t) argv =
    if ltb 1 (length argv)
    then some (record {
      returned = true;
      effects =
          call cortexm_ap (some t)
          ∷ put_digits w (codes "O.K.:0x" ++ lower_word reg ++ 10 ∷ [])
          ∷ [];
    })
    else none

abbrev pub handler : Probe → (reg : ℕ) → Entry → Pointer → List (List ℕ) → Option Handled
handler w reg reset t argv = some (cmd_reset t argv)
handler w reg write_dp t argv = cmd_write_dp w t argv
handler w reg read_ap t argv = cmd_read_ap w reg t argv

-- The packets that a command sends itself.
abbrev pub own_replies : Entry → ℕ
own_replies reset = 0
own_replies write_dp = 1
own_replies read_ap = 1

handler-answers :
    (w : Probe) (reg : ℕ) (entry : Entry) (t : ℕ) (argv : List (List ℕ)) (made : Handled)
    → handler w reg entry (some t) argv ≡ some made
    → (answers made.effects ≡ own_replies entry) × (made.returned ≡ true)
unfolding cmd_reset cmd_write_dp cmd_read_ap answers
handler-answers w reg reset t argv made e = ground arith
handler-answers w reg write_dp t argv made e = ground arith
handler-answers w reg read_ap t argv made e = ground arith

abbrev is_named : List ℕ → Bool
is_named text = str_eq text (codes "ReadAP") || str_eq text (codes "WriteDP")

-- The effects of `run_command` where `command_process` gives `r`.
abbrev process_effects : Pointer → List ℕ → List (List ℕ) → ℤ × List ℕ → List Effect
process_effects p text texts r =
    command_process p text ∷ (map put texts ++ (if is_named r.1 then [] else command_reply r.0))

process-answers :
    (p : Pointer) (text : List ℕ) (texts : List (List ℕ)) (named : Bool)
    → answers
        (command_process p text ∷ (map put texts ++ (if named then [] else command_reply (pos 0))))
      ≡ length texts + (if named then 0 else 1)
unfolding answers
process-answers p text texts true =
    append-answers (map put texts) [] ∙ ap (λ n. n + 0) (sent-answers texts)
process-answers p text texts false =
    append-answers (map put texts) (command_reply (pos 0)) ∙ ap (λ n. n + 1) (sent-answers texts)

-- The texts of the packets among some effects.
abbrev pub texts_of : List Effect → List (List ℕ)
texts_of [] = []
texts_of (call f p ∷ es) = texts_of es
texts_of (command_process p text ∷ es) = texts_of es
texts_of (notification text ∷ es) = texts_of es
texts_of (send (first, text) ∷ es) = if first == b'$' then text ∷ texts_of es else texts_of es

length-texts_of : (es : List Effect) → length (texts_of es) ≡ answers es
unfolding answers
length-texts_of [] = refl
length-texts_of (call f p ∷ es) = length-texts_of es
length-texts_of (command_process p text ∷ es) = length-texts_of es
length-texts_of (notification text ∷ es) = length-texts_of es
length-texts_of (send (first, text) ∷ es) = let h = length-texts_of es in ground arith

-- A command that runs for a target, with the arguments that it reads, and for which
-- `command_process` sends what the command sends and returns 0 if the command returned true, is
-- answered by the packets that it sends itself and, if the first word is not `ReadAP` or `WriteDP`
-- in full, by `OK` as well: an abbreviation of these two is answered twice, since the 255 that they
-- return is true and not the 255 that is tested for.
pub handler-run_command :
    (w : Probe) (s : Server) (c : Client) (text text' : List ℕ)
    → (reg : ℕ) (entry : Entry) (t : ℕ) (argv : List (List ℕ)) (made : Handled)
    → s.cur_target ≡ some t
    → handler w reg entry (some t) argv ≡ some made
    → w.command_sent (some t) text ≡ texts_of made.effects
    → w.command (some t) text ≡ (if made.returned then pos 0 else pos 1, text')
    → answers (run_command w s c text).effects
      ≡ own_replies entry
        + (if str_eq text' (codes "ReadAP") || str_eq text' (codes "WriteDP") then 0 else 1)
unfolding answers
handler-run_command w s c text text' reg entry t argv made on run sent result =
    let (own, true') = handler-answers w reg entry t argv made run in
    let texts : List (List ℕ) = w.command_sent s.cur_target text in
    let process : w.command s.cur_target text ≡ (pos 0, text') =
      ap (λ p. w.command p text) on
      ∙ result
      ∙ ap (λ b. (if b then pos 0 else pos 1, text')) true' in
    let count : length texts ≡ own_replies entry =
      ap (λ p. length (w.command_sent p text)) on
      ∙ ap length sent
      ∙ length-texts_of made.effects
      ∙ own in
    ap (λ (r : ℤ × List ℕ). answers (process_effects s.cur_target text texts r)) process
    ∙ process-answers s.cur_target text texts (is_named text')
    ∙ ap (λ n. n + (if is_named text' then 0 else 1)) count

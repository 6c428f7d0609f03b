-- ===== src/Gdb/Replies.antt =====
-- Which packets the server answers: `GDB::gdb_main_loop` of main/gdb_main.cpp.
use blackmagic_espidf.Base.{
  ℕ, ◌+◌, ap, ap₂, ◌∙◌, ◌++◌, length, map, ◌≡◌, refl, Bool, true, false, if◌then◌else◌, ◌||◌, none,
  some, List, [], ◌∷◌, ◌==◌, arith, drop,
}
use blackmagic_espidf.Base.Int.{ℤ, pos, negsuc}
use blackmagic_espidf.Base.Text.{codes, str_eq}
use blackmagic_espidf.Gdb.State.{
  Pointer, Server, Client, Call, target_mem_map, target_regs_description, call, command_process,
  Probe, Out, put,
}
use blackmagic_espidf.Gdb.Query.{
  starts_with, reattached, with_region, or_empty, Query, unknown, rcmd, supported, is_attached,
  memory_map, features, current, thread_first, thread_next, crc, command_reply, run_command,
  monitor_reset, monitor, command_text, hand_out, on_query,
}
use blackmagic_espidf.Gdb.Cmdline.{run_cmdline}
use blackmagic_espidf.Gdb.Verbose
use blackmagic_espidf.Gdb.Verbose.{
  Verb, v_run, v_cont, v_kill, flash_done, stopped, v_attach, flash_erase, flash_write, verb,
  on_attach, byte_of, on_run, run_attached, on_flash_erase, on_flash_write, act, actions,
  skip_semicolon, on_cont, on_flash_done, on_stopped, answered_kill, on_verb, handle_v_packet,
}
use blackmagic_espidf.Gdb.Answers.{
  answers, append-answers, on_attach-answers, run_attached-answers, on_flash_erase-answers,
  on_flash_write-answers, on_cont-answers, vkill-answers, on_flash_done-answers, on_stopped-answers,
}

abbrev pub answered : Bool → ℕ
answered silent = if silent then 0 else 1

-- 255, which `command_process` returns where the command has replied.
abbrev is_255 : ℤ → Bool
is_255 (pos n) = n == 255
is_255 (negsuc n) = false

-- One reply to `reset`; else those that the command sends itself, and one more unless its text or
-- its result says that it has replied.
unfoldable pub monitor_replies : Probe → Server → List ℕ → ℕ
monitor_replies w s packet =
    let text : List ℕ = command_text w packet in
    let (value, text') = w.command s.cur_target text in
    let own = str_eq text' (codes "ReadAP") || str_eq text' (codes "WriteDP") in
    if starts_with (codes "reset") text
    then 1
    else length (w.command_sent s.cur_target text) + answered (own || is_255 value)

unfoldable pub query_replies : Probe → Server → List ℕ → Query → ℕ
unfolding monitor_replies
query_replies w s packet rcmd = monitor_replies w s packet
query_replies w s packet supported = 1
query_replies w s packet is_attached = 1
query_replies w s packet memory_map = 1
query_replies w s packet features = 1
query_replies w s packet current = 1
query_replies w s packet thread_first = 1
query_replies w s packet thread_next = 1
query_replies w s packet unknown = 1
query_replies w s packet (crc addr alen) = 1

pub sent-answers : (texts : List (List ℕ)) → answers (map put texts) ≡ length texts
unfolding answers
sent-answers [] = refl
sent-answers (text ∷ texts) = omega (arith, sent-answers texts)

command_reply-answers : (value : ℤ) → answers (command_reply value) ≡ answered (is_255 value)
unfolding answers
command_reply-answers (negsuc n) = refl
command_reply-answers (pos n) = ground arith

run-answers :
    (p : Pointer) (text : List ℕ) (texts : List (List ℕ)) (value : ℤ) (b : Bool)
    → answers (command_process p text ∷ (map put texts ++ (if b then [] else command_reply value)))
      ≡ length texts + answered (b || is_255 value)
unfolding answers
run-answers p text texts value true =
    append-answers (map put texts) [] ∙ ap (λ n. n + 0) (sent-answers texts)
run-answers p text texts value false =
    append-answers (map put texts) (command_reply value)
    ∙ ap₂ ◌+◌ (sent-answers texts) (command_reply-answers value)

if_monitor :
    (reset : Bool) (o o' : Out) (n : ℕ)
    → answers o.effects ≡ 1
    → answers o'.effects ≡ n
    → answers (if reset then o else o').effects ≡ (if reset then 1 else n)
if_monitor true o o' n e e' = e
if_monitor false o o' n e e' = e'

monitor_reset-answers :
    (last : Pointer) (mode : Bool) (c : Client) (cur : Pointer)
    → answers
        (monitor_reset
          (record { cur_target = cur; last_target = last; flash_mode = mode })
          c).effects
      ≡ 1
unfolding monitor_reset answers
monitor_reset-answers last mode c none = refl
monitor_reset-answers last mode c (some t) = refl

monitor-answers :
    (w : Probe) (s : Server) (c : Client) (packet : List ℕ)
    → answers (monitor w s c packet).effects ≡ monitor_replies w s packet
unfolding monitor monitor_replies
monitor-answers w s c packet =
    let text : List ℕ = command_text w packet in
    let sent : List (List ℕ) = w.command_sent s.cur_target text in
    let (value, text') = w.command s.cur_target text in
    let own : Bool = str_eq text' (codes "ReadAP") || str_eq text' (codes "WriteDP") in
    if_monitor (starts_with (codes "reset") text) (monitor_reset s c) (run_command w s c text)
      (length sent + answered (own || is_255 value))
      (monitor_reset-answers s.last_target s.flash_mode c s.cur_target)
      (run-answers s.cur_target text sent value own)

module _ (w : Probe) (mode : Bool) (c : Client) where
  abbrev at : Pointer → Pointer → Server
  at cur last = record { cur_target = cur; last_target = last; flash_mode = mode }

  hand_out-answers :
      (text : ℕ → Call × List ℕ) (param : List ℕ) (cur last : Pointer)
      → answers
          (hand_out w (at cur last) c (λ t. (call (text t).0 (some t), (text t).1)) param).effects
        ≡ 1
  unfolding hand_out answers
  hand_out-answers text param none last = refl
  hand_out-answers text param (some t) last = refl

  reattached-answers :
      (text : ℕ → Call × List ℕ) (param : List ℕ) (cur last : Pointer)
      → answers
          (hand_out w
            (reattached w (at cur last))
            c
            (λ t. (call (text t).0 (some t), (text t).1))
            param).effects
        ≡ 1
  reattached-answers text param none none = hand_out-answers text param none none
  reattached-answers text param none (some l) = hand_out-answers text param (w.attach l) (some l)
  reattached-answers text param (some t) last = hand_out-answers text param (some t) last

  pub on_query-answers :
      (digits : ℕ → List ℕ) (packet : List ℕ) (cur last : Pointer) (q : Query)
      → answers (on_query digits w (at cur last) c packet q).effects
        ≡ query_replies w (at cur last) packet q
  unfolding on_query query_replies answers
  on_query-answers digits packet cur last rcmd = monitor-answers w (at cur last) c packet
  on_query-answers digits packet cur last supported = refl
  on_query-answers digits packet cur last is_attached = refl
  on_query-answers digits packet cur last memory_map =
      reattached-answers (λ t. (target_mem_map, with_region (w.mem_map t))) (drop 23 packet) cur
        last
  on_query-answers digits packet cur last features =
      reattached-answers (λ t. (target_regs_description, or_empty (w.description t)))
        (drop 31 packet) cur last
  on_query-answers digits packet none last (crc addr alen) = refl
  on_query-answers digits packet (some t) last (crc addr alen) = refl
  on_query-answers digits packet cur last current = refl
  on_query-answers digits packet cur last thread_first = refl
  on_query-answers digits packet cur last thread_next = refl
  on_query-answers digits packet cur last unknown = refl

  on_run-answers :
      (text : List ℕ) (cur last : Pointer) → answers (on_run w (at cur last) c text).effects ≡ 1
  unfolding on_run answers
  on_run-answers text (some t) last = refl
  on_run-answers text none none = refl
  on_run-answers text none (some l) = run_attached-answers w (some l) mode c text none (w.attach l)

  pub on_verb-answers :
      (packet : List ℕ) (cur last : Pointer) (v : Verb)
      → answers (on_verb w (at cur last) c packet v).effects ≡ 1
  unfolding on_verb answers
  on_verb-answers packet cur last (v_attach n) = on_attach-answers w last mode c cur (w.attach_n n)
  on_verb-answers packet cur last v_run =
      on_run-answers (run_cmdline (byte_of w) (drop 4 packet)) cur last
  on_verb-answers packet cur last (flash_erase addr len) =
      on_flash_erase-answers w last mode c addr len cur
  on_verb-answers packet cur last (flash_write addr bin) =
      on_flash_write-answers w last mode c addr (drop bin packet) cur
  on_verb-answers packet cur last v_cont =
      on_cont-answers w last mode c (skip_semicolon (drop 5 packet)) cur
  on_verb-answers packet cur last v_kill = vkill-answers w last mode c cur
  on_verb-answers packet cur last flash_done = on_flash_done-answers w last mode c cur
  on_verb-answers packet cur last stopped = on_stopped-answers w last mode c cur
  on_verb-answers packet cur last Verbose.unknown = refl

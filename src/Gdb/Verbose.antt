-- ===== src/Gdb/Verbose.antt =====
-- `GDB::handle_v_packet` of main/gdb_main.cpp.
use blackmagic_espidf.Base.{
  ℕ, Bool, true, false, none, some, List, [], ◌∷◌, ◌++◌, drop, get_or, ◌==◌, if◌then◌else◌,
}
use blackmagic_espidf.Base.Text.{codes, str_eq}
use blackmagic_espidf.Gdb.State.{
  Pointer, Server, Client, target_reset, target_set_cmdline, target_halt_request,
  target_halt_resume, target_flash_erase, target_flash_write, target_flash_complete, Effect, call,
  Probe, Out, put, answer, then_effects,
}
use blackmagic_espidf.Gdb.Run.{kill}
use blackmagic_espidf.Gdb.Query.{starts_with}
use blackmagic_espidf.Gdb.Cmdline.{run_cmdline}

-- The packets, with what `sscanf` has read.
pub data Verb : Type 0 where
  v_run v_cont v_kill flash_done stopped unknown : Verb
  v_attach : (n : ℕ) → Verb
  flash_erase : (addr len : ℕ) → Verb
  flash_write : (addr bin : ℕ) → Verb

abbrev pub verb_behind_write : List ℕ → Verb
verb_behind_write packet =
    if starts_with (codes "vCont") packet
    then v_cont
    else if starts_with (codes "vKill;") packet
    then v_kill
    else if str_eq packet (codes "vFlashDone")
    then flash_done
    else if str_eq packet (codes "vStopped")
    then stopped
    else unknown

abbrev pub verb_behind_run : Probe → List ℕ → Verb
verb_behind_run w packet = elim (w.scan_erase packet) [
  | some (addr, len) ↦ flash_erase addr len
  | none ↦ elim (w.scan_write packet) [
    | some (addr, bin) ↦ flash_write addr bin
    | none ↦ verb_behind_write packet
  ]
]

unfoldable pub verb : Probe → List ℕ → Verb
verb w packet = elim (w.scan_attach packet) [
  | some n ↦ v_attach n
  | none ↦ if starts_with (codes "vRun") packet then v_run else verb_behind_run w packet
]

-- `cur_target = ...` and the reply to an attachment.
unfoldable pub on_attach : Server → Client → Pointer → Out
on_attach s c none = answer (record s { cur_target = none }) c (codes "E01")
on_attach s c (some t) = answer (record s { cur_target = some t }) c (codes "T05thread:1;")

-- The reset of `vRun`, on a target.
abbrev pub run_target : Server → Client → List ℕ → ℕ → Out
run_target s c cmdline t = record {
  server = s;
  client = c;
  effects =
      call (target_set_cmdline cmdline) (some t)
      ∷ call target_reset (some t)
      ∷ put (codes "T05")
      ∷ [];
}

unfoldable pub run_attached : Server → Client → List ℕ → Pointer → Out
run_attached s c cmdline none = answer (record s { cur_target = none }) c (codes "E01")
run_attached s c cmdline (some t) = run_target (record s { cur_target = some t }) c cmdline t

unfoldable pub on_run : Probe → Server → Client → List ℕ → Out
on_run w s c cmdline = elim s.cur_target [
  | some t ↦ run_target s c cmdline t
  | none ↦ elim s.last_target [
    | none ↦ answer s c (codes "E01")
    | some l ↦ run_attached s c cmdline (w.attach l)
  ]
]

-- The reset in front of the first flash command.
abbrev pub before_flash : Bool → ℕ → List Effect
before_flash true t = []
before_flash false t = call target_reset (some t) ∷ call target_halt_request (some t) ∷ []

unfoldable pub on_flash_erase : Probe → Server → Client → (addr len : ℕ) → Out
on_flash_erase w s c addr len = elim s.cur_target [
  | none ↦ answer s c (codes "EFF")
  | some t ↦
      then_effects (before_flash s.flash_mode t ++ call (target_flash_erase addr len) (some t) ∷ [])
        (if w.erased t addr len
          then answer (record s { flash_mode = true }) c (codes "OK")
          else answer (record s { flash_mode = false }) c (codes "EFF"))
]

unfoldable pub on_flash_write : Probe → Server → Client → (addr : ℕ) → List ℕ → Out
on_flash_write w s c addr bytes = elim s.cur_target [
  | none ↦ answer (record s { flash_mode = false }) c (codes "EFF")
  | some t ↦ then_effects (call (target_flash_write addr bytes) (some t) ∷ []) (
      if w.flashed t addr bytes
      then answer s c (codes "OK")
      else answer (record s { flash_mode = false }) c (codes "EFF"))
]

-- One action of `vCont`.
unfoldable pub act : ℕ → ℕ → Client → Client × List Effect
act t a c =
    if a == b'c'
    then (record c { run_state = true }, call (target_halt_resume c.single_step) (some t) ∷ [])
    else if a == b't'
    then (record c { run_state = true }, call target_halt_request (some t) ∷ [])
    else if a == b's'
    then (record c { run_state = true; single_step = true }, [])
    else (c, [])

-- The loop over them, on a target.
unfoldable pub actions : ℕ → List ℕ → Client → Client × List Effect
unfolding act
actions t [] c = (c, [])
actions t (a ∷ rest) c =
    let (c', done) = act t a c in
    let (c'', done') = actions t rest c' in if a == 0 then (c, []) else (c'', done ++ done')

abbrev pub skip_semicolon : List ℕ → List ℕ
skip_semicolon [] = []
skip_semicolon (c ∷ cs) = if c == b';' then cs else c ∷ cs

unfoldable pub on_cont : Server → Client → List ℕ → Out
unfolding actions
on_cont s c text =
    if get_or text 0 0 == b'?' then answer s c (codes "vCont;c;s;t") else elim s.cur_target [
      | none ↦ answer s c (codes "EFF")
      | some t ↦
          let (c', effects') = actions t text (record c { single_step = false }) in
          then_effects effects' (answer s c' (codes "OK"))
    ]

-- `target_flash_complete` is called on a null pointer too.
unfoldable pub on_flash_done : Probe → Server → Client → Out
on_flash_done w s c = then_effects (call target_flash_complete s.cur_target ∷ []) (
    answer (record s { flash_mode = false }) c
      (if w.completed s.cur_target then codes "OK" else codes "EFF"))

unfoldable pub on_stopped : Server → Client → Out
on_stopped s c =
    if c.gdb_needs_detach_notify
    then answer s (record c { gdb_needs_detach_notify = false }) (codes "W00")
    else answer s c (codes "OK")

abbrev pub answered_kill : Out → Out
answered_kill o = record o { effects = o.effects ++ put (codes "OK") ∷ [] }

-- `unhexify` of two digits.
abbrev pub byte_of : Probe → ℕ → ℕ → ℕ
byte_of w a b = get_or (w.unhexify (a ∷ b ∷ [])) 0 0

-- `plen - bin` bytes are flashed, `plen` being the packet's length.
unfoldable pub on_verb : Probe → Server → Client → List ℕ → Verb → Out
unfolding on_attach on_run on_flash_erase on_flash_write on_cont on_flash_done on_stopped
on_verb w s c packet (v_attach n) = on_attach s c (w.attach_n n)
on_verb w s c packet v_run = on_run w s c (run_cmdline (byte_of w) (drop 4 packet))
on_verb w s c packet (flash_erase addr len) = on_flash_erase w s c addr len
on_verb w s c packet (flash_write addr bin) = on_flash_write w s c addr (drop bin packet)
on_verb w s c packet v_cont = on_cont s c (skip_semicolon (drop 5 packet))
on_verb w s c packet v_kill = answered_kill (kill s c)
on_verb w s c packet flash_done = on_flash_done w s c
on_verb w s c packet stopped = on_stopped s c
on_verb w s c packet unknown = answer s c []

unfoldable pub handle_v_packet : Probe → Server → Client → List ℕ → Out
unfolding verb on_verb
handle_v_packet w s c packet = on_verb w s c packet (verb w packet)

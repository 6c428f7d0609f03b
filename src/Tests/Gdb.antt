-- ===== src/Tests/Gdb.antt =====
-- The GDB server of main/gdb_main.cpp on concrete inputs.
use blackmagic_espidf.Base.{
  ℕ, ◌+◌, ◌*◌, ◌≡◌, refl, true, false, none, some, List, [], ◌∷◌, ◌++◌, length, take, drop,
}
use blackmagic_espidf.Base.Text.{codes, hex_byte, hex_value}
use blackmagic_espidf.Gdb.Memory.{Target}
use blackmagic_espidf.Gdb.Poll.{halt_fault, halt_watchpoint, Session, report, on_halt_reason, reply}
use blackmagic_espidf.Gdb.Report.{stop_report}
use blackmagic_espidf.Gdb.Xfer.{string_part, handle_q_string_reply}

abbrev session : Session
session = record { run_state = true; single_step = true; non_stop = false; has_target = true }

watch_test : stop_report session (halt_watchpoint 0x20000010) ≡ reply (codes "T05watch:20000010;")
unfolding report
watch_test = refl

gone_test : on_halt_reason (record session { has_target = false }) halt_fault ≡ reply (codes "W00")
unfolding on_halt_reason
gone_test = refl

part_test : handle_q_string_reply (λ _. some (2, 9)) (codes "<map/>") [] ≡ codes "map/>"
unfolding handle_q_string_reply string_part
part_test = refl

refused_test : handle_q_string_reply (λ _. none) (codes "<map/>") [] ≡ codes "E01"
unfolding handle_q_string_reply
refused_test = refl

abbrev hexify : List ℕ → List ℕ
hexify [] = []
hexify (c ∷ cs) = hex_byte c ++ hexify cs

abbrev digit : ℕ → ℕ
digit c = elim (hex_value c) [ none ↦ 0 | some d ↦ d ]

abbrev unhexify : List ℕ → List ℕ
unhexify [] = []
unhexify (a ∷ []) = []
unhexify (a ∷ b ∷ cs) = (digit a * 16 + digit b) ∷ unhexify cs

-- A memory of a few bytes; a write replaces those from its address on.
abbrev memory : Target (List ℕ)
memory = record {
  mem_read = λ mem addr len. some (take len (drop addr mem));
  mem_write = λ mem addr bytes. (false, take addr mem ++ bytes ++ drop (addr + length bytes) mem);
}

abbrev before : List ℕ
before = 1 ∷ 2 ∷ 3 ∷ 4 ∷ []

abbrev changed : List ℕ
changed = 1 ∷ 0xAB ∷ 7 ∷ 4 ∷ []

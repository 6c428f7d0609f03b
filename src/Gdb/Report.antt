-- ===== src/Gdb/Report.antt =====
-- How often a halt is reported.
use blackmagic_espidf.Base.{
  ℕ, zero, suc, ◌≡◌, refl, ◌∙◌, ap, Bool, true, false, ◌&&◌, append-nil, List, [], ◌∷◌, ◌++◌,
  replicate, length, if◌then◌else◌,
}
use blackmagic_espidf.Gdb.Poll.{
  Reason, halt_running, halt_error, halt_request, halt_watchpoint, halt_fault, halt_other, Session,
  Sent, notify, report, is_halted, halted, poll, polls,
}

-- The report of a reason in the session's mode.
abbrev pub stop_report : Session → Reason → List Sent
stop_report s reason = if s.non_stop then notify reason else report reason

-- A target that is not run is not polled.
polls-halted :
    (s : Session) (reasons : List Reason) → s.run_state ≡ false → polls s reasons ≡ (s, [])
unfolding polls
polls-halted s [] still = refl
polls-halted s (reason ∷ reasons) still = rw (idle, polls-halted s reasons still) refl
  where
    idle : poll s reason ≡ (s, [])
    idle = unfold poll in rw still refl

module _ (s : Session) (on : s.run_state ≡ true) (target : s.has_target ≡ true) where
  active : (s.run_state && s.has_target) ≡ true
  active = ap (λ b. b && s.has_target) on ∙ target

  poll-running : poll s halt_running ≡ (s, [])
  unfolding poll is_halted notify report
  poll-running = rw active (ap (λ l. (s, l)) (silent s.non_stop))
    where
      silent : (b : Bool) → (if b then notify halt_running else report halt_running) ≡ []
      silent true = refl
      silent false = refl

  poll-halts :
      (reason : Reason) → is_halted reason ≡ true → poll s reason ≡ (halted s, stop_report s reason)
  unfolding poll
  poll-halts reason stops = rw (active, stops) refl

  polls-once :
      (n : ℕ) (reason : Reason) (reasons : List Reason)
      → is_halted reason ≡ true
      → polls s (replicate n halt_running ++ reason ∷ reasons) ≡ (halted s, stop_report s reason)
  unfolding polls
  polls-once zero reason reasons stops =
      rw (poll-halts reason stops, polls-halted (halted s) reasons refl, append-nil) refl
  polls-once (suc n) reason reasons stops =
      rw (poll-running, polls-once n reason reasons stops) refl

one_packet :
    (b : Bool) (reason : Reason)
    → is_halted reason ≡ true
    → length (if b then notify reason else report reason) ≡ 1
unfolding is_halted notify report
one_packet b halt_running stops = cc
one_packet true halt_error stops = refl
one_packet false halt_error stops = refl
one_packet true halt_request stops = refl
one_packet false halt_request stops = refl
one_packet true (halt_watchpoint watch) stops = refl
one_packet false (halt_watchpoint watch) stops = refl
one_packet true halt_fault stops = refl
one_packet false halt_fault stops = refl
one_packet true halt_other stops = refl
one_packet false halt_other stops = refl

-- A run of a target is reported once: in rounds without a packet, while the target runs nothing is
-- sent; the first other reason is sent in one packet, in the mode of the session, and ends the run
-- and a single step; whatever the rounds behind it are, they send nothing and change nothing.
pub polls-report_once :
    (s : Session) (n : ℕ) (reason : Reason) (reasons : List Reason)
    → s.run_state ≡ true
    → s.has_target ≡ true
    → is_halted reason ≡ true
    → (polls s (replicate n halt_running ++ reason ∷ reasons) ≡ (halted s, stop_report s reason))
      × (length (stop_report s reason) ≡ 1)
polls-report_once s n reason reasons on target stops =
    (polls-once s on target n reason reasons stops, one_packet s.non_stop reason stops)

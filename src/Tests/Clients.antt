-- ===== src/Tests/Clients.antt =====
-- Two clients of main/gdb_if.cpp that come and go.
use blackmagic_espidf.Base.{◌≡◌, refl, true, some, [], ◌∷◌, if◌then◌else◌, ◌&&◌, ◌||◌, arith}
use blackmagic_espidf.Base.Int.{pos}
use blackmagic_espidf.Gdb.Run.{not_set, scanned, begin}
use blackmagic_espidf.Channel.Clients.{
  running, ending, client, Net, accepted, moved, here, there, task, destroy, Reach, start, later,
}
use blackmagic_espidf.Channel.Counted.{is_alone, begin-is_alone}
use blackmagic_espidf.Tests.Server.{probe, with_target}

abbrev one : Net
one = record { num_clients = pos 1; clients = client 54 running true ∷ [] }

abbrev two : Net
two = record { num_clients = pos 2; clients = client 55 running true ∷ client 54 running true ∷ [] }

-- The first is destroyed.
abbrev last : Net
last = record { num_clients = pos 1; clients = client 55 running true ∷ client 54 ending true ∷ [] }

Reach-one : Reach one
Reach-one = later (later start (accepted 54 true tt (omega arith))) (moved here task)

Reach-two : Reach two
Reach-two =
    later (later Reach-one (accepted 55 true (λ o. omega arith, tt) (omega arith)))
      (moved here task)

Reach-last : Reach last
Reach-last = later Reach-two (moved (there here) destroy)

begin-is_alone_example : begin probe (some 1) 2 with_target ≡ (
    if (not_set with_target.cur_target && not_set with_target.last_target) || is_alone two.clients 0
    then scanned probe (some 1) with_target
    else with_target)
begin-is_alone_example = begin-is_alone Reach-two 0 2 probe (some 1) with_target refl refl

alone_test : is_alone last.clients 0 ≡ true
unfolding is_alone
alone_test = refl

-- ===== src/Serve/Ending.antt =====
-- cmd/gibson-runner/main.go, `runServe`: that a signal ends it.
use gibson_tool_runner.Base.{
  ℕ, zero, suc, ◌+◌, ◌≤◌, ◌<◌, Bool, true, false, Option, none, some, ◌≡◌, ◌≢◌, arith, Option-cases,
  inl, inr,
}
use gibson_tool_runner.Serve.Process.{
  Server, spawned, serving, gone, failing, Main, starting, waiting, stopping, flushing, finishing,
  End, State, Move, signal, announce, crash, notify, wake, complete, returns, stop_server, flush,
  step,
}

abbrev server_left : Server → ℕ
server_left spawned = 3
server_left serving = 2
server_left (failing e) = 1
server_left gone = 0

abbrev main_left : Main → ℕ
main_left starting = 4
main_left waiting = 3
main_left stopping = 2
main_left flushing = 1
main_left finishing = 0

abbrev signal_left : Bool → ℕ
signal_left true = 0
signal_left false = 1

abbrev end_left : Option End → ℕ
end_left none = 1
end_left (some e) = 0

-- A bound on the moves that are left.
abbrev left : State → ℕ
left s = server_left s.server + main_left s.main + signal_left s.signalled + end_left s.end

step-left : (s t : State) (m : Move) → step s m ≡ some t → left t < left s
unfolding step
step-left s t signal e = ground arith
step-left s t announce e = ground arith
step-left s t (returns r) e = ground arith
step-left s t crash e = ground arith
step-left s t notify e = ground arith
step-left s t wake e = ground arith
step-left s t (stop_server o) e = ground arith
step-left s t (flush o) e = ground arith
step-left s t complete e = ground arith

-- Every run from a state comes to a state with the property, whoever moves: the state has it, or some
-- move is possible and all possible moves lead to such states.
pub data Inevitable (P : State → Type 0) : State → Type 0 where
  now : {s : State} → P s → Inevitable P s
  later :
      {s : State} (m : Move) (t : State)
      → step s m ≡ some t
      → ((m : Move) (t : State) → step s m ≡ some t → Inevitable P t)
      → Inevitable P s

abbrev pub HasEnded : State → Type 0
HasEnded s = s.end ≢ none

-- The next move of `main`, which is always possible with a signal in the channel.
own_move : Main → Move
own_move starting = notify
own_move waiting = wake
own_move stopping = stop_server none
own_move flushing = flush none
own_move finishing = complete

own_step :
    (s : State)
    → s.end ≡ none
    → s.signalled ≡ true
    → (t : State) × (step s (own_move s.main) ≡ some t)
own_step s e h = elim (Option-cases (step s (own_move s.main))) [
  | inr moved ↦ moved
  | inl stuck ↦ absurd (unfold step own_move in ground arith)
]

step-signalled :
    (s t : State) (m : Move) → s.signalled ≡ true → step s m ≡ some t → t.signalled ≡ true
unfolding step
step-signalled s t m h e = ground arith

ends_within : (n : ℕ) (s : State) → left s ≤ n → s.signalled ≡ true → Inevitable HasEnded s
ends_within zero s l h = elim (Option-cases s.end) [
  | inr (end, e) ↦ now (λ f. cc)
  | inl e ↦ absurd (ground arith)
]
ends_within (suc n) s l h = elim (Option-cases s.end) [
  | inr (end, e) ↦ now (λ f. cc)
  | inl e ↦
      let (t, moved) = own_step s e h in
      later (own_move s.main) t moved
        λ m u k. ends_within n u (omega (arith, step-left s u m k)) (step-signalled s u m h k)
]

-- Once a signal is in the channel the process ends, whoever moves from there on and whatever the calls
-- return: it never waits for ever, and every order of moves leads to its end.
pub signalled-Inevitable : (s : State) → s.signalled ≡ true → Inevitable HasEnded s
signalled-Inevitable s h = ends_within (left s) s (omega arith) h

-- ===== src/Serve/Invariant.antt =====
-- cmd/gibson-runner/main.go, `runServe`: what holds between two moves.
use gibson_tool_runner.Base.{
  zero, suc, Bytes, Bool, true, false, List, [], ◌∷◌, Option, none, some, Error, ◌≡◌, refl, subst,
  sym, arith, Option-cases, inl, inr,
}
use gibson_tool_runner.Serve.Process.{
  Server, spawned, serving, gone, failing, Main, starting, waiting, flushing, finishing, End,
  exited, killed, State, started, Move, signal, announce, crash, notify, wake, complete, returns,
  stop_server, flush, step, run,
}

abbrev pub is_woken : Main → Bool
is_woken starting = false
is_woken waiting = false
is_woken _ = true

abbrev pub is_stopped : Main → Bool
is_stopped flushing = true
is_stopped finishing = true
is_stopped _ = false

abbrev pub is_flushed : Main → Bool
is_flushed finishing = true
is_flushed _ = false

abbrev pub is_failing : Server → Bool
is_failing (failing e) = true
is_failing _ = false

abbrev pub Explained : State → Option End → Type 0
Explained s none = Unit
Explained s (some killed) = s.main ≡ starting
Explained s (some (exited zero)) = s.main ≡ finishing
Explained s (some (exited (suc n))) = (n ≡ 0) × (is_failing s.server ≡ true)

pub record Inv (s : State) : Type 0 where
  pub woken : is_woken s.main ≡ true → s.signalled ≡ true
  pub stopped : s.shut_down ≡ is_stopped s.main
  pub flushed : s.flushed ≡ is_flushed s.main
  pub explained : Explained s s.end

pub started-Inv : (addr : Bytes) → Inv (started addr)
started-Inv addr = record { woken = λ h. cc; stopped = refl; flushed = refl; explained = tt }

step-Inv : (s t : State) (m : Move) → Inv s → step s m ≡ some t → Inv t
unfolding step
step-Inv s t signal h e = ground arith
step-Inv s t announce h e = ground arith
step-Inv s t (returns r) h e = ground arith
step-Inv s t crash h e = ground arith
step-Inv s t notify h e = ground arith
step-Inv s t wake h e = ground arith
step-Inv s t (stop_server o) h e = ground arith
step-Inv s t (flush o) h e = ground arith
step-Inv s t complete h e = ground arith

run-Inv : (ms : List Move) (s t : State) → Inv s → run s ms ≡ some t → Inv t
unfolding run
run-Inv [] s t h e = ground arith
run-Inv (m ∷ ms) s t h e = elim (Option-cases (step s m)) [
  | inl stuck ↦ absurd (ground arith)
  | inr (u, moved) ↦ run-Inv ms u t (step-Inv s u m h moved) (ground arith)
]

-- What the end of a process whose server was started says: with exit code 0 a signal came, and the server
-- was shut down before the telemetry was flushed. With exit code 1 `ListenAndServe` had failed on its own. A signal that
-- kills the process came before `signal.Notify`, and no other ending occurs.
pub data IsGraceful (s : State) : End → Type 0 where
  graceful : s.signalled ≡ true → s.shut_down ≡ true → s.flushed ≡ true → IsGraceful s (exited 0)
  broken : (e : Error) → s.server ≡ failing e → IsGraceful s (exited 1)
  early : s.main ≡ starting → s.shut_down ≡ false → s.flushed ≡ false → IsGraceful s killed

failing-of : (v : Server) → is_failing v ≡ true → (e : Error) × (v ≡ failing e)
failing-of (failing e) h = (e, refl)
failing-of spawned h = cc
failing-of serving h = cc
failing-of gone h = cc

Inv-IsGraceful : (s : State) (end : End) → Inv s → s.end ≡ some end → IsGraceful s end
Inv-IsGraceful s end h e = by_end end (subst (Explained s) e h.explained)
  where
    by_end : (end : End) → Explained s (some end) → IsGraceful s end
    by_end killed x = early x (ground (arith, h.stopped)) (ground (arith, h.flushed))
    by_end (exited zero) x =
        graceful (ground (arith, h.woken)) (ground (arith, h.stopped)) (ground (arith, h.flushed))
    by_end (exited (suc n)) x =
        let (failed, why) = failing-of s.server x.1 in
        subst (λ n. IsGraceful s (exited (suc n))) (sym x.0) (broken failed why)

-- From the point where `runServe` starts its server on, whatever the order of the moves: a process that
-- has ended was stopped gracefully, or its server had failed, or a signal came too early, told apart by how
-- it ended. While it runs, `Shutdown` of the telemetry never comes before that of the server, nor either
-- before a signal.
pub run-IsGraceful :
    (addr : Bytes) (ms : List Move) (s : State)
    → run (started addr) ms ≡ some s
    → ((end : End) → s.end ≡ some end → IsGraceful s end)
      × (s.flushed ≡ true → s.shut_down ≡ true)
      × (s.shut_down ≡ true → s.signalled ≡ true)
run-IsGraceful addr ms s e =
    let h : Inv s = run-Inv ms (started addr) s (started-Inv addr) e in
    (
      λ end. Inv-IsGraceful s end h,
      ground (arith, h.stopped, h.flushed),
      ground (arith, h.stopped, h.woken),
    )

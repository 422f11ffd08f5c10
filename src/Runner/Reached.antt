-- ===== src/Runner/Reached.antt =====
-- The states that a run reaches: what it can do between its start and `Close`, in any order. The procedures of
-- ectest/internal/runner/runner.go are such sequences of these operations.
pub mod Forgotten
pub mod Allowed
pub mod Orderly
pub mod Touching
pub mod Rules
pub mod Mapping
pub mod Handback
use minisforum_n5pro_fan_pro.Prelude.{ℕ, ◌≡◌, Bool, true, Option, some}
use minisforum_n5pro_fan_pro.Spec.Sample.{Phase}
use minisforum_n5pro_fan_pro.Runner.Env.{Env, Config}
use minisforum_n5pro_fan_pro.Runner.State.{
  Run, AbortReason, Event, write, manual, send_auto, stop, new_runner, log_event,
}
use minisforum_n5pro_fan_pro.Runner.Sampling.{sample_at}
use minisforum_n5pro_fan_pro.Runner.Hold.{Held, hold_from}
use minisforum_n5pro_fan_pro.Spec.Gate.Defs.{Limit}
use minisforum_n5pro_fan_pro.Runner.Restoring.{close}
use minisforum_n5pro_fan_pro.Runner.Steps.{give_back}

-- The states of a run that began in the state `w` of the machine.
pub data Reached (env : Env) (cfg : Config) (w : env.World) : Run env → Type 0 where
  begun : Reached env cfg w (new_runner env w)
  written :
      (ch duty : ℕ) (r : Run env) → Reached env cfg w r → Reached env cfg w (write env ch duty r).0
  in_manual : (ch : ℕ) (r : Run env) → Reached env cfg w r → Reached env cfg w (manual env ch r).0
  handed_back :
      (ch : ℕ) (r : Run env) → Reached env cfg w r → Reached env cfg w (send_auto env ch r).0
  sampled :
      (phase : Phase) (duty due : Option ℕ) (r : Run env)
      → Reached env cfg w r
      → Reached env cfg w (sample_at env cfg phase duty due r).0
  held :
      (anchor : ℕ) (phase : Phase) (duty : Option ℕ) (d : ℕ) (r : Run env) (h : Held env)
      → Reached env cfg w r
      → hold_from env cfg anchor phase duty d r ≡ some h
      → Reached env cfg w h.run
  stopped :
      (why : AbortReason) (r : Run env) → Reached env cfg w r → Reached env cfg w (stop env why r)
  closed : (r : Run env) → Reached env cfg w r → Reached env cfg w (close env r)
  logged : (e : Event) (r : Run env) → Reached env cfg w r → Reached env cfg w (log_event env e r)
  given_back :
      (ch : ℕ) (r : Run env)
      → Reached env cfg w r
      → r.touched ch ≡ true
      → Reached env cfg w (give_back env ch r)
  limits_seen :
      (seen : Limit → Bool) (r : Run env)
      → Reached env cfg w r
      → Reached env cfg w (record r { limit_sensors = seen })

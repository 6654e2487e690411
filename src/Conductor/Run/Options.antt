-- ===== src/Conductor/Run/Options.antt =====
-- What a run is given, what it keeps, and the tests on texts that it makes.
use autodev_harness.Common.{
  ℕ, ◌+◌, code, String, Bool, true, false, ◌&&◌, ◌||◌, Option, none, some, List, nat_eq, leb,
  if◌then◌else◌,
}
use autodev_harness.Util.Fallible.{Result, Stateful}
use autodev_harness.Util.Text.{is_blank, is_space, includes, starts_with}
use autodev_harness.Blackboard.{Board}
use autodev_harness.Conductor.State.{World, Env, Content}

-- `isNorthStarSilent`
unfoldable pub is_north_star_silent : Option String → Bool
unfolding is_blank includes starts_with
is_north_star_silent none = true
is_north_star_silent (some text) = is_blank text || includes text "<!-- north-star: unfilled -->"

abbrev lower_code : ℕ → ℕ
lower_code n = if leb b'A' n && leb n b'Z' then n + 32 else n

abbrev begins_ignoring_case : String → String → Bool
begins_ignoring_case s String.[] = true
begins_ignoring_case String.[] (String.◌∷◌ d p) = false
begins_ignoring_case (String.◌∷◌ c s) (String.◌∷◌ d p) =
    nat_eq (lower_code (code c)) (code d) && begins_ignoring_case s p

-- `/^\s*DRIFT:/i.test(line)`
unfoldable pub is_drift : String → Bool
is_drift String.[] = false
is_drift (String.◌∷◌ c s) =
    begins_ignoring_case (String.◌∷◌ c s) "drift:" || (is_space c && is_drift s)

pub data OnDrift : Type 0 where
  escalate_task halt_drain : OnDrift

-- `ConductorRunOptions` and `AntiDriftPolicy`.
pub record RunOptions : Type 0 where
  pub once : Bool
  pub max_iterations : Option ℕ
  pub drain : Bool
  pub on_drift : OnDrift
  pub require_north_star : Bool

-- What a run calls, iteration by iteration: the clock at the top of the loop, the environment of the
-- iteration, the board that its scheduler reads, and the runtime files of the task that it claims.
pub record RunEnv : Type 0 where
  pub branch : Result String
  pub allowed_branch : String → Bool
  pub north_star : Result (Option String)
  pub notice_fault : ℕ → Bool
  pub journal_fault : ℕ → Bool
  pub start : ℕ
  pub now : ℕ → ℕ
  pub max_session : ℕ
  pub every_commits : ℕ
  pub iteration : ℕ → Env
  pub seen : ℕ → Board → Board
  pub runtime_files : ℕ → List (String × Content)
  pub anti_drift : ℕ → ℕ → Result String

pub data Notice : Type 0 where
  silent_north_star : Notice
  drift : String → Notice

pub data Nap : Type 0 where
  backoff idle : Nap

-- The world of the iterations, and what the loop itself keeps and does: `windows` are those of the
-- anti-drift checks, `journal` has the parks that were journaled, `calls` counts the calls of
-- `runIteration`, those that throw included.
pub record RunState : Type 0 where
  pub world : World
  pub iterations : ℕ
  pub calls : ℕ
  pub commits_since_drift : ℕ
  pub windows : List ℕ
  pub notices : List Notice
  pub journal : List Notice
  pub naps : List Nap

pub data RunEnd : Type 0 where
  stopped cut_off : RunEnd

abbrev pub R : Type 0 → Type 0
R = Stateful RunState

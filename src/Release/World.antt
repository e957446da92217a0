-- ===== src/Release/World.antt =====
-- The state of an instance as deploy/github-release/agent.py changes it, and actions on it that may
-- fail.
use cloud_billing_console.Prelude.{
  ℕ, ◌+◌, String, Bool, true, false, not, ◌&&◌, ◌||◌, Option, none, some, List, [], str_eq,
  if◌then◌else◌,
}
use cloud_billing_console.Release.Files.{Files}

pub data Phase : Type 0 where
  new staged activating active rolled_back : Phase

pub data Runtime : Type 0 where
  web collector combined : Runtime

-- The pointer github-release-current.json.
pub record Current : Type 0 where
  pub release_id : String
  pub phase : Phase

-- A line of an environment file, `name=value`.
pub record Setting : Type 0 where
  pub name : String
  pub value : String

abbrev pub Environment : Type 0
Environment = List Setting

-- The virtualenv of the collector: nothing, a directory with its content, or a link.
pub data Venv : Type 0 where
  absent : Venv
  directory : String → Venv
  link : String → Venv

-- The journal state.json of a release. `files` has the fields `name` and `existed`.
pub record State : Type 0 where
  pub phase : Phase
  pub runtime : Option Runtime
  pub manifest_version : String
  pub manifest_sha256 : String
  pub image_id : String
  pub additive_migration : Bool
  pub additive_receipt : Bool
  pub files : List (String × Bool)
  pub previous_current : Option Current
  pub previous_venv_link : Option String

pub record Backup : Type 0 where
  pub saved : Files
  pub environment : Option Environment
  pub venv_saved : Option String

-- `env_release` is the temporary file .env.release.
pub record World : Type 0 where
  pub root : Files
  pub env : Environment
  pub env_release : Option Environment
  pub venv : Venv
  pub backup : Option Backup
  pub journal : Option State
  pub current : Option Current
  pub maintenance : Option String
  pub ticks : ℕ

-- The configuration and the release coordinates of an `Agent`, and the staged release.
pub record Agent : Type 0 where
  pub runtime : Runtime
  pub release_id : String
  pub version : String
  pub digest : String
  pub source : Files
  pub stage_venv : String

-- How the operating system answers the action with each number: whether it fails, then whether it
-- has taken effect all the same, what a copy that is cut off leaves, and whether the failure is a
-- ValueError or a CalledProcessError.
pub record Oracle : Type 0 where
  pub fails : ℕ → Bool
  pub late : ℕ → Bool
  pub torn : ℕ → String
  pub caught : ℕ → Bool

pub data Outcome : Type 0 where
  ok : World → Outcome
  raised : World → Outcome

infixl 5 ◌>>=◌
abbrev pub ◌>>=◌ : Outcome → (World → Outcome) → Outcome
ok w >>= f = f w
raised w >>= f = raised w

abbrev pub ticked : World → World
ticked w = record w { ticks = w.ticks + 1 }

-- An action that changes the world by `f`, or by `g` where it fails late.
unfoldable pub attempt : Oracle → (World → World) → (World → World) → World → Outcome
attempt o f g w =
    if o.fails w.ticks
    then raised (ticked (if o.late w.ticks then g w else w))
    else ok (ticked (f w))

abbrev pub unchanged : World → World
unchanged w = w

-- subprocess.run(..., check=True), or a test of its output: nothing of the state here changes.
abbrev pub run : Oracle → World → Outcome
run o w = attempt o unchanged unchanged w

abbrev pub require : Bool → World → Outcome
require true w = ok w
require false w = raised w

abbrev pub has_web : Agent → Bool
has_web a = elim a.runtime [
  | Runtime.web ↦ true
  | Runtime.collector ↦ false
  | Runtime.combined ↦ true
]

abbrev pub has_collector : Agent → Bool
has_collector a = elim a.runtime [
  | Runtime.web ↦ false
  | Runtime.collector ↦ true
  | Runtime.combined ↦ true
]

abbrev pub is_combined : Runtime → Bool
is_combined Runtime.combined = true
is_combined _ = false

abbrev pub initial_state : Agent → State
initial_state a = record {
  phase = Phase.new;
  runtime = some a.runtime;
  manifest_version = a.version;
  manifest_sha256 = a.digest;
  image_id = "";
  additive_migration = false;
  additive_receipt = false;
  files = [];
  previous_current = none;
  previous_venv_link = none;
}

-- state(): none stands for ValueError.
unfoldable pub state : Agent → World → Option State
state a w = elim w.journal [
  | none ↦ some (initial_state a)
  | some s ↦
      if (is_combined a.runtime && not (elim s.runtime [ none ↦ false | some r ↦ is_combined r ]))
        || not (str_eq s.manifest_version a.version && str_eq s.manifest_sha256 a.digest)
      then none
      else some s
]

abbrev pub with_phase : Phase → State → State
with_phase p s = record s { phase = p }

-- save(state, phase): the new journal replaces the old one at once.
abbrev pub save : Oracle → State → Phase → World → Outcome
save o s p =
    attempt o (λ w. record w { journal = some (with_phase p s) })
      (λ w. record w { journal = some (with_phase p s) })

-- write_json(self.current, ...)
abbrev pub point_at : Oracle → Option Current → World → Outcome
point_at o c = attempt o (λ w. record w { current = c }) (λ w. record w { current = c })

-- ===== src/Tests/Client.antt =====
-- Examples for the configuration and the buddy's client.
use clawgard.Prelude.{
  ℕ, ◌-◌, ◌^◌, ◌≡◌, refl, pos, negsuc, Bool, true, none, some, List, [], ◌∷◌, arith, ◌==◌,
  Comparable-ℕ, Comparable-String, if◌then◌else◌,
}
use clawgard.Config.{Host, no_path, load, defaults, with_env}
use clawgard.Config.Overlay.{DevKey, load-DevKey}
use clawgard.Buddy.Backoff.{Backoff, next, advance}
use clawgard.Buddy.Backoff.Delays.{after, advance-after}
use clawgard.Buddy.Supervisor.{no_dial, connected, Round, before, waiting, never, run_supervisor}
use clawgard.Buddy.Supervisor.Reconnects.{run_supervisor-delays}
use clawgard.Buddy.Config.{profiles}
use clawgard.Buddy.KeyFile.{Disk}
use clawgard.Buddy.Listen.{Home, SetupInput}
use clawgard.Buddy.Hook.{split_windows_command}
use clawgard.Buddy.Hook.Splitting.{blank, quoted, split_windows_command-quoted}

abbrev host : Host
host = record {
  env = λ v.
      if v == "CLAWGARD_DEV_MODE" then "true" else if v == "CLAWGARD_ADMIN_KEY" then "k" else "";
  atoi = λ s. none;
  split_trim = λ s. [];
}

load-DevKey_example : DevKey host (with_env host defaults)
unfolding load
load-DevKey_example = load-DevKey host no_path (with_env host defaults) refl (λ e. cc)

abbrev backoff : Backoff
backoff = record { cfg = record { initial = pos 2; max = pos 10; jitter = none }; current = pos 0 }

-- The fourth delay is at the cap.
advance-after_example : advance (after 3 backoff) ≡ pos 10
advance-after_example =
    advance-after 3 backoff 2 10 refl refl refl (omega arith) (omega arith) (omega arith)

-- A greatest delay of 2 ^ 63 - 1 does not stop the doubling from wrapping.
wraps :
    advance (record backoff {
      cfg = record { initial = pos 2; max = pos (2 ^ 63 - 1); jitter = none };
      current = pos (2 ^ 62);
    })
    ≡ negsuc (2 ^ 63 - 1)
unfolding advance
wraps = refl

-- The context ends while the supervisor waits for the third time.
abbrev rounds : List Round
rounds =
    record { attempt = no_dial; stop = never }
    ∷ record { attempt = connected (none ∷ []); stop = never }
    ∷ record { attempt = no_dial; stop = waiting }
    ∷ record { attempt = no_dial; stop = before }
    ∷ []

run_supervisor-delays_example : run_supervisor (λ d. d) (some backoff) rounds ≡ record {
  dials = 3;
  waits = pos 2 ∷ pos 4 ∷ pos 8 ∷ [];
  backoff = record backoff { current = pos 8 };
  returned = true;
}
unfolding next
run_supervisor-delays_example = run_supervisor-delays (λ d. d) (some backoff) rounds

abbrev is_blank : ℕ → Bool
is_blank r = r == blank

abbrev words : List (List ℕ)
words = (b'a' ∷ blank ∷ b'b' ∷ []) ∷ (b'c' ∷ []) ∷ []

split_windows_command-quoted_example : split_windows_command is_blank (quoted words) ≡ words
split_windows_command-quoted_example = split_windows_command-quoted is_blank words refl (
  ((λ e. cc), ((λ e. omega arith), ((λ e. omega arith), ((λ e. omega arith), tt)))),
  (((λ e. cc), ((λ e. omega arith), tt)), tt),
)

abbrev answers : SetupInput
answers = record {
  relay_url = "https://r";
  api_key = 32 ∷ 107 ∷ 10 ∷ [];
  profile = "work";
  api_key_path = "buddy.key";
}

abbrev disk : Disk
disk = record { makes_dir = true; writes = true }

-- Another profile is there, and a key that everybody may read.
abbrev home : Home
home = record {
  config = profiles (("home", "https://h") ∷ ("work", "https://old") ∷ []);
  files = ("buddy.key", record { content = 111 ∷ []; mode = 0o644 }) ∷ [];
}

abbrev home_after : Home
home_after = record {
  config = profiles (("work", "https://r") ∷ ("home", "https://h") ∷ []);
  files = ("buddy.key", record { content = 107 ∷ 10 ∷ []; mode = 0o644 }) ∷ [];
}
